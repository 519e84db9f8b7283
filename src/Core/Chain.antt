-- ===== src/Core/Chain.antt =====
-- core/chain.go and core/db.go: the chain of blocks, the accounts that its transactions change, and
-- the stored copy of the blocks. `encoding/json` on blocks is a parameter.
use rpcnode.Prelude.{
  ℕ, ◌+◌, ◌%◌, ◌^◌, GoString, bytes, str_eq, ascii_lower, not, Option, none, some, List, [], ◌∷◌,
  ◌++◌, Result, ok, err, ltb, ◌==◌, if◌then◌else◌,
}
use rpcnode.Prelude.Int.{ℤ, pos, ◌+ℤ◌, ◌-ℤ◌, ◌*ℤ◌, to_int64, leb_ℤ, eqb_ℤ}
use rpcnode.Prelude.Dict.{Dict, lookup, insert}
use rpcnode.Storage.{MemStorage, new_mem_storage, put, iterator}
use rpcnode.Core.Types.{
  Transaction, Block, GenesisAlloc, GenesisConfig, ChainError, block_not_found, invalid_block,
  parent_not_found, no_head, AccountState, Chain,
}
use rpcnode.Core.Blocks.{genesis_block}

-- `map[uint64]*Block`
unfoldable pub block_at : ℕ → List (ℕ × Block) → Option Block
block_at n [] = none
block_at n ((m, b) ∷ rest) = if m == n then some b else block_at n rest

abbrev pub last : {A : Type 0} → List A → Option A
last [] = none
last (x ∷ []) = some x
last (x ∷ y ∷ l) = last (y ∷ l)

abbrev pub fresh_account : AccountState
fresh_account = record { balance = pos 0; nonce = 0 }

abbrev pub known : Option AccountState → AccountState
known none = fresh_account
known (some a) = a

-- `if _, ok := accounts[addr]; !ok { accounts[addr] = &AccountState{…} }`
unfoldable pub ensure : GoString → Dict AccountState → Dict AccountState
ensure addr d = insert addr (known (lookup addr d)) d

-- `if to != "" { … }`
abbrev pub if_to :
    GoString → (Dict AccountState → Dict AccountState) → Dict AccountState → Dict AccountState
if_to [] f d = d
if_to (c ∷ cs) f d = f d

-- what the sender pays: the value, and the gas where there is a price and gas was used
unfoldable pub cost_of : ℤ → Option ℤ → ℕ → ℤ
cost_of v none used = v
cost_of v (some price) used = if ltb 0 used then v +ℤ price *ℤ to_int64 used else v

abbrev pub credit : GoString → ℤ → Dict AccountState → Dict AccountState
credit addr v d =
    let acc = known (lookup addr d) in insert addr (record acc { balance = acc.balance +ℤ v }) d

-- the second half of `applyTx`, where the accounts are there
unfoldable pub charge : GoString → GoString → ℤ → ℤ → Dict AccountState → Dict AccountState
charge from to v cost d =
    let acc = known (lookup from d) in
    let paid = record acc { balance = acc.balance -ℤ cost; nonce = (acc.nonce + 1) % 2 ^ 64 } in
    if leb_ℤ cost acc.balance then if_to to (credit to v) (insert from paid d) else d

-- the accounts after a transaction of a value that is not 0
unfoldable pub settle : GoString → GoString → ℤ → ℤ → Dict AccountState → Dict AccountState
settle from to v cost d = charge from to v cost (if_to to (ensure to) (ensure from d))

abbrev pub init_accounts : List GenesisAlloc → Dict AccountState → Dict AccountState
init_accounts [] d = d
init_accounts (a ∷ as') d = init_accounts as' (
    insert (ascii_lower a.address)
      (record { balance = elim a.balance [ none ↦ pos 0 | some b ↦ b ]; nonce = a.nonce }) d)

abbrev pub number_of : Option Block → ℕ
number_of none = 0
number_of (some b) = b.header.number

abbrev pub found_block : Option Block → Result ChainError Block
found_block none = err block_not_found
found_block (some b) = ok b

-- what a transaction does to the accounts
abbrev pub settle_value : Option ℤ → Transaction → Dict AccountState → Dict AccountState
settle_value none tx d = d
settle_value (some v) tx d =
    if eqb_ℤ v (pos 0)
    then d
    else settle (ascii_lower tx.from) (ascii_lower tx.to) v (cost_of v tx.gas_price tx.gas_used) d

module _ {Doc : Type 0} where
  unfoldable pub add_block : Block → Chain Doc → Chain Doc
  add_block b c = record c {
    blocks = c.blocks ++ b ∷ [];
    by_hash = insert b.hash b c.by_hash;
    by_number = (b.header.number, b) ∷ c.by_number;
  }

  unfoldable pub head : Chain Doc → Option Block
  head c = last c.blocks

  unfoldable pub height : Chain Doc → ℕ
  height c = number_of (head c)

  unfoldable pub get_by_hash : GoString → Chain Doc → Result ChainError Block
  get_by_hash h c = found_block (lookup h c.by_hash)

  unfoldable pub get_by_number : ℕ → Chain Doc → Result ChainError Block
  get_by_number n c = found_block (block_at n c.by_number)

  -- `if _, exists := c.byHash[b.Hash]; exists { return nil }`
  abbrev pub unless_known :
      Option Block
      → Chain Doc
      → Result ChainError (Unit {0}) × Chain Doc
      → Result ChainError (Unit {0}) × Chain Doc
  unless_known (some b) c r = (ok tt, c)
  unless_known none c r = r

  unfoldable pub add_to_tx_index : Transaction → Chain Doc → Chain Doc
  add_to_tx_index tx c = record c { tx_index = insert tx.hash tx c.tx_index }

  unfoldable pub apply_tx : Transaction → Chain Doc → Chain Doc
  apply_tx tx c = record (add_to_tx_index tx c) { accounts = settle_value tx.value tx c.accounts }

  unfoldable pub apply_txs : List Transaction → Chain Doc → Chain Doc
  apply_txs [] c = c
  apply_txs (tx ∷ txs) c = apply_txs txs (apply_tx tx c)

  unfoldable pub get_balance : GoString → Chain Doc → ℤ
  get_balance addr c = (known (lookup (ascii_lower addr) c.accounts)).balance

  unfoldable pub get_nonce : GoString → Chain Doc → ℕ
  get_nonce addr c = (known (lookup (ascii_lower addr) c.accounts)).nonce

  unfoldable pub get_transaction : GoString → Chain Doc → Option Transaction
  get_transaction hash c = lookup hash c.tx_index

  unfoldable pub validators : Chain Doc → List GoString
  validators c = c.genesis.validators

  unfoldable pub close : Chain Doc → Chain Doc
  close c = record c { db = none }

  unfoldable pub open_db : Chain Doc → Chain Doc
  open_db c = record c { db = some new_mem_storage }

module _ {Doc : Type 0} (marshal : Block → Option Doc) where
  -- where the document cannot be made nothing is stored
  abbrev pub stored : GoString → Option Doc → MemStorage Doc → MemStorage Doc
  stored key none s = s
  stored key (some doc) s = put key doc s

  unfoldable pub persist_block : Block → Chain Doc → Chain Doc
  persist_block b c = elim c.db [
    | none ↦ c
    | some s ↦ record c { db = some (stored (bytes "block:" ++ b.hash) (marshal b) s) }
  ]

  -- the tests of `InsertBlock` on a block that is not known, and what follows them
  unfoldable pub extend :
      Option Block → Block → Chain Doc → Result ChainError (Unit {0}) × Chain Doc
  extend none b c = (err no_head, c)
  extend (some h) b c =
      if not (str_eq b.header.parent_hash h.hash)
      then (err parent_not_found, c)
      else if not (b.header.number == (h.header.number + 1) % 2 ^ 64)
      then (err invalid_block, c)
      else (ok tt, persist_block b (apply_txs b.transactions (add_block b c)))

  unfoldable pub insert_block : Block → Chain Doc → Result ChainError (Unit {0}) × Chain Doc
  insert_block b c = unless_known (lookup b.hash c.by_hash) c (extend (head c) b c)

module _ {Doc : Type 0} (unmarshal : Doc → Option Block) where
  abbrev pub replay : Option Block → Chain Doc → Chain Doc
  replay none c = c
  replay (some b) c = elim (lookup b.hash c.by_hash) [
    | some _ ↦ c
    | none ↦ apply_txs b.transactions (add_block b c)
  ]

  unfoldable pub load_all : List (GoString × Doc) → Chain Doc → Chain Doc
  load_all [] c = c
  load_all ((k, doc) ∷ rest) c = load_all rest (replay (unmarshal doc) c)

  unfoldable pub load_from_db : Chain Doc → Chain Doc
  load_from_db c = elim c.db [ none ↦ c | some s ↦ load_all (iterator (bytes "block:") s).pairs c ]

  abbrev pub with_genesis : GenesisConfig → GoString → Block → Chain Doc
  with_genesis genesis data_dir b = add_block b (record {
    blocks = [];
    by_hash = [];
    by_number = [];
    genesis = genesis;
    data_dir = data_dir;
    db = none;
    accounts = init_accounts genesis.alloc [];
    tx_index = [];
  })

  -- `NewChain`; `openDB` and `loadFromDB` over the in-memory store return no error
  abbrev pub opened : GoString → Chain Doc → Chain Doc
  opened data_dir c = if str_eq data_dir [] then c else load_from_db (open_db c)

  abbrev pub chain_on : GenesisConfig → GoString → Option Block → Option (Chain Doc)
  chain_on genesis data_dir none = none
  chain_on genesis data_dir (some b) = some (opened data_dir (with_genesis genesis data_dir b))

  -- `NewChain`; `openDB` and `loadFromDB` over the in-memory store return no error
  unfoldable pub new_chain : (GoString → GoString) → GenesisConfig → GoString → Option (Chain Doc)
  new_chain sha256 genesis data_dir = chain_on genesis data_dir (genesis_block sha256 genesis)
