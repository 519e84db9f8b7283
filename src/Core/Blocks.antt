-- ===== src/Core/Blocks.antt =====
-- core/block.go, core/transaction.go and `GenesisBlock` of core/genesis.go. SHA-256 and the JSON text
-- of a transaction are parameters, the clock reading an argument.
use rpcnode.Prelude.{
  ℕ, suc, ◌+◌, ◌*◌, ◌%◌, ◌^◌, GoString, bytes, decimal, hex_encode, Option, none, some, List, [],
  ◌∷◌, ◌++◌, length, replicate,
}
use rpcnode.Prelude.Int.{ℤ, pos, negsuc}
use rpcnode.Core.Types.{TxType, Transaction, Header, Block, GenesisConfig}

-- `%d` of a signed number
unfoldable pub decimal_int : ℤ → GoString
decimal_int (pos n) = decimal n
decimal_int (negsuc n) = bytes "-" ++ decimal (suc n)

abbrev colon : GoString → GoString → GoString
colon a b = a ++ (bytes ":" ++ b)

-- `tx.Value.String()`
abbrev pub big_text : Option ℤ → GoString
big_text none = bytes "<nil>"
big_text (some v) = decimal_int v

-- the gas price that `NewTransaction` sets
abbrev pub default_gas_price : ℤ
default_gas_price = pos 1000000000

pub estimate_gas_used : List Transaction → ℕ → ℕ
estimate_gas_used [] total = total
estimate_gas_used (tx ∷ txs) total = estimate_gas_used txs ((total + tx.gas_used) % 2 ^ 64)

pub estimate_block_size : (Transaction → GoString) → List Transaction → ℕ → ℕ
estimate_block_size json [] base = base
estimate_block_size json (tx ∷ txs) base =
    estimate_block_size json txs ((base + length (json tx)) % 2 ^ 64)

-- what `computeTxRoot` writes to the hash
abbrev pub tx_hashes : List Transaction → GoString
tx_hashes [] = []
tx_hashes (tx ∷ txs) = tx.hash ++ tx_hashes txs

abbrev pub zero_root : GoString
zero_root = bytes "0x" ++ replicate 64 48

module _ (sha256 : GoString → GoString) where
  abbrev digest : GoString → GoString
  digest data' = bytes "0x" ++ hex_encode (sha256 data')

  -- `computeHash` of a transaction with that gas price, which is within an `int64`
  pub transaction_hash : GoString → GoString → Option ℤ → ℕ → ℤ → ℤ → GoString
  unfolding decimal_int
  transaction_hash from to value nonce gas_price timestamp = digest (
      colon from (
        colon to (
          colon (big_text value)
            (colon (decimal nonce) (colon (decimal_int gas_price) (decimal_int timestamp))))))

  -- the fields that depend on whether the transaction has data
  abbrev with_data : GoString → Transaction → Transaction
  with_data [] tx = tx
  with_data (b ∷ bs) tx = record tx {
    type = TxType.contract;
    gas_limit = 200000;
    gas_used = (80000 + length (b ∷ bs) * 68) % 2 ^ 64;
  }

  unfoldable pub new_transaction : GoString → GoString → Option ℤ → ℕ → GoString → ℤ → Transaction
  unfolding transaction_hash
  new_transaction from to value nonce data' now = with_data data' (record {
    hash = transaction_hash from to value nonce default_gas_price now;
    from = from;
    to = to;
    value = value;
    gas_limit = 21000;
    gas_price = some default_gas_price;
    gas_used = 21000;
    nonce = nonce;
    data' = data';
    type = TxType.transfer;
    status = bytes "pending";
    timestamp = now;
    block_num = 0;
  })

  unfoldable pub compute_hash : Header → GoString
  unfolding decimal_int
  compute_hash h = digest (
      colon (decimal h.number) (
        colon h.parent_hash (
          colon h.state_root (
            colon h.tx_root (
              colon (decimal_int h.timestamp)
                (colon h.validator (colon (decimal h.gas_used) (decimal h.gas_limit))))))))

  -- `h.Hash = h.ComputeHash()` and the block around it
  abbrev sealed : Header → List Transaction → Block
  sealed h txs = record {
    header = record h { hash = compute_hash h };
    transactions = txs;
    hash = compute_hash h;
  }

  unfoldable pub compute_tx_root : List Transaction → GoString
  compute_tx_root [] = bytes "0x" ++ hex_encode (replicate 32 0)
  compute_tx_root (tx ∷ txs) = digest (tx_hashes (tx ∷ txs))

  abbrev parent_hash_of : Option Header → GoString
  parent_hash_of none = []
  parent_hash_of (some p) = p.hash

  abbrev next_number : Option Header → ℕ
  next_number none = 0
  next_number (some p) = (p.number + 1) % 2 ^ 64

  unfoldable pub new_block :
      (Transaction → GoString) → Option Header → GoString → List Transaction → ℤ → Block
  unfolding compute_hash compute_tx_root estimate_gas_used estimate_block_size
  new_block json parent validator txs now =
      sealed
        (record {
          number = next_number parent;
          hash = [];
          parent_hash = parent_hash_of parent;
          state_root = digest [];
          tx_root = compute_tx_root txs;
          receipt_root = digest [];
          validator = validator;
          timestamp = now;
          gas_limit = 30000000;
          gas_used = estimate_gas_used txs 0;
          difficulty = some (pos 1);
          extra_data = [];
          size = estimate_block_size json txs 500;
        })
        txs

  -- `GenesisBlock`, for a configuration that is not nil. It reads the first validator, so it fails
  -- where there is none.
  unfoldable pub genesis_block : GenesisConfig → Option Block
  unfolding compute_hash
  genesis_block cfg = elim cfg.validators [
    | [] ↦ none
    | v ∷ vs ↦ some (
        sealed
          (record {
            number = 0;
            hash = [];
            parent_hash = zero_root;
            state_root = zero_root;
            tx_root = zero_root;
            receipt_root = zero_root;
            validator = v;
            timestamp = cfg.timestamp;
            gas_limit = cfg.gas_limit;
            gas_used = 0;
            difficulty = cfg.difficulty;
            extra_data = [];
            size = 512;
          })
          [])
  ]
