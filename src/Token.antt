-- ===== src/Token.antt =====
-- gpl/token/token.go, the methods of `Program`: the GYDS-20 token program over the in-memory store and
-- `encoding/json`. A method is one step under the mutex, which takes the program and returns it with
-- the method's result. The clock readings are arguments.
pub mod Types
pub mod Codec
pub mod Store
pub mod Step
pub mod Request
pub mod Spec
pub mod Refines
pub mod Sequence
pub mod Complete
pub mod Invariant
pub mod Supply
pub mod Owned
pub mod Backed
pub mod Transfer
pub mod Delegate
pub mod Written
pub mod Outcomes
pub mod Mint
pub mod Burn
pub mod Authority
mod Examples
mod Tests
use rpcnode.Prelude.{
  ℕ, GoString, bytes, str_eq, Bool, true, false, not, ◌&&◌, ◌||◌, Option, none, some, List, [], ◌∷◌,
  ◌++◌, Result, ok, err, Exec, pure, raise, reads, raise_if, modify, ◌>>=◌, ◌>>◌, ltb, ◌==◌, take,
  length, decimal, hex_encode, if◌then◌else◌,
}
use rpcnode.Prelude.Int.{ℤ, pos, ◌+ℤ◌, ◌-ℤ◌, ltb_ℤ, leb_ℤ}
use rpcnode.Storage.{new_mem_storage, has}
use rpcnode.Token.Types.{
  TokenError, token_not_found, account_not_found, insufficient_funds, unauthorized, invalid_amount,
  mint_authority_fixed, bad_decimals, allowance_exceeded, sender_frozen, recipient_frozen,
  already_exists, TokenInfo, TokenAccount, EventKind, EventLog, Program,
}
use rpcnode.Token.Store.{
  token_key, get_token, save_token, get_account, get_or_create_account, save_account, empty_account,
}

abbrev pub Call : Type 0 → Type 0
Call A = Exec TokenError Program A

-- `NewProgram` over a fresh store
abbrev pub new_program : Program
new_program = record { store = new_mem_storage; events = [] }

abbrev pub event_capacity : ℕ
event_capacity = 256

-- `emit`: an event that does not fit the channel is dropped
pub emit : EventLog → Program → Program
emit e p =
    if ltb (length p.events) event_capacity then record p { events = p.events ++ e ∷ [] } else p

-- `amount == nil || amount.Sign() <= 0`
pub positive : Option ℤ → Result TokenError ℤ
positive none = err invalid_amount
positive (some a) = if leb_ℤ a (pos 0) then err invalid_amount else ok a

abbrev pub store_account : TokenAccount → Program → Program
store_account acc p = record p { store = save_account acc p.store }

abbrev pub store_token : TokenInfo → Program → Program
store_token info p = record p { store = save_token info p.store }

pub transfer : GoString → GoString → GoString → Option ℤ → ℕ → ℤ → Call Unit
transfer token_id from to amount block now = do
  a ← reads (λ p. positive amount)
  from_acc ← reads (λ p. get_account p.store token_id from)
  raise_if from_acc.frozen sender_frozen
  raise_if (ltb_ℤ from_acc.balance a) insufficient_funds
  to_acc ← reads (λ p. get_or_create_account p.store token_id to)
  raise_if to_acc.frozen recipient_frozen
  modify (store_account (record from_acc { balance = from_acc.balance -ℤ a }))
  modify (store_account (record to_acc { balance = to_acc.balance +ℤ a }))
  modify (
      emit (record {
        token_id = token_id;
        event = EventKind.transfer;
        from = from;
        to = to;
        amount = some a;
        authority = [];
        block_num = block;
        tx_hash = [];
        timestamp = now;
      }))

pub mint : GoString → GoString → GoString → Option ℤ → ℕ → ℤ → Call Unit
mint token_id authority to amount block now = do
  a ← reads (λ p. positive amount)
  info ← reads (λ p. get_token p.store token_id)
  raise_if (str_eq info.mint_authority []) mint_authority_fixed
  raise_if (not (str_eq info.mint_authority authority)) unauthorized
  to_acc ← reads (λ p. get_or_create_account p.store token_id to)
  modify (store_account (record to_acc { balance = to_acc.balance +ℤ a }))
  modify (store_token (record info { total_supply = info.total_supply +ℤ a }))
  modify (
      emit (record {
        token_id = token_id;
        event = EventKind.mint;
        from = [];
        to = to;
        amount = some a;
        authority = authority;
        block_num = block;
        tx_hash = [];
        timestamp = now;
      }))

pub burn : GoString → GoString → GoString → Option ℤ → ℕ → ℤ → Call Unit
burn token_id authority from amount block now = do
  a ← reads (λ p. positive amount)
  info ← reads (λ p. get_token p.store token_id)
  raise_if (not (str_eq authority from) && not (str_eq authority info.mint_authority)) unauthorized
  from_acc ← reads (λ p. get_account p.store token_id from)
  raise_if (ltb_ℤ from_acc.balance a) insufficient_funds
  modify (store_account (record from_acc { balance = from_acc.balance -ℤ a }))
  modify (store_token (record info { total_supply = info.total_supply -ℤ a }))
  modify (
      emit (record {
        token_id = token_id;
        event = EventKind.burn;
        from = from;
        to = [];
        amount = some a;
        authority = authority;
        block_num = block;
        tx_hash = [];
        timestamp = now;
      }))

abbrev pub amount_or_zero : Option ℤ → ℤ
amount_or_zero none = pos 0
amount_or_zero (some a) = a

pub approve : GoString → GoString → GoString → Option ℤ → ℕ → ℤ → Call Unit
approve token_id owner delegate amount block now = do
  acc ← reads (λ p. get_account p.store token_id owner)
  modify
      (store_account (record acc { delegate = delegate; allowance = some (amount_or_zero amount) }))
  modify (
      emit (record {
        token_id = token_id;
        event = EventKind.approve;
        from = owner;
        to = delegate;
        amount = some (amount_or_zero amount);
        authority = [];
        block_num = block;
        tx_hash = [];
        timestamp = now;
      }))

-- `fromAcc.Allowance == nil || fromAcc.Allowance.Cmp(amount) < 0`, or the allowance
pub covering : Option ℤ → ℤ → Result TokenError ℤ
covering none a = err allowance_exceeded
covering (some n) a = if ltb_ℤ n a then err allowance_exceeded else ok n

pub transfer_from : GoString → GoString → GoString → GoString → Option ℤ → ℕ → ℤ → Call Unit
transfer_from token_id delegate from to amount block now = do
  a ← reads (λ p. positive amount)
  from_acc ← reads (λ p. get_account p.store token_id from)
  raise_if (not (str_eq from_acc.delegate delegate)) unauthorized
  n ← reads (λ p. covering from_acc.allowance a)
  raise_if (ltb_ℤ from_acc.balance a) insufficient_funds
  to_acc ← reads (λ p. get_or_create_account p.store token_id to)
  modify (
      store_account
        (record from_acc { balance = from_acc.balance -ℤ a; allowance = some (n -ℤ a) }))
  modify (store_account (record to_acc { balance = to_acc.balance +ℤ a }))
  modify (
      emit (record {
        token_id = token_id;
        event = EventKind.transfer_from;
        from = from;
        to = to;
        amount = some a;
        authority = delegate;
        block_num = block;
        tx_hash = [];
        timestamp = now;
      }))

pub freeze_account : GoString → GoString → GoString → Bool → Call Unit
freeze_account token_id freeze_auth target freeze = do
  info ← reads (λ p. get_token p.store token_id)
  raise_if (str_eq info.freeze_auth [] || not (str_eq info.freeze_auth freeze_auth)) unauthorized
  acc ← reads (λ p. get_or_create_account p.store token_id target)
  modify (store_account (record acc { frozen = freeze }))

pub set_mint_authority : GoString → GoString → GoString → Call Unit
set_mint_authority token_id current_auth new_auth = do
  info ← reads (λ p. get_token p.store token_id)
  raise_if (not (str_eq info.mint_authority current_auth)) unauthorized
  modify (store_token (record info { mint_authority = new_auth }))

pub get_token_info : GoString → Program → Result TokenError TokenInfo
get_token_info token_id p = get_token p.store token_id

abbrev balance_or_zero : Result TokenError TokenAccount → Result TokenError ℤ
balance_or_zero (ok acc) = ok acc.balance
balance_or_zero (err account_not_found) = ok (pos 0)
balance_or_zero (err e) = err e

pub get_balance : GoString → GoString → Program → Result TokenError ℤ
get_balance token_id owner p = balance_or_zero (get_account p.store token_id owner)

abbrev allowance_for : GoString → Result TokenError TokenAccount → ℤ
allowance_for spender (err e) = pos 0
allowance_for spender (ok acc) =
    if not (str_eq acc.delegate spender) then pos 0 else amount_or_zero acc.allowance

-- `GetAllowance`, which never returns an error
pub get_allowance : GoString → GoString → GoString → Program → ℤ
get_allowance token_id owner spender p = allowance_for spender (get_account p.store token_id owner)

-- `initialSupply == nil || initialSupply.Sign() < 0`
pub supply_of : Option ℤ → Result TokenError ℤ
supply_of none = err invalid_amount
supply_of (some n) = if ltb_ℤ n (pos 0) then err invalid_amount else ok n

-- the supply goes to the creator, if there is any
abbrev pub allocate : GoString → GoString → ℤ → Program → Program
allocate id creator n p =
    if ltb_ℤ (pos 0) n
    then store_account (record (empty_account id creator) { balance = n }) p
    else p

-- The hash `sha256.Sum256` is a parameter.
module _ (sha256 : GoString → GoString) where
  pub derive_token_id : GoString → GoString → ℕ → GoString
  derive_token_id creator symbol block =
      bytes "0x"
      ++ hex_encode
          (take 16 (sha256 (creator ++ (bytes ":" ++ (symbol ++ (bytes ":" ++ decimal block))))))

  -- The two clock readings are `created_at` and `now`.
  pub create_token :
      (name symbol : GoString) (decimals : ℕ) (initial_supply : Option ℤ)
      (creator mint_authority freeze_authority uri : GoString) (block : ℕ) (created_at now : ℤ)
      → Call GoString
  create_token name symbol decimals initial_supply creator mint_authority freeze_authority uri block
        created_at now =
      do
        raise_if (ltb 18 decimals) bad_decimals
        n ← reads (λ p. supply_of initial_supply)
        let id = derive_token_id creator symbol block
        exists ← reads (λ p. ok (has p.store (token_key id)))
        raise_if exists (already_exists id)
        modify (
            store_token (record {
              id = id;
              name = name;
              symbol = symbol;
              decimals = decimals;
              total_supply = n;
              mint_authority = mint_authority;
              freeze_auth = freeze_authority;
              creator = creator;
              created_at = created_at;
              uri = uri;
            }))
        modify (allocate id creator n)
        modify (
            emit (record {
              token_id = id;
              event = EventKind.create;
              from = [];
              to = creator;
              amount = some n;
              authority = creator;
              block_num = block;
              tx_hash = [];
              timestamp = now;
            }))
        pure id
