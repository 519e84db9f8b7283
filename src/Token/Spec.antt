-- ===== src/Token/Spec.antt =====
-- What each call on the token program is for, as a relation of the stores before and after it: the
-- abstract specification that the methods implement. A constructor has who may make the call, the flags
-- and the allowance that it needs, and what it writes. Token/Step forgets who called.
use rpcnode.Prelude.{
  ℕ, ◌≤◌, ◌≡◌, ◌≢◌, ◌⊎◌, GoString, Bool, false, [], Option, some, Result, ok, err,
}
use rpcnode.Prelude.Int.{ℤ, pos, ◌+ℤ◌, ◌-ℤ◌, ◌≤ℤ◌, ◌<ℤ◌}
use rpcnode.Json.{Json}
use rpcnode.Storage.{MemStorage, has}
use rpcnode.Token.Types.{TokenError, TokenInfo, TokenAccount, Program}
use rpcnode.Token.Store.{
  token_key, get_token, save_token, get_account, get_or_create_account, save_account,
}
use rpcnode.Token.{derive_token_id, amount_or_zero}
use rpcnode.Token.Step.{give}
use rpcnode.Token.Request.{
  Request, create, transfer_req, mint_req, burn_req, approve_req, transfer_from_req, freeze_req,
  set_authority_req,
}

-- the token that a call creates
abbrev pub new_token :
    (GoString → GoString)
    → (name symbol : GoString) (decimals : ℕ) (supply : ℤ)
      (creator mint_authority freeze_authority uri : GoString) (block : ℕ) (created_at : ℤ)
    → TokenInfo
new_token sha256 name symbol decimals supply creator mint_authority freeze_authority uri block
      created_at =
    record {
      id = derive_token_id sha256 creator symbol block;
      name = name;
      symbol = symbol;
      decimals = decimals;
      total_supply = supply;
      mint_authority = mint_authority;
      freeze_auth = freeze_authority;
      creator = creator;
      created_at = created_at;
      uri = uri;
    }

pub data Does (sha256 : GoString → GoString) (s : MemStorage Json)
    : Request → MemStorage Json → Type 0 where
  creates :
      (name symbol : GoString) (decimals : ℕ) (supply : Option ℤ) (v : ℤ)
      (creator mint_auth freeze_auth uri : GoString) (block : ℕ) (c now : ℤ)
      → decimals ≤ 18
      → supply ≡ some v
      → pos 0 ≤ℤ v
      → has s (token_key (derive_token_id sha256 creator symbol block)) ≡ false
      → Does sha256 s
          (create name symbol decimals supply creator mint_auth freeze_auth uri block c now)
          (give (derive_token_id sha256 creator symbol block) creator v (
            save_token
              (new_token sha256 name symbol decimals v creator mint_auth freeze_auth uri block c)
              s))
  transfers :
      (t from to : GoString) (amount : Option ℤ) (v : ℤ) (block : ℕ) (now : ℤ) (x y : TokenAccount)
      → amount ≡ some v
      → pos 0 <ℤ v
      → get_account s t from ≡ ok x
      → x.frozen ≡ false
      → v ≤ℤ x.balance
      → get_or_create_account s t to ≡ ok y
      → y.frozen ≡ false
      → Does sha256 s (transfer_req t from to amount block now) (
          save_account
            (record y { balance = y.balance +ℤ v })
            (save_account (record x { balance = x.balance -ℤ v }) s))
  mints :
      (t authority to : GoString) (amount : Option ℤ) (v : ℤ) (block : ℕ) (now : ℤ) (i : TokenInfo)
      (y : TokenAccount)
      → amount ≡ some v
      → pos 0 <ℤ v
      → get_token s t ≡ ok i
      → i.mint_authority ≡ authority
      → i.mint_authority ≢ []
      → get_or_create_account s t to ≡ ok y
      → Does sha256 s (mint_req t authority to amount block now) (
          save_token
            (record i { total_supply = i.total_supply +ℤ v })
            (save_account (record y { balance = y.balance +ℤ v }) s))
  burns :
      (t authority from : GoString) (amount : Option ℤ) (v : ℤ) (block : ℕ) (now : ℤ)
      (i : TokenInfo) (x : TokenAccount)
      → amount ≡ some v
      → pos 0 <ℤ v
      → get_token s t ≡ ok i
      → (authority ≡ from) ⊎ (authority ≡ i.mint_authority)
      → get_account s t from ≡ ok x
      → v ≤ℤ x.balance
      → Does sha256 s (burn_req t authority from amount block now) (
          save_token
            (record i { total_supply = i.total_supply -ℤ v })
            (save_account (record x { balance = x.balance -ℤ v }) s))
  approves :
      (t owner delegate : GoString) (amount : Option ℤ) (block : ℕ) (now : ℤ) (x : TokenAccount)
      → get_account s t owner ≡ ok x
      → Does sha256 s (approve_req t owner delegate amount block now) (
          save_account
            (record x { delegate = delegate; allowance = some (amount_or_zero amount) })
            s)
  spends :
      (t delegate from to : GoString) (amount : Option ℤ) (v m : ℤ) (block : ℕ) (now : ℤ)
      (x y : TokenAccount)
      → amount ≡ some v
      → pos 0 <ℤ v
      → get_account s t from ≡ ok x
      → x.delegate ≡ delegate
      → x.allowance ≡ some m
      → v ≤ℤ m
      → v ≤ℤ x.balance
      → get_or_create_account s t to ≡ ok y
      → Does sha256 s (transfer_from_req t delegate from to amount block now) (
          save_account
            (record y { balance = y.balance +ℤ v })
            (save_account (record x { balance = x.balance -ℤ v; allowance = some (m -ℤ v) }) s))
  freezes :
      (t authority target : GoString) (freeze : Bool) (i : TokenInfo) (x : TokenAccount)
      → get_token s t ≡ ok i
      → i.freeze_auth ≡ authority
      → i.freeze_auth ≢ []
      → get_or_create_account s t target ≡ ok x
      → Does sha256 s
          (freeze_req t authority target freeze)
          (save_account (record x { frozen = freeze }) s)
  reassigns :
      (t current new : GoString) (i : TokenInfo)
      → get_token s t ≡ ok i
      → i.mint_authority ≡ current
      → Does sha256 s
          (set_authority_req t current new)
          (save_token (record i { mint_authority = new }) s)

-- A call either failed and left the program as it was, events included, or it did what it is for.
pub data Served (sha256 : GoString → GoString) (r : Request) (p : Program) {A : Type 0}
    : Result TokenError A × Program → Type 0 where
  refused : (e : TokenError) → Served sha256 r p (err e, p)
  done : (a : A) (p' : Program) → Does sha256 p.store r p'.store → Served sha256 r p (ok a, p')

-- A call either failed, left the program as it was, and is one that the specification does not let
-- happen; or it did what it is for.
pub data Answered (sha256 : GoString → GoString) (r : Request) (p : Program)
    : Result TokenError (Unit {0}) × Program → Type 0 where
  refuses :
      (e : TokenError)
      → ((s : MemStorage Json) → ¬ Does sha256 p.store r s)
      → Answered sha256 r p (err e, p)
  serves : (p' : Program) → Does sha256 p.store r p'.store → Answered sha256 r p (ok tt, p')
