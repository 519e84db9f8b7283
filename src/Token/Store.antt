-- ===== src/Token/Store.antt =====
-- The storage helpers of gpl/token/token.go: keys, `getToken`, `saveToken`, `getAccount`,
-- `getOrCreateAccount`, `saveAccount`. Their laws make the store two maps, of tokens and accounts.
use rpcnode.Prelude.{
  ◌≡◌, refl, GoString, bytes, str_eq, false, none, [], ◌++◌, arith, Result, ok, err, Result-cases,
  ◌⊎◌, inl, inr, ◌≢◌, append_left_cancel, str_eq-append_left, if◌then◌else◌,
}
use rpcnode.Prelude.Int.{pos}
use rpcnode.Json.{Json}
use rpcnode.Storage.{new_mem_storage, MemStorage, get, put}
use rpcnode.Storage.Document.{decoded}
use rpcnode.Storage.Laws.{get-put}
use rpcnode.Token.Types.{
  TokenError, token_not_found, account_not_found, bad_document, TokenInfo, TokenAccount,
}
use rpcnode.Token.Codec.{
  marshal_token, unmarshal_token, marshal_account, unmarshal_account, unmarshal_token-marshal_token,
  unmarshal_account-marshal_account,
}

unfoldable pub token_key : GoString → GoString
token_key id = bytes "token/info/" ++ id

-- the part of an account's key that its token fixes
abbrev pub account_prefix : GoString → GoString
account_prefix tid = bytes "token/acc/" ++ (tid ++ bytes "/")

unfoldable pub account_key : GoString → GoString → GoString
account_key tid owner = account_prefix tid ++ owner

unfoldable pub get_token : MemStorage Json → GoString → Result TokenError TokenInfo
get_token store id = decoded token_not_found bad_document unmarshal_token (get store (token_key id))

unfoldable pub save_token : TokenInfo → MemStorage Json → MemStorage Json
save_token info = put (token_key info.id) (marshal_token info)

unfoldable pub get_account : MemStorage Json → GoString → GoString → Result TokenError TokenAccount
get_account store tid owner =
    decoded account_not_found bad_document unmarshal_account (get store (account_key tid owner))

abbrev pub empty_account : GoString → GoString → TokenAccount
empty_account tid owner = record {
  token_id = tid;
  owner = owner;
  balance = pos 0;
  frozen = false;
  delegate = [];
  allowance = none;
}

abbrev pub or_created :
    TokenAccount → Result TokenError TokenAccount → Result TokenError TokenAccount
or_created fresh (ok acc) = ok acc
or_created fresh (err account_not_found) = ok fresh
or_created fresh (err e) = err e

unfoldable pub get_or_create_account :
    MemStorage Json → GoString → GoString → Result TokenError TokenAccount
get_or_create_account store tid owner =
    or_created (empty_account tid owner) (get_account store tid owner)

pub existing :
    (t o : GoString) (x : TokenAccount) (s : MemStorage Json)
    → get_account s t o ≡ ok x
    → get_or_create_account s t o ≡ ok x
unfolding get_or_create_account
existing t o x s h = rw h

unfoldable pub save_account : TokenAccount → MemStorage Json → MemStorage Json
save_account acc = put (account_key acc.token_id acc.owner) (marshal_account acc)

pub account_key_injective : (t o o' : GoString) → account_key t o ≡ account_key t o' → o ≡ o'
unfolding account_key
account_key_injective t o o' h = append_left_cancel (account_prefix t) o o' h

token_key-account_key : (i t o : GoString) → str_eq (token_key i) (account_key t o) ≡ false
unfolding token_key account_key str_eq
token_key-account_key i t o = refl

account_key-token_key : (i t o : GoString) → str_eq (account_key t o) (token_key i) ≡ false
unfolding token_key account_key str_eq
account_key-token_key i t o = refl

module _ (s : MemStorage Json) (t o : GoString) where
  pub get_account-save_account :
      (acc : TokenAccount)
      → get_account (save_account acc s) t o ≡ (
          if str_eq (account_key acc.token_id acc.owner) (account_key t o)
          then ok acc
          else get_account s t o)
  unfolding get_account save_account
  get_account-save_account acc = ground (
    arith,
    get-put s (account_key t o) (account_key acc.token_id acc.owner) (marshal_account acc),
    unmarshal_account-marshal_account acc,
  )

  pub get_account-save_token :
      (i : TokenInfo) → get_account (save_token i s) t o ≡ get_account s t o
  unfolding get_account save_token
  get_account-save_token i = rw (
    get-put s (account_key t o) (token_key i.id) (marshal_token i),
    token_key-account_key i.id t o,
  )

module _ (s : MemStorage Json) (t : GoString) where
  pub get_token-save_token :
      (i : TokenInfo)
      → get_token (save_token i s) t
        ≡ (if str_eq (token_key i.id) (token_key t) then ok i else get_token s t)
  unfolding get_token save_token
  get_token-save_token i = ground (
    arith,
    get-put s (token_key t) (token_key i.id) (marshal_token i),
    unmarshal_token-marshal_token i,
  )

  pub get_token-save_account :
      (acc : TokenAccount) → get_token (save_account acc s) t ≡ get_token s t
  unfolding get_token save_account
  get_token-save_account acc = rw (
    get-put s (token_key t) (account_key acc.token_id acc.owner) (marshal_account acc),
    account_key-token_key t acc.token_id acc.owner,
  )

pub account_key-eq : (t o o' : GoString) → str_eq (account_key t o) (account_key t o') ≡ str_eq o o'
unfolding account_key
account_key-eq t o o' = str_eq-append_left (account_prefix t) o o'

pub token_key-eq : (i j : GoString) → str_eq (token_key i) (token_key j) ≡ str_eq i j
unfolding token_key
token_key-eq i j = str_eq-append_left (bytes "token/info/") i j

pub get_or_create-cases :
    (s : MemStorage Json) (t o : GoString) (x : TokenAccount)
    → get_or_create_account s t o ≡ ok x
    → (get_account s t o ≡ ok x)
      ⊎ ((get_account s t o ≡ err account_not_found) × (x ≡ empty_account t o))
unfolding get_or_create_account
get_or_create-cases s t o x h = elim (Result-cases (get_account s t o)) [
  | inl (account_not_found, e) ↦ inr (e, ground arith)
  | inl (other, e) ↦ ground arith
  | inr (y, e) ↦ inl (ground arith)
]

pub get_account-empty : (t o : GoString) (x : TokenAccount) → get_account new_mem_storage t o ≢ ok x
unfolding get_account get
get_account-empty t o x h = cc

pub get_token-empty : (t : GoString) (i : TokenInfo) → get_token new_mem_storage t ≢ ok i
unfolding get_token get
get_token-empty t i h = cc
