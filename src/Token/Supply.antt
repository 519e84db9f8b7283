-- ===== src/Token/Supply.antt =====
-- The supply of a token against the balances of its accounts.
use rpcnode.Prelude.{
  ◌≡◌, refl, GoString, bytes, str_eq, has_prefix, SlashFree, Bool, false, Option, none, some, [],
  ◌∷◌, ◌++◌, arith, Result, ok, err, if◌then◌else◌,
}
use rpcnode.Prelude.Int.{ℤ, pos, ◌+ℤ◌, int_laws}
use rpcnode.Prelude.Dict.{lookup, sum_by, weight_at, sum_by-insert}
use rpcnode.Json.{Json}
use rpcnode.Storage.{MemStorage, get, put}
use rpcnode.Token.Types.{TokenError, TokenInfo, TokenAccount}
use rpcnode.Token.Codec.{
  unmarshal_account, unmarshal_account-marshal_account, marshal_account, marshal_token,
}
use rpcnode.Token.Store.{
  token_key, account_prefix, account_key, save_token, get_account, save_account,
}

-- whether the account of `o` for `u` counts for the token `t`
abbrev pub counts : GoString → GoString → GoString → Bool
counts t u o = has_prefix (account_prefix t) (account_key u o)

abbrev doc_balance : Option TokenAccount → ℤ
doc_balance none = pos 0
doc_balance (some x) = x.balance

-- the balance that a stored document stands for, if its key is one of the token's accounts
abbrev weight : GoString → GoString → Json → ℤ
weight t k doc =
    if has_prefix (account_prefix t) k then doc_balance (unmarshal_account doc) else pos 0

-- the sum of the balances of the token's accounts
unfoldable pub held : GoString → MemStorage Json → ℤ
held t s = sum_by (weight t) s.entries

abbrev pub balance_of : Result TokenError TokenAccount → ℤ
balance_of (ok x) = x.balance
balance_of (err e) = pos 0

weight-account :
    (s : MemStorage Json) (t u o : GoString)
    → weight_at (weight t) (account_key u o) (lookup (account_key u o) s.entries)
      ≡ (if counts t u o then balance_of (get_account s u o) else pos 0)
unfolding get_account get
weight-account s t u o = ground arith

-- A saved account replaces what its key held before.
pub held-save_account :
    (s : MemStorage Json) (t u o : GoString) (x : TokenAccount)
    → account_key x.token_id x.owner ≡ account_key u o
    → held t (save_account x s) +ℤ (if counts t u o then balance_of (get_account s u o) else pos 0)
      ≡ held t s +ℤ (if counts t u o then x.balance else pos 0)
unfolding held save_account put
held-save_account s t u o x e =
    rw (← weight-account s t u o, e)
      (ground (
        arith,
        sum_by-insert (weight t) (account_key u o) (marshal_account x) s.entries,
        unmarshal_account-marshal_account x,
      ))

-- a token's document is no account
token_key-counts : (t i : GoString) → has_prefix (account_prefix t) (token_key i) ≡ false
unfolding token_key has_prefix
token_key-counts t i = refl

pub held-save_token :
    (s : MemStorage Json) (t : GoString) (i : TokenInfo) → held t (save_token i s) ≡ held t s
unfolding held save_token put
held-save_token s t i = grind (
  int_laws,
  sum_by-insert (weight t) (token_key i.id) (marshal_token i) s.entries,
  token_key-counts t i.id,
)

segment :
    (t u o o' : GoString)
    → SlashFree t
    → has_prefix (t ++ bytes "/") ((u ++ bytes "/") ++ o)
      ≡ has_prefix (t ++ bytes "/") ((u ++ bytes "/") ++ o')
unfolding has_prefix
segment [] [] o o' f = refl
segment [] (c ∷ u) o o' f = refl
segment (b ∷ t) [] o o' f = ground arith
segment (b ∷ t) (c ∷ u) o o' f = ground (arith, segment t u o o' f.1)

-- Of a token whose identifier holds no `/`, whether an account counts does not depend on its owner.
pub counts-owner : (t u o o' : GoString) → SlashFree t → counts t u o ≡ counts t u o'
unfolding account_key has_prefix
counts-owner t u o o' f = segment t u o o' f

segment-eq :
    (t u o : GoString)
    → SlashFree t
    → SlashFree u
    → has_prefix (t ++ bytes "/") ((u ++ bytes "/") ++ o) ≡ str_eq t u
unfolding has_prefix str_eq
segment-eq [] [] o f g = refl
segment-eq [] (c ∷ u) o f g = ground arith
segment-eq (b ∷ t) [] o f g = ground arith
segment-eq (b ∷ t) (c ∷ u) o f g = ground (arith, segment-eq t u o f.1 g.1)

-- Between two such tokens only a token's own accounts count.
pub counts-eq : (t u o : GoString) → SlashFree t → SlashFree u → counts t u o ≡ str_eq t u
unfolding account_key has_prefix
counts-eq t u o f g = segment-eq t u o f g
