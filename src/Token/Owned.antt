-- ===== src/Token/Owned.antt =====
-- An account exists only for a token that exists.
use rpcnode.Prelude.{
  ◌≡◌, refl, GoString, str_eq, str_eq_iff, SlashFree, true, arith, ok, Bool-cases, Result-cases,
  inl, inr,
}
use rpcnode.Prelude.Int.{pos, ltb_ℤ}
use rpcnode.Json.{Json}
use rpcnode.Storage.{MemStorage, not_found, get, has}
use rpcnode.Storage.Laws.{has-put, has-true}
use rpcnode.Token.Types.{TokenInfo, TokenAccount}
use rpcnode.Token.Codec.{marshal_account, marshal_token}
use rpcnode.Token.Store.{
  token_key, account_key, get_token, save_token, get_account, save_account,
  get_account-save_account, get_account-save_token, get_account-empty, token_key-eq,
}
use rpcnode.Token.{new_program}
use rpcnode.Token.Step.{Step, created, moved, minted, burned, relabelled, reassigned, give}
use rpcnode.Token.Invariant.{IsValid, get_or_create-IsSound, derive_token_id-SlashFree, same_key}
use rpcnode.Token.Supply.{counts, counts-owner, counts-eq}

-- whatever token an account counts for is there
abbrev pub IsOwned : MemStorage Json → Type 0
IsOwned s =
    (t : GoString)
    → SlashFree t
    → (u o : GoString) (x : TokenAccount) → get_account s u o ≡ ok x
    → counts t u o ≡ true
    → has s (token_key t) ≡ true

-- the token that an account of `u` counts for is there
abbrev HasToken : MemStorage Json → GoString → GoString → Type 0
HasToken s u o = (t : GoString) → SlashFree t → counts t u o ≡ true → has s (token_key t) ≡ true

save_account-IsOwned :
    (s : MemStorage Json) (u o : GoString) (x : TokenAccount)
    → account_key x.token_id x.owner ≡ account_key u o
    → HasToken s u o
    → IsOwned s
    → IsOwned (save_account x s)
unfolding save_account
save_account-IsOwned s u o x k there owned t f w p y h c =
    let kept = has-put s (token_key t) (account_key x.token_id x.owner) (marshal_account x) in
    elim (Bool-cases (str_eq (account_key x.token_id x.owner) (account_key w p))) [
      | inl same ↦ ground (
        arith,
        kept,
        there t f
            (rw (← k, (str_eq_iff (account_key x.token_id x.owner) (account_key w p)).0 same) c),
      )
      | inr other ↦
          ground (arith, kept, owned t f w p y (ground (arith, get_account-save_account s w p x)) c)
    ]

save_token-IsOwned : (s : MemStorage Json) (i : TokenInfo) → IsOwned s → IsOwned (save_token i s)
unfolding save_token
save_token-IsOwned s i owned t f w p y h c = ground (
  arith,
  has-put s (token_key t) (token_key i.id) (marshal_token i),
  owned t f w p y (rw (← get_account-save_token s w p i) h) c,
)

has-get_token :
    (s : MemStorage Json) (t : GoString) (i : TokenInfo)
    → get_token s t ≡ ok i
    → has s (token_key t) ≡ true
unfolding get_token
has-get_token s t i h = elim (Result-cases (get s (token_key t))) [
  | inl (not_found, e) ↦ ground arith
  | inr (doc, e) ↦ has-true s (token_key t) e
]

HasToken-account :
    (s : MemStorage Json) (u o p : GoString) (x : TokenAccount)
    → IsOwned s
    → get_account s u o ≡ ok x
    → HasToken s u p
HasToken-account s u o p x owned h t f c = owned t f u o x h (rw (counts-owner t u o p f) c)

HasToken-token :
    (s : MemStorage Json) (u o : GoString) (i : TokenInfo)
    → IsValid s
    → get_token s u ≡ ok i
    → HasToken s u o
HasToken-token s u o i v h t f c =
    let same : t ≡ u = (str_eq_iff t u).0 (rw (← counts-eq t u o f (v.slash u i h)) c) in
    rw same (has-get_token s u i h)

HasToken-save_account :
    (s : MemStorage Json) (u o : GoString) (x : TokenAccount)
    → HasToken s u o
    → HasToken (save_account x s) u o
unfolding save_account
HasToken-save_account s u o x there t f c = ground (
  arith,
  has-put s (token_key t) (account_key x.token_id x.owner) (marshal_account x),
  there t f c,
)

give-IsOwned :
    (s : MemStorage Json) (i : TokenInfo)
    → SlashFree i.id
    → IsOwned s
    → IsOwned (give i.id i.creator i.total_supply (save_token i s))
unfolding save_token
give-IsOwned s i slash w =
    let there : HasToken (save_token i s) i.id i.creator = λ t f c. ground (
      arith,
      has-put s (token_key t) (token_key i.id) (marshal_token i),
      counts-eq t i.id i.creator f slash,
      str_eq_iff t i.id,
      token_key-eq i.id t,
      str_eq_iff i.id t,
    ) in
    let w' = save_token-IsOwned s i w in
    elim (Bool-cases (ltb_ℤ (pos 0) i.total_supply)) [
      | inl some' ↦ rw some' (save_account-IsOwned (save_token i s) i.id i.creator _ refl there w')
      | inr none' ↦ rw none' w'
    ]

-- Every step keeps that.
pub Step-IsOwned :
    {sha256 : GoString → GoString} {Allowed : GoString → GoString → Type 0} {s s' : MemStorage Json}
    → Step sha256 Allowed s s'
    → IsValid s
    → IsOwned s
    → IsOwned s'
Step-IsOwned {sha256} {s = s} (created creator symbol block i e fresh n) v w =
    give-IsOwned s i (rw e (derive_token_id-SlashFree sha256 creator symbol block)) w
Step-IsOwned {s = s} (moved u f d a x x' y r hx hy p enough same e) v w =
    save_account-IsOwned (save_account x' s) u d _ (get_or_create-IsSound s u d y v hy).key
      (HasToken-save_account s u d x' (HasToken-account s u f d x w hx))
      (save_account-IsOwned s u f x' (same_key same (v.account u f x hx).key)
        (HasToken-account s u f f x w hx) w)
Step-IsOwned {s = s} (minted u d a i y hi set hy p) v w = save_token-IsOwned _ _ (
    save_account-IsOwned s u d _ (get_or_create-IsSound s u d y v hy).key
      (HasToken-token s u d i v hi) w)
Step-IsOwned {s = s} (burned u f a i x hi hx p enough) v w =
    save_token-IsOwned _ _
      (save_account-IsOwned s u f _ (v.account u f x hx).key (HasToken-token s u f i v hi) w)
Step-IsOwned {s = s} (relabelled u o x x' hx known same e) v w =
    save_account-IsOwned s u o x' (same_key same (get_or_create-IsSound s u o x v hx).key)
      (elim known [
        | inl h ↦ HasToken-account s u o o x w h
        | inr (i, hi) ↦ HasToken-token s u o i v hi
      ])
      w
Step-IsOwned {s = s} (reassigned u authority i hi) v w = save_token-IsOwned s _ w

pub empty-IsOwned : IsOwned new_program.store
empty-IsOwned t f u o x h c = absurd (get_account-empty u o x h)
