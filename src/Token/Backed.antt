-- ===== src/Token/Backed.antt =====
-- The total supply of every token is the sum of the balances of its accounts, as long as no amount
-- is moved from an account to itself.
use rpcnode.Prelude.{
  ◌≡◌, ◌≢◌, refl, GoString, str_eq, str_eq_iff, SlashFree, false, List, arith, Result, ok, err,
  if◌then◌else◌, Bool-cases, Result-cases, ◌∙◌, str_eq_refl, inl, inr,
}
use rpcnode.Prelude.Int.{ℤ, pos, ◌+ℤ◌, ◌-ℤ◌, ◌≤ℤ◌, ltb_ℤ, int_laws}
use rpcnode.Prelude.Dict.{sum_by}
use rpcnode.Json.{Json}
use rpcnode.Storage.{MemStorage, has, get}
use rpcnode.Storage.Laws.{has-false}
use rpcnode.Token.Types.{TokenError, TokenInfo, TokenAccount}
use rpcnode.Token.Store.{
  token_key, account_key, empty_account, get_token, save_token, get_account, get_or_create_account,
  save_account, get_or_create-cases, get_account-save_account, get_account-save_token,
  get_token-save_token, get_token-save_account, account_key-eq, token_key-eq,
}
use rpcnode.Token.{new_program}
use rpcnode.Token.Step.{
  IsSameAccount, Step, created, moved, minted, burned, relabelled, reassigned, give,
}
use rpcnode.Token.Request.{Request, serve_all, AreAllowed}
use rpcnode.Token.Sequence.{serve_all_keeps}
use rpcnode.Token.Invariant.{
  IsValid, Step-IsValid, get_or_create-IsSound, empty-IsValid, derive_token_id-SlashFree,
}
use rpcnode.Token.Owned.{IsOwned, Step-IsOwned, empty-IsOwned}
use rpcnode.Token.Supply.{
  counts, balance_of, held, held-save_account, held-save_token, counts-owner, counts-eq,
}

abbrev pub supply_in : Result TokenError TokenInfo → ℤ
supply_in (ok i) = i.total_supply
supply_in (err e) = pos 0

-- the total supply of a token, 0 for one that does not exist
abbrev pub supply : MemStorage Json → GoString → ℤ
supply s t = supply_in (get_token s t)

abbrev pub IsBacked : MemStorage Json → Type 0
IsBacked s = (t : GoString) → SlashFree t → supply s t ≡ held t s

get_or_create-balance :
    (s : MemStorage Json) (t o : GoString) (y : TokenAccount)
    → get_or_create_account s t o ≡ ok y
    → balance_of (get_account s t o) ≡ y.balance
get_or_create-balance s t o y h = ground (arith, get_or_create-cases s t o y h)

-- an amount that moves between two accounts stays within the token
moved-held :
    (s : MemStorage Json) (t u f d : GoString) (a : ℤ) (x x' y : TokenAccount)
    → SlashFree t
    → f ≢ d
    → IsValid s
    → get_account s u f ≡ ok x
    → get_or_create_account s u d ≡ ok y
    → IsSameAccount x' x
    → x'.balance ≡ x.balance -ℤ a
    → held t (save_account (record y { balance = y.balance +ℤ a }) (save_account x' s)) ≡ held t s
moved-held s t u f d a x x' y slash ne v hx hy same e =
    let kx = (v.account u f x hx).key in
    let ky = (get_or_create-IsSound s u d y v hy).key in
    grind (
      int_laws,
      held-save_account s t u f x' (rw (same.token_id, same.owner) kx),
      held-save_account (save_account x' s) t u d (record y { balance = y.balance +ℤ a }) ky,
      counts-owner t u f d slash,
      get_account-save_account s u d x',
      account_key-eq u f d,
      str_eq_iff f d,
      get_or_create-balance s u d y hy,
    )

-- one account of the token `u` changes by `a` and `b`, in and out
account-held :
    (s : MemStorage Json) (t u o : GoString) (old : ℤ) (x : TokenAccount)
    → account_key x.token_id x.owner ≡ account_key u o
    → balance_of (get_account s u o) ≡ old
    → held t (save_account x s) +ℤ (if counts t u o then old else pos 0)
      ≡ held t s +ℤ (if counts t u o then x.balance else pos 0)
account-held s t u o old x k e = rw (← e) (held-save_account s t u o x k)

supply-save_token :
    (s : MemStorage Json) (t : GoString) (i : TokenInfo)
    → supply (save_token i s) t ≡ (if str_eq i.id t then i.total_supply else supply s t)
supply-save_token s t i = ground (arith, get_token-save_token s t i, token_key-eq i.id t)

supply-save_account :
    (s : MemStorage Json) (t : GoString) (x : TokenAccount)
    → supply (save_account x s) t ≡ supply s t
supply-save_account s t x = rw get_token-save_account

module _ (s : MemStorage Json) (t u o : GoString) (i : TokenInfo) (slash : SlashFree t)
    (v : IsValid s) (b : supply s t ≡ held t s) (hi : get_token s u ≡ ok i) where
  -- an account and the total supply change by the same amount
  issued :
      (j : TokenInfo) (x : TokenAccount) (old : ℤ)
      → j.id ≡ i.id
      → account_key x.token_id x.owner ≡ account_key u o
      → balance_of (get_account s u o) ≡ old
      → j.total_supply +ℤ old ≡ i.total_supply +ℤ x.balance
      → supply (save_token j (save_account x s)) t ≡ held t (save_token j (save_account x s))
  issued j x old same k e sums =
      let id : i.id ≡ u = v.token u i hi in
      grind (
        int_laws,
        supply-save_token (save_account x s) t j,
        supply-save_account s t x,
        held-save_token (save_account x s) t j,
        account-held s t u o old x k e,
        counts-eq t u o slash (v.slash u i hi),
        str_eq_iff t u,
        str_eq_iff j.id t,
      )

has-get_token :
    (s : MemStorage Json) (t : GoString) → has s (token_key t) ≡ false → supply s t ≡ pos 0
unfolding get_token
has-get_token s t h = rw (has-false s (token_key t) h)

no_account :
    (s : MemStorage Json) (i : TokenInfo)
    → IsOwned s
    → has s (token_key i.id) ≡ false
    → SlashFree i.id
    → balance_of (get_account (save_token i s) i.id i.creator) ≡ pos 0
no_account s i owned fresh slash =
    rw get_account-save_token (elim (Result-cases (get_account s i.id i.creator)) [
      | inl (e, h) ↦ rw h
      | inr (x, h) ↦ cc (
        owned i.id slash i.id i.creator x h
            (counts-eq i.id i.id i.creator slash slash ∙ str_eq_refl i.id),
        fresh,
      )
    ])

created-IsBacked :
    (s : MemStorage Json) (i : TokenInfo)
    → SlashFree i.id
    → has s (token_key i.id) ≡ false
    → pos 0 ≤ℤ i.total_supply
    → IsOwned s
    → IsBacked s
    → IsBacked (give i.id i.creator i.total_supply (save_token i s))
created-IsBacked s i slash fresh n owned b t f =
    let s1 = save_token i s in
    let acc = record (empty_account i.id i.creator) { balance = i.total_supply } in
    elim (Bool-cases (ltb_ℤ (pos 0) i.total_supply)) [
      | inl some' ↦ rw some' (
          grind (
            int_laws,
            supply-save_account s1 t acc,
            supply-save_token s t i,
            held-save_token s t i,
            account-held s1 t i.id i.creator (pos 0) acc refl (no_account s i owned fresh slash),
            counts-eq t i.id i.creator f slash,
            str_eq_iff t i.id,
            str_eq_iff i.id t,
            has-get_token s i.id fresh,
            b t f,
          ))
      | inr none' ↦ rw none' (
          grind (
            int_laws,
            supply-save_token s t i,
            held-save_token s t i,
            str_eq_iff i.id t,
            has-get_token s i.id fresh,
            b t f,
          ))
    ]

-- A step that moves nothing from an account to itself keeps every token backed.
pub Step-IsBacked :
    {sha256 : GoString → GoString} {s s' : MemStorage Json}
    → Step sha256 ◌≢◌ s s'
    → IsValid s
    → IsOwned s
    → IsBacked s
    → IsBacked s'
Step-IsBacked {sha256} {s = s} (created creator symbol block i e fresh n) v w b t slash =
    created-IsBacked s i (rw e (derive_token_id-SlashFree sha256 creator symbol block)) fresh n w b
      t slash
Step-IsBacked {s = s} (moved u f d a x x' y ne hx hy p enough same e) v w b t slash =
    rw
      (
        supply-save_account _ t _,
        supply-save_account s t x',
        moved-held s t u f d a x x' y slash ne v hx hy same e,
      )
      (b t slash)
Step-IsBacked {s = s} (minted u d a i y hi set hy p) v w b t slash =
    issued s t u d i slash v (b t slash) hi _ _ y.balance refl
      (get_or_create-IsSound s u d y v hy).key (get_or_create-balance s u d y hy) (omega int_laws)
Step-IsBacked {s = s} (burned u f a i x hi hx p enough) v w b t slash =
    issued s t u f i slash v (b t slash) hi _ _ x.balance refl (v.account u f x hx).key (rw hx)
      (omega int_laws)
Step-IsBacked {s = s} (relabelled u o x x' hx known same e) v w b t slash =
    let k = (get_or_create-IsSound s u o x v hx).key in
    grind (
      int_laws,
      supply-save_account s t x',
      account-held s t u o x.balance x' (rw (same.token_id, same.owner) k)
          (get_or_create-balance s u o x hx),
      b t slash,
    )
Step-IsBacked {s = s} (reassigned u authority i hi) v w b t slash = grind (
  int_laws,
  supply-save_token s t (record i { mint_authority = authority }),
  held-save_token s t (record i { mint_authority = authority }),
  v.token u i hi,
  str_eq_iff i.id t,
  b t slash,
)

abbrev IsSupplied : MemStorage Json → Type 0
IsSupplied s = IsValid s × IsOwned s × IsBacked s

Step-IsSupplied :
    {sha256 : GoString → GoString} (s s' : MemStorage Json)
    → Step sha256 ◌≢◌ s s'
    → IsSupplied s
    → IsSupplied s'
Step-IsSupplied s s' st (v, w, b) = (Step-IsValid st v, Step-IsOwned st v w, Step-IsBacked st v w b)

empty-IsSupplied : IsSupplied new_program.store
unfolding get_token held sum_by get
empty-IsSupplied = (empty-IsValid, empty-IsOwned, λ t f. refl)

-- From a fresh store, after any sequence of calls, failed ones included, of which none moves an amount
-- from an account to itself, the total supply of every token whose identifier holds no `/` (as all
-- that are created) is the sum of the balances of its accounts.
pub serve_all-IsBacked :
    (sha256 : GoString → GoString) (rs : List Request)
    → AreAllowed ◌≢◌ rs
    → (t : GoString) → SlashFree t
    → supply (serve_all sha256 rs new_program).store t
      ≡ held t (serve_all sha256 rs new_program).store
serve_all-IsBacked sha256 rs allowed =
    (serve_all_keeps IsSupplied sha256 ◌≢◌ Step-IsSupplied rs new_program allowed
      empty-IsSupplied).2
