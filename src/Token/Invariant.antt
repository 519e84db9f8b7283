-- ===== src/Token/Invariant.antt =====
-- The well-formedness of the token program's store, and that every sequence of calls keeps it.
use rpcnode.Prelude.{
  ℕ, ◌≡◌, GoString, str_eq, str_eq_iff, SlashFree, hex_encode-SlashFree, List, arith, ok,
  Bool-cases, inl, inr,
}
use mathlib.Core.Path.{subst}
use rpcnode.Prelude.Int.{ℤ, pos, ◌≤ℤ◌, ltb_ℤ, int_laws}
use rpcnode.Json.{Json}
use rpcnode.Storage.{MemStorage}
use rpcnode.Token.Types.{TokenInfo, TokenAccount}
use rpcnode.Token.Store.{
  account_key, get_token, save_token, get_account, get_or_create_account, save_account,
  get_or_create-cases, get_account-empty, get_token-empty, get_account-save_account,
  get_account-save_token, get_token-save_token, get_token-save_account, token_key-eq,
}
use rpcnode.Token.{derive_token_id, new_program}
use rpcnode.Token.Step.{
  IsSameAccount, Step, created, moved, minted, burned, relabelled, reassigned, give,
}
use rpcnode.Token.Request.{Request, serve_all, any_allowed}
use rpcnode.Token.Sequence.{serve_all_keeps}

-- what is known of an account that the program reads
pub record IsSound (t o : GoString) (x : TokenAccount) : Type 0 where
  pub key : account_key x.token_id x.owner ≡ account_key t o
  pub nonneg : pos 0 ≤ℤ x.balance

-- Every account and token is stored under its own key, no balance is negative, and no token's
-- identifier holds a `/`.
pub record IsValid (s : MemStorage Json) : Type 0 where
  pub account : (t o : GoString) (x : TokenAccount) → get_account s t o ≡ ok x → IsSound t o x
  pub token : (t : GoString) (i : TokenInfo) → get_token s t ≡ ok i → i.id ≡ t
  pub slash : (t : GoString) (i : TokenInfo) → get_token s t ≡ ok i → SlashFree t

pub save_account-IsValid :
    (s : MemStorage Json) (x : TokenAccount)
    → pos 0 ≤ℤ x.balance
    → IsValid s
    → IsValid (save_account x s)
save_account-IsValid s x n v = record {
  account = λ t o y h. ground (
    arith,
    get_account-save_account s t o x,
    str_eq_iff (account_key x.token_id x.owner) (account_key t o),
    v.account t o y,
  );
  token = λ t i. rw get_token-save_account (v.token t i);
  slash = λ t i. rw get_token-save_account (v.slash t i);
}

pub save_token-IsValid :
    (s : MemStorage Json) (i : TokenInfo) → SlashFree i.id → IsValid s → IsValid (save_token i s)
save_token-IsValid s i f v = record {
  account = λ t o y. rw get_account-save_token (v.account t o y);
  token = λ t j h.
      ground
        (arith, get_token-save_token s t i, token_key-eq i.id t, str_eq_iff i.id t, v.token t j);
  slash = λ t j h. elim (Bool-cases (str_eq i.id t)) [
    | inl same ↦ subst SlashFree ((str_eq_iff i.id t).0 same) f
    | inr other ↦ v.slash t j (ground (arith, get_token-save_token s t i, token_key-eq i.id t))
  ];
}

pub same_key :
    {x x' : TokenAccount} {k : GoString}
    → IsSameAccount x' x
    → account_key x.token_id x.owner ≡ k
    → account_key x'.token_id x'.owner ≡ k
same_key same h = rw (same.token_id, same.owner) h

-- what a method reads from a valid store
pub get_or_create-IsSound :
    (s : MemStorage Json) (t o : GoString) (x : TokenAccount)
    → IsValid s
    → get_or_create_account s t o ≡ ok x
    → IsSound t o x
get_or_create-IsSound s t o x v h = ground (arith, get_or_create-cases s t o x h, v.account t o x)

pub derive_token_id-SlashFree :
    (sha256 : GoString → GoString) (creator symbol : GoString) (block : ℕ)
    → SlashFree (derive_token_id sha256 creator symbol block)
unfolding derive_token_id
derive_token_id-SlashFree sha256 creator symbol block =
    (omega arith, (omega arith, hex_encode-SlashFree _))

give-IsValid :
    (id creator : GoString) (n : ℤ) (s : MemStorage Json)
    → pos 0 ≤ℤ n
    → IsValid s
    → IsValid (give id creator n s)
give-IsValid id creator n s h v = elim (Bool-cases (ltb_ℤ (pos 0) n)) [
  | inl some' ↦ rw some' (save_account-IsValid s _ h v)
  | inr none' ↦ rw none' v
]

token_id-SlashFree :
    (s : MemStorage Json) (t : GoString) (i : TokenInfo)
    → IsValid s
    → get_token s t ≡ ok i
    → SlashFree i.id
token_id-SlashFree s t i v h = rw (v.token t i h) (v.slash t i h)

-- Every step keeps the store valid.
pub Step-IsValid :
    {sha256 : GoString → GoString} {Allowed : GoString → GoString → Type 0} {s s' : MemStorage Json}
    → Step sha256 Allowed s s'
    → IsValid s
    → IsValid s'
Step-IsValid {sha256} {s = s} (created creator symbol block i e fresh n) v =
    give-IsValid i.id i.creator i.total_supply _ n
      (save_token-IsValid s i (rw e (derive_token_id-SlashFree sha256 creator symbol block)) v)
Step-IsValid {s = s} (moved t f d a x x' y r hx hy p enough same e) v =
    save_account-IsValid _ _ (omega (int_laws, get_or_create-IsSound s t d y v hy))
      (save_account-IsValid s x' (rw e (omega (int_laws, v.account t f x hx))) v)
Step-IsValid {s = s} (minted t d a i y hi set hy p) v =
    save_token-IsValid _ _ (token_id-SlashFree s t i v hi)
      (save_account-IsValid s _ (omega (int_laws, get_or_create-IsSound s t d y v hy)) v)
Step-IsValid {s = s} (burned t f a i x hi hx p enough) v =
    save_token-IsValid _ _ (token_id-SlashFree s t i v hi)
      (save_account-IsValid s _ (omega (int_laws, v.account t f x hx)) v)
Step-IsValid {s = s} (relabelled t o x x' hx known same e) v =
    save_account-IsValid s x' (rw e (get_or_create-IsSound s t o x v hx).nonneg) v
Step-IsValid {s = s} (reassigned t authority i hi) v =
    save_token-IsValid s _ (token_id-SlashFree s t i v hi) v

pub empty-IsValid : IsValid new_program.store
empty-IsValid = record {
  account = λ t o x h. absurd (get_account-empty t o x h);
  token = λ t i h. absurd (get_token-empty t i h);
  slash = λ t i h. absurd (get_token-empty t i h);
}

-- From a fresh store, every sequence of calls leaves a valid one: accounts and tokens under their own
-- keys, no negative balance, no `/` in a token's identifier.
pub serve_all-IsValid :
    (sha256 : GoString → GoString) (rs : List Request)
    → IsValid (serve_all sha256 rs new_program).store
serve_all-IsValid sha256 rs =
    serve_all_keeps IsValid sha256 (λ _ _. Unit) (λ s s' st v. Step-IsValid st v) rs new_program
      (any_allowed rs) empty-IsValid
