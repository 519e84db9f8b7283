-- ===== src/Token/Refines.antt =====
-- Every method of the token program either fails and changes nothing, or does what Token/Spec says of
-- the call.
use rpcnode.Prelude.{
  inl, inr, ◌⊎◌, not, ◌&&◌, ◌||◌, Bool-cases, ℕ, ◌≡◌, GoString, Bool, false, [], ◌≢◌, str_eq,
  str_eq_iff, Option, some, arith, Result, ok, reads, raise_if, modify, pure, ◌>>=◌, ◌>>◌,
  reads_rule, raise_if_rule, inl, inr,
}
use rpcnode.Prelude.Int.{ℤ, pos, ◌≤ℤ◌, ◌<ℤ◌, ltb_ℤ}
use rpcnode.Token.Types.{TokenError, TokenInfo, EventLog, Program}
use rpcnode.Token.Store.{save_token}
use rpcnode.Token.Step.{give}
use rpcnode.Token.Request.{
  Request, create, transfer_req, mint_req, burn_req, approve_req, transfer_from_req, freeze_req,
  set_authority_req,
}
use rpcnode.Token.Spec.{
  Does, creates, transfers, mints, burns, approves, spends, freezes, reassigns, Served, refused,
  done,
}
use rpcnode.Token.{
  covering, allocate, supply_of, store_token, Call, positive, emit, transfer, mint, burn, approve,
  transfer_from, freeze_account, set_mint_authority, create_token,
}

pub positive-ok : (a : Option ℤ) (v : ℤ) → positive a ≡ ok v → (a ≡ some v) × (pos 0 <ℤ v)
unfolding positive
positive-ok a v h = ground arith

set_authority : (a : GoString) → str_eq a [] ≡ false → a ≢ []
set_authority a h e = cc (h, (str_eq_iff a []).1 e)

pub may_burn :
    (e f a : GoString) → (not (str_eq e f) && not (str_eq e a)) ≡ false → (e ≡ f) ⊎ (e ≡ a)
may_burn e f a h = elim (Bool-cases (str_eq e f)) [
  | inl same ↦ inl ((str_eq_iff e f).0 same)
  | inr other ↦ inr ((str_eq_iff e a).0 (ground (arith, h, other)))
]

pub same_text : (x e : GoString) → not (str_eq x e) ≡ false → x ≡ e
same_text x e h = ground (arith, str_eq_iff x e)

pub covering-ok : (o : Option ℤ) (a m : ℤ) → covering o a ≡ ok m → (o ≡ some m) × (a ≤ℤ m)
unfolding covering
covering-ok o a m h = ground arith

freezer : (x e : GoString) → (str_eq x [] || not (str_eq x e)) ≡ false → (x ≡ e) × (x ≢ [])
freezer x e h = (same_text x e (ground (arith, h)), set_authority x (ground (arith, h)))

pub covers : (x y : ℤ) → ltb_ℤ x y ≡ false → y ≤ℤ x
covers x y h = ground arith

pub store-emit : (e : EventLog) (p : Program) → (emit e p).store ≡ p.store
unfolding emit
store-emit e p = ground arith

pub store-allocate :
    (id creator : GoString) (n : ℤ) (p : Program)
    → (allocate id creator n p).store ≡ give id creator n p.store
store-allocate id creator n p = ground arith

-- the writes at the end of a method
module _ {sha256 : GoString → GoString} {r : Request} {p : Program} where
  two_writes :
      (f g : Program → Program) (e : EventLog)
      → Does sha256 p.store r (g (f p)).store
      → Served sha256 r p ((modify f >> (modify g >> modify (emit e))) p)
  unfolding ◌>>=◌
  two_writes f g e h = done tt _ (rw store-emit h)

  one_write :
      (f : Program → Program) (e : EventLog)
      → Does sha256 p.store r (f p).store
      → Served sha256 r p ((modify f >> modify (emit e)) p)
  unfolding ◌>>=◌
  one_write f e h = done tt _ (rw store-emit h)

  allocation :
      (i : TokenInfo) (e : EventLog)
      → Does sha256 p.store r (give i.id i.creator i.total_supply (save_token i p.store))
      → Served sha256 r p (
          (modify (store_token i)
              >> (modify (allocate i.id i.creator i.total_supply)
                  >> (modify (emit e) >> pure i.id)))
            p)
  unfolding ◌>>=◌
  allocation i e h = done i.id _ (rw (store-emit, store-allocate i.id i.creator i.total_supply) h)

  silent_write :
      (f : Program → Program) → Does sha256 p.store r (f p).store → Served sha256 r p (modify f p)
  unfolding modify
  silent_write f h = done tt _ h

supply_of-ok : (a : Option ℤ) (v : ℤ) → supply_of a ≡ ok v → (a ≡ some v) × (pos 0 ≤ℤ v)
unfolding supply_of
supply_of-ok a v h = ground arith

module _ {sha256 : GoString → GoString} {r : Request} {p : Program} {B : Type 0} where
  reads-Served :
      {A : Type 0} (f : Program → Result TokenError A) (k : A → Call B)
      → ((a : A) → f p ≡ ok a → Served sha256 r p (k a p))
      → Served sha256 r p ((reads f >>= k) p)
  reads-Served f k good = reads_rule (Served sha256 r p) f k p (λ e h. refused e) good

  raise_if-Served :
      (b : Bool) (e : TokenError) (k : Call B)
      → (b ≡ false → Served sha256 r p (k p))
      → Served sha256 r p ((raise_if b e >> k) p)
  raise_if-Served b e k good = raise_if_rule (Served sha256 r p) b e k p (λ h. refused e) good

module _ (sha256 : GoString → GoString) (p : Program) where
  pub transfer-Served :
      (t f d : GoString) (a : Option ℤ) (b : ℕ) (n : ℤ)
      → Served sha256 (transfer_req t f d a b n) p (transfer t f d a b n p)
  unfolding transfer
  transfer-Served t f d a b n = reads-Served _ _ λ v hv. reads-Served _ _ λ x hx.
      raise_if-Served _ _ _ λ thawed. raise_if-Served _ _ _ λ enough. reads-Served _ _ λ y hy.
        raise_if-Served _ _ _ λ open'. two_writes _ _ _ (
          transfers t f d a v b n x y (positive-ok a v hv).0 (positive-ok a v hv).1 hx thawed
            (covers x.balance v enough) hy open')

  pub transfer_from-Served :
      (t e f d : GoString) (a : Option ℤ) (b : ℕ) (n : ℤ)
      → Served sha256 (transfer_from_req t e f d a b n) p (transfer_from t e f d a b n p)
  unfolding transfer_from
  transfer_from-Served t e f d a b n = reads-Served _ _ λ v hv. reads-Served _ _ λ x hx.
      raise_if-Served _ _ _ λ delegated. reads-Served _ _ λ m hm. raise_if-Served _ _ _ λ enough.
        reads-Served _ _ λ y hy. two_writes _ _ _ (
          spends t e f d a v m b n x y (positive-ok a v hv).0 (positive-ok a v hv).1 hx
            (same_text x.delegate e delegated) (covering-ok x.allowance v m hm).0
            (covering-ok x.allowance v m hm).1 (covers x.balance v enough) hy)

  pub mint-Served :
      (t e d : GoString) (a : Option ℤ) (b : ℕ) (n : ℤ)
      → Served sha256 (mint_req t e d a b n) p (mint t e d a b n p)
  unfolding mint
  mint-Served t e d a b n = reads-Served _ _ λ v hv. reads-Served _ _ λ i hi.
      raise_if-Served _ _ _ λ fixed. raise_if-Served _ _ _ λ same. reads-Served _ _ λ y hy.
        two_writes _ _ _ (
          mints t e d a v b n i y (positive-ok a v hv).0 (positive-ok a v hv).1 hi
            (same_text i.mint_authority e same) (set_authority i.mint_authority fixed) hy)

  pub burn-Served :
      (t e f : GoString) (a : Option ℤ) (b : ℕ) (n : ℤ)
      → Served sha256 (burn_req t e f a b n) p (burn t e f a b n p)
  unfolding burn
  burn-Served t e f a b n = reads-Served _ _ λ v hv. reads-Served _ _ λ i hi.
      raise_if-Served _ _ _ λ allowed. reads-Served _ _ λ x hx. raise_if-Served _ _ _ λ enough.
        two_writes _ _ _ (
          burns t e f a v b n i x (positive-ok a v hv).0 (positive-ok a v hv).1 hi
            (may_burn e f i.mint_authority allowed) hx (covers x.balance v enough))

  pub approve-Served :
      (t o d : GoString) (a : Option ℤ) (b : ℕ) (n : ℤ)
      → Served sha256 (approve_req t o d a b n) p (approve t o d a b n p)
  unfolding approve
  approve-Served t o d a b n = reads-Served _ _ λ x hx. one_write _ _ (approves t o d a b n x hx)

  pub freeze_account-Served :
      (t e o : GoString) (z : Bool)
      → Served sha256 (freeze_req t e o z) p (freeze_account t e o z p)
  unfolding freeze_account
  freeze_account-Served t e o z = reads-Served _ _ λ i hi. raise_if-Served _ _ _ λ allowed.
      reads-Served _ _ λ x hx.
        let (same, set) = freezer i.freeze_auth e allowed in
        silent_write _ (freezes t e o z i x hi same set hx)

  pub set_mint_authority-Served :
      (t e o : GoString) → Served sha256 (set_authority_req t e o) p (set_mint_authority t e o p)
  unfolding set_mint_authority
  set_mint_authority-Served t e o = reads-Served _ _ λ i hi.
      raise_if-Served _ _ _
        λ allowed. silent_write _ (reassigns t e o i hi (same_text i.mint_authority e allowed))

  pub create_token-Served :
      (name symbol : GoString) (decimals : ℕ) (supply : Option ℤ)
      (creator mint_auth freeze_auth uri : GoString) (block : ℕ) (c n : ℤ)
      → Served sha256
          (create name symbol decimals supply creator mint_auth freeze_auth uri block c n)
          p
          (create_token sha256 name symbol decimals supply creator mint_auth freeze_auth uri block c
            n p)
  unfolding create_token
  create_token-Served name symbol decimals supply creator mint_auth freeze_auth uri block c n =
      raise_if-Served _ _ _ λ small. reads-Served _ _ λ v hv. reads-Served _ _ λ exists he.
        raise_if-Served _ _ _ λ fresh.
          let (given, sound) = supply_of-ok supply v hv in
          allocation _ _ (
            creates name symbol decimals supply v creator mint_auth freeze_auth uri block c n
              (ground (arith, small)) given sound (ground (arith, he, fresh)))
