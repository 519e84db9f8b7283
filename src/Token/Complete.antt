-- ===== src/Token/Complete.antt =====
-- A call that Token/Spec allows succeeds, and does what the specification says.
use rpcnode.Prelude.{
  ◌≡◌, ◌≢◌, ◌≤◌, ◌⊎◌, ℕ, Result, inl, inr, refl, arith, GoString, str_eq, str_eq_iff, [], not, ◌&&◌,
  ◌||◌, false, Option, some, ok, ltb, ◌>>=◌,
}
use rpcnode.Prelude.Int.{ℤ, pos, ◌≤ℤ◌, ◌<ℤ◌, ltb_ℤ}
use rpcnode.Json.{Json}
use rpcnode.Storage.{MemStorage}
use rpcnode.Token.Types.{TokenError, TokenInfo, EventLog, Program}
use rpcnode.Token.Store.{save_token}
use rpcnode.Token.Step.{give}
use rpcnode.Token.Spec.{
  Does, creates, transfers, mints, burns, approves, spends, freezes, reassigns, Served, refused,
  done, Answered, refuses, serves,
}
use rpcnode.Token.Request.{Request, serve}
use rpcnode.Token.Refines.{store-emit, store-allocate}
use rpcnode.Token.Sequence.{serve-Served}
use rpcnode.Token.{
  transfer, mint, burn, approve, transfer_from, freeze_account, set_mint_authority, create_token,
  positive, covering, supply_of, emit, allocate, store_token,
}

agreed : (x e : GoString) → x ≡ e → not (str_eq x e) ≡ false
agreed x e h = ground (arith, h, str_eq_iff x e)

nonempty : (x : GoString) → x ≢ [] → str_eq x [] ≡ false
nonempty x h = ground (arith, h, str_eq_iff x [])

permitted : (e f a : GoString) → (e ≡ f) ⊎ (e ≡ a) → (not (str_eq e f) && not (str_eq e a)) ≡ false
permitted e f a (inl h) = rw (agreed e f h)
permitted e f a (inr h) = ground (arith, agreed e a h)

may_freeze : (x e : GoString) → x ≡ e → x ≢ [] → (str_eq x [] || not (str_eq x e)) ≡ false
may_freeze x e h n = rw (nonempty x n, agreed x e h)

covered-false : (x v : ℤ) → v ≤ℤ x → ltb_ℤ x v ≡ false
covered-false x v h = ground (arith, h)

positive_of : (a : Option ℤ) (v : ℤ) → a ≡ some v → pos 0 <ℤ v → positive a ≡ ok v
unfolding positive
positive_of a v e h = ground (arith, e, h)

covering_of : (o : Option ℤ) (a m : ℤ) → o ≡ some m → a ≤ℤ m → covering o a ≡ ok m
unfolding covering
covering_of o a m e h = ground (arith, e, h)

supply_given : (a : Option ℤ) (v : ℤ) → a ≡ some v → pos 0 ≤ℤ v → supply_of a ≡ ok v
unfolding supply_of
supply_given a v e h = ground (arith, e, h)

small_enough : (n : ℕ) → n ≤ 18 → ltb 18 n ≡ false
small_enough n h = ground (arith, h)

stored :
    (i : TokenInfo) (id creator : GoString) (e : EventLog) (p : Program)
    → (emit e (allocate id creator i.total_supply (store_token i p))).store
      ≡ give id creator i.total_supply (save_token i p.store)
stored i id creator e p = rw (store-emit, store-allocate id creator i.total_supply)

module _ (sha256 : GoString → GoString) (p : Program) where
  Does-serve :
      (r : Request) (s' : MemStorage Json)
      → Does sha256 p.store r s'
      → ((serve sha256 r p).0 ≡ ok tt) × ((serve sha256 r p).1.store ≡ s')
  unfolding serve transfer mint burn approve transfer_from freeze_account set_mint_authority
      create_token ◌>>=◌
  Does-serve r s'
        (creates name symbol decimals supply v creator m f uri block c n small given sound fresh) =
      rw (small_enough decimals small, supply_given supply v given sound, fresh)
        (refl, stored _ _ _ _ p)
  Does-serve r s' (transfers t f d amount v b n x y given some' hx thawed enough hy o) =
      rw (positive_of amount v given some', hx, thawed, covered-false x.balance v enough, hy, o)
        (refl, store-emit _ _)
  Does-serve r s' (mints t e d amount v b n i y given some' hi same set hy) =
      rw
        (
          positive_of amount v given some',
          hi,
          nonempty i.mint_authority set,
          agreed i.mint_authority e same,
          hy,
        )
        (refl, store-emit _ _)
  Does-serve r s' (burns t e f amount v b n i x given some' hi may hx enough) =
      rw
        (
          positive_of amount v given some',
          hi,
          permitted e f i.mint_authority may,
          hx,
          covered-false x.balance v enough,
        )
        (refl, store-emit _ _)
  Does-serve r s' (approves t o d amount b n x hx) = rw hx (refl, store-emit _ _)
  Does-serve r s'
        (spends t e f d amount v m b n x y given some' hx same allowed covered enough hy) =
      rw
        (
          positive_of amount v given some',
          hx,
          agreed x.delegate e same,
          covering_of x.allowance v m allowed covered,
          covered-false x.balance v enough,
          hy,
        )
        (refl, store-emit _ _)
  Does-serve r s' (freezes t e o z i x hi same set hx) =
      rw (hi, may_freeze i.freeze_auth e same set, hx) (refl, refl)
  Does-serve r s' (reassigns t c new i hi same) =
      rw (hi, agreed i.mint_authority c same) (refl, refl)

answered :
    (sha256 : GoString → GoString) (r : Request) (p : Program)
    (x : Result TokenError (Unit {0}) × Program)
    → Served sha256 r p x
    → ((s : MemStorage Json) → Does sha256 p.store r s → (x.0 ≡ ok tt) × (x.1.store ≡ s))
    → Answered sha256 r p x
answered sha256 r p x (refused e) h = refuses e (λ s d. ground (arith, (h s d).0))
answered sha256 r p x (done a p' d) h = serves p' d

-- Whatever the call and the program: if Token/Spec lets the call happen, by who makes it and by the flags,
-- the allowance, the amounts and the documents in the store that such a call needs, the call succeeds
-- and the store is the one that Token/Spec describes; if not, it fails, and the program is as it was,
-- events included.
pub serve-Answered :
    (sha256 : GoString → GoString) (r : Request) (p : Program)
    → Answered sha256 r p (serve sha256 r p)
serve-Answered sha256 r p =
    answered sha256 r p (serve sha256 r p) (serve-Served sha256 r p) (Does-serve sha256 p r)
