-- ===== src/Token/Sequence.antt =====
-- Every call on the token program is a failure that changes nothing or does what Token/Spec says of it,
-- and what it does to the store is a step of Token/Step.
use rpcnode.Prelude.{refl, inl, inr, GoString, List, [], ◌∷◌, Result}
use rpcnode.Json.{Json}
use rpcnode.Storage.{MemStorage}
use rpcnode.Token.Types.{TokenError, Program}
use rpcnode.Token.Store.{existing}
use rpcnode.Token.Step.{Step, created, moved, minted, burned, relabelled, reassigned}
use rpcnode.Token.Spec.{
  Does, creates, transfers, mints, burns, approves, spends, freezes, reassigns, Served, refused,
  done,
}
use rpcnode.Token.Request.{
  Request, create, transfer_req, mint_req, burn_req, approve_req, transfer_from_req, freeze_req,
  set_authority_req, outcome, serve, IsAllowed, AreAllowed, serve_all,
}
use rpcnode.Token.Refines.{
  transfer-Served, transfer_from-Served, mint-Served, burn-Served, approve-Served,
  freeze_account-Served, set_mint_authority-Served, create_token-Served,
}

outcome-Served :
    {A : Type 0} (sha256 : GoString → GoString) (q : Request) (p : Program)
    (r : Result TokenError A × Program)
    → Served sha256 q p r
    → Served sha256 q p (outcome r.0, r.1)
outcome-Served sha256 q p r (refused e) = refused e
outcome-Served sha256 q p r (done a p' h) = done tt p' h

pub serve-Served :
    (sha256 : GoString → GoString) (r : Request) (p : Program)
    → Served sha256 r p (serve sha256 r p)
unfolding serve
serve-Served sha256 (create name symbol decimals supply creator m f uri block c n) p =
    outcome-Served sha256 _ p _
      (create_token-Served sha256 p name symbol decimals supply creator m f uri block c n)
serve-Served sha256 (transfer_req t f d a b n) p = transfer-Served sha256 p t f d a b n
serve-Served sha256 (mint_req t e d a b n) p = mint-Served sha256 p t e d a b n
serve-Served sha256 (burn_req t e f a b n) p = burn-Served sha256 p t e f a b n
serve-Served sha256 (approve_req t o d a b n) p = approve-Served sha256 p t o d a b n
serve-Served sha256 (transfer_from_req t e f d a b n) p =
    transfer_from-Served sha256 p t e f d a b n
serve-Served sha256 (freeze_req t e o z) p = freeze_account-Served sha256 p t e o z
serve-Served sha256 (set_authority_req t c n) p = set_mint_authority-Served sha256 p t c n

Does-Step :
    (sha256 : GoString → GoString) (Allowed : GoString → GoString → Type 0) (r : Request)
    (s s' : MemStorage Json)
    → IsAllowed Allowed r
    → Does sha256 s r s'
    → Step sha256 Allowed s s'
Does-Step sha256 Allowed r s s' al
      (creates name symbol decimals supply v creator m f uri block c n small given sound fresh) =
    created creator symbol block _ refl fresh sound
Does-Step sha256 Allowed r s s' al
      (transfers t f d amount v b n x y given some' hx thawed enough hy o) =
    moved t f d v x _ y al hx hy some' enough (record { token_id = refl; owner = refl }) refl
Does-Step sha256 Allowed r s s' al (mints t e d amount v b n i y given some' hi same set hy) =
    minted t d v i y hi set hy some'
Does-Step sha256 Allowed r s s' al (burns t e f amount v b n i x given some' hi may hx enough) =
    burned t f v i x hi hx some' enough
Does-Step sha256 Allowed r s s' al (approves t o d amount b n x hx) =
    relabelled t o x _ (existing t o x s hx) (inl hx) (record { token_id = refl; owner = refl })
      refl
Does-Step sha256 Allowed r s s' al
      (spends t e f d amount v m b n x y given some' hx same allowed covered enough hy) =
    moved t f d v x _ y al hx hy some' enough (record { token_id = refl; owner = refl }) refl
Does-Step sha256 Allowed r s s' al (freezes t e o z i x hi same set hx) =
    relabelled t o x _ hx (inr (i, hi)) (record { token_id = refl; owner = refl }) refl
Does-Step sha256 Allowed r s s' al (reassigns t c new i hi same) = reassigned t new i hi

-- An invariant of the steps is an invariant of every sequence of calls.
module _ {ℓ} (P : MemStorage Json → Type ℓ) (sha256 : GoString → GoString)
    (Allowed : GoString → GoString → Type 0)
    (keep : (s s' : MemStorage Json) → Step sha256 Allowed s s' → P s → P s') where
  Served_keeps :
      {A : Type 0} {p : Program} (q : Request) {r : Result TokenError A × Program}
      → IsAllowed Allowed q
      → Served sha256 q p r
      → P p.store
      → P r.1.store
  Served_keeps q al (refused e) h = h
  Served_keeps {p} q al (done a p' d) h =
      keep p.store p'.store (Does-Step sha256 Allowed q p.store p'.store al d) h

  pub serve_all_keeps :
      (rs : List Request) (p : Program)
      → AreAllowed Allowed rs
      → P p.store
      → P (serve_all sha256 rs p).store
  unfolding serve_all
  serve_all_keeps [] p a h = h
  serve_all_keeps (r ∷ rs) p a h =
      serve_all_keeps rs _ a.1 (Served_keeps r a.0 (serve-Served sha256 r p) h)
