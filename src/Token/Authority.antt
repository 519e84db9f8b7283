-- ===== src/Token/Authority.antt =====
-- `SetMintAuthority` and the revoked authority (gpl/token/token.go).
use rpcnode.Prelude.{ℕ, ◌≡◌, GoString, str_eq_iff, some, arith, ok, err, [], ◌>>=◌}
use rpcnode.Prelude.Int.{ℤ, pos, ◌<ℤ◌}
use rpcnode.Token.Types.{mint_authority_fixed, TokenInfo, Program}
use rpcnode.Token.Store.{get_token-save_token, token_key-eq}
use rpcnode.Token.{positive, mint, set_mint_authority, get_token_info}
use rpcnode.Token.Invariant.{IsValid}

module _ (p : Program) (t c : GoString) (i : TokenInfo) (v : IsValid p.store)
    (hi : get_token_info t p ≡ ok i) (same : i.mint_authority ≡ c) where
  -- On a valid store, the current authority can hand minting to another, after which the token
  -- names the other and is otherwise as it was. This holds for an authority that was revoked, too,
  -- which is the empty string: a caller who gives the empty string as the current authority brings
  -- minting back.
  pub set_mint_authority_lem :
      (new : GoString)
      → let (r, p') = set_mint_authority t c new p in
        (r ≡ ok tt) × (get_token_info t p' ≡ ok (record i { mint_authority = new }))
  unfolding set_mint_authority get_token_info ◌>>=◌
  set_mint_authority_lem new = (
    ground (arith, str_eq_iff i.mint_authority c),
    ground (
      arith,
      str_eq_iff i.mint_authority c,
      get_token-save_token p.store t (record i { mint_authority = new }),
      token_key-eq i.id t,
      str_eq_iff i.id t,
      v.token t i,
    ),
  )

  -- While the authority is revoked nobody can mint: a call with a positive amount is refused and
  -- changes nothing.
  pub revoked_mint_fails :
      (e d : GoString) (a : ℤ) (b : ℕ) (n : ℤ)
      → c ≡ []
      → pos 0 <ℤ a
      → mint t e d (some a) b n p ≡ (err mint_authority_fixed, p)
  unfolding mint get_token_info positive ◌>>=◌
  revoked_mint_fails e d a b n revoked positive' = ground (arith, str_eq_iff i.mint_authority [])
