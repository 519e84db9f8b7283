-- ===== src/Token/Burn.antt =====
-- `Burn` (gpl/token/token.go): who may call it, and what it does to the supply.
use rpcnode.Prelude.{
  ℕ, ◌≡◌, ◌≢◌, GoString, str_eq, str_eq_iff, false, not, ◌&&◌, ◌⊎◌, some, arith, ok, if◌then◌else◌,
  OnOk, reads-OnOk, raise_if-OnOk, modify-OnOk, last-OnOk, OnOk-eq,
}
use rpcnode.Prelude.Int.{ℤ, ◌-ℤ◌, ◌≤ℤ◌}
use rpcnode.Token.Types.{TokenInfo, TokenAccount, Program}
use rpcnode.Token.Store.{get_token, save_token, get_account, save_account}
use rpcnode.Token.{burn, get_balance, get_token_info}
use rpcnode.Token.Invariant.{IsValid}
use rpcnode.Token.Refines.{store-emit, covers}
use rpcnode.Token.Transfer.{same_amount}
use rpcnode.Token.Written.{token_written, account_written}

-- what a successful `Burn` has read and written
record IsBurned (p : Program) (t e f : GoString) (a : ℤ) (p' : Program) : Type 0 where
  i : TokenInfo
  x : TokenAccount
  info : get_token p.store t ≡ ok i
  sender : get_account p.store t f ≡ ok x
  authority : (e ≡ f) ⊎ (e ≡ i.mint_authority)
  enough : a ≤ℤ x.balance
  written :
      p'.store
      ≡ save_token
          (record i { total_supply = i.total_supply -ℤ a })
          (save_account (record x { balance = x.balance -ℤ a }) p.store)

may_burn : (e f m : GoString) → (not (str_eq e f) && not (str_eq e m)) ≡ false → (e ≡ f) ⊎ (e ≡ m)
may_burn e f m h = ground (arith, str_eq_iff e f, str_eq_iff e m)

burn-IsBurned :
    (t e f : GoString) (a : ℤ) (b : ℕ) (n : ℤ) (p : Program)
    → OnOk (IsBurned p t e f a) (burn t e f (some a) b n p)
unfolding burn
burn-IsBurned t e f a b n p = reads-OnOk _ _ λ v hv. reads-OnOk _ _ λ i hi.
    raise_if-OnOk _ _ _ λ allowed. reads-OnOk _ _ λ x hx. raise_if-OnOk _ _ _ λ enough.
      modify-OnOk _ _ (
        modify-OnOk _ _ (
          last-OnOk _ _ (record {
            i = i;
            x = x;
            info = hi;
            sender = hx;
            authority = may_burn e f i.mint_authority allowed;
            enough = rw (← same_amount a v hv) (covers x.balance v enough);
            written = rw (store-emit, same_amount a v hv);
          })))

module _ (p p' : Program) (t e f : GoString) (a : ℤ) (b : ℕ) (n : ℤ) (v : IsValid p.store)
    (done : burn t e f (some a) b n p ≡ (ok tt, p')) where
  burned : IsBurned p t e f a p'
  burned = OnOk-eq (burn-IsBurned t e f a b n p) done

  abbrev burned_token : TokenInfo
  burned_token = record burned.i { total_supply = burned.i.total_supply -ℤ a }

  abbrev burned_account : TokenAccount
  burned_account = record burned.x { balance = burned.x.balance -ℤ a }

  burned-get_token : get_token p'.store t ≡ ok burned_token
  burned-get_token =
      rw burned.written
        (token_written p.store t f burned_token burned_account (v.token t burned.i burned.info))

  burned-get_account :
      (o : GoString)
      → get_account p'.store t o
        ≡ (if str_eq f o then ok burned_account else get_account p.store t o)
  burned-get_account o = rw burned.written (
      account_written p.store t f burned_token burned_account o
        (v.account t f burned.x burned.sender).key)

  -- On a valid store, a burn that succeeds was called by the account's owner or by the token's
  -- mint authority, for no more than the account held; it lowers the total supply and the
  -- account's balance by the amount, and changes nothing else of the token, nor any other balance
  -- of it.
  pub burn_destroys :
      (i : TokenInfo) (w : ℤ)
      → get_token_info t p ≡ ok i
      → get_balance t f p ≡ ok w
      → ((e ≡ f) ⊎ (e ≡ i.mint_authority))
        × (a ≤ℤ w)
        × (get_token_info t p' ≡ ok (record i { total_supply = i.total_supply -ℤ a }))
        × (get_balance t f p' ≡ ok (w -ℤ a))
        × ((o : GoString) → o ≢ f → get_balance t o p' ≡ get_balance t o p)
  unfolding get_balance get_token_info
  burn_destroys i w hi hw =
      let same : burned.i ≡ i = cc (burned.info, hi) in
      (
        rw (← same) burned.authority,
        ground (arith, burned.sender, burned.enough),
        rw (← same) burned-get_token,
        ground (arith, burned-get_account f, burned.sender, str_eq_iff f f),
        λ o ne. ground (arith, burned-get_account o, str_eq_iff f o),
      )
