-- ===== src/Token/Mint.antt =====
-- `Mint` (gpl/token/token.go): who may call it, and what it does to the supply.
use rpcnode.Prelude.{
  ℕ, ◌≡◌, ◌≢◌, GoString, str_eq, str_eq_iff, false, not, some, arith, ok, if◌then◌else◌, [], OnOk,
  reads-OnOk, raise_if-OnOk, modify-OnOk, last-OnOk, OnOk-eq,
}
use rpcnode.Prelude.Int.{ℤ, ◌+ℤ◌}
use rpcnode.Token.Types.{TokenInfo, TokenAccount, Program}
use rpcnode.Token.Store.{
  get_token, save_token, get_account, get_or_create_account, save_account, get_or_create-cases,
}
use rpcnode.Token.{mint, get_balance, get_token_info}
use rpcnode.Token.Invariant.{IsValid, get_or_create-IsSound}
use rpcnode.Token.Refines.{store-emit}
use rpcnode.Token.Transfer.{same_amount}
use rpcnode.Token.Written.{token_written, account_written}

-- what a successful `Mint` has read and written
record IsMinted (p : Program) (t e d : GoString) (a : ℤ) (p' : Program) : Type 0 where
  i : TokenInfo
  y : TokenAccount
  info : get_token p.store t ≡ ok i
  recipient : get_or_create_account p.store t d ≡ ok y
  authority : i.mint_authority ≡ e
  granted : e ≢ []
  written :
      p'.store
      ≡ save_token
          (record i { total_supply = i.total_supply +ℤ a })
          (save_account (record y { balance = y.balance +ℤ a }) p.store)

same_authority :
    (x e : GoString) → str_eq x [] ≡ false → not (str_eq x e) ≡ false → (x ≡ e) × (e ≢ [])
same_authority x e g h = ground (arith, str_eq_iff x e, str_eq_iff x [])

mint-IsMinted :
    (t e d : GoString) (a : ℤ) (b : ℕ) (n : ℤ) (p : Program)
    → OnOk (IsMinted p t e d a) (mint t e d (some a) b n p)
unfolding mint
mint-IsMinted t e d a b n p = reads-OnOk _ _ λ v hv. reads-OnOk _ _ λ i hi.
    raise_if-OnOk _ _ _ λ set. raise_if-OnOk _ _ _ λ same. reads-OnOk _ _ λ y hy. modify-OnOk _ _ (
      modify-OnOk _ _ (
        last-OnOk _ _ (record {
          i = i;
          y = y;
          info = hi;
          recipient = hy;
          authority = (same_authority i.mint_authority e set same).0;
          granted = (same_authority i.mint_authority e set same).1;
          written = rw (store-emit, same_amount a v hv);
        })))

module _ (p p' : Program) (t e d : GoString) (a : ℤ) (b : ℕ) (n : ℤ) (v : IsValid p.store)
    (done : mint t e d (some a) b n p ≡ (ok tt, p')) where
  minted : IsMinted p t e d a p'
  minted = OnOk-eq (mint-IsMinted t e d a b n p) done

  abbrev minted_token : TokenInfo
  minted_token = record minted.i { total_supply = minted.i.total_supply +ℤ a }

  abbrev minted_account : TokenAccount
  minted_account = record minted.y { balance = minted.y.balance +ℤ a }

  minted-get_token : get_token p'.store t ≡ ok minted_token
  minted-get_token =
      rw minted.written
        (token_written p.store t d minted_token minted_account (v.token t minted.i minted.info))

  minted-get_account :
      (o : GoString)
      → get_account p'.store t o
        ≡ (if str_eq d o then ok minted_account else get_account p.store t o)
  minted-get_account o = rw minted.written (
      account_written p.store t d minted_token minted_account o
        (get_or_create-IsSound p.store t d minted.y v minted.recipient).key)

  -- On a valid store, a mint that succeeds was called by the token's mint authority, which is not
  -- revoked; it raises the total supply and the recipient's balance by the amount, and changes
  -- nothing else of the token, nor any other balance of it.
  pub mint_issues :
      (i : TokenInfo) (w : ℤ)
      → get_token_info t p ≡ ok i
      → get_balance t d p ≡ ok w
      → (i.mint_authority ≡ e)
        × (e ≢ [])
        × (get_token_info t p' ≡ ok (record i { total_supply = i.total_supply +ℤ a }))
        × (get_balance t d p' ≡ ok (w +ℤ a))
        × ((o : GoString) → o ≢ d → get_balance t o p' ≡ get_balance t o p)
  unfolding get_balance get_token_info
  mint_issues i w hi hw =
      let same : minted.i ≡ i = cc (minted.info, hi) in
      (
        rw (← same) minted.authority,
        minted.granted,
        rw (← same) minted-get_token,
        ground (
          arith,
          minted-get_account d,
          minted.recipient,
          str_eq_iff d d,
          get_or_create-cases p.store t d minted.y,
        ),
        λ o ne. ground (arith, minted-get_account o, str_eq_iff d o),
      )
