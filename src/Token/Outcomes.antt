-- ===== src/Token/Outcomes.antt =====
-- When `Transfer`, `Mint` and `Burn` succeed (gpl/token/token.go).
use rpcnode.Prelude.{
  ℕ, ◌≡◌, ◌≢◌, ◌⊎◌, GoString, str_eq_iff, true, false, some, arith, ok, err, ◌>>=◌,
}
use rpcnode.Prelude.Int.{ℤ, pos, ◌≤ℤ◌, ◌<ℤ◌}
use rpcnode.Token.Types.{
  insufficient_funds, sender_frozen, recipient_frozen, invalid_amount, unauthorized, TokenInfo,
  TokenAccount, Program,
}
use rpcnode.Token.Store.{get_account, get_token, get_or_create_account}
use rpcnode.Token.{positive, transfer, burn}

-- With a sender's account and a recipient's, or a fresh one, at hand: a transfer of a positive amount
-- between accounts that are not frozen succeeds where the sender holds the amount. An amount that is
-- not positive, a frozen sender, an amount that the sender does not hold, and a frozen recipient are
-- refused, tested in this order, each with its error and without a change.
pub transfer_outcomes :
    (p : Program) (t f d : GoString) (a : ℤ) (b : ℕ) (n : ℤ) (x y : TokenAccount)
    → get_account p.store t f ≡ ok x
    → get_or_create_account p.store t d ≡ ok y
    → let call = transfer t f d (some a) b n p in
      (a ≤ℤ pos 0 → call ≡ (err invalid_amount, p))
      × (pos 0 <ℤ a → x.frozen ≡ true → call ≡ (err sender_frozen, p))
      × (pos 0 <ℤ a → x.frozen ≡ false → x.balance <ℤ a → call ≡ (err insufficient_funds, p))
      × (pos 0 <ℤ a
          → x.frozen ≡ false
          → a ≤ℤ x.balance
          → y.frozen ≡ true
          → call ≡ (err recipient_frozen, p))
      × (pos 0 <ℤ a → x.frozen ≡ false → a ≤ℤ x.balance → y.frozen ≡ false → call.0 ≡ ok tt)
unfolding transfer positive ◌>>=◌
transfer_outcomes p t f d a b n x y hx hy = (
  λ h. ground arith,
  λ h z. ground arith,
  λ h z l. ground arith,
  λ h z l w. ground arith,
  λ h z l w. ground arith,
)

-- On a token and an account that are there: a burn of a positive amount, by the account's owner or by
-- the mint authority, succeeds where the account holds the amount; it is refused where the account
-- holds less, and to anyone else, without a change.
pub burn_outcomes :
    (p : Program) (t e f : GoString) (a : ℤ) (b : ℕ) (n : ℤ) (i : TokenInfo) (x : TokenAccount)
    → get_token p.store t ≡ ok i
    → get_account p.store t f ≡ ok x
    → pos 0 <ℤ a
    → let call = burn t e f (some a) b n p in
      (e ≢ f → e ≢ i.mint_authority → call ≡ (err unauthorized, p))
      × ((e ≡ f) ⊎ (e ≡ i.mint_authority) → x.balance <ℤ a → call ≡ (err insufficient_funds, p))
      × ((e ≡ f) ⊎ (e ≡ i.mint_authority) → a ≤ℤ x.balance → call.0 ≡ ok tt)
unfolding burn positive ◌>>=◌
burn_outcomes p t e f a b n i x hi hx some' = (
  λ other stranger. ground (arith, str_eq_iff e f, str_eq_iff e i.mint_authority),
  λ may less. ground (arith, str_eq_iff e f, str_eq_iff e i.mint_authority),
  λ may enough. ground (arith, str_eq_iff e f, str_eq_iff e i.mint_authority),
)
