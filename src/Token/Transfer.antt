-- ===== src/Token/Transfer.antt =====
-- What `Transfer` and `TransferFrom` do to balances, allowances and frozen accounts.
use rpcnode.Prelude.{
  ℕ, ◌≡◌, ◌≢◌, GoString, str_eq, str_eq_iff, false, some, arith, ok, if◌then◌else◌, OnOk,
  reads-OnOk, raise_if-OnOk, modify-OnOk, last-OnOk, OnOk-eq,
}
use rpcnode.Prelude.Int.{ℤ, ◌+ℤ◌, ◌-ℤ◌, ◌≤ℤ◌}
use rpcnode.Json.{Json}
use rpcnode.Storage.{MemStorage}
use rpcnode.Token.Types.{TokenAccount, Program}
use rpcnode.Token.Store.{
  account_key, get_token, get_account, get_or_create_account, save_account,
  get_account-save_account, get_token-save_account, account_key-eq, get_or_create-cases,
}
use rpcnode.Token.{positive, transfer, get_balance}
use rpcnode.Token.Invariant.{IsValid, get_or_create-IsSound}
use rpcnode.Token.Refines.{store-emit, positive-ok, covers}

-- what a successful `Transfer` has read and written
record IsTransferred (p : Program) (t f d : GoString) (a : ℤ) (p' : Program) : Type 0 where
  x : TokenAccount
  y : TokenAccount
  sender : get_account p.store t f ≡ ok x
  recipient : get_or_create_account p.store t d ≡ ok y
  sender_open : x.frozen ≡ false
  recipient_open : y.frozen ≡ false
  enough : a ≤ℤ x.balance
  written :
      p'.store
      ≡ save_account
          (record y { balance = y.balance +ℤ a })
          (save_account (record x { balance = x.balance -ℤ a }) p.store)

pub same_amount : (a v : ℤ) → positive (some a) ≡ ok v → v ≡ a
same_amount a v h = cc ((positive-ok (some a) v h).0)

transfer-IsTransferred :
    (t f d : GoString) (a : ℤ) (b : ℕ) (n : ℤ) (p : Program)
    → OnOk (IsTransferred p t f d a) (transfer t f d (some a) b n p)
unfolding transfer
transfer-IsTransferred t f d a b n p = reads-OnOk _ _ λ v hv. reads-OnOk _ _ λ x hx.
    raise_if-OnOk _ _ _ λ thawed. raise_if-OnOk _ _ _ λ enough. reads-OnOk _ _ λ y hy.
      raise_if-OnOk _ _ _ λ open'. modify-OnOk _ _ (
        modify-OnOk _ _ (
          last-OnOk _ _ (record {
            x = x;
            y = y;
            sender = hx;
            recipient = hy;
            sender_open = thawed;
            recipient_open = open';
            enough = rw (← same_amount a v hv) (covers x.balance v enough);
            written = rw (store-emit, same_amount a v hv);
          })))

-- the accounts of the token after two of them were written, the recipient's last
pub account_after :
    (s : MemStorage Json) (t f d o : GoString) (x y : TokenAccount)
    → account_key x.token_id x.owner ≡ account_key t f
    → account_key y.token_id y.owner ≡ account_key t d
    → get_account (save_account y (save_account x s)) t o
      ≡ (if str_eq d o then ok y else if str_eq f o then ok x else get_account s t o)
account_after s t f d o x y kx ky = ground (
  arith,
  get_account-save_account (save_account x s) t o y,
  get_account-save_account s t o x,
  account_key-eq t d o,
  account_key-eq t f o,
)

module _ (p p' : Program) (t f d : GoString) (a : ℤ) (b : ℕ) (n : ℤ) (v : IsValid p.store)
    (done : (transfer t f d (some a) b n p) ≡ (ok tt, p')) where
  transferred : IsTransferred p t f d a p'
  transferred = OnOk-eq (transfer-IsTransferred t f d a b n p) done

  after :
      (o : GoString)
      → get_account p'.store t o ≡ (
          if str_eq d o
          then ok (record transferred.y { balance = transferred.y.balance +ℤ a })
          else if str_eq f o
          then ok (record transferred.x { balance = transferred.x.balance -ℤ a })
          else get_account p.store t o)
  after o = rw transferred.written (
      account_after p.store t f d o _ _ (v.account t f transferred.x transferred.sender).key
        (get_or_create-IsSound p.store t d transferred.y v transferred.recipient).key)

  -- On a valid store, a transfer that succeeds, between two different accounts, takes the amount
  -- from the one and gives it to the other, and leaves every other account as it was.
  pub transfer_moves :
      (u w : ℤ)
      → f ≢ d
      → get_balance t f p ≡ ok u
      → get_balance t d p ≡ ok w
      → (get_balance t f p' ≡ ok (u -ℤ a))
        × (get_balance t d p' ≡ ok (w +ℤ a))
        × ((o : GoString) → o ≢ f → o ≢ d → get_balance t o p' ≡ get_balance t o p)
  unfolding get_balance
  transfer_moves u w ne hu hw = (
    ground (arith, after f, transferred.sender, str_eq_iff d f, str_eq_iff f f),
    ground (
      arith,
      after d,
      transferred.recipient,
      str_eq_iff d d,
      get_or_create-cases p.store t d transferred.y,
    ),
    λ o nf nd. ground (arith, after o, str_eq_iff d o, str_eq_iff f o),
  )

  -- On a valid store, a transfer that succeeds from an account to itself adds the amount to its
  -- balance, and the token, its total supply included, is as it was: the two copies of the account
  -- are written one after the other.
  pub self_transfer_creates :
      (u : ℤ)
      → f ≡ d
      → get_balance t f p ≡ ok u
      → (get_balance t f p' ≡ ok (u +ℤ a)) × (get_token p'.store t ≡ get_token p.store t)
  unfolding get_balance
  self_transfer_creates u e hu = (
    ground (
      arith,
      after f,
      transferred.recipient,
      str_eq_iff d f,
      get_or_create-cases p.store t d transferred.y,
    ),
    rw (transferred.written, get_token-save_account, get_token-save_account),
  )
