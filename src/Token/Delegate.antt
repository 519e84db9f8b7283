-- ===== src/Token/Delegate.antt =====
-- `TransferFrom`: a delegate spends an allowance, and what it does not check.
use rpcnode.Prelude.{
  ℕ, ◌≡◌, ◌≢◌, ap, GoString, str_eq, str_eq_iff, true, some, arith, ok, err, if◌then◌else◌, OnOk,
  reads-OnOk, raise_if-OnOk, modify-OnOk, last-OnOk, OnOk-eq, ◌>>=◌,
}
use rpcnode.Prelude.Int.{ℤ, pos, ◌+ℤ◌, ◌-ℤ◌, ◌≤ℤ◌, ◌<ℤ◌}
use rpcnode.Token.Types.{sender_frozen, TokenAccount, Program}
use rpcnode.Token.Store.{get_account, get_or_create_account, save_account, get_or_create-cases}
use rpcnode.Token.{positive, covering, transfer, transfer_from, get_balance, get_allowance}
use rpcnode.Token.Invariant.{IsValid, get_or_create-IsSound}
use rpcnode.Token.Refines.{store-emit, covers, covering-ok, same_text}
use rpcnode.Token.Transfer.{same_amount, account_after}

balance_of :
    (p : Program) (t o : GoString) (x : TokenAccount)
    → get_account p.store t o ≡ ok x
    → get_balance t o p ≡ ok x.balance
unfolding get_balance
balance_of p t o x h = rw h

balance_of_created :
    (p : Program) (t o : GoString) (x : TokenAccount)
    → get_or_create_account p.store t o ≡ ok x
    → get_balance t o p ≡ ok x.balance
unfolding get_balance
balance_of_created p t o x h = ground (arith, get_or_create-cases p.store t o x)

-- what a successful `TransferFrom` has read and written
record IsSpent (p : Program) (t e f d : GoString) (a : ℤ) (p' : Program) : Type 0 where
  x : TokenAccount
  y : TokenAccount
  left : ℤ
  sender : get_account p.store t f ≡ ok x
  recipient : get_or_create_account p.store t d ≡ ok y
  delegated : x.delegate ≡ e
  allowed : x.allowance ≡ some left
  covered : a ≤ℤ left
  enough : a ≤ℤ x.balance
  written :
      p'.store
      ≡ save_account
          (record y { balance = y.balance +ℤ a })
          (save_account
            (record x { balance = x.balance -ℤ a; allowance = some (left -ℤ a) })
            p.store)

transfer_from-IsSpent :
    (t e f d : GoString) (a : ℤ) (b : ℕ) (n : ℤ) (p : Program)
    → OnOk (IsSpent p t e f d a) (transfer_from t e f d (some a) b n p)
unfolding transfer_from
transfer_from-IsSpent t e f d a b n p = reads-OnOk _ _ λ v hv. reads-OnOk _ _ λ x hx.
    raise_if-OnOk _ _ _ λ same. reads-OnOk _ _ λ m hm. raise_if-OnOk _ _ _ λ enough.
      reads-OnOk _ _ λ y hy. modify-OnOk _ _ (
        modify-OnOk _ _ (
          last-OnOk _ _ (record {
            x = x;
            y = y;
            left = m;
            sender = hx;
            recipient = hy;
            delegated = same_text x.delegate e same;
            allowed = (covering-ok x.allowance v m hm).0;
            covered = rw (← same_amount a v hv) ((covering-ok x.allowance v m hm).1);
            enough = rw (← same_amount a v hv) (covers x.balance v enough);
            written = rw (store-emit, same_amount a v hv);
          })))

module _ (p p' : Program) (t e f d : GoString) (a : ℤ) (b : ℕ) (n : ℤ) (v : IsValid p.store)
    (done : transfer_from t e f d (some a) b n p ≡ (ok tt, p')) where
  spent : IsSpent p t e f d a p'
  spent = OnOk-eq (transfer_from-IsSpent t e f d a b n p) done

  after :
      (o : GoString)
      → get_account p'.store t o ≡ (
          if str_eq d o
          then ok (record spent.y { balance = spent.y.balance +ℤ a })
          else if str_eq f o
          then ok (record spent.x {
            balance = spent.x.balance -ℤ a;
            allowance = some (spent.left -ℤ a);
          })
          else get_account p.store t o)
  after o = rw spent.written (
      account_after p.store t f d o _ _ (v.account t f spent.x spent.sender).key
        (get_or_create-IsSound p.store t d spent.y v spent.recipient).key)

  -- On a valid store, a delegate's transfer that succeeds, between two different accounts, is
  -- within the allowance that the delegate had; it lowers the allowance and the owner's balance by
  -- the amount, and raises the recipient's balance by it.
  pub transfer_from_spends :
      (u w : ℤ)
      → f ≢ d
      → get_balance t f p ≡ ok u
      → get_balance t d p ≡ ok w
      → (a ≤ℤ get_allowance t f e p)
        × (get_allowance t f e p' ≡ get_allowance t f e p -ℤ a)
        × (get_balance t f p' ≡ ok (u -ℤ a))
        × (get_balance t d p' ≡ ok (w +ℤ a))
  unfolding get_balance get_allowance
  transfer_from_spends u w ne hu hw = (
    ground (
      arith,
      spent.sender,
      spent.delegated,
      spent.allowed,
      spent.covered,
      str_eq_iff spent.x.delegate e,
    ),
    ground (
      arith,
      after f,
      spent.sender,
      spent.delegated,
      spent.allowed,
      str_eq_iff spent.x.delegate e,
      str_eq_iff d f,
      str_eq_iff f f,
    ),
    ground (arith, after f, spent.sender, str_eq_iff d f, str_eq_iff f f),
    ground
        (arith, after d, spent.recipient, str_eq_iff d d, get_or_create-cases p.store t d spent.y),
  )

spends_frozen :
    (p : Program) (t e f d : GoString) (a m : ℤ) (b : ℕ) (n : ℤ) (x y : TokenAccount)
    → get_account p.store t f ≡ ok x
    → get_or_create_account p.store t d ≡ ok y
    → x.frozen ≡ true
    → x.delegate ≡ e
    → x.allowance ≡ some m
    → pos 0 <ℤ a
    → a ≤ℤ m
    → a ≤ℤ x.balance
    → (transfer t f d (some a) b n p ≡ (err sender_frozen, p))
      × ((transfer_from t e f d (some a) b n p).0 ≡ ok tt)
unfolding transfer transfer_from positive covering ◌>>=◌
spends_frozen p t e f d a m b n x y hx hy frozen same allowed positive' covered enough =
    (ground arith, ground (arith, str_eq_iff x.delegate e))

-- On a valid store, `Transfer` refuses to debit a frozen account and changes nothing. `TransferFrom` does
-- not look at the flag: where the account's delegate asks for an amount within its allowance and the
-- account's balance, for another account that can be read or created, that call succeeds; the frozen
-- account has lost the amount, which may be all that it had, and the other has gained it.
pub frozen_account_spent :
    (p : Program) (t e f d : GoString) (a m : ℤ) (b : ℕ) (n : ℤ) (x y : TokenAccount)
    → IsValid p.store
    → f ≢ d
    → get_account p.store t f ≡ ok x
    → get_or_create_account p.store t d ≡ ok y
    → x.frozen ≡ true
    → x.delegate ≡ e
    → x.allowance ≡ some m
    → pos 0 <ℤ a
    → a ≤ℤ m
    → a ≤ℤ x.balance
    → (transfer t f d (some a) b n p ≡ (err sender_frozen, p))
      × ((transfer_from t e f d (some a) b n p).0 ≡ ok tt)
      × (get_balance t f (transfer_from t e f d (some a) b n p).1 ≡ ok (x.balance -ℤ a))
      × (get_balance t d (transfer_from t e f d (some a) b n p).1 ≡ ok (y.balance +ℤ a))
frozen_account_spent p t e f d a m b n x y v ne hx hy frozen same allowed positive' covered enough =
    let (refused, ran) =
      spends_frozen p t e f d a m b n x y hx hy frozen same allowed positive' covered enough in
    let (_, _, lost, gained) =
      transfer_from_spends p _ t e f d a b n v
        (ap (λ r. (r, (transfer_from t e f d (some a) b n p).1)) ran) x.balance y.balance ne
        (balance_of p t f x hx) (balance_of_created p t d y hy) in
    (refused, ran, lost, gained)
