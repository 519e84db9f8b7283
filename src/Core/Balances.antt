-- ===== src/Core/Balances.antt =====
-- What a transaction does to the balances (core/chain.go).
use rpcnode.Prelude.{
  ◌+◌, ◌%◌, ◌^◌, ◌≡◌, ◌≢◌, refl, ap, GoString, str_eq_iff, ascii_lower, false, some, [], ◌∷◌, arith,
  if◌then◌else◌, Bool-cases, inl, inr, ◌∙◌,
}
use rpcnode.Prelude.Int.{ℤ, pos, ◌+ℤ◌, ◌-ℤ◌, leb_ℤ, eqb_ℤ, int_laws}
use rpcnode.Prelude.Dict.{Dict, lookup, insert, sum_by, sum_by-insert, lookup-insert}
use rpcnode.Core.Types.{Transaction, AccountState, Chain}
use rpcnode.Core.Chain.{
  known, if_to, credit, ensure, charge, settle, cost_of, apply_tx, get_balance, add_to_tx_index,
}

-- the sum of all balances
unfoldable pub funds : Dict AccountState → ℤ
funds d = sum_by (λ _ a. a.balance) d

funds-insert :
    (k : GoString) (a : AccountState) (d : Dict AccountState)
    → funds (insert k a d) +ℤ (known (lookup k d)).balance ≡ funds d +ℤ a.balance
unfolding funds
funds-insert k a d = ground (arith, sum_by-insert (λ _ (a : AccountState). a.balance) k a d)

funds-ensure : (k : GoString) (d : Dict AccountState) → funds (ensure k d) ≡ funds d
unfolding ensure
funds-ensure k d = grind (int_laws, funds-insert k (known (lookup k d)) d)

funds-credit : (k : GoString) (v : ℤ) (d : Dict AccountState) → funds (credit k v d) ≡ funds d +ℤ v
funds-credit k v d =
    let a = known (lookup k d) in
    grind (int_laws, funds-insert k (record a { balance = a.balance +ℤ v }) d)

-- what arrives at the recipient
abbrev pub arriving : GoString → ℤ → ℤ
arriving [] v = pos 0
arriving (c ∷ cs) v = v

funds-if_to-ensure :
    (to : GoString) (d : Dict AccountState) → funds (if_to to (ensure to) d) ≡ funds d
funds-if_to-ensure [] d = refl
funds-if_to-ensure (c ∷ cs) d = funds-ensure (c ∷ cs) d

funds-if_to-credit :
    (to : GoString) (v : ℤ) (d : Dict AccountState)
    → funds (if_to to (credit to v) d) ≡ funds d +ℤ arriving to v
funds-if_to-credit [] v d = omega int_laws
funds-if_to-credit (c ∷ cs) v d = funds-credit (c ∷ cs) v d

pub lookup-ensure :
    (j k : GoString) (d : Dict AccountState)
    → (known (lookup j (ensure k d))).balance ≡ (known (lookup j d)).balance
unfolding ensure
lookup-ensure j k d = ground (arith, lookup-insert j k (known (lookup k d)) d, str_eq_iff k j)

lookup-if_to-ensure :
    (j to : GoString) (d : Dict AccountState)
    → (known (lookup j (if_to to (ensure to) d))).balance ≡ (known (lookup j d)).balance
lookup-if_to-ensure j [] d = refl
lookup-if_to-ensure j (c ∷ cs) d = lookup-ensure j (c ∷ cs) d

unfoldable pub pays : ℤ → AccountState → AccountState
pays cost acc = record { balance = acc.balance -ℤ cost; nonce = (acc.nonce + 1) % 2 ^ 64 }

funds-pays :
    (from : GoString) (cost : ℤ) (d : Dict AccountState)
    → funds (insert from (pays cost (known (lookup from d))) d) ≡ funds d -ℤ cost
unfolding pays
funds-pays from cost d = grind (int_laws, funds-insert from (pays cost (known (lookup from d))) d)

funds-charge :
    (from to : GoString) (v cost : ℤ) (d : Dict AccountState)
    → funds (charge from to v cost d) ≡ (
        if leb_ℤ cost (known (lookup from d)).balance
        then funds d -ℤ cost +ℤ arriving to v
        else funds d)
unfolding charge pays
funds-charge from to v cost d = elim (Bool-cases (leb_ℤ cost (known (lookup from d)).balance)) [
  | inl enough ↦ rw enough (
      funds-if_to-credit to v (insert from (pays cost (known (lookup from d))) d)
      ∙ ap (λ x. x +ℤ arriving to v) (funds-pays from cost d))
  | inr short ↦ rw short refl
]

-- The accounts after a transaction of a value: where the sender holds the cost, the cost is taken from
-- the sum of the balances and the value comes back if there is a recipient, so that the gas is
-- burned; otherwise the sum stays.
funds-settle :
    (from to : GoString) (v cost : ℤ) (d : Dict AccountState)
    → funds (settle from to v cost d) ≡ (
        if leb_ℤ cost (known (lookup from d)).balance
        then funds d -ℤ cost +ℤ arriving to v
        else funds d)
unfolding settle
funds-settle from to v cost d =
    rw
      (
        funds-charge from to v cost (if_to to (ensure to) (ensure from d)),
        funds-if_to-ensure to (ensure from d),
        funds-ensure from d,
        lookup-if_to-ensure from to (ensure from d),
        lookup-ensure from from d,
      )
      refl

module _ {Doc : Type 0} (c : Chain Doc) (tx : Transaction) where
  -- A transaction of a value other than 0, where the sender's balance covers the value and the gas: they are taken from the
  -- sum of all balances, and the value comes back where there is a recipient, so that the sum falls by
  -- the gas. Where the balance does not cover them the sum stays.
  pub apply_tx-funds :
      (v : ℤ)
      → tx.value ≡ some v
      → v ≢ pos 0
      → let cost = cost_of v tx.gas_price tx.gas_used in
        funds (apply_tx tx c).accounts ≡ (
          if leb_ℤ cost (get_balance tx.from c)
          then funds c.accounts -ℤ cost +ℤ arriving (ascii_lower tx.to) v
          else funds c.accounts)
  unfolding apply_tx add_to_tx_index get_balance
  apply_tx-funds v hv ne =
      let nonzero : eqb_ℤ v (pos 0) ≡ false = ground arith in
      rw (hv, nonzero)
        (funds-settle (ascii_lower tx.from) (ascii_lower tx.to) v
          (cost_of v tx.gas_price tx.gas_used) c.accounts)
