-- ===== src/Core/Payments.antt =====
-- What `applyTx` does to the balances of the two parties (core/chain.go).
use rpcnode.Prelude.{
  ℕ, ◌≡◌, ◌≢◌, refl, ap, ◌∙◌, GoString, str_eq, str_eq_iff, str_eq_refl, ascii_lower, true, false,
  some, [], ◌∷◌, arith, if◌then◌else◌,
}
use rpcnode.Prelude.Int.{ℤ, pos, ◌+ℤ◌, ◌-ℤ◌, ◌≤ℤ◌, leb_ℤ, eqb_ℤ}
use rpcnode.Prelude.Dict.{Dict, lookup, insert, lookup-insert}
use rpcnode.Core.Types.{Transaction, AccountState, Chain}
use rpcnode.Core.Chain.{
  known, credit, ensure, charge, settle, cost_of, apply_tx, get_balance, add_to_tx_index,
}
use rpcnode.Core.Balances.{lookup-ensure, pays}

balance_at : GoString → Dict AccountState → ℤ
balance_at k d = (known (lookup k d)).balance

lookup_insert :
    (j k : GoString) (a : AccountState) (d : Dict AccountState)
    → balance_at j (insert k a d) ≡ (if str_eq k j then a.balance else balance_at j d)
unfolding balance_at
lookup_insert j k a d = ground (arith, lookup-insert j k a d)

module _ (from : GoString) (b : ℕ) (bs : GoString) (v cost : ℤ) (ne : from ≢ b ∷ bs) where
  moved : Dict AccountState → Dict AccountState
  moved d = credit (b ∷ bs) v (insert from (pays cost (known (lookup from d))) d)

  -- the two accounts after a transfer between them
  moved_balances :
      (d : Dict AccountState)
      → (balance_at from (moved d) ≡ balance_at from d -ℤ cost)
        × (balance_at (b ∷ bs) (moved d) ≡ balance_at (b ∷ bs) d +ℤ v)
  unfolding moved balance_at pays
  moved_balances d =
      let d' = insert from (pays cost (known (lookup from d))) d in
      let acc = known (lookup (b ∷ bs) d') in
      let last' = record acc { balance = acc.balance +ℤ v } in
      (
        ground (
          arith,
          lookup_insert from (b ∷ bs) last' d',
          lookup_insert from from (pays cost (known (lookup from d))) d,
          str_eq_iff (b ∷ bs) from,
          str_eq_refl from,
        ),
        ground (
          arith,
          lookup_insert (b ∷ bs) (b ∷ bs) last' d',
          lookup_insert (b ∷ bs) from (pays cost (known (lookup from d))) d,
          str_eq_iff from (b ∷ bs),
          str_eq_refl (b ∷ bs),
        ),
      )

  charge-moved :
      (d : Dict AccountState) → cost ≤ℤ balance_at from d → charge from (b ∷ bs) v cost d ≡ moved d
  unfolding charge moved balance_at pays
  charge-moved d enough =
      let covered : leb_ℤ cost (known (lookup from d)).balance ≡ true = ground arith in
      rw covered refl

ensured : (j k : GoString) (d : Dict AccountState) → balance_at j (ensure k d) ≡ balance_at j d
unfolding balance_at
ensured j k d = lookup-ensure j k d

settled :
    (from to : GoString) (v cost : ℤ) (d : Dict AccountState)
    → from ≢ to
    → to ≢ []
    → cost ≤ℤ balance_at from d
    → (balance_at from (settle from to v cost d) ≡ balance_at from d -ℤ cost)
      × (balance_at to (settle from to v cost d) ≡ balance_at to d +ℤ v)
unfolding settle
settled from [] v cost d ne there enough = absurd (there refl)
settled from (b ∷ bs) v cost d ne there enough =
    let d' = ensure (b ∷ bs) (ensure from d) in
    let same : (j : GoString) → balance_at j d' ≡ balance_at j d =
      λ j. ensured j (b ∷ bs) (ensure from d) ∙ ensured j from d in
    let (x, y) = moved_balances from b bs v cost ne d' in
    rw (charge-moved from b bs v cost ne d' (rw (same from) enough))
      (x ∙ ap (λ z. z -ℤ cost) (same from), y ∙ ap (λ z. z +ℤ v) (same (b ∷ bs)))

module _ {Doc : Type 0} (c : Chain Doc) (tx : Transaction) (v : ℤ) (hv : tx.value ≡ some v)
    (nonzero : v ≢ pos 0) (apart : ascii_lower tx.from ≢ ascii_lower tx.to)
    (addressed : ascii_lower tx.to ≢ []) where
  -- A transaction of a value other than 0 between two addresses that differ in lower case, with a
  -- recipient, where the sender's balance covers the cost: the sender loses the cost and the
  -- recipient gains the value. A value below zero is not excluded, and is taken from the
  -- recipient.
  pub apply_tx_moves :
      let cost = cost_of v tx.gas_price tx.gas_used in
      cost ≤ℤ get_balance tx.from c
      → (get_balance tx.from (apply_tx tx c) ≡ get_balance tx.from c -ℤ cost)
        × (get_balance tx.to (apply_tx tx c) ≡ get_balance tx.to c +ℤ v)
  unfolding apply_tx add_to_tx_index get_balance balance_at
  apply_tx_moves enough =
      let nonzero' : eqb_ℤ v (pos 0) ≡ false = ground arith in
      rw (hv, nonzero')
        (settled (ascii_lower tx.from) (ascii_lower tx.to) v (cost_of v tx.gas_price tx.gas_used)
          c.accounts apart addressed enough)
