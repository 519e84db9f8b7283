-- ===== src/Storage/Iter.antt =====
-- The iterator visits the entries under its prefix, each once, and then stops.
use rpcnode.Prelude.{
  ℕ, zero, suc, ◌+◌, ◌<◌, ◌≤◌, ◌⊎◌, inl, inr, GoString, str_eq, str_eq_iff, has_prefix, ◌≡◌, refl,
  Bool, true, false, none, some, List, [], ◌∷◌, arith, ltb, drop, if◌then◌else◌, length, get_elem?,
}
use rpcnode.Prelude.Dict.{Dict, lookup}
use rpcnode.Prelude.Int.{ℤ, pos, negsuc, ◌+ℤ◌}
use rpcnode.Storage.{MemStorage, MemIter, in_range, matching, iterator, next, current}

-- the test of `Iterator` is the prefix test
in_range-has_prefix : (p k : GoString) → in_range p k ≡ has_prefix p k
unfolding has_prefix str_eq
in_range-has_prefix [] k = refl
in_range-has_prefix (p ∷ ps) [] = ground arith
in_range-has_prefix (p ∷ ps) (c ∷ k) = ground (arith, in_range-has_prefix ps k)

-- the index after `n` calls of `Next`
abbrev cursor : ℕ → ℤ
cursor zero = negsuc 0
cursor (suc n) = pos n

module _ {V : Type 0} where
  lookup-matching :
      (p k : GoString) (d : Dict V)
      → lookup k (matching p d) ≡ (if has_prefix p k then lookup k d else none)
  unfolding lookup matching
  lookup-matching p k [] = ground arith
  lookup-matching p k ((j, v) ∷ d) =
      rw (in_range-has_prefix p j) (ground (arith, lookup-matching p k d, str_eq_iff j k))

  -- The entries that an iterator holds are those whose key begins with its prefix: such a key reads in
  -- them as it does in the store, and no other key is there.
  pub lookup-iterator :
      (p k : GoString) (m : MemStorage V)
      → lookup k (iterator p m).pairs ≡ (if has_prefix p k then lookup k m.entries else none)
  unfolding iterator
  lookup-iterator p k m = lookup-matching p k m.entries

  -- The loop `for it.Next() { … it.Value() … }`: the pairs that it sees, in order, and whether it
  -- ended by `Next` within the fuel.
  pub visit : ℕ → MemIter V → List (GoString × V) × Bool
  visit zero it = ([], false)
  visit (suc f) it =
      let (more, it') = next it in
      let (seen, done) = visit f it' in
      if more then (elim (current it') [ none ↦ seen | some e ↦ e ∷ seen ], done) else ([], true)

  abbrev at_cursor : List (GoString × V) → ℕ → MemIter V
  at_cursor l n = record { pairs = l; idx = cursor n }

  next-at_cursor :
      (l : List (GoString × V)) (n : ℕ)
      → next (at_cursor l n) ≡ (ltb n (length l), at_cursor l (suc n))
  unfolding next ◌+ℤ◌
  next-at_cursor l zero = ground arith
  next-at_cursor l (suc n) = ground arith

  drop-cases :
      (l : List (GoString × V)) (n : ℕ)
      → ((length l ≤ n) × (drop n l ≡ []))
        ⊎ ((e : GoString × V) × (n < length l)
            × (get_elem? l n ≡ some e)
            × (drop n l ≡ e ∷ drop (suc n) l))
  drop-cases [] zero = inl (omega arith, refl)
  drop-cases [] (suc n) = inl (omega arith, refl)
  drop-cases (x ∷ l) zero = inr (x, omega arith, refl, refl)
  drop-cases (x ∷ l) (suc n) = elim (drop-cases l n) [
    | inl (h, e) ↦ inl (omega arith, e)
    | inr (x', h, e, d) ↦ inr (x', omega arith, e, d)
  ]

  visit-at_cursor :
      (f n : ℕ) (l : List (GoString × V))
      → length l < n + f
      → n ≤ length l
      → visit f (at_cursor l n) ≡ (drop n l, true)
  unfolding visit current
  visit-at_cursor zero n l h b = absurd (omega arith)
  visit-at_cursor (suc f) n l h b = elim (drop-cases l n) [
    | inl (past, e) ↦ rw (next-at_cursor l n, e) (ground arith)
    | inr (x, inside, e, d) ↦
        ground (arith, next-at_cursor l n, visit-at_cursor f (suc n) l (omega arith) (omega arith))
  ]

  -- With fuel for more rounds than there are pairs, the loop over a fresh iterator ends by `Next`
  -- returning false, and has seen exactly the iterator's pairs, each once and in order.
  pub visit-iterator :
      (f : ℕ) (p : GoString) (m : MemStorage V)
      → length (iterator p m).pairs < f
      → visit f (iterator p m) ≡ ((iterator p m).pairs, true)
  unfolding iterator
  visit-iterator f p m h = visit-at_cursor f 0 (matching p m.entries) (omega arith) (omega arith)
