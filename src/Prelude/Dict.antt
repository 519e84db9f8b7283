-- ===== src/Prelude/Dict.antt =====
-- Go's `map[string]V` as an association list, with the sum of a weight over its entries. The program
-- ranges over maps only where the order does not matter.
use rpcnode.Prelude.Tests.{if◌then◌else◌}
use rpcnode.Prelude.Text.{GoString, str_eq, str_eq_iff}
use rpcnode.Prelude.Int.{ℤ, pos, ◌+ℤ◌, int_laws}
use mathlib.Core.Path.{◌≡◌, refl}
use mathlib.Core.Option.{Option, none, some}
use mathlib.Core.List.{List, [], ◌∷◌}
use native.Mathlib.Omega.{arith}

abbrev pub Dict {ℓ} : Type ℓ → Type ℓ
Dict V = List (GoString × V)

module _ {ℓ} {V : Type ℓ} where
  unfoldable pub lookup : GoString → Dict V → Option V
  lookup k [] = none
  lookup k ((j, v) ∷ d) = if str_eq j k then some v else lookup k d

  -- `d[k] = v`
  unfoldable pub insert : GoString → V → Dict V → Dict V
  insert k v [] = (k, v) ∷ []
  insert k v ((j, w) ∷ d) = if str_eq j k then (j, v) ∷ d else (j, w) ∷ insert k v d

  -- `delete(d, k)`
  unfoldable pub erase : GoString → Dict V → Dict V
  erase k [] = []
  erase k ((j, w) ∷ d) = let rest = erase k d in if str_eq j k then rest else (j, w) ∷ rest

  pub lookup-empty : (k : GoString) → lookup k [] ≡ none
  unfolding lookup
  lookup-empty k = refl

  pub lookup-insert :
      (j k : GoString) (v : V) (d : Dict V)
      → lookup j (insert k v d) ≡ (if str_eq k j then some v else lookup j d)
  unfolding lookup insert
  lookup-insert j k v [] = refl
  lookup-insert j k v ((i, w) ∷ d) =
      ground (arith, str_eq_iff k j, str_eq_iff i k, str_eq_iff i j, lookup-insert j k v d)

  pub lookup-erase :
      (j k : GoString) (d : Dict V)
      → lookup j (erase k d) ≡ (if str_eq k j then none else lookup j d)
  unfolding lookup erase
  lookup-erase j k [] = ground arith
  lookup-erase j k ((i, w) ∷ d) =
      ground (arith, str_eq_iff k j, str_eq_iff i k, str_eq_iff i j, lookup-erase j k d)

module _ {ℓ} {V : Type ℓ} (weight : GoString → V → ℤ) where
  unfoldable pub sum_by : Dict V → ℤ
  sum_by [] = pos 0
  sum_by ((k, v) ∷ d) = weight k v +ℤ sum_by d

  abbrev pub weight_at : GoString → Option V → ℤ
  weight_at k none = pos 0
  weight_at k (some v) = weight k v

  -- A write trades the weight of the old value for that of the new one.
  pub sum_by-insert :
      (k : GoString) (v : V) (d : Dict V)
      → sum_by (insert k v d) +ℤ weight_at k (lookup k d) ≡ sum_by d +ℤ weight k v
  unfolding sum_by lookup insert
  sum_by-insert k v [] = omega int_laws
  sum_by-insert k v ((j, w) ∷ d) = grind (int_laws, str_eq_iff j k, sum_by-insert k v d)
