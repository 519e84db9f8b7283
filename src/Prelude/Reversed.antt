-- ===== src/Prelude/Reversed.antt =====
-- Parts of lists by position: `take`, `drop` and `reverse`.
use Prim.Native.Nat.{ℕ, zero, suc, ◌+◌, ◌-◌, ◌≤◌, ◌<◌}
use mathlib.Core.Path.{◌≡◌, refl, sym, ap, ◌∙◌}
use mathlib.Core.Logic.{inl, inr}
use mathlib.Core.List.{List, [], ◌∷◌, ◌++◌, reverse, reverse_aux}
use mathlib.Core.Option.{some}
use native.Mathlib.Omega.{arith}
use rpcnode.Prelude.Tests.{ltb, Bool-cases, ltb→lt}
use rpcnode.Prelude.Lists.{length, get_elem?, take, drop}

module _ {ℓ} {A : Type ℓ} where
  pub take_all : (n : ℕ) (l : List A) → length l ≤ n → take n l ≡ l
  take_all zero [] h = refl
  take_all zero (x ∷ l) h = absurd (omega (arith, h))
  take_all (suc n) [] h = refl
  take_all (suc n) (x ∷ l) h = ap (λ l. x ∷ l) (take_all n l (omega (arith, h)))

  pub take-append : (n : ℕ) (l r : List A) → n ≤ length l → take n (l ++ r) ≡ take n l
  take-append zero l r h = refl
  take-append (suc n) [] r h = absurd (omega (arith, h))
  take-append (suc n) (x ∷ l) r h = ap (λ l. x ∷ l) (take-append n l r (omega (arith, h)))

  pub take-append_take : (n : ℕ) (l r : List A) → take n (take n l ++ r) ≡ take n (l ++ r)
  take-append_take zero l r = refl
  take-append_take (suc n) [] r = refl
  take-append_take (suc n) (x ∷ l) r = ap (λ l. x ∷ l) (take-append_take n l r)

  pub same_at : (l : List A) (i j : ℕ) → i ≡ j → get_elem? l i ≡ get_elem? l j
  same_at l i j e = ap (get_elem? l) e

  at_zero : (x : A) (l : List A) (i : ℕ) → i ≡ 0 → get_elem? (x ∷ l) i ≡ some x
  at_zero x l i e = same_at (x ∷ l) i 0 e

  at_suc : (x : A) (l : List A) (i k : ℕ) → i ≡ suc k → get_elem? (x ∷ l) i ≡ get_elem? l k
  at_suc x l i k e = same_at (x ∷ l) i (suc k) e

  pub get_elem?-drop : (k i : ℕ) (l : List A) → get_elem? (drop k l) i ≡ get_elem? l (k + i)
  get_elem?-drop zero i l = same_at l i (0 + i) (omega arith)
  get_elem?-drop (suc k) i [] = refl
  get_elem?-drop (suc k) i (x ∷ l) =
      get_elem?-drop k i l ∙ sym (at_suc x l (suc k + i) (k + i) (omega arith))

  length-reverse_aux : (l acc : List A) → length (reverse_aux l acc) ≡ length l + length acc
  length-reverse_aux [] acc = omega arith
  length-reverse_aux (x ∷ l) acc = omega (arith, length-reverse_aux l (x ∷ acc))

  pub length-reverse : (l : List A) → length (reverse l) ≡ length l
  length-reverse l = omega (arith, length-reverse_aux l [])

  after :
      (i : ℕ) (l acc : List A)
      → length l ≤ i
      → get_elem? (reverse_aux l acc) i ≡ get_elem? acc (i - length l)
  after i [] acc h = same_at acc i (i - 0) (omega arith)
  after i (x ∷ l) acc h =
      after i l (x ∷ acc) (omega (arith, h))
      ∙ at_suc x acc (i - length l) (i - length (x ∷ l)) (omega (arith, h))

  within :
      (i : ℕ) (l acc : List A)
      → i < length l
      → get_elem? (reverse_aux l acc) i ≡ get_elem? l (length l - 1 - i)
  within i [] acc h = absurd (omega (arith, h))
  within i (x ∷ l) acc h = elim (Bool-cases (ltb i (length l))) [
    | inl e ↦
        let less = ltb→lt i (length l) e in
        within i l (x ∷ acc) less
        ∙ sym (at_suc x l (length (x ∷ l) - 1 - i) (length l - 1 - i) (omega (arith, less)))
    | inr e ↦
        let last : i ≡ length l = ground arith in
        after i l (x ∷ acc) (omega (arith, last))
        ∙ at_zero x acc (i - length l) (omega (arith, last))
        ∙ sym (at_zero x l (length (x ∷ l) - 1 - i) (omega (arith, last)))
  ]

  -- The i-th from the front of the reversed list is the i-th from the end.
  pub get_elem?-reverse :
      (i : ℕ) (l : List A) → i < length l → get_elem? (reverse l) i ≡ get_elem? l (length l - 1 - i)
  get_elem?-reverse i l h = within i l [] h
