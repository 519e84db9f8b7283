-- ===== src/Prelude/Outcome.antt =====
-- A Go function that returns a value and an error, and a method that may fail after it has written:
-- what was written before the error stays written.
use mathlib.Core.Path.{◌≡◌, refl, ap, subst}
use mathlib.Core.Logic.{◌⊎◌, inl, inr}
use mathlib.Core.Bool.{Bool, true, false}

pub data Result {ℓ} (E : Type 0) (A : Type ℓ) : Type ℓ where
  ok : A → Result E A
  err : E → Result E A

abbrev pub Exec {ℓ} : Type 0 → Type ℓ → Type ℓ → Type ℓ
Exec E S A = S → Result E A × S

module _ {ℓ} {E : Type 0} {S A : Type ℓ} where
  unfoldable pub pure : A → Exec E S A
  pure a s = (ok a, s)

  unfoldable pub raise : E → Exec E S A
  raise e s = (err e, s)

  -- a read of the state that may fail
  unfoldable pub reads : (S → Result E A) → Exec E S A
  reads f s = (f s, s)

module _ {ℓ} {E : Type 0} {S : Type ℓ} where
  -- `if c { return e }`
  unfoldable pub raise_if : Bool → E → Exec E S (Unit {ℓ})
  raise_if true e s = (err e, s)
  raise_if false e s = (ok tt, s)

  unfoldable pub modify : (S → S) → Exec E S (Unit {ℓ})
  modify f s = (ok tt, f s)

module _ {ℓ} {E : Type 0} {S A B : Type ℓ} where
  abbrev pub continue : Result E A → (A → Exec E S B) → Exec E S B
  continue (ok a) f s = f a s
  continue (err e) f s = (err e, s)

  infixl 5 ◌>>=◌ ◌>>◌
  -- Opening this opens the statements above too.
  unfoldable pub ◌>>=◌ : Exec E S A → (A → Exec E S B) → Exec E S B
  unfolding pure raise reads raise_if modify
  ◌>>=◌ m f s = let (r, s') = m s in continue r f s'

  abbrev pub ◌>>◌ : Exec E S A → Exec E S B → Exec E S B
  m >> k = m >>= λ _. k

pub Result-cases {ℓ} :
    {E : Type 0} {A : Type ℓ} (r : Result E A) → ((e : E) × (r ≡ err e)) ⊎ ((a : A) × (r ≡ ok a))
Result-cases (ok a) = inr (a, refl)
Result-cases (err e) = inl (e, refl)

-- Rules for a property of how a block ends, one for each statement that may return early.
module _ {ℓ κ} {E : Type 0} {S A B : Type ℓ} (Q : Result E B × S → Type κ) where
  pub reads_rule :
      (f : S → Result E A) (k : A → Exec E S B) (s : S)
      → ((e : E) → f s ≡ err e → Q (err e, s))
      → ((a : A) → f s ≡ ok a → Q (k a s))
      → Q ((reads f >>= k) s)
  unfolding ◌>>=◌
  reads_rule f k s bad good = go (f s) refl
    where
      go : (r : Result E A) → f s ≡ r → Q (continue r k s)
      go (ok a) e = good a e
      go (err x) e = bad x e

module _ {ℓ κ} {E : Type 0} {S B : Type ℓ} (Q : Result E B × S → Type κ) where
  pub raise_if_rule :
      (b : Bool) (e : E) (k : Exec E S B) (s : S)
      → (b ≡ true → Q (err e, s))
      → (b ≡ false → Q (k s))
      → Q ((raise_if b e >> k) s)
  unfolding ◌>>=◌
  raise_if_rule true e k s bad good = bad refl
  raise_if_rule false e k s bad good = good refl

  pub modify_rule : (f : S → S) (k : Exec E S B) (s : S) → Q (k (f s)) → Q ((modify f >> k) s)
  unfolding ◌>>=◌
  modify_rule f k s h = h

-- the call succeeded, and left a state that satisfies `P`; or it failed
pub data OnOk {ℓ κ} {E : Type 0} {S A : Type ℓ} (P : S → Type κ)
    : Result E A × S → Type (ℓ ⊔ κ) where
  on_err : (e : E) (s : S) → OnOk P (err e, s)
  on_ok : (a : A) (s : S) → P s → OnOk P (ok a, s)

module _ {ℓ κ} {E : Type 0} {S A B : Type ℓ} {P : S → Type κ} {s : S} where
  pub reads-OnOk :
      (f : S → Result E A) (k : A → Exec E S B)
      → ((a : A) → f s ≡ ok a → OnOk P (k a s))
      → OnOk P ((reads f >>= k) s)
  reads-OnOk f k good = reads_rule (OnOk P) f k s (λ e h. on_err e s) good

module _ {ℓ κ} {E : Type 0} {S B : Type ℓ} {P : S → Type κ} {s : S} where
  pub raise_if-OnOk :
      (b : Bool) (e : E) (k : Exec E S B)
      → (b ≡ false → OnOk P (k s))
      → OnOk P ((raise_if b e >> k) s)
  raise_if-OnOk b e k good = raise_if_rule (OnOk P) b e k s (λ h. on_err e s) good

  pub modify-OnOk : (f : S → S) (k : Exec E S B) → OnOk P (k (f s)) → OnOk P ((modify f >> k) s)
  modify-OnOk f k h = modify_rule (OnOk P) f k s h

module _ {ℓ κ} {E : Type 0} {S : Type ℓ} {P : S → Type κ} where
  pub last-OnOk : (f : S → S) (s : S) → P (f s) → OnOk {E = E} P (modify f s)
  unfolding modify
  last-OnOk f s h = on_ok tt (f s) h

module _ {ℓ κ} {E : Type 0} {S A : Type ℓ} {P : S → Type κ} where
  pub OnOk-ok : {r : Result E A × S} {a : A} → OnOk P r → r.0 ≡ ok a → P r.1
  OnOk-ok (on_err e s) h = cc
  OnOk-ok (on_ok a s p) h = p

  pub OnOk-eq : {r : Result E A × S} {a : A} {s : S} → OnOk P r → r ≡ (ok a, s) → P s
  OnOk-eq o e =
      subst (λ (r : Result E A × S). P r.1) e (OnOk-ok o (ap (λ (r : Result E A × S). r.0) e))

-- Rules for an invariant of the state, whatever the result.
module _ {ℓ κ} {E : Type 0} {S A B : Type ℓ} (P : S → Type κ) {s : S} (h : P s) where
  pub reads-keeps :
      (f : S → Result E A) (k : A → Exec E S B)
      → ((a : A) → f s ≡ ok a → P (k a s).1)
      → P ((reads f >>= k) s).1
  reads-keeps f k good = reads_rule (λ (r : Result E B × S). P r.1) f k s (λ e _. h) good

module _ {ℓ κ} {E : Type 0} {S B : Type ℓ} (P : S → Type κ) {s : S} (h : P s) where
  pub raise_if-keeps :
      (b : Bool) (e : E) (k : Exec E S B) → (b ≡ false → P (k s).1) → P ((raise_if b e >> k) s).1
  raise_if-keeps b e k good = raise_if_rule (λ (r : Result E B × S). P r.1) b e k s (λ _. h) good

module _ {ℓ κ} {E : Type 0} {S B : Type ℓ} (P : S → Type κ) {s : S} where
  pub modify-keeps : (f : S → S) (k : Exec E S B) → P (k (f s)).1 → P ((modify f >> k) s).1
  modify-keeps f k h = modify_rule (λ (r : Result E B × S). P r.1) f k s h

module _ {ℓ κ} (E : Type 0) {S : Type ℓ} (P : S → Type κ) {s : S} where
  pub last-keeps : (f : S → S) → P (f s) → P (modify {E = E} f s).1
  unfolding modify
  last-keeps f h = h
