-- ===== src/Vm/Effect.antt =====
-- How many numbers an instruction of `run` (gpl/vm/vm.go) takes from the stack and leaves on it: rules for
-- the blocks that the instructions are made of.
use rpcnode.Prelude.{
  ℕ, zero, suc, ◌+◌, ◌≤◌, ◌<◌, ◌≡◌, ◌≢◌, ◌⊎◌, inl, inr, refl, ap, Bool, true, false, List, [], ◌∷◌,
  Result, ok, err, pure, reads, raise, raise_if, modify, ◌>>=◌, ◌>>◌, continue, length, arith,
}
use rpcnode.Prelude.Int.{ℤ}
use rpcnode.Vm.Types.{Machine, Halt, failed, stack_underflow}
use rpcnode.Vm.Stack.{Run, push, pop_from, pop, pop2, pop_many}

-- With `t` taken and `g` given: it fails for want of numbers if and only if there are fewer than `t`, and if
-- it succeeds the stack has `t` fewer and `g` more.
abbrev pub Outcome : {A : Type 0} → ℕ → ℕ → Machine → Result Halt A × Machine → Type 0
Outcome t g m (ok a, n) = (t ≤ length m.stack) × (length n.stack + t ≡ length m.stack + g)
Outcome t g m (err e, n) =
    ((length m.stack < t) × (e ≡ failed stack_underflow))
    ⊎ ((t ≤ length m.stack) × (e ≢ failed stack_underflow))

abbrev pub Effect : {A : Type 0} → ℕ → ℕ → Run A → Type 0
Effect t g c = (m : Machine) → Outcome t g m (c m)

taken-Outcome :
    {A : Type 0} (t g : ℕ) (m n : Machine) (r : Result Halt A × Machine)
    → t ≤ length m.stack
    → length n.stack + t ≡ length m.stack + 0
    → Outcome 0 g n r
    → Outcome t g m r
taken-Outcome t g m n (ok a, o) l e (_, s) = (l, omega (arith, e, s))
taken-Outcome t g m n (err x, o) l e (inl (few, _)) =
    let absurd : ⊥ = omega (arith, few) in elim absurd [ ]
taken-Outcome t g m n (err x, o) l e (inr (_, ne)) = inr (l, ne)

continue-Outcome :
    {A B : Type 0} (t g : ℕ) (m : Machine) (r : Result Halt A × Machine) (k : A → Run B)
    → Outcome t 0 m r
    → ((a : A) → Effect 0 g (k a))
    → Outcome t g m (continue r.0 k r.1)
continue-Outcome t g m (err x, n) k h rest = h
continue-Outcome t g m (ok a, n) k (l, e) rest = taken-Outcome t g m n (k a n) l e (rest a n)

pub bind-Effect :
    {A B : Type 0} (t g : ℕ) (c : Run A) (k : A → Run B)
    → Effect t 0 c
    → ((a : A) → Effect 0 g (k a))
    → Effect t g (c >>= k)
unfolding ◌>>=◌
bind-Effect t g c k h rest m = continue-Outcome t g m (c m) k (h m) rest

pushed-Outcome :
    {A : Type 0} (v : ℤ) (m : Machine) (r : Result Halt A × Machine)
    → Outcome 0 0 (record m { stack = v ∷ m.stack }) r
    → Outcome 0 1 m r
pushed-Outcome v m (ok a, n) (_, e) = (omega arith, omega (arith, e))
pushed-Outcome v m (err x, n) (inl (few, _)) =
    let absurd : ⊥ = omega (arith, few) in elim absurd [ ]
pushed-Outcome v m (err x, n) (inr (_, ne)) = inr (omega arith, ne)

pub push-Effect : {A : Type 0} (v : ℤ) (k : Run A) → Effect 0 0 k → Effect 0 1 (push v >> k)
unfolding push ◌>>=◌
push-Effect v k h m =
    pushed-Outcome v m (k (record m { stack = v ∷ m.stack })) (h (record m { stack = v ∷ m.stack }))

pub pure-Effect : {A : Type 0} (a : A) → Effect 0 0 (pure a)
unfolding pure
pure-Effect a m = (omega arith, refl)

pub raise-Effect :
    (A : Type 0) (e : Halt) → e ≢ failed stack_underflow → Effect 0 0 (raise {A = A} e)
unfolding raise
raise-Effect A e ne m = inr (omega arith, ne)

pub raise_if-Effect : (b : Bool) (e : Halt) → e ≢ failed stack_underflow → Effect 0 0 (raise_if b e)
unfolding raise_if
raise_if-Effect true e ne m = inr (omega arith, ne)
raise_if-Effect false e ne m = (omega arith, refl)

pub modify-Effect :
    (f : Machine → Machine) → ((m : Machine) → (f m).stack ≡ m.stack) → Effect 0 0 (modify f)
unfolding modify
modify-Effect f h m = (omega arith, ap (λ (s : List ℤ). length s + 0) (h m))

-- a read that does not fail for want of numbers
pub reads-Effect :
    {A : Type 0} (f : Machine → Result Halt A)
    → ((m : Machine) → f m ≢ err (failed stack_underflow))
    → Effect 0 0 (reads f)
unfolding reads
reads-Effect {A} f h m = go (f m) (h m)
  where
    go : (r : Result Halt A) → r ≢ err (failed stack_underflow) → Outcome 0 0 m (r, m)
    go (ok a) ne = (omega arith, refl)
    go (err e) ne = inr (omega arith, λ same. ne (ap err same))

pub get-Effect : {A : Type 0} (f : Machine → A) → Effect 0 0 (reads (λ m. ok (f m)))
unfolding reads
get-Effect f m = (omega arith, refl)

pub pop-Effect : Effect 1 0 pop
unfolding pop
pop-Effect m = go m.stack
  where
    go : (s : List ℤ) → Outcome 1 0 (record m { stack = s }) (pop_from s m)
    go [] = inl (omega arith, refl)
    go (v ∷ s) = (omega arith, omega arith)

popped-Outcome :
    {A : Type 0} (t g : ℕ) (m : Machine) (v : ℤ) (s : List ℤ) (r : Result Halt A × Machine)
    → m.stack ≡ v ∷ s
    → Outcome t g (record m { stack = s }) r
    → Outcome (suc t) g m r
popped-Outcome t g m v s (ok a, n) h (l, e) =
    let more = ap (λ (s : List ℤ). length s) h in (omega (arith, l, more), omega (arith, e, more))
popped-Outcome t g m v s (err x, n) h (inl (few, e)) =
    let more = ap (λ (s : List ℤ). length s) h in inl (omega (arith, few, more), e)
popped-Outcome t g m v s (err x, n) h (inr (l, ne)) =
    let more = ap (λ (s : List ℤ). length s) h in inr (omega (arith, l, more), ne)

pop_bind-Effect :
    {A : Type 0} (t g : ℕ) (k : ℤ → Run A)
    → ((v : ℤ) → Effect t g (k v))
    → Effect (suc t) g (pop >>= k)
unfolding pop ◌>>=◌
pop_bind-Effect t g k h m = go m.stack refl
  where
    go :
        (s : List ℤ)
        → m.stack ≡ s
        → Outcome (suc t) g m (continue (pop_from s m).0 k (pop_from s m).1)
    go [] e =
        let none_left = ap (λ (s : List ℤ). length s) e in inl (omega (arith, none_left), refl)
    go (v ∷ s) e =
        popped-Outcome t g m v s (k v (record m { stack = s })) e (h v (record m { stack = s }))

pub pop2-Effect : Effect 2 0 pop2
unfolding pop2
pop2-Effect = pop_bind-Effect 1 0 _ (λ b. pop_bind-Effect 0 0 _ (λ a. pure-Effect (a, b)))

pub pop_many-Effect : (n : ℕ) → Effect n 0 (pop_many n)
unfolding pop_many
pop_many-Effect zero = pure-Effect tt
pop_many-Effect (suc n) = pop_bind-Effect n 0 (λ v. pop_many n) (λ v. pop_many-Effect n)

pub pop2_bind-Effect :
    {A : Type 0} (t g : ℕ) (k : ℤ × ℤ → Run A)
    → ((ab : ℤ × ℤ) → Effect t g (k ab))
    → Effect (suc (suc t)) g (pop2 >>= k)
unfolding pop2 pop pure ◌>>=◌
pop2_bind-Effect {A} t g k h m = go m.stack refl
  where
    run_on : List ℤ → Result Halt A × Machine
    run_on s = (pop2 >>= k) (record m { stack = s })

    go : (s : List ℤ) → m.stack ≡ s → Outcome (suc (suc t)) g m (run_on s)
    go [] e = let bare = ap (λ (s : List ℤ). length s) e in inl (omega (arith, bare), refl)
    go (b ∷ []) e = let bare = ap (λ (s : List ℤ). length s) e in inl (omega (arith, bare), refl)
    go (b ∷ a ∷ s) e = popped-Outcome (suc t) g m b (a ∷ s) (run_on (b ∷ a ∷ s)) e (
        popped-Outcome t g (record m { stack = a ∷ s }) a s (run_on (b ∷ a ∷ s)) refl
          (h (a, b) (record m { stack = s })))
