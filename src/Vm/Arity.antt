-- ===== src/Vm/Arity.antt =====
-- The numbers that each instruction of `run` (gpl/vm/vm.go) takes from the stack and leaves on it.
use rpcnode.Prelude.{
  ℕ, ◌+◌, ◌≡◌, ◌≢◌, inl, refl, ap, ◌-◌, ◌&&◌, Bool, true, false, Option, none, some, List, [], ◌∷◌,
  ok, err, reads, raise_if, modify, if◌then◌else◌, length, arith, leb, get_elem?,
}
use rpcnode.Prelude.Int.{ℤ, pos, negsuc}
use rpcnode.Vm.Types.{
  Machine, Halt, panicked, failed, stack_underflow, invalid_opcode, StackOp, push1, push32, pop,
  dup, swap, BinaryOp,
}
use rpcnode.Vm.Memory.{grow_memory, slice, add_int}
use rpcnode.Vm.Stack.{
  exec_binary, exec_not, exec_stack, exec_call, swapped, doubled, immediate, byte_or_invalid,
}
use rpcnode.Vm.Regions.{region, read_region}
use rpcnode.Vm.Effect.{
  Outcome, Effect, bind-Effect, push-Effect, pure-Effect, raise_if-Effect, modify-Effect,
  reads-Effect, get-Effect, pop-Effect, pop2-Effect, pop_many-Effect,
}

ruleset walk =
    (bind-Effect, push-Effect, pure-Effect, get-Effect, pop-Effect, pop2-Effect, pop_many-Effect)

pub panicked-Effect : (b : Bool) → Effect 0 0 (raise_if b panicked)
panicked-Effect b = raise_if-Effect b panicked (λ e. cc)

pub exec_binary-Effect :
    (lsh_fails : ℤ → ℕ → Bool) (op : BinaryOp) → Effect 2 1 (exec_binary lsh_fails op)
unfolding exec_binary
exec_binary-Effect lsh_fails op = search (walk, panicked-Effect)

pub exec_not-Effect : Effect 1 1 exec_not
unfolding exec_not
exec_not-Effect = search walk

pub exec_call-Effect : Effect 7 1 exec_call
unfolding exec_call
exec_call-Effect = search walk

doubled-Outcome : (m : Machine) (s : List ℤ) → m.stack ≡ s → Outcome 1 2 m (doubled s m)
doubled-Outcome m [] e =
    let bare = ap (λ (s : List ℤ). length s) e in inl (omega (arith, bare), refl)
doubled-Outcome m (a ∷ s) e =
    let full = ap (λ (s : List ℤ). length s) e in (omega (arith, full), omega (arith, full))

swapped-Outcome : (m : Machine) (s : List ℤ) → m.stack ≡ s → Outcome 2 2 m (swapped s m)
swapped-Outcome m [] e =
    let bare = ap (λ (s : List ℤ). length s) e in inl (omega (arith, bare), refl)
swapped-Outcome m (a ∷ []) e =
    let bare = ap (λ (s : List ℤ). length s) e in inl (omega (arith, bare), refl)
swapped-Outcome m (a ∷ b ∷ s) e =
    let full = ap (λ (s : List ℤ). length s) e in (omega (arith, full), omega (arith, full))

byte_or_invalid-fails : (o : Option ℕ) → byte_or_invalid o ≢ err (failed stack_underflow)
byte_or_invalid-fails none e = cc
byte_or_invalid-fails (some b) e = cc

immediate-Effect : Effect 0 0 (reads immediate)
immediate-Effect = reads-Effect immediate (λ m. byte_or_invalid-fails (get_elem? m.code (m.pc + 1)))

step-Effect : (n : ℕ) → Effect 0 0 (modify (λ m. record m { pc = m.pc + n }))
step-Effect n = modify-Effect (λ m. record m { pc = m.pc + n }) (λ m. refl)

invalid-Effect : (b : Bool) → Effect 0 0 (raise_if b (failed invalid_opcode))
invalid-Effect b = raise_if-Effect b (failed invalid_opcode) (λ e. cc)

abbrev pub takes_stack : StackOp → ℕ
takes_stack pop = 1
takes_stack dup = 1
takes_stack swap = 2
takes_stack _ = 0

abbrev pub gives_stack : StackOp → ℕ
gives_stack pop = 0
gives_stack swap = 2
gives_stack dup = 2
gives_stack _ = 1

pub exec_stack-Effect : (op : StackOp) → Effect (takes_stack op) (gives_stack op) (exec_stack op)
unfolding exec_stack
exec_stack-Effect push1 = search (walk, immediate-Effect, step-Effect) depth 9
exec_stack-Effect push32 = search (walk, invalid-Effect, step-Effect) depth 9
exec_stack-Effect pop = search walk
exec_stack-Effect dup = λ m. doubled-Outcome m m.stack refl
exec_stack-Effect swap = λ m. swapped-Outcome m m.stack refl

grow-stack : (size : ℤ) (m : Machine) → (grow_memory size m).stack ≡ m.stack
unfolding grow_memory
grow-stack size m = ground arith

-- a test that fails with another error
pub if-fails :
    {A : Type 0} (b : Bool) (a : A) (e : Halt)
    → e ≢ failed stack_underflow
    → (if b then ok a else err e) ≢ err (failed stack_underflow)
if-fails true a e ne same = cc
if-fails false a e ne same = ne cc

slice-fails : (capacity : ℕ) (lo hi : ℤ) → slice capacity lo hi ≢ err (failed stack_underflow)
unfolding slice
slice-fails capacity (pos lo) (pos hi) =
    if-fails (leb lo hi && leb hi capacity) (lo, hi - lo) panicked (λ e. cc)
slice-fails capacity (pos lo) (negsuc hi) = λ e. cc
slice-fails capacity (negsuc lo) hi = λ e. cc

module _ (capacity : ℕ) where
  pub region-Effect : (off sz : ℤ) → Effect 0 0 (region capacity off sz)
  unfolding region
  region-Effect off sz =
      bind-Effect 0 0 _ _
        (modify-Effect (grow_memory (add_int off sz)) (grow-stack (add_int off sz)))
        (λ _.
          reads-Effect (λ m. slice capacity off (add_int off sz))
            (λ m. slice-fails capacity off (add_int off sz)))

  pub read_region-Effect : (off sz : ℤ) → Effect 0 0 (read_region capacity off sz)
  unfolding read_region
  read_region-Effect off sz = search (walk, region-Effect)
