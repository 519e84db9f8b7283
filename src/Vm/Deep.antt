-- ===== src/Vm/Deep.antt =====
-- The stack of `run` (gpl/vm/vm.go) under a sequence of PUSH1.
use rpcnode.Prelude.{
  Bool, ℕ, zero, suc, ◌+◌, ◌-◌, ◌*◌, ◌%◌, ◌^◌, ◌≤◌, ◌≡◌, refl, ap, GoString, none, some, List, [],
  ◌∷◌, false, ok, err, ◌>>=◌, get_elem?, drop, length, ltb, arith,
}
use rpcnode.Prelude.Int.{ℤ, pos}
use rpcnode.Vm.Types.{Machine, finished}
use rpcnode.Vm.Codes.{op_code, gas_cost}
use rpcnode.Vm.Stack.{push, exec_stack, byte_or_invalid}
use rpcnode.Vm.Loop.{exec_op, tick, run, RunEnd, op_at}

-- PUSH1 of each byte
abbrev pub pushes : List ℕ → GoString
pushes [] = []
pushes (b ∷ bs) = 0x10 ∷ b ∷ pushes bs

-- the stack after them
abbrev pub pushed_onto : List ℕ → List ℤ → List ℤ
pushed_onto [] s = s
pushed_onto (b ∷ bs) s = pushed_onto bs (pos b ∷ s)

elem-drop :
    (i : ℕ) (xs ys : List ℕ) (y : ℕ)
    → drop i xs ≡ y ∷ ys
    → (get_elem? xs i ≡ some y) × (drop (i + 1) xs ≡ ys)
elem-drop zero [] ys y h = cc
elem-drop (suc i) [] ys y h = cc
elem-drop zero (x ∷ xs) ys y h = (cc, cc)
elem-drop (suc i) (x ∷ xs) ys y h =
    let next : suc i + 1 ≡ suc (i + 1) = omega arith in rw next (elem-drop i xs ys y h)

drop-nil : (i : ℕ) (xs : List ℕ) → drop i xs ≡ [] → get_elem? xs i ≡ none
drop-nil zero [] h = refl
drop-nil (suc i) [] h = refl
drop-nil zero (x ∷ xs) h = cc
drop-nil (suc i) (x ∷ xs) h = drop-nil i xs h

-- what the loop leaves after the pushes
abbrev pub Filled : List ℤ → RunEnd → Type 0
Filled s r = (r.0 ≡ some finished) × (r.1.stack ≡ s)

module _ (sha256 : GoString → GoString) (capacity : ℕ) (lsh_fails : ℤ → ℕ → Bool) where
  abbrev after_push : ℕ → Machine → Machine
  after_push b m = record m {
    stack = pos b ∷ m.stack;
    pc = m.pc + 1 + 1;
    gas_left = m.gas_left - 3;
    gas_used = (m.gas_used + 3) % 2 ^ 64;
  }

  one_push :
      (m : Machine) (b : ℕ)
      → get_elem? m.code m.pc ≡ some 0x10
      → get_elem? m.code (m.pc + 1) ≡ some b
      → 3 ≤ m.gas_left
      → tick sha256 capacity lsh_fails m ≡ (ok tt, after_push b m)
  unfolding tick exec_op exec_stack push ◌>>=◌ op_code gas_cost
  one_push m b e f h =
      let rich : ltb m.gas_left 3 ≡ false = ground arith in
      rw (ap op_at e, rich, ap byte_or_invalid f) refl

  past_end :
      (m : Machine)
      → get_elem? m.code m.pc ≡ none
      → tick sha256 capacity lsh_fails m ≡ (err finished, m)
  unfolding tick ◌>>=◌
  past_end m e = rw (ap op_at e) refl

  -- From a place of the code where a sequence of PUSH1 stands and ends it, with the gas for it, the loop
  -- ends without an error and the stack has every byte on it, however many there are.
  pub pushes_fill :
      (bs : List ℕ) (m : Machine)
      → drop m.pc m.code ≡ pushes bs
      → 3 * length bs ≤ m.gas_left
      → Filled (pushed_onto bs m.stack) (run sha256 capacity lsh_fails (suc (length bs)) m)
  unfolding run
  pushes_fill [] m h g = rw (past_end m (drop-nil m.pc m.code h)) (refl, refl)
  pushes_fill (b ∷ bs) m h g =
      let (here, after) = elem-drop m.pc m.code (b ∷ pushes bs) 0x10 h in
      let (byte, rest) = elem-drop (m.pc + 1) m.code (pushes bs) b after in
      rw (one_push m b here byte (omega (arith, g)))
        (pushes_fill bs (after_push b m) rest (omega (arith, g)))
