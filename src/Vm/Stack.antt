-- ===== src/Vm/Stack.antt =====
-- The stack and the cases of the `switch` in `run` (gpl/vm/vm.go) that use only it and the code.

use rpcnode.Prelude.{
  Option, ℕ, zero, suc, ◌+◌, Bool, true, false, none, some, List, [], ◌∷◌, Result, ok, err, Exec,
  pure, reads, raise_if, modify, ◌>>=◌, ◌>>◌, leb, if◌then◌else◌, length, take, drop, get_elem?,
}
use rpcnode.Prelude.Bytes.{set_bytes}
use rpcnode.Prelude.Int.{ℤ, pos, ◌+ℤ◌, ◌-ℤ◌, ◌*ℤ◌, to_int64, ltb_ℤ, eqb_ℤ}
use rpcnode.Vm.Types.{
  stack_underflow, invalid_opcode, BinaryOp, add, sub, mul, div, mod', lt, gt, eq, and, or, xor,
  shl, shr, StackOp, push1, push32, dup, swap, Machine, Halt, panicked, failed, Flow, advance,
}
use rpcnode.Vm.Words.{
  low_64, div_euclid, mod_euclid, and_ℤ, or_ℤ, xor_ℤ, not_ℤ, shift_left, shift_right,
}

abbrev pub Run : Type 0 → Type 0
Run A = Exec Halt Machine A

unfoldable pub push : ℤ → Run Unit
push v = modify (λ m. record m { stack = v ∷ m.stack })

abbrev pub pop_from : List ℤ → Run ℤ
pop_from [] m = (err (failed stack_underflow), m)
pop_from (v ∷ s) m = (ok v, record m { stack = s })

unfoldable pub pop : Run ℤ
pop m = pop_from m.stack m

-- the one below the top first
unfoldable pub pop2 : Run (ℤ × ℤ)
pop2 = do b ← pop; a ← pop; pure (a, b)

abbrev truth : Bool → ℤ
truth true = pos 1
truth false = pos 0

-- `int(x.Uint64())`
abbrev pub int_of : ℤ → ℤ
int_of v = to_int64 (low_64 v)

unfoldable pub apply_binary : BinaryOp → ℤ → ℤ → ℤ
apply_binary add a b = a +ℤ b
apply_binary sub a b = a -ℤ b
apply_binary mul a b = a *ℤ b
apply_binary div a b = if eqb_ℤ b (pos 0) then pos 0 else div_euclid a b
apply_binary mod' a b = if eqb_ℤ b (pos 0) then pos 0 else mod_euclid a b
apply_binary lt a b = truth (ltb_ℤ a b)
apply_binary gt a b = truth (ltb_ℤ b a)
apply_binary eq a b = truth (eqb_ℤ a b)
apply_binary and a b = and_ℤ a b
apply_binary or a b = or_ℤ a b
apply_binary xor a b = xor_ℤ a b
apply_binary shl shift val = shift_left val (low_64 shift)
apply_binary shr shift val = shift_right val (low_64 shift)

-- `lsh_fails` has the numbers and the shifts for which `Lsh` of math/big panics: it cannot make the
-- words of the result.
unfoldable pub unmade : (ℤ → ℕ → Bool) → BinaryOp → ℤ → ℤ → Bool
unmade lsh_fails shl shift val = lsh_fails val (low_64 shift)
unmade lsh_fails _ shift val = false

unfoldable pub exec_binary : (ℤ → ℕ → Bool) → BinaryOp → Run Flow
exec_binary lsh_fails op = do
  (a, b) ← pop2
  raise_if (unmade lsh_fails op a b) panicked
  push (apply_binary op a b)
  pure advance

unfoldable pub exec_not : Run Flow
exec_not = do a ← pop; push (not_ℤ a); pure advance

abbrev pub byte_or_invalid : Option ℕ → Result Halt ℕ
byte_or_invalid none = err (failed invalid_opcode)
byte_or_invalid (some b) = ok b

-- `int64(m.code[m.pc])` of the immediate byte
abbrev pub immediate : Machine → Result Halt ℕ
immediate m = byte_or_invalid (get_elem? m.code (m.pc + 1))

abbrev pub swapped : List ℤ → Run Flow
swapped (a ∷ b ∷ s) m = (ok advance, record m { stack = b ∷ a ∷ s })
swapped _ m = (err (failed stack_underflow), m)

abbrev pub doubled : List ℤ → Run Flow
doubled (a ∷ s) m = (ok advance, record m { stack = a ∷ a ∷ s })
doubled [] m = (err (failed stack_underflow), m)

unfoldable pub exec_stack : StackOp → Run Flow
exec_stack push1 = do
  b ← reads immediate
  modify (λ m. record m { pc = m.pc + 1 })
  push (pos b)
  pure advance
exec_stack push32 = do
  short ← reads (λ m. ok (leb (length m.code) (m.pc + 32)))
  raise_if short (failed invalid_opcode)
  word ← reads (λ m. ok (take 32 (drop (m.pc + 1) m.code)))
  modify (λ m. record m { pc = m.pc + 32 })
  push (pos (set_bytes word 0))
  pure advance
exec_stack StackOp.pop = do v ← pop; pure advance
exec_stack dup = λ m. doubled m.stack m
exec_stack swap = λ m. swapped m.stack m

unfoldable pub pop_many : ℕ → Run Unit
pop_many zero = pure tt
pop_many (suc n) = do v ← pop; pop_many n

unfoldable pub exec_call : Run Flow
exec_call = do pop_many 7; push (pos 0); pure advance
