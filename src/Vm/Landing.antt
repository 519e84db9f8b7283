-- ===== src/Vm/Landing.antt =====
-- Where an instruction of `run` (gpl/vm/vm.go) leaves the program counter, jumps included.
use rpcnode.Prelude.{
  ℕ, ◌≤◌, ◌<◌, ◌≡◌, ◌⊎◌, inl, inr, refl, Option, none, some, Bool, true, false, ok, err, pure,
  raise, reads, modify, ◌>>=◌, ◌>>◌, reads_rule, if◌then◌else◌, get_elem?, arith, GoString,
}
use rpcnode.Prelude.Ensures.{Ends, Ensures, Keeps, bind-Ensures, weaken-Ensures}
use rpcnode.Prelude.Int.{ℤ, pos, negsuc, eqb_ℤ}
use rpcnode.Vm.Types.{
  Machine, Halt, failed, finished, invalid_jump, execution_reverted, BinaryOp, mul, sload, sstore,
  log0, log1, Flow, advance, stay, OpCode, stop, not', sha3, call, binary, on_stack, on_memory,
  on_storage, jumping, exit, logging, host, other, JumpOp, jump, jumpi, jumpdest, ExitOp, return,
  revert,
}
use rpcnode.Vm.Codes.{gas_cost}
use rpcnode.Vm.Stack.{Run, int_of}
use rpcnode.Vm.Regions.{exec_exit, set_return_data}
use rpcnode.Vm.World.{destination, is_jumpdest, jump_to, exec_jump}
use rpcnode.Vm.Loop.{exec_op}
use rpcnode.Vm.Frame.{
  Framed, Steady, framed, steady, Alike-Framed, Alike-refl, pop-Keeps, pop2-Keeps,
}
use rpcnode.Vm.Steady.{
  Onward, GoesOn, raise-GoesOn, exec_binary-GoesOn, exec_not-GoesOn, exec_stack-GoesOn,
  exec_memory-GoesOn, exec_storage-GoesOn, exec_exit-GoesOn, exec_log-GoesOn, exec_host-GoesOn,
  exec_sha3-GoesOn, exec_call-GoesOn, set_return_data-Keeps,
}

-- a set program counter is at a JUMPDEST byte, and one that was not set has not gone back
abbrev pub Reached : Machine → Flow → Machine → Type 0
Reached m advance n = m.pc ≤ n.pc
Reached m stay n = get_elem? n.code n.pc ≡ some 0x42

abbrev pub Landed : Machine → Flow → Machine → Type 0
Landed m flow n = Framed m n × Reached m flow n

abbrev pub Lands : Run Flow → Type 0
Lands c = Ensures Halt steady Landed c

Onward-Landed : (m n : Machine) (flow : Flow) → Onward m flow n → Landed m flow n
Onward-Landed m n advance h = (h.0.framed, h.0.pc)
Onward-Landed m n stay h = cc

GoesOn-Lands : (c : Run Flow) → GoesOn c → Lands c
GoesOn-Lands c = weaken-Ensures Halt steady steady Onward Landed c (λ s t h. h) Onward-Landed

jumpdest_byte : (o : Option ℕ) → is_jumpdest o ≡ true → o ≡ some 0x42
jumpdest_byte none h = cc
jumpdest_byte (some b) h = ground arith

destination_byte :
    (v : ℤ) (m : Machine) (d : ℕ) → destination v m ≡ ok d → get_elem? m.code d ≡ some 0x42
unfolding destination
destination_byte (negsuc n) m d h = cc
destination_byte (pos n) m d h = go (is_jumpdest (get_elem? m.code n)) refl h
  where
    go :
        (b : Bool)
        → is_jumpdest (get_elem? m.code n) ≡ b
        → (if b then ok n else err (failed invalid_jump)) ≡ ok d
        → get_elem? m.code d ≡ some 0x42
    go true e h = let byte = jumpdest_byte (get_elem? m.code n) e in cc
    go false e h = cc

jump_to-Lands : (dest : ℤ) → Lands (jump_to dest)
unfolding jump_to modify ◌>>=◌ pure
jump_to-Lands dest m =
    reads_rule (Ends (Steady m) (Landed m)) (destination (int_of dest))
      (λ d. modify (λ m. record m { pc = d }) >> pure stay) m (λ e h. steady.same m)
      (λ d h.
        (Alike-Framed m (record m { pc = d }) (Alike-refl m), destination_byte (int_of dest) m d h))

bind-Lands :
    {A : Type 0} (c : Run A) (k : A → Run Flow)
    → Keeps Halt steady c
    → ((a : A) → Lands (k a))
    → Lands (c >>= k)
bind-Lands c k = bind-Ensures Halt steady Landed (λ s t u b h g. after s t u b h g) c k
  where
    reached : (s t u : Machine) (b : Flow) → Steady s t → Landed t b u → Reached s b u
    reached s t u advance h g = omega (arith, h.pc, g.1)
    reached s t u stay h g = g.1

    after : (s t u : Machine) (b : Flow) → Steady s t → Landed t b u → Landed s b u
    after s t u b h g = (framed.trans s t u h.framed g.0, reached s t u b h g)

pure-Lands : Lands (pure advance)
unfolding pure
pure-Lands m = (framed.same m, omega arith)

exec_jump-Lands : (op : JumpOp) → Lands (exec_jump op)
unfolding exec_jump
exec_jump-Lands jump = search (bind-Lands, pop-Keeps, jump_to-Lands)
exec_jump-Lands jumpi =
    bind-Lands _ _ pop2-Keeps (λ p. go (jump_to p.0) (eqb_ℤ p.1 (pos 0)) (jump_to-Lands p.0))
  where
    go : (c : Run Flow) (b : Bool) → Lands c → Lands (if b then pure advance else c)
    go c true h = pure-Lands
    go c false h = h
exec_jump-Lands jumpdest = pure-Lands

-- an instruction that always ends the loop
abbrev pub Halts : Run Flow → Type 0
Halts c = Ensures Halt steady (λ m flow n. ⊥) c

module _ (sha256 : GoString → GoString) (capacity : ℕ) (lsh_fails : ℤ → ℕ → Bool) where
  pub exec_op-Lands : (op : OpCode) → Lands (exec_op sha256 capacity lsh_fails op)
  unfolding exec_op reads
  exec_op-Lands stop = GoesOn-Lands _ (raise-GoesOn finished)
  exec_op-Lands (binary op) = GoesOn-Lands _ (exec_binary-GoesOn lsh_fails op)
  exec_op-Lands not' = GoesOn-Lands _ exec_not-GoesOn
  exec_op-Lands (on_stack op) = GoesOn-Lands _ (exec_stack-GoesOn op)
  exec_op-Lands (on_memory op) = GoesOn-Lands _ (exec_memory-GoesOn capacity op)
  exec_op-Lands (on_storage op) = GoesOn-Lands _ (exec_storage-GoesOn op)
  exec_op-Lands (jumping op) = exec_jump-Lands op
  exec_op-Lands (exit op) = GoesOn-Lands _ (exec_exit-GoesOn capacity op)
  exec_op-Lands (logging op) = GoesOn-Lands _ (exec_log-GoesOn capacity op)
  exec_op-Lands (host op) = GoesOn-Lands _ (exec_host-GoesOn op)
  exec_op-Lands sha3 = GoesOn-Lands _ (exec_sha3-GoesOn capacity sha256)
  exec_op-Lands call = GoesOn-Lands _ exec_call-GoesOn
  exec_op-Lands (other b) = λ m. steady.same m

  raise-Halts : (e : Halt) → Halts (set_return_data capacity >> raise e)
  unfolding raise
  raise-Halts e =
      bind-Ensures Halt steady (λ (m : Machine) (flow : Flow) n. ⊥) (λ s t u b h g. g)
        (set_return_data capacity) (λ _. raise e) (set_return_data-Keeps capacity)
        (λ _ m. steady.same m)

  exec_exit-Halts : (op : ExitOp) → Halts (exec_exit capacity op)
  unfolding exec_exit
  exec_exit-Halts return = raise-Halts finished
  exec_exit-Halts revert = raise-Halts (failed execution_reverted)

  -- A free instruction ends the loop.
  pub exec_op-Halts :
      (op : OpCode) → (0 < gas_cost op) ⊎ Halts (exec_op sha256 capacity lsh_fails op)
  unfolding exec_op gas_cost raise
  exec_op-Halts stop = inr (λ m. steady.same m)
  exec_op-Halts (binary op) = inl (go op)
    where
      go : (op : BinaryOp) → 0 < gas_cost (binary op)
      go mul = omega arith
      go _ = omega arith
  exec_op-Halts not' = inl (omega arith)
  exec_op-Halts (on_stack op) = inl (omega arith)
  exec_op-Halts (on_memory op) = inl (omega arith)
  exec_op-Halts (on_storage sload) = inl (omega arith)
  exec_op-Halts (on_storage sstore) = inl (omega arith)
  exec_op-Halts (jumping op) = inl (omega arith)
  exec_op-Halts (exit op) = inr (exec_exit-Halts op)
  exec_op-Halts (logging log0) = inl (omega arith)
  exec_op-Halts (logging log1) = inl (omega arith)
  exec_op-Halts (host op) = inl (omega arith)
  exec_op-Halts sha3 = inl (omega arith)
  exec_op-Halts call = inl (omega arith)
  exec_op-Halts (other b) = inl (omega arith)
