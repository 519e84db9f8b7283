-- ===== src/Vm/Gas.antt =====
-- The gas that the rounds of `run` (gpl/vm/vm.go) use, and what else holds from one round to the next.
use rpcnode.Prelude.{
  Bool, ℕ, zero, suc, ◌+◌, ◌^◌, ◌≤◌, ◌<◌, ◌≡◌, ◌⊎◌, inl, inr, refl, ◌∙◌, ap, none, some, Result, ok,
  err, pure, modify, ◌>>=◌, continue, reads_rule, raise_if_rule, ltb, get_elem?, arith, GoString,
}
use rpcnode.Prelude.Ensures.{Passage, Ends}
use rpcnode.Prelude.Int.{ℤ}
use rpcnode.Vm.Types.{
  Machine, Halt, failed, out_of_gas, Flow, advance, stay, OpCode, ContractAccount,
}
use rpcnode.Vm.Codes.{gas_cost}
use rpcnode.Vm.Loop.{exec_op, flow_to, current_op, charge, tick, run, continue_with, RunEnd}
use rpcnode.Vm.Frame.{Framed, Steady, framed}
use rpcnode.Vm.Landing.{Landed, Halts, exec_op-Lands, exec_op-Halts}

-- a machine with the gas of another
abbrev pub with_gas : Machine → Machine → Machine
with_gas m n = record n { gas_left = m.gas_left; gas_used = m.gas_used }

-- Apart from the gas the frame holds, and gas goes from what is left to what is used.
pub record Spends (m n : Machine) : Type 0 where
  pub frame : Framed m (with_gas m n)
  pub less : n.gas_left ≤ m.gas_left
  pub total : m.gas_left + m.gas_used < 2 ^ 64 → n.gas_left + n.gas_used ≡ m.gas_left + m.gas_used

abbrev pub spending : Passage Machine
spending = record {
  Rel = Spends;
  same = λ m. record { frame = framed.same m; less = omega arith; total = λ h. refl };
  trans = λ s t u f g. record {
    frame = record {
      code = g.frame.code ∙ f.frame.code;
      ctx = g.frame.ctx ∙ f.frame.ctx;
      gas_left = refl;
      gas_used = refl;
      contract =
          ap (λ (c : ContractAccount). record c { storage = s.contract.storage }) g.frame.contract
          ∙ f.frame.contract;
      memory = λ h. g.frame.memory (f.frame.memory h);
    };
    less = omega (arith, f.less, g.less);
    total = λ h. g.total (omega (arith, f.total h, h)) ∙ f.total h;
  };
}

-- a round that is done: it used gas, and went on or to a JUMPDEST byte
abbrev pub Ticked : Machine → Machine → Type 0
Ticked m n =
    Spends m n × (n.gas_left < m.gas_left) × ((m.pc < n.pc) ⊎ (get_elem? n.code n.pc ≡ some 0x42))

charge-Spends :
    (cost : ℕ) (m n : Machine) → cost ≤ m.gas_left → Framed (charge cost m) n → Spends m n
charge-Spends cost m n h f = record {
  frame = record {
    code = f.code;
    ctx = f.ctx;
    gas_left = refl;
    gas_used = refl;
    contract = f.contract;
    memory = f.memory;
  };
  less = omega (arith, f.gas_left);
  total = λ small. omega (arith, f.gas_left, f.gas_used, h, small);
}

at_next : (m n : Machine) → Framed m n → Framed m (record n { pc = n.pc + 1 })
at_next m n f = record {
  code = f.code;
  ctx = f.ctx;
  gas_left = f.gas_left;
  gas_used = f.gas_used;
  contract = f.contract;
  memory = f.memory;
}

-- an instruction with its cost, after the cost was taken
abbrev Paid : ℕ → Machine → Flow → Machine → Type 0
Paid cost m flow n = Landed (charge cost m) flow n × (0 < cost)

charged :
    (cost : ℕ) (m : Machine) (r : Result Halt Flow × Machine)
    → cost ≤ m.gas_left
    → Ends (Steady (charge cost m)) (Paid cost m) r
    → Ends (Spends m) (λ (u : Unit) n. Ticked m n) (continue r.0 flow_to r.1)
unfolding modify pure
charged cost m (err e, n) h s = charge-Spends cost m n h s.framed
charged cost m (ok advance, n) h ((f, reached), positive) = (
  charge-Spends cost m (record n { pc = n.pc + 1 }) h (at_next (charge cost m) n f),
  omega (arith, f.gas_left),
  inl (omega arith),
)
charged cost m (ok stay, n) h ((f, reached), positive) =
    (charge-Spends cost m n h f, omega (arith, f.gas_left), inr reached)

abbrev pub TickEnds : Machine → Result {0} Halt Unit × Machine → Type 0
TickEnds m r = Ends (Spends m) (λ (u : Unit) n. Ticked m n) r

-- what holds of the machine that the loop leaves, if the fuel was enough
abbrev pub Ended : Machine → RunEnd → Type 0
Ended m (none, n) = ⊥
Ended m (some e, n) = Spends m n

Ended-trans : (m n : Machine) (r : RunEnd) → Spends m n → Ended n r → Ended m r
Ended-trans m n (none, o) h g = elim g [ ]
Ended-trans m n (some e, o) h g = spending.trans m n o h g

module _ (sha256 : GoString → GoString) (capacity : ℕ) (lsh_fails : ℤ → ℕ → Bool) where
  paid :
      (op : OpCode) (m : Machine)
      → Ends
          (Steady (charge (gas_cost op) m))
          (Paid (gas_cost op) m)
          (exec_op sha256 capacity lsh_fails op (charge (gas_cost op) m))
  paid op m = go (exec_op-Halts sha256 capacity lsh_fails op)
    where
      start : Machine
      start = charge (gas_cost op) m

      both :
          (r : Result Halt Flow × Machine)
          → (0 < gas_cost op) ⊎ Ends (Steady start) (λ (flow : Flow) n. ⊥) r
          → Ends (Steady start) (Landed start) r
          → Ends (Steady start) (Paid (gas_cost op) m) r
      both (err e, n) h l = l
      both (ok flow, n) (inr h) l = elim h [ ]
      both (ok flow, n) (inl h) l = (l, h)

      go :
          (0 < gas_cost op) ⊎ Halts (exec_op sha256 capacity lsh_fails op)
          → Ends (Steady start) (Paid (gas_cost op) m) (exec_op sha256 capacity lsh_fails op start)
      go (inl h) =
          both (exec_op sha256 capacity lsh_fails op start) (inl h)
            (exec_op-Lands sha256 capacity lsh_fails op start)
      go (inr h) =
          both (exec_op sha256 capacity lsh_fails op start) (inr (h start))
            (exec_op-Lands sha256 capacity lsh_fails op start)

  -- A round of the loop of `run` that does not end it has used gas, and the program counter is further on or
  -- at a JUMPDEST byte. Whether it ends the loop or not, the code, the context and all of the contract but its
  -- storage are as they were, a memory within `MaxMemory` stays within it, the gas left has not grown, and
  -- gas left and gas used have the sum they had, if that is below 2 ^ 64.
  pub tick-Ticked : (m : Machine) → TickEnds m (tick sha256 capacity lsh_fails m)
  unfolding tick ◌>>=◌
  tick-Ticked m =
      reads_rule (TickEnds m) current_op _ m (λ e h. spending.same m)
        (λ op h.
          raise_if_rule (TickEnds m) (ltb m.gas_left (gas_cost op)) (failed out_of_gas) _ m
            (λ h. spending.same m)
            (λ h.
              charged (gas_cost op) m
                (exec_op sha256 capacity lsh_fails op (charge (gas_cost op) m)) (ground arith)
                (paid op m)))

  -- Fuel above the gas that is left is enough for the loop of `run` to end. The code, the context and all of
  -- the contract but its storage are then as they were, a memory within `MaxMemory` is still within it, the
  -- gas left has not grown, and gas left and gas used have the sum they had, if that is below 2 ^ 64.
  pub run-Ended :
      (f : ℕ) (m : Machine) → m.gas_left < f → Ended m (run sha256 capacity lsh_fails f m)
  unfolding run
  run-Ended zero m h = omega (arith, h)
  run-Ended (suc f) m h = go (tick sha256 capacity lsh_fails m) (tick-Ticked m) (run-Ended f)
    where
      go :
          (r : Result Halt Unit × Machine)
          → TickEnds m r
          → ((n : Machine) → n.gas_left < f → Ended n (run sha256 capacity lsh_fails f n))
          → Ended m (continue_with (run sha256 capacity lsh_fails f) r)
      go (err e, n) s rest = s
      go (ok u, n) (s, less, _) rest =
          Ended-trans m n (run sha256 capacity lsh_fails f n) s (rest n (omega (arith, less, h)))
