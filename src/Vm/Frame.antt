-- ===== src/Vm/Frame.antt =====
-- What the instructions of `run` (gpl/vm/vm.go) leave as it was.
use rpcnode.Prelude.{◌≤◌, ◌≡◌, refl, ◌∙◌, ap, List, [], ◌∷◌, arith}
use rpcnode.Prelude.Ensures.{Passage, Ends, Keeps, bind-Keeps, pure-Keeps, modify-Keeps}
use rpcnode.Prelude.Int.{ℤ}
use rpcnode.Vm.Types.{Machine, Halt, max_memory, ContractAccount}
use rpcnode.Vm.Stack.{push, pop_from, pop, pop2}

-- The code, the context, the gas and what a contract has beside its storage are the same, and the
-- memory stays in its bound.
pub record Framed (m n : Machine) : Type 0 where
  pub code : n.code ≡ m.code
  pub ctx : n.ctx ≡ m.ctx
  pub gas_left : n.gas_left ≡ m.gas_left
  pub gas_used : n.gas_used ≡ m.gas_used
  pub contract : record n.contract { storage = m.contract.storage } ≡ m.contract
  pub memory : m.mem_len ≤ max_memory → n.mem_len ≤ max_memory

-- and the program counter does not go back
pub record Steady (m n : Machine) : Type 0 where
  pub framed : Framed m n
  pub pc : m.pc ≤ n.pc

abbrev pub framed : Passage Machine
framed = record {
  Rel = Framed;
  same = λ m. record {
    code = refl;
    ctx = refl;
    gas_left = refl;
    gas_used = refl;
    contract = refl;
    memory = λ h. h;
  };
  trans = λ s t u f g. record {
    code = g.code ∙ f.code;
    ctx = g.ctx ∙ f.ctx;
    gas_left = g.gas_left ∙ f.gas_left;
    gas_used = g.gas_used ∙ f.gas_used;
    contract =
        ap (λ (c : ContractAccount). record c { storage = s.contract.storage }) g.contract
        ∙ f.contract;
    memory = λ h. g.memory (f.memory h);
  };
}

abbrev pub steady : Passage Machine
steady = record {
  Rel = Steady;
  same = λ m. record { framed = framed.same m; pc = omega arith };
  trans = λ s t u f g. record {
    framed = framed.trans s t u f.framed g.framed;
    pc = omega (arith, f.pc, g.pc);
  };
}

-- a machine with all these fields the same
abbrev pub Alike : Machine → Machine → Type 0
Alike m n =
    (n.code ≡ m.code)
    × (n.ctx ≡ m.ctx)
    × (n.gas_left ≡ m.gas_left)
    × (n.gas_used ≡ m.gas_used)
    × (n.contract ≡ m.contract)
    × (n.mem_len ≡ m.mem_len)

pub Alike-Framed : (m n : Machine) → Alike m n → Framed m n
Alike-Framed m n (code, ctx, left, used, contract, len) = record {
  code = code;
  ctx = ctx;
  gas_left = left;
  gas_used = used;
  contract = ap (λ (c : ContractAccount). record c { storage = m.contract.storage }) contract;
  memory = λ h. omega (arith, len, h);
}

pub Alike-Steady : (m n : Machine) → Alike m n → m.pc ≤ n.pc → Steady m n
Alike-Steady m n a h = record { framed = Alike-Framed m n a; pc = h }

pub Alike-refl : (m : Machine) → Alike m m
Alike-refl m = (refl, refl, refl, refl, refl, refl)

pub restack : (m : Machine) (s : List ℤ) → Steady m (record m { stack = s })
restack m s = Alike-Steady m (record m { stack = s }) (Alike-refl m) (omega arith)

pub push-Keeps : (v : ℤ) → Keeps Halt steady (push v)
unfolding push
push-Keeps v =
    modify-Keeps Halt steady (λ m. record m { stack = v ∷ m.stack }) (λ m. restack m (v ∷ m.stack))

pub pop-Keeps : Keeps Halt steady pop
unfolding pop
pop-Keeps m = go m.stack
  where
    go : (s : List ℤ) → Ends (Steady m) (λ (a : ℤ) t. Steady m t) (pop_from s m)
    go [] = steady.same m
    go (v ∷ s) = restack m s

pub pop2-Keeps : Keeps Halt steady pop2
unfolding pop2
pop2-Keeps = search (bind-Keeps Halt steady, pop-Keeps, pure-Keeps Halt steady)
