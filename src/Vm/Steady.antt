-- ===== src/Vm/Steady.antt =====
-- The instructions of `run` (gpl/vm/vm.go) that are not jumps: each goes on to the next one.
use rpcnode.Prelude.{
  ℕ, zero, suc, ◌+◌, ◌≤◌, ◌≡◌, refl, List, [], ◌∷◌, Bool, true, false, pure, raise, modify, ◌>>=◌,
  ltb, arith, GoString, if◌then◌else◌,
}
use rpcnode.Prelude.Ensures.{
  Ends, Ensures, Keeps, bind-Ensures, bind-Keeps, pure-Keeps, raise_if-Keeps, reads-Keeps,
  modify-Keeps,
}
use rpcnode.Prelude.Int.{ℤ, pos, negsuc}
use rpcnode.Vm.Types.{
  Machine, Halt, Flow, advance, BinaryOp, StackOp, push1, push32, pop, dup, swap, max_memory,
  HostOp, StorageOp, sload, sstore, MemoryOp, mload, mstore, ExitOp, return, revert, LogOp, log0,
  log1,
}
use rpcnode.Vm.Memory.{grow_memory, capped, zeroed}
use rpcnode.Vm.Stack.{Run, exec_binary, exec_not, exec_stack, pop_many, exec_call, swapped, doubled}
use rpcnode.Vm.Regions.{
  region, read_region, exec_memory, set_return_data, exec_exit, exec_log, exec_sha3, emit_log,
}
use rpcnode.Vm.World.{exec_storage, exec_host}
use rpcnode.Vm.Contract.{storage_set}
use rpcnode.Vm.Frame.{
  Alike, Steady, steady, Alike-Steady, Alike-refl, restack, push-Keeps, pop-Keeps, pop2-Keeps,
}

-- an instruction that is done leaves the program counter for the loop to advance
abbrev pub Onward : Machine → Flow → Machine → Type 0
Onward m flow n = Steady m n × (flow ≡ advance)

abbrev pub GoesOn : Run Flow → Type 0
GoesOn c = Ensures Halt steady Onward c

bind-GoesOn :
    {A : Type 0} (c : Run A) (k : A → Run Flow)
    → Keeps Halt steady c
    → ((a : A) → GoesOn (k a))
    → GoesOn (c >>= k)
bind-GoesOn c k =
    bind-Ensures Halt steady Onward (λ s t u b h g. (steady.trans s t u h g.0, g.1)) c k

pure-GoesOn : GoesOn (pure advance)
unfolding pure
pure-GoesOn m = (steady.same m, refl)

pub raise-GoesOn : (e : Halt) → GoesOn (raise e)
unfolding raise
raise-GoesOn e m = steady.same m

-- a write to fields that the relation does not speak of
modify_fields-Keeps :
    (f : Machine → Machine)
    → ((m : Machine) → Alike m (f m) × (m.pc ≤ (f m).pc))
    → Keeps Halt steady (modify f)
modify_fields-Keeps f h = modify-Keeps Halt steady f (λ m. Alike-Steady m (f m) (h m).0 (h m).1)

step-Keeps : (n : ℕ) → Keeps Halt steady (modify (λ m. record m { pc = m.pc + n }))
step-Keeps n =
    modify_fields-Keeps (λ m. record m { pc = m.pc + n }) (λ m. (Alike-refl m, omega arith))

ruleset walk = (
  bind-GoesOn, pure-GoesOn, raise-GoesOn, bind-Keeps, pure-Keeps, reads-Keeps, raise_if-Keeps,
  push-Keeps, pop-Keeps, pop2-Keeps, step-Keeps,
)

pub exec_binary-GoesOn :
    (lsh_fails : ℤ → ℕ → Bool) (op : BinaryOp) → GoesOn (exec_binary lsh_fails op)
unfolding exec_binary
exec_binary-GoesOn lsh_fails op = search walk

pub exec_not-GoesOn : GoesOn exec_not
unfolding exec_not
exec_not-GoesOn = search walk

doubled-GoesOn : (m : Machine) (s : List ℤ) → Ends (Steady m) (Onward m) (doubled s m)
doubled-GoesOn m [] = steady.same m
doubled-GoesOn m (a ∷ s) = (restack m (a ∷ a ∷ s), refl)

swapped-GoesOn : (m : Machine) (s : List ℤ) → Ends (Steady m) (Onward m) (swapped s m)
swapped-GoesOn m [] = steady.same m
swapped-GoesOn m (a ∷ []) = steady.same m
swapped-GoesOn m (a ∷ b ∷ s) = (restack m (b ∷ a ∷ s), refl)

pub exec_stack-GoesOn : (op : StackOp) → GoesOn (exec_stack op)
unfolding exec_stack
exec_stack-GoesOn push1 = search walk
exec_stack-GoesOn push32 = search walk depth 9
exec_stack-GoesOn pop = search walk
exec_stack-GoesOn dup = λ m. doubled-GoesOn m m.stack
exec_stack-GoesOn swap = λ m. swapped-GoesOn m m.stack

capped_bound : (size : ℤ) → capped size ≤ max_memory
capped_bound (negsuc n) = omega arith
capped_bound (pos n) = ground arith

grow_memory-Steady : (size : ℤ) (m : Machine) → Steady m (grow_memory size m)
unfolding grow_memory
grow_memory-Steady size m = go (ltb m.mem_len (capped size))
  where
    grown : Machine
    grown = record m { memory = zeroed m.mem_len (capped size) m.memory; mem_len = capped size }

    go : (b : Bool) → Steady m (if b then grown else m)
    go false = steady.same m
    go true = record {
      framed = record {
        code = refl;
        ctx = refl;
        gas_left = refl;
        gas_used = refl;
        contract = refl;
        memory = λ h. capped_bound size;
      };
      pc = omega arith;
    }

grow_memory-Keeps : (size : ℤ) → Keeps Halt steady (modify (grow_memory size))
grow_memory-Keeps size = modify-Keeps Halt steady (grow_memory size) (grow_memory-Steady size)

write-Keeps : (f : Machine → ℕ → ℕ) → Keeps Halt steady (modify (λ m. record m { memory = f m }))
write-Keeps f =
    modify_fields-Keeps (λ m. record m { memory = f m }) (λ m. (Alike-refl m, omega arith))

return_data-Keeps :
    (bs : GoString) → Keeps Halt steady (modify (λ m. record m { return_data = bs }))
return_data-Keeps bs =
    modify_fields-Keeps (λ m. record m { return_data = bs }) (λ m. (Alike-refl m, omega arith))

emit-Keeps :
    (topics : List GoString) (bs : GoString) → Keeps Halt steady (modify (emit_log topics bs))
emit-Keeps topics bs = modify_fields-Keeps (emit_log topics bs) (λ m. (Alike-refl m, omega arith))

module _ (capacity : ℕ) where
  region-Keeps : (off sz : ℤ) → Keeps Halt steady (region capacity off sz)
  unfolding region
  region-Keeps off sz = search (walk, grow_memory-Keeps)

  read_region-Keeps : (off sz : ℤ) → Keeps Halt steady (read_region capacity off sz)
  unfolding read_region
  read_region-Keeps off sz = search (walk, region-Keeps)

  pub exec_memory-GoesOn : (op : MemoryOp) → GoesOn (exec_memory capacity op)
  unfolding exec_memory
  exec_memory-GoesOn mload = search (walk, read_region-Keeps)
  exec_memory-GoesOn mstore = search (walk, region-Keeps, write-Keeps) depth 9

  pub set_return_data-Keeps : Keeps Halt steady (set_return_data capacity)
  unfolding set_return_data
  set_return_data-Keeps = search (walk, read_region-Keeps, return_data-Keeps) depth 9

  pub exec_exit-GoesOn : (op : ExitOp) → GoesOn (exec_exit capacity op)
  unfolding exec_exit
  exec_exit-GoesOn return = search (walk, set_return_data-Keeps)
  exec_exit-GoesOn revert = search (walk, set_return_data-Keeps)

  pub exec_log-GoesOn : (op : LogOp) → GoesOn (exec_log capacity op)
  unfolding exec_log
  exec_log-GoesOn log0 = search (walk, read_region-Keeps, emit-Keeps) depth 9
  exec_log-GoesOn log1 = search (walk, read_region-Keeps, emit-Keeps) depth 9

  pub exec_sha3-GoesOn : (sha256 : GoString → GoString) → GoesOn (exec_sha3 capacity sha256)
  unfolding exec_sha3
  exec_sha3-GoesOn sha256 = search (walk, read_region-Keeps)

store_Steady :
    (m : Machine) (key value : GoString)
    → Steady m (record m { contract = storage_set key value m.contract })
unfolding storage_set
store_Steady m key value = record {
  framed = record {
    code = refl;
    ctx = refl;
    gas_left = refl;
    gas_used = refl;
    contract = refl;
    memory = λ h. h;
  };
  pc = omega arith;
}

storage_set-Keeps :
    (key value : GoString)
    → Keeps Halt steady (modify (λ m. record m { contract = storage_set key value m.contract }))
storage_set-Keeps key value =
    modify-Keeps Halt steady (λ m. record m { contract = storage_set key value m.contract })
      (λ m. store_Steady m key value)

pub exec_storage-GoesOn : (op : StorageOp) → GoesOn (exec_storage op)
unfolding exec_storage
exec_storage-GoesOn sload = search walk
exec_storage-GoesOn sstore = search (walk, storage_set-Keeps)

pub exec_host-GoesOn : (op : HostOp) → GoesOn (exec_host op)
unfolding exec_host
exec_host-GoesOn HostOp.pc = search walk
exec_host-GoesOn HostOp.gas = search walk
exec_host-GoesOn HostOp.origin = search walk
exec_host-GoesOn HostOp.caller = search walk
exec_host-GoesOn HostOp.callvalue = search walk
exec_host-GoesOn HostOp.address = search walk
exec_host-GoesOn HostOp.balance = search walk
exec_host-GoesOn HostOp.blocknumber = search walk
exec_host-GoesOn HostOp.timestamp = search walk

pop_many-Keeps : (n : ℕ) → Keeps Halt steady (pop_many n)
unfolding pop_many
pop_many-Keeps zero = pure-Keeps Halt steady tt
pop_many-Keeps (suc n) = search (walk, pop_many-Keeps n)

pub exec_call-GoesOn : GoesOn exec_call
unfolding exec_call
exec_call-GoesOn = search (walk, pop_many-Keeps)
