-- ===== src/Vm/Arities.antt =====
-- The table of what every instruction of `run` (gpl/vm/vm.go) takes from the stack and leaves on it.
use rpcnode.Prelude.{
  ℕ, ◌≢◌, refl, Bool, true, false, Option, none, some, List, GoString, err, pure, reads, raise,
  modify, if◌then◌else◌, get_elem?,
}
use rpcnode.Prelude.Int.{ℤ, pos, negsuc, eqb_ℤ}
use rpcnode.Vm.Types.{
  Machine, finished, failed, stack_underflow, invalid_jump, unknown_opcode, execution_reverted,
  Flow, advance, stay, OpCode, stop, not', sha3, call, binary, on_stack, on_memory, on_storage,
  jumping, exit, logging, host, other, HostOp, StorageOp, sload, sstore, MemoryOp, mload, mstore,
  ExitOp, return, revert, LogOp, log0, log1, JumpOp, jump, jumpi, jumpdest,
}
use rpcnode.Vm.Words.{addr_to_word}
use rpcnode.Vm.Contract.{storage_set}
use rpcnode.Vm.Stack.{Run, int_of}
use rpcnode.Vm.Regions.{exec_memory, set_return_data, exec_exit, exec_log, exec_sha3, emit_log}
use rpcnode.Vm.World.{
  exec_storage, exec_host, exec_jump, jump_to, destination, is_jumpdest, address_number,
  word_or_panic,
}
use rpcnode.Vm.Loop.{exec_op}
use rpcnode.Vm.Effect.{
  Effect, bind-Effect, push-Effect, pure-Effect, raise-Effect, modify-Effect, reads-Effect,
  get-Effect, pop-Effect, pop2_bind-Effect, pop2-Effect, pop_many-Effect,
}
use rpcnode.Vm.Arity.{
  panicked-Effect, exec_binary-Effect, exec_not-Effect, exec_call-Effect, exec_stack-Effect,
  if-fails, region-Effect, read_region-Effect, takes_stack, gives_stack,
}

abbrev takes_memory : MemoryOp → ℕ
takes_memory mload = 1
takes_memory mstore = 2

abbrev gives_memory : MemoryOp → ℕ
gives_memory mload = 1
gives_memory mstore = 0

abbrev takes_storage : StorageOp → ℕ
takes_storage sload = 1
takes_storage sstore = 2

abbrev gives_storage : StorageOp → ℕ
gives_storage sload = 1
gives_storage sstore = 0

abbrev takes_jump : JumpOp → ℕ
takes_jump jump = 1
takes_jump jumpi = 2
takes_jump jumpdest = 0

abbrev takes_log : LogOp → ℕ
takes_log log0 = 2
takes_log log1 = 3

abbrev takes_host : HostOp → ℕ
takes_host HostOp.balance = 1
takes_host _ = 0

abbrev pub takes : OpCode → ℕ
takes (binary op) = 2
takes not' = 1
takes (on_stack op) = takes_stack op
takes (on_memory op) = takes_memory op
takes (on_storage op) = takes_storage op
takes (jumping op) = takes_jump op
takes (exit op) = 2
takes (logging op) = takes_log op
takes (host op) = takes_host op
takes sha3 = 2
takes call = 7
takes stop = 0
takes (other b) = 0

abbrev pub gives : OpCode → ℕ
gives (binary op) = 1
gives not' = 1
gives (on_stack op) = gives_stack op
gives (on_memory op) = gives_memory op
gives (on_storage op) = gives_storage op
gives (jumping op) = 0
gives (exit op) = 0
gives (logging op) = 0
gives (host op) = 1
gives sha3 = 1
gives call = 1
gives stop = 0
gives (other b) = 0

write-Effect : (f : Machine → ℕ → ℕ) → Effect 0 0 (modify (λ m. record m { memory = f m }))
write-Effect f = modify-Effect (λ m. record m { memory = f m }) (λ m. refl)

return_data-Effect : (bs : GoString) → Effect 0 0 (modify (λ m. record m { return_data = bs }))
return_data-Effect bs = modify-Effect (λ m. record m { return_data = bs }) (λ m. refl)

emit-Effect : (topics : List GoString) (bs : GoString) → Effect 0 0 (modify (emit_log topics bs))
emit-Effect topics bs = modify-Effect (emit_log topics bs) (λ m. refl)

finished-Effect : Effect 0 0 (raise {A = Flow} finished)
finished-Effect = raise-Effect Flow finished (λ e. cc)

reverted-Effect : Effect 0 0 (raise {A = Flow} (failed execution_reverted))
reverted-Effect = raise-Effect Flow (failed execution_reverted) (λ e. cc)

ruleset walk = (
  bind-Effect, push-Effect, pure-Effect, get-Effect, pop-Effect, pop2-Effect, pop_many-Effect,
  region-Effect, read_region-Effect, panicked-Effect, write-Effect, return_data-Effect, emit-Effect,
  finished-Effect, reverted-Effect,
)

module _ (capacity : ℕ) where
  exec_memory-Effect :
      (op : MemoryOp) → Effect (takes_memory op) (gives_memory op) (exec_memory capacity op)
  unfolding exec_memory
  exec_memory-Effect mload = search walk
  exec_memory-Effect mstore = search walk depth 9

  set_return_data-Effect : Effect 2 0 (set_return_data capacity)
  unfolding set_return_data
  set_return_data-Effect = search walk depth 9

  exec_exit-Effect : (op : ExitOp) → Effect 2 0 (exec_exit capacity op)
  unfolding exec_exit
  exec_exit-Effect return = search (walk, set_return_data-Effect)
  exec_exit-Effect revert = search (walk, set_return_data-Effect)

  exec_log-Effect : (op : LogOp) → Effect (takes_log op) 0 (exec_log capacity op)
  unfolding exec_log
  exec_log-Effect log0 = search walk depth 9
  exec_log-Effect log1 = pop2_bind-Effect 1 0 _ (λ p. search walk depth 9)

  exec_sha3-Effect : (sha256 : GoString → GoString) → Effect 2 1 (exec_sha3 capacity sha256)
  unfolding exec_sha3
  exec_sha3-Effect sha256 = search walk depth 9

store-Effect :
    (key value : GoString)
    → Effect 0 0 (modify (λ m. record m { contract = storage_set key value m.contract }))
store-Effect key value =
    modify-Effect (λ m. record m { contract = storage_set key value m.contract }) (λ m. refl)

exec_storage-Effect :
    (op : StorageOp) → Effect (takes_storage op) (gives_storage op) (exec_storage op)
unfolding exec_storage
exec_storage-Effect sload = search walk
exec_storage-Effect sstore = search (walk, store-Effect)

destination-fails : (v : ℤ) (m : Machine) → destination v m ≢ err (failed stack_underflow)
unfolding destination
destination-fails (negsuc n) m = λ e. cc
destination-fails (pos d) m =
    if-fails (is_jumpdest (get_elem? m.code d)) d (failed invalid_jump) (λ e. cc)

jump_to-Effect : (dest : ℤ) → Effect 0 0 (jump_to dest)
unfolding jump_to
jump_to-Effect dest =
    bind-Effect 0 0 _ _ (reads-Effect (destination (int_of dest)) (destination-fails (int_of dest)))
      (λ d.
        bind-Effect 0 0 _ _ (modify-Effect (λ m. record m { pc = d }) (λ m. refl))
          (λ _. pure-Effect stay))

exec_jump-Effect : (op : JumpOp) → Effect (takes_jump op) 0 (exec_jump op)
unfolding exec_jump
exec_jump-Effect jump = search (walk, jump_to-Effect)
exec_jump-Effect jumpi =
    bind-Effect 2 0 _ _ pop2-Effect (λ p. go (jump_to p.0) (eqb_ℤ p.1 (pos 0)) (jump_to-Effect p.0))
  where
    go : (c : Run Flow) (b : Bool) → Effect 0 0 c → Effect 0 0 (if b then pure advance else c)
    go c true h = pure-Effect advance
    go c false h = h
exec_jump-Effect jumpdest = pure-Effect advance

address_number-fails : (o : Option GoString) → word_or_panic o ≢ err (failed stack_underflow)
address_number-fails none e = cc
address_number-fails (some w) e = cc

address-Effect : (f : Machine → GoString) → Effect 0 0 (reads (λ m. address_number (f m)))
address-Effect f =
    reads-Effect (λ m. address_number (f m)) (λ m. address_number-fails (addr_to_word (f m)))

exec_host-Effect : (op : HostOp) → Effect (takes_host op) 1 (exec_host op)
unfolding exec_host
exec_host-Effect HostOp.pc = search walk
exec_host-Effect HostOp.gas = search walk
exec_host-Effect HostOp.origin = search (walk, address-Effect)
exec_host-Effect HostOp.caller = search (walk, address-Effect)
exec_host-Effect HostOp.callvalue = search walk
exec_host-Effect HostOp.address = search (walk, address-Effect)
exec_host-Effect HostOp.balance = search walk
exec_host-Effect HostOp.blocknumber = search walk
exec_host-Effect HostOp.timestamp = search walk

-- Every instruction, on any machine: it fails for want of numbers on the stack if and only if there are
-- fewer than it takes, and if it goes on, the stack has as many fewer as it takes and as many more as it
-- gives.
pub exec_op-Effect :
    (sha256 : GoString → GoString) (capacity : ℕ) (lsh_fails : ℤ → ℕ → Bool) (op : OpCode)
    → Effect (takes op) (gives op) (exec_op sha256 capacity lsh_fails op)
unfolding exec_op
exec_op-Effect sha256 capacity lsh_fails stop = finished-Effect
exec_op-Effect sha256 capacity lsh_fails (binary op) = exec_binary-Effect lsh_fails op
exec_op-Effect sha256 capacity lsh_fails not' = exec_not-Effect
exec_op-Effect sha256 capacity lsh_fails (on_stack op) = exec_stack-Effect op
exec_op-Effect sha256 capacity lsh_fails (on_memory op) = exec_memory-Effect capacity op
exec_op-Effect sha256 capacity lsh_fails (on_storage op) = exec_storage-Effect op
exec_op-Effect sha256 capacity lsh_fails (jumping op) = exec_jump-Effect op
exec_op-Effect sha256 capacity lsh_fails (exit op) = exec_exit-Effect capacity op
exec_op-Effect sha256 capacity lsh_fails (logging op) = exec_log-Effect capacity op
exec_op-Effect sha256 capacity lsh_fails (host op) = exec_host-Effect op
exec_op-Effect sha256 capacity lsh_fails sha3 = exec_sha3-Effect capacity sha256
exec_op-Effect sha256 capacity lsh_fails call = exec_call-Effect
exec_op-Effect sha256 capacity lsh_fails (other b) =
    reads-Effect (λ m. err (failed (unknown_opcode b m.pc))) (λ m e. cc)
