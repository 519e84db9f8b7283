-- ===== src/Vm/Loop.antt =====
-- `run` and `Execute` (gpl/vm/vm.go). The loop runs on fuel: a unit for each round, and one more.

use rpcnode.Prelude.{
  ℕ, zero, suc, ◌+◌, ◌-◌, ◌^◌, ◌%◌, GoString, Bool, true, false, Option, none, some, [], Result, ok,
  err, pure, raise, reads, raise_if, modify, ◌>>=◌, ◌>>◌, ltb, if◌then◌else◌, length, get_elem?,
}
use rpcnode.Prelude.Int.{ℤ}
use rpcnode.Vm.Types.{
  VmError, out_of_gas, code_too_large, ExecutionResult, max_gas, max_code_size, unknown_opcode,
  OpCode, stop, not', sha3, call, binary, on_stack, on_memory, on_storage, jumping, exit, logging,
  host, other, Context, ContractAccount, Machine, Halt, finished, panicked, failed, Flow, advance,
  stay,
}
use rpcnode.Vm.Stack.{Run, exec_binary, exec_not, exec_stack, exec_call}
use rpcnode.Vm.Regions.{exec_memory, exec_exit, exec_log, exec_sha3}
use rpcnode.Vm.World.{exec_storage, exec_jump, exec_host}
use rpcnode.Vm.Codes.{op_code, gas_cost}

abbrev pub flow_to : Flow → Run Unit
flow_to advance = modify (λ m. record m { pc = m.pc + 1 })
flow_to stay = pure tt

abbrev pub op_at : Option ℕ → Result Halt OpCode
op_at none = err finished
op_at (some b) = ok (op_code b)

-- the operation at the program counter, which the loop has found to be in the code
abbrev pub current_op : Machine → Result Halt OpCode
current_op m = op_at (get_elem? m.code m.pc)

abbrev pub charge : ℕ → Machine → Machine
charge cost m = record m { gas_left = m.gas_left - cost; gas_used = (m.gas_used + cost) % 2 ^ 64 }

-- how the loop ended, if the fuel was enough, and the machine it left
abbrev pub RunEnd : Type 0
RunEnd = Option Halt × Machine

abbrev pub continue_with : (Machine → RunEnd) → Result {0} Halt Unit × Machine → RunEnd
continue_with rest (ok u, m) = rest m
continue_with rest (err e, m) = (some e, m)

module _ (sha256 : GoString → GoString) (capacity : ℕ) (lsh_fails : ℤ → ℕ → Bool) where
  -- one case of the `switch`; the byte `op` of an unknown opcode stands at the program counter
  unfoldable pub exec_op : OpCode → Run Flow
  exec_op stop = raise finished
  exec_op (binary op) = exec_binary lsh_fails op
  exec_op not' = exec_not
  exec_op (on_stack op) = exec_stack op
  exec_op (on_memory op) = exec_memory capacity op
  exec_op (on_storage op) = exec_storage op
  exec_op (jumping op) = exec_jump op
  exec_op (exit op) = exec_exit capacity op
  exec_op (logging op) = exec_log capacity op
  exec_op (host op) = exec_host op
  exec_op sha3 = exec_sha3 capacity sha256
  exec_op call = exec_call
  exec_op (other b) = reads (λ m. err (failed (unknown_opcode b m.pc)))

  -- one round of the loop; outside the code the loop ends
  unfoldable pub tick : Run Unit
  tick = do
    op ← reads current_op
    poor ← reads (λ m. ok (ltb m.gas_left (gas_cost op)))
    raise_if poor (failed out_of_gas)
    modify (charge (gas_cost op))
    flow ← exec_op op
    flow_to flow

  unfoldable pub run : ℕ → Machine → RunEnd
  run zero m = (none, m)
  run (suc f) m = continue_with (run f) (tick m)

-- A run-time panic leaves no result; `unfinished` is a loop that had more rounds than fuel.
pub data Execution : Type 0 where
  crashed unfinished : Execution
  executed : ExecutionResult → ContractAccount → Execution

abbrev pub initial : Context → ContractAccount → ℕ → Machine
initial ctx contract gas_limit = record {
  code = contract.code;
  stack = [];
  memory = λ i. 0;
  mem_len = 0;
  pc = 0;
  gas_left = gas_limit;
  gas_used = 0;
  ctx = ctx;
  contract = contract;
  logs = [];
  return_data = [];
}

abbrev is_none : Option VmError → Bool
is_none none = true
is_none (some e) = false

abbrev pub result_of : ℕ → Option VmError → Machine → ExecutionResult
result_of gas_limit e m = record {
  success = is_none e;
  return_data = m.return_data;
  gas_used = (gas_limit + 2 ^ 64 - m.gas_left) % 2 ^ 64;
  logs = m.logs;
  error = e;
}

-- what `Execute` returns, and the contract that it leaves
abbrev pub end_of : ℕ → Option Halt × Machine → Execution
end_of gas_limit (none, m) = unfinished
end_of gas_limit (some finished, m) = executed (result_of gas_limit none m) m.contract
end_of gas_limit (some panicked, m) = crashed
end_of gas_limit (some (failed e), m) = executed (result_of gas_limit (some e) m) m.contract

abbrev pub refused : ExecutionResult
refused = record {
  success = false;
  return_data = [];
  gas_used = 0;
  logs = [];
  error = some code_too_large;
}

abbrev pub limited : ℕ → ℕ
limited gas_limit = if ltb max_gas gas_limit then max_gas else gas_limit

module _ (sha256 : GoString → GoString) (capacity : ℕ) (lsh_fails : ℤ → ℕ → Bool) where
  -- `Execute`; the input is never read
  unfoldable pub execute : Context → ContractAccount → GoString → ℕ → Execution
  execute ctx contract input gas_limit =
      if ltb max_code_size (length contract.code)
      then executed refused contract
      else end_of (limited gas_limit) (
          run sha256 capacity lsh_fails (limited gas_limit + 1)
            (initial ctx contract (limited gas_limit)))
