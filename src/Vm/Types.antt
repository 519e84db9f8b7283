-- ===== src/Vm/Types.antt =====
-- The types and constants of gpl/vm/vm.go.
use rpcnode.Prelude.{ℕ, GoString, Option, List, Bool}
use rpcnode.Prelude.Int.{ℤ}
use rpcnode.Prelude.Dict.{Dict}

-- `unknown_opcode op pc` is the error that wraps `ErrInvalidOpcode`.
pub data VmError : Type 0 where
  out_of_gas stack_overflow stack_underflow invalid_opcode invalid_jump : VmError
  execution_reverted memory_limit code_too_large : VmError
  unknown_opcode : ℕ → ℕ → VmError

-- The opcodes, grouped by what their cases in the `switch` of `run` do.
pub data BinaryOp : Type 0 where
  add sub mul div mod' lt gt eq and or xor shl shr : BinaryOp

pub data StackOp : Type 0 where
  push1 push32 pop dup swap : StackOp

pub data MemoryOp : Type 0 where
  mload mstore : MemoryOp

pub data StorageOp : Type 0 where
  sload sstore : StorageOp

pub data JumpOp : Type 0 where
  jump jumpi jumpdest : JumpOp

pub data ExitOp : Type 0 where
  return revert : ExitOp

pub data LogOp : Type 0 where
  log0 log1 : LogOp

pub data HostOp : Type 0 where
  pc gas origin caller callvalue address balance blocknumber timestamp : HostOp

-- `other` is a byte with no case of its own.
pub data OpCode : Type 0 where
  stop not' sha3 call : OpCode
  binary : BinaryOp → OpCode
  on_stack : StackOp → OpCode
  on_memory : MemoryOp → OpCode
  on_storage : StorageOp → OpCode
  jumping : JumpOp → OpCode
  exit : ExitOp → OpCode
  logging : LogOp → OpCode
  host : HostOp → OpCode
  other : ℕ → OpCode

-- The callback `EmitLog`, which the machine never calls, is left out.
pub record Context : Type 0 where
  pub origin : GoString
  pub caller : GoString
  pub contract_addr : GoString
  pub value : Option ℤ
  pub gas_price : Option ℤ
  pub block_number : ℕ
  pub timestamp : ℤ
  pub get_balance : Option (GoString → Option ℤ)

-- The storage of a contract that has none is nil or empty, which no method tells apart.
pub record ContractAccount : Type 0 where
  pub address : GoString
  pub code : GoString
  pub storage : Dict GoString
  pub balance : Option ℤ
  pub code_hash : GoString
  pub nonce : ℕ

pub record Log : Type 0 where
  pub address : GoString
  pub topics : List GoString
  pub data' : GoString

-- `machine`. The top of the stack is the head of the list. The memory's backing array is a function
-- from places to bytes, of which `mem_len` belong to the slice.
pub record Machine : Type 0 where
  pub code : GoString
  pub stack : List ℤ
  pub memory : ℕ → ℕ
  pub mem_len : ℕ
  pub pc : ℕ
  pub gas_left : ℕ
  pub gas_used : ℕ
  pub ctx : Context
  pub contract : ContractAccount
  pub logs : List Log
  pub return_data : GoString

-- How the loop ends: `return nil`, `return err`, or a run-time panic.
pub data Halt : Type 0 where
  finished panicked : Halt
  failed : VmError → Halt

-- What follows an instruction: `m.pc++`, or `continue` at a program counter that was set.
pub data Flow : Type 0 where
  advance stay : Flow

pub record ExecutionResult : Type 0 where
  pub success : Bool
  pub return_data : GoString
  pub gas_used : ℕ
  pub logs : List Log
  pub error : Option VmError

abbrev pub max_stack_depth : ℕ
max_stack_depth = 1024

abbrev pub max_memory : ℕ
max_memory = 65536

abbrev pub max_code_size : ℕ
max_code_size = 24576

abbrev pub max_gas : ℕ
max_gas = 10000000
