-- ===== src/Vm/Codes.antt =====
-- The bytes of the opcodes and their gas (gpl/vm/vm.go).
use rpcnode.Prelude.{ℕ, List, [], ◌∷◌, ◌==◌, if◌then◌else◌}
use rpcnode.Vm.Types.{
  BinaryOp, add, sub, mul, div, mod', lt, gt, eq, and, or, xor, shl, shr, push1, push32, pop, dup,
  swap, mload, mstore, StorageOp, sload, sstore, jump, jumpi, jumpdest, return, revert, LogOp, log0,
  log1, HostOp, OpCode, stop, not', sha3, call, binary, on_stack, on_memory, on_storage, jumping,
  exit, logging, host, other,
}

abbrev table : List (ℕ × OpCode)
table =
    (0x00, stop)
    ∷ (0x01, binary add)
    ∷ (0x02, binary sub)
    ∷ (0x03, binary mul)
    ∷ (0x04, binary div)
    ∷ (0x05, binary mod')
    ∷ (0x06, binary lt)
    ∷ (0x07, binary gt)
    ∷ (0x08, binary eq)
    ∷ (0x09, binary and)
    ∷ (0x0a, binary or)
    ∷ (0x0b, not')
    ∷ (0x0c, binary xor)
    ∷ (0x0d, binary shl)
    ∷ (0x0e, binary shr)
    ∷ (0x10, on_stack push1)
    ∷ (0x11, on_stack push32)
    ∷ (0x12, on_stack pop)
    ∷ (0x13, on_stack dup)
    ∷ (0x14, on_stack swap)
    ∷ (0x20, on_memory mload)
    ∷ (0x21, on_memory mstore)
    ∷ (0x30, on_storage sload)
    ∷ (0x31, on_storage sstore)
    ∷ (0x40, jumping jump)
    ∷ (0x41, jumping jumpi)
    ∷ (0x42, jumping jumpdest)
    ∷ (0x43, host HostOp.pc)
    ∷ (0x44, host HostOp.gas)
    ∷ (0x50, call)
    ∷ (0x51, exit return)
    ∷ (0x52, exit revert)
    ∷ (0x60, logging log0)
    ∷ (0x61, logging log1)
    ∷ (0x70, host HostOp.origin)
    ∷ (0x71, host HostOp.caller)
    ∷ (0x72, host HostOp.callvalue)
    ∷ (0x73, host HostOp.address)
    ∷ (0x74, host HostOp.balance)
    ∷ (0x75, host HostOp.blocknumber)
    ∷ (0x76, host HostOp.timestamp)
    ∷ (0x80, sha3)
    ∷ []

find : List (ℕ × OpCode) → ℕ → OpCode
find [] b = other b
find ((c, op) ∷ rest) b = if c == b then op else find rest b

-- the case of the `switch` that a byte selects
unfoldable pub op_code : ℕ → OpCode
unfolding find
op_code b = find table b

abbrev binary_cost : BinaryOp → ℕ
binary_cost mul = 5
binary_cost div = 5
binary_cost mod' = 5
binary_cost _ = 3

abbrev storage_cost : StorageOp → ℕ
storage_cost sload = 200
storage_cost sstore = 5000

abbrev log_cost : LogOp → ℕ
log_cost log0 = 375
log_cost log1 = 750

unfoldable pub gas_cost : OpCode → ℕ
gas_cost stop = 0
gas_cost (exit op) = 0
gas_cost (binary op) = binary_cost op
gas_cost not' = 3
gas_cost (on_stack op) = 3
gas_cost (on_memory op) = 3
gas_cost (on_storage op) = storage_cost op
gas_cost (jumping op) = 8
gas_cost (logging op) = log_cost op
gas_cost sha3 = 30
gas_cost call = 700
gas_cost (host op) = 1
gas_cost (other b) = 1
