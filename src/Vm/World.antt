-- ===== src/Vm/World.antt =====
-- The cases of the `switch` in `run` (gpl/vm/vm.go) for the contract's storage, the jumps and the context.

use rpcnode.Prelude.{
  ℕ, GoString, bytes, hex_encode, Bool, false, Option, none, some, ◌++◌, Result, ok, err, pure,
  reads, modify, ◌>>=◌, ◌>>◌, ◌==◌, if◌then◌else◌, drop, get_elem?,
}
use rpcnode.Prelude.Bytes.{set_bytes}
use rpcnode.Prelude.Int.{ℤ, pos, negsuc, eqb_ℤ}
use rpcnode.Vm.Types.{
  invalid_jump, StorageOp, sload, sstore, JumpOp, jump, jumpi, jumpdest, HostOp, Machine, Halt,
  panicked, failed, Flow, advance, stay,
}
use rpcnode.Vm.Words.{pad_to_32, bytes_of, addr_to_word}
use rpcnode.Vm.Contract.{storage_get, storage_set}
use rpcnode.Vm.Stack.{Run, push, pop, pop2, int_of}

unfoldable pub exec_storage : StorageOp → Run Flow
exec_storage sload = do
  key ← pop
  val ← reads (λ m. ok (storage_get (pad_to_32 (bytes_of key)) m.contract))
  push (pos (set_bytes val 0))
  pure advance
exec_storage sstore = do
  (key, val) ← pop2
  modify (λ m. record m {
    contract = storage_set (pad_to_32 (bytes_of key)) (pad_to_32 (bytes_of val)) m.contract;
  })
  pure advance

abbrev pub is_jumpdest : Option ℕ → Bool
is_jumpdest none = false
is_jumpdest (some b) = b == 0x42

-- the destination, if it is a place of the code that holds a JUMPDEST byte
unfoldable pub destination : ℤ → Machine → Result Halt ℕ
destination (negsuc n) m = err (failed invalid_jump)
destination (pos d) m = if is_jumpdest (get_elem? m.code d) then ok d else err (failed invalid_jump)

unfoldable pub jump_to : ℤ → Run Flow
jump_to dest = do
  d ← reads (destination (int_of dest))
  modify (λ m. record m { pc = d })
  pure stay

unfoldable pub exec_jump : JumpOp → Run Flow
exec_jump jump = do dest ← pop; jump_to dest
exec_jump jumpi = do (dest, cond) ← pop2; if eqb_ℤ cond (pos 0) then pure advance else jump_to dest
exec_jump jumpdest = pure advance

abbrev pub word_or_panic : Option GoString → Result Halt ℤ
word_or_panic none = err panicked
word_or_panic (some w) = ok (pos (set_bytes w 0))

-- an address as a number, or a panic
abbrev pub address_number : GoString → Result Halt ℤ
address_number addr = word_or_panic (addr_to_word addr)

abbrev or_zero : Option ℤ → ℤ
or_zero none = pos 0
or_zero (some v) = v

-- `"0x" + hex.EncodeToString(padTo32(addrWord.Bytes())[12:])`
abbrev address_text : ℤ → GoString
address_text word = bytes "0x" ++ hex_encode (drop 12 (pad_to_32 (bytes_of word)))

abbrev balance_of : Option (GoString → Option ℤ) → GoString → ℤ
balance_of none addr = pos 0
balance_of (some get) addr = or_zero (get addr)

unfoldable pub exec_host : HostOp → Run Flow
exec_host HostOp.pc = do v ← reads (λ m. ok (pos m.pc)); push v; pure advance
exec_host HostOp.gas = do v ← reads (λ m. ok (pos m.gas_left)); push v; pure advance
exec_host HostOp.origin = do v ← reads (λ m. address_number m.ctx.origin); push v; pure advance
exec_host HostOp.caller = do v ← reads (λ m. address_number m.ctx.caller); push v; pure advance
exec_host HostOp.callvalue = do v ← reads (λ m. ok (or_zero m.ctx.value)); push v; pure advance
exec_host HostOp.address = do
  v ← reads (λ m. address_number m.contract.address)
  push v
  pure advance
exec_host HostOp.balance = do
  word ← pop
  v ← reads (λ m. ok (balance_of m.ctx.get_balance (address_text word)))
  push v
  pure advance
exec_host HostOp.blocknumber = do v ← reads (λ m. ok (pos m.ctx.block_number)); push v; pure advance
exec_host HostOp.timestamp = do v ← reads (λ m. ok m.ctx.timestamp); push v; pure advance
