-- ===== src/Vm/Regions.antt =====
-- The cases of the `switch` in `run` (gpl/vm/vm.go) that use the memory. SHA-256 and the capacity that
-- Go gives the memory's slice are parameters; the capacity matters only for a memory that has grown to
-- its limit.

use rpcnode.Prelude.{
  ℕ, GoString, hex_encode, List, [], ◌∷◌, ◌++◌, ok, pure, raise, reads, raise_if, modify, ◌>>=◌,
  ◌>>◌, ltb, length,
}
use rpcnode.Prelude.Bytes.{set_bytes}
use rpcnode.Prelude.Int.{ℤ, pos}
use rpcnode.Vm.Types.{
  execution_reverted, MemoryOp, mload, mstore, ExitOp, return, revert, LogOp, log0, log1, Machine,
  finished, panicked, failed, Flow, advance,
}
use rpcnode.Vm.Words.{pad_to_32, bytes_of}
use rpcnode.Vm.Memory.{add_int, grow_memory, bytes_at, write_word, slice}
use rpcnode.Vm.Stack.{Run, push, pop, pop2, int_of}

abbrev pub emit_log : List GoString → GoString → Machine → Machine
emit_log topics data' m = record m {
  logs =
      m.logs
      ++ record { address = m.contract.address; topics = topics; data' = hex_encode data' } ∷ [];
}

-- a piece of memory from popped numbers, grown to hold it
module _ (capacity : ℕ) where
  -- `growMemory(off + sz)` and `m.memory[off : off+sz]`, as a place and a length
  unfoldable pub region : ℤ → ℤ → Run (ℕ × ℕ)
  region off sz = do
    modify (grow_memory (add_int off sz))
    reads (λ m. slice capacity off (add_int off sz))

  unfoldable pub read_region : ℤ → ℤ → Run GoString
  read_region off sz = do (lo, n) ← region off sz; reads (λ m. ok (bytes_at m.memory lo n))

  -- `b := val.Bytes()` of more than 32 bytes makes the bounds of the copy negative
  unfoldable pub exec_memory : MemoryOp → Run Flow
  exec_memory mload = do
    offset ← pop
    word ← read_region (int_of offset) (pos 32)
    push (pos (set_bytes word 0))
    pure advance
  exec_memory mstore = do
    (offset, val) ← pop2
    (lo, n) ← region (int_of offset) (pos 32)
    raise_if (ltb 32 (length (bytes_of val))) panicked
    modify (λ m. record m { memory = write_word m.memory lo (pad_to_32 (bytes_of val)) })
    pure advance

  -- the data that RETURN and REVERT leave, before the loop ends
  unfoldable pub set_return_data : Run Unit
  set_return_data = do
    (offset, size) ← pop2
    data' ← read_region (int_of offset) (int_of size)
    modify (λ m. record m { return_data = data' })

  unfoldable pub exec_exit : ExitOp → Run Flow
  exec_exit return = do set_return_data; raise finished
  exec_exit revert = do set_return_data; raise (failed execution_reverted)

  unfoldable pub exec_log : LogOp → Run Flow
  exec_log log0 = do
    (offset, size) ← pop2
    data' ← read_region (int_of offset) (int_of size)
    modify (emit_log [] data')
    pure advance
  exec_log log1 = do
    (offset, size) ← pop2
    topic ← pop
    data' ← read_region (int_of offset) (int_of size)
    modify (emit_log (hex_encode (pad_to_32 (bytes_of topic)) ∷ []) data')
    pure advance

  unfoldable pub exec_sha3 : (GoString → GoString) → Run Flow
  exec_sha3 sha256 = do
    (offset, size) ← pop2
    data' ← read_region (int_of offset) (int_of size)
    push (pos (set_bytes (sha256 data') 0))
    pure advance
