-- ===== src/Vm/Stored.antt =====
-- SSTORE and SLOAD of gpl/vm/vm.go, and what a REVERT leaves of a store.
use rpcnode.Prelude.{
  Bool, ℕ, ◌^◌, ◌<◌, ◌≡◌, refl, ap, ◌∙◌, GoString, some, List, [], ◌∷◌, false, ok, err, ◌>>=◌, ◌>>◌,
  continue, Result, arith,
}
use rpcnode.Prelude.Bytes.{set_bytes, big_bytes}
use rpcnode.Prelude.Int.{ℤ, pos, to_int64, ◌+ℤ◌, ◌-ℤ◌}
use rpcnode.Vm.Types.{
  Machine, Halt, Flow, advance, sload, sstore, revert, failed, Context, ContractAccount, max_gas,
  execution_reverted,
}
use rpcnode.Vm.Words.{pad_to_32, low_64}
use rpcnode.Vm.Contract.{storage_get, storage_set}
use rpcnode.Vm.Codes.{op_code, gas_cost}
use rpcnode.Vm.Memory.{add_int, grow_memory, bytes_at, slice}
use rpcnode.Vm.Stack.{push, pop, pop2, exec_stack}
use rpcnode.Vm.Regions.{region, read_region, set_return_data, exec_exit}
use rpcnode.Vm.World.{exec_storage}
use rpcnode.Vm.Loop.{exec_op, tick, run, execute, executed, end_of, initial, continue_with, flow_to}
use rpcnode.Vm.Padded.{
  set_bytes-word, storage_get-storage_set, AreBytes-pad_to_32, AreBytes-big_bytes, length-pad_to_32,
}

-- the word of a number, as SSTORE writes it
abbrev pub word : ℕ → GoString
word n = pad_to_32 (big_bytes n)

loaded :
    (ca : ContractAccount) (k v : ℕ)
    → storage_get (word k) (storage_set (word k) (word v) ca) ≡ word v
loaded ca k v =
    storage_get-storage_set (word k) (word v) ca
      (AreBytes-pad_to_32 (big_bytes v) (AreBytes-big_bytes v)) (length-pad_to_32 (big_bytes v))

-- After SSTORE, with a number below 2 ^ 256 on top and any key below it, SLOAD of the same key pushes the
-- number again; both succeed, and nothing but the stack and the storage has changed.
pub sstore_sload :
    (m : Machine) (k v : ℕ) (s : List ℤ)
    → v < 2 ^ 256
    → (exec_storage sstore >> push (pos k) >> exec_storage sload)
        (record m { stack = pos v ∷ pos k ∷ s })
      ≡ (
        ok advance,
        record m { stack = pos v ∷ s; contract = storage_set (word k) (word v) m.contract },
      )
unfolding exec_storage ◌>>=◌ pop2 pop push
sstore_sload m k v s h =
    ap (λ (w : GoString). (ok advance, pushed (set_bytes w 0))) (loaded m.contract k v)
    ∙ ap (λ n. (ok advance, pushed n)) (set_bytes-word v h)
  where
    pushed : ℕ → Machine
    pushed n = record m { stack = pos n ∷ s; contract = storage_set (word k) (word v) m.contract }

-- PUSH1 k, PUSH1 v, SSTORE, PUSH1 0, PUSH1 0, REVERT
abbrev pub store_and_revert : ℕ → ℕ → GoString
store_and_revert k v = 0x10 ∷ k ∷ 0x10 ∷ v ∷ 0x31 ∷ 0x10 ∷ 0 ∷ 0x10 ∷ 0 ∷ 0x52 ∷ []

abbrev pub with_code : GoString → ContractAccount → ContractAccount
with_code code contract = record contract { code = code }

slice_empty : (capacity : ℕ) → slice capacity (pos 0) (pos 0) ≡ ok (0, 0)
unfolding slice
slice_empty capacity = ground arith

module _ (sha256 : GoString → GoString) (capacity : ℕ) (lsh_fails : ℤ → ℕ → Bool) where
  revert_empty :
      (m : Machine) (s : List ℤ)
      → m.mem_len ≡ 0
      → exec_exit capacity revert (record m { stack = pos 0 ∷ pos 0 ∷ s })
        ≡ (err (failed execution_reverted), record m { stack = s; return_data = [] })
  unfolding exec_exit set_return_data read_region region ◌>>=◌ pop2 pop grow_memory add_int bytes_at
      low_64 to_int64 ◌+ℤ◌ slice ◌-ℤ◌
  revert_empty m s h = rw (h, slice_empty capacity) refl

  abbrev before : Context → ContractAccount → ℕ → ℕ → Machine
  before ctx contract k v =
      record (initial ctx (with_code (store_and_revert k v) contract) max_gas) {
        stack = pos 0 ∷ pos 0 ∷ [];
        pc = 9;
        gas_left = 9994988;
        gas_used = 5012;
        contract = storage_set (word k) (word v) (with_code (store_and_revert k v) contract);
      }

  five_rounds :
      (ctx : Context) (contract : ContractAccount) (input : GoString) (k v : ℕ)
      → execute sha256 capacity lsh_fails ctx
          (with_code (store_and_revert k v) contract)
          input
          max_gas
        ≡ end_of max_gas (run sha256 capacity lsh_fails 9999996 (before ctx contract k v))
  unfolding execute run tick exec_op exec_stack exec_storage ◌>>=◌ pop2 pop push op_code gas_cost
  five_rounds ctx contract input k v = refl

  last_round :
      (ctx : Context) (contract : ContractAccount) (k v : ℕ)
      → tick sha256 capacity lsh_fails (before ctx contract k v)
        ≡ (err (failed execution_reverted), record (before ctx contract k v) { stack = [] })
  unfolding tick exec_op ◌>>=◌ op_code gas_cost
  last_round ctx contract k v =
      ap (λ (r : Result Halt Flow × Machine). continue r.0 flow_to r.1)
        (revert_empty (before ctx contract k v) [] refl)

-- A contract whose code is `store_and_revert`, six instructions that store a word and revert: `Execute`
-- with the most gas there is reports the revert, and the contract is left with the word stored.
pub reverted_store_stays :
    (sha256 : GoString → GoString) (capacity : ℕ) (lsh_fails : ℤ → ℕ → Bool) (ctx : Context)
    (contract : ContractAccount) (input : GoString) (k v : ℕ)
    → execute sha256 capacity lsh_fails ctx
        (with_code (store_and_revert k v) contract)
        input
        max_gas
      ≡ executed
          (record {
            success = false;
            return_data = [];
            gas_used = 5012;
            logs = [];
            error = some execution_reverted;
          })
          (storage_set (word k) (word v) (with_code (store_and_revert k v) contract))
unfolding run
reverted_store_stays sha256 capacity lsh_fails ctx contract input k v =
    five_rounds sha256 capacity lsh_fails ctx contract input k v
    ∙ ap (λ r. end_of max_gas (continue_with (run sha256 capacity lsh_fails 9999995) r))
        (last_round sha256 capacity lsh_fails ctx contract k v)
