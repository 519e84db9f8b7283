-- ===== src/Vm/Executed.antt =====
-- What `Execute` (gpl/vm/vm.go) promises for every contract, code and gas limit.
use rpcnode.Prelude.{
  ℕ, ◌+◌, ◌≤◌, ◌<◌, ◌≡◌, refl, none, some, Bool, true, false, ltb, if◌then◌else◌, length, arith,
  GoString,
}
use mathlib.Core.Path.{subst}
use rpcnode.Prelude.Int.{ℤ}
use rpcnode.Vm.Types.{
  Machine, Halt, finished, panicked, failed, Context, ContractAccount, max_code_size, max_gas,
}
use rpcnode.Vm.Loop.{
  run, execute, Execution, crashed, unfinished, executed, initial, limited, end_of, RunEnd, refused,
}
use rpcnode.Vm.Gas.{Ended, run-Ended}

-- A contract is as it was but for its storage, and the gas is within the limit of a call.
abbrev pub Confined : ContractAccount → ℕ → Execution → Type 0
Confined contract gas_limit crashed = Unit
Confined contract gas_limit unfinished = ⊥
Confined contract gas_limit (executed r ca) =
    (record ca { storage = contract.storage } ≡ contract)
    × (r.gas_used ≤ gas_limit)
    × (r.gas_used ≤ max_gas)

Ended-Confined :
    (ctx : Context) (contract : ContractAccount) (gas_limit : ℕ) (r : RunEnd)
    → Ended (initial ctx contract (limited gas_limit)) r
    → Confined contract gas_limit (end_of (limited gas_limit) r)
Ended-Confined ctx contract g (none, n) h = h
Ended-Confined ctx contract g (some finished, n) h = (h.frame.contract, ground arith, ground arith)
Ended-Confined ctx contract g (some panicked, n) h = tt
Ended-Confined ctx contract g (some (failed e), n) h =
    (h.frame.contract, ground arith, ground arith)

-- With SHA-256, the memory's capacity and the shifts that `Lsh` fails for any, and any input and gas limit, the loop of `Execute` ends, by a
-- result or a run-time panic. A result comes with gas used that is at most the limit and at most `MaxGas`,
-- and the contract is the same in everything but its storage.
pub execute-Confined :
    (sha256 : GoString → GoString) (capacity : ℕ) (lsh_fails : ℤ → ℕ → Bool) (ctx : Context)
    (contract : ContractAccount) (input : GoString) (gas_limit : ℕ)
    → Confined contract gas_limit (execute sha256 capacity lsh_fails ctx contract input gas_limit)
unfolding execute
execute-Confined sha256 capacity lsh_fails ctx contract input g =
    go (ltb max_code_size (length contract.code)) (
      Ended-Confined ctx contract g ended
        (run-Ended sha256 capacity lsh_fails (limited g + 1) start (omega arith)))
  where
    start : Machine
    start = initial ctx contract (limited g)

    ended : RunEnd
    ended = run sha256 capacity lsh_fails (limited g + 1) start

    go :
        (b : Bool)
        → Confined contract g (end_of (limited g) ended)
        → Confined contract g (if b then executed refused contract else end_of (limited g) ended)
    go true h = (refl, omega arith, omega arith)
    go false h = h

-- The gas that `Execute` reports is the sum of the costs that its machine has counted, which has not
-- wrapped around: so for a run from the start of a contract's code with a limit within `MaxGas`, however
-- it ends, if the fuel is above the limit.
run_reports :
    (sha256 : GoString → GoString) (capacity : ℕ) (lsh_fails : ℤ → ℕ → Bool) (ctx : Context)
    (contract : ContractAccount) (gas_limit f : ℕ) (e : Halt) (n : Machine)
    → gas_limit ≤ max_gas
    → gas_limit < f
    → run sha256 capacity lsh_fails f (initial ctx contract gas_limit) ≡ (some e, n)
    → n.gas_used + n.gas_left ≡ gas_limit
run_reports sha256 capacity lsh_fails ctx contract g f e n h l eq = omega (
  arith,
  (subst (Ended (initial ctx contract g)) eq
        (run-Ended sha256 capacity lsh_fails f (initial ctx contract g) l)).total
      (omega (arith, h)),
)
