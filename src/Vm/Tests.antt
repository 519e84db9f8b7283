-- ===== src/Vm/Tests.antt =====
-- The theorems about the virtual machine on concrete machines.
use rpcnode.Prelude.{
  ℕ, Bool, ltb, ◌++◌, ◌≡◌, refl, GoString, bytes, none, some, [], ◌∷◌, arith, drop,
}
use rpcnode.Prelude.Int.{ℤ, pos}
use rpcnode.Vm.Types.{binary, add, Context, ContractAccount, Machine}
use rpcnode.Prelude.Bytes.{AreBytes}
use rpcnode.Json.{or_zero}
use rpcnode.Vm.Codec.{marshal_contract, unmarshal_contract, unmarshal_contract-marshal_contract}
use rpcnode.Vm.Loop.{exec_op, tick, run, execute, initial}
use rpcnode.Vm.Effect.{Outcome}
use rpcnode.Vm.Arities.{exec_op-Effect}
use rpcnode.Vm.Gas.{TickEnds, Ended, tick-Ticked, run-Ended}
use rpcnode.Vm.Executed.{Confined, execute-Confined}
use rpcnode.Vm.Deep.{pushes}
use rpcnode.Vm.Abi.{encode_args, encode_calldata}

-- a hash function for the tests
abbrev digest : GoString → GoString
digest s = bytes "hash"

-- shifts that `Lsh` fails for in the tests
abbrev wide : ℤ → ℕ → Bool
wide val shift = ltb 4096 shift

abbrev ctx : Context
ctx = record {
  origin = bytes "0x01";
  caller = bytes "0x02";
  contract_addr = bytes "0x03";
  value = none;
  gas_price = none;
  block_number = 7;
  timestamp = pos 9;
  get_balance = none;
}

abbrev account : ContractAccount
account = record {
  address = bytes "0x03";
  code = 0x10 ∷ 7 ∷ 0x00 ∷ [];
  storage = [];
  balance = some (pos 5);
  code_hash = bytes "c";
  nonce = 1;
}

abbrev start : Machine
start = initial ctx account 20

-- PUSH1 7 and STOP
abbrev pushed : Machine
pushed = record start { stack = pos 7 ∷ []; pc = 2; gas_left = 17; gas_used = 3 }

-- JUMP over a STOP
abbrev jumping : Machine
jumping = record start { code = 0x40 ∷ 0x00 ∷ 0x42 ∷ []; stack = pos 2 ∷ [] }

execute-Confined_example :
    Confined account 20 (execute digest 65536 wide ctx account (bytes "in") 20)
execute-Confined_example = execute-Confined digest 65536 wide ctx account (bytes "in") 20

tick-Ticked_example : TickEnds jumping (tick digest 65536 wide jumping)
tick-Ticked_example = tick-Ticked digest 65536 wide jumping

run-Ended_example : Ended start (run digest 65536 wide 21 start)
run-Ended_example = run-Ended digest 65536 wide 21 start (omega arith)

abbrev pushing : Machine
pushing = record start { code = pushes (5 ∷ 6 ∷ []) }

abbrev calldata : GoString
calldata = drop 0 (bytes "sele") ++ encode_args (pos 3 ∷ pos 500 ∷ [])

encoded : encode_calldata (bytes "selector") (pos 3 ∷ pos 500 ∷ []) ≡ some calldata
unfolding encode_calldata
encoded = refl

-- two numbers to add
abbrev adding : Machine
adding = record start { stack = pos 2 ∷ pos 3 ∷ [] }

exec_op-Effect_example : Outcome 2 1 adding (exec_op digest 65536 wide (binary add) adding)
exec_op-Effect_example = exec_op-Effect digest 65536 wide (binary add) adding

account-AreBytes : AreBytes account.code
account-AreBytes = (omega arith, (omega arith, (omega arith, tt)))

unmarshal_contract-marshal_contract_example :
    unmarshal_contract (λ s. pos 0) (some (marshal_contract account))
    ≡ some (record account { balance = some (or_zero account.balance) })
unmarshal_contract-marshal_contract_example =
    unmarshal_contract-marshal_contract (λ s. pos 0) account account-AreBytes
