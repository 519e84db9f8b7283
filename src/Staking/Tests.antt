-- ===== src/Staking/Tests.antt =====
-- The theorems about the staking program on a concrete program: `al` is a validator with 2000 GYD and
-- a commission of 5%, `bo` has delegated 5 GYD to it.
use rpcnode.Prelude.{
  ℕ, ◌≡◌, ◌≢◌, refl, GoString, bytes, str_eq, some, List, [], ◌∷◌, arith, ok, err, ◌>>=◌, false,
}
use rpcnode.Prelude.Int.{pos, ◌+ℤ◌, ◌*ℤ◌, div_pos, to_int64}
use rpcnode.Prelude.Dict.{lookup, insert}
use rpcnode.Storage.{get, put, has}
use rpcnode.Staking.Types.{ValidatorInfo, Delegation, StakingProgram, no_rewards}
use rpcnode.Staking.Codec.{
  marshal_validator, unmarshal_validator, marshal_delegation, unmarshal_delegation,
}
use rpcnode.Staking.Store.{
  validator_key, delegation_key, get_validator, save_validator, get_delegation, save_delegation,
}
use rpcnode.Staking.{
  new_program, at_least, commission_of, new_validator, register_validator, delegate, undelegate,
  accrue_rewards, claim_rewards, slash,
}
use rpcnode.Staking.Request.{
  StakingRequest, register_req, delegate_req, accrue_req, serve, serve_all,
}
use rpcnode.Staking.Invariant.{IsValid}
use rpcnode.Staking.Claims.{staking-IsValid, delegator_claims_nothing}
use rpcnode.Staking.Stakes.{delegate_undelegate}

abbrev al : GoString
al = bytes "al"

abbrev bo : GoString
bo = bytes "bo"

abbrev gyd : ℕ
gyd = 1000000000000000000

abbrev history : List StakingRequest
history =
    register_req al (some (pos 2000000000000000000000)) 500 1
    ∷ delegate_req al bo (some (pos 5000000000000000000)) (pos 7)
    ∷ accrue_req al (some (pos 1000)) 100
    ∷ []

abbrev start : StakingProgram
start = serve_all history new_program

abbrev owner : ValidatorInfo
owner = record (new_validator al (pos 2000000000000000000000) 500 1) {
  total_stake = pos 2005000000000000000000;
  last_reward_at = 100;
  accum_rewards = pos 50;
}

abbrev bond : Delegation
bond = record {
  validator = al;
  delegator = bo;
  amount = pos 5000000000000000000;
  reward_debt = pos 0;
  pending_reward = pos 0;
  delegated_at = pos 7;
}

start-IsValid : IsValid start.store
start-IsValid = staking-IsValid history

start_validator : get_validator al start.store ≡ ok owner
unfolding serve_all serve register_validator delegate accrue_rewards at_least commission_of to_int64
    div_pos ◌*ℤ◌ ◌+ℤ◌ ◌>>=◌ str_eq get put has lookup insert get_validator save_validator
    get_delegation save_delegation validator_key delegation_key marshal_validator
    unmarshal_validator marshal_delegation unmarshal_delegation
start_validator = refl

start_delegation : get_delegation al bo start.store ≡ ok bond
unfolding serve_all serve register_validator delegate accrue_rewards at_least commission_of to_int64
    div_pos ◌*ℤ◌ ◌+ℤ◌ ◌>>=◌ str_eq get put has lookup insert get_validator save_validator
    get_delegation save_delegation validator_key delegation_key marshal_validator
    unmarshal_validator marshal_delegation unmarshal_delegation
start_delegation = refl

staking-IsValid_example : IsValid (serve_all history new_program).store
staking-IsValid_example = staking-IsValid history

two_names : bo ≢ al
two_names e = ground arith

delegator_claims_nothing_example : claim_rewards al bo start ≡ (err no_rewards, start)
delegator_claims_nothing_example =
    delegator_claims_nothing history al bo owner two_names start_validator

delegate_undelegate_example :
    let (r, p') =
      undelegate al bo (some (pos gyd)) (delegate al bo (some (pos gyd)) (pos 9) start).1 in
    (r ≡ ok tt) × (get_validator al p'.store ≡ ok owner) × (get_delegation al bo p'.store ≡ ok bond)
delegate_undelegate_example =
    delegate_undelegate start al bo owner bond start-IsValid start_validator start_delegation
      (pos gyd) (pos 9) refl (omega arith)

abbrev behind_bars : StakingProgram
behind_bars = (slash al (bytes "late") (pos 7) 300 200 (pos 9) start).1

free_address : has start.store (validator_key bo) ≡ false
unfolding serve_all serve register_validator delegate accrue_rewards at_least commission_of to_int64
    div_pos ◌*ℤ◌ ◌+ℤ◌ ◌>>=◌ str_eq get put has lookup insert get_validator save_validator
    get_delegation save_delegation validator_key delegation_key marshal_validator
    unmarshal_validator marshal_delegation unmarshal_delegation
free_address = refl
