-- ===== src/Staking/Types.antt =====
-- The types of gpl/staking/staking.go. A `*big.Int` that every path sets before it is read is its
-- integer.
use rpcnode.Prelude.{ℕ, GoString, Bool}
use rpcnode.Prelude.Int.{ℤ}
use rpcnode.Json.{Json}
use rpcnode.Storage.{MemStorage}

pub data StakingError : Type 0 where
  validator_not_found already_registered below_min_stake insufficient_stake : StakingError
  unauthorized no_rewards validator_slashed : StakingError
  -- the errors made by `fmt.Errorf`
  bad_commission bad_amount : StakingError
  still_jailed : ℕ → StakingError
  delegation_not_found : GoString → GoString → StakingError
  -- what `json.Unmarshal` reports
  bad_document : StakingError

pub record ValidatorInfo : Type 0 where
  pub address : GoString
  pub self_stake : ℤ
  pub total_stake : ℤ
  pub commission : ℕ
  pub jailed : Bool
  pub jail_until : ℕ
  pub slash_count : ℕ
  pub registered_at : ℕ
  pub last_reward_at : ℕ
  pub accum_rewards : ℤ
  pub uptime : ℕ

pub record Delegation : Type 0 where
  pub validator : GoString
  pub delegator : GoString
  pub amount : ℤ
  pub reward_debt : ℤ
  pub pending_reward : ℤ
  pub delegated_at : ℤ

pub record SlashRecord : Type 0 where
  pub validator : GoString
  pub reason : GoString
  pub amount : ℤ
  pub block_num : ℕ
  pub timestamp : ℤ

-- `Program`: its store. The mutex makes each method one step.
pub record StakingProgram : Type 0 where
  pub store : MemStorage Json
