-- ===== src/Staking/Codec.antt =====
-- The JSON documents of gpl/staking/staking.go, by the struct tags. A missing amount is read as 0, as
-- `getValidator` and `getDelegation` do after `json.Unmarshal`.
use rpcnode.Prelude.{◌≡◌, refl, Option, some}
use rpcnode.Json.{
  Json, bool, num, str, obj, end, field, field?, read_str, as_object, read_bool, read_uint,
  read_int, read_big, or_zero, ◌>>=◌,
}
use rpcnode.Prelude.Int.{pos}
use rpcnode.Staking.Types.{ValidatorInfo, Delegation, SlashRecord}

unfoldable pub marshal_validator : ValidatorInfo → Json
marshal_validator v = obj (
    field "address" (str v.address) (
      field "selfStake" (num v.self_stake) (
        field "totalStake" (num v.total_stake) (
          field "commission" (num (pos v.commission)) (
            field "jailed" (bool v.jailed) (
              field "jailUntil" (num (pos v.jail_until)) (
                field "slashCount" (num (pos v.slash_count)) (
                  field "registeredAt" (num (pos v.registered_at)) (
                    field "lastRewardAt" (num (pos v.last_reward_at)) (
                      field "accumRewards" (num v.accum_rewards)
                        (field "uptime" (num (pos v.uptime)) end)))))))))))

unfoldable pub unmarshal_validator : Json → Option ValidatorInfo
unmarshal_validator doc = do
  fs ← as_object doc
  address ← read_str (field? "address" fs)
  self_stake ← read_big (field? "selfStake" fs)
  total_stake ← read_big (field? "totalStake" fs)
  commission ← read_uint (field? "commission" fs)
  jailed ← read_bool (field? "jailed" fs)
  jail_until ← read_uint (field? "jailUntil" fs)
  slash_count ← read_uint (field? "slashCount" fs)
  registered_at ← read_uint (field? "registeredAt" fs)
  last_reward_at ← read_uint (field? "lastRewardAt" fs)
  accum_rewards ← read_big (field? "accumRewards" fs)
  uptime ← read_uint (field? "uptime" fs)
  some (record {
    address = address;
    self_stake = or_zero self_stake;
    total_stake = or_zero total_stake;
    commission = commission;
    jailed = jailed;
    jail_until = jail_until;
    slash_count = slash_count;
    registered_at = registered_at;
    last_reward_at = last_reward_at;
    accum_rewards = or_zero accum_rewards;
    uptime = uptime;
  })

-- Reading back a validator's document gives the validator that was written.
pub unmarshal_validator-marshal_validator :
    (v : ValidatorInfo) → unmarshal_validator (marshal_validator v) ≡ some v
unfolding unmarshal_validator marshal_validator
unmarshal_validator-marshal_validator v = refl

unfoldable pub marshal_delegation : Delegation → Json
marshal_delegation d = obj (
    field "validator" (str d.validator) (
      field "delegator" (str d.delegator) (
        field "amount" (num d.amount) (
          field "rewardDebt" (num d.reward_debt) (
            field "pendingReward" (num d.pending_reward)
              (field "delegatedAt" (num d.delegated_at) end))))))

unfoldable pub unmarshal_delegation : Json → Option Delegation
unmarshal_delegation doc = do
  fs ← as_object doc
  validator ← read_str (field? "validator" fs)
  delegator ← read_str (field? "delegator" fs)
  amount ← read_big (field? "amount" fs)
  reward_debt ← read_big (field? "rewardDebt" fs)
  pending_reward ← read_big (field? "pendingReward" fs)
  delegated_at ← read_int (field? "delegatedAt" fs)
  some (record {
    validator = validator;
    delegator = delegator;
    amount = or_zero amount;
    reward_debt = or_zero reward_debt;
    pending_reward = or_zero pending_reward;
    delegated_at = delegated_at;
  })

-- Reading back a delegation's document gives the delegation that was written.
pub unmarshal_delegation-marshal_delegation :
    (d : Delegation) → unmarshal_delegation (marshal_delegation d) ≡ some d
unfolding unmarshal_delegation marshal_delegation
unmarshal_delegation-marshal_delegation d = refl

unfoldable pub marshal_slash : SlashRecord → Json
marshal_slash r = obj (
    field "validator" (str r.validator) (
      field "reason" (str r.reason) (
        field "amount" (num r.amount)
          (field "blockNum" (num (pos r.block_num)) (field "ts" (num r.timestamp) end)))))
