-- ===== src/Staking.antt =====
-- gpl/staking/staking.go, the methods of `Program`: validators, delegations, rewards and slashing over
-- the in-memory store and `encoding/json`. A method is one step under the mutex, which takes the
-- program and returns it with the method's result. The clock readings are arguments. An amount that
-- may be nil is an option; `Slash` reads its amount without a test, so there it is an integer.
pub mod Types
pub mod Codec
pub mod Store
pub mod Request
pub mod Invariant
pub mod Commission
pub mod Kept
pub mod Claims
pub mod Stakes
pub mod Register
mod Tests
pub mod Slashing
use rpcnode.Prelude.{
  ℕ, ◌+◌, ◌%◌, ◌^◌, GoString, str_eq, Bool, true, false, Option, none, some, Result, ok, err, Exec,
  pure, raise, reads, raise_if, modify, ◌>>=◌, ◌>>◌, ltb, ◌-◌, if◌then◌else◌,
}
use rpcnode.Prelude.Int.{ℤ, pos, negsuc, ◌+ℤ◌, ◌-ℤ◌, ◌*ℤ◌, div_pos, to_int64, ltb_ℤ, leb_ℤ, eqb_ℤ}
use rpcnode.Storage.{new_mem_storage, has}
use rpcnode.Staking.Types.{
  StakingError, validator_not_found, already_registered, below_min_stake, insufficient_stake,
  no_rewards, validator_slashed, bad_commission, bad_amount, still_jailed, ValidatorInfo,
  Delegation, SlashRecord, StakingProgram,
}
use rpcnode.Staking.Store.{
  validator_key, get_validator, save_validator, get_delegation, save_delegation, save_slash,
}

abbrev pub Call : Type 0 → Type 0
Call A = Exec StakingError StakingProgram A

abbrev pub new_program : StakingProgram
new_program = record { store = new_mem_storage }

-- 1000 GYD and 1 GYD
abbrev pub min_validator_stake : ℤ
min_validator_stake = pos 1000000000000000000000

abbrev pub min_delegation : ℤ
min_delegation = pos 1000000000000000000

abbrev pub store_validator : ValidatorInfo → StakingProgram → StakingProgram
store_validator v p = record p { store = save_validator v p.store }

abbrev pub store_delegation : Delegation → StakingProgram → StakingProgram
store_delegation d p = record p { store = save_delegation d p.store }

-- `amount == nil || amount.Cmp(least) < 0`
pub at_least : ℤ → Option ℤ → Result StakingError ℤ
at_least least none = err below_min_stake
at_least least (some a) = if ltb_ℤ a least then err below_min_stake else ok a

-- `amount == nil || amount.Sign() <= 0`, with the method's error
pub positive : StakingError → Option ℤ → Result StakingError ℤ
positive e none = err e
positive e (some a) = if leb_ℤ a (pos 0) then err e else ok a

abbrev pub new_validator : GoString → ℤ → ℕ → ℕ → ValidatorInfo
new_validator address stake commission block = record {
  address = address;
  self_stake = stake;
  total_stake = stake;
  commission = commission;
  jailed = false;
  jail_until = 0;
  slash_count = 0;
  registered_at = block;
  last_reward_at = 0;
  accum_rewards = pos 0;
  uptime = 0;
}

pub register_validator : GoString → Option ℤ → ℕ → ℕ → Call Unit
register_validator address self_stake commission block = do
  stake ← reads (λ p. at_least min_validator_stake self_stake)
  raise_if (ltb 10000 commission) bad_commission
  exists ← reads (λ p. ok (has p.store (validator_key address)))
  raise_if exists already_registered
  modify (store_validator (new_validator address stake commission block))

pub add_self_stake : GoString → Option ℤ → Call Unit
add_self_stake address amount = do
  a ← reads (λ p. positive below_min_stake amount)
  v ← reads (λ p. get_validator address p.store)
  raise_if v.jailed validator_slashed
  modify (
      store_validator
        (record v { self_stake = v.self_stake +ℤ a; total_stake = v.total_stake +ℤ a }))

abbrev pub new_delegation : GoString → GoString → ℤ → Delegation
new_delegation v d now = record {
  validator = v;
  delegator = d;
  amount = pos 0;
  reward_debt = pos 0;
  pending_reward = pos 0;
  delegated_at = now;
}

-- `if err != nil { d = &Delegation{…} }`: any error makes a fresh delegation
abbrev pub or_new : Delegation → Result StakingError Delegation → Delegation
or_new fresh (ok d) = d
or_new fresh (err e) = fresh

pub delegate : GoString → GoString → Option ℤ → ℤ → Call Unit
delegate validator delegator amount now = do
  a ← reads (λ p. at_least min_delegation amount)
  v ← reads (λ p. get_validator validator p.store)
  raise_if v.jailed validator_slashed
  d ← reads (λ p. ok (
      or_new (new_delegation validator delegator now) (get_delegation validator delegator p.store)))
  modify (store_validator (record v { total_stake = v.total_stake +ℤ a }))
  modify (store_delegation (record d { amount = d.amount +ℤ a }))

pub undelegate : GoString → GoString → Option ℤ → Call Unit
undelegate validator delegator amount = do
  a ← reads (λ p. positive bad_amount amount)
  v ← reads (λ p. get_validator validator p.store)
  d ← reads (λ p. get_delegation validator delegator p.store)
  raise_if (ltb_ℤ d.amount a) insufficient_stake
  modify (store_validator (record v { total_stake = v.total_stake -ℤ a }))
  modify (store_delegation (record d { amount = d.amount -ℤ a }))

pub commission_of : ℤ → ℕ → ℤ
commission_of total_reward commission = div_pos (total_reward *ℤ to_int64 commission) 10000

-- the rest of `AccrueRewards`, for a reward that is not nil
accrue : GoString → ℤ → ℕ → Call Unit
unfolding commission_of
accrue validator total_reward block = do
  v ← reads (λ p. get_validator validator p.store)
  if v.jailed
      then pure tt
      else modify (
          store_validator (record v {
            accum_rewards = v.accum_rewards +ℤ commission_of total_reward v.commission;
            last_reward_at = block;
          }))

pub accrue_rewards : GoString → Option ℤ → ℕ → Call Unit
unfolding accrue
accrue_rewards validator none block = pure tt
accrue_rewards validator (some r) block =
    if leb_ℤ r (pos 0) then pure tt else accrue validator r block

-- what a validator claims for itself
claim_own : ValidatorInfo → Call ℤ
claim_own v = do
  raise_if (eqb_ℤ v.accum_rewards (pos 0)) no_rewards
  modify (store_validator (record v { accum_rewards = pos 0 }))
  pure v.accum_rewards

-- `if err != nil { return nil, ErrNoRewards }`
abbrev pub or_no_rewards : Result StakingError Delegation → Result StakingError Delegation
or_no_rewards (ok d) = ok d
or_no_rewards (err e) = err no_rewards

claim_delegated : GoString → GoString → Call ℤ
claim_delegated validator claimant = do
  d ← reads (λ p. or_no_rewards (get_delegation validator claimant p.store))
  raise_if (eqb_ℤ d.pending_reward (pos 0)) no_rewards
  modify (
      store_delegation
        (record d { pending_reward = pos 0; reward_debt = d.reward_debt +ℤ d.pending_reward }))
  pure d.pending_reward

pub claim_rewards : GoString → GoString → Call ℤ
unfolding claim_own claim_delegated
claim_rewards validator claimant = do
  v ← reads (λ p. get_validator validator p.store)
  if str_eq claimant validator then claim_own v else claim_delegated validator claimant

-- `if slash.Cmp(v.TotalStake) > 0 { slash.Set(v.TotalStake) }`
abbrev pub at_most : ℤ → ℤ → ℤ
at_most limit a = if ltb_ℤ limit a then limit else a

pub slashed : ℤ → ℕ → ValidatorInfo → ValidatorInfo
slashed slash jail_until v = record v {
  total_stake = v.total_stake -ℤ slash;
  self_stake = if leb_ℤ slash v.self_stake then v.self_stake -ℤ slash else pos 0;
  jailed = true;
  jail_until = jail_until;
  slash_count = (v.slash_count + 1) % 2 ^ 64;
}

pub slash : GoString → GoString → ℤ → ℕ → ℕ → ℤ → Call Unit
unfolding slashed
slash validator reason amount jail_until block now = do
  v ← reads (λ p. get_validator validator p.store)
  let cut = at_most v.total_stake amount
  modify (λ p. record p {
    store =
        save_slash validator
          (record {
            validator = validator;
            reason = reason;
            amount = cut;
            block_num = block;
            timestamp = now;
          })
          p.store;
  })
  modify (store_validator (slashed cut jail_until v))

pub unjail : GoString → ℕ → Call Unit
unjail validator block = do
  v ← reads (λ p. get_validator validator p.store)
  raise_if (ltb block v.jail_until) (still_jailed v.jail_until)
  modify (store_validator (record v { jailed = false }))

pub get_total_stake : GoString → StakingProgram → ℤ × Option StakingError
get_total_stake validator p = elim (get_validator validator p.store) [
  | err e ↦ (pos 0, some e)
  | ok v ↦ (v.total_stake, none)
]
