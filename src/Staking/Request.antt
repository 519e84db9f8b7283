-- ===== src/Staking/Request.antt =====
-- One value for each call that a client can make on the staking program, and what a sequence of
-- calls, failed ones included, does to the program.
use rpcnode.Prelude.{ℕ, GoString, Option, List, [], ◌∷◌}
use rpcnode.Prelude.Int.{ℤ}
use rpcnode.Staking.Types.{StakingProgram}
use rpcnode.Staking.{
  register_validator, add_self_stake, delegate, undelegate, accrue_rewards, claim_rewards, slash,
  unjail,
}

-- The arguments stand in the order of the methods' parameters, the clock readings last.
pub data StakingRequest : Type 0 where
  register_req :
      (address : GoString) (self_stake : Option ℤ) (commission block : ℕ) → StakingRequest
  add_req : (address : GoString) (amount : Option ℤ) → StakingRequest
  delegate_req : (validator delegator : GoString) (amount : Option ℤ) (now : ℤ) → StakingRequest
  undelegate_req : (validator delegator : GoString) (amount : Option ℤ) → StakingRequest
  accrue_req : (validator : GoString) (total_reward : Option ℤ) (block : ℕ) → StakingRequest
  claim_req : (validator claimant : GoString) → StakingRequest
  slash_req :
      (validator reason : GoString) (amount : ℤ) (jail_until block : ℕ) (now : ℤ) → StakingRequest
  unjail_req : (validator : GoString) (block : ℕ) → StakingRequest

-- the program after a call
unfoldable pub serve : StakingRequest → StakingProgram → StakingProgram
serve (register_req a s c b) p = (register_validator a s c b p).1
serve (add_req a n) p = (add_self_stake a n p).1
serve (delegate_req v d n t) p = (delegate v d n t p).1
serve (undelegate_req v d n) p = (undelegate v d n p).1
serve (accrue_req v n b) p = (accrue_rewards v n b p).1
serve (claim_req v c) p = (claim_rewards v c p).1
serve (slash_req v r n j b t) p = (slash v r n j b t p).1
serve (unjail_req v b) p = (unjail v b p).1

unfoldable pub serve_all : List StakingRequest → StakingProgram → StakingProgram
serve_all [] p = p
serve_all (r ∷ rs) p = serve_all rs (serve r p)
