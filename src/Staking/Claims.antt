-- ===== src/Staking/Claims.antt =====
-- The invariant of the staking program after a sequence of calls, and what follows for claims.
use rpcnode.Prelude.{
  ℕ, ◌≡◌, ◌≢◌, refl, ap, str_eq_refl, GoString, str_eq_iff, true, false, some, List, arith, Result,
  ok, err, Result-cases, inl, inr, ◌>>=◌,
}
use rpcnode.Prelude.Int.{ℤ, pos, ◌+ℤ◌, ◌<ℤ◌, leb_ℤ, eqb_ℤ}
use rpcnode.Staking.Types.{ValidatorInfo, StakingProgram, StakingError, no_rewards}
use rpcnode.Staking.Store.{
  get_validator, save_validator, get_delegation, get_validator-save_validator,
}
use rpcnode.Staking.{
  new_program, commission_of, accrue, accrue_rewards, claim_own, claim_delegated, claim_rewards,
}
use rpcnode.Staking.Request.{StakingRequest, serve_all}
use rpcnode.Staking.Invariant.{IsValid}
use rpcnode.Staking.Kept.{serve_all_keeps, empty-IsValid}
use rpcnode.Staking.Store.{get_validator-save_validator}

-- From a fresh store, after every sequence of calls, failed ones included: validators and delegations
-- stand under their own keys, no commission is above 10000 basis points, no self-stake, accumulated
-- reward or delegated amount is negative, and no delegation has a pending or a claimed reward.
pub staking-IsValid : (rs : List StakingRequest) → IsValid (serve_all rs new_program).store
staking-IsValid rs = serve_all_keeps rs new_program empty-IsValid

-- After any calls from a fresh store, a claim at a known validator by anyone but the validator
-- finds no reward and changes nothing.
pub delegator_claims_nothing :
    (rs : List StakingRequest) (a c : GoString) (v : ValidatorInfo)
    → c ≢ a
    → get_validator a (serve_all rs new_program).store ≡ ok v
    → claim_rewards a c (serve_all rs new_program) ≡ (err no_rewards, serve_all rs new_program)
unfolding claim_rewards claim_delegated ◌>>=◌
delegator_claims_nothing rs a c v ne hv =
    elim (Result-cases (get_delegation a c (serve_all rs new_program).store)) [
      | inl (x, e) ↦ ground (arith, str_eq_iff c a)
      | inr (d, e) ↦
          ground (arith, str_eq_iff c a, ((staking-IsValid rs).delegation a c d e).pending)
    ]

-- the program after a validator was written
module _ (p : StakingProgram) (a : GoString) (v w : ValidatorInfo) (h : IsValid p.store)
    (hv : get_validator a p.store ≡ ok v) where
  rewrite-get_validator : w.address ≡ v.address → get_validator a (save_validator w p.store) ≡ ok w
  rewrite-get_validator e = ground (
    arith,
    get_validator-save_validator p.store a w,
    (h.validator a v hv).address,
    str_eq_iff w.address a,
  )

module _ (p : StakingProgram) (a : GoString) (v : ValidatorInfo)
    (hv : get_validator a p.store ≡ ok v) where
  with_validator : ValidatorInfo → StakingProgram
  with_validator w = record p { store = save_validator w p.store }

  claim-paid :
      eqb_ℤ v.accum_rewards (pos 0) ≡ false
      → claim_rewards a a p
        ≡ (ok v.accum_rewards, with_validator (record v { accum_rewards = pos 0 }))
  unfolding claim_rewards claim_own with_validator ◌>>=◌
  claim-paid some' = rw (hv, str_eq_refl a, some') refl

  claim-none : eqb_ℤ v.accum_rewards (pos 0) ≡ true → claim_rewards a a p ≡ (err no_rewards, p)
  unfolding claim_rewards claim_own ◌>>=◌
  claim-none none' = rw (hv, str_eq_refl a, none') refl

  accrue-eq :
      (n : ℤ) (b : ℕ)
      → v.jailed ≡ false
      → pos 0 <ℤ n
      → accrue_rewards a (some n) b p ≡ (
        ok tt,
        with_validator (record v {
          accum_rewards = v.accum_rewards +ℤ commission_of n v.commission;
          last_reward_at = b;
        }),
      )
  unfolding accrue_rewards accrue with_validator ◌>>=◌
  accrue-eq n b free some' =
      let reward : leb_ℤ n (pos 0) ≡ false = ground arith in rw (reward, hv, free) refl

module _ (p : StakingProgram) (a : GoString) (v : ValidatorInfo) (h : IsValid p.store)
    (hv : get_validator a p.store ≡ ok v) where
  -- On a valid store, a validator that has accumulated rewards is paid all of them by its claim,
  -- and a second claim finds nothing and changes nothing.
  pub claim_once :
      v.accum_rewards ≢ pos 0
      → let (r, p') = claim_rewards a a p in
        (r ≡ ok v.accum_rewards) × (claim_rewards a a p' ≡ (err no_rewards, p'))
  unfolding with_validator
  claim_once some' =
      let paid : eqb_ℤ v.accum_rewards (pos 0) ≡ false = ground arith in
      let w = record v { accum_rewards = pos 0 } in
      rw (claim-paid p a v hv paid) (
        refl,
        claim-none (with_validator p a v hv w) a w (rewrite-get_validator p a v w h hv refl) refl,
      )

  -- On a valid store, the reward of an epoch, where it is positive and the validator is not
  -- jailed, adds the commission to what the validator has accumulated, and the validator's next
  -- claim pays the sum, if it is not 0.
  pub accrue_then_claim :
      (n : ℤ) (b : ℕ)
      → v.jailed ≡ false
      → pos 0 <ℤ n
      → let total = v.accum_rewards +ℤ commission_of n v.commission in
        let (r, p') = accrue_rewards a (some n) b p in
        (r ≡ ok tt)
        × (get_validator a p'.store ≡ ok (record v { accum_rewards = total; last_reward_at = b }))
        × (total ≢ pos 0 → (claim_rewards a a p').0 ≡ ok total)
  unfolding with_validator
  accrue_then_claim n b free some' =
      let w = record v {
        accum_rewards = v.accum_rewards +ℤ commission_of n v.commission;
        last_reward_at = b;
      } in
      let hw = rewrite-get_validator p a v w h hv refl in
      rw (accrue-eq p a v hv n b free some') (
        refl,
        hw,
        λ ne.
            ap (λ (r : Result StakingError ℤ × StakingProgram). r.0)
              (claim-paid (with_validator p a v hv w) a w hw (ground arith)),
      )
