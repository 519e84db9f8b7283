-- ===== src/Staking/Invariant.antt =====
-- What every stored validator and delegation satisfies, after any sequence of calls.
use rpcnode.Prelude.{
  ◌≡◌, ◌≤◌, refl, GoString, str_eq, str_eq_iff, Option, arith, ok, Bool-cases, inl, inr,
}
use rpcnode.Prelude.Int.{ℤ, pos, ◌≤ℤ◌, ◌<ℤ◌}
use rpcnode.Json.{Json}
use rpcnode.Storage.{MemStorage}
use rpcnode.Staking.Types.{ValidatorInfo, Delegation, SlashRecord, StakingProgram, StakingError}
use rpcnode.Staking.Store.{
  delegation_key, get_validator, save_validator, get_delegation, save_delegation, save_slash,
  get_validator-save_validator, get_validator-save_delegation, get_validator-save_slash,
  get_delegation-save_delegation, get_delegation-save_validator, get_delegation-save_slash,
}
use rpcnode.Staking.{at_least, positive}

-- a validator stored under the address `a`
pub record IsValidator (a : GoString) (v : ValidatorInfo) : Type 0 where
  pub address : v.address ≡ a
  pub commission : v.commission ≤ 10000
  pub self_stake : pos 0 ≤ℤ v.self_stake
  pub accum_rewards : pos 0 ≤ℤ v.accum_rewards

-- a delegation stored for `o` at the validator `a`
pub record IsDelegation (a o : GoString) (d : Delegation) : Type 0 where
  pub key : delegation_key d.validator d.delegator ≡ delegation_key a o
  pub amount : pos 0 ≤ℤ d.amount
  pub pending : d.pending_reward ≡ pos 0
  pub debt : d.reward_debt ≡ pos 0

pub record IsValid (s : MemStorage Json) : Type 0 where
  pub validator : (a : GoString) (v : ValidatorInfo) → get_validator a s ≡ ok v → IsValidator a v
  pub delegation :
      (a o : GoString) (d : Delegation) → get_delegation a o s ≡ ok d → IsDelegation a o d

same-IsValidator :
    (a b : GoString) (v w : ValidatorInfo) → a ≡ b → v ≡ w → IsValidator a v → IsValidator b w
same-IsValidator a b v w e h ok' = rw (← e, ← h) ok'

same-IsDelegation :
    (a o b c : GoString) (d w : Delegation)
    → delegation_key a o ≡ delegation_key b c
    → d ≡ w
    → IsDelegation a o d
    → IsDelegation b c w
same-IsDelegation a o b c d w e h ok' = record {
  key = ground (arith, ok'.key);
  amount = ground (arith, ok'.amount);
  pending = ground (arith, ok'.pending);
  debt = ground (arith, ok'.debt);
}

pub save_validator-IsValid :
    (s : MemStorage Json) (v : ValidatorInfo)
    → IsValidator v.address v
    → IsValid s
    → IsValid (save_validator v s)
save_validator-IsValid s v ok' h = record {
  validator = λ a w e. elim (Bool-cases (str_eq v.address a)) [
    | inl same ↦
        same-IsValidator v.address a v w ((str_eq_iff v.address a).0 same)
          (ground (arith, get_validator-save_validator s a v)) ok'
    | inr other ↦ h.validator a w (ground (arith, get_validator-save_validator s a v))
  ];
  delegation = λ a o d e. h.delegation a o d (rw (← get_delegation-save_validator s a o v) e);
}

pub save_delegation-IsValid :
    (s : MemStorage Json) (d : Delegation)
    → IsDelegation d.validator d.delegator d
    → IsValid s
    → IsValid (save_delegation d s)
save_delegation-IsValid s d ok' h = record {
  validator = λ a v e. h.validator a v (rw (← get_validator-save_delegation s a d) e);
  delegation = λ a o w e.
      elim (Bool-cases (str_eq (delegation_key d.validator d.delegator) (delegation_key a o))) [
        | inl same ↦
            same-IsDelegation d.validator d.delegator a o d w
              ((str_eq_iff (delegation_key d.validator d.delegator) (delegation_key a o)).0 same)
              (ground (arith, get_delegation-save_delegation s a o d)) ok'
        | inr other ↦ h.delegation a o w (ground (arith, get_delegation-save_delegation s a o d))
      ];
}

pub save_slash-IsValid :
    (s : MemStorage Json) (a : GoString) (r : SlashRecord) → IsValid s → IsValid (save_slash a r s)
save_slash-IsValid s a r h = record {
  validator = λ b v e. h.validator b v (rw (← get_validator-save_slash s b a r) e);
  delegation = λ b o d e. h.delegation b o d (rw (← get_delegation-save_slash s b o a r) e);
}

-- the validator under its own address, as `saveValidator` writes it
pub own :
    (a : GoString) (v v' : ValidatorInfo)
    → IsValidator a v
    → v'.commission ≡ v.commission
    → pos 0 ≤ℤ v'.self_stake
    → pos 0 ≤ℤ v'.accum_rewards
    → IsValidator v'.address v'
own a v v' h c s r = record {
  address = refl;
  commission = rw c h.commission;
  self_stake = s;
  accum_rewards = r;
}

pub at_least-ok : (m : ℤ) (o : Option ℤ) (a : ℤ) → at_least m o ≡ ok a → m ≤ℤ a
unfolding at_least
at_least-ok m o a h = ground arith

pub positive-ok : (x : StakingError) (o : Option ℤ) (a : ℤ) → positive x o ≡ ok a → pos 0 <ℤ a
unfolding positive
positive-ok x o a h = ground arith

abbrev pub Keeps : StakingProgram → Type 0
Keeps p = IsValid p.store
