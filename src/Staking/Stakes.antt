-- ===== src/Staking/Stakes.antt =====
-- What delegating, undelegating and claiming do (gpl/staking/staking.go).
use rpcnode.Prelude.{◌≡◌, refl, GoString, str_eq_iff, false, some, arith, ok, ◌>>=◌}
use rpcnode.Prelude.Int.{ℤ, pos, ◌+ℤ◌, ◌-ℤ◌, ◌≤ℤ◌, ◌<ℤ◌, int_laws}
use rpcnode.Staking.Types.{ValidatorInfo, Delegation, StakingProgram}
use rpcnode.Staking.Store.{
  delegation_key, get_validator, save_validator, get_delegation, save_delegation,
  get_validator-save_validator, get_validator-save_delegation, get_delegation-save_delegation,
}
use rpcnode.Staking.{at_least, positive, min_delegation, delegate, undelegate}
use rpcnode.Staking.Kept.{delegate-IsValid}
use rpcnode.Staking.Invariant.{IsValid}

-- the store after a validator and a delegation of it were written
module _ (p : StakingProgram) (a o : GoString) (v : ValidatorInfo) (d : Delegation) where
  both : StakingProgram
  both = record p { store = save_delegation d (save_validator v p.store) }

  both-get_validator : v.address ≡ a → get_validator a both.store ≡ ok v
  unfolding both
  both-get_validator e = ground (
    arith,
    get_validator-save_delegation (save_validator v p.store) a d,
    get_validator-save_validator p.store a v,
    str_eq_iff v.address a,
  )

  both-get_delegation :
      delegation_key d.validator d.delegator ≡ delegation_key a o
      → get_delegation a o both.store ≡ ok d
  unfolding both
  both-get_delegation e = ground (
    arith,
    get_delegation-save_delegation (save_validator v p.store) a o d,
    str_eq_iff (delegation_key d.validator d.delegator) (delegation_key a o),
  )

module _ (p : StakingProgram) (a o : GoString) (v : ValidatorInfo) (d : Delegation)
    (h : IsValid p.store) (hv : get_validator a p.store ≡ ok v)
    (hd : get_delegation a o p.store ≡ ok d) where
  more : ℤ → StakingProgram
  more n =
      both p a o (record v { total_stake = v.total_stake +ℤ n })
        (record d { amount = d.amount +ℤ n })

  less : ℤ → StakingProgram
  less n =
      both p a o (record v { total_stake = v.total_stake -ℤ n })
        (record d { amount = d.amount -ℤ n })

  delegate-eq :
      (n t : ℤ)
      → v.jailed ≡ false
      → min_delegation ≤ℤ n
      → delegate a o (some n) t p ≡ (ok tt, more n)
  unfolding delegate at_least more both ◌>>=◌
  delegate-eq n t free enough = ground arith

  undelegate-eq : (n : ℤ) → pos 0 <ℤ n → n ≤ℤ d.amount → undelegate a o (some n) p ≡ (ok tt, less n)
  unfolding undelegate positive less both ◌>>=◌
  undelegate-eq n some' enough = ground arith

  -- On a valid store, to a validator that is not jailed a delegator that has a delegation can add
  -- any amount from the least one on: the delegation and the validator's total stake grow by it,
  -- and nothing else of them changes.
  pub delegate_adds :
      (n t : ℤ)
      → v.jailed ≡ false
      → min_delegation ≤ℤ n
      → let (r, p') = delegate a o (some n) t p in
        (r ≡ ok tt)
        × (get_validator a p'.store ≡ ok (record v { total_stake = v.total_stake +ℤ n }))
        × (get_delegation a o p'.store ≡ ok (record d { amount = d.amount +ℤ n }))
  unfolding more
  delegate_adds n t free enough = rw (delegate-eq n t free enough) (
    refl,
    both-get_validator p a o _ _ (h.validator a v hv).address,
    both-get_delegation p a o _ _ (h.delegation a o d hd).key,
  )

  -- On a valid store, a delegator can take out any positive amount up to what it has delegated,
  -- whether or not the validator is jailed or was slashed: the delegation and the validator's
  -- total stake fall by it.
  pub undelegate_takes :
      (n : ℤ)
      → pos 0 <ℤ n
      → n ≤ℤ d.amount
      → let (r, p') = undelegate a o (some n) p in
        (r ≡ ok tt)
        × (get_validator a p'.store ≡ ok (record v { total_stake = v.total_stake -ℤ n }))
        × (get_delegation a o p'.store ≡ ok (record d { amount = d.amount -ℤ n }))
  unfolding less
  undelegate_takes n some' enough = rw (undelegate-eq n some' enough) (
    refl,
    both-get_validator p a o _ _ (h.validator a v hv).address,
    both-get_delegation p a o _ _ (h.delegation a o d hd).key,
  )

-- the record updated back
back_and_forth : (x n : ℤ) → (x +ℤ n) -ℤ n ≡ x
back_and_forth x n = omega int_laws

module _ (p : StakingProgram) (a o : GoString) (v : ValidatorInfo) (d : Delegation)
    (h : IsValid p.store) (hv : get_validator a p.store ≡ ok v)
    (hd : get_delegation a o p.store ≡ ok d) where
  -- On a valid store, adding an amount from the least one on to a delegation to a validator that
  -- is not jailed and taking it out again succeeds, and the validator and the delegation then read
  -- as they did before.
  pub delegate_undelegate :
      (n t : ℤ)
      → v.jailed ≡ false
      → min_delegation ≤ℤ n
      → let (r, p') = undelegate a o (some n) (delegate a o (some n) t p).1 in
        (r ≡ ok tt) × (get_validator a p'.store ≡ ok v) × (get_delegation a o p'.store ≡ ok d)
  delegate_undelegate n t free enough =
      let (r, hv', hd') = delegate_adds p a o v d h hv hd n t free enough in
      let (r', hv2, hd2) =
        undelegate_takes (delegate a o (some n) t p).1 a o _ _ (delegate-IsValid p h a o (some n) t)
          hv' hd' n (omega arith) (omega (int_laws, (h.delegation a o d hd).amount)) in
      (r', rw (hv2, back_and_forth v.total_stake n) refl, rw (hd2, back_and_forth d.amount n) refl)
