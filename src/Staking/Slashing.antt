-- ===== src/Staking/Slashing.antt =====
-- What slashing and jail do (gpl/staking/staking.go).
use rpcnode.Prelude.{
  ◌∙◌, ℕ, ◌≡◌, ◌≤◌, ◌<◌, refl, GoString, str_eq_iff, true, some, arith, Result, ok, err, ◌>>=◌,
}
use rpcnode.Prelude.Int.{ℤ, pos, ◌-ℤ◌, ◌≤ℤ◌, ◌<ℤ◌, int_laws}
use rpcnode.Staking.Types.{
  ValidatorInfo, Delegation, SlashRecord, StakingProgram, StakingError, validator_slashed,
  still_jailed,
}
use rpcnode.Staking.Store.{
  get_validator, save_validator, get_delegation, save_slash, get_validator-save_validator,
  get_delegation-save_validator, get_delegation-save_slash,
}
use rpcnode.Staking.{
  at_least, positive, min_delegation, add_self_stake, delegate, undelegate, at_most, slashed, slash,
  unjail,
}
use rpcnode.Staking.Kept.{slash-IsValid}
use rpcnode.Staking.Stakes.{undelegate_takes}
use rpcnode.Staking.Invariant.{IsValid}

same_total :
    (r : Result StakingError ValidatorInfo) (w u : ValidatorInfo)
    → r ≡ ok w
    → r ≡ ok u
    → w.total_stake ≡ u.total_stake
same_total r w u e h = ground arith

all_taken : (v n m : ℤ) → v ≤ℤ n → v -ℤ at_most v n -ℤ m ≡ pos 0 -ℤ m
all_taken v n m h = grind int_laws

-- the store after a slash was recorded and the validator written
module _ (p : StakingProgram) (a : GoString) (r : SlashRecord) (v : ValidatorInfo) where
  recorded : StakingProgram
  recorded = record p { store = save_validator v (save_slash a r p.store) }

  recorded-get_validator : v.address ≡ a → get_validator a recorded.store ≡ ok v
  unfolding recorded
  recorded-get_validator e =
      ground
        (arith, get_validator-save_validator (save_slash a r p.store) a v, str_eq_iff v.address a)

  recorded-get_delegation :
      (b o : GoString) → get_delegation b o recorded.store ≡ get_delegation b o p.store
  unfolding recorded
  recorded-get_delegation b o = ground (
    arith,
    get_delegation-save_validator (save_slash a r p.store) b o v,
    get_delegation-save_slash p.store b o a r,
  )

module _ (p : StakingProgram) (a : GoString) (v : ValidatorInfo) (h : IsValid p.store)
    (hv : get_validator a p.store ≡ ok v) where
  slash-eq :
      (reason : GoString) (n : ℤ) (j b : ℕ) (t : ℤ)
      → slash a reason n j b t p ≡ (
        ok tt,
        recorded p a
            (record {
              validator = a;
              reason = reason;
              amount = at_most v.total_stake n;
              block_num = b;
              timestamp = t;
            })
            (slashed (at_most v.total_stake n) j v),
      )
  unfolding slash recorded ◌>>=◌
  slash-eq reason n j b t = rw hv refl

  -- On a valid store, a slash of a known validator succeeds: it takes the amount from the total
  -- stake, but not more than there is, and what it takes from the self-stake as far as that goes;
  -- it jails the validator and counts the slash. It changes no delegation.
  pub slash_lem :
      (reason : GoString) (n : ℤ) (j b : ℕ) (t : ℤ)
      → let (r, p') = slash a reason n j b t p in
        (r ≡ ok tt)
        × (get_validator a p'.store ≡ ok (slashed (at_most v.total_stake n) j v))
        × ((o c : GoString) → get_delegation o c p'.store ≡ get_delegation o c p.store)
  unfolding slashed
  slash_lem reason n j b t = rw (slash-eq reason n j b t) (
    refl,
    recorded-get_validator p a _ _ (h.validator a v hv).address,
    λ o c. recorded-get_delegation p a _ _ o c,
  )

  -- On a valid store, after a slash of at least the whole total stake nothing is left of it, but a
  -- delegator can still take out a positive amount of what it had delegated: the total stake then
  -- is negative.
  pub slashed_undelegate :
      (o reason : GoString) (d : Delegation) (n m : ℤ) (j b : ℕ) (t : ℤ)
      → get_delegation a o p.store ≡ ok d
      → v.total_stake ≤ℤ n
      → pos 0 <ℤ m
      → m ≤ℤ d.amount
      → let p1 = (slash a reason n j b t p).1 in
        let (r, p2) = undelegate a o (some m) p1 in
        (r ≡ ok tt)
        × ((w : ValidatorInfo) → get_validator a p2.store ≡ ok w → w.total_stake ≡ pos 0 -ℤ m)
  unfolding slashed
  slashed_undelegate o reason d n m j b t hd all some' enough =
      let (r, hv', same) = slash_lem reason n j b t in
      let (r', hv2, hd2) =
        undelegate_takes (slash a reason n j b t p).1 a o _ d (slash-IsValid p h a reason n j b t)
          hv' (rw (same a o) hd) m some' enough in
      (r', λ w hw. same_total _ w _ hw hv2 ∙ all_taken v.total_stake n m all)

module _ (p : StakingProgram) (a : GoString) (v : ValidatorInfo)
    (hv : get_validator a p.store ≡ ok v) where
  -- While a validator is jailed nobody adds to its stake, whatever the amount, as long as it is enough
  -- at all, and it stays jailed until the block of its release, from which `Unjail` lets it out.
  pub jailed_refuses :
      (o : GoString) (n : ℤ) (t : ℤ) (b : ℕ)
      → v.jailed ≡ true
      → min_delegation ≤ℤ n
      → (add_self_stake a (some n) p ≡ (err validator_slashed, p))
        × (delegate a o (some n) t p ≡ (err validator_slashed, p))
        × (b < v.jail_until → unjail a b p ≡ (err (still_jailed v.jail_until), p))
        × (v.jail_until ≤ b → (unjail a b p).0 ≡ ok tt)
  unfolding add_self_stake delegate unjail ◌>>=◌ positive at_least
  jailed_refuses o n t b jailed' enough =
      (ground arith, ground arith, λ early. ground arith, λ late. ground arith)
