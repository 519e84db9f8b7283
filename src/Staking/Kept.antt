-- ===== src/Staking/Kept.antt =====
-- Every call on the staking program keeps the store valid.
use rpcnode.Prelude.{
  ℕ, ◌≡◌, refl, GoString, str_eq, false, Option, none, some, List, [], ◌∷◌, arith, Result, ok,
  if◌then◌else◌, Bool-cases, Result-cases, inl, inr, reads-keeps, raise_if-keeps, modify-keeps,
  last-keeps, pure,
}
use rpcnode.Prelude.Int.{ℤ, pos, ◌-ℤ◌, ◌≤ℤ◌, ltb_ℤ, leb_ℤ, int_laws}
use rpcnode.Json.{Json}
use rpcnode.Storage.{MemStorage, get}
use rpcnode.Staking.Types.{ValidatorInfo, Delegation, StakingProgram, StakingError}
use rpcnode.Staking.Store.{get_validator, get_delegation}
use rpcnode.Staking.{
  new_program, min_validator_stake, min_delegation, new_delegation, or_new, or_no_rewards,
  register_validator, add_self_stake, delegate, undelegate, accrue, accrue_rewards, claim_own,
  claim_delegated, claim_rewards, at_most, slashed, slash, unjail,
}
use rpcnode.Staking.Request.{
  StakingRequest, register_req, add_req, delegate_req, undelegate_req, accrue_req, claim_req,
  slash_req, unjail_req, serve, serve_all,
}
use rpcnode.Staking.Commission.{commission_of_bounds}
use rpcnode.Staking.Invariant.{
  IsDelegation, IsValid, save_validator-IsValid, save_delegation-IsValid, save_slash-IsValid, own,
  at_least-ok, positive-ok, Keeps,
}
use mathlib.Core.Path.{subst}

module _ (p : StakingProgram) (h : IsValid p.store) where
  register_validator-IsValid :
      (a : GoString) (s : Option ℤ) (c b : ℕ) → IsValid (register_validator a s c b p).1.store
  unfolding register_validator
  register_validator-IsValid a s c b = reads-keeps Keeps h _ _ λ stake enough.
      raise_if-keeps Keeps h _ _ _ λ bound. reads-keeps Keeps h _ _ λ there hb.
        raise_if-keeps Keeps h _ _ _ λ fresh. last-keeps _ Keeps _ (
          save_validator-IsValid p.store _
            (record {
              address = refl;
              commission = ground arith;
              self_stake = ground (arith, at_least-ok min_validator_stake s stake enough);
              accum_rewards = omega arith;
            })
            h)

  add_self_stake-IsValid : (a : GoString) (n : Option ℤ) → IsValid (add_self_stake a n p).1.store
  unfolding add_self_stake
  add_self_stake-IsValid a n = reads-keeps Keeps h _ _ λ m some'. reads-keeps Keeps h _ _ λ v hv.
      raise_if-keeps Keeps h _ _ _ λ free. last-keeps _ Keeps _ (
        let o = h.validator a v hv in
        save_validator-IsValid p.store _
          (own a v _ o refl (omega (int_laws, o.self_stake, positive-ok _ n m some'))
            o.accum_rewards)
          h)

abbrev as_result : Delegation → Result StakingError Delegation
as_result = ok

same_delegation : (a b : Delegation) → as_result a ≡ ok b → a ≡ b
same_delegation a b h = ground arith

covers : (x y : ℤ) → ltb_ℤ x y ≡ false → y ≤ℤ x
covers x y h = ground arith

self_stake_nonneg : (v n : ℤ) → pos 0 ≤ℤ (if leb_ℤ n v then v -ℤ n else pos 0)
self_stake_nonneg v n = grind int_laws

-- the delegation that `Delegate` adds to
or_new-IsDelegation :
    (s : MemStorage Json) (a o : GoString) (n : ℤ)
    → IsValid s
    → IsDelegation a o (or_new (new_delegation a o n) (get_delegation a o s))
or_new-IsDelegation s a o n h = elim (Result-cases (get_delegation a o s)) [
  | inl (x, e) ↦ rw e (record { key = refl; amount = omega arith; pending = refl; debt = refl })
  | inr (d, e) ↦ rw e (h.delegation a o d e)
]

-- `commission` with an amount that is not negative
with_amount :
    (a o : GoString) (d : Delegation) (m : ℤ)
    → IsDelegation a o d
    → pos 0 ≤ℤ m
    → IsDelegation d.validator d.delegator (record d { amount = m })
with_amount a o d m h n = record { key = refl; amount = n; pending = h.pending; debt = h.debt }

claimed :
    (s : MemStorage Json) (a o : GoString) (d : Delegation)
    → IsValid s
    → or_no_rewards (get_delegation a o s) ≡ ok d
    → IsDelegation a o d
claimed s a o d h e = h.delegation a o d (ground arith)

module _ (p : StakingProgram) (h : IsValid p.store) where
  pub delegate-IsValid :
      (a o : GoString) (n : Option ℤ) (t : ℤ) → IsValid (delegate a o n t p).1.store
  unfolding delegate
  delegate-IsValid a o n t = reads-keeps Keeps h _ _ λ m some'. reads-keeps Keeps h _ _ λ v hv.
      raise_if-keeps Keeps h _ _ _ λ free. reads-keeps Keeps h _ _ λ d hd. modify-keeps Keeps _ _ (
        last-keeps _ Keeps _ (
          let k : IsDelegation a o d =
            subst (IsDelegation a o) (same_delegation _ d hd)
              (or_new-IsDelegation p.store a o t h) in
          let w = h.validator a v hv in
          save_delegation-IsValid _ _
            (with_amount a o d _ k
              (omega (int_laws, k.amount, at_least-ok min_delegation n m some')))
            (save_validator-IsValid p.store _ (own a v _ w refl w.self_stake w.accum_rewards) h)))

  undelegate-IsValid : (a o : GoString) (n : Option ℤ) → IsValid (undelegate a o n p).1.store
  unfolding undelegate
  undelegate-IsValid a o n = reads-keeps Keeps h _ _ λ m some'. reads-keeps Keeps h _ _ λ v hv.
      reads-keeps Keeps h _ _ λ d hd. raise_if-keeps Keeps h _ _ _ λ enough.
        modify-keeps Keeps _ _ (
          last-keeps _ Keeps _ (
            let k = h.delegation a o d hd in
            let w = h.validator a v hv in
            save_delegation-IsValid _ _
              (with_amount a o d _ k (omega (int_laws, covers d.amount m enough)))
              (save_validator-IsValid p.store _ (own a v _ w refl w.self_stake w.accum_rewards) h)))

  pub slash-IsValid :
      (a r : GoString) (n : ℤ) (j b : ℕ) (t : ℤ) → IsValid (slash a r n j b t p).1.store
  unfolding slash slashed
  slash-IsValid a r n j b t = reads-keeps Keeps h _ _ λ v hv. modify-keeps Keeps _ _ (
      last-keeps _ Keeps _ (
        let w = h.validator a v hv in
        save_validator-IsValid _ _
          (own a v _ w refl (self_stake_nonneg v.self_stake (at_most v.total_stake n))
            w.accum_rewards)
          (save_slash-IsValid p.store a _ h)))

  unjail-IsValid : (a : GoString) (b : ℕ) → IsValid (unjail a b p).1.store
  unfolding unjail
  unjail-IsValid a b = reads-keeps Keeps h _ _ λ v hv. raise_if-keeps Keeps h _ _ _ λ past.
      last-keeps _ Keeps _ (
        let w = h.validator a v hv in
        save_validator-IsValid p.store _ (own a v _ w refl w.self_stake w.accum_rewards) h)

  accrue_rewards-IsValid :
      (a : GoString) (n : Option ℤ) (b : ℕ) → IsValid (accrue_rewards a n b p).1.store
  unfolding accrue_rewards accrue pure
  accrue_rewards-IsValid a none b = h
  accrue_rewards-IsValid a (some r) b = elim (Bool-cases (leb_ℤ r (pos 0))) [
    | inl nothing ↦ rw nothing h
    | inr reward ↦ rw reward (
        reads-keeps Keeps h _ _ λ v hv. elim (Bool-cases v.jailed) [
          | inl jailed' ↦ rw jailed' h
          | inr free ↦ rw free (
              last-keeps _ Keeps _ (
                let w = h.validator a v hv in
                save_validator-IsValid p.store _
                  (own a v _ w refl w.self_stake (
                    omega (
                      int_laws,
                      w.accum_rewards,
                      commission_of_bounds r v.commission (ground (arith, reward)) w.commission,
                    )))
                  h))
        ])
  ]

  claim_own-IsValid :
      (a : GoString) (v : ValidatorInfo)
      → get_validator a p.store ≡ ok v
      → IsValid (claim_own v p).1.store
  unfolding claim_own pure
  claim_own-IsValid a v hv = raise_if-keeps Keeps h _ _ _ λ some'. modify-keeps Keeps _ _ (
      let w = h.validator a v hv in
      save_validator-IsValid p.store (record v { accum_rewards = pos 0 })
        (own a v (record v { accum_rewards = pos 0 }) w refl w.self_stake (omega arith)) h)

  claim_delegated-IsValid : (a c : GoString) → IsValid (claim_delegated a c p).1.store
  unfolding claim_delegated pure
  claim_delegated-IsValid a c = reads-keeps Keeps h _ _ λ d hd.
      raise_if-keeps Keeps h _ _ _ λ some'. modify-keeps Keeps _ _ (
        let k = claimed p.store a c d h hd in
        save_delegation-IsValid p.store _
          (record {
            key = refl;
            amount = k.amount;
            pending = refl;
            debt = grind (int_laws, k.debt, k.pending);
          })
          h)

  claim_rewards-IsValid : (a c : GoString) → IsValid (claim_rewards a c p).1.store
  unfolding claim_rewards
  claim_rewards-IsValid a c = reads-keeps Keeps h _ _ λ v hv. elim (Bool-cases (str_eq c a)) [
    | inl self ↦ rw self (claim_own-IsValid a v hv)
    | inr other ↦ rw other (claim_delegated-IsValid a c)
  ]

serve-IsValid :
    (r : StakingRequest) (p : StakingProgram) → IsValid p.store → IsValid (serve r p).store
unfolding serve
serve-IsValid (register_req a s c b) p h = register_validator-IsValid p h a s c b
serve-IsValid (add_req a n) p h = add_self_stake-IsValid p h a n
serve-IsValid (delegate_req a o n t) p h = delegate-IsValid p h a o n t
serve-IsValid (undelegate_req a o n) p h = undelegate-IsValid p h a o n
serve-IsValid (accrue_req a n b) p h = accrue_rewards-IsValid p h a n b
serve-IsValid (claim_req a c) p h = claim_rewards-IsValid p h a c
serve-IsValid (slash_req a r n j b t) p h = slash-IsValid p h a r n j b t
serve-IsValid (unjail_req a b) p h = unjail-IsValid p h a b

pub serve_all_keeps :
    (rs : List StakingRequest) (p : StakingProgram)
    → IsValid p.store
    → IsValid (serve_all rs p).store
unfolding serve_all
serve_all_keeps [] p h = h
serve_all_keeps (r ∷ rs) p h = serve_all_keeps rs (serve r p) (serve-IsValid r p h)

pub empty-IsValid : IsValid new_program.store
unfolding get_validator get_delegation get
empty-IsValid = record { validator = λ a v e. cc; delegation = λ a o d e. cc }
