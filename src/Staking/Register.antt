-- ===== src/Staking/Register.antt =====
-- `RegisterValidator` (gpl/staking/staking.go).
use rpcnode.Prelude.{
  ℕ, ◌≡◌, ◌≤◌, refl, GoString, str_eq_refl, true, false, some, arith, ok, err, ◌>>=◌,
}
use rpcnode.Prelude.Int.{ℤ, ◌≤ℤ◌}
use rpcnode.Storage.{has}
use rpcnode.Storage.Laws.{has-put}
use rpcnode.Staking.Codec.{marshal_validator}
use rpcnode.Staking.Types.{StakingProgram, already_registered}
use rpcnode.Staking.Store.{
  validator_key, get_validator, save_validator, get_validator-save_validator,
}
use rpcnode.Staking.{
  at_least, min_validator_stake, new_validator, register_validator, store_validator,
}

module _ (p : StakingProgram) (a : GoString) (n : ℤ) (c b : ℕ) (enough : min_validator_stake ≤ℤ n)
    (bound : c ≤ 10000) where
  accepted :
      has p.store (validator_key a) ≡ false
      → register_validator a (some n) c b p ≡ (ok tt, store_validator (new_validator a n c b) p)
  unfolding register_validator at_least ◌>>=◌
  accepted fresh = ground arith

  refused :
      has p.store (validator_key a) ≡ true
      → register_validator a (some n) c b p ≡ (err already_registered, p)
  unfolding register_validator at_least ◌>>=◌
  refused there = ground arith

has-save_validator :
    (p : StakingProgram) (a : GoString) (n : ℤ) (c b : ℕ)
    → has (save_validator (new_validator a n c b) p.store) (validator_key a) ≡ true
unfolding save_validator
has-save_validator p a n c b = ground (
  arith,
  has-put p.store (validator_key a) (validator_key a) (marshal_validator (new_validator a n c b)),
  str_eq_refl (validator_key a),
)

-- An address that is not registered is registered with a sufficient stake and an admissible
-- commission: the validator then reads with that stake, without rewards and out of jail. The address
-- cannot be registered again.
pub register_once :
    (p : StakingProgram) (a : GoString) (n m : ℤ) (c d b b' : ℕ)
    → has p.store (validator_key a) ≡ false
    → min_validator_stake ≤ℤ n
    → c ≤ 10000
    → min_validator_stake ≤ℤ m
    → d ≤ 10000
    → let (r, p') = register_validator a (some n) c b p in
      (r ≡ ok tt)
      × (get_validator a p'.store ≡ ok (new_validator a n c b))
      × (register_validator a (some m) d b' p' ≡ (err already_registered, p'))
register_once p a n m c d b b' fresh enough bound enough' bound' =
    rw (accepted p a n c b enough bound fresh) (
      refl,
      ground (arith, get_validator-save_validator p.store a (new_validator a n c b), str_eq_refl a),
      refused (store_validator (new_validator a n c b) p) a m d b' enough' bound'
          (has-save_validator p a n c b),
    )
