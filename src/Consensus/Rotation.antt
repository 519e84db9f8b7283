-- ===== src/Consensus/Rotation.antt =====
-- `SelectProposer` (consensus/pos.go) takes the validators in turn.
use rpcnode.Prelude.{
  ℕ, zero, suc, ◌%◌, ◌^◌, ◌<◌, ◌≡◌, ◌≢◌, refl, GoString, true, some, List, [], ◌∷◌, length,
  get_elem?, arith, ltb,
}
use rpcnode.Prelude.Int.{to_int64}
use native.Mathlib.Nat.{mod-lt}
use rpcnode.Consensus.{ValidatorSet, index_of, proposer_of, select_proposer}

elem_in_range :
    {A : Type 0} (l : List A) (i : ℕ) → i < length l → (x : A) × (get_elem? l i ≡ some x)
elem_in_range [] i h = absurd (omega arith)
elem_in_range (x ∷ l) zero h = (x, refl)
elem_in_range (x ∷ l) (suc i) h = elem_in_range l i (omega arith)

chosen :
    (vs : List GoString) (block : ℕ)
    → vs ≢ []
    → block < 2 ^ 63
    → (v : GoString) × (proposer_of vs block ≡ some v) × (get_elem? vs (block % length vs) ≡ some v)
unfolding to_int64 index_of
chosen [] block some' small = absurd (some' refl)
chosen (v ∷ vs) block some' small =
    let below : ltb block (2 ^ 63) ≡ true = ground arith in
    let (x, e) =
      elem_in_range (v ∷ vs) (block % suc (length vs))
        (mod-lt block {m = suc (length vs)} (omega arith)) in
    (x, rw below e, e)

-- For a block number below 2^63 and at least one validator, a proposer is chosen: the validator whose
-- place is the remainder of the block number by the number of validators.
pub proposer_in_turn :
    (vs : ValidatorSet) (block : ℕ)
    → vs.validators ≢ []
    → block < 2 ^ 63
    → (v : GoString) × (select_proposer vs block ≡ some v)
      × (get_elem? vs.validators (block % length vs.validators) ≡ some v)
unfolding select_proposer
proposer_in_turn vs block some' small = chosen vs.validators block some' small
