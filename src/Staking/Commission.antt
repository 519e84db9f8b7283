-- ===== src/Staking/Commission.antt =====
-- The commission of `AccrueRewards` (gpl/staking/staking.go).
use rpcnode.Prelude.{ℕ, ◌≡◌, ◌≤◌, ◌*◌, true, arith, ltb, ◌^◌}
use rpcnode.Prelude.Int.{ℤ, pos, negsuc, ◌*ℤ◌, div_pos, to_int64, ◌≤ℤ◌, ◌<ℤ◌}
use rpcnode.Staking.{commission_of}
use native.Mathlib.Nat.{mul-le-mul_left, le_trans}

mul_le : (r c m : ℕ) → c ≤ m → r * c ≤ m * r
mul_le r c m h = le_trans (mul-le-mul_left r h) (omega arith)

-- The commission on a positive reward, at a rate of at most 10000 basis points, lies between
-- nothing and the reward.
pub commission_of_bounds :
    (r : ℤ) (c : ℕ)
    → pos 0 <ℤ r
    → c ≤ 10000
    → (pos 0 ≤ℤ commission_of r c) × (commission_of r c ≤ℤ r)
unfolding commission_of to_int64 div_pos ◌*ℤ◌
commission_of_bounds (pos r) c p b =
    let small : ltb c (2 ^ 63) ≡ true = ground arith in
    let bound : r * c ≤ 10000 * r = mul_le r c 10000 b in rw small (ground arith)
commission_of_bounds (negsuc r) c p b = absurd (omega arith)
