-- ===== src/Prelude/Text/Lengths.antt =====
-- How long the texts of numbers and of bytes are.
use Prim.Native.Nat.{ℕ, zero, suc, ◌+◌, ◌*◌, ◌/◌, ◌%◌, ◌^◌, ◌≤◌, ◌<◌}
use mathlib.Core.Path.{◌≡◌, refl}
use mathlib.Core.List.{[], ◌∷◌}
use native.Mathlib.Omega.{arith}
use native.Mathlib.Numerals.{unary_clauses}
use rpcnode.Prelude.Lists.{length}
use rpcnode.Prelude.Text.{GoString, decimal_digits, decimal, hex_encode}

length-more : (f n : ℕ) (acc : GoString) → length acc ≤ length (decimal_digits f n acc)
unfolding decimal_digits
length-more zero n acc = omega arith
length-more (suc f) n acc = ground (arith, length-more f (n / 10) ((48 + n % 10) ∷ acc))

power_pos : (k : ℕ) → 1 ≤ 10 ^ k
power_pos zero = omega arith
power_pos (suc k) =
    let power : 10 ^ suc k ≡ 10 ^ k * 10 = simp unary_clauses in omega (arith, power, power_pos k)

length-decimal_digits :
    (k f n : ℕ) (acc : GoString)
    → n < f
    → 10 ^ k ≤ n
    → suc k + length acc ≤ length (decimal_digits f n acc)
unfolding decimal_digits
length-decimal_digits k zero n acc h big = absurd (omega (arith, h))
length-decimal_digits zero (suc f) n acc h big =
    ground (arith, length-more f (n / 10) ((48 + n % 10) ∷ acc))
length-decimal_digits (suc k) (suc f) n acc h big =
    let power : 10 ^ suc k ≡ 10 ^ k * 10 = simp unary_clauses in
    let less : 10 ^ k ≤ n / 10 = omega (arith, power, big) in
    ground (arith, power, power_pos k, length-decimal_digits k f (n / 10) ((48 + n % 10) ∷ acc))

-- A number of at least 10 ^ k has more than `k` decimal digits.
pub length-decimal : (k n : ℕ) → 10 ^ k ≤ n → suc k ≤ length (decimal n)
unfolding decimal
length-decimal k n big = omega (arith, length-decimal_digits k (n + 1) n [] (omega arith) big)

pub length-hex_encode : (s : GoString) → length (hex_encode s) ≡ 2 * length s
unfolding hex_encode
length-hex_encode [] = refl
length-hex_encode (b ∷ s) = omega (arith, length-hex_encode s)
