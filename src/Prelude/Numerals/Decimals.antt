-- ===== src/Prelude/Numerals/Decimals.antt =====
-- Reading back with `strconv` what `%d` writes.
use Prim.Native.Nat.{ℕ, zero, suc, ◌+◌, ◌-◌, ◌*◌, ◌/◌, ◌%◌, ◌^◌, ◌<◌}
use mathlib.Core.Path.{◌≡◌, refl, ap, ◌∙◌}
use mathlib.Core.Bool.{Bool, true, false, ◌&&◌}
use mathlib.Core.Option.{some}
use mathlib.Core.List.{[], ◌∷◌}
use native.Mathlib.Omega.{arith}
use rpcnode.Prelude.Tests.{leb}
use rpcnode.Prelude.Text.{GoString, decimal, decimal_digits}
use rpcnode.Prelude.Int.{pos, negsuc, sub_ℕ}
use rpcnode.Prelude.Numerals.{
  read_decimal, decimal_value, below, parse_uint, atoi, positive_int, negative_int, set_string,
}

-- a text that begins with a decimal digit
abbrev begins : GoString → Bool
begins [] = false
begins (c ∷ s) = leb 48 c && leb c 57

read_decimal-digit :
    (d acc : ℕ) (s : GoString)
    → d < 10
    → read_decimal ((48 + d) ∷ s) acc ≡ read_decimal s (acc * 10 + d)
unfolding read_decimal
read_decimal-digit d acc s h =
    let value : acc * 10 + (48 + d - 48) ≡ acc * 10 + d = omega arith in
    let same : read_decimal s (acc * 10 + (48 + d - 48)) ≡ read_decimal s (acc * 10 + d) =
      ap (read_decimal s) value in
    ground (arith, same)

read_decimal-decimal_digits :
    (f n : ℕ) (s : GoString)
    → n < f
    → (read_decimal (decimal_digits f n s) 0 ≡ read_decimal s n)
      × (begins (decimal_digits f n s) ≡ true)
unfolding decimal_digits
read_decimal-decimal_digits zero n s h = absurd (omega (arith, h))
read_decimal-decimal_digits (suc f) n s h = ground (
  arith,
  read_decimal-decimal_digits f (n / 10) ((48 + n % 10) ∷ s),
  read_decimal-digit (n % 10) 0 s,
  read_decimal-digit (n % 10) (n / 10) s,
)

decimal_value-begins : (s : GoString) → begins s ≡ true → decimal_value s ≡ read_decimal s 0
unfolding decimal_value
decimal_value-begins [] h = cc
decimal_value-begins (c ∷ s) h = refl

decimal_value-decimal : (n : ℕ) → decimal_value (decimal n) ≡ some n
unfolding decimal read_decimal
decimal_value-decimal n =
    let (value, start) = read_decimal-decimal_digits (n + 1) n [] (omega arith) in
    decimal_value-begins _ start ∙ value

below-small : (limit n : ℕ) → n < limit → below limit (some n) ≡ some n
unfolding below
below-small limit n h = ground arith

decimal-begins : (n : ℕ) → begins (decimal n) ≡ true
unfolding decimal
decimal-begins n = (read_decimal-decimal_digits (n + 1) n [] (omega arith)).1

-- `ParseUint` of the decimal digits of a number that fits is the number.
pub parse_uint-decimal : (n : ℕ) → n < 2 ^ 64 → parse_uint (decimal n) ≡ some n
unfolding parse_uint
parse_uint-decimal n h = ap (below (2 ^ 64)) (decimal_value-decimal n) ∙ below-small (2 ^ 64) n h

atoi-begins :
    (s : GoString) → begins s ≡ true → atoi s ≡ positive_int (below (2 ^ 63) (decimal_value s))
unfolding atoi
atoi-begins [] h = cc
atoi-begins (c ∷ s) h = ground arith

-- So is `Atoi`, of a number that is an `int`.
pub atoi-decimal : (n : ℕ) → n < 2 ^ 63 → atoi (decimal n) ≡ some (pos n)
atoi-decimal n h =
    atoi-begins (decimal n) (decimal-begins n)
    ∙ ap (λ o. positive_int (below (2 ^ 63) o)) (decimal_value-decimal n)
    ∙ ap positive_int (below-small (2 ^ 63) n h)

set_string-begins : (s : GoString) → begins s ≡ true → set_string s ≡ positive_int (decimal_value s)
unfolding set_string
set_string-begins [] h = cc
set_string-begins (c ∷ s) h = ground arith

-- `SetString` of the digits of a number, and of those after a sign, is the number.
pub set_string-decimal : (n : ℕ) → set_string (decimal n) ≡ some (pos n)
set_string-decimal n =
    set_string-begins (decimal n) (decimal-begins n) ∙ ap positive_int (decimal_value-decimal n)

pub set_string-minus : (n : ℕ) → set_string (b'-' ∷ decimal (suc n)) ≡ some (negsuc n)
unfolding set_string
set_string-minus n = ap negative_int (decimal_value-decimal (suc n)) ∙ ap some (negative n)
  where
    negative : (m : ℕ) → sub_ℕ 0 (suc m) ≡ negsuc m
    negative m = ground arith
