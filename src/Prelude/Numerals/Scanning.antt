-- ===== src/Prelude/Numerals/Scanning.antt =====
-- Reading back with `Sscanf` what `%x` writes.
use Prim.Native.Nat.{ℕ, zero, suc, ◌+◌, ◌*◌, ◌/◌, ◌%◌, ◌^◌, ◌≤◌, ◌<◌}
use mathlib.Core.Path.{◌≡◌, refl, ap, ◌∙◌}
use mathlib.Core.Bool.{Bool, true, false}
use mathlib.Core.Option.{none, some}
use mathlib.Core.List.{[], ◌∷◌}
use native.Mathlib.Omega.{arith}
use rpcnode.Prelude.Text.{GoString, hex_digit, has_prefix}
use rpcnode.Prelude.Bytes.{hex_value, hex_value-hex_digit}
use rpcnode.Prelude.Numerals.{
  hex_digits, hex_text, hex_of, read_hex, is_space, skip_space, scan_digits, scanned, scan_hex,
}

is_digit : ℕ → Bool
unfolding hex_value
is_digit c = elim (hex_value c) [ none ↦ false | some d ↦ true ]

-- whether a text begins with a hexadecimal digit
abbrev begins : GoString → Bool
begins [] = false
begins (c ∷ s) = is_digit c

read_hex-digit :
    (d acc : ℕ) (s : GoString) → d < 16 → read_hex (hex_digit d ∷ s) acc ≡ read_hex s (acc * 16 + d)
unfolding read_hex
read_hex-digit d acc s h = rw (hex_value-hex_digit d h, read_hex) refl

is_digit-hex_digit : (d : ℕ) → d < 16 → is_digit (hex_digit d) ≡ true
unfolding is_digit
is_digit-hex_digit d h = rw (hex_value-hex_digit d h, is_digit) refl

-- the digits of `n` before a text, read from the first on
read_hex-hex_digits :
    (f n : ℕ) (s : GoString)
    → n ≤ f
    → (read_hex (hex_digits (suc f) n s) 0 ≡ read_hex s n)
      × (begins (hex_digits (suc f) n s) ≡ true)
unfolding hex_digits
read_hex-hex_digits zero n s h =
    ground (arith, read_hex-digit (n % 16) 0 s, is_digit-hex_digit (n % 16))
read_hex-hex_digits (suc f) n s h = ground (
  arith,
  read_hex-hex_digits f (n / 16) (hex_digit (n % 16) ∷ s),
  read_hex-digit (n % 16) 0 s,
  read_hex-digit (n % 16) (n / 16) s,
  is_digit-hex_digit (n % 16),
)

skip_space-digit : (s : GoString) → begins s ≡ true → skip_space s ≡ s
unfolding skip_space is_space hex_value is_digit
skip_space-digit [] h = cc
skip_space-digit (c ∷ s) h = ground arith

scan_digits-digit : (s : GoString) → begins s ≡ true → scan_digits s ≡ some (read_hex s 0)
unfolding scan_digits is_digit
scan_digits-digit [] h = cc
scan_digits-digit (c ∷ s) h = ground arith

scanned-small : (n : ℕ) → n < 2 ^ 64 → scanned (some n) ≡ n
unfolding scanned
scanned-small n h = ground arith

-- Scanning what `0x%x` wrote of a number that fits gives the number.
pub scan_hex-hex_of : (n : ℕ) → n < 2 ^ 64 → scan_hex (hex_of n) ≡ n
unfolding scan_hex hex_of hex_text has_prefix
scan_hex-hex_of n h =
    let (value, start) = read_hex-hex_digits n n [] (omega arith) in
    let digits = hex_digits (suc n) n [] in
    let scan : scan_digits (skip_space digits) ≡ some n =
      ap scan_digits (skip_space-digit digits start)
      ∙ scan_digits-digit digits start
      ∙ ap some value in
    ap scanned scan ∙ scanned-small n h
