-- ===== src/Prelude/Numerals.antt =====
-- Numbers as text, the way `fmt` and `strconv` write and read them: `%x`, `Sscanf` with "0x%x",
-- `ParseUint` and `Atoi`. Texts are ASCII.
pub mod Scanning
pub mod Decimals
use Prim.Native.Nat.{ℕ, zero, suc, ◌+◌, ◌-◌, ◌*◌, ◌/◌, ◌%◌, ◌^◌, ◌≤◌, ◌<◌}
use mathlib.Core.Path.{◌≡◌, refl, ap, ◌∙◌}
use mathlib.Core.Bool.{Bool, true, false, ◌&&◌, ◌||◌}
use mathlib.Core.Option.{Option, none, some}
use mathlib.Core.List.{List, [], ◌∷◌, ◌++◌}
use native.Mathlib.Omega.{arith}
use rpcnode.Prelude.Tests.{ltb, leb, ◌==◌, if◌then◌else◌}
use rpcnode.Prelude.Lists.{drop}
use rpcnode.Prelude.Text.{GoString, bytes, hex_digit, has_prefix}
use rpcnode.Prelude.Bytes.{hex_value}
use rpcnode.Prelude.Int.{ℤ, pos, negsuc, sub_ℕ}

hex_digits : ℕ → ℕ → GoString → GoString
hex_digits zero n acc = acc
hex_digits (suc f) n acc =
    let digits = hex_digit (n % 16) ∷ acc in
    let rest = hex_digits f (n / 16) digits in if ltb n 16 then digits else rest

-- `%x` of an unsigned number; `suc n` rounds are more than it has digits
unfoldable pub hex_text : ℕ → GoString
unfolding hex_digits hex_digit
hex_text n = hex_digits (suc n) n []

-- `0x%x` of an unsigned and of a signed number
unfoldable pub hex_of : ℕ → GoString
unfolding hex_text
hex_of n = bytes "0x" ++ hex_text n

unfoldable pub hex_of_int : ℤ → GoString
unfolding hex_text
hex_of_int (pos n) = bytes "0x" ++ hex_text n
hex_of_int (negsuc n) = bytes "0x-" ++ hex_text (suc n)

-- the number that the longest prefix of hexadecimal digits spells after the digits of `acc`
read_hex : GoString → ℕ → ℕ
unfolding hex_value
read_hex [] acc = acc
read_hex (c ∷ s) acc = elim (hex_value c) [ none ↦ acc | some d ↦ read_hex s (acc * 16 + d) ]

-- `SkipSpace`; a newline ends the scan with an error, as any other byte that is no digit does
is_space : ℕ → Bool
is_space c = (c == 9) || (c == 11) || (c == 12) || (c == 13) || (c == 32)

skip_space : GoString → GoString
skip_space [] = []
skip_space (c ∷ s) = let rest = skip_space s in if is_space c then rest else c ∷ s

scan_digits : GoString → Option ℕ
unfolding hex_value
scan_digits [] = none
scan_digits (c ∷ s) = elim (hex_value c) [ none ↦ none | some d ↦ some (read_hex (c ∷ s) 0) ]

-- a `uint64` that is 0 stays so where the scan fails or the number does not fit
scanned : Option ℕ → ℕ
scanned none = 0
scanned (some n) = if ltb n (2 ^ 64) then n else 0

-- `var num uint64; fmt.Sscanf(s, "0x%x", &num)`; what follows the digits is ignored
unfoldable pub scan_hex : GoString → ℕ
unfolding scanned scan_digits skip_space read_hex is_space has_prefix
scan_hex s = if has_prefix (bytes "0x") s then scanned (scan_digits (skip_space (drop 2 s))) else 0

read_decimal : GoString → ℕ → Option ℕ
read_decimal [] acc = some acc
read_decimal (c ∷ s) acc =
    let rest = read_decimal s (acc * 10 + (c - 48)) in if leb 48 c && leb c 57 then rest else none

-- one digit or more, and nothing else
decimal_value : GoString → Option ℕ
unfolding read_decimal
decimal_value [] = none
decimal_value (c ∷ s) = read_decimal (c ∷ s) 0

below : ℕ → Option ℕ → Option ℕ
below limit none = none
below limit (some n) = if ltb n limit then some n else none

-- `strconv.ParseUint(s, 10, 64)`
unfoldable pub parse_uint : GoString → Option ℕ
unfolding decimal_value below
parse_uint s = below (2 ^ 64) (decimal_value s)

abbrev positive_int : Option ℕ → Option ℤ
positive_int none = none
positive_int (some n) = some (pos n)

abbrev negative_int : Option ℕ → Option ℤ
negative_int none = none
negative_int (some n) = some (sub_ℕ 0 n)

-- `SetString(s, 10)` of a `*big.Int`
unfoldable pub set_string : GoString → Option ℤ
unfolding decimal_value
set_string [] = none
set_string (c ∷ s) =
    if c == b'-'
    then negative_int (decimal_value s)
    else positive_int (decimal_value (if c == b'+' then s else c ∷ s))

-- `strconv.Atoi(s)` and `strconv.ParseInt(s, 10, 64)`
unfoldable pub atoi : GoString → Option ℤ
unfolding decimal_value below
atoi [] = none
atoi (c ∷ s) =
    if c == b'-'
    then negative_int (below (2 ^ 63 + 1) (decimal_value s))
    else positive_int (below (2 ^ 63) (decimal_value (if c == b'+' then s else c ∷ s)))
