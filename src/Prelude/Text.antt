-- ===== src/Prelude/Text.antt =====
-- Go strings and byte slices: both are sequences of bytes, here lists of numbers. What the source
-- takes of `strings`, `fmt` and `encoding/hex` on them.
pub mod Lengths
use Prim.Native.Nat.{ℕ, zero, suc, ◌+◌, ◌/◌, ◌%◌}
use Prim.Native.Char.{code}
use Prim.Native.String.{String}
use mathlib.Core.Path.{◌≡◌, refl}
use mathlib.Core.Logic.{◌↔◌, ◌≢◌}
use mathlib.Core.Bool.{Bool, true, false, ◌&&◌}
use mathlib.Core.List.{List, [], ◌∷◌, ◌++◌, map}
use native.Mathlib.Omega.{arith}
use rpcnode.Prelude.Tests.{ltb, leb, ◌==◌, if◌then◌else◌}

abbrev pub GoString : Type 0
GoString = List ℕ

-- The bytes of an ASCII literal.
abbrev pub bytes : String → GoString
bytes String.[] = []
bytes (String.◌∷◌ c s) = code c ∷ bytes s

-- `a == b` on strings
unfoldable pub str_eq : GoString → GoString → Bool
str_eq [] [] = true
str_eq [] (b ∷ bs) = false
str_eq (a ∷ as') [] = false
str_eq (a ∷ as') (b ∷ bs) = (a == b) && str_eq as' bs

str_eq-eq : (a b : GoString) → str_eq a b ≡ true → a ≡ b
unfolding str_eq
str_eq-eq [] [] h = refl
str_eq-eq [] (b ∷ bs) h = cc
str_eq-eq (a ∷ as') [] h = cc
str_eq-eq (a ∷ as') (b ∷ bs) h = ground (arith, str_eq-eq as' bs)

pub str_eq_refl : (a : GoString) → str_eq a a ≡ true
unfolding str_eq
str_eq_refl [] = refl
str_eq_refl (a ∷ as') = ground (arith, str_eq_refl as')

eq-str_eq : (a b : GoString) → a ≡ b → str_eq a b ≡ true
eq-str_eq a b h = rw h (str_eq_refl b)

pub str_eq_iff : (a b : GoString) → (str_eq a b ≡ true) ↔ (a ≡ b)
str_eq_iff a b = (str_eq-eq a b, eq-str_eq a b)

-- `strings.HasPrefix(s, p)`, the prefix first
unfoldable pub has_prefix : GoString → GoString → Bool
has_prefix [] s = true
has_prefix (p ∷ ps) [] = false
has_prefix (p ∷ ps) (c ∷ s) = (p == c) && has_prefix ps s

pub has_prefix-append : (p s : GoString) → has_prefix p (p ++ s) ≡ true
unfolding has_prefix
has_prefix-append [] s = refl
has_prefix-append (p ∷ ps) s = ground (arith, has_prefix-append ps s)

pub append_left_cancel : (p a b : GoString) → p ++ a ≡ p ++ b → a ≡ b
append_left_cancel [] a b h = h
append_left_cancel (x ∷ p) a b h = append_left_cancel p a b (ground arith)

unfoldable pub decimal_digits : ℕ → ℕ → GoString → GoString
decimal_digits zero n acc = acc
decimal_digits (suc f) n acc =
    let digit = (48 + n % 10) ∷ acc in
    let rest = decimal_digits f (n / 10) digit in if ltb n 10 then digit else rest

-- `%d` of an unsigned number; `n + 1` rounds are more than it has digits
unfoldable pub decimal : ℕ → GoString
unfolding decimal_digits
decimal n = decimal_digits (n + 1) n []

unfoldable pub hex_digit : ℕ → ℕ
hex_digit d = if ltb d 10 then 48 + d else 87 + d

-- `hex.EncodeToString`
unfoldable pub hex_encode : GoString → GoString
unfolding hex_digit
hex_encode [] = []
hex_encode (b ∷ bs) = hex_digit (b / 16) ∷ hex_digit (b % 16) ∷ hex_encode bs

lower_byte : ℕ → ℕ
lower_byte c = if leb 65 c && leb c 90 then c + 32 else c

-- `strings.ToLower` on ASCII text
unfoldable pub ascii_lower : GoString → GoString
unfolding lower_byte
ascii_lower = map lower_byte

pub str_eq-append_left : (p a b : GoString) → str_eq (p ++ a) (p ++ b) ≡ str_eq a b
unfolding str_eq
str_eq-append_left [] a b = refl
str_eq-append_left (x ∷ p) a b = ground (arith, str_eq-append_left p a b)

-- no `/` in a text
abbrev pub SlashFree : GoString → Type 0
SlashFree [] = Unit
SlashFree (c ∷ s) = (c ≢ b'/') × SlashFree s

hex_digit_slash : (d : ℕ) → hex_digit d ≢ b'/'
unfolding hex_digit
hex_digit_slash d = ground arith

pub hex_encode-SlashFree : (s : GoString) → SlashFree (hex_encode s)
unfolding hex_encode
hex_encode-SlashFree [] = tt
hex_encode-SlashFree (b ∷ s) =
    (hex_digit_slash (b / 16), (hex_digit_slash (b % 16), hex_encode-SlashFree s))
