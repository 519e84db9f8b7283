-- ===== src/Prelude/Bytes.antt =====
-- Numbers as big-endian bytes, as `big.Int.Bytes` and `big.Int.SetBytes` have them, and the decoding of
-- hexadecimal text by `hex.DecodeString`.
use Prim.Native.Nat.{ℕ, zero, suc, ◌+◌, ◌-◌, ◌*◌, ◌/◌, ◌%◌, ◌^◌, ◌≤◌, ◌<◌}
use mathlib.Core.Path.{◌≡◌, refl, ap}
use mathlib.Core.Bool.{◌&&◌}
use mathlib.Core.Option.{Option, none, some}
use mathlib.Core.List.{[], ◌∷◌, ◌++◌}
use native.Mathlib.Omega.{arith}
use rpcnode.Prelude.Tests.{leb, ◌==◌, if◌then◌else◌}
use rpcnode.Prelude.Lists.{length, replicate}
use rpcnode.Prelude.Text.{GoString, hex_encode, hex_digit}
use native.Mathlib.Numerals.{unary_clauses}

-- `SetBytes`
unfoldable pub set_bytes : GoString → ℕ → ℕ
set_bytes [] acc = acc
set_bytes (b ∷ bs) acc = set_bytes bs (acc * 256 + b)

-- the bytes of `n` before `acc`; a round for each byte
unfoldable pub big_bytes_onto : ℕ → ℕ → GoString → GoString
big_bytes_onto zero n acc = acc
big_bytes_onto (suc f) n acc =
    let rest = big_bytes_onto f (n / 256) (n % 256 ∷ acc) in if n == 0 then acc else rest

-- `Bytes` of a number: no leading zero; `n` rounds are more than it has bytes
unfoldable pub big_bytes : ℕ → GoString
big_bytes n = big_bytes_onto n n []

set_bytes-onto :
    (f n : ℕ) (acc : GoString) → n ≤ f → set_bytes (big_bytes_onto f n acc) 0 ≡ set_bytes acc n
unfolding big_bytes_onto set_bytes
set_bytes-onto zero n acc h = ground arith
set_bytes-onto (suc f) n acc h = ground (arith, set_bytes-onto f (n / 256) (n % 256 ∷ acc))

-- Reading back the bytes of a number gives the number.
pub set_bytes-big_bytes : (n : ℕ) → set_bytes (big_bytes n) 0 ≡ n
unfolding big_bytes set_bytes
set_bytes-big_bytes n = set_bytes-onto n n [] (omega arith)

length-onto :
    (f n k : ℕ) (acc : GoString) → n < 256 ^ k → length (big_bytes_onto f n acc) ≤ k + length acc
unfolding big_bytes_onto
length-onto zero n k acc h = omega arith
length-onto (suc f) n zero acc h = ground arith
length-onto (suc f) n (suc k) acc h =
    let power : 256 ^ suc k ≡ 256 ^ k * 256 = simp unary_clauses in
    let less : n / 256 < 256 ^ k = omega (arith, power) in
    ground (arith, length-onto f (n / 256) k (n % 256 ∷ acc) less)

-- A number below 256 ^ k has at most k bytes.
pub length-big_bytes : (n k : ℕ) → n < 256 ^ k → length (big_bytes n) ≤ k
unfolding big_bytes
length-big_bytes n k h = omega (arith, length-onto n n k [] h)

pub set_bytes-zeros : (k : ℕ) (bs : GoString) → set_bytes (replicate k 0 ++ bs) 0 ≡ set_bytes bs 0
unfolding set_bytes
set_bytes-zeros zero bs = refl
set_bytes-zeros (suc k) bs = set_bytes-zeros k bs

-- the value of a hexadecimal digit
unfoldable pub hex_value : ℕ → Option ℕ
hex_value c =
    if leb 48 c && leb c 57
    then some (c - 48)
    else if leb 97 c && leb c 102
    then some (c - 87)
    else if leb 65 c && leb c 70
    then some (c - 55)
    else none

abbrev pub with_byte : Option ℕ → Option ℕ → GoString → GoString
with_byte (some a) (some b) rest = (a * 16 + b) ∷ rest
with_byte _ _ rest = []

-- `raw, _ = hex.DecodeString(s)`: the bytes before the first pair that is none
unfoldable pub hex_decode : GoString → GoString
hex_decode [] = []
hex_decode (a ∷ []) = []
hex_decode (a ∷ b ∷ s) = with_byte (hex_value a) (hex_value b) (hex_decode s)

abbrev pub AreBytes : GoString → Type 0
AreBytes [] = Unit
AreBytes (b ∷ bs) = (b < 256) × AreBytes bs

pub hex_value-hex_digit : (d : ℕ) → d < 16 → hex_value (hex_digit d) ≡ some d
unfolding hex_value hex_digit
hex_value-hex_digit d h = ground arith

whole : (b : ℕ) → b / 16 * 16 + b % 16 ≡ b
whole b = omega arith

-- Decoding what was encoded gives the bytes back.
pub hex_decode-hex_encode : (s : GoString) → AreBytes s → hex_decode (hex_encode s) ≡ s
unfolding hex_decode hex_encode
hex_decode-hex_encode [] h = refl
hex_decode-hex_encode (b ∷ s) h =
    rw
      (
        hex_value-hex_digit (b / 16) (omega arith),
        hex_value-hex_digit (b % 16) (omega arith),
        hex_decode-hex_encode s h.1,
      )
      (ap (λ x. x ∷ s) (whole b))
