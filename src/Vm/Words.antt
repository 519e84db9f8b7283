-- ===== src/Vm/Words.antt =====
-- What gpl/vm/vm.go takes of `math/big`, with negative numbers in two's complement, and its own
-- `padTo32` and `addrToWord`.
use Prim.Native.Nat.{bit_and, bit_or, bit_xor}
use rpcnode.Prelude.{
  ℕ, suc, ◌-◌, ◌*◌, ◌%◌, ◌^◌, GoString, Option, none, some, ◌∷◌, ◌++◌, leb, if◌then◌else◌, length,
  take, replicate,
}
use rpcnode.Prelude.Bytes.{big_bytes, hex_decode}
use rpcnode.Prelude.Int.{ℤ, pos, negsuc, ◌-ℤ◌, div_pos}

-- `x.Abs`, whose bytes `x.Bytes()` has
abbrev pub magnitude : ℤ → ℕ
magnitude (pos n) = n
magnitude (negsuc n) = suc n

-- `x.Uint64()`: the low 64 bits of the magnitude
unfoldable pub low_64 : ℤ → ℕ
low_64 z = magnitude z % 2 ^ 64

-- `Div` and `Mod` by a number other than 0: the remainder is never negative
unfoldable pub div_euclid : ℤ → ℤ → ℤ
div_euclid a (pos d) = div_pos a d
div_euclid a (negsuc d) = pos 0 -ℤ div_pos a (suc d)

abbrev mod_ℕ : ℤ → ℕ → ℕ
mod_ℕ (pos n) d = n % d
mod_ℕ (negsuc n) d = d - 1 - n % d

unfoldable pub mod_euclid : ℤ → ℤ → ℤ
mod_euclid a b = pos (mod_ℕ a (magnitude b))

-- the bits of `a` that `b` has not
abbrev and_not : ℕ → ℕ → ℕ
and_not a b = a - bit_and a b

unfoldable pub and_ℤ : ℤ → ℤ → ℤ
and_ℤ (pos a) (pos b) = pos (bit_and a b)
and_ℤ (pos a) (negsuc b) = pos (and_not a b)
and_ℤ (negsuc a) (pos b) = pos (and_not b a)
and_ℤ (negsuc a) (negsuc b) = negsuc (bit_or a b)

unfoldable pub or_ℤ : ℤ → ℤ → ℤ
or_ℤ (pos a) (pos b) = pos (bit_or a b)
or_ℤ (pos a) (negsuc b) = negsuc (and_not b a)
or_ℤ (negsuc a) (pos b) = negsuc (and_not a b)
or_ℤ (negsuc a) (negsuc b) = negsuc (bit_and a b)

unfoldable pub xor_ℤ : ℤ → ℤ → ℤ
xor_ℤ (pos a) (pos b) = pos (bit_xor a b)
xor_ℤ (pos a) (negsuc b) = negsuc (bit_xor a b)
xor_ℤ (negsuc a) (pos b) = negsuc (bit_xor a b)
xor_ℤ (negsuc a) (negsuc b) = pos (bit_xor a b)

unfoldable pub not_ℤ : ℤ → ℤ
not_ℤ (pos n) = negsuc n
not_ℤ (negsuc n) = pos n

-- `Lsh` and `Rsh`
unfoldable pub shift_left : ℤ → ℕ → ℤ
shift_left (pos n) s = pos (n * 2 ^ s)
shift_left (negsuc n) s = negsuc (suc n * 2 ^ s - 1)

unfoldable pub shift_right : ℤ → ℕ → ℤ
shift_right z s = div_pos z (2 ^ s)

-- `padTo32`: of more than 32 bytes the first 32
unfoldable pub pad_to_32 : GoString → GoString
pad_to_32 b = if leb 32 (length b) then take 32 b else replicate (32 - length b) 0 ++ b

-- `val.Bytes()` of a number with its sign
abbrev pub bytes_of : ℤ → GoString
bytes_of z = big_bytes (magnitude z)

-- `addrToWord`: strips two bytes, and panics where there are not two
unfoldable pub addr_to_word : GoString → Option GoString
addr_to_word (a ∷ b ∷ rest) = some (pad_to_32 (hex_decode rest))
addr_to_word _ = none
