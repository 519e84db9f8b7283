-- ===== src/Vm/Abi.antt =====
-- The ABI helpers of gpl/vm/vm.go and `Uint64ToBytes`.
use rpcnode.Prelude.{
  Bool, true, false, ℕ, zero, suc, ◌+◌, ◌-◌, ◌*◌, ◌/◌, ◌%◌, ◌^◌, ◌≤◌, ◌<◌, ◌≡◌, refl, sym, ap, ◌∙◌,
  GoString, Option, none, some, List, [], ◌∷◌, ◌++◌, ltb, if◌then◌else◌, length, take, drop,
  replicate, get_elem?, length-append, length-take, arith,
}
use native.Mathlib.Numerals.{unary_clauses}
use rpcnode.Prelude.Bytes.{set_bytes, big_bytes}
use rpcnode.Prelude.Int.{ℤ, pos}
use rpcnode.Vm.Words.{pad_to_32, bytes_of}
use rpcnode.Vm.Padded.{length-pad_to_32, set_bytes-word}

unfoldable pub encode_uint256 : ℤ → GoString
encode_uint256 n = pad_to_32 (bytes_of n)

abbrev padded : GoString → GoString
padded b = if ltb (length b) 32 then replicate (32 - length b) 0 ++ b else b

-- of a longer input the first 32 bytes
unfoldable pub decode_uint256 : GoString → ℕ
decode_uint256 b = set_bytes (take 32 (padded b)) 0

unfoldable pub encode_selector : (GoString → GoString) → GoString → GoString
encode_selector sha256 sig = take 4 (sha256 sig)

abbrev pub encode_args : List ℤ → GoString
encode_args [] = []
encode_args (arg ∷ args) = encode_uint256 arg ++ encode_args args

-- a selector of fewer than 4 bytes, taken to have no more capacity, is a panic
unfoldable pub encode_calldata : GoString → List ℤ → Option GoString
encode_calldata selector args =
    if ltb (length selector) 4 then none else some (take 4 selector ++ encode_args args)

abbrev big_endian : ℕ → ℕ → GoString
big_endian zero n = []
big_endian (suc k) n = big_endian k (n / 256) ++ n % 256 ∷ []

unfoldable pub uint64_to_bytes : ℕ → GoString
uint64_to_bytes n = big_endian 8 n

take_exact : {A : Type 0} (n : ℕ) (xs ys : List A) → length xs ≡ n → take n (xs ++ ys) ≡ xs
take_exact zero [] ys h = refl
take_exact zero (x ∷ xs) ys h = let no : ⊥ = omega (arith, h) in elim no [ ]
take_exact (suc n) [] ys h = let no : ⊥ = omega (arith, h) in elim no [ ]
take_exact (suc n) (x ∷ xs) ys h = ap (λ zs. x ∷ zs) (take_exact n xs ys (omega (arith, h)))

drop_exact :
    {A : Type 0} (n i : ℕ) (xs ys : List A) → length xs ≡ n → drop (n + i) (xs ++ ys) ≡ drop i ys
drop_exact zero i [] ys h = let none_first : 0 + i ≡ i = omega arith in rw none_first refl
drop_exact zero i (x ∷ xs) ys h = let no : ⊥ = omega (arith, h) in elim no [ ]
drop_exact (suc n) i [] ys h = let no : ⊥ = omega (arith, h) in elim no [ ]
drop_exact (suc n) i (x ∷ xs) ys h =
    let next : suc n + i ≡ suc (n + i) = omega arith in
    rw next (drop_exact n i xs ys (omega (arith, h)))

padded_long : (b : GoString) → 32 ≤ length b → padded b ≡ b
padded_long b h = ground arith

first_word : (w rest : GoString) → length w ≡ 32 → decode_uint256 (w ++ rest) ≡ set_bytes w 0
unfolding decode_uint256
first_word w rest h =
    let long : 32 ≤ length (w ++ rest) = omega (arith, length-append w rest, h) in
    rw (padded_long (w ++ rest) long, take_exact 32 w rest h) refl

decode_first :
    (n : ℕ) (rest : GoString) → n < 2 ^ 256 → decode_uint256 (encode_uint256 (pos n) ++ rest) ≡ n
unfolding encode_uint256
decode_first n rest h =
    first_word (pad_to_32 (big_bytes n)) rest (length-pad_to_32 (big_bytes n)) ∙ set_bytes-word n h

-- the argument `i` of the calldata is in place and below 2 ^ 256
nth_arg :
    (i n : ℕ) (args : List ℤ)
    → get_elem? args i ≡ some (pos n)
    → n < 2 ^ 256
    → decode_uint256 (drop (32 * i) (encode_args args)) ≡ n
unfolding encode_uint256
nth_arg i n [] e h = cc
nth_arg zero n (a ∷ args) e h =
    let same : a ≡ pos n = cc in rw same (decode_first n (encode_args args) h)
nth_arg (suc i) n (a ∷ args) e h =
    let place : 32 * suc i ≡ 32 + 32 * i = omega arith in
    rw
      (
        place,
        drop_exact 32 (32 * i) (encode_uint256 a) (encode_args args)
            (length-pad_to_32 (bytes_of a)),
      )
      (nth_arg i n args e h)

-- A number below 2 ^ 256 that is an argument of the calldata, in the place that its position gives, is
-- decoded from there; so it is from its own encoding. The selector has 4 bytes or more.
pub decode_uint256-encode_calldata :
    (selector data' : GoString) (args : List ℤ) (i n : ℕ)
    → encode_calldata selector args ≡ some data'
    → get_elem? args i ≡ some (pos n)
    → n < 2 ^ 256
    → decode_uint256 (drop (4 + 32 * i) data') ≡ n
unfolding encode_calldata
decode_uint256-encode_calldata selector data' args i n c e h = go (ltb (length selector) 4) refl c
  where
    placed :
        4 ≤ length selector
        → decode_uint256 (drop (4 + 32 * i) (take 4 selector ++ encode_args args)) ≡ n
    placed long =
        let four : length (take 4 selector) ≡ 4 = omega (arith, length-take 4 selector, long) in
        rw (drop_exact 4 (32 * i) (take 4 selector) (encode_args args) four) (nth_arg i n args e h)

    go :
        (b : Bool)
        → ltb (length selector) 4 ≡ b
        → (if b then none else some (take 4 selector ++ encode_args args)) ≡ some data'
        → decode_uint256 (drop (4 + 32 * i) data') ≡ n
    go true t c = cc
    go false f c =
        let long : 4 ≤ length selector = ground arith in
        let whole : take 4 selector ++ encode_args args ≡ data' = cc in rw (sym whole) (placed long)

set_bytes-snoc :
    (xs : GoString) (b acc : ℕ) → set_bytes (xs ++ b ∷ []) acc ≡ set_bytes xs acc * 256 + b
unfolding set_bytes
set_bytes-snoc [] b acc = refl
set_bytes-snoc (x ∷ xs) b acc = set_bytes-snoc xs b (acc * 256 + x)

set_bytes-big_endian : (k n : ℕ) → n < 256 ^ k → set_bytes (big_endian k n) 0 ≡ n
unfolding set_bytes
set_bytes-big_endian zero n h = omega (arith, h)
set_bytes-big_endian (suc k) n h =
    let power : 256 ^ suc k ≡ 256 ^ k * 256 = simp unary_clauses in
    let less : n / 256 < 256 ^ k = omega (arith, power) in
    omega (
      arith,
      set_bytes-snoc (big_endian k (n / 256)) (n % 256) 0,
      set_bytes-big_endian k (n / 256) less,
    )

-- The bytes of a 64-bit number give the number back.
set_bytes-uint64_to_bytes : (n : ℕ) → n < 2 ^ 64 → set_bytes (uint64_to_bytes n) 0 ≡ n
unfolding uint64_to_bytes
set_bytes-uint64_to_bytes n h = set_bytes-big_endian 8 n h
