-- ===== src/Vm/Padded.antt =====
-- Words of 32 bytes (gpl/vm/vm.go): padding, the contract's storage and the ABI coding of a number.
use rpcnode.Prelude.{
  ℕ, zero, suc, ◌-◌, ◌/◌, ◌%◌, ◌^◌, ◌≤◌, ◌<◌, ◌≡◌, ◌≢◌, refl, sym, ap, ◌∙◌, GoString, hex_encode,
  Bool, true, false, List, [], ◌∷◌, ◌++◌, leb, ◌==◌, if◌then◌else◌, length, take, replicate, arith,
  length-append, length-replicate, length-take, str_eq, inl, inr, str_eq_iff, str_eq_refl,
  Bool-cases,
}
use rpcnode.Prelude.Bytes.{
  set_bytes, big_bytes, big_bytes_onto, AreBytes, hex_decode, hex_decode-hex_encode,
  set_bytes-zeros, set_bytes-big_bytes, length-big_bytes,
}
use rpcnode.Prelude.Dict.{lookup-insert}
use rpcnode.Vm.Types.{ContractAccount}
use rpcnode.Vm.Words.{pad_to_32}
use rpcnode.Vm.Contract.{storage_get, storage_set}

take_all : {A : Type 0} (n : ℕ) (xs : List A) → length xs ≤ n → take n xs ≡ xs
take_all zero [] h = refl
take_all zero (x ∷ xs) h = let no : ⊥ = omega (arith, h) in elim no [ ]
take_all (suc n) [] h = refl
take_all (suc n) (x ∷ xs) h = ap (λ ys. x ∷ ys) (take_all n xs (omega (arith, h)))

pub length-pad_to_32 : (b : GoString) → length (pad_to_32 b) ≡ 32
unfolding pad_to_32
length-pad_to_32 b = ground (
  arith,
  length-take 32 b,
  length-replicate {A = ℕ} (32 - length b) 0,
  length-append (replicate (32 - length b) 0) b,
)

-- A word of 32 bytes is left alone.
pad_to_32-full : (b : GoString) → length b ≡ 32 → pad_to_32 b ≡ b
unfolding pad_to_32
pad_to_32-full b h = ground (arith, take_all 32 b)

AreBytes-zeros : (n : ℕ) (b : GoString) → AreBytes b → AreBytes (replicate n 0 ++ b)
AreBytes-zeros zero b h = h
AreBytes-zeros (suc n) b h = (omega arith, AreBytes-zeros n b h)

AreBytes-take : (n : ℕ) (b : GoString) → AreBytes b → AreBytes (take n b)
AreBytes-take zero b h = tt
AreBytes-take (suc n) [] h = tt
AreBytes-take (suc n) (x ∷ b) h = (h.0, AreBytes-take n b h.1)

AreBytes-onto : (f n : ℕ) (acc : GoString) → AreBytes acc → AreBytes (big_bytes_onto f n acc)
unfolding big_bytes_onto
AreBytes-onto zero n acc h = h
AreBytes-onto (suc f) n acc h =
    go (n == 0) (AreBytes-onto f (n / 256) (n % 256 ∷ acc) (omega arith, h))
  where
    go :
        (b : Bool)
        → AreBytes (big_bytes_onto f (n / 256) (n % 256 ∷ acc))
        → AreBytes (if b then acc else big_bytes_onto f (n / 256) (n % 256 ∷ acc))
    go true r = h
    go false r = r

pub AreBytes-big_bytes : (n : ℕ) → AreBytes (big_bytes n)
unfolding big_bytes
AreBytes-big_bytes n = AreBytes-onto n n [] tt

pub AreBytes-pad_to_32 : (b : GoString) → AreBytes b → AreBytes (pad_to_32 b)
unfolding pad_to_32
AreBytes-pad_to_32 b h = go (leb 32 (length b))
  where
    go : (t : Bool) → AreBytes (if t then take 32 b else replicate (32 - length b) 0 ++ b)
    go true = AreBytes-take 32 b h
    go false = AreBytes-zeros (32 - length b) b h

-- Padding a number of at most 32 bytes keeps its value.
set_bytes-pad_to_32 : (b : GoString) → length b ≤ 32 → set_bytes (pad_to_32 b) 0 ≡ set_bytes b 0
unfolding pad_to_32
set_bytes-pad_to_32 b h = ground (arith, take_all 32 b, set_bytes-zeros (32 - length b) b)

-- the word of a number below 2 ^ 256
pub set_bytes-word : (n : ℕ) → n < 2 ^ 256 → set_bytes (pad_to_32 (big_bytes n)) 0 ≡ n
set_bytes-word n h =
    set_bytes-pad_to_32 (big_bytes n) (length-big_bytes n 32 h) ∙ set_bytes-big_bytes n

-- A word that was stored is what the storage gives under its key.
pub storage_get-storage_set :
    (key word : GoString) (ca : ContractAccount)
    → AreBytes word
    → length word ≡ 32
    → storage_get key (storage_set key word ca) ≡ word
unfolding storage_get storage_set
storage_get-storage_set key word ca h len =
    rw
      (
        lookup-insert (hex_encode key) (hex_encode key) (hex_encode word) ca.storage,
        str_eq_refl (hex_encode key),
        hex_decode-hex_encode word h,
      )
      (pad_to_32-full word len)

-- The words under other keys are as they were.
storage_set-other :
    (key other word : GoString) (ca : ContractAccount)
    → AreBytes key
    → AreBytes other
    → key ≢ other
    → storage_get other (storage_set key word ca) ≡ storage_get other ca
unfolding storage_get storage_set
storage_set-other key other word ca h g ne =
    elim (Bool-cases (str_eq (hex_encode key) (hex_encode other))) [
      | inl e ↦
          let alike : hex_encode key ≡ hex_encode other =
            (str_eq_iff (hex_encode key) (hex_encode other)).0 e in
          elim (ne (
            sym (hex_decode-hex_encode key h)
            ∙ ap hex_decode alike
            ∙ hex_decode-hex_encode other g)) [ ]
      | inr e ↦
          rw (lookup-insert (hex_encode other) (hex_encode key) (hex_encode word) ca.storage, e)
            refl
    ]
