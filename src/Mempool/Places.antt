-- ===== src/Mempool/Places.antt =====
-- The places that the entries of mempool/mempool.go hold of themselves, under the moves of the heap.
use rpcnode.Prelude.{
  ℕ, zero, suc, ◌≡◌, ◌≢◌, ◌⊎◌, inl, inr, refl, sym, ap, ◌∙◌, Option, none, some, List, [], ◌∷◌,
  ◌==◌, get_elem?, arith, Bool-cases,
}
use rpcnode.Mempool.Types.{Entry}
use rpcnode.Mempool.Heap.{TxHeap, set, with_index, exchange}

abbrev pub index_of : Option Entry → Option ℕ
index_of none = none
index_of (some e) = e.heap_index

-- the entry at a place of the heap says that it is there
abbrev pub IsPlaced : TxHeap → Type 0
IsPlaced h = (k id : ℕ) → get_elem? h.ids k ≡ some id → index_of (get_elem? h.entries id) ≡ some k

with_index-same :
    (es : List Entry) (id i : ℕ) (place : Option ℕ)
    → index_of (get_elem? es id) ≡ some i
    → index_of (get_elem? (with_index es id place) id) ≡ place
with_index-same [] id i place h = cc
with_index-same (e ∷ es) zero i place h = refl
with_index-same (e ∷ es) (suc id) i place h = with_index-same es id i place h

pub with_index-other :
    (es : List Entry) (id k : ℕ) (place : Option ℕ)
    → id ≢ k
    → get_elem? (with_index es id place) k ≡ get_elem? es k
with_index-other [] id k place ne = refl
with_index-other (e ∷ es) zero zero place ne = elim (ne refl) [ ]
with_index-other (e ∷ es) zero (suc k) place ne = refl
with_index-other (e ∷ es) (suc id) zero place ne = refl
with_index-other (e ∷ es) (suc id) (suc k) place ne =
    with_index-other es id k place (omega (arith, ne))

set-same : (xs : List ℕ) (i a v : ℕ) → get_elem? xs i ≡ some a → get_elem? (set xs i v) i ≡ some v
set-same [] i a v h = cc
set-same (x ∷ xs) zero a v h = refl
set-same (x ∷ xs) (suc i) a v h = set-same xs i a v h

set-other : (xs : List ℕ) (i k v : ℕ) → i ≢ k → get_elem? (set xs i v) k ≡ get_elem? xs k
set-other [] i k v ne = refl
set-other (x ∷ xs) zero zero v ne = elim (ne refl) [ ]
set-other (x ∷ xs) zero (suc k) v ne = refl
set-other (x ∷ xs) (suc i) zero v ne = refl
set-other (x ∷ xs) (suc i) (suc k) v ne = set-other xs i k v (omega (arith, ne))

-- two places of one entry are one
pub one_place :
    (h : TxHeap) (i k a b : ℕ)
    → IsPlaced h
    → get_elem? h.ids i ≡ some a
    → get_elem? h.ids k ≡ some b
    → i ≢ k
    → a ≢ b
one_place h i k a b p ha hb ne e = let first = p i a ha in let second = p k b hb in ne cc

equal_or_not : (m n : ℕ) → (m ≡ n) ⊎ (m ≢ n)
equal_or_not m n = elim (Bool-cases (m == n)) [
  | inl t ↦ inl (ground arith)
  | inr f ↦ inr (ground arith)
]

module _ (h : TxHeap) (i j a b : ℕ) (ha : get_elem? h.ids i ≡ some a)
    (hb : get_elem? h.ids j ≡ some b) (p : IsPlaced h) where
  -- after the first of the two writes
  written : index_of (get_elem? (with_index h.entries b (some i)) a) ≡ some i
  written = elim (equal_or_not b a) [
    | inl e ↦ let s = with_index-same h.entries b j (some i) (p j b hb) in cc
    | inr ne ↦ ap index_of (with_index-other h.entries b a (some i) ne) ∙ p i a ha
  ]

  second_place : get_elem? (set h.ids i b) j ≡ some b
  second_place = elim (equal_or_not i j) [
    | inl e ↦ let s = set-same h.ids i a b ha in cc
    | inr ne ↦ set-other h.ids i j b ne ∙ hb
  ]

  abbrev exchanged : TxHeap
  exchanged = exchange h i j (some a) (some b)

  abbrev Holds : ℕ → ℕ → Type 0
  Holds k id = index_of (get_elem? exchanged.entries id) ≡ some k

  at_second : Holds j a
  at_second = with_index-same (with_index h.entries b (some i)) a i (some j) written

  at_first : i ≢ j → Holds i b
  at_first ne =
      ap index_of (
        with_index-other (with_index h.entries b (some i)) a b (some j)
          (one_place h i j a b p ha hb ne))
      ∙ with_index-same h.entries b j (some i) (p j b hb)

  elsewhere : (k id : ℕ) → i ≢ k → j ≢ k → get_elem? h.ids k ≡ some id → Holds k id
  elsewhere k id ni nj at =
      ap index_of (
        with_index-other (with_index h.entries b (some i)) a id (some j)
          (one_place h i k a id p ha at ni)
        ∙ with_index-other h.entries b id (some i) (one_place h j k b id p hb at nj))
      ∙ p k id at

  pub exchange-IsPlaced : IsPlaced exchanged
  exchange-IsPlaced k id at = elim (equal_or_not j k) [
    | inl e ↦
        let s = set-same (set h.ids i b) j b a second_place in
        let held = at_second in let same : a ≡ id = cc in cc
    | inr nj ↦ elim (equal_or_not i k) [
      | inl e ↦
          let s = set-same h.ids i a b ha in
          let o = set-other (set h.ids i b) j k a nj in
          let held = at_first (omega (arith, nj, e)) in let same : b ≡ id = cc in cc
      | inr ni ↦
          elsewhere k id ni nj
            (sym (set-other (set h.ids i b) j k a nj ∙ set-other h.ids i k b ni) ∙ at)
    ]
  ]
