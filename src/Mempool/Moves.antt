-- ===== src/Mempool/Moves.antt =====
-- The moves of the heap of mempool/mempool.go keep what the entries say of their places.
use rpcnode.Prelude.{
  ℕ, zero, suc, ◌+◌, ◌-◌, ◌*◌, ◌/◌, ◌<◌, ◌≡◌, ◌⊎◌, inl, inr, refl, ap, ◌∙◌, Bool, true, false, not,
  ◌||◌, Option, none, some, List, [], ◌∷◌, ◌++◌, ltb, leb, ◌==◌, if◌then◌else◌, length, take,
  get_elem?, arith,
}
use rpcnode.Mempool.Types.{Entry}
use rpcnode.Mempool.Heap.{
  TxHeap, swap, exchange, less, up, child, down, heap_push, popped, pop_last, raised, heap_remove,
}
use rpcnode.Mempool.Places.{index_of, IsPlaced, exchange-IsPlaced, one_place, with_index-other}

swap-IsPlaced : (h : TxHeap) (i j : ℕ) → IsPlaced h → IsPlaced (swap h i j)
unfolding swap
swap-IsPlaced h i j p = go (get_elem? h.ids i) (get_elem? h.ids j) refl refl
  where
    go :
        (a b : Option ℕ)
        → get_elem? h.ids i ≡ a
        → get_elem? h.ids j ≡ b
        → IsPlaced (exchange h i j a b)
    go (some a) (some b) ha hb = exchange-IsPlaced h i j a b ha hb p
    go (some a) none ha hb = p
    go none b ha hb = p

up-IsPlaced : (f : ℕ) (h : TxHeap) (j : ℕ) → IsPlaced h → IsPlaced (up f h j)
unfolding up
up-IsPlaced zero h j p = p
up-IsPlaced (suc f) h j p =
    go ((i == j) || not (less h j i)) (up-IsPlaced f (swap h i j) i (swap-IsPlaced h i j p))
  where
    i : ℕ
    i = (j - 1) / 2

    go :
        (b : Bool)
        → IsPlaced (up f (swap h i j) i)
        → IsPlaced (if b then h else up f (swap h i j) i)
    go true q = p
    go false q = q

down-IsPlaced : (f : ℕ) (h : TxHeap) (i n : ℕ) → IsPlaced h → IsPlaced (down f h i n).0
unfolding down
down-IsPlaced zero h i n p = p
down-IsPlaced (suc f) h i n p =
    go (leb n (2 * i + 1) || not (less h j i))
      (down-IsPlaced f (swap h i j) j n (swap-IsPlaced h i j p))
  where
    j : ℕ
    j = child h i n

    go :
        (b : Bool)
        → IsPlaced (down f (swap h i j) j n).0
        → IsPlaced (if b then (h, i) else down f (swap h i j) j n).0
    go true q = p
    go false q = q

-- what an appended list has at a place
snoc-cases :
    (xs : List ℕ) (x k v : ℕ)
    → get_elem? (xs ++ x ∷ []) k ≡ some v
    → (get_elem? xs k ≡ some v) ⊎ ((k ≡ length xs) × (x ≡ v))
snoc-cases [] x zero v h = inr (refl, cc)
snoc-cases [] x (suc k) v h = cc
snoc-cases (y ∷ xs) x zero v h = inl h
snoc-cases (y ∷ xs) x (suc k) v h = elim (snoc-cases xs x k v h) [
  | inl at ↦ inl at
  | inr (e, v') ↦ inr (ap suc e, v')
]

index_of-snoc :
    (es : List Entry) (e : Entry) (id i : ℕ)
    → index_of (get_elem? es id) ≡ some i
    → index_of (get_elem? (es ++ e ∷ []) id) ≡ some i
index_of-snoc [] e id i h = cc
index_of-snoc (x ∷ es) e zero i h = h
index_of-snoc (x ∷ es) e (suc id) i h = index_of-snoc es e id i h

index_of-last :
    (es : List Entry) (e : Entry) → index_of (get_elem? (es ++ e ∷ []) (length es)) ≡ e.heap_index
index_of-last [] e = refl
index_of-last (x ∷ es) e = index_of-last es e

pub heap_push-IsPlaced : (e : Entry) (h : TxHeap) → IsPlaced h → IsPlaced (heap_push e h)
unfolding heap_push
heap_push-IsPlaced e h p = up-IsPlaced (length h.ids) appended (length h.ids) (λ k id at.
    elim (snoc-cases h.ids (length h.entries) k id at) [
      | inl before ↦ index_of-snoc h.entries placed id k (p k id before)
      | inr (last, new) ↦ let held = index_of-last h.entries placed in cc
    ])
  where
    placed : Entry
    placed = record e { heap_index = some (length h.ids) }

    appended : TxHeap
    appended = record { entries = h.entries ++ placed ∷ []; ids = h.ids ++ length h.entries ∷ [] }

take-elem :
    (n : ℕ) (xs : List ℕ) (k v : ℕ)
    → get_elem? (take n xs) k ≡ some v
    → (k < n) × (get_elem? xs k ≡ some v)
take-elem zero xs k v h = cc
take-elem (suc n) [] k v h = cc
take-elem (suc n) (x ∷ xs) zero v h = (omega arith, h)
take-elem (suc n) (x ∷ xs) (suc k) v h =
    let (l, at) = take-elem n xs k v h in (omega (arith, l), at)

pop_last-IsPlaced : (h : TxHeap) → IsPlaced h → IsPlaced (pop_last h).0
unfolding pop_last
pop_last-IsPlaced h p = go (get_elem? h.ids (length h.ids - 1)) refl
  where
    go : (o : Option ℕ) → get_elem? h.ids (length h.ids - 1) ≡ o → IsPlaced (popped h o).0
    go none e = p
    go (some last) e = λ k id at.
        let (l, there) = take-elem (length h.ids - 1) h.ids k id at in
        ap index_of (
          with_index-other h.entries last id none
            (one_place h (length h.ids - 1) k last id p e there (omega (arith, l))))
        ∙ p k id there

raised-IsPlaced : (f i : ℕ) (r : TxHeap × ℕ) → IsPlaced r.0 → IsPlaced (raised f i r)
raised-IsPlaced f i (h, at) p = go (ltb i at)
  where
    go : (b : Bool) → IsPlaced (if b then h else up f h i)
    go true = p
    go false = up-IsPlaced f h i p

pub heap_remove-IsPlaced : (i : ℕ) (h : TxHeap) → IsPlaced h → IsPlaced (heap_remove i h)
unfolding heap_remove
heap_remove-IsPlaced i h p = go (length h.ids - 1 == i)
  where
    n : ℕ
    n = length h.ids - 1

    lowered : TxHeap × ℕ
    lowered = down (length h.ids) (swap h i n) i n

    go :
        (b : Bool)
        → IsPlaced (if b then (pop_last h).0 else (pop_last (raised (length h.ids) i lowered)).0)
    go true = pop_last-IsPlaced h p
    go false = pop_last-IsPlaced (raised (length h.ids) i lowered) (
        raised-IsPlaced (length h.ids) i lowered
          (down-IsPlaced (length h.ids) (swap h i n) i n (swap-IsPlaced h i n p)))
