-- ===== src/Mempool/Bounds.antt =====
-- The lengths of the heap of mempool/mempool.go, the fuel of its loops, and the bound of the pool.
use rpcnode.Prelude.{
  ℕ, zero, suc, ◌+◌, ◌-◌, ◌*◌, ◌/◌, ◌≤◌, ◌<◌, ◌≡◌, refl, ap, ◌∙◌, Bool, true, false, not, ◌||◌,
  Option, none, some, List, [], ◌∷◌, ltb, leb, ◌==◌, if◌then◌else◌, ◌≢◌, length, get_elem?,
  length-append, length-take, arith,
}
use rpcnode.Mempool.Types.{Entry}
use rpcnode.Mempool.Heap.{
  TxHeap, set, swap, exchange, less, up, child, down, heap_push, popped, pop_last, raised,
  heap_remove,
}

length-set : {A : Type 0} (xs : List A) (i : ℕ) (v : A) → length (set xs i v) ≡ length xs
length-set [] i v = refl
length-set (x ∷ xs) zero v = refl
length-set (x ∷ xs) (suc i) v = ap suc (length-set xs i v)

length-exchange :
    (h : TxHeap) (i j : ℕ) (a b : Option ℕ) → length (exchange h i j a b).ids ≡ length h.ids
length-exchange h i j (some a) (some b) = length-set (set h.ids i b) j a ∙ length-set h.ids i b
length-exchange h i j (some a) none = refl
length-exchange h i j none b = refl

length-swap : (h : TxHeap) (i j : ℕ) → length (swap h i j).ids ≡ length h.ids
unfolding swap
length-swap h i j = length-exchange h i j (get_elem? h.ids i) (get_elem? h.ids j)

length-up : (f : ℕ) (h : TxHeap) (j : ℕ) → length (up f h j).ids ≡ length h.ids
unfolding up
length-up zero h j = refl
length-up (suc f) h j =
    go ((j - 1) / 2 == j || not (less h j ((j - 1) / 2)))
      (length-up f (swap h ((j - 1) / 2) j) ((j - 1) / 2))
  where
    i : ℕ
    i = (j - 1) / 2

    go :
        (b : Bool)
        → length (up f (swap h i j) i).ids ≡ length (swap h i j).ids
        → length (if b then h else up f (swap h i j) i).ids ≡ length h.ids
    go true e = refl
    go false e = e ∙ length-swap h i j

length-down : (f : ℕ) (h : TxHeap) (i n : ℕ) → length (down f h i n).0.ids ≡ length h.ids
unfolding down
length-down zero h i n = refl
length-down (suc f) h i n =
    go (leb n (2 * i + 1) || not (less h (child h i n) i))
      (length-down f (swap h i (child h i n)) (child h i n) n)
  where
    j : ℕ
    j = child h i n

    go :
        (b : Bool)
        → length (down f (swap h i j) j n).0.ids ≡ length (swap h i j).ids
        → length (if b then (h, i) else down f (swap h i j) j n).0.ids ≡ length h.ids
    go true e = refl
    go false e = e ∙ length-swap h i j

up_root : (k : ℕ) (h : TxHeap) → up k h 0 ≡ h
unfolding up
up_root zero h = refl
up_root (suc k) h = refl

up_enough : (f k : ℕ) (h : TxHeap) (j : ℕ) → j ≤ f → up (f + k) h j ≡ up f h j
unfolding up
up_enough zero k h j l = let at_root : j ≡ 0 = omega (arith, l) in rw at_root (up_root (0 + k) h)
up_enough (suc f) k h j l =
    let i = (j - 1) / 2 in
    let more : suc f + k ≡ suc (f + k) = omega arith in
    rw more (
      ap (λ r. if (i == j) || not (less h j i) then h else r)
        (up_enough f k (swap h i j) i (omega (arith, l))))

child_below : (h : TxHeap) (i n : ℕ) → i < child h i n
child_below h i n = ground arith

down_past : (k : ℕ) (h : TxHeap) (i n : ℕ) → n ≤ i → down k h i n ≡ (h, i)
unfolding down
down_past zero h i n l = refl
down_past (suc k) h i n l = let past : leb n (2 * i + 1) ≡ true = ground arith in rw past refl

down_enough : (f k : ℕ) (h : TxHeap) (i n : ℕ) → n ≤ f + i → down (f + k) h i n ≡ down f h i n
unfolding down
down_enough zero k h i n l = down_past (0 + k) h i n (omega (arith, l))
down_enough (suc f) k h i n l =
    let j = child h i n in
    let more : suc f + k ≡ suc (f + k) = omega arith in
    rw more (
      ap (λ (r : TxHeap × ℕ). if leb n (2 * i + 1) || not (less h j i) then (h, i) else r)
        (down_enough f k (swap h i j) j n (omega (arith, l, child_below h i n))))

-- The loops of container/heap end: `up` from a place `j` with `j` rounds or more, and `down` from a place
-- `i` among `n` with `n - i` rounds or more, do the same with any more.
loops_end :
    (f k : ℕ) (h : TxHeap)
    → ((j : ℕ) → j ≤ f → up (f + k) h j ≡ up f h j)
      × ((i n : ℕ) → n ≤ f + i → down (f + k) h i n ≡ down f h i n)
loops_end f k h = (up_enough f k h, down_enough f k h)

pub length-heap_push : (e : Entry) (h : TxHeap) → length (heap_push e h).ids ≡ length h.ids + 1
unfolding heap_push
length-heap_push e h =
    length-up (length h.ids) _ (length h.ids) ∙ length-append h.ids (length h.entries ∷ [])

get_elem?-last : (n : ℕ) (xs : List ℕ) → length xs ≡ suc n → get_elem? xs n ≢ none
get_elem?-last n [] l e = omega (arith, l)
get_elem?-last zero (x ∷ xs) l e = cc
get_elem?-last (suc n) (x ∷ xs) l e = get_elem?-last n xs (omega (arith, l)) e

length-pop_last : (h : TxHeap) → length (pop_last h).0.ids ≡ length h.ids - 1
unfolding pop_last
length-pop_last h = go (get_elem? h.ids (length h.ids - 1)) refl
  where
    -- with no last place there is no place
    empty : get_elem? h.ids (length h.ids - 1) ≡ none → (0 < length h.ids) → ⊥
    empty e l = get_elem?-last (length h.ids - 1) h.ids (omega (arith, l)) e

    go :
        (o : Option ℕ)
        → get_elem? h.ids (length h.ids - 1) ≡ o
        → length (popped h o).0.ids ≡ length h.ids - 1
    go none e = omega (arith, empty e)
    go (some id) e = omega (arith, length-take (length h.ids - 1) h.ids)

length-raised : (f i : ℕ) (r : TxHeap × ℕ) → length (raised f i r).ids ≡ length r.0.ids
length-raised f i (h, at) = go (ltb i at)
  where
    go : (b : Bool) → length (if b then h else up f h i).ids ≡ length h.ids
    go true = refl
    go false = length-up f h i

pub length-heap_remove : (i : ℕ) (h : TxHeap) → length (heap_remove i h).ids ≡ length h.ids - 1
unfolding heap_remove
length-heap_remove i h = go (length h.ids - 1 == i)
  where
    n : ℕ
    n = length h.ids - 1

    lowered : TxHeap × ℕ
    lowered = down (length h.ids) (swap h i n) i n

    go :
        (b : Bool)
        → length (if b then (pop_last h).0 else (pop_last (raised (length h.ids) i lowered)).0).ids
          ≡ length h.ids - 1
    go true = length-pop_last h
    go false =
        length-pop_last (raised (length h.ids) i lowered)
        ∙ ap (λ k. k - 1)
            (length-raised (length h.ids) i lowered
              ∙ length-down (length h.ids) (swap h i n) i n
              ∙ length-swap h i n)
