-- ===== src/Mempool/Heap.antt =====
-- `txHeap` of mempool/mempool.go under the algorithms of Go's container/heap. A heap is a list of pointers
-- to entries; the store of the entries is passed along, since `Swap`, `Push` and `Pop` write to it.
use rpcnode.Prelude.{
  ℕ, zero, suc, ◌+◌, ◌-◌, ◌*◌, ◌/◌, Bool, false, not, ◌||◌, ◌&&◌, Option, none, some, List, [], ◌∷◌,
  ◌++◌, ltb, leb, ◌==◌, if◌then◌else◌, length, take, get_elem?,
}
use rpcnode.Prelude.Int.{ltb_ℤ}
use rpcnode.Mempool.Types.{Entry}

abbrev pub set : {A : Type 0} → List A → ℕ → A → List A
set [] i v = []
set (x ∷ xs) zero v = v ∷ xs
set (x ∷ xs) (suc i) v = x ∷ set xs i v

-- the store of the entries, and a heap of pointers into it
pub record TxHeap : Type 0 where
  pub entries : List Entry
  pub ids : List ℕ

abbrev pub entry_of : List Entry → Option ℕ → Option Entry
entry_of entries none = none
entry_of entries (some id) = get_elem? entries id

-- the entry at a place of the heap
abbrev pub entry_at : TxHeap → ℕ → Option Entry
entry_at h i = entry_of h.entries (get_elem? h.ids i)

abbrev dearer : Option Entry → Option Entry → Bool
dearer (some a) (some b) = ltb_ℤ b.tx.gas_price a.tx.gas_price
dearer _ _ = false

-- `Less`
unfoldable pub less : TxHeap → ℕ → ℕ → Bool
less h i j = dearer (entry_at h i) (entry_at h j)

-- `e.heapIndex = place`
abbrev pub with_index : List Entry → ℕ → Option ℕ → List Entry
with_index [] id place = []
with_index (e ∷ es) zero place = record e { heap_index = place } ∷ es
with_index (e ∷ es) (suc id) place = e ∷ with_index es id place

abbrev pub exchange : TxHeap → ℕ → ℕ → Option ℕ → Option ℕ → TxHeap
exchange h i j (some a) (some b) = record {
  entries = with_index (with_index h.entries b (some i)) a (some j);
  ids = set (set h.ids i b) j a;
}
exchange h i j _ _ = h

-- `Swap`, within the heap
unfoldable pub swap : TxHeap → ℕ → ℕ → TxHeap
swap h i j = exchange h i j (get_elem? h.ids i) (get_elem? h.ids j)

-- the loop of container/heap that raises the place `j`
unfoldable pub up : ℕ → TxHeap → ℕ → TxHeap
up zero h j = h
up (suc f) h j =
    let i = (j - 1) / 2 in
    let rest = up f (swap h i j) i in if (i == j) || not (less h j i) then h else rest

-- the child of `i` that is to be above, the first or the second
abbrev pub child : TxHeap → ℕ → ℕ → ℕ
child h i n = if ltb (2 * i + 2) n && less h (2 * i + 2) (2 * i + 1) then 2 * i + 2 else 2 * i + 1

-- the loop that lowers the place `i` among the first `n`, and where it ended
unfoldable pub down : ℕ → TxHeap → ℕ → ℕ → TxHeap × ℕ
down zero h i n = (h, i)
down (suc f) h i n =
    let j = child h i n in
    let rest = down f (swap h i j) j n in
    if leb n (2 * i + 1) || not (less h j i) then (h, i) else rest

-- `heap.Push`, of an entry that the store gets with it
unfoldable pub heap_push : Entry → TxHeap → TxHeap
heap_push e h =
    up (length h.ids)
      (record {
        entries = h.entries ++ record e { heap_index = some (length h.ids) } ∷ [];
        ids = h.ids ++ length h.entries ∷ [];
      })
      (length h.ids)

abbrev pub popped : TxHeap → Option ℕ → TxHeap × Option ℕ
popped h none = (h, none)
popped h (some id) = (
  record { entries = with_index h.entries id none; ids = take (length h.ids - 1) h.ids },
  some id,
)

-- `Pop` of `txHeap`: the last one
unfoldable pub pop_last : TxHeap → TxHeap × Option ℕ
pop_last h = popped h (get_elem? h.ids (length h.ids - 1))

-- `heap.Pop`
unfoldable pub heap_pop : TxHeap → TxHeap × Option ℕ
heap_pop h = let n = length h.ids - 1 in pop_last (down (length h.ids) (swap h 0 n) 0 n).0

abbrev pub raised : ℕ → ℕ → TxHeap × ℕ → TxHeap
raised fuel i (h, at) = if ltb i at then h else up fuel h i

-- `heap.Remove` of a place in the heap
unfoldable pub heap_remove : ℕ → TxHeap → TxHeap
heap_remove i h =
    let n = length h.ids - 1 in
    if n == i
    then (pop_last h).0
    else (pop_last (raised (length h.ids) i (down (length h.ids) (swap h i n) i n))).0
