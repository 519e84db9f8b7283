-- ===== src/Mempool/Admission.antt =====
-- `Add` of mempool/mempool.go: which transactions it refuses, and what an accepted one leaves.
use rpcnode.Prelude.{
  ℕ, zero, suc, ◌+◌, ◌-◌, ◌/◌, ◌≤◌, ◌<◌, ◌≡◌, refl, ap, ◌∙◌, Bool, true, false, not, ◌||◌, Option,
  none, some, List, [], ◌∷◌, ◌++◌, ok, err, ◌>>=◌, ltb, leb, ◌==◌, if◌then◌else◌, length, get_elem?,
  arith, str_eq_refl, modify,
}
use rpcnode.Prelude.Int.{ℤ, leb_ℤ}
use rpcnode.Prelude.Dict.{lookup, lookup-insert}
use rpcnode.Mempool.Types.{
  PoolError, pool_full, nonce_too_low, already_known, too_many_queued, PooledTx, Entry, Mempool,
}
use rpcnode.Mempool.Heap.{TxHeap, swap, exchange, less, up, with_index, heap_push}
use rpcnode.Mempool.{add, enter, make_room, root, list_of, heap_of, get, size, tx_of}
use rpcnode.Mempool.Bounds.{length-heap_push}

-- Why a pool refuses a transaction, and with which error: the index has its hash, its nonce is below the
-- chain's, its sender has as many as the limit, or the pool is full and it does not pay more than the entry
-- at the root of the heap.
pub data Refused (tx : PooledTx) (m : Mempool) : PoolError → Type 0 where
  is_known : (id : ℕ) → lookup tx.hash m.index ≡ some id → Refused tx m already_known
  is_stale :
      lookup tx.hash m.index ≡ none → tx.nonce < m.get_nonce tx.from → Refused tx m nonce_too_low
  is_many :
      lookup tx.hash m.index ≡ none
      → m.get_nonce tx.from ≤ tx.nonce
      → m.max_per_addr ≤ length (list_of (lookup tx.from m.by_sender))
      → Refused tx m too_many_queued
  is_cheap :
      (e : Entry)
      → lookup tx.hash m.index ≡ none
      → m.get_nonce tx.from ≤ tx.nonce
      → length (list_of (lookup tx.from m.by_sender)) < m.max_per_addr
      → m.max_size ≤ length m.pending
      → root m ≡ ok e
      → leb_ℤ tx.gas_price e.tx.gas_price ≡ true
      → Refused tx m pool_full

-- A transaction with a reason to be refused is refused by `Add` with that error, and the pool is not changed.
pub add-Refused :
    (now : ℤ) (tx : PooledTx) (m : Mempool) (e : PoolError)
    → Refused tx m e
    → add now tx m ≡ (err e, m)
unfolding add make_room ◌>>=◌
add-Refused now tx m e (is_known id known) = rw known refl
add-Refused now tx m e (is_stale unknown stale) =
    let low : ltb tx.nonce (m.get_nonce tx.from) ≡ true = ground arith in rw (unknown, low) refl
add-Refused now tx m e (is_many unknown fresh many) =
    let high : ltb tx.nonce (m.get_nonce tx.from) ≡ false = ground arith in
    let over : leb m.max_per_addr (length (list_of (lookup tx.from m.by_sender))) ≡ true =
      ground arith in
    rw (unknown, high, over) refl
add-Refused now tx m e (is_cheap top unknown fresh few full at_root cheap) =
    let high : ltb tx.nonce (m.get_nonce tx.from) ≡ false = ground arith in
    let under : leb m.max_per_addr (length (list_of (lookup tx.from m.by_sender))) ≡ false =
      ground arith in
    let no_room : leb m.max_size (length m.pending) ≡ true = ground arith in
    rw (unknown, high, under, no_room, at_root, cheap) refl

-- No move in the heap changes the transaction of an entry.
tx_of-with_index :
    (es : List Entry) (id k : ℕ) (place : Option ℕ)
    → tx_of (get_elem? (with_index es id place) k) ≡ tx_of (get_elem? es k)
tx_of-with_index [] id k place = refl
tx_of-with_index (e ∷ es) zero zero place = refl
tx_of-with_index (e ∷ es) zero (suc k) place = refl
tx_of-with_index (e ∷ es) (suc id) zero place = refl
tx_of-with_index (e ∷ es) (suc id) (suc k) place = tx_of-with_index es id k place

tx_of-exchange :
    (h : TxHeap) (i j k : ℕ) (a b : Option ℕ)
    → tx_of (get_elem? (exchange h i j a b).entries k) ≡ tx_of (get_elem? h.entries k)
tx_of-exchange h i j k (some a) (some b) =
    tx_of-with_index (with_index h.entries b (some i)) a k (some j)
    ∙ tx_of-with_index h.entries b k (some i)
tx_of-exchange h i j k (some a) none = refl
tx_of-exchange h i j k none b = refl

tx_of-swap :
    (h : TxHeap) (i j k : ℕ)
    → tx_of (get_elem? (swap h i j).entries k) ≡ tx_of (get_elem? h.entries k)
unfolding swap
tx_of-swap h i j k = tx_of-exchange h i j k (get_elem? h.ids i) (get_elem? h.ids j)

tx_of-up :
    (f : ℕ) (h : TxHeap) (j k : ℕ)
    → tx_of (get_elem? (up f h j).entries k) ≡ tx_of (get_elem? h.entries k)
unfolding up
tx_of-up zero h j k = refl
tx_of-up (suc f) h j k = go ((i == j) || not (less h j i)) (tx_of-up f (swap h i j) i k)
  where
    i : ℕ
    i = (j - 1) / 2

    go :
        (b : Bool)
        → tx_of (get_elem? (up f (swap h i j) i).entries k)
          ≡ tx_of (get_elem? (swap h i j).entries k)
        → tx_of (get_elem? (if b then h else up f (swap h i j) i).entries k)
          ≡ tx_of (get_elem? h.entries k)
    go true e = refl
    go false e = e ∙ tx_of-swap h i j k

get_elem?-snoc : {A : Type 0} (xs : List A) (x : A) → get_elem? (xs ++ x ∷ []) (length xs) ≡ some x
get_elem?-snoc [] x = refl
get_elem?-snoc (y ∷ xs) x = get_elem?-snoc xs x

tx_of-heap_push :
    (e : Entry) (h : TxHeap)
    → tx_of (get_elem? (heap_push e h).entries (length h.entries)) ≡ some e.tx
unfolding heap_push
tx_of-heap_push e h =
    tx_of-up (length h.ids) _ (length h.ids) (length h.entries)
    ∙ ap tx_of (get_elem?-snoc h.entries (record e { heap_index = some (length h.ids) }))

pub add_enters :
    (now : ℤ) (tx : PooledTx) (m : Mempool)
    → lookup tx.hash m.index ≡ none
    → m.get_nonce tx.from ≤ tx.nonce
    → length (list_of (lookup tx.from m.by_sender)) < m.max_per_addr
    → length m.pending < m.max_size
    → add now tx m ≡ enter now tx (list_of (lookup tx.from m.by_sender)) m
unfolding add make_room ◌>>=◌
add_enters now tx m unknown fresh few room =
    let high : ltb tx.nonce (m.get_nonce tx.from) ≡ false = ground arith in
    let under : leb m.max_per_addr (length (list_of (lookup tx.from m.by_sender))) ≡ false =
      ground arith in
    let spare : leb m.max_size (length m.pending) ≡ false = ground arith in
    rw (unknown, high, under, spare) refl

enter_leaves :
    (now : ℤ) (tx : PooledTx) (ids : List ℕ) (m : Mempool)
    → ((enter now tx ids m).0 ≡ ok tt)
      × (get tx.hash (enter now tx ids m).1 ≡ some tx)
      × (size (enter now tx ids m).1 ≡ size m + 1)
unfolding enter get size modify ◌>>=◌
enter_leaves now tx ids m = (
  refl,
  rw (lookup-insert tx.hash tx.hash (length m.entries) m.index, str_eq_refl tx.hash)
      (tx_of-heap_push _ (heap_of m)),
  length-heap_push _ (heap_of m),
)

-- A transaction that is not known, with a nonce that is not below the chain's, of a sender below the limit,
-- is accepted by a pool that is not full: it is found by its hash, and the pool has one entry more.
pub add_accepts :
    (now : ℤ) (tx : PooledTx) (m : Mempool)
    → lookup tx.hash m.index ≡ none
    → m.get_nonce tx.from ≤ tx.nonce
    → length (list_of (lookup tx.from m.by_sender)) < m.max_per_addr
    → length m.pending < m.max_size
    → ((add now tx m).0 ≡ ok tt)
      × (get tx.hash (add now tx m).1 ≡ some tx)
      × (size (add now tx m).1 ≡ size m + 1)
add_accepts now tx m unknown fresh few room =
    rw (add_enters now tx m unknown fresh few room)
      (enter_leaves now tx (list_of (lookup tx.from m.by_sender)) m)
