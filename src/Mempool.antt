-- ===== src/Mempool.antt =====
-- mempool/mempool.go: the pool of transactions that wait for a block. Each method holds the lock, and is
-- one step.
pub mod Types
pub mod Heap
mod Bounds
mod Size
mod Orders
mod Admission
mod Taken
mod Places
mod Moves
mod Placed
mod Tests
use rpcnode.Prelude.{
  ℕ, zero, suc, ◌+◌, Bool, true, false, not, ◌&&◌, ◌||◌, Option, none, some, List, [], ◌∷◌, ◌++◌,
  GoString, str_eq, Result, ok, err, Exec, pure, raise, reads, raise_if, modify, ◌>>=◌, ◌>>◌, ltb,
  leb, ◌==◌, if◌then◌else◌, length, get_elem?,
}
use rpcnode.Prelude.Int.{ℤ, pos, ◌-ℤ◌, ltb_ℤ, leb_ℤ}
use rpcnode.Prelude.Dict.{Dict, lookup, insert, erase}
use rpcnode.Json.{Json, num, obj, field, end}
use rpcnode.Prelude.Int.{pos}
use rpcnode.Mempool.Types.{
  PoolError, pool_full, nonce_too_low, already_known, too_many_queued, panicked, PooledTx, Entry,
  Mempool, default_max_size, default_max_per_addr,
}
use rpcnode.Mempool.Heap.{TxHeap, entry_of, entry_at, heap_push, heap_pop, heap_remove}

abbrev pub Pool : Type 0 → Type 0
Pool A = Exec PoolError Mempool A

abbrev pub is_some : {A : Type 0} → Option A → Bool
is_some none = false
is_some (some a) = true

-- the list under a key, empty where there is none
abbrev pub list_of : Option (List ℕ) → List ℕ
list_of none = []
list_of (some ids) = ids

-- `New`, without the goroutine; ten minutes in nanoseconds
unfoldable pub new : (GoString → ℕ) → Mempool
new get_nonce = record {
  entries = [];
  pending = [];
  index = [];
  by_sender = [];
  max_size = default_max_size;
  max_per_addr = default_max_per_addr;
  ttl = pos 600000000000;
  get_nonce = get_nonce;
}

abbrev pub heap_of : Mempool → TxHeap
heap_of m = record { entries = m.entries; ids = m.pending }

abbrev pub with_heap : TxHeap → Mempool → Mempool
with_heap h m = record m { entries = h.entries; pending = h.ids }

abbrev pub before_entry : ℕ → Option Entry → Bool
before_entry nonce none = false
before_entry nonce (some se) = ltb nonce se.tx.nonce

-- `insertSorted`, of an entry with this nonce
unfoldable pub insert_sorted : List Entry → ℕ → ℕ → List ℕ → List ℕ
insert_sorted entries nonce e [] = e ∷ []
insert_sorted entries nonce e (se ∷ ids) =
    let rest = insert_sorted entries nonce e ids in
    if before_entry nonce (get_elem? entries se) then e ∷ se ∷ ids else se ∷ rest

abbrev has_hash : GoString → Option Entry → Bool
has_hash hash none = false
has_hash hash (some se) = str_eq se.tx.hash hash

-- the entries of a sender but those of a hash
unfoldable pub without : List Entry → GoString → List ℕ → List ℕ
without entries hash [] = []
without entries hash (se ∷ ids) =
    let rest = without entries hash ids in
    if has_hash hash (get_elem? entries se) then rest else se ∷ rest

abbrev updated_senders : GoString → List ℕ → Dict (List ℕ) → Dict (List ℕ)
updated_senders from [] d = erase from d
updated_senders from (id ∷ ids) d = insert from (id ∷ ids) d

-- the place of an entry in the heap; outside of it `heap.Remove` panics
abbrev pub place_of : Option ℕ → ℕ → Result PoolError ℕ
place_of none n = err panicked
place_of (some i) n = if ltb i n then ok i else err panicked

unfoldable pub evict : Entry → Pool Unit
evict e = do
  i ← reads (λ m. place_of e.heap_index (length m.pending))
  modify (λ m. with_heap (heap_remove i (heap_of m)) m)
  modify (λ m. record m { index = erase e.tx.hash m.index })
  modify (λ m. record m {
    by_sender =
        updated_senders e.tx.from
          (without m.entries e.tx.hash (list_of (lookup e.tx.from m.by_sender))) m.by_sender;
  })

-- the entry at the root of the heap; there is none in an empty heap of a pool without room
abbrev pub root : Mempool → Result PoolError Entry
root m = elim (entry_at (heap_of m) 0) [ none ↦ err panicked | some e ↦ ok e ]

-- `if len(m.pending) >= m.maxSize { … }`
unfoldable pub make_room : PooledTx → Bool → Pool Unit
make_room tx false = pure tt
make_room tx true = do
  cheapest ← reads root
  raise_if (leb_ℤ tx.gas_price cheapest.tx.gas_price) pool_full
  evict cheapest

-- a new entry in the heap, the index and the list of its sender, which was read before
unfoldable pub enter : ℤ → PooledTx → List ℕ → Pool Unit
enter now tx sender_txs = do
  id ← reads (λ m. ok (length m.entries))
  modify (λ m.
      with_heap (heap_push (record { tx = tx; added_at = now; heap_index = none }) (heap_of m)) m)
  modify (λ m. record m { index = insert tx.hash id m.index })
  modify (λ m. record m {
    by_sender = insert tx.from (insert_sorted m.entries tx.nonce id sender_txs) m.by_sender;
  })

-- `Add`, at a time of the clock
unfoldable pub add : ℤ → PooledTx → Pool Unit
add now tx = do
  known ← reads (λ m. ok (is_some (lookup tx.hash m.index)))
  raise_if known already_known
  stale ← reads (λ m. ok (ltb tx.nonce (m.get_nonce tx.from)))
  raise_if stale nonce_too_low
  sender_txs ← reads (λ m. ok (list_of (lookup tx.from m.by_sender)))
  many ← reads (λ m. ok (leb m.max_per_addr (length sender_txs)))
  raise_if many too_many_queued
  full ← reads (λ m. ok (leb m.max_size (length m.pending)))
  make_room tx full
  enter now tx sender_txs

abbrev pub tx_of : Option Entry → Option PooledTx
tx_of none = none
tx_of (some e) = some e.tx

-- `Get`
unfoldable pub get : GoString → Mempool → Option PooledTx
get hash m = tx_of (entry_of m.entries (lookup hash m.index))

abbrev pub evict_found : Option Entry → Pool Unit
evict_found none = pure tt
evict_found (some e) = evict e

-- `Remove`
unfoldable pub remove : GoString → Pool Unit
remove hash = do
  found ← reads (λ m. ok (entry_of m.entries (lookup hash m.index)))
  evict_found found

-- `Size`
unfoldable pub size : Mempool → ℕ
size m = length m.pending

-- `Stats`
unfoldable pub pool_stats : Mempool → Json
pool_stats m = obj (
    field "size" (num (pos (length m.pending)))
      (field "senders" (num (pos (length m.by_sender))) end))

abbrev is_seen : Option Bool → Bool
is_seen none = false
is_seen (some b) = b

-- what `Pending` has gathered: the transactions in order, and the senders that have one
abbrev gathered :
    (GoString → ℕ) → Option Entry → List PooledTx × Dict Bool → List PooledTx × Dict Bool
gathered get_nonce none (result, seen) = (result, seen)
gathered get_nonce (some e) (result, seen) =
    if is_seen (lookup e.tx.from seen)
    then (result, seen)
    else if e.tx.nonce == get_nonce e.tx.from
    then (result ++ e.tx ∷ [], insert e.tx.from true seen)
    else (result, seen)

-- the loop of `Pending`, a round for each entry of the copy; the entries are the pool's own
unfoldable pub drain :
    ℕ → (GoString → ℕ) → ℕ → TxHeap → List PooledTx × Dict Bool → TxHeap × List PooledTx
drain zero get_nonce n sorted (result, seen) = (sorted, result)
drain (suc f) get_nonce n sorted (result, seen) =
    let (sorted', e) = heap_pop sorted in
    let rest =
      drain f get_nonce n sorted'
        (gathered get_nonce (entry_of sorted'.entries e) (result, seen)) in
    if (0 == length sorted.ids) || leb n (length result) then (sorted, result) else rest

-- `Pending`: the copy of the heap is dropped, what was written to the entries is not
unfoldable pub take_pending : ℕ → Mempool → List PooledTx × Mempool
take_pending n m =
    let (sorted, result) = drain (length m.pending) m.get_nonce n (heap_of m) ([], []) in
    (result, record m { entries = sorted.entries })

abbrev is_expired : ℤ → ℤ → Option Entry → Bool
is_expired now ttl none = false
is_expired now ttl (some e) = ltb_ℤ ttl (now -ℤ e.added_at)

-- a tick of `expireLoop`, over the entries of the index that it visits
unfoldable pub expire : ℤ → List (GoString × ℕ) → Pool Unit
expire now [] = pure tt
expire now ((hash, id) ∷ rest) = do
  old ← reads (λ m. ok (is_expired now m.ttl (get_elem? m.entries id)))
  found ← reads (λ m. ok (if old then get_elem? m.entries id else none))
  evict_found found
  expire now rest
