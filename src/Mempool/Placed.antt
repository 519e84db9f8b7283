-- ===== src/Mempool/Placed.antt =====
-- The methods of mempool/mempool.go that keep the entries' places, and what `Remove` owes to them.
use rpcnode.Prelude.{
  ℕ, zero, suc, ◌+◌, ◌<◌, ◌≡◌, refl, Bool, true, false, Option, none, some, List, [], ◌∷◌, GoString,
  Result, ok, err, modify, ◌>>=◌, length, get_elem?, arith,
}
use rpcnode.Prelude.Ensures.{
  Passage, Ends, Keeps, bind-Keeps, pure-Keeps, reads-Keeps, raise_if-Keeps, modify-Keeps,
}
use rpcnode.Prelude.Int.{ℤ}
use rpcnode.Prelude.Dict.{Dict, lookup}
use rpcnode.Mempool.Types.{PoolError, PooledTx, Entry, Mempool}
use rpcnode.Mempool.Heap.{heap_push, heap_remove}
use rpcnode.Mempool.{
  Pool, new, heap_of, with_heap, place_of, evict, make_room, enter, add, remove, evict_found,
  expire, size,
}
use rpcnode.Mempool.Size.{Call, adding, removing, taking, expiring, moving, serve, serve_all}
use rpcnode.Mempool.Bounds.{length-heap_remove}
use rpcnode.Mempool.Places.{IsPlaced, index_of}
use rpcnode.Mempool.Moves.{heap_push-IsPlaced, heap_remove-IsPlaced}

abbrev placing : Passage Mempool
placing = record {
  Rel = λ m n. IsPlaced (heap_of m) → IsPlaced (heap_of n);
  same = λ m p. p;
  trans = λ s t u f g p. g (f p);
}

index-Keeps :
    (f : Mempool → Dict ℕ) → Keeps PoolError placing (modify (λ m. record m { index = f m }))
index-Keeps f = modify-Keeps PoolError placing (λ m. record m { index = f m }) (λ m p. p)

by_sender-Keeps :
    (f : Mempool → Dict (List ℕ))
    → Keeps PoolError placing (modify (λ m. record m { by_sender = f m }))
by_sender-Keeps f = modify-Keeps PoolError placing (λ m. record m { by_sender = f m }) (λ m p. p)

heap_remove-Keeps :
    (i : ℕ) → Keeps PoolError placing (modify (λ m. with_heap (heap_remove i (heap_of m)) m))
heap_remove-Keeps i =
    modify-Keeps PoolError placing (λ m. with_heap (heap_remove i (heap_of m)) m)
      (λ m p. heap_remove-IsPlaced i (heap_of m) p)

heap_push-Keeps :
    (e : Entry) → Keeps PoolError placing (modify (λ m. with_heap (heap_push e (heap_of m)) m))
heap_push-Keeps e =
    modify-Keeps PoolError placing (λ m. with_heap (heap_push e (heap_of m)) m)
      (λ m p. heap_push-IsPlaced e (heap_of m) p)

ruleset walk = (
  bind-Keeps, pure-Keeps, reads-Keeps, raise_if-Keeps, index-Keeps, by_sender-Keeps,
  heap_remove-Keeps, heap_push-Keeps,
)

evict-Keeps : (e : Entry) → Keeps PoolError placing (evict e)
unfolding evict
evict-Keeps e = search walk depth 9

evict_found-Keeps : (o : Option Entry) → Keeps PoolError placing (evict_found o)
evict_found-Keeps none = pure-Keeps PoolError placing tt
evict_found-Keeps (some e) = evict-Keeps e

make_room-Keeps : (tx : PooledTx) (b : Bool) → Keeps PoolError placing (make_room tx b)
unfolding make_room
make_room-Keeps tx false = pure-Keeps PoolError placing tt
make_room-Keeps tx true = search (walk, evict-Keeps)

enter-Keeps : (now : ℤ) (tx : PooledTx) (ids : List ℕ) → Keeps PoolError placing (enter now tx ids)
unfolding enter
enter-Keeps now tx ids = search walk depth 9

add-Keeps : (now : ℤ) (tx : PooledTx) → Keeps PoolError placing (add now tx)
unfolding add
add-Keeps now tx = search (walk, make_room-Keeps, enter-Keeps) depth 20

remove-Keeps : (hash : GoString) → Keeps PoolError placing (remove hash)
unfolding remove
remove-Keeps hash = search (walk, evict_found-Keeps)

expire-Keeps :
    (now : ℤ) (visits : List (GoString × ℕ)) → Keeps PoolError placing (expire now visits)
unfolding expire
expire-Keeps now [] = pure-Keeps PoolError placing tt
expire-Keeps now (v ∷ visits) = search (walk, evict_found-Keeps, expire-Keeps now visits) depth 9

-- a call that is not `Pending`
abbrev pub IsQuiet : Call → Type 0
IsQuiet (taking n) = ⊥
IsQuiet _ = Unit

abbrev pub AreQuiet : List Call → Type 0
AreQuiet [] = Unit
AreQuiet (c ∷ cs) = IsQuiet c × AreQuiet cs

kept-IsPlaced :
    {A : Type 0} (c : Pool A) (m : Mempool)
    → Keeps PoolError placing c
    → IsPlaced (heap_of m)
    → IsPlaced (heap_of (c m).1)
kept-IsPlaced {A} c m keeps = go (c m) (keeps m)
  where
    go :
        (r : Result PoolError A × Mempool)
        → Ends (placing.Rel m) (λ (a : A) n. placing.Rel m n) r
        → IsPlaced (heap_of m)
        → IsPlaced (heap_of r.1)
    go (err e, n) h = h
    go (ok a, n) h = h

serve-IsPlaced :
    (c : Call) (m : Mempool) → IsQuiet c → IsPlaced (heap_of m) → IsPlaced (heap_of (serve c m))
serve-IsPlaced (adding now tx) m q p = kept-IsPlaced (add now tx) m (add-Keeps now tx) p
serve-IsPlaced (removing hash) m q p = kept-IsPlaced (remove hash) m (remove-Keeps hash) p
serve-IsPlaced (taking n) m q p = elim q [ ]
serve-IsPlaced (moving nonces) m q p = p
serve-IsPlaced (expiring now visits) m q p =
    kept-IsPlaced (expire now visits) m (expire-Keeps now visits) p

serve_all-IsPlaced :
    (cs : List Call) (m : Mempool)
    → AreQuiet cs
    → IsPlaced (heap_of m)
    → IsPlaced (heap_of (serve_all cs m))
serve_all-IsPlaced [] m q p = p
serve_all-IsPlaced (c ∷ cs) m (q, qs) p =
    serve_all-IsPlaced cs (serve c m) qs (serve-IsPlaced c m q p)

elem_bound : (xs : List ℕ) (i v : ℕ) → get_elem? xs i ≡ some v → i < length xs
elem_bound [] i v h = cc
elem_bound (x ∷ xs) zero v h = omega arith
elem_bound (x ∷ xs) (suc i) v h = omega (arith, elem_bound xs i v h)

place_of-ok : (n i : ℕ) → i < n → place_of (some i) n ≡ ok i
place_of-ok n i h = ground arith

-- One entry fewer, and no error.
abbrev pub Removed : Mempool → Result {0} PoolError Unit × Mempool → Type 0
Removed m r = (r.0 ≡ ok tt) × (size r.1 + 1 ≡ size m)

evicted :
    (e : Entry) (m : Mempool) (i : ℕ)
    → e.heap_index ≡ some i
    → i < length m.pending
    → Removed m (evict e m)
unfolding evict size modify ◌>>=◌
evicted e m i at l =
    rw (at, place_of-ok (length m.pending) i l)
      (refl, omega (arith, length-heap_remove i (heap_of m), l))

remove-Placed :
    (hash : GoString) (m : Mempool) (id i : ℕ)
    → lookup hash m.index ≡ some id
    → get_elem? m.pending i ≡ some id
    → IsPlaced (heap_of m)
    → Removed m (remove hash m)
unfolding remove ◌>>=◌
remove-Placed hash m id i known there p = rw known (go (get_elem? m.entries id) (p i id there))
  where
    go : (o : Option Entry) → index_of o ≡ some i → Removed m (evict_found o m)
    go none at = cc
    go (some e) at = evicted e m i at (elem_bound m.pending i id there)

-- After any calls on a new pool but `Pending`, so of `Add`, `Remove` and the ticks of `expireLoop`, and
-- whatever nonces the chain has at each of them, `Remove` of a transaction that the index finds, whose entry is in the heap, succeeds and takes one entry off.
pub quiet_remove :
    (get_nonce : GoString → ℕ) (calls : List Call) (hash : GoString) (id i : ℕ)
    → AreQuiet calls
    → lookup hash (serve_all calls (new get_nonce)).index ≡ some id
    → get_elem? (serve_all calls (new get_nonce)).pending i ≡ some id
    → Removed (serve_all calls (new get_nonce)) (remove hash (serve_all calls (new get_nonce)))
unfolding new
quiet_remove get_nonce calls hash id i quiet known there =
    remove-Placed hash (serve_all calls (new get_nonce)) id i known there
      (serve_all-IsPlaced calls (new get_nonce) quiet (λ k v at. cc))
