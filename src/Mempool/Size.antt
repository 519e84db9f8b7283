-- ===== src/Mempool/Size.antt =====
-- The size of the pool of mempool/mempool.go over any sequence of calls.
use rpcnode.Prelude.{
  ℕ, ◌≤◌, ◌<◌, ◌≡◌, refl, ◌∙◌, Bool, true, false, Option, none, some, List, [], ◌∷◌, GoString,
  Result, ok, err, pure, modify, ◌>>=◌, reads_rule, raise_if_rule, reads-keeps, raise_if-keeps, ltb,
  leb, length, arith,
}
use rpcnode.Prelude.Ensures.{Passage, Ends, Keeps, bind-Keeps, pure-Keeps, reads-Keeps, ends_bind}
use rpcnode.Prelude.Int.{ℤ, leb_ℤ}
use rpcnode.Prelude.Dict.{lookup}
use rpcnode.Mempool.Types.{
  PoolError, PooledTx, Entry, Mempool, pool_full, already_known, nonce_too_low, too_many_queued,
  default_max_size,
}
use rpcnode.Mempool.{
  Pool, new, heap_of, place_of, evict, make_room, add, remove, evict_found, enter, is_some, list_of,
  size, take_pending, expire, root,
}
use rpcnode.Mempool.Bounds.{length-heap_push, length-heap_remove}

-- no more places, and the same limit
abbrev pub Shrinks : Mempool → Mempool → Type 0
Shrinks m n = (n.max_size ≡ m.max_size) × (length n.pending ≤ length m.pending)

abbrev pub shrinking : Passage Mempool
shrinking = record {
  Rel = Shrinks;
  same = λ m. (refl, omega arith);
  trans = λ s t u f g. (g.0 ∙ f.0, omega (arith, f.1, g.1));
}

-- and one place fewer
abbrev Freed : Mempool → Mempool → Type 0
Freed m n = (n.max_size ≡ m.max_size) × (length n.pending < length m.pending)

place_of_bound : (o : Option ℕ) (n i : ℕ) → place_of o n ≡ ok i → i < n
place_of_bound none n i h = cc
place_of_bound (some j) n i h = ground arith

evict_frees : (e : Entry) (m : Mempool) → Ends (Shrinks m) (λ (u : Unit) n. Freed m n) (evict e m)
unfolding evict modify ◌>>=◌
evict_frees e m =
    reads_rule (Ends (Shrinks m) (λ (u : Unit) n. Freed m n))
      (λ m. place_of e.heap_index (length m.pending)) _ m (λ x h. shrinking.same m)
      (λ i h. (
        refl,
        omega (
          arith,
          length-heap_remove i (heap_of m),
          place_of_bound e.heap_index (length m.pending) i h,
        ),
      ))

evict-Keeps : (e : Entry) → Keeps PoolError shrinking (evict e)
evict-Keeps e m = go (evict e m) (evict_frees e m)
  where
    go :
        (r : Result PoolError Unit × Mempool)
        → Ends (Shrinks m) (λ (u : Unit) n. Freed m n) r
        → Ends (Shrinks m) (λ (u : Unit) n. Shrinks m n) r
    go (err x, n) h = h
    go (ok u, n) h = (h.0, omega (arith, h.1))

evict_found-Keeps : (o : Option Entry) → Keeps PoolError shrinking (evict_found o)
evict_found-Keeps none = pure-Keeps PoolError shrinking tt
evict_found-Keeps (some e) = evict-Keeps e

ruleset walk = (bind-Keeps, pure-Keeps, reads-Keeps, evict_found-Keeps)

remove-Keeps : (hash : GoString) → Keeps PoolError shrinking (remove hash)
unfolding remove
remove-Keeps hash = search walk

expire-Keeps :
    (now : ℤ) (visits : List (GoString × ℕ)) → Keeps PoolError shrinking (expire now visits)
unfolding expire
expire-Keeps now [] = pure-Keeps PoolError shrinking tt
expire-Keeps now (v ∷ visits) = search (walk, expire-Keeps now visits) depth 9

-- A pool with the limit `limit` and at most as many entries in its heap.
abbrev pub Within : ℕ → Mempool → Type 0
Within limit m = (m.max_size ≡ limit) × (length m.pending ≤ limit)

-- and with room for one more
abbrev Roomy : ℕ → Mempool → Type 0
Roomy limit m = (m.max_size ≡ limit) × (length m.pending < limit)

shrunk-Within :
    {A : Type 0} (limit : ℕ) (c : Pool A) (m : Mempool)
    → Keeps PoolError shrinking c
    → Within limit m
    → Within limit (c m).1
shrunk-Within {A} limit c m keeps (h, l) = go (c m) (keeps m)
  where
    go :
        (r : Result PoolError A × Mempool)
        → Ends (Shrinks m) (λ (a : A) n. Shrinks m n) r
        → Within limit r.1
    go (err x, n) s = (s.0 ∙ h, omega (arith, s.1, l))
    go (ok a, n) s = (s.0 ∙ h, omega (arith, s.1, l))

make_room_room :
    (limit : ℕ) (tx : PooledTx) (b : Bool) (m : Mempool)
    → Within limit m
    → leb m.max_size (length m.pending) ≡ b
    → Ends (Within limit) (λ (u : Unit) n. Roomy limit n) (make_room tx b m)
unfolding make_room pure
make_room_room limit tx false m (h, l) e = (h, ground arith)
make_room_room limit tx true m (h, l) e =
    reads_rule Q root _ m (λ x _. (h, l))
      (λ cheapest _.
        raise_if_rule Q (leb_ℤ tx.gas_price cheapest.tx.gas_price) pool_full (evict cheapest) m
          (λ _. (h, l)) (λ _. freed (evict cheapest m) (evict_frees cheapest m)))
  where
    Q : Result {0} PoolError Unit × Mempool → Type 0
    Q r = Ends (Within limit) (λ (u : Unit) n. Roomy limit n) r

    freed :
        (r : Result PoolError Unit × Mempool)
        → Ends (Shrinks m) (λ (u : Unit) n. Freed m n) r
        → Ends (Within limit) (λ (u : Unit) n. Roomy limit n) r
    freed (err x, n) s = (s.0 ∙ h, omega (arith, s.1, l))
    freed (ok u, n) s = (s.0 ∙ h, omega (arith, s.1, l))

enter-Within :
    (limit : ℕ) (now : ℤ) (tx : PooledTx) (ids : List ℕ) (m : Mempool)
    → Roomy limit m
    → Within limit (enter now tx ids m).1
unfolding enter modify ◌>>=◌
enter-Within limit now tx ids m (h, l) = (h, omega (arith, length-heap_push _ (heap_of m), l))

add-Within :
    (limit : ℕ) (now : ℤ) (tx : PooledTx) (m : Mempool)
    → Within limit m
    → Within limit (add now tx m).1
unfolding add
add-Within limit now tx m w =
    reads-keeps P w (λ n. ok (is_some (lookup tx.hash n.index))) _
      (λ known _. raise_if-keeps P w known already_known _ (λ _.
        reads-keeps P w (λ n. ok (ltb tx.nonce (n.get_nonce tx.from))) _
          (λ stale _. raise_if-keeps P w stale nonce_too_low _ (λ _.
            reads-keeps P w (λ n. ok (list_of (lookup tx.from n.by_sender))) _
              (λ txs _.
                reads-keeps P w (λ n. ok (leb n.max_per_addr (length txs))) _
                  (λ many _. raise_if-keeps P w many too_many_queued _ (λ _.
                    reads-keeps P w (λ n. ok (leb n.max_size (length n.pending))) _
                      (λ full e.
                        ends_bind P (λ u n. Roomy limit n) (make_room tx full)
                          (λ _. enter now tx txs) m (make_room_room limit tx full m w cc)
                          (λ u n r. enter-Within limit now tx txs n r)))))))))
  where
    P : Mempool → Type 0
    P n = Within limit n

-- A call of the pool. `expiring` is a tick of the clock, with the entries in the order of the visit.
pub data Call : Type 0 where
  adding : ℤ → PooledTx → Call
  removing : GoString → Call
  taking : ℕ → Call
  expiring : ℤ → List (GoString × ℕ) → Call
  -- the chain moves, and the call-back `getNonce` returns other values
  moving : (GoString → ℕ) → Call

abbrev pub serve : Call → Mempool → Mempool
serve (adding now tx) m = (add now tx m).1
serve (removing hash) m = (remove hash m).1
serve (taking n) m = (take_pending n m).1
serve (expiring now visits) m = (expire now visits m).1
serve (moving nonces) m = record m { get_nonce = nonces }

-- the calls in order
abbrev pub serve_all : List Call → Mempool → Mempool
serve_all [] m = m
serve_all (c ∷ cs) m = serve_all cs (serve c m)

serve-Within : (limit : ℕ) (c : Call) (m : Mempool) → Within limit m → Within limit (serve c m)
unfolding take_pending
serve-Within limit (adding now tx) m w = add-Within limit now tx m w
serve-Within limit (removing hash) m w = shrunk-Within limit (remove hash) m (remove-Keeps hash) w
serve-Within limit (taking n) m w = w
serve-Within limit (moving nonces) m w = w
serve-Within limit (expiring now visits) m w =
    shrunk-Within limit (expire now visits) m (expire-Keeps now visits) w

serve_all-Within :
    (limit : ℕ) (cs : List Call) (m : Mempool) → Within limit m → Within limit (serve_all cs m)
serve_all-Within limit [] m w = w
serve_all-Within limit (c ∷ cs) m w =
    serve_all-Within limit cs (serve c m) (serve-Within limit c m w)

-- After any sequence of calls on a new pool, of `Add`, `Remove`, `Pending` and the ticks of `expireLoop`, and
-- whatever nonces the chain has at each of them, the heap has at most `DefaultMaxSize` entries.
pub size_bounded :
    (get_nonce : GoString → ℕ) (calls : List Call)
    → size (serve_all calls (new get_nonce)) ≤ default_max_size
unfolding size new
size_bounded get_nonce calls =
    (serve_all-Within default_max_size calls (new get_nonce) (refl, omega arith)).1
