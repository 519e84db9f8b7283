-- ===== src/Mempool/Taken.antt =====
-- What `Pending` of mempool/mempool.go does to the entries that it shares with the pool.
use rpcnode.Prelude.{
  ℕ, ◌<◌, ◌≡◌, refl, ap, ◌∙◌, true, false, Option, none, some, [], ◌∷◌, GoString, Result, ok, err,
  ◌>>=◌, leb, ◌==◌, arith, modify, str_eq_refl,
}
use rpcnode.Prelude.Int.{ℤ}
use rpcnode.Prelude.Dict.{lookup, insert}
use rpcnode.Mempool.Types.{PoolError, panicked, PooledTx, Mempool}
use rpcnode.Mempool.Heap.{swap, up, down, heap_push, pop_last, heap_pop}
use rpcnode.Mempool.{new, add, enter, insert_sorted, evict, remove, drain, take_pending}
use rpcnode.Mempool.Admission.{add_enters}

-- a pool with one transaction, whose entry says that it is at a place of the heap
abbrev only : (GoString → ℕ) → ℤ → PooledTx → Option ℕ → Mempool
only get_nonce now tx place = record (new get_nonce) {
  entries = record { tx = tx; added_at = now; heap_index = place } ∷ [];
  pending = 0 ∷ [];
  index = (tx.hash, 0) ∷ [];
  by_sender = (tx.from, 0 ∷ []) ∷ [];
}

add-only :
    (get_nonce : GoString → ℕ) (now : ℤ) (tx : PooledTx)
    → get_nonce tx.from ≡ tx.nonce
    → add now tx (new get_nonce) ≡ (ok tt, only get_nonce now tx (some 0))
unfolding new enter heap_push up insert_sorted lookup insert modify ◌>>=◌
add-only get_nonce now tx h =
    add_enters now tx (new get_nonce) refl (omega (arith, h)) (omega arith) (omega arith)

take_pending-only :
    (get_nonce : GoString → ℕ) (now : ℤ) (tx : PooledTx) (n : ℕ)
    → get_nonce tx.from ≡ tx.nonce
    → 0 < n
    → take_pending n (only get_nonce now tx (some 0)) ≡ (tx ∷ [], only get_nonce now tx none)
unfolding new take_pending drain heap_pop pop_last down swap lookup
take_pending-only get_nonce now tx n h l =
    let wanted : leb n 0 ≡ false = ground arith in
    let due : (tx.nonce == get_nonce tx.from) ≡ true = ground arith in rw (wanted, due) refl

remove-only :
    (get_nonce : GoString → ℕ) (now : ℤ) (tx : PooledTx) (place : Option ℕ)
    → remove tx.hash (only get_nonce now tx place)
      ≡ evict (record { tx = tx; added_at = now; heap_index = place }) (only get_nonce now tx place)
unfolding new remove lookup ◌>>=◌
remove-only get_nonce now tx place = rw (str_eq_refl tx.hash) refl

evict-only :
    (get_nonce : GoString → ℕ) (now : ℤ) (tx : PooledTx)
    → (evict
        (record { tx = tx; added_at = now; heap_index = some 0 })
        (only get_nonce now tx (some 0))).0
      ≡ ok tt
unfolding new evict ◌>>=◌
evict-only get_nonce now tx = refl

evict-taken :
    (get_nonce : GoString → ℕ) (now : ℤ) (tx : PooledTx)
    → evict (record { tx = tx; added_at = now; heap_index = none }) (only get_nonce now tx none)
      ≡ (err panicked, only get_nonce now tx none)
unfolding new evict ◌>>=◌
evict-taken get_nonce now tx = refl

-- A new pool accepts a transaction with its sender's nonce on the chain. It can be removed then; but
-- `Pending`, asked for one or more, returns it and leaves its entry out of the heap's places, so that
-- `Remove` of it after that, as of a transaction that went into a block, panics.
pub pending_then_remove :
    (get_nonce : GoString → ℕ) (now : ℤ) (tx : PooledTx) (n : ℕ)
    → get_nonce tx.from ≡ tx.nonce
    → 0 < n
    → let m = (add now tx (new get_nonce)).1 in
      let (result, taken) = take_pending n m in
      ((remove tx.hash m).0 ≡ ok tt)
      × (result ≡ tx ∷ [])
      × (remove tx.hash taken ≡ (err panicked, taken))
pending_then_remove get_nonce now tx n h l =
    rw (add-only get_nonce now tx h, take_pending-only get_nonce now tx n h l)
      (
        ap (λ (r : Result {0} PoolError Unit × Mempool). r.0)
              (remove-only get_nonce now tx (some 0))
            ∙ evict-only get_nonce now tx,
        refl,
        remove-only get_nonce now tx none ∙ evict-taken get_nonce now tx,
      )
