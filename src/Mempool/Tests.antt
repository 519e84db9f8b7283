-- ===== src/Mempool/Tests.antt =====
-- The theorems about the pool on concrete transactions.
use rpcnode.Prelude.{
  List, str_eq, get_elem?, modify, ◌>>=◌, ℕ, ◌≤◌, ◌≡◌, refl, GoString, bytes, none, some, [], ◌∷◌,
  ◌+◌, arith, ok, err,
}
use rpcnode.Prelude.Int.{pos}
use rpcnode.Prelude.Dict.{lookup, insert}
use rpcnode.Mempool.Types.{panicked, PooledTx, Entry, Mempool, default_max_size}
use rpcnode.Mempool.{make_room, enter, new, add, get, remove, size, take_pending, insert_sorted}
use rpcnode.Mempool.Size.{Call, adding, removing, taking, expiring, serve_all, size_bounded}
use rpcnode.Mempool.Admission.{add_accepts}
use rpcnode.Mempool.Heap.{heap_push, up, less, swap}
use rpcnode.Mempool.Placed.{Removed, quiet_remove}
use rpcnode.Mempool.Taken.{pending_then_remove}

-- every sender has sent two transactions
abbrev two : GoString → ℕ
two addr = 2

abbrev payment : PooledTx
payment = record { hash = bytes "h1"; from = bytes "al"; nonce = 2; gas_price = pos 7 }

abbrev later : PooledTx
later = record { hash = bytes "h2"; from = bytes "al"; nonce = 5; gas_price = pos 9 }

abbrev entry : PooledTx → Entry
entry tx = record { tx = tx; added_at = pos 3; heap_index = none }

size_bounded_example :
    size (
      serve_all
        (adding (pos 3) payment ∷ taking 4 ∷ removing (bytes "h2") ∷ expiring (pos 9) [] ∷ [])
        (new two))
    ≤ default_max_size
size_bounded_example =
    size_bounded two
      (adding (pos 3) payment ∷ taking 4 ∷ removing (bytes "h2") ∷ expiring (pos 9) [] ∷ [])

add_accepts_example :
    ((add (pos 3) payment (new two)).0 ≡ ok tt)
    × (get (bytes "h1") (add (pos 3) payment (new two)).1 ≡ some payment)
    × (size (add (pos 3) payment (new two)).1 ≡ size (new two) + 1)
unfolding new lookup
add_accepts_example =
    add_accepts (pos 3) payment (new two) refl (omega arith) (omega arith) (omega arith)

pending_then_remove_example :
    let m = (add (pos 3) payment (new two)).1 in
    let (result, taken) = take_pending 1 m in
    ((remove (bytes "h1") m).0 ≡ ok tt)
    × (result ≡ payment ∷ [])
    × (remove (bytes "h1") taken ≡ (err panicked, taken))
pending_then_remove_example = pending_then_remove two (pos 3) payment 1 refl (omega arith)

abbrev waiting : Mempool
waiting = record (new two) { entries = entry later ∷ []; pending = 0 ∷ []; max_size = 1 }

-- two transactions, the dearer one at the root
abbrev both : List Call
both = adding (pos 3) payment ∷ adding (pos 4) later ∷ []

found : lookup (bytes "h1") (serve_all both (new two)).index ≡ some 0
unfolding new add make_room enter heap_push up less swap lookup insert insert_sorted str_eq modify
    ◌>>=◌
found = refl

below_root : get_elem? (serve_all both (new two)).pending 1 ≡ some 0
unfolding new add make_room enter heap_push up less swap lookup insert insert_sorted str_eq modify
    ◌>>=◌
below_root = refl

quiet_remove_example :
    Removed (serve_all both (new two)) (remove (bytes "h1") (serve_all both (new two)))
quiet_remove_example = quiet_remove two both (bytes "h1") 0 1 (tt, (tt, tt)) found below_root
