-- ===== src/Storage/Tests.antt =====
-- The theorems about the store on a concrete one.
use rpcnode.Prelude.{ℕ, ◌≡◌, bytes, str_eq, [], ◌∷◌, err, arith, true}
use rpcnode.Prelude.Dict.{lookup, insert}
use rpcnode.Storage.{
  MemStorage, MemBatch, not_found, new_mem_storage, get, put, new_batch, batch_put, batch_delete,
  batch_write, iterator, matching,
}
use rpcnode.Storage.Batch.{get-batch_write}
use rpcnode.Storage.Iter.{visit, visit-iterator}

abbrev shelf : MemStorage ℕ
shelf = put (bytes "b/x") 3 (put (bytes "a/y") 2 (put (bytes "a/x") 1 new_mem_storage))

abbrev orders : MemBatch ℕ
orders =
    batch_put (bytes "a/x") 7 (batch_delete (bytes "a/y") (batch_put (bytes "a/y") 5 new_batch))

get-batch_write_example : get (batch_write orders shelf) (bytes "a/y") ≡ err not_found
unfolding str_eq get put lookup insert
get-batch_write_example = get-batch_write orders shelf (bytes "a/y")

visit-iterator_example :
    visit 3 (iterator (bytes "a/") shelf) ≡ ((bytes "a/x", 1) ∷ (bytes "a/y", 2) ∷ [], true)
unfolding iterator matching put insert str_eq
visit-iterator_example = visit-iterator 3 (bytes "a/") shelf (omega arith)
