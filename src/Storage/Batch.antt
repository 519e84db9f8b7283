-- ===== src/Storage/Batch.antt =====
-- A batch applied at once is its operations applied one after the other.
use rpcnode.Prelude.{
  GoString, ◌≡◌, refl, List, [], ◌∷◌, ◌++◌, Result, ok, err, str_eq, if◌then◌else◌,
}
use rpcnode.Storage.{
  MemStorage, MemBatch, BatchOp, del, write_op, not_found, StorageError, get, put, delete,
  batch_put, batch_delete, batch_write, write_ops,
}
use rpcnode.Storage.Laws.{get-put, get-delete}

module _ {V : Type 0} where
  -- what a key reads as after a batch: the last operation on it decides
  abbrev pub after : GoString → List (BatchOp V) → Result StorageError V → Result StorageError V
  after j [] r = r
  after j (del k ∷ ops) r = after j ops (if str_eq k j then err not_found else r)
  after j (write_op k v ∷ ops) r = after j ops (if str_eq k j then ok v else r)

  get-write_ops :
      (ops : List (BatchOp V)) (m : MemStorage V) (j : GoString)
      → get (write_ops ops m) j ≡ after j ops (get m j)
  unfolding write_ops
  get-write_ops [] m j = refl
  get-write_ops (del k ∷ ops) m j = rw (← get-delete m j k) (get-write_ops ops (delete k m) j)
  get-write_ops (write_op k v ∷ ops) m j = rw (← get-put m j k v) (get-write_ops ops (put k v m) j)

  -- After a batch is written every key reads as the last of the batch's operations on it left it, and
  -- as before where there is none.
  pub get-batch_write :
      (b : MemBatch V) (m : MemStorage V) (j : GoString)
      → get (batch_write b m) j ≡ after j b.ops (get m j)
  unfolding batch_write
  get-batch_write b m j = get-write_ops b.ops m j

  write_ops-append :
      (xs ys : List (BatchOp V)) (m : MemStorage V)
      → write_ops (xs ++ ys) m ≡ write_ops ys (write_ops xs m)
  unfolding write_ops
  write_ops-append [] ys m = refl
  write_ops-append (del k ∷ xs) ys m = write_ops-append xs ys _
  write_ops-append (write_op k v ∷ xs) ys m = write_ops-append xs ys _

  -- Recording a write or a deletion in a batch and writing the batch is writing the batch as it was
  -- and then putting or deleting in the store.
  pub batch_write-snoc :
      (b : MemBatch V) (m : MemStorage V) (k : GoString) (v : V)
      → (batch_write (batch_put k v b) m ≡ put k v (batch_write b m))
        × (batch_write (batch_delete k b) m ≡ delete k (batch_write b m))
  unfolding batch_write write_ops
  batch_write-snoc b m k v =
      (write_ops-append b.ops (write_op k v ∷ []) m, write_ops-append b.ops (del k ∷ []) m)
