-- ===== src/Storage.antt =====
-- storage/storage.go: the in-memory key-value store, its batches and its iterators. The values are
-- of any type, for the byte slices that the source copies on the way in and out: no caller can
-- change what is stored, so a copy is the value itself. The read-write mutex makes every method one
-- atomic step; what interleaves are whole calls.
pub mod Laws
pub mod Batch
pub mod Iter
pub mod Document
mod Tests
use rpcnode.Prelude.{
  ℕ, suc, ◌+◌, GoString, str_eq, Bool, true, false, ◌&&◌, ◌||◌, Option, none, some, List, [], ◌∷◌,
  ◌++◌, Result, ok, err, ltb, leb, ◌==◌, if◌then◌else◌, length, take, get_elem?,
}
use rpcnode.Prelude.Int.{ℤ, pos, negsuc, ltb_ℤ, leb_ℤ, ◌+ℤ◌}
use rpcnode.Prelude.Dict.{Dict, lookup, insert, erase}

pub data StorageError : Type 0 where
  not_found : StorageError

module _ (V : Type 0) where
  pub record MemStorage : Type 0 where
    pub entries : Dict V

  -- `batchOp`: a deletion, or a write
  pub data BatchOp : Type 0 where
    del : GoString → BatchOp
    write_op : GoString → V → BatchOp

  pub record MemBatch : Type 0 where
    pub ops : List BatchOp

  pub record MemIter : Type 0 where
    pub pairs : List (GoString × V)
    pub idx : ℤ

-- `len(pfx) == 0 || len(k) >= len(pfx) && k[:len(pfx)] == pfx`
abbrev pub in_range : GoString → GoString → Bool
in_range pfx k =
    (length pfx == 0) || (leb (length pfx) (length k) && str_eq (take (length pfx) k) pfx)

module _ {V : Type 0} where
  abbrev pub new_mem_storage : MemStorage V
  new_mem_storage = record { entries = [] }

  abbrev pub found : Option V → Result StorageError V
  found none = err not_found
  found (some v) = ok v

  unfoldable pub get : MemStorage V → GoString → Result StorageError V
  unfolding lookup
  get m key = found (lookup key m.entries)

  unfoldable pub put : GoString → V → MemStorage V → MemStorage V
  put key value m = record m { entries = insert key value m.entries }

  unfoldable pub delete : GoString → MemStorage V → MemStorage V
  delete key m = record m { entries = erase key m.entries }

  unfoldable pub has : MemStorage V → GoString → Bool
  has m key = elim (lookup key m.entries) [ none ↦ false | some _ ↦ true ]

  abbrev pub new_batch : MemBatch V
  new_batch = record { ops = [] }

  abbrev pub batch_put : GoString → V → MemBatch V → MemBatch V
  batch_put key value b = record b { ops = b.ops ++ write_op key value ∷ [] }

  abbrev pub batch_delete : GoString → MemBatch V → MemBatch V
  batch_delete key b = record b { ops = b.ops ++ del key ∷ [] }

  -- the loop of `memBatch.Write`; on the map an operation does what `Delete` and `Put` do
  pub write_ops : List (BatchOp V) → MemStorage V → MemStorage V
  write_ops [] m = m
  write_ops (del k ∷ ops) m = write_ops ops (delete k m)
  write_ops (write_op k v ∷ ops) m = write_ops ops (put k v m)

  pub batch_write : MemBatch V → MemStorage V → MemStorage V
  unfolding write_ops
  batch_write b m = write_ops b.ops m

  abbrev pub batch_reset : MemBatch V → MemBatch V
  batch_reset b = record b { ops = [] }

  unfoldable pub matching : GoString → Dict V → Dict V
  matching pfx [] = []
  matching pfx ((k, v) ∷ d) =
      let rest = matching pfx d in if in_range pfx k then (k, v) ∷ rest else rest

  unfoldable pub iterator : GoString → MemStorage V → MemIter V
  unfolding matching
  iterator pfx m = record { pairs = matching pfx m.entries; idx = negsuc 0 }

  pub next : MemIter V → Bool × MemIter V
  unfolding ◌+ℤ◌
  next it = let i = it.idx +ℤ pos 1 in (ltb_ℤ i (pos (length it.pairs)), record it { idx = i })

  -- the pair under the cursor; out of range `Key` and `Value` return nil
  pub current : MemIter V → Option (GoString × V)
  current it = elim it.idx [ pos i ↦ get_elem? it.pairs i | negsuc _ ↦ none ]
