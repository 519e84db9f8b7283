-- ===== src/Mempool/Types.antt =====
-- The types and constants of mempool/mempool.go. An entry is shared by the heap, the index and the lists
-- of the senders, and its place in the heap is written through any of them: so the pool has a store of
-- entries, and a pointer is a number of the store.
use rpcnode.Prelude.{ℕ, GoString, Option, List}
use rpcnode.Prelude.Int.{ℤ}
use rpcnode.Prelude.Dict.{Dict}

-- `panicked` stands for a run-time panic; ErrUnderpriced is never returned.
pub data PoolError : Type 0 where
  pool_full nonce_too_low already_known underpriced too_many_queued panicked : PoolError

-- What the pool reads of a `core.Transaction`, whose gas price is not nil.
pub record PooledTx : Type 0 where
  pub hash : GoString
  pub from : GoString
  pub nonce : ℕ
  pub gas_price : ℤ

-- a heap index of -1 is `none`
pub record Entry : Type 0 where
  pub tx : PooledTx
  pub added_at : ℤ
  pub heap_index : Option ℕ

pub record Mempool : Type 0 where
  pub entries : List Entry
  pub pending : List ℕ
  pub index : Dict ℕ
  pub by_sender : Dict (List ℕ)
  pub max_size : ℕ
  pub max_per_addr : ℕ
  pub ttl : ℤ
  -- the call-back, as the chain's state has it: a step of its own (Mempool/Size) changes it
  pub get_nonce : GoString → ℕ

abbrev pub default_max_size : ℕ
default_max_size = 4096

abbrev pub default_max_per_addr : ℕ
default_max_per_addr = 64
