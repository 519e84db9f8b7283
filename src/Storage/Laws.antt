-- ===== src/Storage/Laws.antt =====
-- The store is a partial map from keys to values: the laws by which the programs above it use it.
use rpcnode.Prelude.{GoString, str_eq, ◌≡◌, false, true, arith, ok, err, if◌then◌else◌}
use rpcnode.Prelude.Dict.{lookup-insert, lookup-erase}
use rpcnode.Storage.{MemStorage, not_found, get, put, delete, has}

module _ {V : Type 0} where
  -- After a put the written key reads as the value, and every other key as before.
  pub get-put :
      (m : MemStorage V) (j k : GoString) (v : V)
      → get (put k v m) j ≡ (if str_eq k j then ok v else get m j)
  unfolding get put
  get-put m j k v = ground (arith, lookup-insert j k v m.entries)

  -- After a deletion the key is not found, and every other key reads as before.
  pub get-delete :
      (m : MemStorage V) (j k : GoString)
      → get (delete k m) j ≡ (if str_eq k j then err not_found else get m j)
  unfolding get delete
  get-delete m j k = ground (arith, lookup-erase j k m.entries)

  pub has-false : (m : MemStorage V) (k : GoString) → has m k ≡ false → get m k ≡ err not_found
  unfolding has get
  has-false m k h = ground arith

  pub has-put :
      (m : MemStorage V) (j k : GoString) (v : V)
      → has (put k v m) j ≡ (if str_eq k j then true else has m j)
  unfolding has put
  has-put m j k v = ground (arith, lookup-insert j k v m.entries)

  pub has-true : (m : MemStorage V) (k : GoString) {v : V} → get m k ≡ ok v → has m k ≡ true
  unfolding has get
  has-true m k h = ground arith
