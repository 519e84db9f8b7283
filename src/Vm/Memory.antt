-- ===== src/Vm/Memory.antt =====
-- The memory of the machine of gpl/vm/vm.go: `growMemory` and the slices that the instructions take.
use rpcnode.Prelude.{
  ℕ, zero, suc, ◌+◌, ◌-◌, ◌^◌, GoString, ◌&&◌, none, some, Option, [], ◌∷◌, Result, ok, err, ltb,
  leb, if◌then◌else◌, get_elem?,
}
use rpcnode.Prelude.Int.{ℤ, pos, negsuc, ◌+ℤ◌, ◌-ℤ◌, leb_ℤ, ltb_ℤ}
use rpcnode.Vm.Types.{Machine, Halt, panicked, max_memory}

-- the sum of two `int`s, which wraps around
unfoldable pub add_int : ℤ → ℤ → ℤ
add_int a b =
    let s = a +ℤ b in
    if leb_ℤ (pos (2 ^ 63)) s
    then s -ℤ pos (2 ^ 64)
    else if ltb_ℤ s (pos 0 -ℤ pos (2 ^ 63))
    then s +ℤ pos (2 ^ 64)
    else s

-- `if size > MaxMemory { size = MaxMemory }`; a negative size grows nothing
abbrev pub capped : ℤ → ℕ
capped (negsuc n) = 0
capped (pos n) = if ltb max_memory n then max_memory else n

-- the zeros that are appended at the places from `lo` to `hi`
abbrev pub zeroed : ℕ → ℕ → (ℕ → ℕ) → ℕ → ℕ
zeroed lo hi memory i = if leb lo i && ltb i hi then 0 else memory i

unfoldable pub grow_memory : ℤ → Machine → Machine
grow_memory size m =
    if ltb m.mem_len (capped size)
    then record m { memory = zeroed m.mem_len (capped size) m.memory; mem_len = capped size }
    else m

abbrev byte_or_zero : Option ℕ → ℕ
byte_or_zero none = 0
byte_or_zero (some b) = b

unfoldable pub bytes_at : (ℕ → ℕ) → ℕ → ℕ → GoString
bytes_at memory lo zero = []
bytes_at memory lo (suc n) = memory lo ∷ bytes_at memory (lo + 1) n

-- the memory with a word of 32 bytes at a place
unfoldable pub write_word : (ℕ → ℕ) → ℕ → GoString → ℕ → ℕ
write_word memory lo word i =
    if leb lo i && ltb i (lo + 32) then byte_or_zero (get_elem? word (i - lo)) else memory i

-- `m.memory[lo:hi]`, the place and the length, or the panic of bounds that are out of order or past
-- the capacity
unfoldable pub slice : ℕ → ℤ → ℤ → Result Halt (ℕ × ℕ)
slice capacity (pos lo) (pos hi) =
    if leb lo hi && leb hi capacity then ok (lo, hi - lo) else err panicked
slice capacity _ _ = err panicked
