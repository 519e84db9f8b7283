-- ===== src/Json.antt =====
-- What the programs use of `encoding/json`: the value that the marshalled bytes stand for, and the
-- decoding of an object's fields by name. The text of a document is not modelled, so a stored byte
-- slice is the `Json` that it spells; strings are taken to be valid UTF-8, and a number is taken to
-- fit the field that it was written from.
use Prim.Native.String.{String}
use text.Mathlib.Text.{◌==◌}
use rpcnode.Prelude.{ℕ, Bool, false, GoString, Option, none, some, [], ◌∷◌, if◌then◌else◌}
use rpcnode.Prelude.Int.{ℤ, pos}

mutual
  pub data Json : Type 0 where
    null : Json
    bool : Bool → Json
    num : ℤ → Json
    -- a number that is no integer, by its text
    real : GoString → Json
    str : GoString → Json
    arr : Items → Json
    obj : Fields → Json

  pub data Items : Type 0 where
    nil : Items
    cons : Json → Items → Items

  pub data Fields : Type 0 where
    end : Fields
    field : String → Json → Fields → Fields

abbrev pub field? : String → Fields → Json
field? k end = null
field? k (field j v fs) = if j == k then v else field? k fs

-- the fields that a struct is read from: `null` leaves every field at its zero value
abbrev pub as_object : Json → Option Fields
as_object null = some end
as_object (obj fs) = some fs
as_object _ = none

-- A missing field and `null` leave the zero value; a value of another kind is an error, `none`.
abbrev pub read_str : Json → Option GoString
read_str null = some []
read_str (str s) = some s
read_str _ = none

abbrev pub read_bool : Json → Option Bool
read_bool null = some false
read_bool (bool b) = some b
read_bool _ = none

abbrev pub read_uint : Json → Option ℕ
read_uint null = some 0
read_uint (num (pos n)) = some n
read_uint _ = none

abbrev pub read_int : Json → Option ℤ
read_int null = some (pos 0)
read_int (num n) = some n
read_int _ = none

-- a `*big.Int`, with `none` for nil
abbrev pub read_big : Json → Option (Option ℤ)
read_big null = some none
read_big (num n) = some (some n)
read_big _ = none

abbrev pub opt_num : Option ℤ → Json
opt_num none = null
opt_num (some n) = num n

-- the tag `omitempty` on a string and on a pointer
abbrev pub omit_str : String → GoString → Fields → Fields
omit_str k [] fs = fs
omit_str k (c ∷ s) fs = field k (str (c ∷ s)) fs

abbrev pub omit_big : String → Option ℤ → Fields → Fields
omit_big k none fs = fs
omit_big k (some n) fs = field k (num n) fs

-- `if x == nil { x = big.NewInt(0) }`
abbrev pub or_zero : Option ℤ → ℤ
or_zero none = pos 0
or_zero (some n) = n

infixl 5 ◌>>=◌
abbrev pub ◌>>=◌ {ℓ κ} : {A : Type ℓ} {B : Type κ} → Option A → (A → Option B) → Option B
none >>= f = none
some a >>= f = f a
