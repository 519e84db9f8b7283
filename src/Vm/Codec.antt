-- ===== src/Vm/Codec.antt =====
-- `MarshalContract` and `UnmarshalContract` of gpl/vm/vm.go. The document is the value of the struct
-- `wire` that it is written from; its text is encoding/json.
use rpcnode.Prelude.{ℕ, GoString, bytes, hex_encode, ◌≡◌, refl, ap, Option, none, some}
use rpcnode.Prelude.Int.{ℤ, pos, negsuc}
use rpcnode.Prelude.Dict.{Dict}
use rpcnode.Prelude.Bytes.{hex_decode, AreBytes, hex_decode-hex_encode}
use rpcnode.Prelude.Numerals.{set_string}
use rpcnode.Prelude.Numerals.Decimals.{set_string-decimal, set_string-minus}
use rpcnode.Json.{or_zero}
use rpcnode.Core.Blocks.{decimal_int}
use rpcnode.Vm.Types.{ContractAccount}

pub record Wire : Type 0 where
  pub address : GoString
  pub code : GoString
  pub storage : Dict GoString
  pub balance : GoString
  pub code_hash : GoString
  pub nonce : ℕ

abbrev balance_text : Option ℤ → GoString
balance_text none = bytes "0"
balance_text (some b) = decimal_int b

unfoldable pub marshal_contract : ContractAccount → Wire
marshal_contract ca = record {
  address = ca.address;
  code = hex_encode ca.code;
  storage = ca.storage;
  balance = balance_text ca.balance;
  code_hash = ca.code_hash;
  nonce = ca.nonce;
}

set_string-decimal_int : (b : ℤ) → set_string (decimal_int b) ≡ some b
unfolding decimal_int
set_string-decimal_int (pos n) = set_string-decimal n
set_string-decimal_int (negsuc n) = set_string-minus n

zero_read : set_string (bytes "0") ≡ some (pos 0)
unfolding set_string
zero_read = refl

-- `left` is what `SetString` leaves in the number where the text spells none, which its documentation
-- does not define
module _ (left : GoString → ℤ) where
  abbrev set_or_left : GoString → Option ℤ → ℤ
  set_or_left s none = left s
  set_or_left s (some b) = b

  -- `none` is what `json.Unmarshal` fails for, and the error that is returned then
  unfoldable pub unmarshal_contract : Option Wire → Option ContractAccount
  unmarshal_contract none = none
  unmarshal_contract (some w) = some (record {
    address = w.address;
    code = hex_decode w.code;
    storage = w.storage;
    balance = some (set_or_left w.balance (set_string w.balance));
    code_hash = w.code_hash;
    nonce = w.nonce;
  })

  balance_read :
      (b : Option ℤ) → set_or_left (balance_text b) (set_string (balance_text b)) ≡ or_zero b
  balance_read none = ap (set_or_left (bytes "0")) zero_read
  balance_read (some b) = ap (set_or_left (decimal_int b)) (set_string-decimal_int b)

  -- A contract whose code is bytes is read back from its document as it was; a nil balance is read back
  -- as 0.
  pub unmarshal_contract-marshal_contract :
      (ca : ContractAccount)
      → AreBytes ca.code
      → unmarshal_contract (some (marshal_contract ca))
        ≡ some (record ca { balance = some (or_zero ca.balance) })
  unfolding unmarshal_contract marshal_contract
  unmarshal_contract-marshal_contract ca h =
      rw (hex_decode-hex_encode ca.code h, balance_read ca.balance) refl
