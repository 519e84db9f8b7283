-- ===== src/Rpc/Views.antt =====
-- How rpc/server.go shows a block, a transaction and a receipt, and how it names a raw transaction.

use rpcnode.Prelude.{
  ℕ, ◌/◌, GoString, bytes, hex_encode, has_prefix, Option, none, some, List, [], ◌∷◌, ◌++◌, length,
  drop, replicate, if◌then◌else◌, ok, err, Result,
}
use rpcnode.Prelude.Bytes.{hex_decode}
use rpcnode.Prelude.Int.{ℤ, pos}
use rpcnode.Prelude.Numerals.{hex_of, hex_of_int}
use rpcnode.Json.{Json, null, str, arr, Items, nil, cons}
use rpcnode.Core.Types.{transfer, Transaction, Block, ChainError, Chain}
use rpcnode.Core.Chain.{get_by_number}
use rpcnode.Core.Views.{object}

-- a slice as an array
abbrev pub items : List Json → Items
items [] = nil
items (j ∷ js) = cons j (items js)

abbrev pub array : List Json → Json
array l = arr (items l)

abbrev pub strings : List GoString → List Json
strings [] = []
strings (s ∷ ss) = str s ∷ strings ss

abbrev pub zeros : ℕ → Json
zeros n = str (bytes "0x" ++ replicate n b'0')

abbrev pub hex : ℕ → Json
hex n = str (hex_of n)

abbrev hashes : List Transaction → List Json
hashes [] = []
hashes (tx ∷ txs) = str tx.hash ∷ hashes txs

unfoldable pub block_to_rpc : Block → Json
block_to_rpc b = object (
    ("number", hex b.header.number)
    ∷ ("hash", str b.hash)
    ∷ ("parentHash", str b.header.parent_hash)
    ∷ ("stateRoot", str b.header.state_root)
    ∷ ("transactionsRoot", str b.header.tx_root)
    ∷ ("receiptsRoot", str b.header.receipt_root)
    ∷ ("miner", str b.header.validator)
    ∷ ("difficulty", str (bytes "0x1"))
    ∷ ("totalDifficulty", hex b.header.number)
    ∷ ("size", hex b.header.size)
    ∷ ("gasLimit", hex b.header.gas_limit)
    ∷ ("gasUsed", hex b.header.gas_used)
    ∷ ("timestamp", str (hex_of_int b.header.timestamp))
    ∷ ("transactions", array (hashes b.transactions))
    ∷ ("uncles", array [])
    ∷ ("baseFeePerGas", str (bytes "0x3B9ACA00"))
    ∷ ("extraData", str (bytes "0x"))
    ∷ ("logsBloom", zeros 512)
    ∷ ("mixHash", zeros 64)
    ∷ ("nonce", str (bytes "0x0000000000000000"))
    ∷ (
      "sha3Uncles",
      str (bytes "0x1dcc4de8dec75d7aab85b567b6ccd41ad312451b948a7413f0a142fd40d49347"),
    )
    ∷ [])

-- `%x` of a `*big.Int` that may be nil, where a constant is shown
abbrev big_or : GoString → Option ℤ → Json
big_or s none = str s
big_or s (some v) = str (hex_of_int v)

unfoldable pub tx_to_rpc : Transaction → Json
tx_to_rpc tx = object (
    ("hash", str tx.hash)
    ∷ ("from", str tx.from)
    ∷ ("to", str tx.to)
    ∷ ("value", big_or (bytes "0x0") tx.value)
    ∷ ("gas", hex tx.gas_limit)
    ∷ ("gasPrice", big_or (bytes "0x3B9ACA00") tx.gas_price)
    ∷ ("nonce", hex tx.nonce)
    ∷ ("input", str (bytes "0x"))
    ∷ ("blockHash", null)
    ∷ ("blockNumber", null)
    ∷ ("transactionIndex", str (bytes "0x0"))
    ∷ ("type", str (bytes "0x0"))
    ∷ ("v", str (bytes "0x1"))
    ∷ ("r", zeros 64)
    ∷ ("s", zeros 64)
    ∷ [])

-- the number and the hash of the block that a receipt names
abbrev place : Result ChainError Block → Json × Json
place (err e) = (str (bytes "0x0"), zeros 64)
place (ok b) = (hex b.header.number, str b.hash)

module _ {Doc : Type 0} where
  unfoldable pub tx_receipt_rpc : Transaction → Chain Doc → Json
  tx_receipt_rpc tx c =
      let (block_num, block_hash) = place (get_by_number tx.block_num c) in
      object (
        ("transactionHash", str tx.hash)
        ∷ ("transactionIndex", str (bytes "0x0"))
        ∷ ("blockHash", block_hash)
        ∷ ("blockNumber", block_num)
        ∷ ("from", str tx.from)
        ∷ ("to", str tx.to)
        ∷ ("gasUsed", hex tx.gas_used)
        ∷ ("cumulativeGasUsed", hex tx.gas_used)
        ∷ ("contractAddress", null)
        ∷ ("logs", array [])
        ∷ ("logsBloom", zeros 512)
        ∷ ("status", str (bytes "0x1"))
        ∷ ("type", str (bytes "0x0"))
        ∷ ("effectiveGasPrice", str (bytes "0x3B9ACA00"))
        ∷ [])

-- `strings.TrimPrefix(s, p)`
abbrev trim_prefix : GoString → GoString → GoString
trim_prefix p s = if has_prefix p s then drop (length p) s else s

-- the decoded bytes, or the text where there are none
abbrev decoded_or : GoString → GoString → GoString
decoded_or raw [] = raw
decoded_or raw (b ∷ bs) = b ∷ bs

unfoldable pub hash_raw_tx : (GoString → GoString) → GoString → GoString
hash_raw_tx sha256 s =
    let raw = trim_prefix (bytes "0x") s in
    bytes "0x" ++ hex_encode (sha256 (decoded_or raw (hex_decode raw)))

abbrev zero_address : GoString
zero_address = bytes "0x0000000000000000000000000000000000000000"

-- what `eth_sendRawTransaction` keeps, whatever the raw bytes; `now` counts nanoseconds
unfoldable pub placeholder_tx : GoString → ℕ → Transaction
placeholder_tx tx_hash now = record {
  hash = tx_hash;
  from = zero_address;
  to = zero_address;
  value = some (pos 0);
  gas_limit = 21000;
  gas_price = some (pos 1000000000);
  gas_used = 21000;
  nonce = 0;
  data' = [];
  type = transfer;
  status = bytes "pending";
  timestamp = pos (now / 1000000000);
  block_num = 0;
}
