-- ===== src/Core/Views.antt =====
-- What a client is shown of the chain: `LatestBlocks` and `Stats` of core/chain.go, and the two `ToMap`
-- of core/block.go and core/transaction.go. A map's fields stand in the order of the source.
use mathlib.Core.List.{reverse}
use Prim.Native.Nat.{min}
use Prim.Native.String.{String}
use rpcnode.Prelude.{ℕ, ◌-◌, GoString, bytes, Option, none, some, List, [], ◌∷◌, length, drop}
use rpcnode.Prelude.Int.{ℤ, pos}
use rpcnode.Json.{Json, num, str, obj, Fields, end, field}
use rpcnode.Core.Types.{
  TxType, transfer, contract, stake, unstake, bridge, Transaction, Block, Chain,
}
use rpcnode.Core.Blocks.{big_text}
use rpcnode.Core.Chain.{last}

abbrev pub fields : List (String × Json) → Fields
fields [] = end
fields ((k, v) ∷ rest) = field k v (fields rest)

-- `map[string]interface{}{…}`
abbrev pub object : List (String × Json) → Json
object l = obj (fields l)

-- the constants of `TxType`
unfoldable pub type_number : TxType → ℕ
type_number transfer = 0
type_number contract = 1
type_number stake = 2
type_number unstake = 3
type_number bridge = 4

unfoldable pub block_to_map : Block → Json
block_to_map b = object (
    ("number", num (pos b.header.number))
    ∷ ("hash", str b.hash)
    ∷ ("parentHash", str b.header.parent_hash)
    ∷ ("stateRoot", str b.header.state_root)
    ∷ ("txRoot", str b.header.tx_root)
    ∷ ("receiptRoot", str b.header.receipt_root)
    ∷ ("validator", str b.header.validator)
    ∷ ("timestamp", num b.header.timestamp)
    ∷ ("gasLimit", num (pos b.header.gas_limit))
    ∷ ("gasUsed", num (pos b.header.gas_used))
    ∷ ("size", num (pos b.header.size))
    ∷ ("transactions", num (pos (length b.transactions)))
    ∷ [])

unfoldable pub transaction_to_map : Transaction → Json
unfolding type_number
transaction_to_map tx = object (
    ("hash", str tx.hash)
    ∷ ("from", str tx.from)
    ∷ ("to", str tx.to)
    ∷ ("value", str (big_text tx.value))
    ∷ ("gasLimit", num (pos tx.gas_limit))
    ∷ ("gasPrice", str (big_text tx.gas_price))
    ∷ ("gasUsed", num (pos tx.gas_used))
    ∷ ("nonce", num (pos tx.nonce))
    ∷ ("type", num (pos (type_number tx.type)))
    ∷ ("status", str tx.status)
    ∷ ("timestamp", num tx.timestamp)
    ∷ ("blockNumber", num (pos tx.block_num))
    ∷ [])

pub record Stats : Type 0 where
  pub block_height : ℕ
  pub head_hash : GoString
  pub chain_id : ℤ
  pub network_name : GoString
  pub total_blocks : ℕ

module _ {Doc : Type 0} where
  -- the newest `n` blocks, the newest first
  unfoldable pub latest_blocks : ℕ → Chain Doc → List Block
  latest_blocks n c =
      let count = min n (length c.blocks) in reverse (drop (length c.blocks - count) c.blocks)

  abbrev pub stats_of : Option Block → Chain Doc → Option Stats
  stats_of none c = none
  stats_of (some b) c = some (record {
    block_height = b.header.number;
    head_hash = b.hash;
    chain_id = c.genesis.chain_id;
    network_name = c.genesis.network_name;
    total_blocks = length c.blocks;
  })

  -- `Stats`; with no block the index is out of range, `none`
  unfoldable pub stats : Chain Doc → Option Stats
  stats c = stats_of (last c.blocks) c

-- the map that `Stats` returns
unfoldable pub stats_map : Stats → Json
stats_map s = object (
    ("blockHeight", num (pos s.block_height))
    ∷ ("headHash", str s.head_hash)
    ∷ ("chainId", num s.chain_id)
    ∷ ("networkName", str s.network_name)
    ∷ ("totalBlocks", num (pos s.total_blocks))
    ∷ ("mode", str (bytes "rpc"))
    ∷ [])
