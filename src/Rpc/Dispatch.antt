-- ===== src/Rpc/Dispatch.antt =====
-- `dispatch`, `paramStr` and the JSON-RPC part of `handleJSONRPC` (rpc/server.go). Each call runs as
-- one step; `now` is the clock's reading in nanoseconds.
use rpcnode.Prelude.{
  ℕ, suc, GoString, bytes, decimal, hex_encode, str_eq, true, false, Option, none, some, List, [],
  ◌∷◌, ◌++◌, length, take, get_elem?, Exec, pure, reads, modify, ◌>>=◌, ◌>>◌, Result, ok, err,
  if◌then◌else◌, ltb, ◌||◌,
}
use rpcnode.Prelude.Dict.{Dict, lookup, insert}
use rpcnode.Prelude.Int.{ℤ, pos, negsuc}
use rpcnode.Prelude.Numerals.{hex_of_int, scan_hex}
use rpcnode.Json.{Json, bool, num, real, str}
use rpcnode.Core.Types.{Transaction, Block, ChainError, Chain}
use rpcnode.Core.Blocks.{decimal_int}
use rpcnode.Core.Chain.{
  head, height, get_by_hash, get_by_number, get_balance, get_nonce, get_transaction, validators,
}
use rpcnode.Core.Views.{object, Stats, stats}
use rpcnode.Rpc.Types.{
  Server, Panic, out_of_range, RpcRequest, RpcResponse, Query, Method, constant, eth_block_number,
  eth_chain_id, net_version, eth_fee_history, eth_get_balance, eth_get_transaction_count,
  eth_get_block_by_number, eth_get_block_by_hash, eth_get_block_transaction_count_by_number,
  eth_get_transaction_by_hash, eth_get_transaction_receipt, eth_subscribe, gyds_validator_set,
  gyds_node_info, query, eth_send_raw_transaction,
}
use rpcnode.Rpc.Views.{
  array, hex, zeros, block_to_rpc, tx_to_rpc, tx_receipt_rpc, hash_raw_tx, placeholder_tx,
}

abbrev text_of : Option Json → GoString
text_of (some (str s)) = s
text_of _ = []

unfoldable pub param_str : List Json → ℕ → GoString
param_str params idx = text_of (get_elem? params idx)

abbrev text : GoString → Query
text s = constant (str s)

-- the labels of the `switch`
unfoldable pub methods : Dict Method
methods =
    (bytes "eth_blockNumber", query eth_block_number)
    ∷ (bytes "eth_chainId", query eth_chain_id)
    ∷ (bytes "net_version", query net_version)
    ∷ (bytes "net_listening", query (constant (bool true)))
    ∷ (bytes "net_peerCount", query (text (bytes "0x0")))
    ∷ (bytes "eth_syncing", query (constant (bool false)))
    ∷ (bytes "web3_clientVersion", query (text (bytes "GYDS-RPC/v1.0.0/linux/go1.21")))
    ∷ (bytes "eth_protocolVersion", query (text (bytes "0x41")))
    ∷ (bytes "eth_gasPrice", query (text (bytes "0x3B9ACA00")))
    ∷ (bytes "eth_maxPriorityFeePerGas", query (text (bytes "0x3B9ACA00")))
    ∷ (bytes "eth_feeHistory", query eth_fee_history)
    ∷ (bytes "eth_estimateGas", query (text (bytes "0x5208")))
    ∷ (bytes "eth_getBalance", query eth_get_balance)
    ∷ (bytes "eth_getTransactionCount", query eth_get_transaction_count)
    ∷ (bytes "eth_accounts", query (constant (array [])))
    ∷ (bytes "eth_getCode", query (text (bytes "0x")))
    ∷ (bytes "eth_getStorageAt", query (constant (zeros 64)))
    ∷ (bytes "eth_getBlockByNumber", query eth_get_block_by_number)
    ∷ (bytes "eth_getBlockByHash", query eth_get_block_by_hash)
    ∷ (
      bytes "eth_getBlockTransactionCountByNumber",
      query eth_get_block_transaction_count_by_number,
    )
    ∷ (bytes "eth_sendRawTransaction", eth_send_raw_transaction)
    ∷ (bytes "eth_getTransactionByHash", query eth_get_transaction_by_hash)
    ∷ (bytes "eth_getTransactionReceipt", query eth_get_transaction_receipt)
    ∷ (bytes "eth_call", query (text (bytes "0x")))
    ∷ (bytes "eth_getLogs", query (constant (array [])))
    ∷ (bytes "eth_newFilter", query (text (bytes "0x1")))
    ∷ (bytes "eth_newBlockFilter", query (text (bytes "0x1")))
    ∷ (bytes "eth_newPendingTransactionFilter", query (text (bytes "0x1")))
    ∷ (bytes "eth_getFilterChanges", query (constant (array [])))
    ∷ (bytes "eth_getFilterLogs", query (constant (array [])))
    ∷ (bytes "eth_uninstallFilter", query (constant (bool true)))
    ∷ (bytes "eth_subscribe", query eth_subscribe)
    ∷ (bytes "eth_unsubscribe", query (constant (bool true)))
    ∷ (bytes "gyds_validatorSet", query gyds_validator_set)
    ∷ (bytes "gyds_nodeInfo", query gyds_node_info)
    ∷ []

abbrev pub shown_block : Result ChainError Block → Option Json
shown_block (err e) = none
shown_block (ok b) = some (block_to_rpc b)

abbrev shown_head : Option Block → Option Json
shown_head none = none
shown_head (some b) = some (block_to_rpc b)

abbrev count_text : Result ChainError Block → Json
count_text (err e) = str (bytes "0x0")
count_text (ok b) = hex (length b.transactions)

-- a transaction of the chain, or else a pending one
abbrev shown_tx : Option Transaction → Option Transaction → Option Json
shown_tx (some tx) pending = some (tx_to_rpc tx)
shown_tx none (some tx) = some (tx_to_rpc tx)
shown_tx none none = none

abbrev shown_receipt : {Doc : Type 0} → Option Transaction → Chain Doc → Option Json
shown_receipt none c = none
shown_receipt (some tx) c = some (tx_receipt_rpc tx c)

abbrev validator_list : ℕ → List GoString → List Json
validator_list i [] = []
validator_list i (v ∷ vs) =
    object (("address", str v) ∷ ("status", str (bytes "active")) ∷ ("index", num (pos i)) ∷ [])
    ∷ validator_list (suc i) vs

-- `Stats()["chainId"]`, which fails on a chain with no block
abbrev pub with_chain_id : Option Stats → (ℤ → Json) → Result Panic (Option Json)
with_chain_id none f = err out_of_range
with_chain_id (some s) f = ok (some (f s.chain_id))

-- `"0x" + s[:16]`
abbrev pub cut : GoString → Result Panic (Option Json)
cut s = if ltb (length s) 16 then err out_of_range else ok (some (str (bytes "0x" ++ take 16 s)))

module _ {Doc : Type 0} where
  unfoldable pub block_by_number : GoString → Chain Doc → Option Json
  block_by_number num_str c =
      if str_eq num_str (bytes "latest") || str_eq num_str []
      then shown_head (head c)
      else shown_block (get_by_number (scan_hex num_str) c)

  unfoldable pub transaction_count : GoString → Chain Doc → Json
  transaction_count num_str c =
      let number = if str_eq num_str (bytes "latest") then height c else scan_hex num_str in
      count_text (get_by_number number c)

  abbrev fee_history : Chain Doc → Json
  fee_history c = object (
      ("baseFeePerGas", array (str (bytes "0x3B9ACA00") ∷ []))
      ∷ ("gasUsedRatio", array (real (bytes "0.5") ∷ []))
      ∷ ("oldestBlock", hex (height c))
      ∷ ("reward", array (array (str (bytes "0x0") ∷ []) ∷ []))
      ∷ [])

  abbrev validator_set : Chain Doc → ℤ → Json
  validator_set c chain_id = object (
      ("validators", array (validator_list 0 (validators c)))
      ∷ ("count", num (pos (length (validators c))))
      ∷ ("epoch", num (pos 1))
      ∷ ("chainId", num chain_id)
      ∷ [])

  abbrev node_info : Chain Doc → ℤ → Json
  node_info c chain_id = object (
      ("nodeType", str (bytes "rpc"))
      ∷ ("version", str (bytes "1.0.0"))
      ∷ ("chainId", num chain_id)
      ∷ ("blockHeight", num (pos (height c)))
      ∷ ("peers", num (pos 0))
      ∷ [])

  -- the cases that only read
  unfoldable pub view : Query → List Json → ℕ → Server Doc → Result Panic (Option Json)
  view (constant j) params now s = ok (some j)
  view eth_block_number params now s = ok (some (hex (height s.chain)))
  view eth_chain_id params now s = with_chain_id (stats s.chain) (λ i. str (hex_of_int i))
  view net_version params now s = with_chain_id (stats s.chain) (λ i. str (decimal_int i))
  view eth_fee_history params now s = ok (some (fee_history s.chain))
  view eth_get_balance params now s =
      ok (some (str (hex_of_int (get_balance (param_str params 0) s.chain))))
  view eth_get_transaction_count params now s =
      ok (some (hex (get_nonce (param_str params 0) s.chain)))
  view eth_get_block_by_number params now s = ok (block_by_number (param_str params 0) s.chain)
  view eth_get_block_by_hash params now s =
      ok (shown_block (get_by_hash (param_str params 0) s.chain))
  view eth_get_block_transaction_count_by_number params now s =
      ok (some (transaction_count (param_str params 0) s.chain))
  view eth_get_transaction_by_hash params now s =
      let hash = param_str params 0 in
      ok (shown_tx (get_transaction hash s.chain) (lookup hash s.pending_tx))
  view eth_get_transaction_receipt params now s =
      ok (shown_receipt (get_transaction (param_str params 0) s.chain) s.chain)
  view eth_subscribe params now s = cut (hex_encode (decimal now))
  view gyds_validator_set params now s = with_chain_id (stats s.chain) (validator_set s.chain)
  view gyds_node_info params now s = with_chain_id (stats s.chain) (node_info s.chain)

  unfoldable pub keep_pending : GoString → ℕ → Server Doc → Server Doc
  keep_pending tx_hash now s = record s {
    pending_tx = insert tx_hash (placeholder_tx tx_hash now) s.pending_tx;
  }

module _ (sha256 : GoString → GoString) {Doc : Type 0} where
  unfoldable pub answer : Method → List Json → ℕ → Exec Panic (Server Doc) (Option Json)
  unfolding view keep_pending param_str
  answer (query q) params now = reads (view q params now)
  answer eth_send_raw_transaction params now = do
    let tx_hash = hash_raw_tx sha256 (param_str params 0)
    modify (keep_pending tx_hash now)
    pure (some (str tx_hash))

abbrev pub not_found : GoString → Json
not_found method = object (
    ("code", num (negsuc 32600))
    ∷ ("message", str (bytes "method " ++ (method ++ bytes " not found")))
    ∷ [])

abbrev pub with_result : Json → Option Json → RpcResponse
with_result id r = record { result = r; error = none; id = id }

module _ (sha256 : GoString → GoString) {Doc : Type 0} where
  -- a method that is not in the table is the `default` case
  abbrev pub dispatch_to : Option Method → RpcRequest → ℕ → Exec Panic (Server Doc) RpcResponse
  dispatch_to none req now =
      pure (record { result = none; error = some (not_found req.method); id = req.id })
  dispatch_to (some m) req now = do r ← answer sha256 m req.params now; pure (with_result req.id r)

  unfoldable pub dispatch : RpcRequest → ℕ → Exec Panic (Server Doc) RpcResponse
  unfolding methods answer
  dispatch req now = dispatch_to (lookup req.method methods) req now
