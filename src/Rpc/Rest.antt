-- ===== src/Rpc/Rest.antt =====
-- The REST handlers and the CORS middleware of rpc/server.go. The texts of a path and of a query are
-- arguments: what the router and net/url take out of the request.
use rpcnode.Prelude.{
  ℕ, GoString, bytes, str_eq, Option, none, some, List, [], ◌∷◌, ◌++◌, length, ltb, leb,
  if◌then◌else◌, ◌&&◌, not, Result, ok, err,
}
use rpcnode.Prelude.Int.{ℤ, pos}
use rpcnode.Prelude.Numerals.{atoi, parse_uint}
use rpcnode.Json.{Json, null, num, str}
use rpcnode.Core.Types.{Transaction, Block, ChainError, Chain}
use rpcnode.Core.Blocks.{decimal_int}
use rpcnode.Core.Chain.{height, get_by_hash, get_by_number, get_balance, get_nonce, get_transaction}
use rpcnode.Core.Views.{
  object, block_to_map, transaction_to_map, latest_blocks, Stats, stats, stats_map,
}
use rpcnode.Rpc.Types.{Reply, Panic, out_of_range}
use rpcnode.Rpc.Views.{array}
use rpcnode.Rpc.Http.{json_ok, json_err}

abbrev pub limit_of : Option ℤ → ℕ
limit_of (some (pos n)) = if ltb 0 n && leb n 100 then n else 20
limit_of _ = 20

-- the `limit` of a query, "" where it has none
unfoldable pub page_limit : GoString → ℕ
unfolding atoi
page_limit ls = if str_eq ls [] then 20 else limit_of (atoi ls)

abbrev pub block_maps : List Block → List Json
block_maps [] = []
block_maps (b ∷ bs) = block_to_map b ∷ block_maps bs

abbrev pub transaction_maps : List Transaction → List Json
transaction_maps [] = []
transaction_maps (tx ∷ txs) = transaction_to_map tx ∷ transaction_maps txs

-- the inner loop of `handleTransactions`: `txs` are the transactions that it has so far
unfoldable pub collect_block : ℕ → List Transaction → List Transaction → List Transaction
collect_block limit txs [] = txs
collect_block limit txs (tx ∷ rest) =
    let more = txs ++ tx ∷ [] in
    let others = collect_block limit more rest in if leb limit (length more) then more else others

-- the outer loop
unfoldable pub collect : ℕ → List Transaction → List Block → List Transaction
unfolding collect_block
collect limit txs [] = txs
collect limit txs (b ∷ bs) =
    let more = collect_block limit txs b.transactions in
    let others = collect limit more bs in if leb limit (length more) then more else others

-- a nil slice is `null`
abbrev nil_or_array : List Json → Json
nil_or_array [] = null
nil_or_array (j ∷ js) = array (j ∷ js)

abbrev pub block_reply : Result ChainError Block → Reply
block_reply (err e) = json_err 404 (bytes "block not found")
block_reply (ok b) = json_ok (object (("block", block_to_map b) ∷ []))

abbrev transaction_reply : Option Transaction → Reply
transaction_reply none = json_err 404 (bytes "transaction not found")
transaction_reply (some tx) = json_ok (object (("transaction", transaction_to_map tx) ∷ []))

abbrev status_reply : Option Stats → Result Panic Reply
status_reply none = err out_of_range
status_reply (some s) = ok (json_ok (stats_map s))

module _ {Doc : Type 0} where
  unfoldable pub handle_health : Chain Doc → Reply
  handle_health c = json_ok (
      object (
        ("status", str (bytes "ok"))
        ∷ ("mode", str (bytes "rpc"))
        ∷ ("height", num (pos (height c)))
        ∷ []))

  unfoldable pub handle_status : Chain Doc → Result Panic Reply
  handle_status c = status_reply (stats c)

  unfoldable pub handle_blocks : GoString → Chain Doc → Reply
  handle_blocks ls c =
      let blocks = latest_blocks (page_limit ls) c in
      json_ok
        (object (("blocks", array (block_maps blocks)) ∷ ("count", num (pos (length blocks))) ∷ []))

  abbrev pub find_block : Option ℕ → GoString → Chain Doc → Result ChainError Block
  find_block (some n) block_id c = get_by_number n c
  find_block none block_id c = get_by_hash block_id c

  unfoldable pub handle_block : GoString → Chain Doc → Reply
  unfolding parse_uint
  handle_block block_id c = block_reply (find_block (parse_uint block_id) block_id c)

  unfoldable pub handle_transactions : GoString → Chain Doc → Reply
  unfolding collect page_limit
  handle_transactions ls c =
      let limit = page_limit ls in
      let txs = collect limit [] (latest_blocks limit c) in
      json_ok (
        object (
          ("transactions", nil_or_array (transaction_maps txs))
          ∷ ("count", num (pos (length txs)))
          ∷ []))

  unfoldable pub handle_transaction : GoString → Chain Doc → Reply
  handle_transaction hash c = transaction_reply (get_transaction hash c)

  unfoldable pub handle_account : GoString → Chain Doc → Reply
  handle_account addr c = json_ok (
      object (
        ("address", str addr)
        ∷ ("balance", str (decimal_int (get_balance addr c)))
        ∷ ("nonce", num (pos (get_nonce addr c)))
        ∷ []))

unfoldable pub handle_peers : Reply
handle_peers = json_ok (object (("peers", array []) ∷ ("count", num (pos 0)) ∷ []))

abbrev pub join : GoString → List GoString → GoString
join sep [] = []
join sep (s ∷ []) = s
join sep (s ∷ t ∷ ss) = s ++ (sep ++ join sep (t ∷ ss))

-- the value of `Access-Control-Allow-Origin`
unfoldable pub allow_origin : List GoString → GoString
allow_origin [] = bytes "*"
allow_origin (o ∷ os) = if not (str_eq o (bytes "*")) then join (bytes ", ") (o ∷ os) else bytes "*"

-- `corsMiddleware`: a preflight request is answered with 204 and does not reach the handler
unfoldable pub cors_middleware : {A : Type 0} → List GoString → GoString → A → GoString × Option A
unfolding allow_origin
cors_middleware cors method next =
    (allow_origin cors, if str_eq method (bytes "OPTIONS") then none else some next)
