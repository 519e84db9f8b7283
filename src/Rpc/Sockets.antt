-- ===== src/Rpc/Sockets.antt =====
-- The WebSocket subscribers (rpc/server.go): `BroadcastWS`, the parts of `handleWS` that change the
-- server, and what main.go broadcasts. A subscriber's channel holds at most 64 messages.
use rpcnode.Prelude.{
  ◌+◌, ◌-◌, ◌%◌, ◌^◌, GoString, Option, none, some, List, [], ◌∷◌, ◌++◌, length, ltb, if◌then◌else◌,
}
use rpcnode.Prelude.Dict.{Dict, lookup, insert, erase}
use rpcnode.Prelude.{bytes, Result, ok, err}
use rpcnode.Prelude.Int.{pos}
use rpcnode.Json.{Json, str, num}
use rpcnode.Core.Types.{Block}
use rpcnode.Core.Views.{object}
use rpcnode.Rpc.Types.{Server, Panic, out_of_range}

-- `select { case sub.ch <- msg: default: }`
unfoldable pub offer : Json → List Json → List Json
offer msg waiting = if ltb (length waiting) 64 then waiting ++ msg ∷ [] else waiting

unfoldable pub offer_all : Json → Dict (List Json) → Dict (List Json)
offer_all msg [] = []
offer_all msg ((i, waiting) ∷ subs) = (i, offer msg waiting) ∷ offer_all msg subs

-- `conn.WriteJSON(<-sub.ch)`: the oldest message leaves the channel
abbrev pub delivered : Option (List Json) → Option Json × Option (List Json)
delivered none = (none, none)
delivered (some []) = (none, some [])
delivered (some (msg ∷ waiting)) = (some msg, some waiting)

module _ {Doc : Type 0} where
  unfoldable pub broadcast_ws : Json → Server Doc → Server Doc
  unfolding offer_all offer
  broadcast_ws msg s = record s { subs = offer_all msg s.subs }

  -- `handleWS` up to its loop; `i` is the connection's address
  unfoldable pub join_ws : GoString → Server Doc → Server Doc
  join_ws i s = record s { ws_active = (s.ws_active + 1) % 2 ^ 64; subs = insert i [] s.subs }

  -- the deferred calls, where a read has failed
  unfoldable pub leave_ws : GoString → Server Doc → Server Doc
  leave_ws i s = record s {
    ws_active = (s.ws_active + (2 ^ 64 - 1)) % 2 ^ 64;
    subs = erase i s.subs;
  }

  abbrev pub put_back : GoString → Option (List Json) → Server Doc → Server Doc
  put_back i none s = s
  put_back i (some waiting) s = record s { subs = insert i waiting s.subs }

  -- a round of the goroutine that writes to the connection
  unfoldable pub deliver_ws : GoString → Server Doc → Option Json × Server Doc
  deliver_ws i s = let (msg, waiting) = delivered (lookup i s.subs) in (msg, put_back i waiting s)

-- what is broadcast of a new block
abbrev pub new_block_message : Block → Json
new_block_message b = object (
    ("type", str (bytes "newBlock"))
    ∷ ("number", num (pos b.header.number))
    ∷ ("hash", str b.hash)
    ∷ [])

-- The function that main.go has the engine call on each new block. Its log line takes the first 16
-- bytes of the hash.
unfoldable pub announce : {Doc : Type 0} → Block → Server Doc → Result Panic (Server Doc)
announce b s =
    if ltb (length b.hash) 16 then err out_of_range else ok (broadcast_ws (new_block_message b) s)
