-- ===== src/P2p/Types.antt =====
-- The types of p2p/peer.go. The addresses name the connections; a payload is the JSON value that it
-- spells, `none` where it is left out.
use rpcnode.Prelude.{ℕ, GoString, bytes, Bool, false, Option, none, some, List, []}
use rpcnode.Prelude.Dict.{Dict}
use rpcnode.Prelude.Int.{ℤ, pos}
use rpcnode.Json.{
  Json, num, str, obj, end, field, field?, as_object, read_str, read_int, read_uint, ◌>>=◌,
}

-- the constants of `MsgType`
abbrev pub msg_handshake : GoString
msg_handshake = bytes "handshake"

abbrev pub msg_ping : GoString
msg_ping = bytes "ping"

abbrev pub msg_pong : GoString
msg_pong = bytes "pong"

pub record Message : Type 0 where
  pub type : GoString
  pub payload : Option Json

pub record PeerInfo : Type 0 where
  pub id : GoString
  pub chain_id : ℤ
  pub height : ℕ
  pub node_mode : GoString
  pub version : GoString

-- `Peer`: what it has told of itself, the messages that wait to be sent, the oldest first, and whether
-- its `quit` is closed
pub record Peer : Type 0 where
  pub info : Option PeerInfo
  pub send_ch : List Message
  pub closed : Bool

unfoldable pub new_peer : Peer
new_peer = record { info = none; send_ch = []; closed = false }

pub record Network : Type 0 where
  pub peers : Dict Peer
  pub port : ℤ
  pub chain_id : ℤ

unfoldable pub new_network : ℤ → ℤ → Network
new_network port chain_id = record { peers = []; port = port; chain_id = chain_id }

-- the JSON of a `PeerInfo`, by the struct tags
unfoldable pub marshal_info : PeerInfo → Json
marshal_info i = obj (
    field "id" (str i.id) (
      field "chainId" (num i.chain_id) (
        field "height" (num (pos i.height))
          (field "nodeMode" (str i.node_mode) (field "version" (str i.version) end)))))

unfoldable pub unmarshal_info : Json → Option PeerInfo
unmarshal_info doc = do
  fs ← as_object doc
  id ← read_str (field? "id" fs)
  chain_id ← read_int (field? "chainId" fs)
  height ← read_uint (field? "height" fs)
  node_mode ← read_str (field? "nodeMode" fs)
  version ← read_str (field? "version" fs)
  some (record {
    id = id;
    chain_id = chain_id;
    height = height;
    node_mode = node_mode;
    version = version;
  })
