-- ===== src/P2p/Network.antt =====
-- `Server` of p2p/peer.go: accepting, dialling, the handling of a message, and `Broadcast`.
use rpcnode.Prelude.{
  ℕ, GoString, bytes, str_eq, Bool, true, false, Option, none, some, [], ◌∷◌, length, if◌then◌else◌,
  Result, ok, err,
}
use rpcnode.Prelude.Dict.{Dict, lookup, insert}
use rpcnode.Json.{◌>>=◌}
use rpcnode.P2p.Types.{
  Message, msg_handshake, msg_ping, msg_pong, PeerInfo, Peer, new_peer, Network, marshal_info,
  unmarshal_info,
}
use rpcnode.P2p.Peers.{send}

-- what `acceptLoop` tells of the node
unfoldable pub own_info : ℕ → Network → PeerInfo
own_info height n = record {
  id = [];
  chain_id = n.chain_id;
  height = height;
  node_mode = bytes "lite";
  version = bytes "1.0.0";
}

unfoldable pub handshake : ℕ → Network → Message
unfolding own_info marshal_info
handshake height n = record {
  type = msg_handshake;
  payload = some (marshal_info (own_info height n));
}

-- A round of `acceptLoop` for a connection from `addr` is two steps, between which other goroutines may
-- run: the peer is put in the table and started, where an entry that the address has already is
-- replaced; then that peer is sent the handshake. The height is the chain's.
unfoldable pub admit : GoString → Network → Network
admit addr n = record n { peers = insert addr new_peer n.peers }

abbrev pub greet_found : GoString → Message → Network → Option Peer → Network
greet_found addr msg n none = n
greet_found addr msg n (some p) = record n { peers = insert addr (send msg p) n.peers }

unfoldable pub greet : GoString → ℕ → Network → Network
unfolding handshake
greet addr height n = greet_found addr (handshake height n) n (lookup addr n.peers)

pub data DialError : Type 0 where
  dial_failed : DialError

-- `ConnectTo`; `dialled` says whether the connection was made
unfoldable pub connect_to : GoString → Bool → Network → Result DialError (Unit {0}) × Network
connect_to addr false n = (err dial_failed, n)
connect_to addr true n = (ok tt, record n { peers = insert addr new_peer n.peers })

-- `if err := json.Unmarshal(…); err == nil { peer.info = &info }`
abbrev pub told : Option PeerInfo → Peer → Peer
told none p = p
told (some i) p = record p { info = some i }

-- `handleMessage`: the peer after it, and the message that the node's own handler is called with
unfoldable pub handle_message : Message → Peer → Peer × Option Message
handle_message msg p =
    if str_eq msg.type msg_ping
    then (send (record { type = msg_pong; payload = none }) p, none)
    else if str_eq msg.type msg_pong
    then (p, none)
    else if str_eq msg.type msg_handshake
    then (told (msg.payload >>= unmarshal_info) p, none)
    else (p, some msg)

unfoldable pub send_all : Message → Dict Peer → Dict Peer
send_all msg [] = []
send_all msg ((addr, p) ∷ peers) = (addr, send msg p) ∷ send_all msg peers

unfoldable pub broadcast : Message → Network → Network
unfolding send_all
broadcast msg n = record n { peers = send_all msg n.peers }

unfoldable pub peer_count : Network → ℕ
peer_count n = length n.peers
