-- ===== src/P2p/Handshake.antt =====
-- The handshake (p2p/peer.go) from the node that accepts a connection to the one that handles it, and
-- the order in which a peer is sent what is broadcast.
use rpcnode.Prelude.{
  ℕ, ◌+◌, ◌≤◌, ◌<◌, GoString, str_eq, str_eq_refl, ◌≡◌, refl, ap, ◌∙◌, arith, some, List, [], ◌∷◌,
  ◌++◌, length, length-append,
}
use mathlib.Core.List.{append_assoc, append-nil}
use rpcnode.Prelude.Dict.{lookup, lookup-insert}
use rpcnode.P2p.Types.{Message, PeerInfo, Peer, Network, new_peer, marshal_info, unmarshal_info}
use rpcnode.P2p.Peers.{send}
use rpcnode.P2p.Network.{own_info, handshake, admit, greet, handle_message, broadcast}
use rpcnode.P2p.Reached.{lookup-send_all}

unmarshal_info-marshal_info : (i : PeerInfo) → unmarshal_info (marshal_info i) ≡ some i
unfolding unmarshal_info marshal_info
unmarshal_info-marshal_info i = refl

told_of :
    (height : ℕ) (n : Network) (q : Peer)
    → (handle_message (handshake height n) q).0 ≡ record q { info = some (own_info height n) }
unfolding handle_message str_eq handshake
told_of height n q = rw (unmarshal_info-marshal_info (own_info height n)) refl

unfoldable pub broadcast_all : List Message → Network → Network
broadcast_all [] n = n
broadcast_all (msg ∷ msgs) n = broadcast_all msgs (broadcast msg n)

send-room :
    (msg : Message) (p : Peer)
    → length p.send_ch < 64
    → send msg p ≡ record p { send_ch = p.send_ch ++ msg ∷ [] }
unfolding send
send-room msg p h = ground arith

waiting-broadcast :
    (addr : GoString) (msg : Message) (n : Network) (p : Peer)
    → lookup addr n.peers ≡ some p
    → length p.send_ch < 64
    → lookup addr (broadcast msg n).peers ≡ some (record p { send_ch = p.send_ch ++ msg ∷ [] })
unfolding broadcast
waiting-broadcast addr msg n p e room =
    rw (lookup-send_all addr msg n.peers, e) (ap some (send-room msg p room))

-- Messages that are broadcast while a peer's channel has room for all of them wait for it in the order
-- of the broadcasts, behind those that waited before.
waiting-broadcast_all :
    (addr : GoString) (msgs : List Message) (n : Network) (p : Peer)
    → lookup addr n.peers ≡ some p
    → length p.send_ch + length msgs ≤ 64
    → lookup addr (broadcast_all msgs n).peers ≡ some (record p { send_ch = p.send_ch ++ msgs })
unfolding broadcast_all
waiting-broadcast_all addr [] n p e room = rw (append-nil p.send_ch) e
waiting-broadcast_all addr (msg ∷ msgs) n p e room =
    let q = record p { send_ch = p.send_ch ++ msg ∷ [] } in
    waiting-broadcast_all addr msgs (broadcast msg n) q
      (waiting-broadcast addr msg n p e (omega (arith, room)))
      (omega (arith, room, length-append p.send_ch (msg ∷ [])))
    ∙ ap (λ l. some (record p { send_ch = l })) (append_assoc p.send_ch (msg ∷ []) msgs)

handshake-broadcast_all :
    (height : ℕ) (msgs : List Message) (n : Network)
    → handshake height (broadcast_all msgs n) ≡ handshake height n
unfolding broadcast_all broadcast handshake own_info
handshake-broadcast_all height [] n = refl
handshake-broadcast_all height (msg ∷ msgs) n =
    handshake-broadcast_all height msgs (broadcast msg n)

admitted_peer : (addr : GoString) (n : Network) → lookup addr (admit addr n).peers ≡ some new_peer
unfolding admit
admitted_peer addr n = ground (arith, lookup-insert addr addr new_peer n.peers, str_eq_refl addr)

greeted_peer :
    (addr : GoString) (height : ℕ) (n : Network) (p : Peer)
    → lookup addr n.peers ≡ some p
    → length p.send_ch < 64
    → lookup addr (greet addr height n).peers
      ≡ some (record p { send_ch = p.send_ch ++ handshake height n ∷ [] })
unfolding greet
greeted_peer addr height n p e room = rw e (
    ground (
      arith,
      lookup-insert addr addr (send (handshake height n) p) n.peers,
      str_eq_refl addr,
      send-room (handshake height n) p room,
    ))

-- A node that accepts a connection puts the peer in its table and then sends it a handshake. Messages
-- that are broadcast in between wait before the handshake and those that are broadcast afterwards wait
-- behind it, all in the order of the broadcasts, where they are fewer than 64 and none of the
-- peer's loops has run. The node that handles the handshake knows the chain's id, the height, the mode and the
-- version that were told.
pub accept_introduces :
    (addr : GoString) (height : ℕ) (n : Network) (before after : List Message) (q : Peer)
    → length before + length after < 64
    → (lookup addr
          (broadcast_all after (greet addr height (broadcast_all before (admit addr n)))).peers
        ≡ some (record new_peer { send_ch = before ++ handshake height n ∷ after }))
      × ((handle_message (handshake height n) q).0 ≡ record q { info = some (own_info height n) })
unfolding new_peer admit handshake own_info
accept_introduces addr height n before after q few =
    let m = broadcast_all before (admit addr n) in
    let p = record new_peer { send_ch = before } in
    let waits : lookup addr m.peers ≡ some p =
      waiting-broadcast_all addr before (admit addr n) new_peer (admitted_peer addr n)
        (omega (arith, few)) in
    let told = greeted_peer addr height m p waits (omega (arith, few)) in
    (
      waiting-broadcast_all addr after (greet addr height m) _ told
            (omega (arith, few, length-append before (handshake height m ∷ [])))
          ∙ ap (λ l. some (record p { send_ch = l }))
              (append_assoc before (handshake height m ∷ []) after
                ∙ ap (λ x. before ++ x ∷ after)
                    (handshake-broadcast_all height before (admit addr n))),
      told_of height n q,
    )
