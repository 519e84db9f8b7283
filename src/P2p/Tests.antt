-- ===== src/P2p/Tests.antt =====
-- The theorems about peers on a small network.
use rpcnode.Prelude.{bytes, ◌≡◌, refl, arith, false, none, some, [], ◌∷◌, ok, err}
use rpcnode.Prelude.Dict.{lookup}
use rpcnode.Prelude.Int.{pos}
use rpcnode.P2p.Types.{Message, Peer, Network, new_peer, new_network}
use rpcnode.P2p.Peers.{close_of_closed, returned, closes, read_failed, read_close, write_round}
use rpcnode.P2p.Network.{own_info, handshake, admit, greet, handle_message, broadcast}
use rpcnode.P2p.Steps.{Reaches, here, then', admitted, greeted, broadcasts}
use rpcnode.P2p.Reached.{Tame, Reaches-Tame}
use rpcnode.P2p.Handshake.{broadcast_all, accept_introduces}
use rpcnode.P2p.Closing.{both_loops_close}

abbrev block_news : Message
block_news = record { type = bytes "newBlock"; payload = none }

abbrev start : Network
start = new_network (pos 30303) (pos 13370)

abbrev joined : Network
joined = admit (bytes "a:1") start

abbrev told_all : Network
told_all = broadcast block_news joined

abbrev met : Network
met = greet (bytes "a:1") 5 told_all

joined-Reaches : Reaches start met
joined-Reaches = then' start joined met (admitted (bytes "a:1") start) (
    then' joined told_all met (broadcasts block_news joined)
      (then' told_all met met (greeted (bytes "a:1") 5 told_all) (here met)))

Reaches-Tame_example : Tame start met
Reaches-Tame_example = Reaches-Tame joined-Reaches

abbrev ping : Message
ping = record { type = bytes "ping"; payload = none }

accept_introduces_example :
    (lookup
        (bytes "a:1")
        (broadcast_all (ping ∷ []) (
          greet
            (bytes "a:1")
            5
            (broadcast_all (block_news ∷ []) (admit (bytes "a:1") start)))).peers
      ≡ some (record new_peer { send_ch = block_news ∷ handshake 5 start ∷ ping ∷ [] }))
    × ((handle_message (handshake 5 start) new_peer).0
        ≡ record new_peer { info = some (own_info 5 start) })
accept_introduces_example =
    accept_introduces (bytes "a:1") 5 start (block_news ∷ []) (ping ∷ []) new_peer (omega arith)

abbrev busy : Peer
busy = record { info = none; send_ch = block_news ∷ []; closed = false }

both_loops_close_example :
    (read_failed busy ≡ (ok closes, busy))
    × ((write_round false busy).0 ≡ ok returned)
    × ((read_close (write_round false busy).1).0 ≡ err close_of_closed)
    × ((read_close busy).0 ≡ ok returned)
    × ((write_round false (read_close busy).1).0 ≡ err close_of_closed)
both_loops_close_example = both_loops_close busy block_news [] refl refl
