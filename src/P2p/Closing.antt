-- ===== src/P2p/Closing.antt =====
-- `Close` (p2p/peer.go) called by two of a peer's loops.
use rpcnode.Prelude.{false, ◌≡◌, refl, List, ◌∷◌, ok, err, ◌>>=◌}
use rpcnode.P2p.Types.{Message, Peer}
use rpcnode.P2p.Peers.{
  close_of_closed, close, returned, closes, read_failed, read_close, write_round,
}

module _ (p : Peer) (msg : Message) (msgs : List Message) (up : p.closed ≡ false)
    (waits : p.send_ch ≡ msg ∷ msgs) where
  -- Where a message waits for a peer that is not closed, the failures of a read and of a write close it
  -- twice: `readLoop` finds it open, `writeLoop` closes it, and the `Close` of `readLoop` panics. The
  -- other way round, `writeLoop` may take the message after `readLoop` has closed the peer, and panics
  -- when it cannot be written.
  pub both_loops_close :
      (read_failed p ≡ (ok closes, p))
      × ((write_round false p).0 ≡ ok returned)
      × ((read_close (write_round false p).1).0 ≡ err close_of_closed)
      × ((read_close p).0 ≡ ok returned)
      × ((write_round false (read_close p).1).0 ≡ err close_of_closed)
  unfolding ◌>>=◌ close read_failed read_close write_round
  both_loops_close = rw (up, waits) (refl, refl, refl, refl, refl)
