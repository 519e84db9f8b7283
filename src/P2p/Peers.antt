-- ===== src/P2p/Peers.antt =====
-- The methods and the loops of `Peer` (p2p/peer.go). Each round of a loop is one step, and so is
-- `Close`, which panics where `quit` is closed already.
use rpcnode.Prelude.{
  Bool, true, false, none, List, [], ◌∷◌, ◌++◌, length, ltb, if◌then◌else◌, ok, Exec, pure, reads,
  raise_if, modify, ◌>>=◌, ◌>>◌,
}
use rpcnode.P2p.Types.{Message, msg_ping, Peer}

-- a second `close` of the channel `quit`
pub data Panic : Type 0 where
  close_of_closed : Panic

-- `Send`: a message is dropped where 64 wait already
unfoldable pub send : Message → Peer → Peer
send msg p = record p {
  send_ch = if ltb (length p.send_ch) 64 then p.send_ch ++ msg ∷ [] else p.send_ch;
}

unfoldable pub close : Exec Panic Peer (Unit {0})
close = do
  p ← reads (λ p. ok p)
  raise_if p.closed close_of_closed
  modify (λ p. record p { closed = true })

-- how a round of a loop ends
pub data Round : Type 0 where
  again returned : Round

abbrev pub then_return : Exec Panic Peer (Unit {0}) → Exec Panic Peer Round
then_return c = do c; pure returned

-- where decoding failed, `readLoop` looks whether the peer is closed, and closes it in a later step
pub data Reading : Type 0 where
  quits closes : Reading

unfoldable pub read_failed : Exec Panic Peer Reading
read_failed = reads (λ p. ok (if p.closed then quits else closes))

unfoldable pub read_close : Exec Panic Peer Round
unfolding close
read_close = then_return close

-- a round of `pingLoop`, where the ticker has fired
unfoldable pub ping_round : Exec Panic Peer Round
unfolding send
ping_round = do modify (send (record { type = msg_ping; payload = none })); pure again

-- A round of `writeLoop` that takes a message out of the channel: `encoded` says whether it could be
-- written to the connection. `select` may take a message where `quit` is closed as well.
abbrev pub write_taken : Bool → List Message → Exec Panic Peer Round
write_taken encoded [] = pure again
write_taken true (msg ∷ msgs) = do modify (λ p. record p { send_ch = msgs }); pure again
write_taken false (msg ∷ msgs) = do modify (λ p. record p { send_ch = msgs }); then_return close

unfoldable pub write_round : Bool → Exec Panic Peer Round
unfolding close
write_round encoded = do p ← reads (λ p. ok p); write_taken encoded p.send_ch
