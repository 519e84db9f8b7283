-- ===== src/P2p/Steps.antt =====
-- What can happen to the node's peers (p2p/peer.go), as a step relation, and what holds of every network
-- that such steps lead to.
use rpcnode.Prelude.{
  ℕ, ◌≤◌, GoString, Bool, true, false, str_eq, ◌≡◌, refl, ap, arith, Option, none, some, List, [],
  ◌∷◌, length, length-append, if◌then◌else◌, ◌>>=◌,
}
use rpcnode.Prelude.Dict.{lookup, insert}
use rpcnode.Prelude.Ensures.{
  Passage, Keeps, bind-Keeps, pure-Keeps, reads-Keeps, raise_if-Keeps, modify-Keeps, ended,
}
use rpcnode.P2p.Types.{Message, msg_ping, msg_pong, msg_handshake, PeerInfo, Peer, Network}
use rpcnode.P2p.Peers.{Panic, send, ping_round, write_round, write_taken, read_close}
use rpcnode.P2p.Network.{admit, greet, connect_to, told, handle_message, broadcast}

-- what a peer's loops, and the handling of what it sent, do to it
pub data PeerStep : Peer → Peer → Type 0 where
  pinged : (p : Peer) → PeerStep p (ping_round p).1
  wrote : (encoded : Bool) (p : Peer) → PeerStep p (write_round encoded p).1
  stopped : (p : Peer) → PeerStep p (read_close p).1
  handled : (msg : Message) (p : Peer) → PeerStep p (handle_message msg p).0

pub data Step : Network → Network → Type 0 where
  admitted : (addr : GoString) (n : Network) → Step n (admit addr n)
  greeted : (addr : GoString) (height : ℕ) (n : Network) → Step n (greet addr height n)
  dialled : (addr : GoString) (up : Bool) (n : Network) → Step n (connect_to addr up n).1
  broadcasts : (msg : Message) (n : Network) → Step n (broadcast msg n)
  at_peer :
      (addr : GoString) (p q : Peer) (n : Network)
      → lookup addr n.peers ≡ some p
      → PeerStep p q
      → Step n (record n { peers = insert addr q n.peers })

pub data Reaches : Network → Network → Type 0 where
  here : (n : Network) → Reaches n n
  then' : (n m k : Network) → Step n m → Reaches m k → Reaches n k

-- a peer whose channel is within its capacity
abbrev pub IsBounded : Peer → Type 0
IsBounded p = length p.send_ch ≤ 64

-- the channel keeps its bound, and a closed peer stays closed
pub record Calm (p q : Peer) : Type 0 where
  pub bounded : IsBounded p → IsBounded q
  pub closed : p.closed ≡ true → q.closed ≡ true

abbrev pub calm : Passage Peer
calm = record {
  Rel = Calm;
  same = λ p. record { bounded = λ h. h; closed = λ h. h };
  trans = λ p q r f g. record {
    bounded = λ h. g.bounded (f.bounded h);
    closed = λ h. g.closed (f.closed h);
  };
}

pub send-Calm : (msg : Message) (p : Peer) → Calm p (send msg p)
unfolding send
send-Calm msg p = record {
  bounded = λ h. ground (arith, length-append p.send_ch (msg ∷ []));
  closed = λ h. h;
}

shut-Calm : (p : Peer) → Calm p (record p { closed = true })
shut-Calm p = record { bounded = λ h. h; closed = λ h. refl }

ruleset walk =
    (bind-Keeps, pure-Keeps, reads-Keeps, raise_if-Keeps, modify-Keeps, shut-Calm, send-Calm)

read_close-Keeps : Keeps Panic calm read_close
unfolding read_close
read_close-Keeps = search walk depth 20

ping_round-Keeps : Keeps Panic calm ping_round
unfolding ping_round
ping_round-Keeps = search walk

told-Calm : (o : Option PeerInfo) (p : Peer) → Calm p (told o p)
told-Calm none p = calm.same p
told-Calm (some i) p = record { bounded = λ h. h; closed = λ h. h }

choice : {A : Type 0} (P : A → Type 0) (b : Bool) (x y : A) → P x → P y → P (if b then x else y)
choice P true x y h g = h
choice P false x y h g = g

handle_message-Calm : (msg : Message) (p : Peer) → Calm p (handle_message msg p).0
unfolding handle_message
handle_message-Calm msg p =
    let Fine : Peer × Option Message → Type 0 = λ r. Calm p r.0 in
    choice Fine (str_eq msg.type msg_ping) _ _ (send-Calm _ p) (
      choice Fine (str_eq msg.type msg_pong) _ _ (calm.same p)
        (choice Fine (str_eq msg.type msg_handshake) _ _ (told-Calm _ p) (calm.same p)))

taken-Calm :
    (p : Peer) (msg : Message) (msgs : List Message)
    → p.send_ch ≡ msg ∷ msgs
    → Calm p (record p { send_ch = msgs })
taken-Calm p msg msgs e = record {
  bounded = λ h. omega (arith, h, ap (λ (l : List Message). length l) e);
  closed = λ h. h;
}

write_taken-Calm :
    (encoded : Bool) (msgs : List Message) (p : Peer)
    → p.send_ch ≡ msgs
    → Calm p (write_taken encoded msgs p).1
unfolding ◌>>=◌ read_close
write_taken-Calm true [] p e = calm.same p
write_taken-Calm false [] p e = calm.same p
write_taken-Calm true (msg ∷ msgs) p e = taken-Calm p msg msgs e
write_taken-Calm false (msg ∷ msgs) p e =
    let q = record p { send_ch = msgs } in
    calm.trans p q _ (taken-Calm p msg msgs e) (ended (Calm q) _ (read_close-Keeps q))

write_round-Calm : (encoded : Bool) (p : Peer) → Calm p (write_round encoded p).1
unfolding write_round ◌>>=◌
write_round-Calm encoded p = write_taken-Calm encoded p.send_ch p refl

pub PeerStep-Calm : {p q : Peer} → PeerStep p q → Calm p q
PeerStep-Calm (pinged p) = ended (Calm p) _ (ping_round-Keeps p)
PeerStep-Calm (wrote encoded p) = write_round-Calm encoded p
PeerStep-Calm (stopped p) = ended (Calm p) _ (read_close-Keeps p)
PeerStep-Calm (handled msg p) = handle_message-Calm msg p
