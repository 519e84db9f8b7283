-- ===== src/P2p/Reached.antt =====
-- What holds of every network that steps (P2p/Steps) lead to.
use rpcnode.Prelude.{
  GoString, true, false, ◌≡◌, ◌≢◌, refl, sym, ◌∙◌, arith, Option, none, some, [], ◌∷◌,
}
use rpcnode.Prelude.Dict.{Dict, lookup, insert, lookup-insert}
use rpcnode.P2p.Types.{Message, Peer, new_peer, Network}
use rpcnode.P2p.Peers.{send}
use rpcnode.P2p.Network.{handshake, admit, greet, greet_found, connect_to, send_all, broadcast}
use rpcnode.P2p.Steps.{
  Step, admitted, greeted, dialled, broadcasts, at_peer, Reaches, here, then', IsBounded, send-Calm,
  PeerStep-Calm,
}

abbrev pub AreBounded : Dict Peer → Type 0
AreBounded peers = (addr : GoString) (p : Peer) → lookup addr peers ≡ some p → IsBounded p

-- the chain's id is the same, an address that is known stays known, and channels keep their bound
pub record Tame (n m : Network) : Type 0 where
  pub chain_id : m.chain_id ≡ n.chain_id
  pub known : (addr : GoString) → lookup addr n.peers ≢ none → lookup addr m.peers ≢ none
  pub bounded : AreBounded n.peers → AreBounded m.peers

abbrev sent : Message → Option Peer → Option Peer
sent msg none = none
sent msg (some p) = some (send msg p)

pub lookup-send_all :
    (addr : GoString) (msg : Message) (peers : Dict Peer)
    → lookup addr (send_all msg peers) ≡ sent msg (lookup addr peers)
unfolding lookup send_all
lookup-send_all addr msg [] = refl
lookup-send_all addr msg ((j, p) ∷ peers) = ground (arith, lookup-send_all addr msg peers)

insert-Tame :
    (addr : GoString) (q : Peer) (n : Network)
    → (AreBounded n.peers → IsBounded q)
    → Tame n (record n { peers = insert addr q n.peers })
insert-Tame addr q n few = record {
  chain_id = refl;
  known = λ a h e. h (ground (arith, e, lookup-insert a addr q n.peers));
  bounded = λ h a p e. inserted-IsBounded addr q n.peers (few h) h a p e;
}
  where
    inserted-IsBounded :
        (j : GoString) (v : Peer) (d : Dict Peer)
        → IsBounded v
        → AreBounded d
        → AreBounded (insert j v d)
    inserted-IsBounded j v d f h a p e = ground (arith, f, e, lookup-insert a j v d, h a p)

sent-IsBounded :
    (msg : Message) (o : Option Peer) (q : Peer)
    → ((p : Peer) → o ≡ some p → IsBounded p)
    → sent msg o ≡ some q
    → IsBounded q
sent-IsBounded msg none q h e = absurd (ground (arith, e))
sent-IsBounded msg (some p) q h e =
    let same : send msg p ≡ q = ground (arith, e) in
    rw (sym same) ((send-Calm msg p).bounded (h p refl))

sent-known : (msg : Message) (o : Option Peer) → o ≢ none → sent msg o ≢ none
sent-known msg none h e = h refl
sent-known msg (some p) h e = ground (arith, e)

broadcast-Tame : (msg : Message) (n : Network) → Tame n (broadcast msg n)
unfolding broadcast
broadcast-Tame msg n = record {
  chain_id = refl;
  known = λ a h. rw (lookup-send_all a msg n.peers) (sent-known msg (lookup a n.peers) h);
  bounded = λ h a q e.
      sent-IsBounded msg (lookup a n.peers) q (h a) (sym (lookup-send_all a msg n.peers) ∙ e);
}

new_peer-IsBounded : IsBounded new_peer
unfolding new_peer
new_peer-IsBounded = omega arith

greet_found-Tame :
    (addr : GoString) (msg : Message) (n : Network) (o : Option Peer)
    → lookup addr n.peers ≡ o
    → Tame n (greet_found addr msg n o)
greet_found-Tame addr msg n none e = record { chain_id = refl; known = λ a h. h; bounded = λ h. h }
greet_found-Tame addr msg n (some p) e =
    insert-Tame addr _ n (λ h. (send-Calm msg p).bounded (h addr p e))

Step-Tame : {n m : Network} → Step n m → Tame n m
unfolding admit greet connect_to
Step-Tame (admitted addr n) = insert-Tame addr new_peer n (λ h. new_peer-IsBounded)
Step-Tame (greeted addr height n) =
    greet_found-Tame addr (handshake height n) n (lookup addr n.peers) refl
Step-Tame (dialled addr true n) = insert-Tame addr new_peer n (λ h. new_peer-IsBounded)
Step-Tame (dialled addr false n) = record { chain_id = refl; known = λ a h. h; bounded = λ h. h }
Step-Tame (broadcasts msg n) = broadcast-Tame msg n
Step-Tame (at_peer addr p q n e s) =
    insert-Tame addr q n (λ h. (PeerStep-Calm s).bounded (h addr p e))

-- Steps keep the chain's id and the bound of 64 messages that wait for a peer. An address that has a
-- peer has one ever after: nothing takes a peer out of the table, also when its connection is closed.
pub Reaches-Tame : {n m : Network} → Reaches n m → Tame n m
Reaches-Tame (here n) = record { chain_id = refl; known = λ a h. h; bounded = λ h. h }
Reaches-Tame (then' n m k s r) =
    let first = Step-Tame s in
    let rest = Reaches-Tame r in
    record {
      chain_id = rest.chain_id ∙ first.chain_id;
      known = λ a h. rest.known a (first.known a h);
      bounded = λ h. rest.bounded (first.bounded h);
    }
