-- ===== src/Rpc/Queues.antt =====
-- The channels of the WebSocket subscribers (rpc/server.go) over sequences of events: their bound, and
-- what a subscriber is sent.
use rpcnode.Prelude.{
  ◌≤◌, GoString, ◌≡◌, refl, sym, ◌∙◌, arith, Option, none, some, List, [], ◌∷◌, length,
  length-append,
}
use rpcnode.Prelude.Dict.{Dict, lookup, insert, erase, lookup-insert, lookup-erase}
use rpcnode.Json.{Json}
use rpcnode.Rpc.Types.{Server}
use rpcnode.Rpc.Sockets.{
  offer, offer_all, broadcast_ws, join_ws, leave_ws, deliver_ws, delivered, put_back,
}

pub data SocketEvent : Type 0 where
  joined left wrote : GoString → SocketEvent
  announced : Json → SocketEvent

abbrev pub offered : Json → Option (List Json) → Option (List Json)
offered msg none = none
offered msg (some waiting) = some (offer msg waiting)

pub lookup-offer_all :
    (i : GoString) (msg : Json) (subs : Dict (List Json))
    → lookup i (offer_all msg subs) ≡ offered msg (lookup i subs)
unfolding lookup offer_all
lookup-offer_all i msg [] = refl
lookup-offer_all i msg ((j, waiting) ∷ subs) = ground (arith, lookup-offer_all i msg subs)

-- the channel of each subscriber is within its capacity
abbrev pub AreBounded : Dict (List Json) → Type 0
AreBounded subs =
    (i : GoString) (waiting : List Json) → lookup i subs ≡ some waiting → length waiting ≤ 64

offer-bound : (msg : Json) (w : List Json) → length w ≤ 64 → length (offer msg w) ≤ 64
unfolding offer
offer-bound msg w h = ground (arith, length-append w (msg ∷ []))

offered-bound :
    (msg : Json) (o : Option (List Json)) (w : List Json)
    → ((v : List Json) → o ≡ some v → length v ≤ 64)
    → offered msg o ≡ some w
    → length w ≤ 64
offered-bound msg none w h e = absurd (ground (arith, e))
offered-bound msg (some v) w h e =
    let same : offer msg v ≡ w = ground (arith, e) in rw (sym same) (offer-bound msg v (h v refl))

offer_all-AreBounded :
    (msg : Json) (subs : Dict (List Json)) → AreBounded subs → AreBounded (offer_all msg subs)
offer_all-AreBounded msg subs h i w e =
    offered-bound msg (lookup i subs) w (h i) (sym (lookup-offer_all i msg subs) ∙ e)

insert-AreBounded :
    (j : GoString) (v : List Json) (subs : Dict (List Json))
    → length v ≤ 64
    → AreBounded subs
    → AreBounded (insert j v subs)
insert-AreBounded j v subs few h i w e = ground (arith, few, e, lookup-insert i j v subs, h i w)

erase-AreBounded :
    (j : GoString) (subs : Dict (List Json)) → AreBounded subs → AreBounded (erase j subs)
erase-AreBounded j subs h i w e = ground (arith, e, lookup-erase i j subs, h i w)

put_back-AreBounded :
    {Doc : Type 0} (i : GoString) (o : Option (List Json)) (s : Server Doc)
    → ((w : List Json) → o ≡ some w → length w ≤ 64)
    → AreBounded s.subs
    → AreBounded (put_back i (delivered o).1 s).subs
put_back-AreBounded i none s few h = h
put_back-AreBounded i (some []) s few h = insert-AreBounded i [] s.subs (omega arith) h
put_back-AreBounded i (some (msg ∷ w)) s few h =
    insert-AreBounded i w s.subs (omega (arith, few (msg ∷ w) refl)) h

module _ {Doc : Type 0} where
  unfoldable pub on_event : SocketEvent → Server Doc → Server Doc
  on_event (joined i) s = join_ws i s
  on_event (left i) s = leave_ws i s
  on_event (wrote i) s = (deliver_ws i s).1
  on_event (announced msg) s = broadcast_ws msg s

  unfoldable pub on_events : List SocketEvent → Server Doc → Server Doc
  unfolding on_event
  on_events [] s = s
  on_events (e ∷ es) s = on_events es (on_event e s)

  on_event-AreBounded :
      (e : SocketEvent) (s : Server Doc) → AreBounded s.subs → AreBounded (on_event e s).subs
  unfolding on_event broadcast_ws join_ws leave_ws deliver_ws
  on_event-AreBounded (joined i) s h = insert-AreBounded i [] s.subs (omega arith) h
  on_event-AreBounded (left i) s h = erase-AreBounded i s.subs h
  on_event-AreBounded (wrote i) s h = put_back-AreBounded i (lookup i s.subs) s (h i) h
  on_event-AreBounded (announced msg) s h = offer_all-AreBounded msg s.subs h

  -- However subscribers join, leave and read, and whatever is broadcast in between, no channel holds
  -- more than 64 messages if none did.
  pub on_events-AreBounded :
      (es : List SocketEvent) (s : Server Doc)
      → AreBounded s.subs
      → AreBounded (on_events es s).subs
  unfolding on_events
  on_events-AreBounded [] s h = h
  on_events-AreBounded (e ∷ es) s h =
      on_events-AreBounded es (on_event e s) (on_event-AreBounded e s h)
