-- ===== src/Rpc/Delivery.antt =====
-- What a WebSocket subscriber (rpc/server.go) is written of the messages that are broadcast.
use rpcnode.Prelude.{
  ℕ, zero, suc, ◌+◌, ◌≤◌, ◌<◌, GoString, str_eq_refl, ◌≡◌, refl, ap, ◌∙◌, arith, Option, none, some,
  List, [], ◌∷◌, ◌++◌, length, length-append,
}
use mathlib.Core.List.{append_assoc, append-nil}
use rpcnode.Prelude.Dict.{lookup, lookup-insert}
use rpcnode.Json.{Json}
use rpcnode.Rpc.Types.{Server}
use rpcnode.Rpc.Sockets.{offer, broadcast_ws, deliver_ws, put_back}
use rpcnode.Rpc.Queues.{lookup-offer_all}

abbrev pub read_message : Option Json → List Json → List Json
read_message none msgs = msgs
read_message (some msg) msgs = msg ∷ msgs

module _ {Doc : Type 0} where
  unfoldable pub broadcast_all : List Json → Server Doc → Server Doc
  broadcast_all [] s = s
  broadcast_all (msg ∷ msgs) s = broadcast_all msgs (broadcast_ws msg s)

  -- what `n` rounds of the goroutine of a subscriber write
  unfoldable pub written : ℕ → GoString → Server Doc → List Json
  written zero i s = []
  written (suc n) i s = let (msg, s') = deliver_ws i s in read_message msg (written n i s')

  pub waiting-broadcast_ws :
      (i : GoString) (msg : Json) (s : Server Doc) (w : List Json)
      → lookup i s.subs ≡ some w
      → length w < 64
      → lookup i (broadcast_ws msg s).subs ≡ some (w ++ msg ∷ [])
  unfolding broadcast_ws offer
  waiting-broadcast_ws i msg s w e room = rw (lookup-offer_all i msg s.subs, e) (ground arith)

  waiting-broadcast_all :
      (i : GoString) (msgs : List Json) (s : Server Doc) (w : List Json)
      → lookup i s.subs ≡ some w
      → length w + length msgs ≤ 64
      → lookup i (broadcast_all msgs s).subs ≡ some (w ++ msgs)
  unfolding broadcast_all
  waiting-broadcast_all i [] s w e room = rw (append-nil w) e
  waiting-broadcast_all i (msg ∷ msgs) s w e room =
      waiting-broadcast_all i msgs (broadcast_ws msg s) (w ++ msg ∷ [])
        (waiting-broadcast_ws i msg s w e (omega (arith, room)))
        (omega (arith, room, length-append w (msg ∷ [])))
      ∙ ap some (append_assoc w (msg ∷ []) msgs)

  written-waiting :
      (i : GoString) (s : Server Doc) (w : List Json)
      → lookup i s.subs ≡ some w
      → written (length w) i s ≡ w
  unfolding written deliver_ws
  written-waiting i s [] e = refl
  written-waiting i s (msg ∷ w) e =
      let rest = put_back i (some w) s in
      let left : lookup i rest.subs ≡ some w =
        ground (arith, lookup-insert i i w s.subs, str_eq_refl i) in
      rw e (ap (λ l. msg ∷ l) (written-waiting i rest w left))

  -- Messages that are broadcast while a subscriber's channel has room for all of them are written to
  -- its connection in the order of the broadcasts, after what waited there before; no other subscriber
  -- changes that.
  pub broadcasts_are_written :
      (i : GoString) (msgs : List Json) (s : Server Doc) (w : List Json)
      → lookup i s.subs ≡ some w
      → length w + length msgs ≤ 64
      → written (length (w ++ msgs)) i (broadcast_all msgs s) ≡ w ++ msgs
  broadcasts_are_written i msgs s w e room =
      written-waiting i (broadcast_all msgs s) (w ++ msgs) (waiting-broadcast_all i msgs s w e room)
