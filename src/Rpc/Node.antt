-- ===== src/Rpc/Node.antt =====
-- The server of main.go: on the chain that `NewChain` made, while the engine inserts blocks and clients
-- post bodies, in any order.
use rpcnode.Prelude.{ℕ, ◌^◌, ◌≤◌, GoString, ◌≡◌, ap, ◌∙◌, Option, some, List, [], ◌∷◌, ok}
use rpcnode.Json.{Json}
use rpcnode.Core.Types.{Block, GenesisConfig, Chain}
use rpcnode.Core.Chain.{last, new_chain, insert_block}
use rpcnode.Core.Started.{new_chain-HasHead, insert_block-HasHead}
use rpcnode.Rpc.Types.{Server, Reply, new_server}
use rpcnode.Rpc.Http.{handle_json_rpc}
use rpcnode.Rpc.Frame.{Posted, serve_bodies, serve_bodies-Quiet}
use rpcnode.Rpc.Answers.{HasBlock}
use rpcnode.Rpc.Bodies.{handle_json_rpc_answers}

-- the engine inserts a block, or a client posts a body
pub data NodeEvent : Type 0 where
  proposed : Block → NodeEvent
  posted : Posted → NodeEvent

module _ (echoed : Json → Json) (sha256 : GoString → GoString) {Doc : Type 0}
    (marshal : Block → Option Doc) where
  unfoldable pub after_event : NodeEvent → Server Doc → Server Doc
  after_event (proposed b) s = record s { chain = (insert_block marshal b s.chain).1 }
  after_event (posted p) s = serve_bodies echoed sha256 (p ∷ []) s

  unfoldable pub after_events : List NodeEvent → Server Doc → Server Doc
  unfolding after_event
  after_events [] s = s
  after_events (e ∷ es) s = after_events es (after_event e s)

  after_event-HasBlock : (e : NodeEvent) (s : Server Doc) → HasBlock s → HasBlock (after_event e s)
  unfolding after_event
  after_event-HasBlock (proposed b) s h = insert_block-HasHead marshal b s.chain h
  after_event-HasBlock (posted p) s (b, top) =
      let q = serve_bodies-Quiet echoed sha256 (p ∷ []) s in
      (b, ap (λ (c : Chain Doc). last c.blocks) q.chain ∙ top)

  after_events-HasBlock :
      (es : List NodeEvent) (s : Server Doc) → HasBlock s → HasBlock (after_events es s)
  unfolding after_events
  after_events-HasBlock [] s h = h
  after_events-HasBlock (e ∷ es) s h =
      after_events-HasBlock es (after_event e s) (after_event-HasBlock e s h)

  -- A server on a new chain answers every body that is posted to it, be it JSON, a request, a batch or
  -- none of them, after any blocks and any other bodies before it, in any order. The clock's readings
  -- in nanoseconds have eight digits or more.
  pub node_answers :
      (unmarshal : Doc → Option Block) (g : GenesisConfig) (dir : GoString) (c : Chain Doc)
      (cors : List GoString) (es : List NodeEvent) (clock : ℕ → ℕ) (body : Option Json)
      → new_chain unmarshal sha256 g dir ≡ some c
      → ((n : ℕ) → 10 ^ 7 ≤ clock n)
      → (reply : Reply) × ((handle_json_rpc echoed sha256 clock body
            (after_events es (new_server c cors))).0
          ≡ ok reply)
  unfolding new_server
  node_answers unmarshal g dir c cors es clock body made late =
      let start = new_server c cors in
      let ready =
        after_events-HasBlock es start (new_chain-HasHead sha256 unmarshal g dir c made) in
      let (reply, t, e, there) = handle_json_rpc_answers echoed sha256 clock late body _ ready in
      (reply, ap (λ r. r.0) e)
