-- ===== src/Rpc/Frame.antt =====
-- What serving JSON-RPC bodies (rpc/server.go) leaves as it was, and what it may add.
use rpcnode.Prelude.{
  ℕ, suc, GoString, str_eq, str_eq_iff, ◌≡◌, refl, ◌∙◌, arith, ◌⊎◌, inl, inr, Option, none, some,
  List, [], ◌∷◌, Bool-cases,
}
use rpcnode.Prelude.Dict.{lookup, lookup-insert}
use rpcnode.Prelude.Ensures.{
  Passage, Keeps, bind-Keeps, pure-Keeps, reads-Keeps, modify-Keeps, ended,
}
use rpcnode.Json.{Json, null, bool, num, real, str, arr, obj}
use rpcnode.Core.Types.{Transaction}
use rpcnode.Rpc.Types.{Server, Panic, RpcRequest, Method, query, eth_send_raw_transaction}
use rpcnode.Rpc.Views.{placeholder_tx}
use rpcnode.Rpc.Dispatch.{keep_pending, answer, dispatch, dispatch_to, methods, view}
use rpcnode.Rpc.Http.{
  dispatch_all, serve_batch, serve_one, serve_body, handle_json_rpc, count_request, read_request,
  read_requests,
}

-- a body and the clock's readings while it is served
pub record Posted : Type 0 where
  pub body : Option Json
  pub clock : ℕ → ℕ

-- the transaction that is pending under a hash says nothing but the hash and the time
abbrev pub IsPlaceholder : GoString → Option Transaction → Type 0
IsPlaceholder h o = (now : ℕ) × (o ≡ some (placeholder_tx h now))

module _ {Doc : Type 0} where
  -- Only the pending transactions differ: a placeholder under a hash stays one, and what is new is one.
  pub record Quiet (s t : Server Doc) : Type 0 where
    pub chain : t.chain ≡ s.chain
    pub filters : t.filters ≡ s.filters
    pub subs : t.subs ≡ s.subs
    pub kept :
        (h : GoString)
        → IsPlaceholder h (lookup h s.pending_tx)
        → IsPlaceholder h (lookup h t.pending_tx)
    pub fresh :
        (h : GoString)
        → (lookup h t.pending_tx ≡ lookup h s.pending_tx) ⊎ IsPlaceholder h (lookup h t.pending_tx)

  pub Quiet-refl : (s : Server Doc) → Quiet s s
  Quiet-refl s = record {
    chain = refl;
    filters = refl;
    subs = refl;
    kept = λ h p. p;
    fresh = λ h. inl refl;
  }

  pub Quiet-trans : (s t u : Server Doc) → Quiet s t → Quiet t u → Quiet s u
  Quiet-trans s t u f g = record {
    chain = g.chain ∙ f.chain;
    filters = g.filters ∙ f.filters;
    subs = g.subs ∙ f.subs;
    kept = λ h p. g.kept h (f.kept h p);
    fresh = λ h. elim (g.fresh h) [
      | inr p ↦ inr p
      | inl e ↦ elim (f.fresh h) [ inl d ↦ inl (e ∙ d) | inr (now, d) ↦ inr (now, e ∙ d) ]
    ];
  }

  abbrev pub quiet : Passage (Server Doc)
  quiet = record { Rel = Quiet; same = Quiet-refl; trans = Quiet-trans }

  keep_pending-Quiet : (h : GoString) (now : ℕ) (s : Server Doc) → Quiet s (keep_pending h now s)
  unfolding keep_pending
  keep_pending-Quiet h now s = record {
    chain = refl;
    filters = refl;
    subs = refl;
    kept = λ j p. elim (Bool-cases (str_eq h j)) [
      | inl e ↦ (
        now,
        ground (arith, lookup-insert j h (placeholder_tx h now) s.pending_tx, str_eq_iff h j),
      )
      | inr e ↦ (p.0, ground (arith, lookup-insert j h (placeholder_tx h now) s.pending_tx, p.1))
    ];
    fresh = λ j. elim (Bool-cases (str_eq h j)) [
      | inl e ↦ inr (
        now,
        ground (arith, lookup-insert j h (placeholder_tx h now) s.pending_tx, str_eq_iff h j),
      )
      | inr e ↦ inl (ground (arith, lookup-insert j h (placeholder_tx h now) s.pending_tx))
    ];
  }

  count_request-Quiet : (s : Server Doc) → Quiet s (count_request s)
  unfolding count_request
  count_request-Quiet s = record {
    chain = refl;
    filters = refl;
    subs = refl;
    kept = λ h p. p;
    fresh = λ h. inl refl;
  }

ruleset walk = (bind-Keeps, pure-Keeps, reads-Keeps, modify-Keeps)

module _ (echoed : Json → Json) (sha256 : GoString → GoString) {Doc : Type 0} where
  answer-Keeps :
      (m : Method) (params : List Json) (now : ℕ)
      → Keeps Panic (quiet {Doc = Doc}) (answer sha256 m params now)
  unfolding answer
  answer-Keeps (query q) params now = reads-Keeps Panic quiet (view q params now)
  answer-Keeps eth_send_raw_transaction params now = search (walk, keep_pending-Quiet)

  dispatch_to-Keeps :
      (m : Option Method) (req : RpcRequest) (now : ℕ)
      → Keeps Panic (quiet {Doc = Doc}) (dispatch_to sha256 m req now)
  dispatch_to-Keeps none req now = search walk
  dispatch_to-Keeps (some m) req now = search (walk, answer-Keeps)

  pub dispatch-Keeps :
      (req : RpcRequest) (now : ℕ) → Keeps Panic (quiet {Doc = Doc}) (dispatch sha256 req now)
  unfolding dispatch
  dispatch-Keeps req now = dispatch_to-Keeps (lookup req.method methods) req now

  module _ (clock : ℕ → ℕ) where
    dispatch_all-Keeps :
        (n : ℕ) (reqs : List RpcRequest)
        → Keeps Panic (quiet {Doc = Doc}) (dispatch_all sha256 clock n reqs)
    unfolding dispatch_all
    dispatch_all-Keeps n [] = search walk
    dispatch_all-Keeps n (req ∷ reqs) =
        let rest = dispatch_all-Keeps (suc n) reqs in search (walk, dispatch-Keeps, rest) depth 9

    serve_batch-Keeps :
        (o : Option (List RpcRequest))
        → Keeps Panic (quiet {Doc = Doc}) (serve_batch sha256 clock o)
    serve_batch-Keeps none = search walk
    serve_batch-Keeps (some reqs) = search (walk, dispatch_all-Keeps)

    serve_one-Keeps :
        (o : Option RpcRequest) → Keeps Panic (quiet {Doc = Doc}) (serve_one sha256 clock o)
    serve_one-Keeps none = search walk
    serve_one-Keeps (some req) = search (walk, dispatch-Keeps)

    serve_body-Keeps :
        (o : Option Json) → Keeps Panic (quiet {Doc = Doc}) (serve_body echoed sha256 clock o)
    serve_body-Keeps none = search walk
    serve_body-Keeps (some (arr js)) = serve_batch-Keeps (read_requests echoed js)
    serve_body-Keeps (some null) = serve_one-Keeps (read_request echoed null)
    serve_body-Keeps (some (bool b)) = serve_one-Keeps (read_request echoed (bool b))
    serve_body-Keeps (some (num n)) = serve_one-Keeps (read_request echoed (num n))
    serve_body-Keeps (some (real r)) = serve_one-Keeps (read_request echoed (real r))
    serve_body-Keeps (some (str x)) = serve_one-Keeps (read_request echoed (str x))
    serve_body-Keeps (some (obj fs)) = serve_one-Keeps (read_request echoed (obj fs))

    handle_json_rpc-Keeps :
        (posted : Option Json)
        → Keeps Panic (quiet {Doc = Doc}) (handle_json_rpc echoed sha256 clock posted)
    unfolding handle_json_rpc
    handle_json_rpc-Keeps posted = search (walk, count_request-Quiet, serve_body-Keeps)

  -- the server after it has served bodies; a panic drops the connection and keeps the state
  unfoldable pub serve_bodies : List Posted → Server Doc → Server Doc
  serve_bodies [] s = s
  serve_bodies (p ∷ ps) s = serve_bodies ps (handle_json_rpc echoed sha256 p.clock p.body s).1

  -- Whatever bodies are served, the chain, the filters and the subscribers are as they were. A pending
  -- transaction that says only its hash and a time stays such a one, and each that was written is one.
  pub serve_bodies-Quiet : (ps : List Posted) (s : Server Doc) → Quiet s (serve_bodies ps s)
  unfolding serve_bodies
  serve_bodies-Quiet [] s = Quiet-refl s
  serve_bodies-Quiet (p ∷ ps) s =
      let t = (handle_json_rpc echoed sha256 p.clock p.body s).1 in
      Quiet-trans s t _ (ended (Quiet s) _ (handle_json_rpc-Keeps p.clock p.body s))
        (serve_bodies-Quiet ps t)
