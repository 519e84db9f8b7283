-- ===== src/Rpc/Bodies.antt =====
-- `handleJSONRPC` (rpc/server.go) on every body: a reply always, and a batch answered in order.
use rpcnode.Prelude.{
  ℕ, ◌^◌, ◌≤◌, GoString, ◌≡◌, refl, Option, none, some, List, ok, ap, ◌∙◌, Result, modify,
}
use rpcnode.Json.{Json, Items, null, bool, num, real, str, arr, obj}
use rpcnode.Rpc.Types.{Server, Panic, RpcRequest, RpcResponse, Reply}
use rpcnode.Rpc.Views.{array}
use rpcnode.Rpc.Http.{
  serve_batch, serve_one, serve_body, handle_json_rpc, count_request, read_request, read_requests,
  json_ok, response_list,
}
use rpcnode.Rpc.Answers.{
  HasBlock, Returns, bind-Returns, pure-Returns, modify-Returns, Answers, AnswersAll,
  dispatch-Returns, dispatch_all-Returns,
}

abbrev Any : Reply → Type 0
Any _ = Unit

-- the reply holds the responses to the requests, in their order
abbrev RepliesInOrder : List RpcRequest → Reply → Type 0
RepliesInOrder reqs reply =
    (rs : List RpcResponse) × (reply ≡ json_ok (array (response_list rs))) × AnswersAll reqs rs

module _ (echoed : Json → Json) (sha256 : GoString → GoString) (clock : ℕ → ℕ)
    (late : (n : ℕ) → 10 ^ 7 ≤ clock n) {Doc : Type 0} where
  batch-Returns :
      (reqs : List RpcRequest)
      → Returns {Doc = Doc} (RepliesInOrder reqs) (serve_batch sha256 clock (some reqs))
  batch-Returns reqs =
      bind-Returns (AnswersAll reqs) (RepliesInOrder reqs) _ _
        (dispatch_all-Returns sha256 clock late 0 reqs)
        (λ rs e. pure-Returns (RepliesInOrder reqs) _ (rs, refl, e))

  known_batch-Returns :
      (o : Option (List RpcRequest)) (reqs : List RpcRequest)
      → o ≡ some reqs
      → Returns {Doc = Doc} (RepliesInOrder reqs) (serve_batch sha256 clock o)
  known_batch-Returns o reqs e = rw e (batch-Returns reqs)

  serve_batch-Returns :
      (o : Option (List RpcRequest)) → Returns {Doc = Doc} Any (serve_batch sha256 clock o)
  serve_batch-Returns none = pure-Returns Any _ tt
  serve_batch-Returns (some reqs) =
      bind-Returns (AnswersAll reqs) Any _ _ (dispatch_all-Returns sha256 clock late 0 reqs)
        (λ rs e. pure-Returns Any _ tt)

  serve_one-Returns : (o : Option RpcRequest) → Returns {Doc = Doc} Any (serve_one sha256 clock o)
  serve_one-Returns none = pure-Returns Any _ tt
  serve_one-Returns (some req) =
      bind-Returns (Answers req) Any _ _ (dispatch-Returns sha256 req (clock 0) (late 0))
        (λ r e. pure-Returns Any _ tt)

  serve_body-Returns :
      (o : Option Json) → Returns {Doc = Doc} Any (serve_body echoed sha256 clock o)
  serve_body-Returns none = pure-Returns Any _ tt
  serve_body-Returns (some (arr js)) = serve_batch-Returns (read_requests echoed js)
  serve_body-Returns (some null) = serve_one-Returns (read_request echoed null)
  serve_body-Returns (some (bool b)) = serve_one-Returns (read_request echoed (bool b))
  serve_body-Returns (some (num n)) = serve_one-Returns (read_request echoed (num n))
  serve_body-Returns (some (real r)) = serve_one-Returns (read_request echoed (real r))
  serve_body-Returns (some (str x)) = serve_one-Returns (read_request echoed (str x))
  serve_body-Returns (some (obj fs)) = serve_one-Returns (read_request echoed (obj fs))

  counted-Returns : Returns {Doc = Doc} (λ _. Unit {0}) (modify count_request)
  unfolding count_request
  counted-Returns = modify-Returns _ (λ s. refl)

  -- On a server whose chain holds a block, and with a clock whose readings in nanoseconds have eight
  -- digits or more, every body gets a reply, whether it is JSON, a request, a batch or none of them,
  -- and the chain still holds a block.
  pub handle_json_rpc_answers :
      (posted : Option Json) (s : Server Doc)
      → HasBlock s
      → (reply : Reply) × (t : Server Doc) × (handle_json_rpc echoed sha256 clock posted s
          ≡ (ok reply, t))
        × HasBlock t
  unfolding handle_json_rpc
  handle_json_rpc_answers posted s h =
      let (reply, t, e, there, _) =
        bind-Returns (λ _. Unit {0}) Any _ _ counted-Returns (λ _ _. serve_body-Returns posted) s
          h in
      (reply, t, e, there)

  -- On a server whose chain holds a block, and with a clock whose readings in nanoseconds have eight
  -- digits or more: a batch that reads as requests is replied to with one response for each of them, in
  -- their order. The ids of the responses are those of the requests, as `encoding/json` writes back what
  -- it has read into an `interface{}`: of a number, the `float64` next to it.
  pub batch_in_order :
      (js : Items) (reqs : List RpcRequest) (s : Server Doc)
      → HasBlock s
      → read_requests echoed js ≡ some reqs
      → (rs : List RpcResponse) × ((handle_json_rpc echoed sha256 clock (some (arr js)) s).0
          ≡ ok (json_ok (array (response_list rs))))
        × AnswersAll reqs rs
  unfolding handle_json_rpc
  batch_in_order js reqs s h reads =
      let (reply, t, e, there, (rs, whole, ids)) =
        bind-Returns (λ _. Unit {0}) (RepliesInOrder reqs) _ _ counted-Returns
          (λ _ _. known_batch-Returns (read_requests echoed js) reqs reads) s h in
      (rs, ap (λ (r : Result Panic Reply × Server Doc). r.0) e ∙ ap ok whole, ids)
