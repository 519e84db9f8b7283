-- ===== src/Rpc/Http.antt =====
-- `handleJSONRPC`, `jsonOK` and `jsonErr` (rpc/server.go). The body is what `encoding/json` parses it
-- to, `none` where it is no JSON; the fields of a request are spelled as the tags have them.
use Prim.Native.String.{String}
use rpcnode.Prelude.{
  ℕ, suc, ◌+◌, ◌%◌, ◌^◌, GoString, bytes, Option, none, some, List, [], ◌∷◌, Exec, pure, modify,
  ◌>>=◌, ◌>>◌,
}
use rpcnode.Json.{
  Json, null, str, arr, obj, Items, nil, cons, Fields, end, field, field?, as_object, read_str,
}
use rpcnode.Core.Views.{object}
use rpcnode.Rpc.Types.{Server, Panic, RpcRequest, RpcResponse, Reply}
use rpcnode.Rpc.Views.{array}
use rpcnode.Rpc.Dispatch.{dispatch}

unfoldable pub json_ok : Json → Reply
json_ok v = record { code = 200; body = v }

unfoldable pub json_err : ℕ → GoString → Reply
json_err status msg = record { code = status; body = object (("error", str msg) ∷ []) }

abbrev item_list : Items → List Json
item_list nil = []
item_list (cons j js) = j ∷ item_list js

-- `[]interface{}`
abbrev read_params : Json → Option (List Json)
read_params null = some []
read_params (arr js) = some (item_list js)
read_params _ = none

abbrev make_request :
    Json → Option GoString → Option GoString → Option (List Json) → Option RpcRequest
make_request i (some v) (some m) (some ps) = some (record { method = m; params = ps; id = i })
make_request i _ _ _ = none

abbrev request_of : (Json → Json) → Option Fields → Option RpcRequest
request_of echoed none = none
request_of echoed (some fs) =
    make_request (echoed (field? "id" fs)) (read_str (field? "jsonrpc" fs))
      (read_str (field? "method" fs)) (read_params (field? "params" fs))

-- `json.Unmarshal` into a `jsonRPCRequest`. The id is an `interface{}`, in which a number is a
-- `float64`: `echoed` is what `encoding/json` writes for what it has read into one. It is a parameter,
-- since it is not the value that was read where the number is an integer above 2^53, say.
unfoldable pub read_request : (Json → Json) → Json → Option RpcRequest
read_request echoed j = request_of echoed (as_object j)

abbrev prepend : {A : Type 0} → Option A → Option (List A) → Option (List A)
prepend (some a) (some l) = some (a ∷ l)
prepend _ _ = none

-- into a slice of them
unfoldable pub read_requests : (Json → Json) → Items → Option (List RpcRequest)
read_requests echoed nil = some []
read_requests echoed (cons j js) = prepend (read_request echoed j) (read_requests echoed js)

abbrev omit_nil : String → Option Json → Fields → Fields
omit_nil k none fs = fs
omit_nil k (some j) fs = field k j fs

-- a `jsonRPCResponse` as JSON; the nil result and the nil error are left out
unfoldable pub response_json : RpcResponse → Json
response_json r = obj (
    field "jsonrpc" (str (bytes "2.0"))
      (omit_nil "result" r.result (omit_nil "error" r.error (field "id" r.id end))))

abbrev pub response_list : List RpcResponse → List Json
response_list [] = []
response_list (r ∷ rs) = response_json r ∷ response_list rs

module _ {Doc : Type 0} where
  -- `atomic.AddInt64(&s.reqTotal, 1)`
  unfoldable pub count_request : Server Doc → Server Doc
  count_request s = record s { req_total = (s.req_total + 1) % 2 ^ 64 }

-- `clock n` is the reading of the clock at the n-th request of a batch
module _ (sha256 : GoString → GoString) (clock : ℕ → ℕ) {Doc : Type 0} where
  -- the loop over a batch, from its n-th request on
  unfoldable pub dispatch_all : ℕ → List RpcRequest → Exec Panic (Server Doc) (List RpcResponse)
  unfolding dispatch
  dispatch_all n [] = pure []
  dispatch_all n (req ∷ reqs) = do
    r ← dispatch sha256 req (clock n)
    rs ← dispatch_all (suc n) reqs
    pure (r ∷ rs)

  abbrev pub serve_batch : Option (List RpcRequest) → Exec Panic (Server Doc) Reply
  serve_batch none = pure (json_err 400 (bytes "invalid batch JSON"))
  serve_batch (some reqs) = do rs ← dispatch_all 0 reqs; pure (json_ok (array (response_list rs)))

  abbrev pub serve_one : Option RpcRequest → Exec Panic (Server Doc) Reply
  serve_one none = pure (json_err 400 (bytes "invalid JSON"))
  serve_one (some req) = do r ← dispatch sha256 req (clock 0); pure (json_ok (response_json r))

module _ (echoed : Json → Json) (sha256 : GoString → GoString) (clock : ℕ → ℕ) {Doc : Type 0} where
  -- a body that begins with `[` is a batch
  abbrev pub serve_body : Option Json → Exec Panic (Server Doc) Reply
  serve_body none = pure (json_err 400 (bytes "invalid JSON"))
  serve_body (some (arr js)) = serve_batch sha256 clock (read_requests echoed js)
  serve_body (some j) = serve_one sha256 clock (read_request echoed j)

  unfoldable pub handle_json_rpc : Option Json → Exec Panic (Server Doc) Reply
  unfolding dispatch_all json_ok json_err response_json read_request read_requests count_request
  handle_json_rpc posted = do modify count_request; serve_body posted
