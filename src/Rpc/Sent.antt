-- ===== src/Rpc/Sent.antt =====
-- `eth_sendRawTransaction` and `eth_getTransactionByHash` (rpc/server.go) together.
use rpcnode.Prelude.{
  ℕ, GoString, bytes, str_eq, str_eq_refl, ◌≡◌, refl, arith, none, some, List, [], ◌∷◌, ok, ap, ◌∙◌,
  ◌>>=◌, Result,
}
use rpcnode.Prelude.Dict.{lookup, lookup-insert}
use rpcnode.Json.{Json, str}
use rpcnode.Core.Chain.{get_transaction}
use rpcnode.Rpc.Types.{
  Server, Panic, RpcRequest, RpcResponse, query, eth_get_transaction_by_hash,
  eth_send_raw_transaction,
}
use rpcnode.Rpc.Views.{placeholder_tx, tx_to_rpc, hash_raw_tx}
use rpcnode.Rpc.Dispatch.{keep_pending, dispatch, methods}
use rpcnode.Rpc.Frame.{Posted, IsPlaceholder, serve_bodies, serve_bodies-Quiet}

send_label : lookup (bytes "eth_sendRawTransaction") methods ≡ some eth_send_raw_transaction
unfolding lookup str_eq methods
send_label = refl

find_label :
    lookup (bytes "eth_getTransactionByHash") methods ≡ some (query eth_get_transaction_by_hash)
unfolding lookup str_eq methods
find_label = refl

-- the pending transaction under `h`, as clients see it
abbrev pub shown : GoString → Json
shown h = tx_to_rpc (placeholder_tx h 0)

abbrev pub sending : GoString → Json → RpcRequest
sending raw i = record { method = bytes "eth_sendRawTransaction"; params = str raw ∷ []; id = i }

abbrev pub asking : GoString → Json → RpcRequest
asking h i = record { method = bytes "eth_getTransactionByHash"; params = str h ∷ []; id = i }

abbrev pub answered : Json → Json → RpcResponse
answered i j = record { result = some j; error = none; id = i }

module _ (sha256 : GoString → GoString) {Doc : Type 0} where
  sent :
      (s : Server Doc) (raw : GoString) (i : Json) (now : ℕ)
      → let h = hash_raw_tx sha256 raw in
        dispatch sha256 (sending raw i) now s ≡ (ok (answered i (str h)), keep_pending h now s)
  unfolding dispatch ◌>>=◌
  sent s raw i now = rw send_label refl

  found :
      (s : Server Doc) (h : GoString) (i : Json) (now : ℕ)
      → get_transaction h s.chain ≡ none
      → IsPlaceholder h (lookup h s.pending_tx)
      → dispatch sha256 (asking h i) now s ≡ (ok (answered i (shown h)), s)
  unfolding dispatch ◌>>=◌ tx_to_rpc placeholder_tx
  found s h i now absent (then', e) = rw (find_label, absent, e) refl

  -- A raw transaction whose hash the chain does not have is pending once it is sent: the response is
  -- its hash, and after any bodies that are served from then on, asking for that hash shows it, with
  -- the zero address as its sender and its recipient and with no value, whatever the raw bytes said.
  pub sent_is_found :
      (echoed : Json → Json) (s : Server Doc) (raw : GoString) (i j : Json) (now later : ℕ)
      (ps : List Posted)
      → let h = hash_raw_tx sha256 raw in
        get_transaction h s.chain ≡ none
        → let (r, t) = dispatch sha256 (sending raw i) now s in
          (r ≡ ok (answered i (str h)))
          × ((dispatch sha256 (asking h j) later (serve_bodies echoed sha256 ps t)).0
              ≡ ok (answered j (shown h)))
  unfolding keep_pending
  sent_is_found echoed s raw i j now later ps absent =
      let h = hash_raw_tx sha256 raw in
      let t = keep_pending h now s in
      let q = serve_bodies-Quiet echoed sha256 ps t in
      let same = ap (get_transaction h) q.chain ∙ absent in
      let there = q.kept h (
        now,
        ground (arith, lookup-insert h h (placeholder_tx h now) s.pending_tx, str_eq_refl h),
      ) in
      rw (sent s raw i now) (
        refl,
        ap (λ (r : Result Panic RpcResponse × Server Doc). r.0) (found _ h j later same there),
      )
