-- ===== src/Rpc/Answers.antt =====
-- Every body that is posted to `handleJSONRPC` (rpc/server.go) is answered.
use rpcnode.Prelude.{
  ℕ, suc, ◌^◌, ◌≤◌, GoString, bytes, decimal, hex_encode, ◌≡◌, refl, ap, ◌∙◌, arith, Option, none,
  some, List, [], ◌∷◌, ok, length, ◌>>=◌, pure, reads, modify, Exec, map, take, ◌++◌,
}
use rpcnode.Prelude.Dict.{lookup}
use rpcnode.Prelude.Int.{ℤ}
use rpcnode.Prelude.Text.Lengths.{length-decimal, length-hex_encode}
use rpcnode.Json.{Json, str}
use rpcnode.Core.Types.{Block, Chain}
use rpcnode.Core.Chain.{last}
use rpcnode.Core.Views.{Stats, stats, stats_of}
use rpcnode.Rpc.Types.{
  Server, Panic, RpcRequest, RpcResponse, Query, Method, query, eth_send_raw_transaction, constant,
  eth_block_number, eth_chain_id, net_version, eth_fee_history, eth_get_balance,
  eth_get_transaction_count, eth_get_block_by_number, eth_get_block_by_hash,
  eth_get_block_transaction_count_by_number, eth_get_transaction_by_hash,
  eth_get_transaction_receipt, eth_subscribe, gyds_validator_set, gyds_node_info,
}
use rpcnode.Rpc.Dispatch.{
  answer, with_chain_id, with_result, cut, dispatch, dispatch_to, methods, view,
}
use rpcnode.Rpc.Http.{dispatch_all}

stats_of-some :
    {Doc : Type 0} (o : Option Block) (b : Block) (c : Chain Doc)
    → o ≡ some b
    → (x : Stats) × (stats_of o c ≡ some x)
stats_of-some none b c e = absurd (ground (arith, e))
stats_of-some (some d) b c e = (_, refl)

chain_id-ok :
    (o : Option Stats) (x : Stats) (f : ℤ → Json)
    → o ≡ some x
    → (j : Option Json) × (with_chain_id o f ≡ ok j)
chain_id-ok none x f e = absurd (ground (arith, e))
chain_id-ok (some y) x f e = (some (f y.chain_id), refl)

cut_long : (s : GoString) → 16 ≤ length s → cut s ≡ ok (some (str (bytes "0x" ++ take 16 s)))
cut_long s h = ground arith

-- the text of a subscription is cut out of the digits of a reading that has eight or more
cut-ok : (now : ℕ) → 10 ^ 7 ≤ now → (j : Option Json) × (cut (hex_encode (decimal now)) ≡ ok j)
cut-ok now late =
    let long : 16 ≤ length (hex_encode (decimal now)) =
      omega (arith, length-decimal 7 now late, length-hex_encode (decimal now)) in
    (_, cut_long (hex_encode (decimal now)) long)

module _ {Doc : Type 0} where
  -- the chain holds a block, as a chain that `NewChain` made does
  abbrev pub HasBlock : Server Doc → Type 0
  HasBlock s = (b : Block) × (last s.chain.blocks ≡ some b)

  -- from a server whose chain holds a block the call returns a value that `Q` holds of, and the chain
  -- still holds one
  abbrev pub Returns : {A : Type 0} → (A → Type 0) → Exec Panic (Server Doc) A → Type 0
  Returns {A} Q c =
      (s : Server Doc)
      → HasBlock s
      → (a : A) × (t : Server Doc) × (c s ≡ (ok a, t)) × HasBlock t × Q a

  pub bind-Returns :
      {A B : Type 0} (P : A → Type 0) (Q : B → Type 0) (c : Exec Panic (Server Doc) A)
      (k : A → Exec Panic (Server Doc) B)
      → Returns P c
      → ((a : A) → P a → Returns Q (k a))
      → Returns Q (c >>= k)
  unfolding ◌>>=◌
  bind-Returns P Q c k first rest s h =
      let (a, t, e, there, p) = first s h in
      let (b, u, e', still, q) = rest a p t there in (b, u, rw e e', still, q)

  pub pure-Returns : {A : Type 0} (Q : A → Type 0) (a : A) → Q a → Returns Q (pure a)
  unfolding pure
  pure-Returns Q a q s h = (a, s, refl, h, q)

  stats-some : (s : Server Doc) → HasBlock s → (x : Stats) × (stats s.chain ≡ some x)
  unfolding stats
  stats-some s (b, e) = stats_of-some _ b s.chain e

  -- `now` has eight digits or more
  view-ok :
      (q : Query) (params : List Json) (now : ℕ) (s : Server Doc)
      → 10 ^ 7 ≤ now
      → HasBlock s
      → (j : Option Json) × (view q params now s ≡ ok j)
  unfolding view
  view-ok (constant j) params now s late h = (_, refl)
  view-ok eth_block_number params now s late h = (_, refl)
  view-ok eth_chain_id params now s late h = let (x, e) = stats-some s h in chain_id-ok _ x _ e
  view-ok net_version params now s late h = let (x, e) = stats-some s h in chain_id-ok _ x _ e
  view-ok eth_fee_history params now s late h = (_, refl)
  view-ok eth_get_balance params now s late h = (_, refl)
  view-ok eth_get_transaction_count params now s late h = (_, refl)
  view-ok eth_get_block_by_number params now s late h = (_, refl)
  view-ok eth_get_block_by_hash params now s late h = (_, refl)
  view-ok eth_get_block_transaction_count_by_number params now s late h = (_, refl)
  view-ok eth_get_transaction_by_hash params now s late h = (_, refl)
  view-ok eth_get_transaction_receipt params now s late h = (_, refl)
  view-ok eth_subscribe params now s late h = cut-ok now late
  view-ok gyds_validator_set params now s late h =
      let (x, e) = stats-some s h in chain_id-ok _ x _ e
  view-ok gyds_node_info params now s late h = let (x, e) = stats-some s h in chain_id-ok _ x _ e

  pub modify-Returns :
      (f : Server Doc → Server Doc)
      → ((s : Server Doc) → (f s).chain ≡ s.chain)
      → Returns (λ _. Unit {0}) (modify f)
  unfolding modify
  modify-Returns f same s (b, e) =
      (tt, f s, refl, (b, ap (λ (c : Chain Doc). last c.blocks) (same s) ∙ e), tt)

-- the response has the request's id
abbrev pub Answers : RpcRequest → RpcResponse → Type 0
Answers req r = r.id ≡ req.id

-- the responses are to the requests, in their order
abbrev pub AnswersAll : List RpcRequest → List RpcResponse → Type 0
AnswersAll reqs rs = map (λ (r : RpcResponse). r.id) rs ≡ map (λ (q : RpcRequest). q.id) reqs

module _ (sha256 : GoString → GoString) {Doc : Type 0} where
  query-Returns :
      (q : Query) (params : List Json) (now : ℕ)
      → 10 ^ 7 ≤ now
      → Returns {Doc = Doc} (λ _. Unit {0}) (answer sha256 (query q) params now)
  unfolding answer reads
  query-Returns q params now late s h =
      let (j, e) = view-ok q params now s late h in (j, s, rw e refl, h, tt)

  answer-Returns :
      (m : Method) (params : List Json) (now : ℕ)
      → 10 ^ 7 ≤ now
      → Returns {Doc = Doc} (λ _. Unit {0}) (answer sha256 m params now)
  unfolding answer
  answer-Returns (query q) params now late = query-Returns q params now late
  answer-Returns eth_send_raw_transaction params now late =
      bind-Returns (λ _. Unit {0}) (λ _. Unit {0}) _ _ (modify-Returns _ (λ s. refl))
        (λ _ _. pure-Returns (λ _. Unit {0}) _ tt)

  dispatch_to-Returns :
      (m : Option Method) (req : RpcRequest) (now : ℕ)
      → 10 ^ 7 ≤ now
      → Returns {Doc = Doc} (Answers req) (dispatch_to sha256 m req now)
  dispatch_to-Returns none req now late = pure-Returns (Answers req) _ refl
  dispatch_to-Returns (some m) req now late =
      bind-Returns (λ _. Unit {0}) (Answers req) _ _ (answer-Returns m req.params now late)
        (λ r _. pure-Returns (Answers req) (with_result req.id r) refl)

  pub dispatch-Returns :
      (req : RpcRequest) (now : ℕ)
      → 10 ^ 7 ≤ now
      → Returns {Doc = Doc} (Answers req) (dispatch sha256 req now)
  unfolding dispatch
  dispatch-Returns req now = dispatch_to-Returns (lookup req.method methods) req now

  module _ (clock : ℕ → ℕ) (late : (n : ℕ) → 10 ^ 7 ≤ clock n) where
    pub dispatch_all-Returns :
        (n : ℕ) (reqs : List RpcRequest)
        → Returns {Doc = Doc} (AnswersAll reqs) (dispatch_all sha256 clock n reqs)
    unfolding dispatch_all
    dispatch_all-Returns n [] = pure-Returns (AnswersAll []) [] refl
    dispatch_all-Returns n (req ∷ reqs) =
        bind-Returns (Answers req) (AnswersAll (req ∷ reqs)) _ _
          (dispatch-Returns req (clock n) (late n))
          (λ r e.
            bind-Returns (AnswersAll reqs) (AnswersAll (req ∷ reqs)) _ _
              (dispatch_all-Returns (suc n) reqs)
              (λ rs es. pure-Returns (AnswersAll (req ∷ reqs)) (r ∷ rs) (rw (e, es) refl)))
