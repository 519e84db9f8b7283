-- ===== src/Rpc/Tests.antt =====
-- The theorems about the server on a small chain.
use rpcnode.Prelude.{
  ℕ, ◌+◌, ◌^◌, ◌≤◌, GoString, bytes, decimal, str_eq, has_prefix, ◌≡◌, refl, arith, false, none,
  some, List, [], ◌∷◌, length, take, ok,
}
use rpcnode.Prelude.Int.{pos}
use rpcnode.Prelude.Dict.{lookup}
use rpcnode.Json.{Json, null, num, str, arr, obj, nil, cons, end, field}
use rpcnode.Core.Types.{Transaction, transfer, Block, Chain}
use rpcnode.Core.Chain.{head, block_at, get_by_number, insert_block, get_transaction}
use rpcnode.Core.Views.{object, block_to_map, latest_blocks}
use rpcnode.Rpc.Types.{
  new_server, Server, RpcRequest, RpcResponse, Reply, eth_block_number, eth_get_block_by_hash,
  eth_get_block_by_number,
}
use rpcnode.Rpc.Views.{array, hex, hash_raw_tx, block_to_rpc}
use rpcnode.Rpc.Dispatch.{dispatch, view, block_by_number, transaction_count}
use rpcnode.Core.Linked.{insert_all}
use rpcnode.Rpc.Stray.{stray_tag_shows}
use rpcnode.Rpc.Http.{handle_json_rpc, read_requests, read_request, response_list, json_ok}
use rpcnode.Rpc.Rest.{handle_block, page_limit, collect}
use rpcnode.Rpc.Frame.{Posted, Quiet, serve_bodies, serve_bodies-Quiet}
use rpcnode.Rpc.Sent.{sending, asking, answered, shown, sent_is_found}
use rpcnode.Rpc.Answers.{HasBlock, AnswersAll}
use rpcnode.Rpc.Bodies.{batch_in_order}
use rpcnode.Rpc.Recent.{all_transactions, recent_transactions}
use rpcnode.Rpc.Delivery.{broadcast_all, written, broadcasts_are_written}
use rpcnode.Rpc.Node.{proposed, posted, after_events, node_answers}
use rpcnode.Core.Examples.{digest as small_digest, config, start, new_chain-start}
use rpcnode.Rpc.Inserted.{inserted_is_shown}

-- a hash function for the tests
abbrev digest : GoString → GoString
digest s = s

abbrev pay : Transaction
pay = record {
  hash = bytes "t1";
  from = bytes "al";
  to = bytes "bo";
  value = some (pos 500);
  gas_limit = 21000;
  gas_price = some (pos 2);
  gas_used = 21000;
  nonce = 0;
  data' = [];
  type = transfer;
  status = bytes "success";
  timestamp = pos 9;
  block_num = 1;
}

abbrev first : Block
first = record {
  header = record {
    number = 0;
    hash = bytes "b0";
    parent_hash = [];
    state_root = [];
    tx_root = [];
    receipt_root = [];
    validator = bytes "v1";
    timestamp = pos 9;
    gas_limit = 30000000;
    gas_used = 0;
    difficulty = some (pos 1);
    extra_data = [];
    size = 512;
  };
  transactions = [];
  hash = bytes "b0";
}

abbrev second : Block
second = record {
  header = record first.header { number = 1; parent_hash = bytes "b0"; hash = bytes "b1" };
  transactions = pay ∷ pay ∷ [];
  hash = bytes "b1";
}

abbrev chain_of : List Block → Chain Block
chain_of bs = record {
  blocks = bs;
  by_hash = (bytes "b0", first) ∷ [];
  by_number = (0, first) ∷ [];
  genesis = record {
    chain_id = pos 13370;
    network_name = bytes "test";
    timestamp = pos 9;
    gas_limit = 30000000;
    difficulty = some (pos 1);
    extra_data = [];
    validators = bytes "v1" ∷ [];
    alloc = [];
  };
  data_dir = [];
  db = none;
  accounts = [];
  tx_index = [];
}

abbrev server : Server Block
server = record {
  chain = chain_of (first ∷ []);
  cors = [];
  subs = (bytes "c1", null ∷ []) ∷ (bytes "c2", []) ∷ [];
  pending_tx = [];
  req_total = 0;
  ws_active = 0;
  filters = [];
  filter_seq = 0;
}

-- how a value is written back that `encoding/json` does not change
abbrev same_value : Json → Json
same_value j = j

abbrev clock : ℕ → ℕ
clock n = 1700000000000000000 + n

late : (n : ℕ) → 10 ^ 7 ≤ clock n
late n = omega arith

-- a request for a method that there is not
abbrev asked : Json
asked = obj (field "method" (str (bytes "eth_mine")) (field "id" (num (pos 7)) end))

abbrev request : RpcRequest
request = record { method = bytes "eth_mine"; params = []; id = num (pos 7) }

serve_bodies-Quiet_example :
    let bodies : List Posted =
      record { body = some asked; clock = clock } ∷ record { body = none; clock = clock } ∷ [] in
    Quiet server (serve_bodies same_value digest bodies server)
serve_bodies-Quiet_example =
    serve_bodies-Quiet same_value digest
      (record { body = some asked; clock = clock } ∷ record { body = none; clock = clock } ∷ [])
      server

absent : get_transaction (hash_raw_tx digest (bytes "0x41")) server.chain ≡ none
unfolding get_transaction lookup
absent = refl

sent_is_found_example :
    let h = hash_raw_tx digest (bytes "0x41") in
    let (r, t) = dispatch digest (sending (bytes "0x41") null) (clock 0) server in
    (r ≡ ok (answered null (str h)))
    × ((dispatch digest
          (asking h null)
          (clock 2)
          (serve_bodies same_value digest (record { body = some asked; clock = clock } ∷ []) t)).0
        ≡ ok (answered null (shown h)))
sent_is_found_example =
    sent_is_found digest same_value server (bytes "0x41") null null (clock 0) (clock 2)
      (record { body = some asked; clock = clock } ∷ []) absent

apart_prefix : has_prefix (bytes "0x") (bytes "earliest") ≡ false
unfolding has_prefix
apart_prefix = refl

first-genesis : get_by_number 0 server.chain ≡ ok first
unfolding get_by_number block_at
first-genesis = refl

stray_tag_shows_example :
    let d = insert_all some (second ∷ []) server.chain in
    (block_by_number (bytes "earliest") d ≡ some (block_to_rpc first))
    × (transaction_count (bytes "earliest") d ≡ hex 0)
stray_tag_shows_example =
    stray_tag_shows some server.chain first (second ∷ []) (bytes "earliest") first-genesis
      ((λ e. ground arith), tt) apart_prefix (λ e. ground arith) (λ e. ground arith)

server-HasBlock : HasBlock server
server-HasBlock = (first, refl)

reads_twice : read_requests same_value (cons asked (cons asked nil)) ≡ some (request ∷ request ∷ [])
unfolding read_requests read_request
reads_twice = refl

batch_in_order_example :
    (rs : List RpcResponse) × ((handle_json_rpc same_value digest clock
        (some (arr (cons asked (cons asked nil))))
        server).0
      ≡ ok (json_ok (array (response_list rs))))
    × AnswersAll (request ∷ request ∷ []) rs
batch_in_order_example =
    batch_in_order same_value digest clock late (cons asked (cons asked nil))
      (request ∷ request ∷ []) server server-HasBlock reads_twice

recent_transactions_example :
    let limit = page_limit (bytes "1") in
    let blocks = latest_blocks limit (chain_of (first ∷ second ∷ [])) in
    (collect limit [] blocks ≡ take limit (all_transactions blocks))
    × (1 ≤ limit)
    × (limit ≤ 100)
    × (length (collect limit [] blocks) ≤ 100)
recent_transactions_example = recent_transactions (chain_of (first ∷ second ∷ [])) (bytes "1")

waits : lookup (bytes "c1") server.subs ≡ some (null ∷ [])
unfolding lookup str_eq
waits = refl

broadcasts_are_written_example :
    written 3 (bytes "c1") (broadcast_all (asked ∷ asked ∷ []) server) ≡ null ∷ asked ∷ asked ∷ []
broadcasts_are_written_example =
    broadcasts_are_written (bytes "c1") (asked ∷ asked ∷ []) server (null ∷ []) waits (omega arith)

top : head server.chain ≡ some first
unfolding head
top = refl

new : lookup (bytes "b1") server.chain.by_hash ≡ none
unfolding lookup str_eq
new = refl

inserted_is_shown_example :
    let t = record server { chain = (insert_block some second server.chain).1 } in
    (view eth_block_number [] 0 t ≡ ok (some (hex 1)))
    × (view eth_get_block_by_hash (str (bytes "b1") ∷ []) 0 t ≡ ok (some (block_to_rpc second)))
    × (view eth_get_block_by_number (hex 1 ∷ []) 0 t ≡ ok (some (block_to_rpc second)))
    × (view eth_get_block_by_number (str (bytes "latest") ∷ []) 0 t
        ≡ ok (some (block_to_rpc second)))
    × (handle_block (decimal 1) t.chain ≡ json_ok (object (("block", block_to_map second) ∷ [])))
inserted_is_shown_example =
    inserted_is_shown some server first second 0 top new (record { parent = refl; number = refl })
      (omega arith)

node_answers_example :
    let events = proposed second ∷ posted (record { body = none; clock = clock }) ∷ [] in
    (reply : Reply) × ((handle_json_rpc same_value small_digest clock
        (some asked)
        (after_events same_value small_digest some events (new_server start []))).0
      ≡ ok reply)
node_answers_example =
    node_answers same_value small_digest some some config [] start []
      (proposed second ∷ posted (record { body = none; clock = clock }) ∷ []) clock (some asked)
      new_chain-start late
