-- ===== src/Rpc/Types.antt =====
-- The types of rpc/server.go: the server's state, the requests and responses of JSON-RPC, and the table
-- of methods that `dispatch` switches on. The router, the sockets and the configured ports are left out
-- of the state, and the counters hold the 64 bits of an `int64`.
use rpcnode.Prelude.{ℕ, GoString, Option, List, []}
use rpcnode.Prelude.Dict.{Dict}
use rpcnode.Prelude.Int.{ℤ}
use rpcnode.Json.{Json}
use rpcnode.Core.Types.{Transaction, Chain}

pub data FilterKind : Type 0 where
  filter_kind_log filter_kind_block filter_kind_pending : FilterKind

-- `rpcFilter`
pub record RpcFilter : Type 0 where
  pub kind : FilterKind
  pub from_block : ℕ
  pub to_block : ℕ
  pub addresses : List GoString
  pub topics : List (List GoString)
  pub last_block : ℕ
  pub created_at : ℤ

-- `Server`; a subscriber is the messages that wait in its channel, the oldest first.
pub record Server (Doc : Type 0) : Type 0 where
  pub chain : Chain Doc
  pub cors : List GoString
  pub subs : Dict (List Json)
  pub pending_tx : Dict Transaction
  pub req_total : ℕ
  pub ws_active : ℕ
  pub filters : Dict RpcFilter
  pub filter_seq : ℕ

unfoldable pub new_server : {Doc : Type 0} → Chain Doc → List GoString → Server Doc
new_server c cors_origins = record {
  chain = c;
  cors = cors_origins;
  subs = [];
  pending_tx = [];
  req_total = 0;
  ws_active = 0;
  filters = [];
  filter_seq = 0;
}

-- an index or a slice bound that is out of range; net/http recovers and drops the connection
pub data Panic : Type 0 where
  out_of_range : Panic

pub record RpcRequest : Type 0 where
  pub method : GoString
  pub params : List Json
  pub id : Json

-- `jsonRPCResponse`; the result and the error may be nil
pub record RpcResponse : Type 0 where
  pub result : Option Json
  pub error : Option Json
  pub id : Json

-- an HTTP status and the body written with it
pub record Reply : Type 0 where
  pub code : ℕ
  pub body : Json

-- the methods that read: those whose case assigns a constant, and the others
pub data Query : Type 0 where
  constant : Json → Query
  eth_block_number eth_chain_id net_version eth_fee_history eth_get_balance : Query
  eth_get_transaction_count eth_get_block_by_number eth_get_block_by_hash : Query
  eth_get_block_transaction_count_by_number eth_get_transaction_by_hash : Query
  eth_get_transaction_receipt eth_subscribe gyds_validator_set gyds_node_info : Query

pub data Method : Type 0 where
  query : Query → Method
  eth_send_raw_transaction : Method
