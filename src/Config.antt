-- ===== src/Config.antt =====
-- config/config.go: the configuration of the node and what the environment changes in it. The
-- environment is a function, which is "" for a variable that is not set.
pub mod Read
mod Tests
use rpcnode.Prelude.{
  ℕ, GoString, bytes, str_eq, Bool, true, Option, none, some, List, [], ◌∷◌, if◌then◌else◌,
}
use rpcnode.Prelude.Int.{ℤ, pos}
use rpcnode.Prelude.Numerals.{atoi}

pub record Config : Type 0 where
  pub chain_id : ℤ
  pub network_name : GoString
  pub node_mode : GoString
  pub p2p_port : ℤ
  pub p2p_bootstrap : List GoString
  pub max_peers : ℤ
  pub rpc_port : ℤ
  pub rpc_host : GoString
  pub rpc_enabled : Bool
  pub ws_port : ℤ
  pub ws_enabled : Bool
  pub data_dir : GoString
  pub log_level : GoString
  pub log_format : GoString
  pub sync_mode : GoString
  pub snapshot_sync : Bool

unfoldable pub default_config : Config
default_config = record {
  chain_id = pos 13370;
  network_name = bytes "GYDS Chain";
  node_mode = bytes "lite";
  p2p_port = pos 30303;
  p2p_bootstrap = [];
  max_peers = pos 25;
  rpc_port = pos 8545;
  rpc_host = bytes "0.0.0.0";
  rpc_enabled = true;
  ws_port = pos 8546;
  ws_enabled = true;
  data_dir = bytes "./data";
  log_level = bytes "info";
  log_format = bytes "pretty";
  sync_mode = bytes "light";
  snapshot_sync = true;
}

-- `if v := os.Getenv(…); v != "" { f = v }`
unfoldable pub text_or : GoString → GoString → GoString
text_or old [] = old
text_or old (c ∷ v) = c ∷ v

abbrev pub number_of : ℤ → Option ℤ → ℤ
number_of old none = old
number_of old (some n) = n

-- and where the text is a number
unfoldable pub number_or : ℤ → GoString → ℤ
number_or old [] = old
number_or old (c ∷ v) = number_of old (atoi (c ∷ v))

unfoldable pub nodes_or : List GoString → GoString → List GoString
nodes_or old [] = old
nodes_or old (c ∷ v) = (c ∷ v) ∷ []

unfoldable pub from_env : (GoString → GoString) → Config
unfolding default_config text_or number_or nodes_or atoi
from_env env =
    let cfg = default_config in
    record cfg {
      chain_id = number_or cfg.chain_id (env (bytes "GYDS_CHAIN_ID"));
      node_mode = text_or cfg.node_mode (env (bytes "GYDS_NODE_MODE"));
      p2p_port = number_or cfg.p2p_port (env (bytes "GYDS_P2P_PORT"));
      rpc_port = number_or cfg.rpc_port (env (bytes "GYDS_RPC_PORT"));
      rpc_host = text_or cfg.rpc_host (env (bytes "GYDS_RPC_HOST"));
      data_dir = text_or cfg.data_dir (env (bytes "GYDS_DATA_DIR"));
      log_level = text_or cfg.log_level (env (bytes "GYDS_LOG_LEVEL"));
      p2p_bootstrap = nodes_or cfg.p2p_bootstrap (env (bytes "GYDS_BOOTSTRAP_NODES"));
    }
