-- ===== src/Config/Tests.antt =====
-- The theorems about the configuration on an environment.
use rpcnode.Prelude.Numerals.{atoi}
use rpcnode.Prelude.{refl, decimal, none, arith, GoString, bytes, ◌≡◌, str_eq, if◌then◌else◌, []}
use rpcnode.Prelude.Int.{pos}
use rpcnode.Config.{from_env, default_config}
use rpcnode.Config.Read.{from_env_reads}

-- an environment with a chain id, and with one port that is a number and one that is none
abbrev env : GoString → GoString
env k =
    if str_eq k (bytes "GYDS_CHAIN_ID")
    then bytes "7"
    else if str_eq k (bytes "GYDS_P2P_PORT")
    then bytes "9"
    else if str_eq k (bytes "GYDS_RPC_PORT")
    then bytes "http"
    else []

id_set : env (bytes "GYDS_CHAIN_ID") ≡ decimal 7
unfolding str_eq decimal
id_set = refl

port_set : env (bytes "GYDS_P2P_PORT") ≡ decimal 9
unfolding str_eq decimal
port_set = refl

unread : atoi (env (bytes "GYDS_RPC_PORT")) ≡ none
unfolding str_eq atoi
unread = refl

from_env_reads_example :
    let cfg = from_env env in
    (cfg.chain_id ≡ pos 7)
    × (cfg.p2p_port ≡ pos 9)
    × (cfg.rpc_port ≡ default_config.rpc_port)
    × (cfg.max_peers ≡ default_config.max_peers)
    × (cfg.ws_port ≡ default_config.ws_port)
    × (cfg.network_name ≡ default_config.network_name)
from_env_reads_example = from_env_reads env 7 9 (omega arith) (omega arith) id_set port_set unread
