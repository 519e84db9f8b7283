-- ===== src/Config/Read.antt =====
-- What `FromEnv` (config/config.go) reads out of the environment.
use rpcnode.Prelude.{ℕ, ◌^◌, ◌<◌, GoString, bytes, decimal, ◌≡◌, refl, ap, ◌∙◌, none, [], ◌∷◌}
use rpcnode.Prelude.Int.{ℤ, pos}
use rpcnode.Prelude.Numerals.{atoi}
use rpcnode.Prelude.Numerals.Decimals.{atoi-decimal}
use rpcnode.Config.{default_config, number_of, number_or, from_env}

number_or-atoi : (old : ℤ) (v : GoString) → number_or old v ≡ number_of old (atoi v)
unfolding number_or atoi
number_or-atoi old [] = refl
number_or-atoi old (c ∷ v) = refl

number_or-decimal :
    (old : ℤ) (v : GoString) (n : ℕ) → n < 2 ^ 63 → v ≡ decimal n → number_or old v ≡ pos n
number_or-decimal old v n small e =
    number_or-atoi old v
    ∙ ap (λ w. number_of old (atoi w)) e
    ∙ ap (number_of old) (atoi-decimal n small)

-- Where the variables of the chain's id and of the peer-to-peer port spell numbers in decimal, and that
-- of the RPC port is not set or spells no number of 64 bits, the first two settings are those numbers
-- and the third is the default. The most peers, the port of the WebSocket and the name of the network,
-- for which `FromEnv` reads no variable, are the defaults.
pub from_env_reads :
    (env : GoString → GoString) (i p : ℕ)
    → i < 2 ^ 63
    → p < 2 ^ 63
    → env (bytes "GYDS_CHAIN_ID") ≡ decimal i
    → env (bytes "GYDS_P2P_PORT") ≡ decimal p
    → atoi (env (bytes "GYDS_RPC_PORT")) ≡ none
    → let cfg = from_env env in
      (cfg.chain_id ≡ pos i)
      × (cfg.p2p_port ≡ pos p)
      × (cfg.rpc_port ≡ default_config.rpc_port)
      × (cfg.max_peers ≡ default_config.max_peers)
      × (cfg.ws_port ≡ default_config.ws_port)
      × (cfg.network_name ≡ default_config.network_name)
unfolding from_env
from_env_reads env i p id_fits port_fits id_set port_set unread =
    let rpc = default_config.rpc_port in
    (
      number_or-decimal _ (env (bytes "GYDS_CHAIN_ID")) i id_fits id_set,
      number_or-decimal _ (env (bytes "GYDS_P2P_PORT")) p port_fits port_set,
      number_or-atoi rpc (env (bytes "GYDS_RPC_PORT")) ∙ ap (number_of rpc) unread,
      refl,
      refl,
      refl,
    )
