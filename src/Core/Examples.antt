-- ===== src/Core/Examples.antt =====
-- A small chain for the tests.
use rpcnode.Prelude.{◌≡◌, refl, GoString, bytes, str_eq, hex_encode, some, [], ◌∷◌}
use rpcnode.Prelude.Int.{pos}
use rpcnode.Core.Types.{Block, GenesisConfig, Chain}
use rpcnode.Core.Blocks.{genesis_block, compute_hash, zero_root}
use rpcnode.Core.Chain.{add_block, with_genesis, new_chain}

-- a hash function for the tests
abbrev pub digest : GoString → GoString
digest s = bytes "h"

abbrev pub config : GenesisConfig
config = record {
  chain_id = pos 13370;
  network_name = bytes "test";
  timestamp = pos 9;
  gas_limit = 30000000;
  difficulty = some (pos 1);
  extra_data = [];
  validators = bytes "v1" ∷ [];
  alloc = record { address = bytes "Al"; balance = some (pos 100000); nonce = 0 } ∷ [];
}

abbrev pub first : Block
first = record {
  header = record {
    number = 0;
    hash = bytes "0x68";
    parent_hash = zero_root;
    state_root = zero_root;
    tx_root = zero_root;
    receipt_root = zero_root;
    validator = bytes "v1";
    timestamp = pos 9;
    gas_limit = 30000000;
    gas_used = 0;
    difficulty = some (pos 1);
    extra_data = [];
    size = 512;
  };
  transactions = [];
  hash = bytes "0x68";
}

abbrev pub start : Chain Block
start = with_genesis some config [] first

pub new_chain-start : new_chain some digest config [] ≡ some start
unfolding new_chain genesis_block compute_hash hex_encode add_block str_eq
new_chain-start = refl
