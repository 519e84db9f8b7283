-- ===== src/Core/Genesis.antt =====
-- The genesis configuration of the GYDS chain (core/genesis.go).
use rpcnode.Prelude.{◌*◌, ◌^◌, bytes, some, [], ◌∷◌}
use rpcnode.Prelude.Int.{pos}
use rpcnode.Core.Types.{GenesisConfig}

-- `GydsGenesis`; the time is that of 1 January 2024, UTC
abbrev pub gyds_genesis : GenesisConfig
gyds_genesis = record {
  chain_id = pos 13370;
  network_name = bytes "GYDS Chain";
  timestamp = pos 1704067200;
  gas_limit = 30000000;
  difficulty = some (pos 1);
  extra_data =
      bytes "0x4759445320436861696e202d20476f7920446563656e7472616c697a656420536f6c7574696f6e73";
  validators =
      bytes "0x0000000000000000000000000000000000000001"
      ∷ bytes "0x0000000000000000000000000000000000000002"
      ∷ bytes "0x0000000000000000000000000000000000000003"
      ∷ [];
  alloc =
      record {
        address = bytes "0x0000000000000000000000000000000000000001";
        balance = some (pos (100000000 * 10 ^ 18));
        nonce = 0;
      }
      ∷ record {
        address = bytes "0x0000000000000000000000000000000000000002";
        balance = some (pos (50000000 * 10 ^ 18));
        nonce = 0;
      }
      ∷ [];
}
