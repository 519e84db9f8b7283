-- ===== src/Consensus/Tests.antt =====
-- The theorems about the engine on concrete validators and a concrete chain.
use rpcnode.Prelude.{
  ◌≡◌, ◌≢◌, refl, GoString, bytes, str_eq, hex_encode, none, some, [], ◌∷◌, arith, ok, replicate,
}
use rpcnode.Prelude.Int.{pos, to_int64}
use rpcnode.Prelude.Dict.{lookup, insert}
use rpcnode.Core.Types.{Transaction, Block, Chain}
use rpcnode.Core.Blocks.{new_transaction, new_block, compute_hash, zero_root}
use rpcnode.Core.Chain.{add_block, head, with_genesis}
use rpcnode.Consensus.{
  ValidatorSet, new_validator_set, index_of, select_proposer, make_txs, proposed,
}
use rpcnode.Json.{null}
use rpcnode.Rpc.Types.{Server}
use rpcnode.Rpc.Sockets.{new_block_message}
use rpcnode.Rpc.Announced.{insert_and_announce, proposed_is_announced}

abbrev three : ValidatorSet
three = new_validator_set (bytes "v1" ∷ bytes "v2" ∷ bytes "v3" ∷ [])

three_some : three.validators ≢ []
unfolding new_validator_set
three_some e = ground arith

-- a hash function and an encoding for the tests
abbrev digest : GoString → GoString
digest s = replicate 32 7

abbrev json : Transaction → GoString
json tx = tx.to

abbrev first : Block
first = record {
  header = record {
    number = 0;
    hash = bytes "g";
    parent_hash = zero_root;
    state_root = zero_root;
    tx_root = zero_root;
    receipt_root = zero_root;
    validator = bytes "v1";
    timestamp = pos 9;
    gas_limit = 30000000;
    gas_used = 0;
    difficulty = some (pos 1);
    extra_data = [];
    size = 512;
  };
  transactions = [];
  hash = bytes "g";
}

abbrev start : Chain Block
start =
    with_genesis some
      (record {
        chain_id = pos 1;
        network_name = bytes "test";
        timestamp = pos 9;
        gas_limit = 30000000;
        difficulty = some (pos 1);
        extra_data = [];
        validators = bytes "v1" ∷ [];
        alloc = [];
      })
      [] first

abbrev made : Block
made =
    new_block digest json (some first.header) (bytes "v2")
      (record (new_transaction digest (bytes "v2") (bytes "v3") none 0 [] (pos 3)) {
        status = bytes "success";
        block_num = 1;
      }
        ∷ [])
      (pos 10)

head-first : head start ≡ some first
unfolding head add_block
head-first = refl

proposed-made : proposed digest json three first 1 (λ i. pos 3) (pos 10) ≡ some made
unfolding proposed select_proposer new_validator_set index_of to_int64 make_txs
proposed-made = refl

unknown : lookup made.hash start.by_hash ≡ none
unfolding new_block compute_hash add_block lookup insert str_eq hex_encode
unknown = refl

-- a server on that chain with a subscriber for whom a message waits
abbrev server : Server Block
server = record {
  chain = start;
  cors = [];
  subs = (bytes "c1", null ∷ []) ∷ [];
  pending_tx = [];
  req_total = 0;
  ws_active = 1;
  filters = [];
  filter_seq = 0;
}

waits : lookup (bytes "c1") server.subs ≡ some (null ∷ [])
unfolding lookup str_eq
waits = refl

proposed_is_announced_example :
    (u : Server Block) × (insert_and_announce some made server ≡ ok u)
    × (head u.chain ≡ some made)
    × (lookup (bytes "c1") u.subs ≡ some (null ∷ new_block_message made ∷ []))
proposed_is_announced_example =
    proposed_is_announced digest json (λ s. refl) some three 1 (λ i. pos 3) (pos 10) server first
      made (bytes "c1") (null ∷ []) head-first refl proposed-made unknown waits (omega arith)
