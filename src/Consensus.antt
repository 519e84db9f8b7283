-- ===== src/Consensus.antt =====
-- consensus/pos.go: the validator set, its choice of proposers, and the production of a block. The
-- random number of transactions and the clock readings are arguments, SHA-256 and the JSON text of a
-- transaction parameters. The ticker and the goroutine around `produceBlock` are left out.
pub mod Rotation
pub mod Production
mod Tests
use rpcnode.Prelude.{
  ℕ, zero, suc, ◌+◌, ◌%◌, ◌^◌, GoString, bytes, Option, none, some, List, [], ◌∷◌, ◌++◌, length,
  get_elem?, Result, ◌==◌, if◌then◌else◌,
}
use rpcnode.Prelude.Int.{ℤ, pos, negsuc, to_int64}
use rpcnode.Prelude.Dict.{Dict, insert}
use rpcnode.Core.Types.{Transaction, Block, ChainError, Chain}
use rpcnode.Core.Blocks.{new_transaction, new_block}
use rpcnode.Core.Chain.{head, insert_block}

pub record ValidatorSet : Type 0 where
  pub validators : List GoString
  pub stakes : Dict ℤ

abbrev equal_stakes : List GoString → Dict ℤ → Dict ℤ
equal_stakes [] d = d
equal_stakes (v ∷ vs) d = equal_stakes vs (insert v (pos 1000000) d)

unfoldable pub new_validator_set : List GoString → ValidatorSet
new_validator_set vs = record { validators = vs; stakes = equal_stakes vs [] }

unfoldable pub add_validator : GoString → ℤ → ValidatorSet → ValidatorSet
add_validator addr stake vs = record {
  validators = vs.validators ++ addr ∷ [];
  stakes = insert addr stake vs.stakes;
}

-- `i % n` as an index: the remainder has the sign of `i`, and a negative index panics
unfoldable pub index_of : ℤ → ℕ → Option ℕ
index_of (pos i) n = some (i % n)
index_of (negsuc i) n = if suc i % n == 0 then some 0 else none

abbrev pub default_proposer : GoString
default_proposer = bytes "0x0000000000000000000000000000000000000001"

abbrev pub pick : List GoString → Option ℕ → Option GoString
pick vs none = none
pick vs (some i) = get_elem? vs i

abbrev pub proposer_of : List GoString → ℕ → Option GoString
proposer_of [] block = some default_proposer
proposer_of (v ∷ vs) block = pick (v ∷ vs) (index_of (to_int64 block) (length (v ∷ vs)))

-- `SelectProposer`; `none` where the index is out of range
unfoldable pub select_proposer : ValidatorSet → ℕ → Option GoString
select_proposer vs block = proposer_of vs.validators block

module _ (sha256 : GoString → GoString) where
  -- the transactions of the produced block, the one with index `i` first
  unfoldable pub make_txs :
      ValidatorSet → GoString → ℕ → (ℕ → ℤ) → ℕ → ℕ → Option (List Transaction)
  make_txs vs proposer next now i zero = some []
  make_txs vs proposer next now i (suc count) =
      let rest = make_txs vs proposer next now (i + 1) count in
      elim (select_proposer vs ((next + (i + 1)) % 2 ^ 64)) [
        | none ↦ none
        | some to ↦ elim rest [
          | none ↦ none
          | some txs ↦ some (
              record (new_transaction sha256 proposer to none i [] (now i)) {
                status = bytes "success";
                block_num = next;
              }
              ∷ txs)
        ]
      ]

  abbrev pub built :
      (Transaction → GoString) → Block → GoString → Option (List Transaction) → ℤ → Option Block
  built json h proposer none now = none
  built json h proposer (some txs) now =
      some (new_block sha256 json (some h.header) proposer txs now)

  abbrev pub proposed_by :
      (Transaction → GoString)
      → ValidatorSet
      → Block
      → ℕ
      → (ℕ → ℤ)
      → ℤ
      → Option GoString
      → Option Block
  proposed_by json vs h count now sealed_at none = none
  proposed_by json vs h count now sealed_at (some proposer) =
      built json h proposer (make_txs vs proposer ((h.header.number + 1) % 2 ^ 64) now 0 count)
        sealed_at

  -- the block that `produceBlock` builds on a head; `none` where `SelectProposer` panics
  unfoldable pub proposed :
      (Transaction → GoString) → ValidatorSet → Block → ℕ → (ℕ → ℤ) → ℤ → Option Block
  proposed json vs h count now sealed_at =
      proposed_by json vs h count now sealed_at
        (select_proposer vs ((h.header.number + 1) % 2 ^ 64))

module _ {Doc : Type 0} (marshal : Block → Option Doc) where
  abbrev inserted : Option Block → Chain Doc → Option (Chain Doc)
  inserted none c = none
  inserted (some b) c = some (insert_block marshal b c).1

  abbrev produced_on :
      (GoString → GoString)
      → (Transaction → GoString)
      → ValidatorSet
      → Option Block
      → ℕ
      → (ℕ → ℤ)
      → ℤ
      → Chain Doc
      → Option (Chain Doc)
  produced_on sha256 json vs none count now sealed_at c = some c
  produced_on sha256 json vs (some h) count now sealed_at c =
      inserted (proposed sha256 json vs h count now sealed_at) c

  -- `produceBlock`, without the call-back; `none` where it panics
  unfoldable pub produce_block :
      (GoString → GoString)
      → (Transaction → GoString)
      → ValidatorSet
      → ℕ
      → (ℕ → ℤ)
      → ℤ
      → Chain Doc
      → Option (Chain Doc)
  produce_block sha256 json vs count now sealed_at c =
      produced_on sha256 json vs (head c) count now sealed_at c
