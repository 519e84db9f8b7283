-- ===== src/Consensus/Production.antt =====
-- `produceBlock` (consensus/pos.go) on top of core/chain.go: the block that is produced is accepted.
use rpcnode.Prelude.{ℕ, ◌≡◌, refl, sym, GoString, Option, none, some, List, arith, ok}
use rpcnode.Prelude.Int.{ℤ}
use rpcnode.Prelude.Dict.{lookup}
use rpcnode.Core.Types.{Transaction, Block, Chain}
use rpcnode.Core.Blocks.{new_block}
use rpcnode.Core.Chain.{head, insert_block}
use rpcnode.Core.Linked.{Follows}
use rpcnode.Core.Insert.{insert_block_accepts}
use rpcnode.Consensus.{ValidatorSet, built, proposed_by, proposed}

module _ (sha256 : GoString → GoString) (json : Transaction → GoString) (h : Block)
    (same : h.hash ≡ h.header.hash) where
  new_block-Follows :
      (proposer : GoString) (txs : List Transaction) (now : ℤ)
      → Follows h (new_block sha256 json (some h.header) proposer txs now)
  unfolding new_block
  new_block-Follows proposer txs now = record { parent = sym same; number = refl }

  built-Follows :
      (proposer : GoString) (txs : Option (List Transaction)) (now : ℤ) (b : Block)
      → built sha256 json h proposer txs now ≡ some b
      → Follows h b
  built-Follows proposer none now b e = ground arith
  built-Follows proposer (some txs) now b e =
      let f = new_block-Follows proposer txs now in
      record { parent = ground (arith, f.parent); number = ground (arith, f.number) }

  proposed_by-Follows :
      (vs : ValidatorSet) (count : ℕ) (now : ℕ → ℤ) (t : ℤ) (o : Option GoString) (b : Block)
      → proposed_by sha256 json vs h count now t o ≡ some b
      → Follows h b
  proposed_by-Follows vs count now t none b e = ground arith
  proposed_by-Follows vs count now t (some proposer) b e = built-Follows proposer _ t b e

-- Where the head's hash is the hash in its header, as in every block that the node makes, the block
-- that the engine proposes on the head is accepted by the chain and becomes the new head, unless its
-- hash is known.
pub proposed_is_accepted :
    {Doc : Type 0} (marshal : Block → Option Doc) (sha256 : GoString → GoString)
    (json : Transaction → GoString) (vs : ValidatorSet) (count : ℕ) (now : ℕ → ℤ) (t : ℤ)
    (c : Chain Doc) (h b : Block)
    → head c ≡ some h
    → h.hash ≡ h.header.hash
    → proposed sha256 json vs h count now t ≡ some b
    → lookup b.hash c.by_hash ≡ none
    → let (r, c') = insert_block marshal b c in (r ≡ ok tt) × (head c' ≡ some b)
unfolding proposed
proposed_is_accepted marshal sha256 json vs count now t c h b top same made new =
    let f = proposed_by-Follows sha256 json h same vs count now t _ b made in
    let all = insert_block_accepts marshal c h b top new f in (all.0, all.1)
