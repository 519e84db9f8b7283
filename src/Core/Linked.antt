-- ===== src/Core/Linked.antt =====
-- The blocks of a chain (core/chain.go): each follows the one before, and what `InsertBlock` accepts.
use rpcnode.Prelude.{
  ◌+◌, ◌%◌, ◌^◌, ◌≡◌, refl, GoString, str_eq, str_eq_iff, Option, none, some, List, [], ◌∷◌, ◌++◌,
  arith, Option-cases, Bool-cases, inl, inr, ◌==◌, ◌∙◌,
}
use rpcnode.Prelude.Dict.{lookup}
use rpcnode.Core.Types.{Transaction, Block, GenesisConfig, Chain}
use rpcnode.Core.Blocks.{genesis_block}
use rpcnode.Core.Chain.{
  opened, chain_on, last, add_block, head, add_to_tx_index, apply_tx, apply_txs, persist_block,
  extend, insert_block, with_genesis, new_chain, load_from_db, load_all, open_db,
}
use mathlib.Core.Path.{subst}
use rpcnode.Storage.{iterator, matching}

-- a block that `InsertBlock` can put on top of `h`
pub record Follows (h b : Block) : Type 0 where
  pub parent : b.header.parent_hash ≡ h.hash
  pub number : b.header.number ≡ (h.header.number + 1) % 2 ^ 64

abbrev pub Linked : List Block → Type 0
Linked [] = Unit
Linked (a ∷ []) = Unit
Linked (a ∷ b ∷ bs) = Follows a b × Linked (b ∷ bs)

same_parent : (a h b : Block) → last (a ∷ []) ≡ some h → Follows h b → Follows a b
same_parent a h b e f = record {
  parent = ground (arith, f.parent);
  number = ground (arith, f.number);
}

Linked-snoc :
    (bs : List Block) (h b : Block)
    → last bs ≡ some h
    → Follows h b
    → Linked bs
    → Linked (bs ++ b ∷ [])
Linked-snoc [] h b e f l = tt
Linked-snoc (a ∷ []) h b e f l = (same_parent a h b e f, tt)
Linked-snoc (a ∷ a' ∷ bs) h b e f l = (l.0, Linked-snoc (a' ∷ bs) h b e f l.1)

pub last-snoc : (bs : List Block) (b : Block) → last (bs ++ b ∷ []) ≡ some b
last-snoc [] b = refl
last-snoc (a ∷ []) b = refl
last-snoc (a ∷ a' ∷ bs) b = last-snoc (a' ∷ bs) b

-- the part of a chain that transactions and the store do not touch
pub record IsSameChain {Doc : Type 0} (c d : Chain Doc) : Type 0 where
  pub blocks : c.blocks ≡ d.blocks
  pub by_hash : c.by_hash ≡ d.by_hash
  pub by_number : c.by_number ≡ d.by_number

module _ {Doc : Type 0} where
  apply_txs-same : (txs : List Transaction) (c : Chain Doc) → IsSameChain (apply_txs txs c) c
  unfolding apply_txs apply_tx add_to_tx_index
  apply_txs-same [] c = record { blocks = refl; by_hash = refl; by_number = refl }
  apply_txs-same (tx ∷ txs) c =
      let h = apply_txs-same txs (apply_tx tx c) in
      record { blocks = h.blocks; by_hash = h.by_hash; by_number = h.by_number }

module _ {Doc : Type 0} (marshal : Block → Option Doc) where
  persist_block-same : (b : Block) (c : Chain Doc) → IsSameChain (persist_block marshal b c) c
  unfolding persist_block
  persist_block-same b c = record {
    blocks = ground arith;
    by_hash = ground arith;
    by_number = ground arith;
  }

  unfoldable pub accepted : Block → Chain Doc → Chain Doc
  accepted b c = persist_block marshal b (apply_txs b.transactions (add_block b c))

  pub accepted-same : (b : Block) (c : Chain Doc) → IsSameChain (accepted b c) (add_block b c)
  unfolding accepted
  accepted-same b c =
      let h = persist_block-same b (apply_txs b.transactions (add_block b c)) in
      let k = apply_txs-same b.transactions (add_block b c) in
      record {
        blocks = h.blocks ∙ k.blocks;
        by_hash = h.by_hash ∙ k.by_hash;
        by_number = h.by_number ∙ k.by_number;
      }

  extend-Linked :
      (h b : Block) (c : Chain Doc)
      → last c.blocks ≡ some h
      → Linked c.blocks
      → Linked (extend marshal (some h) b c).1.blocks
  unfolding extend accepted add_block
  extend-Linked h b c e l = elim (Bool-cases (str_eq b.header.parent_hash h.hash)) [
    | inr other ↦ rw other l
    | inl parent ↦ elim (Bool-cases (b.header.number == (h.header.number + 1) % 2 ^ 64)) [
      | inr gap ↦ rw (parent, gap) l
      | inl next ↦
          rw (parent, next)
            (rw ((accepted-same b c).blocks) (
              Linked-snoc c.blocks h b e
                (record {
                  parent = (str_eq_iff b.header.parent_hash h.hash).0 parent;
                  number = ground (arith, next);
                })
                l))
    ]
  ]

  none_extends :
      (b : Block) (c : Chain Doc) → Linked c.blocks → Linked (extend marshal none b c).1.blocks
  unfolding extend
  none_extends b c l = l

  insert_block-Linked :
      (b : Block) (c : Chain Doc) → Linked c.blocks → Linked (insert_block marshal b c).1.blocks
  unfolding insert_block head
  insert_block-Linked b c l = elim (Option-cases (lookup b.hash c.by_hash)) [
    | inr (x, there) ↦ rw there l
    | inl new ↦ elim (Option-cases (last c.blocks)) [
      | inl empty ↦ rw (new, empty) (none_extends b c l)
      | inr (h, e) ↦ rw (new, e) (extend-Linked h b c e l)
    ]
  ]

  -- a node's chain after the blocks that it was given, those it refused included
  unfoldable pub insert_all : List Block → Chain Doc → Chain Doc
  insert_all [] c = c
  insert_all (b ∷ bs) c = insert_all bs (insert_block marshal b c).1

  insert_all_keeps :
      (bs : List Block) (c : Chain Doc) → Linked c.blocks → Linked (insert_all bs c).blocks
  unfolding insert_all
  insert_all_keeps [] c l = l
  insert_all_keeps (b ∷ bs) c l =
      insert_all_keeps bs (insert_block marshal b c).1 (insert_block-Linked b c l)

module _ {Doc : Type 0} (sha256 : GoString → GoString) where
  opened-Linked :
      (unmarshal : Doc → Option Block) (g : GenesisConfig) (dir : GoString) (b : Block)
      → Linked (opened unmarshal dir (with_genesis unmarshal g dir b)).blocks
  unfolding load_from_db load_all open_db add_block iterator matching
  opened-Linked unmarshal g dir b = elim (Bool-cases (str_eq dir [])) [
    | inl memory ↦ rw memory tt
    | inr disk ↦ rw disk tt
  ]

  chain_on-Linked :
      (unmarshal : Doc → Option Block) (g : GenesisConfig) (dir : GoString) (c : Chain Doc)
      (r : Option Block)
      → chain_on unmarshal g dir r ≡ some c
      → Linked c.blocks
  chain_on-Linked unmarshal g dir c none e = ground arith
  chain_on-Linked unmarshal g dir c (some b) e =
      let same : (opened unmarshal dir (with_genesis unmarshal g dir b)).blocks ≡ c.blocks =
        ground (arith, e) in
      subst Linked same (opened-Linked unmarshal g dir b)

  new_chain-Linked :
      (unmarshal : Doc → Option Block) (g : GenesisConfig) (dir : GoString) (c : Chain Doc)
      → new_chain unmarshal sha256 g dir ≡ some c
      → Linked c.blocks
  unfolding new_chain
  new_chain-Linked unmarshal g dir c e =
      chain_on-Linked unmarshal g dir c (genesis_block sha256 g) e

  -- After any blocks were inserted into a new chain, the refused ones included, the chain's blocks
  -- follow one another: each names the hash of the one before it as its parent and has the next
  -- number.
  pub insert_all-Linked :
      (marshal : Block → Option Doc) (unmarshal : Doc → Option Block) (g : GenesisConfig)
      (dir : GoString) (c : Chain Doc) (bs : List Block)
      → new_chain unmarshal sha256 g dir ≡ some c
      → Linked (insert_all marshal bs c).blocks
  insert_all-Linked marshal unmarshal g dir c bs e =
      insert_all_keeps marshal bs c (new_chain-Linked unmarshal g dir c e)
