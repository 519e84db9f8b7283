-- ===== src/Core/Started.antt =====
-- A chain that `NewChain` (core/chain.go) made has a head, and keeps having one.
use rpcnode.Prelude.{
  ◌+◌, ◌%◌, ◌^◌, ◌≡◌, refl, GoString, str_eq, str_eq_iff, Option, none, some, List, [], Result,
  arith, Option-cases, Bool-cases, inl, inr, ◌==◌,
}
use mathlib.Core.Path.{subst}
use rpcnode.Prelude.Dict.{lookup}
use rpcnode.Storage.{iterator, matching}
use rpcnode.Core.Types.{Block, GenesisConfig, Chain, ChainError}
use rpcnode.Core.Blocks.{genesis_block}
use rpcnode.Core.Chain.{
  opened, chain_on, last, add_block, head, insert_block, with_genesis, new_chain, load_from_db,
  load_all, open_db,
}
use rpcnode.Core.Linked.{Follows}
use rpcnode.Core.Insert.{insert_block_accepts, insert_block_refuses}

abbrev pub HasHead : {Doc : Type 0} → Chain Doc → Type 0
HasHead c = (b : Block) × (last c.blocks ≡ some b)

module _ {Doc : Type 0} where
  opened-HasHead :
      (unmarshal : Doc → Option Block) (g : GenesisConfig) (dir : GoString) (b : Block)
      → HasHead (opened unmarshal dir (with_genesis unmarshal g dir b))
  unfolding load_from_db load_all open_db add_block iterator matching
  opened-HasHead unmarshal g dir b = elim (Bool-cases (str_eq dir [])) [
    | inl memory ↦ rw memory (b, refl)
    | inr disk ↦ rw disk (b, refl)
  ]

  chain_on-HasHead :
      (unmarshal : Doc → Option Block) (g : GenesisConfig) (dir : GoString) (c : Chain Doc)
      (r : Option Block)
      → chain_on unmarshal g dir r ≡ some c
      → HasHead c
  chain_on-HasHead unmarshal g dir c none e = absurd (ground (arith, e))
  chain_on-HasHead unmarshal g dir c (some b) e =
      let same : (opened unmarshal dir (with_genesis unmarshal g dir b)).blocks ≡ c.blocks =
        ground (arith, e) in
      subst (λ (bs : List Block). (b : Block) × (last bs ≡ some b)) same
        (opened-HasHead unmarshal g dir b)

  pub new_chain-HasHead :
      (sha256 : GoString → GoString) (unmarshal : Doc → Option Block) (g : GenesisConfig)
      (dir : GoString) (c : Chain Doc)
      → new_chain unmarshal sha256 g dir ≡ some c
      → HasHead c
  unfolding new_chain
  new_chain-HasHead sha256 unmarshal g dir c e =
      chain_on-HasHead unmarshal g dir c (genesis_block sha256 g) e

  module _ (marshal : Block → Option Doc) where
    untouched :
        (b : Block) (c : Chain Doc) (r : Result ChainError (Unit {0}))
        → HasHead c
        → insert_block marshal b c ≡ (r, c)
        → HasHead (insert_block marshal b c).1
    untouched b c r h e = rw e h

    pub insert_block-HasHead :
        (b : Block) (c : Chain Doc) → HasHead c → HasHead (insert_block marshal b c).1
    unfolding head
    insert_block-HasHead b c (h, top) =
        let (known, orphan, skipped) = insert_block_refuses marshal c h b top in
        elim (Option-cases (lookup b.hash c.by_hash)) [
          | inr (x, there) ↦ untouched b c _ (h, top) (known x there)
          | inl new ↦ elim (Bool-cases (str_eq b.header.parent_hash h.hash)) [
            | inr other ↦
                untouched b c _ (h, top)
                  (orphan new
                    (λ e. ground (arith, e, other, str_eq_iff b.header.parent_hash h.hash)))
            | inl same ↦
                let parent = (str_eq_iff b.header.parent_hash h.hash).0 same in
                elim (Bool-cases (b.header.number == (h.header.number + 1) % 2 ^ 64)) [
                  | inr gap ↦
                      untouched b c _ (h, top) (skipped new parent (λ e. ground (arith, e, gap)))
                  | inl next ↦
                      let follows : Follows h b = record {
                        parent = parent;
                        number = ground (arith, next);
                      } in
                      (b, (insert_block_accepts marshal c h b top new follows).1)
                ]
          ]
        ]
