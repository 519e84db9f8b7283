-- ===== src/Core/Judged.antt =====
-- What `InsertBlock` (core/chain.go) accepts, and that a block is inserted once.
use rpcnode.Prelude.{
  ◌+◌, ◌%◌, ◌^◌, ◌≡◌, ◌≢◌, ◌⊎◌, ◌↔◌, refl, str_eq, str_eq_iff, str_eq_refl, Option, none, some,
  arith, Result, ok, err, ◌==◌, inl, inr, Option-cases, Bool-cases,
}
use rpcnode.Prelude.Dict.{lookup, lookup-insert}
use rpcnode.Core.Types.{Block, ChainError, Chain}
use rpcnode.Core.Chain.{add_block, head, insert_block}
use rpcnode.Core.Linked.{Follows, accepted, accepted-same}
use rpcnode.Core.Insert.{insert-accepted, insert_block_refuses}

module _ {Doc : Type 0} (marshal : Block → Option Doc) (c : Chain Doc) (h b : Block)
    (top : head c ≡ some h) where
  abbrev Judged : Result ChainError (Unit {0}) × Chain Doc → Type 0
  Judged x =
      ((x.0 ≡ ok tt) ↔ ((lookup b.hash c.by_hash ≢ none) ⊎ Follows h b))
      × ((x.0 ≡ ok tt) ⊎ (x.1 ≡ c))
      × (insert_block marshal b x.1 ≡ x)

  refusal-Judged :
      (e : ChainError)
      → insert_block marshal b c ≡ (err e, c)
      → lookup b.hash c.by_hash ≡ none
      → ((f : Follows h b) → ⊥)
      → Judged (err e, c)
  refusal-Judged e same new other = (
    (
      λ done. absurd (ground (arith, done)),
      λ o. elim o [ inl there ↦ absurd (there new) | inr f ↦ absurd (other f) ],
    ),
    inr refl,
    same,
  )

  known_again : lookup b.hash (accepted marshal b c).by_hash ≡ some b
  unfolding add_block
  known_again =
      rw (accepted-same marshal b c).by_hash
        (ground (arith, lookup-insert b.hash b.hash b c.by_hash, str_eq_refl b.hash))

  taken_again :
      (d : Chain Doc) → lookup b.hash d.by_hash ≡ some b → insert_block marshal b d ≡ (ok tt, d)
  unfolding insert_block
  taken_again d e = rw e refl

  insert_block-Judged : Judged (insert_block marshal b c)
  insert_block-Judged =
      let (known, orphan, skipped) = insert_block_refuses marshal c h b top in
      elim (Option-cases (lookup b.hash c.by_hash)) [
        | inr (x, there) ↦
            rw (known x there)
              ((λ _. inl (λ e. ground (arith, e, there)), λ _. refl), inl refl, known x there)
        | inl new ↦ elim (Bool-cases (str_eq b.header.parent_hash h.hash)) [
          | inr other ↦
              let apart : b.header.parent_hash ≢ h.hash =
                λ e. ground (arith, e, other, str_eq_iff b.header.parent_hash h.hash) in
              rw (orphan new apart) (refusal-Judged _ (orphan new apart) new (λ f. apart f.parent))
          | inl same ↦
              let parent = (str_eq_iff b.header.parent_hash h.hash).0 same in
              elim (Bool-cases (b.header.number == (h.header.number + 1) % 2 ^ 64)) [
                | inr gap ↦
                    let skip : b.header.number ≢ (h.header.number + 1) % 2 ^ 64 =
                      λ e. ground (arith, e, gap) in
                    rw (skipped new parent skip)
                      (refusal-Judged _ (skipped new parent skip) new (λ f. skip f.number))
                | inl next ↦
                    let f : Follows h b = record {
                      parent = parent;
                      number = ground (arith, next);
                    } in
                    rw (insert-accepted marshal c h b top new f)
                      ((λ _. inr f, λ _. refl), inl refl, taken_again _ known_again)
              ]
        ]
      ]

  -- On a chain with a head, `InsertBlock` succeeds exactly for the blocks that it knows by their hash
  -- and those that follow the head, by its hash and its number, modulo 2^64. Where it fails, the chain is
  -- as it was. Inserting the same block once more, whatever came of the first time, has the same result
  -- and no effect.
  pub insert_block_judges :
      let (r, c') = insert_block marshal b c in
      ((r ≡ ok tt) ↔ ((lookup b.hash c.by_hash ≢ none) ⊎ Follows h b))
      × ((r ≡ ok tt) ⊎ (c' ≡ c))
      × (insert_block marshal b c' ≡ (r, c'))
  insert_block_judges = insert_block-Judged
