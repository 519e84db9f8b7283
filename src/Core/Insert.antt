-- ===== src/Core/Insert.antt =====
-- `InsertBlock` (core/chain.go) on every branch.
use rpcnode.Prelude.{
  ◌+◌, ◌%◌, ◌^◌, ◌≡◌, ◌≢◌, refl, str_eq, str_eq_iff, str_eq_refl, true, Option, none, some, arith,
  ok, err, ◌==◌,
}
use rpcnode.Prelude.Dict.{lookup, lookup-insert}
use rpcnode.Core.Types.{Block, invalid_block, parent_not_found, Chain}
use rpcnode.Core.Chain.{
  block_at, add_block, head, height, get_by_hash, get_by_number, extend, insert_block,
}
use rpcnode.Core.Linked.{Follows, accepted, accepted-same, last-snoc}

module _ {Doc : Type 0} (marshal : Block → Option Doc) (c : Chain Doc) (h b : Block)
    (top : head c ≡ some h) where
  pub insert-accepted :
      lookup b.hash c.by_hash ≡ none
      → Follows h b
      → insert_block marshal b c ≡ (ok tt, accepted marshal b c)
  unfolding insert_block extend accepted
  insert-accepted new f =
      let parent : str_eq b.header.parent_hash h.hash ≡ true =
        (str_eq_iff b.header.parent_hash h.hash).1 f.parent in
      let next : (b.header.number == (h.header.number + 1) % 2 ^ 64) ≡ true =
        ground (arith, f.number) in
      rw (new, top, parent, next) refl

  -- A block that is not known and follows the head is accepted: it is the new head, and is found by
  -- its hash and by its number.
  pub insert_block_accepts :
      lookup b.hash c.by_hash ≡ none
      → Follows h b
      → let (r, c') = insert_block marshal b c in
        (r ≡ ok tt)
        × (head c' ≡ some b)
        × (height c' ≡ b.header.number)
        × (get_by_hash b.hash c' ≡ ok b)
        × (get_by_number b.header.number c' ≡ ok b)
  unfolding head height get_by_hash get_by_number add_block block_at
  insert_block_accepts new f =
      let same = accepted-same marshal b c in
      rw (insert-accepted new f, same.blocks, same.by_hash, same.by_number)
        (
          refl,
          last-snoc c.blocks b,
          rw (last-snoc c.blocks b) refl,
          ground (arith, lookup-insert b.hash b.hash b c.by_hash, str_eq_refl b.hash),
          ground arith,
        )

  pub insert_block_refuses :
      ((x : Block) → lookup b.hash c.by_hash ≡ some x → insert_block marshal b c ≡ (ok tt, c))
      × (lookup b.hash c.by_hash ≡ none
          → b.header.parent_hash ≢ h.hash
          → insert_block marshal b c ≡ (err parent_not_found, c))
      × (lookup b.hash c.by_hash ≡ none
          → b.header.parent_hash ≡ h.hash
          → b.header.number ≢ (h.header.number + 1) % 2 ^ 64
          → insert_block marshal b c ≡ (err invalid_block, c))
  unfolding insert_block extend
  insert_block_refuses = (
    λ x there. rw there refl,
    λ new other. ground (arith, str_eq_iff b.header.parent_hash h.hash),
    λ new parent gap. ground (arith, str_eq_iff b.header.parent_hash h.hash),
  )
