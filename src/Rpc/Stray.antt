-- ===== src/Rpc/Stray.antt =====
-- What `eth_getBlockByNumber` and its like show for a text that the server does not know (rpc/server.go),
-- on a chain that blocks are inserted into.
use rpcnode.Prelude.{
  ℕ, ◌+◌, ◌%◌, ◌^◌, ◌≡◌, ◌≢◌, refl, ◌∙◌, GoString, bytes, has_prefix, false, arith, Option, none,
  some, List, [], ◌∷◌, ok, length, str_eq, ◌==◌, inl, inr, Bool-cases, Option-cases,
}
use rpcnode.Prelude.Dict.{lookup}
use rpcnode.Core.Types.{Block, Chain}
use rpcnode.Core.Chain.{last, block_at, add_block, get_by_number, extend, insert_block, head}
use rpcnode.Core.Linked.{accepted, accepted-same, insert_all}
use rpcnode.Rpc.Views.{block_to_rpc, hex}
use rpcnode.Rpc.Dispatch.{block_by_number, transaction_count}
use rpcnode.Rpc.Numbers.{numbered_block, stray_tag}

-- no block is numbered `n`
abbrev pub NoneNumbered : ℕ → List Block → Type 0
NoneNumbered n [] = Unit
NoneNumbered n (b ∷ bs) = (b.header.number ≢ n) × NoneNumbered n bs

module _ {Doc : Type 0} (marshal : Block → Option Doc) (n : ℕ) where
  accepted-number :
      (b : Block) (c : Chain Doc)
      → b.header.number ≢ n
      → get_by_number n (accepted marshal b c) ≡ get_by_number n c
  unfolding get_by_number add_block block_at
  accepted-number b c ne = rw ((accepted-same marshal b c).by_number) (ground (arith, ne))

  extend-number :
      (h b : Block) (c : Chain Doc)
      → b.header.number ≢ n
      → get_by_number n (extend marshal (some h) b c).1 ≡ get_by_number n c
  unfolding extend accepted
  extend-number h b c ne = elim (Bool-cases (str_eq b.header.parent_hash h.hash)) [
    | inr other ↦ rw other refl
    | inl parent ↦ elim (Bool-cases (b.header.number == (h.header.number + 1) % 2 ^ 64)) [
      | inr gap ↦ rw (parent, gap) refl
      | inl next ↦ rw (parent, next) (accepted-number b c ne)
    ]
  ]

  none_extends :
      (b : Block) (c : Chain Doc) → get_by_number n (extend marshal none b c).1 ≡ get_by_number n c
  unfolding extend
  none_extends b c = refl

  insert_block-number :
      (b : Block) (c : Chain Doc)
      → b.header.number ≢ n
      → get_by_number n (insert_block marshal b c).1 ≡ get_by_number n c
  unfolding insert_block head
  insert_block-number b c ne = elim (Option-cases (lookup b.hash c.by_hash)) [
    | inr (x, there) ↦ rw there refl
    | inl new ↦ elim (Option-cases (last c.blocks)) [
      | inl empty ↦ rw (new, empty) (none_extends b c)
      | inr (h, e) ↦ rw (new, e) (extend-number h b c ne)
    ]
  ]

  insert_all-number :
      (bs : List Block) (c : Chain Doc)
      → NoneNumbered n bs
      → get_by_number n (insert_all marshal bs c) ≡ get_by_number n c
  unfolding insert_all
  insert_all-number [] c h = refl
  insert_all-number (b ∷ bs) c (ne, h) =
      insert_all-number bs (insert_block marshal b c).1 h ∙ insert_block-number b c ne

-- A text that does not begin with `0x` and is neither `latest` nor empty, such as `earliest`, `pending`
-- or a decimal number, is read as number 0. On a chain that has a block of that number, the genesis
-- block, it shows that block and counts its transactions, whatever blocks of other numbers are inserted from then
-- on and whatever number the text names.
pub stray_tag_shows :
    {Doc : Type 0} (marshal : Block → Option Doc) (c : Chain Doc) (g : Block) (bs : List Block)
    (s : GoString)
    → get_by_number 0 c ≡ ok g
    → NoneNumbered 0 bs
    → has_prefix (bytes "0x") s ≡ false
    → s ≢ bytes "latest"
    → s ≢ []
    → let d = insert_all marshal bs c in
      (block_by_number s d ≡ some (block_to_rpc g))
      × (transaction_count s d ≡ hex (length g.transactions))
stray_tag_shows marshal c g bs s genesis others stray other blank =
    let d = insert_all marshal bs c in
    let (same_block, same_count) = stray_tag d s stray other blank in
    let (there, _) = numbered_block d 0 (omega arith) in
    let (shown, counted) = there g (insert_all-number marshal 0 bs c others ∙ genesis) in
    (same_block ∙ shown, same_count ∙ counted)
