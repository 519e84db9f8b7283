-- ===== src/Rpc/Recent.antt =====
-- `LatestBlocks` (core/chain.go), and the lists of the newest blocks and transactions that rpc/server.go
-- makes of it.
use Prim.Native.Nat.{min}
use rpcnode.Prelude.{
  ℕ, ◌-◌, ◌≤◌, ◌<◌, GoString, ◌≡◌, refl, sym, ap, ◌∙◌, arith, none, some, Option, List, [], ◌∷◌,
  ◌++◌, length, get_elem?, take, drop, length-drop, length-append, length-take, leb, Bool-cases,
  inl, inr, leb→le, if◌then◌else◌,
}
use rpcnode.Prelude.Reversed.{
  take_all, take-append, same_at, get_elem?-drop, take-append_take, get_elem?-reverse,
  length-reverse,
}
use mathlib.Core.List.{append_assoc, append-nil}
use rpcnode.Prelude.Numerals.{atoi}
use rpcnode.Prelude.Int.{ℤ, pos, negsuc}
use rpcnode.Core.Types.{Transaction, Block, Chain}
use rpcnode.Core.Views.{latest_blocks}
use rpcnode.Rpc.Rest.{page_limit, limit_of, collect_block, collect}

-- A page has from 1 to 100 rows, whatever the query says.
limit_of-bounds : (o : Option ℤ) → (1 ≤ limit_of o) × (limit_of o ≤ 100)
limit_of-bounds none = (omega arith, omega arith)
limit_of-bounds (some (pos n)) = ground arith
limit_of-bounds (some (negsuc n)) = (omega arith, omega arith)

page_limit-bounds : (ls : GoString) → (1 ≤ page_limit ls) × (page_limit ls ≤ 100)
unfolding page_limit
page_limit-bounds ls = ground (arith, limit_of-bounds (atoi ls))

abbrev pub all_transactions : List Block → List Transaction
all_transactions [] = []
all_transactions (b ∷ bs) = b.transactions ++ all_transactions bs

module _ (limit : ℕ) where
  -- a loop that stops once it has `limit` rows, and otherwise takes the first of what is left
  stop :
      (more rest others : List Transaction)
      → length more ≤ limit
      → (length more < limit → others ≡ take limit (more ++ rest))
      → (if leb limit (length more) then more else others) ≡ take limit (more ++ rest)
  stop more rest others few left = elim (Bool-cases (leb limit (length more))) [
    | inl e ↦
        rw (e, take-append limit more rest (leb→le limit (length more) e), take_all limit more few)
          refl
    | inr e ↦ rw e (left (ground (arith, e)))
  ]

  collect_block-take :
      (txs rest : List Transaction)
      → length txs < limit
      → collect_block limit txs rest ≡ take limit (txs ++ rest)
  unfolding collect_block
  collect_block-take txs [] h = rw (append-nil txs) (sym (take_all limit txs (omega (arith, h))))
  collect_block-take txs (tx ∷ rest) h =
      let few : length (txs ++ tx ∷ []) ≤ limit = omega (arith, h, length-append txs (tx ∷ [])) in
      stop (txs ++ tx ∷ []) rest _ few (collect_block-take (txs ++ tx ∷ []) rest)
      ∙ ap (take limit) (append_assoc txs (tx ∷ []) rest)

  collect-take :
      (txs : List Transaction) (bs : List Block)
      → length txs < limit
      → collect limit txs bs ≡ take limit (txs ++ all_transactions bs)
  unfolding collect
  collect-take txs [] h = rw (append-nil txs) (sym (take_all limit txs (omega (arith, h))))
  collect-take txs (b ∷ bs) h =
      let more = collect_block limit txs b.transactions in
      let e = collect_block-take txs b.transactions h in
      let few : length more ≤ limit =
        rw e (omega (arith, length-take limit (txs ++ b.transactions))) in
      stop more (all_transactions bs) _ few (collect-take more bs)
      ∙ ap (λ l. take limit (l ++ all_transactions bs)) e
      ∙ take-append_take limit (txs ++ b.transactions) (all_transactions bs)
      ∙ ap (take limit) (append_assoc txs b.transactions (all_transactions bs))

module _ {Doc : Type 0} (c : Chain Doc) where
  -- `LatestBlocks` returns as many blocks as were asked for, or all of them where there are fewer; the
  -- i-th of them, from 0 on, is the i-th from the end of the chain.
  pub latest_blocks_lem :
      (n : ℕ)
      → (length (latest_blocks n c) ≡ min n (length c.blocks))
        × ((i : ℕ)
            → i < min n (length c.blocks)
            → get_elem? (latest_blocks n c) i ≡ get_elem? c.blocks (length c.blocks - 1 - i))
  unfolding latest_blocks
  latest_blocks_lem n =
      let total = length c.blocks in
      let start = total - min n total in
      let dropped = length-drop start c.blocks in
      let size : length (drop start c.blocks) ≡ min n total = omega (arith, dropped) in
      (
        length-reverse (drop start c.blocks) ∙ size,
        λ i h.
            get_elem?-reverse i (drop start c.blocks) (omega (arith, size, h))
            ∙ get_elem?-drop start _ c.blocks
            ∙ same_at c.blocks _ _ (omega (arith, size, h)),
      )

  -- The two nested loops of `handleTransactions` take the first transactions of the newest blocks, in
  -- the order of the blocks, up to the limit of the query; that limit is from 1 to 100, so they are at
  -- most 100.
  pub recent_transactions :
      (ls : GoString)
      → let limit = page_limit ls in
        let blocks = latest_blocks limit c in
        (collect limit [] blocks ≡ take limit (all_transactions blocks))
        × (1 ≤ limit)
        × (limit ≤ 100)
        × (length (collect limit [] blocks) ≤ 100)
  recent_transactions ls =
      let (some', most) = page_limit-bounds ls in
      let blocks = latest_blocks (page_limit ls) c in
      let e = collect-take (page_limit ls) [] blocks (omega (arith, some')) in
      (
        e,
        some',
        most,
        rw e (omega (arith, most, length-take (page_limit ls) (all_transactions blocks))),
      )
