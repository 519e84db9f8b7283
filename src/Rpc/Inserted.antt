-- ===== src/Rpc/Inserted.antt =====
-- A block that `InsertBlock` (core/chain.go) took, as rpc/server.go shows it.
use rpcnode.Prelude.{
  ℕ, ◌^◌, ◌<◌, bytes, decimal, ◌≡◌, refl, ap, ◌∙◌, Option, none, some, [], ◌∷◌, ok, str_eq,
}
use rpcnode.Prelude.Dict.{lookup}
use rpcnode.Json.{str}
use rpcnode.Core.Types.{Block, Chain}
use rpcnode.Core.Chain.{head, insert_block}
use rpcnode.Core.Linked.{Follows}
use rpcnode.Core.Insert.{insert_block_accepts}
use rpcnode.Rpc.Types.{Server, eth_block_number, eth_get_block_by_hash, eth_get_block_by_number}
use rpcnode.Rpc.Views.{hex, block_to_rpc}
use rpcnode.Rpc.Dispatch.{view, block_by_number, param_str, shown_block}
use rpcnode.Prelude.Numerals.Decimals.{parse_uint-decimal}
use rpcnode.Core.Views.{object, block_to_map}
use rpcnode.Core.Chain.{get_by_number}
use rpcnode.Rpc.Http.{json_ok}
use rpcnode.Rpc.Rest.{handle_block, find_block, block_reply}
use rpcnode.Rpc.Numbers.{numbered_block}

latest_shown :
    {Doc : Type 0} (c : Chain Doc) (b : Block)
    → head c ≡ some b
    → block_by_number (bytes "latest") c ≡ some (block_to_rpc b)
unfolding block_by_number str_eq
latest_shown c b e = rw e refl

numbered_reply :
    {Doc : Type 0} (c : Chain Doc) (n : ℕ) (b : Block)
    → n < 2 ^ 64
    → get_by_number n c ≡ ok b
    → handle_block (decimal n) c ≡ json_ok (object (("block", block_to_map b) ∷ []))
unfolding handle_block
numbered_reply c n b small e =
    ap (λ o. block_reply (find_block o (decimal n) c)) (parse_uint-decimal n small)
    ∙ ap block_reply e

module _ {Doc : Type 0} (marshal : Block → Option Doc) (s : Server Doc) (h b : Block)
    (now : ℕ) where
  -- After a block that is not known and follows the head was inserted into the server's chain,
  -- `eth_blockNumber` is its number in hexadecimal, and `eth_getBlockByHash` with its hash and
  -- `eth_getBlockByNumber` with that number or with `latest` show it. So does `/api/blocks/` with the
  -- number in decimal.
  pub inserted_is_shown :
      head s.chain ≡ some h
      → lookup b.hash s.chain.by_hash ≡ none
      → Follows h b
      → b.header.number < 2 ^ 64
      → let t = record s { chain = (insert_block marshal b s.chain).1 } in
        (view eth_block_number [] now t ≡ ok (some (hex b.header.number)))
        × (view eth_get_block_by_hash (str b.hash ∷ []) now t ≡ ok (some (block_to_rpc b)))
        × (view eth_get_block_by_number (hex b.header.number ∷ []) now t
            ≡ ok (some (block_to_rpc b)))
        × (view eth_get_block_by_number (str (bytes "latest") ∷ []) now t
            ≡ ok (some (block_to_rpc b)))
        × (handle_block (decimal b.header.number) t.chain
            ≡ json_ok (object (("block", block_to_map b) ∷ [])))
  unfolding view param_str
  inserted_is_shown top new f small =
      let c = (insert_block marshal b s.chain).1 in
      let (taken, newest, number, by_hash, by_number) =
        insert_block_accepts marshal s.chain h b top new f in
      (
        ap (λ n. ok (some (hex n))) number,
        ap (λ r. ok (shown_block r)) by_hash,
        ap ok (((numbered_block c b.header.number small).0 b by_number).0),
        ap ok (latest_shown c b newest),
        numbered_reply c b.header.number b small by_number,
      )
