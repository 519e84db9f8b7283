-- ===== src/Rpc/Announced.antt =====
-- From `produceBlock` (consensus/pos.go) to the WebSocket subscribers (main.go, rpc/server.go): what the
-- engine calls after it has inserted a block.
use rpcnode.Prelude.{
  ℕ, ◌≤◌, ◌<◌, GoString, bytes, hex_encode, ◌≡◌, ap, ◌∙◌, arith, Option, none, some, List, [], ◌∷◌,
  ◌++◌, length, Result, ok, err,
}
use mathlib.Core.Path.{subst}
use rpcnode.Prelude.Int.{ℤ}
use rpcnode.Prelude.Dict.{lookup}
use rpcnode.Prelude.Text.Lengths.{length-hex_encode}
use rpcnode.Json.{Json}
use rpcnode.Core.Types.{Transaction, Block, ChainError}
use rpcnode.Core.Blocks.{new_block, compute_hash}
use rpcnode.Core.Chain.{head, insert_block}
use rpcnode.Consensus.{ValidatorSet, built, proposed_by, proposed}
use rpcnode.Consensus.Production.{proposed_is_accepted}
use rpcnode.Rpc.Types.{Server, Panic}
use rpcnode.Rpc.Sockets.{broadcast_ws, announce, new_block_message}
use rpcnode.Rpc.Delivery.{waiting-broadcast_ws}

-- `if err := …; err != nil { return }`, and the call of `newBlockFn`
abbrev pub called :
    {Doc : Type 0} → Result ChainError (Unit {0}) → Block → Server Doc → Result Panic (Server Doc)
called (err e) b s = ok s
called (ok _) b s = announce b s

-- the end of `produceBlock`, on the server's chain
unfoldable pub insert_and_announce :
    {Doc : Type 0} → (Block → Option Doc) → Block → Server Doc → Result Panic (Server Doc)
insert_and_announce marshal b s =
    let (r, c) = insert_block marshal b s.chain in called r b (record s { chain = c })

module _ (sha256 : GoString → GoString) (json : Transaction → GoString)
    (digests : (s : GoString) → length (sha256 s) ≡ 32) where
  long_digest : (m : GoString) → 16 ≤ length (bytes "0x" ++ hex_encode (sha256 m))
  long_digest m = omega (arith, length-hex_encode (sha256 m), digests m)

  length-new_block :
      (h : Block) (proposer : GoString) (txs : List Transaction) (now : ℤ)
      → 16 ≤ length (new_block sha256 json (some h.header) proposer txs now).hash
  unfolding new_block compute_hash
  length-new_block h proposer txs now = long_digest _

  length-built :
      (h : Block) (proposer : GoString) (txs : Option (List Transaction)) (now : ℤ) (b : Block)
      → built sha256 json h proposer txs now ≡ some b
      → 16 ≤ length b.hash
  length-built h proposer none now b e = absurd (ground (arith, e))
  length-built h proposer (some txs) now b e =
      let made = new_block sha256 json (some h.header) proposer txs now in
      let same : made ≡ b = ground (arith, e) in
      subst (λ (x : Block). 16 ≤ length x.hash) same (length-new_block h proposer txs now)

  length-proposed :
      (h b : Block) (vs : ValidatorSet) (count : ℕ) (now : ℕ → ℤ) (t : ℤ) (o : Option GoString)
      → proposed_by sha256 json vs h count now t o ≡ some b
      → 16 ≤ length b.hash
  length-proposed h b vs count now t none e = absurd (ground (arith, e))
  length-proposed h b vs count now t (some proposer) e = length-built h proposer _ t b e

  announce_long :
      {Doc : Type 0} (b : Block) (s : Server Doc)
      → 16 ≤ length b.hash
      → announce b s ≡ ok (broadcast_ws (new_block_message b) s)
  unfolding announce
  announce_long b s long = ground (arith, long)

  -- A block that the engine proposes on the head of the server's chain, where the head's hash is the one
  -- in its header and the block's hash is not known, becomes the head and is announced: no handler panics, and the message with its number and its hash
  -- waits for a subscriber whose channel has room, behind what waited before. SHA-256 makes digests of
  -- 32 bytes.
  pub proposed_is_announced :
      {Doc : Type 0} (marshal : Block → Option Doc) (vs : ValidatorSet) (count : ℕ) (now : ℕ → ℤ)
      (t : ℤ) (s : Server Doc) (h b : Block) (i : GoString) (w : List Json)
      → head s.chain ≡ some h
      → h.hash ≡ h.header.hash
      → proposed sha256 json vs h count now t ≡ some b
      → lookup b.hash s.chain.by_hash ≡ none
      → lookup i s.subs ≡ some w
      → length w < 64
      → (u : Server Doc) × (insert_and_announce marshal b s ≡ ok u)
        × (head u.chain ≡ some b)
        × (lookup i u.subs ≡ some (w ++ new_block_message b ∷ []))
  unfolding insert_and_announce proposed broadcast_ws
  proposed_is_announced marshal vs count now t s h b i w top same made new waits room =
      let (taken, newest) =
        proposed_is_accepted marshal sha256 json vs count now t s.chain h b top same made new in
      let s' = record s { chain = (insert_block marshal b s.chain).1 } in
      let long = length-proposed h b vs count now t _ made in
      (
        broadcast_ws (new_block_message b) s',
        ap (λ r. called r b s') taken ∙ announce_long b s' long,
        newest,
        waiting-broadcast_ws i (new_block_message b) s' w waits room,
      )
