-- ===== src/Rpc/Numbers.antt =====
-- The block numbers that clients write and the server reads and shows (rpc/server.go).
use rpcnode.Prelude.{
  ℕ, ◌^◌, ◌<◌, GoString, bytes, has_prefix, str_eq, str_eq_iff, ◌≡◌, ◌≢◌, refl, arith, false, none,
  some, [], ok, err, length,
}
use rpcnode.Prelude.Numerals.{hex_of, scan_hex}
use rpcnode.Prelude.Numerals.Scanning.{scan_hex-hex_of}
use rpcnode.Json.{str}
use rpcnode.Core.Types.{Block, Chain, block_not_found}
use rpcnode.Core.Chain.{get_by_number}
use rpcnode.Rpc.Views.{block_to_rpc, hex}
use rpcnode.Rpc.Dispatch.{block_by_number, transaction_count}

apart : (s t : GoString) → s ≢ t → str_eq s t ≡ false
apart s t ne = ground (arith, str_eq_iff s t)

stray_zero : (s : GoString) → has_prefix (bytes "0x") s ≡ false → scan_hex s ≡ 0
unfolding scan_hex
stray_zero s h = rw h refl

module _ {Doc : Type 0} (c : Chain Doc) where
  tag_apart :
      (n : ℕ) → (str_eq (hex_of n) (bytes "latest") ≡ false) × (str_eq (hex_of n) [] ≡ false)
  unfolding hex_of str_eq
  tag_apart n = (refl, refl)

  -- `eth_getBlockByNumber` and `eth_getBlockTransactionCountByNumber` with a number written the way
  -- the server writes it, `0x` and hexadecimal digits: where the chain has a block of that number
  -- they show that block and count its transactions, and where it has none they show nothing and 0.
  pub numbered_block :
      (n : ℕ)
      → n < 2 ^ 64
      → ((b : Block)
          → get_by_number n c ≡ ok b
          → (block_by_number (hex_of n) c ≡ some (block_to_rpc b))
            × (transaction_count (hex_of n) c ≡ hex (length b.transactions)))
        × (get_by_number n c ≡ err block_not_found
            → (block_by_number (hex_of n) c ≡ none)
              × (transaction_count (hex_of n) c ≡ str (bytes "0x0")))
  unfolding block_by_number transaction_count
  numbered_block n h =
      let (latest, blank) = tag_apart n in
      let scan = scan_hex-hex_of n h in
      (
        λ b e. (rw (latest, blank, scan, e) refl, rw (latest, scan, e) refl),
        λ e. (rw (latest, blank, scan, e) refl, rw (latest, scan, e) refl),
      )

  -- A text that does not begin with `0x` and is neither `latest` nor empty is read as number 0: such a
  -- tag, `earliest`, `pending` or a decimal number, shows the genesis block where there is one.
  pub stray_tag :
      (s : GoString)
      → has_prefix (bytes "0x") s ≡ false
      → s ≢ bytes "latest"
      → s ≢ []
      → (block_by_number s c ≡ block_by_number (hex_of 0) c)
        × (transaction_count s c ≡ transaction_count (hex_of 0) c)
  unfolding block_by_number transaction_count
  stray_tag s h other ne =
      let (latest, blank) = tag_apart 0 in
      let zeroth = scan_hex-hex_of 0 (omega arith) in
      let stray : scan_hex s ≡ 0 = stray_zero s h in
      rw (latest, blank, zeroth, stray, apart s (bytes "latest") other, apart s [] ne) (refl, refl)
