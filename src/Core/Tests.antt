-- ===== src/Core/Tests.antt =====
-- The theorems about the chain on a concrete one.
use rpcnode.Prelude.{
  ◌≡◌, ◌≢◌, ◌⊎◌, ◌↔◌, refl, bytes, str_eq, ascii_lower, none, some, [], ◌∷◌, arith, ok,
  if◌then◌else◌,
}
use rpcnode.Prelude.Int.{pos, ◌+ℤ◌, ◌-ℤ◌, ◌*ℤ◌, to_int64, leb_ℤ}
use rpcnode.Prelude.Dict.{lookup, insert}
use rpcnode.Core.Types.{Transaction, TxType, Block}
use rpcnode.Core.Chain.{add_block, head, get_balance, cost_of, apply_tx, insert_block}
use rpcnode.Core.Linked.{Follows, Linked, insert_all, insert_all-Linked}
use rpcnode.Core.Judged.{insert_block_judges}
use rpcnode.Core.Payments.{apply_tx_moves}
use rpcnode.Core.Balances.{funds, arriving, apply_tx-funds}
use rpcnode.Core.Examples.{digest, config, first, start, new_chain-start}

abbrev gift : Transaction
gift = record {
  hash = bytes "t1";
  from = bytes "AL";
  to = bytes "bo";
  value = some (pos 500);
  gas_limit = 21000;
  gas_price = some (pos 2);
  gas_used = 21000;
  nonce = 0;
  data' = [];
  type = TxType.transfer;
  status = bytes "success";
  timestamp = pos 9;
  block_num = 1;
}

abbrev second : Block
second = record {
  header = record first.header { number = 1; parent_hash = bytes "0x68"; hash = bytes "b1" };
  transactions = gift ∷ [];
  hash = bytes "b1";
}

-- a block whose number skips one
abbrev gap : Block
gap = record second { header = record second.header { number = 3 }; hash = bytes "b3" }

insert_all-Linked_example : Linked (insert_all some (second ∷ gap ∷ second ∷ []) start).blocks
insert_all-Linked_example =
    insert_all-Linked digest some some config [] start (second ∷ gap ∷ second ∷ []) new_chain-start

head-first : head start ≡ some first
unfolding head add_block
head-first = refl

insert_block_judges_example :
    let (r, c') = insert_block some gap start in
    ((r ≡ ok tt) ↔ ((lookup gap.hash start.by_hash ≢ none) ⊎ Follows first gap))
    × ((r ≡ ok tt) ⊎ (c' ≡ start))
    × (insert_block some gap c' ≡ (r, c'))
insert_block_judges_example = insert_block_judges some start first gap head-first

unknown : lookup (bytes "b1") start.by_hash ≡ none
unfolding add_block lookup insert str_eq
unknown = refl

apply_tx-funds_example :
    let cost = cost_of (pos 500) (some (pos 2)) 21000 in
    funds (apply_tx gift start).accounts ≡ (
      if leb_ℤ cost (get_balance (bytes "AL") start)
      then funds start.accounts -ℤ cost +ℤ arriving (ascii_lower (bytes "bo")) (pos 500)
      else funds start.accounts)
apply_tx-funds_example = apply_tx-funds start gift (pos 500) refl (λ e. ground arith)

different : bytes "al" ≢ bytes "bo"
different e = ground arith

named : bytes "bo" ≢ []
named e = ground arith

start_balance : get_balance (bytes "AL") start ≡ pos 100000
unfolding get_balance add_block ascii_lower lookup insert str_eq
start_balance = refl

apply_tx_moves_example :
    let cost = cost_of (pos 500) (some (pos 2)) 21000 in
    (get_balance (bytes "AL") (apply_tx gift start) ≡ get_balance (bytes "AL") start -ℤ cost)
    × (get_balance (bytes "bo") (apply_tx gift start) ≡ get_balance (bytes "bo") start +ℤ pos 500)
unfolding ascii_lower cost_of to_int64 ◌*ℤ◌ ◌+ℤ◌
apply_tx_moves_example =
    apply_tx_moves start gift (pos 500) refl (λ e. ground arith) different named
      (rw start_balance (omega arith))
