-- ===== src/Token/Tests.antt =====
-- The theorems about the token program on concrete programs.
use rpcnode.Prelude.{
  ◌≡◌, ◌≢◌, ◌⊎◌, refl, GoString, bytes, str_eq, decimal, hex_encode, none, some, List, [], ◌∷◌,
  arith, ok, err, ◌>>=◌, SlashFree, false, true,
}
use rpcnode.Prelude.Int.{pos, ◌+ℤ◌, ◌-ℤ◌, ◌≤ℤ◌}
use rpcnode.Prelude.Dict.{lookup, insert}
use rpcnode.Storage.{get, put, has}
use rpcnode.Token.Types.{sender_frozen, TokenAccount, Program}
use rpcnode.Token.Codec.{marshal_token, unmarshal_token, marshal_account, unmarshal_account}
use rpcnode.Token.Store.{
  token_key, account_key, get_token, save_token, get_account, get_or_create_account, save_account,
}
use rpcnode.Token.{
  new_program, positive, covering, emit, transfer, mint, burn, approve, transfer_from,
  freeze_account, get_token_info, get_balance, get_allowance, supply_of, derive_token_id,
  create_token,
}
use rpcnode.Token.Request.{
  Request, create, transfer_req, mint_req, burn_req, approve_req, freeze_req, serve, serve_all,
}
use rpcnode.Token.Spec.{Answered}
use rpcnode.Token.Complete.{serve-Answered}
use rpcnode.Token.Invariant.{IsValid, serve_all-IsValid}
use rpcnode.Token.Supply.{held}
use rpcnode.Token.Backed.{supply, serve_all-IsBacked}
use rpcnode.Token.Mint.{mint_issues}
use rpcnode.Token.Burn.{burn_destroys}
use rpcnode.Token.Transfer.{transfer_moves, self_transfer_creates}
use rpcnode.Token.Delegate.{transfer_from_spends, frozen_account_spent}
use rpcnode.Token.Examples.{
  digest, coin, al, bo, cy, start, start-IsValid, sent, looped, delegated, issued, destroyed,
  start_runs, gold, start_reads, two_names,
}

transfer_moves_example :
    (get_balance coin al sent ≡ ok (pos 100 -ℤ pos 10))
    × (get_balance coin bo sent ≡ ok (pos 0 +ℤ pos 10))
    × ((o : GoString) → o ≢ al → o ≢ bo → get_balance coin o sent ≡ get_balance coin o start)
transfer_moves_example =
    transfer_moves start sent coin al bo (pos 10) 3 (pos 8) start-IsValid start_runs.0 (pos 100)
      (pos 0) two_names start_reads.0 start_reads.1

self_transfer_creates_example :
    (get_balance coin al looped ≡ ok (pos 100 +ℤ pos 10))
    × (get_token looped.store coin ≡ get_token start.store coin)
self_transfer_creates_example =
    self_transfer_creates start looped coin al al (pos 10) 3 (pos 8) start-IsValid start_runs.1
      (pos 100) refl start_reads.0

transfer_from_spends_example :
    (pos 10 ≤ℤ get_allowance coin al cy start)
    × (get_allowance coin al cy delegated ≡ get_allowance coin al cy start -ℤ pos 10)
    × (get_balance coin al delegated ≡ ok (pos 100 -ℤ pos 10))
    × (get_balance coin bo delegated ≡ ok (pos 0 +ℤ pos 10))
transfer_from_spends_example =
    transfer_from_spends start delegated coin cy al bo (pos 10) 3 (pos 8) start-IsValid start_runs.2
      (pos 100) (pos 0) two_names start_reads.0 start_reads.1

-- the same token with its authority revoked
abbrev closed : Program
closed =
    serve_all digest
      (create (bytes "Gold") (bytes "G") 18 (some (pos 100)) al [] al [] 1 (pos 5) (pos 6) ∷ [])
      new_program

closed-IsValid : IsValid closed.store
closed-IsValid =
    serve_all-IsValid digest
      (create (bytes "Gold") (bytes "G") 18 (some (pos 100)) al [] al [] 1 (pos 5) (pos 6) ∷ [])

closed_reads : get_token_info coin closed ≡ ok (record gold { mint_authority = [] })
unfolding serve_all serve create_token transfer transfer_from mint burn approve freeze_account
    derive_token_id get_balance get_allowance get_token_info decimal hex_encode emit supply_of
    positive covering ◌>>=◌ ◌+ℤ◌ ◌-ℤ◌ str_eq get put has lookup insert get_token save_token
    get_account get_or_create_account save_account token_key account_key marshal_token
    unmarshal_token marshal_account unmarshal_account
closed_reads = refl

abbrev frozen_history : List Request
frozen_history =
    create (bytes "Gold") (bytes "G") 18 (some (pos 100)) al al al [] 1 (pos 5) (pos 6)
    ∷ approve_req coin al cy (some (pos 100)) 2 (pos 7)
    ∷ freeze_req coin al al true
    ∷ []

abbrev frozen : Program
frozen = serve_all digest frozen_history new_program

abbrev locked : TokenAccount
locked = record {
  token_id = coin;
  owner = al;
  balance = pos 100;
  frozen = true;
  delegate = cy;
  allowance = some (pos 100);
}

frozen_reads :
    (get_account frozen.store coin al ≡ ok locked)
    × (get_or_create_account frozen.store coin bo
        ≡ ok (record {
          token_id = coin;
          owner = bo;
          balance = pos 0;
          frozen = false;
          delegate = [];
          allowance = none;
        }))
unfolding serve_all serve create_token transfer transfer_from mint burn approve freeze_account
    derive_token_id get_balance get_allowance get_token_info decimal hex_encode emit supply_of
    positive covering ◌>>=◌ ◌+ℤ◌ ◌-ℤ◌ str_eq get put has lookup insert get_token save_token
    get_account get_or_create_account save_account token_key account_key marshal_token
    unmarshal_token marshal_account unmarshal_account
frozen_reads = (refl, refl)

frozen-IsValid : IsValid frozen.store
frozen-IsValid = serve_all-IsValid digest frozen_history

frozen_account_spent_example :
    (transfer coin al bo (some (pos 100)) 3 (pos 8) frozen ≡ (err sender_frozen, frozen))
    × ((transfer_from coin cy al bo (some (pos 100)) 3 (pos 8) frozen).0 ≡ ok tt)
    × (get_balance coin al (transfer_from coin cy al bo (some (pos 100)) 3 (pos 8) frozen).1
        ≡ ok (pos 100 -ℤ pos 100))
    × (get_balance coin bo (transfer_from coin cy al bo (some (pos 100)) 3 (pos 8) frozen).1
        ≡ ok (pos 0 +ℤ pos 100))
frozen_account_spent_example =
    frozen_account_spent frozen coin cy al bo (pos 100) (pos 100) 3 (pos 8) locked _ frozen-IsValid
      two_names frozen_reads.0 frozen_reads.1 refl refl refl (omega arith) (omega arith)
      (omega arith)

mint_issues_example :
    (gold.mint_authority ≡ al)
    × (al ≢ [])
    × (get_token_info coin issued ≡ ok (record gold { total_supply = pos 100 +ℤ pos 10 }))
    × (get_balance coin bo issued ≡ ok (pos 0 +ℤ pos 10))
    × ((o : GoString) → o ≢ bo → get_balance coin o issued ≡ get_balance coin o start)
mint_issues_example =
    mint_issues start issued coin al bo (pos 10) 3 (pos 8) start-IsValid start_runs.3 gold (pos 0)
      start_reads.2 start_reads.1

burn_destroys_example :
    ((al ≡ al) ⊎ (al ≡ gold.mint_authority))
    × (pos 10 ≤ℤ pos 100)
    × (get_token_info coin destroyed ≡ ok (record gold { total_supply = pos 100 -ℤ pos 10 }))
    × (get_balance coin al destroyed ≡ ok (pos 100 -ℤ pos 10))
    × ((o : GoString) → o ≢ al → get_balance coin o destroyed ≡ get_balance coin o start)
burn_destroys_example =
    burn_destroys start destroyed coin al al (pos 10) 3 (pos 8) start-IsValid start_runs.4 gold
      (pos 100) start_reads.2 start_reads.0

serve-Answered_example :
    Answered digest
      (transfer_req coin al bo (some (pos 10)) 3 (pos 8))
      start
      (serve digest (transfer_req coin al bo (some (pos 10)) 3 (pos 8)) start)
serve-Answered_example =
    serve-Answered digest (transfer_req coin al bo (some (pos 10)) 3 (pos 8)) start

abbrev longer : List Request
longer =
    create (bytes "Gold") (bytes "G") 18 (some (pos 100)) al al al [] 1 (pos 5) (pos 6)
    ∷ transfer_req coin al bo (some (pos 10)) 3 (pos 8)
    ∷ mint_req coin al cy (some (pos 5)) 3 (pos 8)
    ∷ mint_req coin bo cy (some (pos 5)) 3 (pos 8)
    ∷ burn_req coin bo bo (some (pos 7)) 3 (pos 8)
    ∷ []

coin-SlashFree : SlashFree coin
coin-SlashFree = ground arith

serve_all-IsBacked_example :
    supply (serve_all digest longer new_program).store coin
    ≡ held coin (serve_all digest longer new_program).store
serve_all-IsBacked_example =
    serve_all-IsBacked digest longer (tt, (two_names, (tt, (tt, (tt, tt))))) coin coin-SlashFree

serve_all-IsValid_example : IsValid (serve_all digest longer new_program).store
serve_all-IsValid_example = serve_all-IsValid digest longer

-- 5 tokens were minted, by the authority only, and 7 destroyed.
longer-supply : supply (serve_all digest longer new_program).store coin ≡ pos 98
unfolding serve_all serve create_token transfer transfer_from mint burn approve freeze_account
    derive_token_id get_balance get_allowance get_token_info decimal hex_encode emit supply_of
    positive covering ◌>>=◌ ◌+ℤ◌ ◌-ℤ◌ str_eq get put has lookup insert get_token save_token
    get_account get_or_create_account save_account token_key account_key marshal_token
    unmarshal_token marshal_account unmarshal_account
longer-supply = refl

abbrev wallet : TokenAccount
wallet = record {
  token_id = coin;
  owner = al;
  balance = pos 100;
  frozen = false;
  delegate = cy;
  allowance = some (pos 30);
}

abbrev blank : TokenAccount
blank = record {
  token_id = coin;
  owner = bo;
  balance = pos 0;
  frozen = false;
  delegate = [];
  allowance = none;
}

start_accounts :
    (get_account start.store coin al ≡ ok wallet)
    × (get_or_create_account start.store coin bo ≡ ok blank)
unfolding serve_all serve create_token transfer transfer_from mint burn approve freeze_account
    derive_token_id get_balance get_allowance get_token_info decimal hex_encode emit supply_of
    positive covering ◌>>=◌ ◌+ℤ◌ ◌-ℤ◌ str_eq get put has lookup insert get_token save_token
    get_account get_or_create_account save_account token_key account_key marshal_token
    unmarshal_token marshal_account unmarshal_account
start_accounts = (refl, refl)
