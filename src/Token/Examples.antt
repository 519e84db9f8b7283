-- ===== src/Token/Examples.antt =====
-- A concrete token program for the tests: `al` has created a token of 100 and approved `cy` for 30.
use rpcnode.Prelude.{
  ◌≡◌, ◌≢◌, refl, GoString, bytes, str_eq, decimal, hex_encode, some, List, [], ◌∷◌, arith, ok,
  ◌>>=◌,
}
use rpcnode.Prelude.Int.{pos, ◌+ℤ◌, ◌-ℤ◌}
use rpcnode.Prelude.Dict.{lookup, insert}
use rpcnode.Storage.{get, put, has}
use rpcnode.Token.Types.{TokenInfo, Program}
use rpcnode.Token.Codec.{marshal_token, unmarshal_token, marshal_account, unmarshal_account}
use rpcnode.Token.Store.{
  token_key, account_key, get_token, save_token, get_account, get_or_create_account, save_account,
}
use rpcnode.Token.{
  new_program, positive, covering, emit, transfer, mint, burn, approve, transfer_from,
  freeze_account, get_token_info, get_balance, get_allowance, supply_of, derive_token_id,
  create_token,
}
use rpcnode.Token.Request.{Request, create, approve_req, serve, serve_all}
use rpcnode.Token.Invariant.{IsValid, serve_all-IsValid}

-- a hash function for the tests
abbrev pub digest : GoString → GoString
digest s = s

abbrev pub coin : GoString
coin = bytes "0x616c3a473a31"

abbrev pub al : GoString
al = bytes "al"

abbrev pub bo : GoString
bo = bytes "bo"

abbrev pub cy : GoString
cy = bytes "cy"

abbrev pub history : List Request
history =
    create (bytes "Gold") (bytes "G") 18 (some (pos 100)) al al al [] 1 (pos 5) (pos 6)
    ∷ approve_req coin al cy (some (pos 30)) 2 (pos 7)
    ∷ []

abbrev pub start : Program
start = serve_all digest history new_program

pub start-IsValid : IsValid start.store
start-IsValid = serve_all-IsValid digest history

abbrev pub sent : Program
sent = (transfer coin al bo (some (pos 10)) 3 (pos 8) start).1

abbrev pub looped : Program
looped = (transfer coin al al (some (pos 10)) 3 (pos 8) start).1

abbrev pub delegated : Program
delegated = (transfer_from coin cy al bo (some (pos 10)) 3 (pos 8) start).1

abbrev pub issued : Program
issued = (mint coin al bo (some (pos 10)) 3 (pos 8) start).1

abbrev pub destroyed : Program
destroyed = (burn coin al al (some (pos 10)) 3 (pos 8) start).1

-- the calls succeed on the example
pub start_runs :
    (transfer coin al bo (some (pos 10)) 3 (pos 8) start ≡ (ok tt, sent))
    × (transfer coin al al (some (pos 10)) 3 (pos 8) start ≡ (ok tt, looped))
    × (transfer_from coin cy al bo (some (pos 10)) 3 (pos 8) start ≡ (ok tt, delegated))
    × (mint coin al bo (some (pos 10)) 3 (pos 8) start ≡ (ok tt, issued))
    × (burn coin al al (some (pos 10)) 3 (pos 8) start ≡ (ok tt, destroyed))
unfolding serve_all serve create_token transfer transfer_from mint burn approve freeze_account
    derive_token_id get_balance get_allowance get_token_info decimal hex_encode emit supply_of
    positive covering ◌>>=◌ ◌+ℤ◌ ◌-ℤ◌ str_eq get put has lookup insert get_token save_token
    get_account get_or_create_account save_account token_key account_key marshal_token
    unmarshal_token marshal_account unmarshal_account
start_runs = (refl, refl, refl, refl, refl)

abbrev pub gold : TokenInfo
gold = record {
  id = coin;
  name = bytes "Gold";
  symbol = bytes "G";
  decimals = 18;
  total_supply = pos 100;
  mint_authority = al;
  freeze_auth = al;
  creator = al;
  created_at = pos 5;
  uri = [];
}

-- what the example reads as
pub start_reads :
    (get_balance coin al start ≡ ok (pos 100))
    × (get_balance coin bo start ≡ ok (pos 0))
    × (get_token_info coin start ≡ ok gold)
unfolding serve_all serve create_token transfer transfer_from mint burn approve freeze_account
    derive_token_id get_balance get_allowance get_token_info decimal hex_encode emit supply_of
    positive covering ◌>>=◌ ◌+ℤ◌ ◌-ℤ◌ str_eq get put has lookup insert get_token save_token
    get_account get_or_create_account save_account token_key account_key marshal_token
    unmarshal_token marshal_account unmarshal_account
start_reads = (refl, refl, refl)

pub two_names : al ≢ bo
two_names e = ground arith
