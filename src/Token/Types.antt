-- ===== src/Token/Types.antt =====
-- The types of gpl/token/token.go. A `*big.Int` that every path sets before it is read (a balance, a
-- total supply) is its integer; the allowance may be nil.
use rpcnode.Prelude.{ℕ, GoString, Bool, Option, List}
use rpcnode.Prelude.Int.{ℤ}
use rpcnode.Json.{Json}
use rpcnode.Storage.{MemStorage}

pub data TokenError : Type 0 where
  token_not_found account_not_found insufficient_funds unauthorized invalid_amount : TokenError
  mint_authority_fixed overflow bad_decimals allowance_exceeded : TokenError
  -- the errors made by `fmt.Errorf`
  sender_frozen recipient_frozen : TokenError
  already_exists : GoString → TokenError
  -- what `json.Unmarshal` reports
  bad_document : TokenError

pub record TokenInfo : Type 0 where
  pub id : GoString
  pub name : GoString
  pub symbol : GoString
  pub decimals : ℕ
  pub total_supply : ℤ
  pub mint_authority : GoString
  pub freeze_auth : GoString
  pub creator : GoString
  pub created_at : ℤ
  pub uri : GoString

pub record TokenAccount : Type 0 where
  pub token_id : GoString
  pub owner : GoString
  pub balance : ℤ
  pub frozen : Bool
  pub delegate : GoString
  pub allowance : Option ℤ

-- The kinds of event, for the strings "Create", "Transfer", "Mint", "Burn", "Approve" and
-- "TransferFrom".
pub data EventKind : Type 0 where
  create transfer mint burn approve transfer_from : EventKind

-- A field that an operation does not set is empty.
pub record EventLog : Type 0 where
  pub token_id : GoString
  pub event : EventKind
  pub from : GoString
  pub to : GoString
  pub amount : Option ℤ
  pub authority : GoString
  pub block_num : ℕ
  pub tx_hash : GoString
  pub timestamp : ℤ

-- `Program`: its store, and what its event channel holds, oldest first. The mutex makes each method
-- one step.
pub record Program : Type 0 where
  pub store : MemStorage Json
  pub events : List EventLog
