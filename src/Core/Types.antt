-- ===== src/Core/Types.antt =====
-- The types of core/transaction.go, core/block.go, core/genesis.go and core/chain.go. A block and its
-- header are never changed once they are made, so a pointer to one is the value itself; a `*big.Int`
-- that may be nil is an option.
use rpcnode.Prelude.{ℕ, GoString, Option, List}
use rpcnode.Prelude.Int.{ℤ}
use rpcnode.Prelude.Dict.{Dict}
use rpcnode.Storage.{MemStorage}

pub data TxType : Type 0 where
  transfer contract stake unstake bridge : TxType

pub record Transaction : Type 0 where
  pub hash : GoString
  pub from : GoString
  pub to : GoString
  pub value : Option ℤ
  pub gas_limit : ℕ
  pub gas_price : Option ℤ
  pub gas_used : ℕ
  pub nonce : ℕ
  pub data' : GoString
  pub type : TxType
  pub status : GoString
  pub timestamp : ℤ
  pub block_num : ℕ

pub record Header : Type 0 where
  pub number : ℕ
  pub hash : GoString
  pub parent_hash : GoString
  pub state_root : GoString
  pub tx_root : GoString
  pub receipt_root : GoString
  pub validator : GoString
  pub timestamp : ℤ
  pub gas_limit : ℕ
  pub gas_used : ℕ
  pub difficulty : Option ℤ
  pub extra_data : GoString
  pub size : ℕ

pub record Block : Type 0 where
  pub header : Header
  pub transactions : List Transaction
  pub hash : GoString

pub record GenesisAlloc : Type 0 where
  pub address : GoString
  pub balance : Option ℤ
  pub nonce : ℕ

pub record GenesisConfig : Type 0 where
  pub chain_id : ℤ
  pub network_name : GoString
  pub timestamp : ℤ
  pub gas_limit : ℕ
  pub difficulty : Option ℤ
  pub extra_data : GoString
  pub validators : List GoString
  pub alloc : List GenesisAlloc

-- `no_head` stands for the index out of range where a chain holds no block.
pub data ChainError : Type 0 where
  block_not_found invalid_block parent_not_found no_head : ChainError

pub record AccountState : Type 0 where
  pub balance : ℤ
  pub nonce : ℕ

-- `Chain`, with the stored documents of type `Doc`. `blocks` has the oldest first. The locks make
-- each method one step.
pub record Chain (Doc : Type 0) : Type 0 where
  pub blocks : List Block
  pub by_hash : Dict Block
  pub by_number : List (ℕ × Block)
  pub genesis : GenesisConfig
  pub data_dir : GoString
  pub db : Option (MemStorage Doc)
  pub accounts : Dict AccountState
  pub tx_index : Dict Transaction
