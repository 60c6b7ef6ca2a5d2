-- ===== src/Types.antt =====
-- types.go: the chain-agnostic event types that the hooks take, and their helpers. Fixed-size
-- arrays and byte slices are byte strings; a big.Int pointer is an optional integer.
pub mod BigInt
pub mod GoError
use evm_firehose_tracer_go.Prelude.{ℕ, Bool, List, Option, replicate}
use evm_firehose_tracer_go.Prelude.Int.{ℤ}
use evm_firehose_tracer_go.Prelude.Bytes.{Bytes, bytes_eq}

pub record UncleData : Type 0 where
  pub hash : Bytes
  pub parent_hash : Bytes
  pub uncle_hash : Bytes
  pub coinbase : Bytes
  pub root : Bytes
  pub tx_hash : Bytes
  pub receipt_hash : Bytes
  pub bloom : Bytes
  pub difficulty : Option ℤ
  pub number : ℕ
  pub gas_limit : ℕ
  pub gas_used : ℕ
  pub time : ℕ
  pub extra : Bytes
  pub mix_digest : Bytes
  pub nonce : ℕ
  pub base_fee : Option ℤ

pub record WithdrawalData : Type 0 where
  pub index : ℕ
  pub validator_index : ℕ
  pub address : Bytes
  pub amount : ℕ

pub record FinalizedBlockRef : Type 0 where
  pub number : ℕ
  pub hash : Bytes

pub record FlashBlockData : Type 0 where
  pub idx : ℕ
  pub is_final : Bool

pub record BlockData : Type 0 where
  pub number : ℕ
  pub hash : Bytes
  pub parent_hash : Bytes
  pub uncle_hash : Bytes
  pub coinbase : Bytes
  pub root : Bytes
  pub tx_hash : Bytes
  pub receipt_hash : Bytes
  pub bloom : Bytes
  pub difficulty : Option ℤ
  pub gas_limit : ℕ
  pub gas_used : ℕ
  pub time : ℕ
  pub extra : Bytes
  pub mix_digest : Bytes
  pub nonce : ℕ
  pub base_fee : Option ℤ
  pub uncles : List UncleData
  pub size : ℕ
  pub withdrawals : List WithdrawalData
  pub is_merge : Bool
  pub withdrawals_root : Option Bytes
  pub blob_gas_used : Option ℕ
  pub excess_blob_gas : Option ℕ
  pub parent_beacon_root : Option Bytes
  pub requests_hash : Option Bytes
  pub tx_dependency : Option (List (List ℕ))
  pub slot_number : Option ℕ
  pub block_access_list_hash : Option Bytes

pub record AccessTuple : Type 0 where
  pub address : Bytes
  pub storage_keys : List Bytes

pub record SetCodeAuthorization : Type 0 where
  pub chain_id : Bytes
  pub address : Bytes
  pub nonce : ℕ
  pub v : ℕ
  pub r : Bytes
  pub s : Bytes

pub record TxEvent : Type 0 where
  pub trx_type : ℕ
  pub hash : Bytes
  pub from : Bytes
  pub to : Option Bytes
  pub input : Bytes
  pub value : Option ℤ
  pub gas : ℕ
  pub gas_price : Option ℤ
  pub nonce : ℕ
  pub index : ℕ
  pub v : Bytes
  pub r : Bytes
  pub s : Bytes
  pub max_fee_per_gas : Option ℤ
  pub max_priority_fee_per_gas : Option ℤ
  pub access_list : List AccessTuple
  pub blob_gas_fee_cap : Option ℤ
  pub blob_hashes : List Bytes
  pub set_code_authorizations : List SetCodeAuthorization

pub record LogData : Type 0 where
  pub address : Bytes
  pub topics : List Bytes
  pub payload : Bytes
  pub block_index : ℕ

pub record ReceiptData : Type 0 where
  pub transaction_index : ℕ
  pub gas_used : ℕ
  pub status : ℕ
  pub logs : List LogData
  pub logs_bloom : Bytes
  pub cumulative_gas_used : ℕ
  pub blob_gas_used : ℕ
  pub blob_gas_price : Option ℤ
  pub state_root : Bytes

-- A genesis account; its storage is a map from keys to values.
pub record GenesisAccount : Type 0 where
  pub code : Bytes
  pub storage : List (Bytes × Bytes)
  pub balance : Option ℤ
  pub nonce : ℕ

abbrev pub GenesisAlloc : Type 0
GenesisAlloc = List (Bytes × GenesisAccount)

-- `IsZero` of Address and of Hash.
unfoldable pub address_is_zero : Bytes → Bool
unfolding bytes_eq
address_is_zero a = bytes_eq a (replicate 20 0)

unfoldable pub hash_is_zero : Bytes → Bool
unfolding bytes_eq
hash_is_zero h = bytes_eq h (replicate 32 0)
