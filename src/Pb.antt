-- ===== src/Pb.antt =====
-- The messages of the generated package sf.ethereum.type.v2 (pbeth in the source), which is not
-- part of the repository: each record has the fields that the tracer reads or writes, with their
-- zero values. A nil slice is the empty list; an optional scalar or message is an Option; the
-- repeated fields hold messages by value.
use evm_firehose_tracer_go.Prelude.{ℕ, Bool, false, List, [], Option, none, String}
use evm_firehose_tracer_go.Prelude.Bytes.{Bytes}

-- `Bytes` of a pbeth.BigInt; a nil *BigInt is `none`.
abbrev pub BigIntBytes : Type 0
BigIntBytes = Option Bytes

pub data CallType : Type 0 where
  unspecified call callcode delegate static create : CallType

-- The reasons that the tracer itself names; every other reason is carried through unread.
pub data BalanceChangeReason : Type 0 where
  unknown genesis_balance : BalanceChangeReason
  other : ℕ → BalanceChangeReason

pub data TransactionTraceStatus : Type 0 where
  unknown succeeded failed reverted : TransactionTraceStatus

pub record AccountCreation : Type 0 where
  pub account : Bytes
  pub ordinal : ℕ

pub record BalanceChange : Type 0 where
  pub address : Bytes
  pub old_value : BigIntBytes
  pub new_value : BigIntBytes
  pub reason : BalanceChangeReason
  pub ordinal : ℕ

pub record NonceChange : Type 0 where
  pub address : Bytes
  pub old_value : ℕ
  pub new_value : ℕ
  pub ordinal : ℕ

pub record CodeChange : Type 0 where
  pub address : Bytes
  pub old_hash : Bytes
  pub old_code : Bytes
  pub new_hash : Bytes
  pub new_code : Bytes
  pub ordinal : ℕ

pub record StorageChange : Type 0 where
  pub address : Bytes
  pub key : Bytes
  pub old_value : Bytes
  pub new_value : Bytes
  pub ordinal : ℕ

pub record Log : Type 0 where
  pub address : Bytes
  pub topics : List Bytes
  pub payload : Bytes
  pub index : ℕ
  pub block_index : ℕ
  pub ordinal : ℕ

pub record Call : Type 0 where
  pub index : ℕ
  pub parent_index : ℕ
  pub depth : ℕ
  pub call_type : CallType
  pub caller : Bytes
  pub address : Bytes
  pub address_delegates_to : Option Bytes
  pub value : BigIntBytes
  pub gas_limit : ℕ
  pub gas_consumed : ℕ
  pub return_data : Bytes
  pub input : Bytes
  pub executed_code : Bool
  pub suicide : Bool
  pub keccak_preimages : List (Bytes × Bytes)
  pub storage_changes : List StorageChange
  pub balance_changes : List BalanceChange
  pub nonce_changes : List NonceChange
  pub code_changes : List CodeChange
  pub account_creations : List AccountCreation
  pub logs : List Log
  pub status_failed : Bool
  pub status_reverted : Bool
  pub failure_reason : String
  pub state_reverted : Bool
  pub begin_ordinal : ℕ
  pub end_ordinal : ℕ

abbrev pub zero_call : Call
zero_call = record {
  index = 0;
  parent_index = 0;
  depth = 0;
  call_type = CallType.unspecified;
  caller = [];
  address = [];
  address_delegates_to = none;
  value = none;
  gas_limit = 0;
  gas_consumed = 0;
  return_data = [];
  input = [];
  executed_code = false;
  suicide = false;
  keccak_preimages = [];
  storage_changes = [];
  balance_changes = [];
  nonce_changes = [];
  code_changes = [];
  account_creations = [];
  logs = [];
  status_failed = false;
  status_reverted = false;
  failure_reason = "";
  state_reverted = false;
  begin_ordinal = 0;
  end_ordinal = 0;
}

pub record TransactionReceipt : Type 0 where
  pub state_root : Bytes
  pub cumulative_gas_used : ℕ
  pub logs_bloom : Bytes
  pub logs : List Log
  pub blob_gas_used : Option ℕ
  pub blob_gas_price : BigIntBytes

pub record AccessTuple : Type 0 where
  pub address : Bytes
  pub storage_keys : List Bytes

pub record SetCodeAuthorization : Type 0 where
  pub discarded : Bool
  pub chain_id : Bytes
  pub address : Bytes
  pub nonce : ℕ
  pub v : ℕ
  pub r : Bytes
  pub s : Bytes
  pub authority : Bytes

pub record TransactionTrace : Type 0 where
  pub to : Bytes
  pub nonce : ℕ
  pub gas_price : BigIntBytes
  pub gas_limit : ℕ
  pub value : BigIntBytes
  pub input : Bytes
  pub v : Bytes
  pub r : Bytes
  pub s : Bytes
  pub gas_used : ℕ
  pub trx_type : ℕ
  pub access_list : List AccessTuple
  pub max_fee_per_gas : BigIntBytes
  pub max_priority_fee_per_gas : BigIntBytes
  pub index : ℕ
  pub hash : Bytes
  pub from : Bytes
  pub return_data : Bytes
  pub begin_ordinal : ℕ
  pub end_ordinal : ℕ
  pub status : TransactionTraceStatus
  pub receipt : Option TransactionReceipt
  pub calls : List Call
  pub blob_gas : Option ℕ
  pub blob_gas_fee_cap : BigIntBytes
  pub blob_hashes : List Bytes
  pub set_code_authorizations : List SetCodeAuthorization

abbrev pub zero_transaction : TransactionTrace
zero_transaction = record {
  to = [];
  nonce = 0;
  gas_price = none;
  gas_limit = 0;
  value = none;
  input = [];
  v = [];
  r = [];
  s = [];
  gas_used = 0;
  trx_type = 0;
  access_list = [];
  max_fee_per_gas = none;
  max_priority_fee_per_gas = none;
  index = 0;
  hash = [];
  from = [];
  return_data = [];
  begin_ordinal = 0;
  end_ordinal = 0;
  status = TransactionTraceStatus.unknown;
  receipt = none;
  calls = [];
  blob_gas = none;
  blob_gas_fee_cap = none;
  blob_hashes = [];
  set_code_authorizations = [];
}

pub record BlockHeader : Type 0 where
  pub parent_hash : Bytes
  pub uncle_hash : Bytes
  pub coinbase : Bytes
  pub state_root : Bytes
  pub transactions_root : Bytes
  pub receipt_root : Bytes
  pub logs_bloom : Bytes
  pub difficulty : BigIntBytes
  pub number : ℕ
  pub gas_limit : ℕ
  pub gas_used : ℕ
  pub timestamp : ℕ
  pub extra_data : Bytes
  pub mix_hash : Bytes
  pub nonce : ℕ
  pub hash : Bytes
  pub base_fee_per_gas : BigIntBytes
  pub withdrawals_root : Bytes
  pub tx_dependency : Option (List (List ℕ))
  pub blob_gas_used : Option ℕ
  pub excess_blob_gas : Option ℕ
  pub parent_beacon_root : Bytes
  pub requests_hash : Bytes
  pub block_access_list_hash : Bytes
  pub slot_number : Option ℕ

pub record Withdrawal : Type 0 where
  pub index : ℕ
  pub validator_index : ℕ
  pub address : Bytes
  pub amount : ℕ

pub record Block : Type 0 where
  pub hash : Bytes
  pub number : ℕ
  pub size : ℕ
  pub header : BlockHeader
  pub uncles : List BlockHeader
  pub transaction_traces : List TransactionTrace
  pub balance_changes : List BalanceChange
  pub detail_level : ℕ
  pub code_changes : List CodeChange
  pub system_calls : List Call
  pub withdrawals : List Withdrawal
  pub ver : ℕ
