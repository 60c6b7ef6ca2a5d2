-- ===== src/Tracer/Headers.antt =====
-- tracer.go: the protobuf headers of a block and of its uncles. A timestamp is its Unix seconds.
use evm_firehose_tracer_go.Prelude.{[], ◌∷◌, Option, none, some}
use evm_firehose_tracer_go.Prelude.Bytes.{Bytes}
use evm_firehose_tracer_go.Pb.{BigIntBytes, BlockHeader}
use evm_firehose_tracer_go.Types.{BlockData, UncleData}
use evm_firehose_tracer_go.Types.BigInt.{big_int_to_protobuf}

-- A difficulty is always written, zero as one zero byte.
unfoldable pub required_difficulty : BigIntBytes → BigIntBytes
required_difficulty none = some (0 ∷ [])
required_difficulty (some bs) = some bs

-- An optional array that is missing leaves its field nil.
abbrev bytes_or_nil : Option Bytes → Bytes
bytes_or_nil none = []
bytes_or_nil (some bs) = bs

unfoldable pub new_block_header_from_block_data : BlockData → BlockHeader
unfolding required_difficulty
new_block_header_from_block_data block = record {
  parent_hash = block.parent_hash;
  uncle_hash = block.uncle_hash;
  coinbase = block.coinbase;
  state_root = block.root;
  transactions_root = block.tx_hash;
  receipt_root = block.receipt_hash;
  logs_bloom = block.bloom;
  difficulty = required_difficulty (big_int_to_protobuf block.difficulty);
  number = block.number;
  gas_limit = block.gas_limit;
  gas_used = block.gas_used;
  timestamp = block.time;
  extra_data = block.extra;
  mix_hash = block.mix_digest;
  nonce = block.nonce;
  hash = block.hash;
  base_fee_per_gas = big_int_to_protobuf block.base_fee;
  withdrawals_root = bytes_or_nil block.withdrawals_root;
  tx_dependency = block.tx_dependency;
  blob_gas_used = block.blob_gas_used;
  excess_blob_gas = block.excess_blob_gas;
  parent_beacon_root = bytes_or_nil block.parent_beacon_root;
  requests_hash = bytes_or_nil block.requests_hash;
  block_access_list_hash = bytes_or_nil block.block_access_list_hash;
  slot_number = block.slot_number;
}

unfoldable pub new_block_header_from_uncle_data : UncleData → BlockHeader
unfolding required_difficulty
new_block_header_from_uncle_data uncle = record {
  parent_hash = uncle.parent_hash;
  uncle_hash = uncle.uncle_hash;
  coinbase = uncle.coinbase;
  state_root = uncle.root;
  transactions_root = uncle.tx_hash;
  receipt_root = uncle.receipt_hash;
  logs_bloom = uncle.bloom;
  difficulty = required_difficulty (big_int_to_protobuf uncle.difficulty);
  number = uncle.number;
  gas_limit = uncle.gas_limit;
  gas_used = uncle.gas_used;
  timestamp = uncle.time;
  extra_data = uncle.extra;
  mix_hash = uncle.mix_digest;
  nonce = uncle.nonce;
  hash = uncle.hash;
  base_fee_per_gas = big_int_to_protobuf uncle.base_fee;
  withdrawals_root = [];
  tx_dependency = none;
  blob_gas_used = none;
  excess_blob_gas = none;
  parent_beacon_root = [];
  requests_hash = [];
  block_access_list_hash = [];
  slot_number = none;
}
