-- ===== src/Scenarios.antt =====
-- Concrete data: a tracer, a block, a transaction and hooks on it.
pub mod Traces
pub mod Witnesses
pub mod Values
pub mod Protocols
pub mod Texts
use evm_firehose_tracer_go.Prelude.{
  ℕ, Bool, ◌≡◌, refl, List, [], ◌∷◌, Option, none, some, true, false, replicate,
}
use evm_firehose_tracer_go.Prelude.Int.{ℤ, pos}
use evm_firehose_tracer_go.Prelude.Bytes.{Bytes}
use evm_firehose_tracer_go.Pb.{Call, TransactionTrace, Log, zero_call, zero_transaction}
use evm_firehose_tracer_go.Types.{BlockData, TxEvent, ReceiptData, LogData, FlashBlockData}
use evm_firehose_tracer_go.Types.GoError.{leaf}
use evm_firehose_tracer_go.Config.{ChainConfig, Config, StateReader}
use evm_firehose_tracer_go.External.{External}
use evm_firehose_tracer_go.Hooks.{
  Hook, tx_start, tx_end, call_enter, call_exit, balance_change, nonce_change, storage_change, log,
}
use evm_firehose_tracer_go.Tracer.State.{Tracer, Result, ok, panic}
use evm_firehose_tracer_go.Tracer.Blocks.{BlockEvent}

abbrev pub external : External
external = record {
  keccak256 = λ bs. replicate 32 7;
  rlp_sender_nonce = λ sender nonce. some [];
  rlp_authorization = λ chain_id address nonce. some [];
  recover_compact = λ signature hash. none;
}

abbrev pub addr_a : Bytes
addr_a = replicate 20 1

abbrev pub addr_b : Bytes
addr_b = replicate 20 2

abbrev pub word : ℕ → Bytes
word n = replicate 32 n

abbrev pub chain : ChainConfig
chain = record {
  chain_id = some (pos 1);
  shanghai_time = some 10;
  cancun_time = some 20;
  prague_time = none;
  verkle_time = none;
  shanghai_block = none;
  cancun_block = none;
  prague_block = some (pos 30);
  set_code_auth_recovery = none;
}

abbrev pub config : Config
config = record {
  ignore_genesis_block = false;
  enable_concurrent_flushing = false;
  concurrent_buffer_size = 0;
  drop_transactions_without_receipt = false;
  is_never_reverted_log = none;
  before_block_flush = none;
  output_writer = λ n line. true;
}

abbrev pub block_data : BlockData
block_data = record {
  number = 7;
  hash = word 1;
  parent_hash = word 2;
  uncle_hash = word 3;
  coinbase = addr_a;
  root = word 4;
  tx_hash = word 5;
  receipt_hash = word 6;
  bloom = [];
  difficulty = some (pos 0);
  gas_limit = 100;
  gas_used = 50;
  time = 12;
  extra = [];
  mix_digest = word 0;
  nonce = 0;
  base_fee = some (pos 5);
  uncles = [];
  size = 600;
  withdrawals = [];
  is_merge = true;
  withdrawals_root = none;
  blob_gas_used = none;
  excess_blob_gas = none;
  parent_beacon_root = none;
  requests_hash = none;
  tx_dependency = none;
  slot_number = none;
  block_access_list_hash = none;
}

abbrev pub block_event : BlockEvent
block_event = record { block = block_data; finalized = none; flash_block = none; rules = none }

abbrev pub flash_event : ℕ → BlockEvent
flash_event idx = record block_event { flash_block = some (record { idx = idx; is_final = false }) }

abbrev pub tx : TxEvent
tx = record {
  trx_type = 2;
  hash = word 9;
  from = addr_a;
  to = some addr_b;
  input = [];
  value = some (pos 3);
  gas = 21000;
  gas_price = some (pos 1);
  nonce = 4;
  index = 0;
  v = [];
  r = word 0;
  s = word 0;
  max_fee_per_gas = some (pos 9);
  max_priority_fee_per_gas = some (pos 2);
  access_list = [];
  blob_gas_fee_cap = none;
  blob_hashes = [];
  set_code_authorizations = [];
}

abbrev pub receipt : ReceiptData
receipt = record {
  transaction_index = 0;
  gas_used = 21000;
  status = 1;
  logs = record { address = addr_b; topics = []; payload = 1 ∷ []; block_index = 0 } ∷ [];
  logs_bloom = [];
  cumulative_gas_used = 21000;
  blob_gas_used = 0;
  blob_gas_price = none;
  state_root = [];
}

-- A call that logs, with a call in it that is reverted.
abbrev pub hooks : List Hook
hooks =
    tx_start tx none
    ∷ nonce_change addr_a 4 5
    ∷ call_enter 0 0xf1 addr_a addr_b [] 20000 (some (pos 3))
    ∷ log addr_b [] (1 ∷ []) 0
    ∷ call_enter 1 0xf1 addr_b addr_a [] 1000 (some (pos 0))
    ∷ storage_change addr_a (word 1) (word 0) (word 2)
    ∷ call_exit [] 900 (some (leaf "execution reverted")) true
    ∷ call_exit [] 15000 none false
    ∷ tx_end (some receipt)
    ∷ []

abbrev pub ok_or {ℓ} : {A : Type ℓ} → A → Result A → A
ok_or t (ok u) = u
ok_or t (panic p) = t

abbrev pub is_ok {ℓ} : {A : Type ℓ} → Result A → Bool
is_ok (ok u) = true
is_ok (panic p) = false

pub ok-ok_or {ℓ} : {A : Type ℓ} (t : A) (m : Result A) → is_ok m ≡ true → m ≡ ok (ok_or t m)
ok-ok_or t (ok u) h = refl
ok-ok_or t (panic p) h = cc
