-- ===== src/Tracer/State.antt =====
-- tracer.go: the Tracer struct, its panics as values, and the state validation methods. A block
-- and a transaction that are nil pointers are `none`.
use evm_firehose_tracer_go.Prelude.{
  ℕ, Bool, true, false, not, ◌&&◌, List, [], Option, none, some, String, is_some, ltb,
  if◌then◌else◌, ◌≡◌, refl, ◌⊎◌, inl, inr,
}
use evm_firehose_tracer_go.Prelude.Int.{ℤ}
use evm_firehose_tracer_go.Pb.{TransactionTrace, Block}
use evm_firehose_tracer_go.Keccak.{RecordedPreimage}
use evm_firehose_tracer_go.Config.{
  Config, ChainConfig, OutputWriter, Rules, StateReader, zero_rules,
}
use evm_firehose_tracer_go.Ordinal
use evm_firehose_tracer_go.Ordinal.{Ordinal}
use evm_firehose_tracer_go.Finality.{FinalityStatus}
use evm_firehose_tracer_go.Finality
use evm_firehose_tracer_go.CallStack.{CallStack, new_call_stack, has_active_call}
use evm_firehose_tracer_go.CallStack
use evm_firehose_tracer_go.Deferred.{DeferredCallState, new_deferred_call_state}
use evm_firehose_tracer_go.Deferred

-- Why the code panics.
pub data Panic : Type 0 where
  not_initialized initialized_twice not_in_block in_block : Panic
  not_in_transaction in_transaction in_call not_in_call : Panic
  not_in_block_or_transaction not_in_block_and_transaction not_in_system_call : Panic
  unexpected_call_type deferred_source call_only_changes nested_system_call : Panic
  log_count_mismatch block_index_mismatch flash_block_index_not_advancing : Panic
  skipped_block_in_transaction spawn_on_isolated reset_on_coordinator : Panic
  rlp_encoding auth_recovery write_failed send_on_closed_channel : Panic
  nil_pointer index_out_of_range : Panic

pub data Result {ℓ} (A : Type ℓ) : Type ℓ where
  ok : A → Result A
  panic : Panic → Result A

module _ {ℓ κ} {A : Type ℓ} {B : Type κ} where
  -- Nothing runs after a panic.
  infixl 5 ◌>>=◌
  abbrev pub ◌>>=◌ : Result A → (A → Result B) → Result B
  panic why >>= rest = panic why
  ok value >>= rest = rest value

module _ {ℓ} {A : Type ℓ} where
  infixl 5 ◌>>◌
  abbrev pub ◌>>◌ : Result (Unit {0}) → Result A → Result A
  panic why >> rest = panic why
  ok done >> rest = rest

  -- A nil pointer, or another missing value, panics.
  abbrev pub require : Option A → Panic → Result A
  require (some value) why = ok value
  require none why = panic why

  pub Result-cases : (m : Result A) → ((a : A) × (m ≡ ok a)) ⊎ ((why : Panic) × (m ≡ panic why))
  Result-cases (panic why) = inr (why, refl)
  Result-cases (ok value) = inl (value, refl)

-- `if !holds { panic }`
abbrev pub guard : Bool → Panic → Result (Unit {0})
guard false why = panic why
guard true why = ok tt

-- A transaction set aside while a system call is traced.
pub record InterruptedTransactionState : Type 0 where
  pub transaction : Option TransactionTrace
  pub transaction_log_index : ℕ
  pub transaction_state_reader : Option StateReader
  pub transaction_keccak_preimages : List RecordedPreimage
  pub call_stack : CallStack
  pub deferred_call_state : DeferredCallState
  pub latest_call_enter_suicided : Bool
  pub latest_call_enter_suicided_depth : ℕ

-- `block` is `none` as long as the snapshot's pointer is the tracer's own current block, whose
-- later writes the snapshot sees; it holds the block once the tracer has let go of it.
pub record FlashBlockSnapshot : Type 0 where
  pub block : Option Block
  pub tx_traces_len : ℕ
  pub system_calls_len : ℕ
  pub balance_changes_len : ℕ
  pub code_changes_len : ℕ
  pub ordinal : ℕ
  pub flash_index : ℕ

-- tracer_printer.go: a block with the context captured for its line.
pub record BlockOutput : Type 0 where
  pub block : Block
  pub lib_num : ℕ
  pub printed_flash_block_index : ℕ

-- What is written to the output stream.
pub data Line : Type 0 where
  fire_init : String → String → Line
  fire_block : BlockOutput → Line

pub record Tracer : Type 0 where
  pub written : List Line
  pub output_writer : OutputWriter
  pub init_sent : Bool
  pub config : Config
  pub chain_config : Option ChainConfig
  -- The blocks that the flush queue still holds, if there is a queue.
  pub concurrent_flush_queue : Option (List BlockOutput)
  pub flush_queue_closed : Bool
  pub block : Option Block
  pub block_base_fee : Option ℤ
  pub block_ordinal : Ordinal
  pub block_finality : FinalityStatus
  pub block_rules : Rules
  pub block_reorder_ordinal : Bool
  pub block_is_genesis : Bool
  pub transaction : Option TransactionTrace
  pub transaction_log_index : ℕ
  pub transaction_state_reader : Option StateReader
  pub in_system_call : Bool
  pub transaction_keccak_preimages : List RecordedPreimage
  pub interrupted_transaction : Option InterruptedTransactionState
  pub transaction_isolated : Bool
  pub transaction_transient : Option TransactionTrace
  pub transaction_dropped : Bool
  pub call_stack : CallStack
  pub deferred_call_state : DeferredCallState
  pub latest_call_enter_suicided : Bool
  pub latest_call_enter_suicided_depth : ℕ
  pub flash_block_index : Option ℕ
  pub flash_block_is_final : Bool
  pub snapshot_for_next_flash_block : Option FlashBlockSnapshot

unfoldable pub new_tracer : Config → Option ChainConfig → Tracer
unfolding new_call_stack new_deferred_call_state Finality.reset Ordinal.reset
new_tracer config chain_config = record {
  written = [];
  output_writer = config.output_writer;
  init_sent = false;
  config = config;
  chain_config = chain_config;
  concurrent_flush_queue =
      if config.enable_concurrent_flushing && ltb 0 config.concurrent_buffer_size
      then some []
      else none;
  flush_queue_closed = false;
  block = none;
  block_base_fee = none;
  block_ordinal = Ordinal.reset;
  block_finality = Finality.reset;
  block_rules = zero_rules;
  block_reorder_ordinal = false;
  block_is_genesis = false;
  transaction = none;
  transaction_log_index = 0;
  transaction_state_reader = none;
  in_system_call = false;
  transaction_keccak_preimages = [];
  interrupted_transaction = none;
  transaction_isolated = false;
  transaction_transient = none;
  transaction_dropped = false;
  call_stack = new_call_stack;
  deferred_call_state = new_deferred_call_state;
  latest_call_enter_suicided = false;
  latest_call_enter_suicided_depth = 0;
  flash_block_index = none;
  flash_block_is_final = false;
  snapshot_for_next_flash_block = none;
}

-- One ordinal is taken; it is `(tick t).block_ordinal.value`.
unfoldable pub tick : Tracer → Tracer
unfolding Ordinal.next
tick t = record t { block_ordinal = Ordinal.next t.block_ordinal }

-- A write through the block pointer.
unfoldable pub modify_block : (Block → Block) → Tracer → Result Tracer
modify_block f t = do b ← require t.block nil_pointer; ok (record t { block = some (f b) })

unfoldable pub reset_transaction : Tracer → Tracer
unfolding CallStack.reset Deferred.reset
reset_transaction t = record t {
  transaction = none;
  transaction_log_index = 0;
  transaction_state_reader = none;
  in_system_call = false;
  transaction_transient = none;
  transaction_keccak_preimages = [];
  call_stack = CallStack.reset;
  latest_call_enter_suicided = false;
  deferred_call_state = Deferred.reset;
}

unfoldable pub ensure_block_chain_init : Tracer → Result (Unit {0})
ensure_block_chain_init t = guard (is_some t.chain_config) not_initialized

unfoldable pub ensure_in_block : Tracer → Result (Unit {0})
ensure_in_block t = do
  guard (is_some t.block) not_in_block
  guard (is_some t.chain_config) not_initialized

unfoldable pub ensure_not_in_block : Tracer → Result (Unit {0})
ensure_not_in_block t = guard (not (is_some t.block)) in_block

unfoldable pub ensure_in_block_and_in_trx : Tracer → Result (Unit {0})
unfolding ensure_in_block
ensure_in_block_and_in_trx t = do
  ensure_in_block t
  guard (is_some t.transaction) not_in_transaction

unfoldable pub ensure_in_block_and_not_in_trx : Tracer → Result (Unit {0})
unfolding ensure_in_block
ensure_in_block_and_not_in_trx t = do
  ensure_in_block t
  guard (not (is_some t.transaction)) in_transaction

unfoldable pub ensure_in_block_and_not_in_trx_and_not_in_call : Tracer → Result (Unit {0})
unfolding ensure_in_block has_active_call
ensure_in_block_and_not_in_trx_and_not_in_call t = do
  ensure_in_block t
  guard (not (is_some t.transaction)) in_transaction
  guard (not (has_active_call t.call_stack)) in_call

unfoldable pub ensure_in_block_or_trx : Tracer → Result (Unit {0})
ensure_in_block_or_trx t =
    guard (not (not (is_some t.transaction) && not (is_some t.block))) not_in_block_or_transaction

unfoldable pub ensure_in_block_and_in_trx_and_in_call : Tracer → Result (Unit {0})
unfolding has_active_call
ensure_in_block_and_in_trx_and_in_call t = do
  guard (is_some t.transaction && is_some t.block) not_in_block_and_transaction
  guard (has_active_call t.call_stack) not_in_call

unfoldable pub ensure_in_call : Tracer → Result (Unit {0})
unfolding has_active_call
ensure_in_call t = guard (has_active_call t.call_stack) not_in_call

unfoldable pub ensure_in_system_call : Tracer → Result (Unit {0})
ensure_in_system_call t = guard t.in_system_call not_in_system_call
