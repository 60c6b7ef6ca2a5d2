-- ===== src/Tracer/Parallel.antt =====
-- tracer.go: isolated tracers. Each traces one transaction with ordinals of its own from 1 on,
-- and the coordinator rebases them when it commits the transaction. An isolated tracer holds a
-- copy of the coordinator's block pointer; what it would write through that pointer is not seen
-- by the coordinator here.
use evm_firehose_tracer_go.Prelude.{
  ℕ, ◌+◌, true, false, not, List, [], ◌∷◌, ◌++◌, Option, none, some, map, u64, if◌then◌else◌,
}
use evm_firehose_tracer_go.Pb.{
  BalanceChange, NonceChange, CodeChange, StorageChange, Log, Call, TransactionReceipt,
  TransactionTrace,
}
use evm_firehose_tracer_go.Ordinal
use evm_firehose_tracer_go.CallStack.{new_call_stack}
use evm_firehose_tracer_go.CallStack
use evm_firehose_tracer_go.Deferred.{new_deferred_call_state}
use evm_firehose_tracer_go.Deferred
use evm_firehose_tracer_go.Tracer.State.{
  Tracer, Result, ok, ◌>>=◌, ◌>>◌, guard, spawn_on_isolated, reset_on_coordinator, modify_block,
  ensure_in_block,
}

-- Its output stream is nil, to which a write panics.
unfoldable pub new_isolated_transaction_tracer : Tracer → Tracer
unfolding new_call_stack new_deferred_call_state Ordinal.reset
new_isolated_transaction_tracer t = record t {
  written = [];
  output_writer = λ n line. false;
  concurrent_flush_queue = none;
  flush_queue_closed = false;
  block_ordinal = Ordinal.reset;
  block_reorder_ordinal = false;
  block_is_genesis = false;
  transaction = none;
  transaction_log_index = 0;
  transaction_state_reader = none;
  in_system_call = false;
  transaction_keccak_preimages = [];
  interrupted_transaction = none;
  transaction_isolated = true;
  transaction_transient = none;
  transaction_dropped = false;
  call_stack = new_call_stack;
  deferred_call_state = new_deferred_call_state;
  latest_call_enter_suicided = false;
  latest_call_enter_suicided_depth = 0;
  flash_block_index = none;
  flash_block_is_final = false;
  snapshot_for_next_flash_block = none;
}

unfoldable pub on_tx_spawn : Tracer → Result Tracer
unfolding new_isolated_transaction_tracer ensure_in_block
on_tx_spawn t = do
  guard (not t.transaction_isolated) spawn_on_isolated
  ensure_in_block t
  ok (new_isolated_transaction_tracer t)

unfoldable pub on_tx_reset : Tracer → Result Tracer
unfolding CallStack.reset Deferred.reset Ordinal.reset
on_tx_reset t = do
  guard t.transaction_isolated reset_on_coordinator
  ok (record t {
    transaction = none;
    transaction_state_reader = none;
    transaction_log_index = 0;
    transaction_transient = none;
    transaction_dropped = false;
    call_stack = CallStack.reset;
    deferred_call_state = Deferred.reset;
    latest_call_enter_suicided = false;
    latest_call_enter_suicided_depth = 0;
    block_ordinal = Ordinal.reset;
  })

abbrev pub shift_balance_change : ℕ → BalanceChange → BalanceChange
shift_balance_change base c = record c { ordinal = u64 (c.ordinal + base) }

abbrev pub shift_nonce_change : ℕ → NonceChange → NonceChange
shift_nonce_change base c = record c { ordinal = u64 (c.ordinal + base) }

abbrev pub shift_code_change : ℕ → CodeChange → CodeChange
shift_code_change base c = record c { ordinal = u64 (c.ordinal + base) }

abbrev pub shift_storage_change : ℕ → StorageChange → StorageChange
shift_storage_change base c = record c { ordinal = u64 (c.ordinal + base) }

abbrev pub shift_log : ℕ → Log → Log
shift_log base l = record l { ordinal = u64 (l.ordinal + base) }

-- Account creations keep their ordinals.
unfoldable pub shift_call : ℕ → Call → Call
shift_call base call = record call {
  begin_ordinal = u64 (call.begin_ordinal + base);
  balance_changes = map (shift_balance_change base) call.balance_changes;
  nonce_changes = map (shift_nonce_change base) call.nonce_changes;
  code_changes = map (shift_code_change base) call.code_changes;
  storage_changes = map (shift_storage_change base) call.storage_changes;
  logs = map (shift_log base) call.logs;
  end_ordinal = u64 (call.end_ordinal + base);
}

-- The rebased call, and the ordinal that is returned.
unfoldable pub reorder_call_ordinals : Call → ℕ → Call × ℕ
unfolding shift_call
reorder_call_ordinals call base = (shift_call base call, u64 (call.end_ordinal + base))

abbrev pub shift_receipt : ℕ → Option TransactionReceipt → Option TransactionReceipt
shift_receipt base none = none
shift_receipt base (some receipt) =
    some (record receipt { logs = map (shift_log base) receipt.logs })

unfoldable pub reorder_transaction_ordinals : TransactionTrace → ℕ → TransactionTrace × ℕ
unfolding reorder_call_ordinals
reorder_transaction_ordinals trx base = (
  record trx {
    begin_ordinal = u64 (trx.begin_ordinal + base);
    calls = map (λ call. (reorder_call_ordinals call base).0) trx.calls;
    receipt = shift_receipt base trx.receipt;
    end_ordinal = u64 (trx.end_ordinal + base);
  },
  u64 (trx.end_ordinal + base),
)

-- reorderTraceOrdinals: each call is rebased on the ordinal that the one before it returned.
unfoldable pub reorder_calls_in_turn : List Call → ℕ → List Call × ℕ
unfolding reorder_call_ordinals
reorder_calls_in_turn [] base = ([], base)
reorder_calls_in_turn (call ∷ calls) base =
    let (shifted, next) = reorder_call_ordinals call base in
    let (rest, last) = reorder_calls_in_turn calls next in (shifted ∷ rest, last)

unfoldable pub reorder_trace_ordinals : TransactionTrace → ℕ → TransactionTrace × ℕ
unfolding reorder_calls_in_turn
reorder_trace_ordinals trace base =
    let (calls, last) = reorder_calls_in_turn trace.calls base in
    (
      record trace {
        begin_ordinal = u64 (trace.begin_ordinal + base);
        calls = calls;
        end_ordinal = u64 (trace.end_ordinal + last);
      },
      u64 (trace.end_ordinal + last),
    )

unfoldable pub add_isolated_transaction : TransactionTrace → Tracer → Result Tracer
unfolding reorder_trace_ordinals modify_block Ordinal.peek Ordinal.set
add_isolated_transaction trace t = do
  let (shifted, last) = reorder_trace_ordinals trace (Ordinal.peek t.block_ordinal)
  modify_block (λ b. record b { transaction_traces = b.transaction_traces ++ shifted ∷ [] })
      (record t { block_ordinal = Ordinal.set last })

abbrev last_or : ℕ → ℕ → List Call → ℕ
last_or base old [] = old
last_or base old (call ∷ calls) = last_or base (reorder_call_ordinals call base).1 calls

unfoldable pub add_isolated_system_calls : List Call → Tracer → Result Tracer
unfolding reorder_call_ordinals modify_block Ordinal.peek Ordinal.set
add_isolated_system_calls calls t = do
  let base = Ordinal.peek t.block_ordinal
  modify_block
      (λ b. record b {
        system_calls = b.system_calls ++ map (λ call. (reorder_call_ordinals call base).0) calls;
      })
      (record t { block_ordinal = Ordinal.set (last_or base base calls) })

pub data CommitError : Type 0 where
  commit_on_isolated commit_of_coordinator nothing_to_commit : CommitError

-- The error, if any, with the coordinator and the isolated tracer afterwards.
unfoldable pub commit_transient :
    TransactionTrace → Tracer → Tracer → Result (Option CommitError × Tracer × Tracer)
unfolding reorder_transaction_ordinals modify_block Ordinal.peek Ordinal.set
commit_transient trx t isolated = do
  let (shifted, last) = reorder_transaction_ordinals trx (Ordinal.peek t.block_ordinal)
  u ← modify_block (λ b. record b { transaction_traces = b.transaction_traces ++ shifted ∷ [] }) t
  ok (
    none,
    record u { block_ordinal = Ordinal.set last },
    record isolated { transaction_transient = none },
  )

unfoldable pub on_tx_commit : Tracer → Tracer → Result (Option CommitError × Tracer × Tracer)
unfolding commit_transient
on_tx_commit t isolated =
    if t.transaction_isolated
    then ok (some commit_on_isolated, t, isolated)
    else if not isolated.transaction_isolated
    then ok (some commit_of_coordinator, t, isolated)
    else if isolated.transaction_dropped
    then ok (none, t, record isolated { transaction_dropped = false })
    else elim isolated.transaction_transient [
      | none ↦ ok (some nothing_to_commit, t, isolated)
      | some trx ↦ commit_transient trx t isolated
    ]
