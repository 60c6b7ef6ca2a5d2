-- ===== src/Tracer/SystemCalls.antt =====
-- tracer.go: system calls, and the transaction that one of them may interrupt.
use evm_firehose_tracer_go.Prelude.{
  true, not, ◌&&◌, ◌++◌, Option, none, some, is_some, if◌then◌else◌,
}
use evm_firehose_tracer_go.Pb.{zero_transaction}
use evm_firehose_tracer_go.Keccak.{attach_storage_slot_preimages}
use evm_firehose_tracer_go.CallStack.{new_call_stack}
use evm_firehose_tracer_go.Deferred.{new_deferred_call_state, has_call_only_changes}
use evm_firehose_tracer_go.Tracer.State.{
  Tracer, Result, ok, ◌>>=◌, ◌>>◌, guard, require, nested_system_call, call_only_changes,
  nil_pointer, InterruptedTransactionState, reset_transaction, modify_block, ensure_in_block,
  ensure_in_block_and_in_trx, ensure_in_system_call,
}

-- The fields that a system call would overwrite.
unfoldable pub save_transaction : Tracer → InterruptedTransactionState
save_transaction t = record {
  transaction = t.transaction;
  transaction_log_index = t.transaction_log_index;
  transaction_state_reader = t.transaction_state_reader;
  transaction_keccak_preimages = t.transaction_keccak_preimages;
  call_stack = t.call_stack;
  deferred_call_state = t.deferred_call_state;
  latest_call_enter_suicided = t.latest_call_enter_suicided;
  latest_call_enter_suicided_depth = t.latest_call_enter_suicided_depth;
}

unfoldable pub interrupt_transaction : Tracer → Tracer
unfolding save_transaction reset_transaction new_call_stack new_deferred_call_state
interrupt_transaction t = reset_transaction (record t {
  interrupted_transaction = some (save_transaction t);
  call_stack = new_call_stack;
  deferred_call_state = new_deferred_call_state;
})

unfoldable pub resume_transaction : InterruptedTransactionState → Tracer → Tracer
resume_transaction s t = record t {
  interrupted_transaction = none;
  transaction = s.transaction;
  transaction_log_index = s.transaction_log_index;
  transaction_state_reader = s.transaction_state_reader;
  transaction_keccak_preimages = s.transaction_keccak_preimages;
  call_stack = s.call_stack;
  deferred_call_state = s.deferred_call_state;
  latest_call_enter_suicided = s.latest_call_enter_suicided;
  latest_call_enter_suicided_depth = s.latest_call_enter_suicided_depth;
}

abbrev pub resume_if_any : Option InterruptedTransactionState → Tracer → Tracer
resume_if_any none t = t
resume_if_any (some s) t = resume_transaction s t

unfoldable pub on_system_call_start : Tracer → Result Tracer
unfolding interrupt_transaction ensure_in_block
on_system_call_start t = do
  ensure_in_block t
  guard (not (is_some t.transaction && t.in_system_call)) nested_system_call
  let u = if is_some t.transaction then interrupt_transaction t else t
  ok (record u { in_system_call = true; transaction = some zero_transaction })

unfoldable pub on_system_call_end : Tracer → Result Tracer
unfolding ensure_in_block_and_in_trx ensure_in_system_call has_call_only_changes modify_block
    reset_transaction resume_transaction attach_storage_slot_preimages
on_system_call_end t = do
  ensure_in_block_and_in_trx t
  ensure_in_system_call t
  guard (not (has_call_only_changes t.deferred_call_state)) call_only_changes
  trx ← require t.transaction nil_pointer
  let calls = attach_storage_slot_preimages trx.calls t.transaction_keccak_preimages
  u ← modify_block (λ b. record b { system_calls = b.system_calls ++ calls }) t
  ok (resume_if_any t.interrupted_transaction (reset_transaction u))
