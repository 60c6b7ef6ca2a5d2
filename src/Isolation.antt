-- ===== src/Isolation.antt =====
-- tracer.go: what resetting an isolated tracer leaves behind, and how the two ways of rebasing a
-- trace compare.
use evm_firehose_tracer_go.Prelude.{
  ℕ, ◌+◌, ◌<◌, u64, u64_mod, ◌≡◌, ◌≢◌, true, List, ◌∷◌, map, arith,
}
use evm_firehose_tracer_go.Pb.{Call, TransactionTrace}
use evm_firehose_tracer_go.Tracer.State.{Tracer, ok}
use evm_firehose_tracer_go.Tracer.Parallel.{
  new_isolated_transaction_tracer, on_tx_spawn, on_tx_reset, shift_call, reorder_call_ordinals,
  reorder_calls_in_turn, reorder_trace_ordinals, reorder_transaction_ordinals,
}

-- Resetting an isolated tracer gives it the transaction, its log index, its state reader, the
-- transaction to commit, the mark of a dropped one, the call stack, the deferred changes, the mark
-- and the depth of a self-destruct and the ordinal counter of a freshly spawned one, and leaves the
-- preimages, the system call flag, the interrupted transaction and the block as they were.
pub on_tx_reset_leaves :
    (t fresh isolated u : Tracer)
    → on_tx_spawn t ≡ ok fresh
    → isolated.transaction_isolated ≡ true
    → on_tx_reset isolated ≡ ok u
    → (u.transaction_keccak_preimages ≡ isolated.transaction_keccak_preimages)
      × (u.in_system_call ≡ isolated.in_system_call)
      × (u.interrupted_transaction ≡ isolated.interrupted_transaction)
      × (u.block ≡ isolated.block)
      × (u.call_stack ≡ fresh.call_stack)
      × (u.deferred_call_state ≡ fresh.deferred_call_state)
      × (u.block_ordinal ≡ fresh.block_ordinal)
      × (u.transaction ≡ fresh.transaction)
      × (u.transaction_transient ≡ fresh.transaction_transient)
      × (u.transaction_dropped ≡ fresh.transaction_dropped)
      × (u.transaction_log_index ≡ fresh.transaction_log_index)
      × (u.transaction_state_reader ≡ fresh.transaction_state_reader)
      × (u.latest_call_enter_suicided ≡ fresh.latest_call_enter_suicided)
      × (u.latest_call_enter_suicided_depth ≡ fresh.latest_call_enter_suicided_depth)
unfolding on_tx_spawn on_tx_reset new_isolated_transaction_tracer
on_tx_reset_leaves t fresh isolated u spawned iso e = ground arith

-- reorderTraceOrdinals moves the second call of a trace by the first one's end ordinal more than
-- reorderTransactionOrdinals does (modulo 2^64), whatever the two calls hold, and the first call the
-- same; so on a trace of two calls or more, of which the first one ended, the two differ.
pub reorder_trace_ordinals_differs :
    (trace : TransactionTrace) (a b : Call) (rest : List Call) (base : ℕ)
    → trace.calls ≡ a ∷ b ∷ rest
    → 0 < a.end_ordinal
    → a.end_ordinal < u64_mod
    → (first : Call) × (too_far : Call) × (right : Call) × (too_far_rest : List Call)
      × (right_rest : List Call) × ((reorder_trace_ordinals trace base).0.calls
          ≡ first ∷ too_far ∷ too_far_rest)
      × ((reorder_transaction_ordinals trace base).0.calls ≡ first ∷ right ∷ right_rest)
      × (too_far.begin_ordinal ≡ u64 (right.begin_ordinal + a.end_ordinal))
      × (too_far.end_ordinal ≡ u64 (right.end_ordinal + a.end_ordinal))
      × (too_far.begin_ordinal ≢ right.begin_ordinal)
unfolding reorder_trace_ordinals reorder_calls_in_turn reorder_transaction_ordinals
    reorder_call_ordinals shift_call
reorder_trace_ordinals_differs trace a b rest base e started ended = (
  shift_call base a,
  shift_call (u64 (a.end_ordinal + base)) b,
  shift_call base b,
  (reorder_calls_in_turn rest (u64 (b.end_ordinal + u64 (a.end_ordinal + base)))).0,
  map (λ call. (reorder_call_ordinals call base).0) rest,
  ground arith,
  ground arith,
  omega arith,
  omega arith,
  λ same. omega arith,
)
