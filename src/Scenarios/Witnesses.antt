-- ===== src/Scenarios/Witnesses.antt =====
-- The properties of whole traces, at the traces of this folder.
use evm_firehose_tracer_go.Prelude.{
  All, ℕ, suc, ◌+◌, ◌≤◌, ◌≡◌, refl, List, [], ◌∷◌, ◌++◌, none, some, false, take, arith,
}
use evm_firehose_tracer_go.Pb.{Block, TransactionTrace, Call}
use evm_firehose_tracer_go.Scenarios.{external, chain, config, block_event, flash_event, hooks}
use evm_firehose_tracer_go.Scenarios.Traces.{
  blank, begun_block, traced_block, ended_block, in_call, before_end, sorted_calls, system_hooks,
  system_started, system_traced, system_ended, flash_traced, flash_snapshot, flash_grown,
  flash_ended, flash_again, flash_block, flash_block_later, spawned, isolated, isolated_trace,
  committed, reset_isolated, transaction_or, block_runs, call_runs, system_call_runs, flash_runs,
  flash_grows, isolated_runs,
}
use evm_firehose_tracer_go.Tracer.State.{BlockOutput, fire_block, ok}
use evm_firehose_tracer_go.Tracer.Blocks.{add_block_lists, new_block}
use evm_firehose_tracer_go.Tracer.Completion.{populate_state_reverted}
use evm_firehose_tracer_go.Ordinals.{IsCovered, occurs_in_block, occurs_in_transaction}
use evm_firehose_tracer_go.Ordinals.Growth.{between}
use evm_firehose_tracer_go.Ordinals.Runs.{AreFresh, run-AreFresh}
use evm_firehose_tracer_go.Ordinals.Receipts.{Repeats}
use evm_firehose_tracer_go.Ordinals.Blocks.{
  IsIdle, new_tracer-IsIdle, block_ordinals_distinct, on_block_start-AreFresh, on_block_start_empty,
}
use evm_firehose_tracer_go.Ordinals.Commit.{gaining, IsWithin, on_tx_commit-AreFresh}
use evm_firehose_tracer_go.CallTree.{view}
use evm_firehose_tracer_go.CallTree.Numbering.{
  AreNumbered, IsNumbered, run-AreNumbered, blank-AreNumbered,
}
use evm_firehose_tracer_go.CallTree.Reverted.{AllMarked, numbered_marks}
use evm_firehose_tracer_go.Interrupts.{system_call_restores}
use evm_firehose_tracer_go.Isolation.{on_tx_reset_leaves}
use evm_firehose_tracer_go.FlashBlocks.{flash_iteration, with_lists_of}

blank-IsIdle : IsIdle blank
blank-IsIdle = new_tracer-IsIdle config (some chain)

block_ordinals_distinct_example :
    (out : BlockOutput) × (ended_block.written ≡ traced_block.written ++ fire_block out ∷ [])
    × ((k : ℕ) → occurs_in_block (suc k) (some out.block) ≤ between 0 9 (suc k))
    × All Repeats out.block.transaction_traces
block_ordinals_distinct_example =
    block_ordinals_distinct external block_event hooks blank begun_block traced_block ended_block
      blank-IsIdle refl (omega arith) block_runs.0 block_runs.1 block_runs.3 block_runs.4
      block_runs.2

begun-AreNumbered : AreNumbered 0 (view begun_block)
begun-AreNumbered = blank-AreNumbered (view begun_block) call_runs.6 call_runs.7

run-AreNumbered_example : AreNumbered 8 (view before_end)
run-AreNumbered_example =
    run-AreNumbered external (take 8 hooks) 0 begun_block before_end (omega arith) begun-AreNumbered
      call_runs.2

before_end-IsNumbered : IsNumbered (view before_end).current
before_end-IsNumbered = AreNumbered.current (
    run-AreNumbered external (take 8 hooks) 0 begun_block before_end (omega arith) begun-AreNumbered
      call_runs.2)

numbered_marks_example :
    (out : List Call) × (populate_state_reverted sorted_calls ≡ ok out)
    × AllMarked sorted_calls sorted_calls out
numbered_marks_example =
    numbered_marks before_end sorted_calls before_end-IsNumbered call_runs.3 call_runs.4

system_call_restores_example :
    (system_ended.transaction ≡ in_call.transaction)
    × (system_ended.transaction_log_index ≡ in_call.transaction_log_index)
    × (system_ended.transaction_state_reader ≡ in_call.transaction_state_reader)
    × (system_ended.transaction_keccak_preimages ≡ in_call.transaction_keccak_preimages)
    × (system_ended.call_stack ≡ in_call.call_stack)
    × (system_ended.deferred_call_state ≡ in_call.deferred_call_state)
    × (system_ended.latest_call_enter_suicided ≡ in_call.latest_call_enter_suicided)
    × (system_ended.latest_call_enter_suicided_depth ≡ in_call.latest_call_enter_suicided_depth)
    × (system_ended.interrupted_transaction ≡ none)
    × (system_ended.in_system_call ≡ false)
system_call_restores_example =
    system_call_restores external system_hooks (transaction_or in_call.transaction) in_call
      system_started system_traced system_ended system_call_runs.0 (refl, (refl, (refl, tt)))
      system_call_runs.1 system_call_runs.2 system_call_runs.3

flash_iteration_example :
    (flash_again.block
      ≡ some (
          add_block_lists block_event.block
            (with_lists_of flash_block (new_block block_event.block))))
    × (flash_again.block_ordinal.value ≡ flash_traced.block_ordinal.value)
flash_iteration_example =
    flash_iteration flash_traced flash_snapshot flash_grown flash_ended flash_again flash_block
      flash_block_later 1 (flash_event 2) (record { idx = 2; is_final = false }) chain flash_runs.0
      flash_runs.1 flash_runs.2 flash_runs.3 flash_runs.4 flash_grows flash_runs.5 flash_runs.6
      flash_runs.7 refl flash_runs.8 flash_runs.9

traced-AreFresh : AreFresh traced_block
traced-AreFresh =
    (run-AreFresh external hooks begun_block traced_block
      (omega (
        arith,
        (on_block_start_empty block_event blank begun_block blank-IsIdle 0 refl block_runs.0).0,
      ))
      (on_block_start-AreFresh block_event blank begun_block blank-IsIdle refl block_runs.0)
      block_runs.1).0

isolated-IsWithin :
    IsWithin isolated_trace.end_ordinal (λ k. occurs_in_transaction k isolated_trace)
unfolding occurs_in_transaction
isolated-IsWithin k = ground (arith, isolated_runs.9 k, isolated_runs.10 k, isolated_runs.8)

isolated-IsCovered : IsCovered isolated_trace
isolated-IsCovered k = omega (arith, isolated_runs.11 k, isolated_runs.12 k)

on_tx_commit-AreFresh_example :
    AreFresh committed.1
    × (committed.1.block_ordinal.value
        ≡ traced_block.block_ordinal.value + isolated_trace.end_ordinal)
    × ((b : Block) × (trace : TransactionTrace) × (traced_block.block ≡ some b)
        × (committed.1.block ≡ gaining b trace)
        × IsCovered trace)
on_tx_commit-AreFresh_example =
    on_tx_commit-AreFresh isolated_trace traced_block committed.1 isolated committed.2
      traced-AreFresh isolated-IsWithin isolated-IsCovered
      (omega (arith, isolated_runs.6, isolated_runs.8)) isolated_runs.1 isolated_runs.2
      isolated_runs.4

on_tx_reset_leaves_example :
    (reset_isolated.transaction_keccak_preimages ≡ isolated.transaction_keccak_preimages)
    × (reset_isolated.in_system_call ≡ isolated.in_system_call)
    × (reset_isolated.interrupted_transaction ≡ isolated.interrupted_transaction)
    × (reset_isolated.block ≡ isolated.block)
    × (reset_isolated.call_stack ≡ spawned.call_stack)
    × (reset_isolated.deferred_call_state ≡ spawned.deferred_call_state)
    × (reset_isolated.block_ordinal ≡ spawned.block_ordinal)
    × (reset_isolated.transaction ≡ spawned.transaction)
    × (reset_isolated.transaction_transient ≡ spawned.transaction_transient)
    × (reset_isolated.transaction_dropped ≡ spawned.transaction_dropped)
    × (reset_isolated.transaction_log_index ≡ spawned.transaction_log_index)
    × (reset_isolated.transaction_state_reader ≡ spawned.transaction_state_reader)
    × (reset_isolated.latest_call_enter_suicided ≡ spawned.latest_call_enter_suicided)
    × (reset_isolated.latest_call_enter_suicided_depth ≡ spawned.latest_call_enter_suicided_depth)
on_tx_reset_leaves_example =
    on_tx_reset_leaves traced_block spawned isolated reset_isolated isolated_runs.0 isolated_runs.3
      isolated_runs.5
