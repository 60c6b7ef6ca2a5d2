-- ===== src/Scenarios/Protocols.antt =====
-- The properties of hooks in the order of calls and of blocks, at concrete hooks.
use evm_firehose_tracer_go.Prelude.{ℕ, ◌≡◌, refl, List, [], ◌∷◌, none, some, true, false}
use evm_firehose_tracer_go.Prelude.Int.{pos}
use evm_firehose_tracer_go.Pb.{zero_call, zero_transaction}
use evm_firehose_tracer_go.Types.GoError.{leaf}
use evm_firehose_tracer_go.Tracer.State.{Tracer, ok, new_tracer}
use evm_firehose_tracer_go.Tracer.Blocks.{add_block_lists, new_block}
use evm_firehose_tracer_go.Hooks.{run}
use evm_firehose_tracer_go.FlashBlocks.{with_lists_of}
use evm_firehose_tracer_go.FlashBlocks.Added.{Added}
use evm_firehose_tracer_go.FlashBlocks.Appends.{Appends, run-Appends}
use evm_firehose_tracer_go.FlashBlocks.Iterations.{flash_iteration_run}
use evm_firehose_tracer_go.Protocol.{
  Entry, Exit, calls, nonce, logs, storage, Activities, finished, also, changes, nests, destructs,
  hooks_of_all, IsTracing,
}
use evm_firehose_tracer_go.Protocol.Calls.{activities_trace}
use evm_firehose_tracer_go.Protocol.Transactions.{Traced}
use evm_firehose_tracer_go.Protocol.Blocks.{TracedBlock}
use evm_firehose_tracer_go.Scenarios.{
  external, chain, block_event, flash_event, tx, receipt, addr_a, addr_b, word,
}
use evm_firehose_tracer_go.Scenarios.Traces.{
  blank, short_hooks, flash_traced, flash_snapshot, flash_grown, flash_ended, flash_again,
  flash_block, flash_runs,
}

abbrev entry : ℕ → Entry
entry depth = record {
  depth = depth;
  from = addr_a;
  to = addr_b;
  input = [];
  gas = 1000;
  value = some (pos 3);
}

abbrev returns : Exit
returns = record { output = []; gas_used = 10; err = none; reverted = false }

abbrev reverts : Exit
reverts = record {
  output = [];
  gas_used = 10;
  err = some (leaf "execution reverted");
  reverted = true;
}

-- A call that is reverted, after it stored something and destroyed itself, and a log behind it.
abbrev body : Activities
body =
    also
      (nests calls (entry 1)
        (also (changes (storage addr_b (word 1) (word 0) (word 2)))
          (also (destructs (entry 2) returns) finished))
        reverts)
      (also (changes (logs addr_b [] (1 ∷ []) 0)) finished)

abbrev in_root : Tracer
in_root = record blank {
  block = some (new_block block_event.block);
  transaction = some zero_transaction;
  call_stack = record { stack = zero_call ∷ []; index = 1; depth = 1 };
}

in_root-IsTracing : IsTracing in_root 1 in_root
unfolding new_tracer
in_root-IsTracing = record {
  block = refl;
  chain = refl;
  transaction = refl;
  depth = refl;
  plain = refl;
  isolated = refl;
  interrupted = refl;
}

activities_trace_example :
    (u : Tracer) × (run external (hooks_of_all body) in_root ≡ ok u) × IsTracing in_root 1 u
activities_trace_example = activities_trace external body in_root 0 in_root in_root-IsTracing

abbrev transfer : Traced
transfer = record {
  event = tx;
  reader = none;
  before = nonce addr_a 4 5 ∷ [];
  kind = calls;
  entry = entry 0;
  body = body;
  left = returns;
  after = [];
  receipt = some receipt;
}

abbrev blocks : List TracedBlock
blocks =
    record { event = block_event; transactions = transfer ∷ transfer ∷ [] }
    ∷ record { event = block_event; transactions = [] }
    ∷ []

run-Appends_example : (added : Added) × Appends added flash_snapshot flash_grown
run-Appends_example = run-Appends external short_hooks flash_snapshot flash_grown flash_runs.10

flash_iteration_run_example :
    (flash_again.block
      ≡ some (
          add_block_lists block_event.block
            (with_lists_of flash_block (new_block block_event.block))))
    × (flash_again.block_ordinal.value ≡ flash_traced.block_ordinal.value)
flash_iteration_run_example =
    flash_iteration_run external short_hooks flash_traced flash_snapshot flash_grown flash_ended
      flash_again flash_block 1 (flash_event 2) (record { idx = 2; is_final = false }) chain
      flash_runs.0 flash_runs.1 flash_runs.11 flash_runs.2 flash_runs.10 flash_runs.6 flash_runs.7
      refl flash_runs.12 flash_runs.9
