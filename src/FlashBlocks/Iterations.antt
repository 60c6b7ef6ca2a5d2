-- ===== src/FlashBlocks/Iterations.antt =====
-- tracer.go: a flash block iteration with whatever hooks follow its snapshot, and the next one.
use evm_firehose_tracer_go.Prelude.{ℕ, ◌≡◌, refl, ap, ◌∙◌, List, ◌++◌, none, some, arith}
use evm_firehose_tracer_go.Pb.{Block}
use evm_firehose_tracer_go.Config.{ChainConfig}
use evm_firehose_tracer_go.Types.{FlashBlockData}
use evm_firehose_tracer_go.External.{External}
use evm_firehose_tracer_go.Hooks.{Hook, run}
use evm_firehose_tracer_go.Tracer.State.{Tracer, ok}
use evm_firehose_tracer_go.Tracer.Blocks.{
  BlockEvent, on_block_start, on_block_end, add_block_lists, new_block,
  snapshot_flash_block_for_next_iteration,
}
use evm_firehose_tracer_go.FlashBlocks.{Grown, flash_iteration, with_lists_of}
use evm_firehose_tracer_go.FlashBlocks.Added.{Added, extend}
use evm_firehose_tracer_go.FlashBlocks.Appends.{run-Appends}

snapshot_keeps :
    (t s : Tracer)
    → snapshot_flash_block_for_next_iteration t ≡ ok s
    → (s.block ≡ t.block) × (s.config ≡ t.config)
unfolding snapshot_flash_block_for_next_iteration
snapshot_keeps t s e = ground arith

-- The block that a known block was extended to.
abbrev extended : Block → Added → Block
extended b added = record b {
  transaction_traces = b.transaction_traces ++ added.traces;
  system_calls = b.system_calls ++ added.system_calls;
  balance_changes = b.balance_changes ++ added.balance_changes;
  code_changes = b.code_changes ++ added.code_changes;
}

extended-Grown : (b : Block) (added : Added) → Grown b (extended b added)
extended-Grown b added = record {
  traces = added.traces;
  system_calls = added.system_calls;
  balance_changes = added.balance_changes;
  code_changes = added.code_changes;
  traces_eq = refl;
  system_calls_eq = refl;
  balance_changes_eq = refl;
  code_changes_eq = refl;
}

-- A flash block iteration takes a snapshot of its block b, goes through any hooks and ends without
-- an error (no flush hook rewrites the block). When the next iteration, with the same block number,
-- starts, and nothing of this panics, its block has the traces, system calls, balance changes and
-- code changes of b, and the ordinals go on from where they were at the snapshot: nothing of what
-- the hooks after the snapshot traced is in it.
pub flash_iteration_run :
    (ext : External) (hooks : List Hook) (t s e w u : Tracer) (b : Block) (idx : ℕ)
    (event : BlockEvent) (fb : FlashBlockData) (config : ChainConfig)
    → t.block ≡ some b
    → t.flash_block_index ≡ some idx
    → t.config.before_block_flush ≡ none
    → snapshot_flash_block_for_next_iteration t ≡ ok s
    → run ext hooks s ≡ ok e
    → on_block_end none e ≡ ok w
    → w.chain_config ≡ some config
    → event.flash_block ≡ some fb
    → b.number ≡ event.block.number
    → on_block_start event w ≡ ok u
    → (u.block ≡ some (add_block_lists event.block (with_lists_of b (new_block event.block))))
      × (u.block_ordinal.value ≡ t.block_ordinal.value)
flash_iteration_run ext hooks t s e w u b idx event fb config present iterating plain taken ran
      ended configured flash number started =
    let (added, h) = run-Appends ext hooks s e ran in
    let (same_block, same_config) = snapshot_keeps t s taken in
    flash_iteration t s e w u b (extended b added) idx event fb config present iterating taken
      h.snapshot (h.block ∙ ap (λ o. extend o added) (same_block ∙ present))
      (extended-Grown b added) (ap (λ c. c.before_block_flush) (h.config ∙ same_config) ∙ plain)
      ended configured flash number started
