-- ===== src/Protocol/Blocks.antt =====
-- A node that traces block after block, none of them in flash block iterations.
use evm_firehose_tracer_go.Prelude.{
  true, false, ◌≡◌, ◌⊎◌, List, [], ◌∷◌, Option, none, is_some, All,
}
use evm_firehose_tracer_go.Config.{ChainConfig}
use evm_firehose_tracer_go.External.{External}
use evm_firehose_tracer_go.CallStack.{new_call_stack}
use evm_firehose_tracer_go.Hooks.{run}
use evm_firehose_tracer_go.Tracer.State.{
  Tracer, Result, ok, panic, ◌>>=◌, log_count_mismatch, block_index_mismatch,
}
use evm_firehose_tracer_go.Tracer.Blocks.{BlockEvent, on_block_start, on_block_end}
use evm_firehose_tracer_go.Protocol.Transactions.{Traced, IsTraceable, block_hooks}
use evm_firehose_tracer_go.Protocol.Output.{SameOutput}

-- Between two blocks.
pub record IsIdle (t : Tracer) : Type 0 where
  pub chain : is_some t.chain_config ≡ true
  pub transaction : t.transaction ≡ none
  pub stack : t.call_stack ≡ new_call_stack
  pub plain : t.latest_call_enter_suicided ≡ false
  pub interrupted : t.interrupted_transaction ≡ none
  pub shared : t.transaction_isolated ≡ false
  pub unsnapped : t.snapshot_for_next_flash_block ≡ none
  pub whole : t.flash_block_index ≡ none

pub record TracedBlock : Type 0 where
  pub event : BlockEvent
  pub transactions : List Traced

abbrev pub IsWhole : External → Option ChainConfig → TracedBlock → Type 0
IsWhole ext chain b = (b.event.flash_block ≡ none) × All (IsTraceable ext chain) b.transactions

module _ (ext : External) where
  abbrev pub trace_block : TracedBlock → Tracer → Result Tracer
  trace_block b t = do
    u ← on_block_start b.event t
    v ← run ext (block_hooks b.transactions) u
    on_block_end none v

  unfoldable pub trace_blocks : List TracedBlock → Tracer → Result Tracer
  trace_blocks [] t = ok t
  trace_blocks (b ∷ bs) t = trace_block b t >>= trace_blocks bs

-- The node waits for the next block, or the logs of a receipt are not those of the calls.
abbrev pub Advances : Tracer → Result Tracer → Type 0
Advances t m =
    ((u : Tracer) × (m ≡ ok u) × IsIdle u × SameOutput t u)
    ⊎ (m ≡ panic log_count_mismatch)
    ⊎ (m ≡ panic block_index_mismatch)
