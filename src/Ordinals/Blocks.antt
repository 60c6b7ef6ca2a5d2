-- ===== src/Ordinals/Blocks.antt =====
-- A block from its start to its line in the output.
use evm_firehose_tracer_go.Prelude.{
  ℕ, suc, All, refl, ◌≤◌, ◌<◌, ◌≡◌, Option, some, none, List, arith, ◌∷◌, [], ◌++◌, inl, inr,
  length, u64_mod, false, Option-cases,
}
use evm_firehose_tracer_go.Pb.{Block}
use evm_firehose_tracer_go.Types.GoError.{GoError}
use evm_firehose_tracer_go.Config.{Config, ChainConfig, zero_rules}
use evm_firehose_tracer_go.Finality
use evm_firehose_tracer_go.External.{External}
use evm_firehose_tracer_go.Hooks.{Hook, run}
use evm_firehose_tracer_go.Deferred.{DeferredCallState}
use evm_firehose_tracer_go.Deferred
use evm_firehose_tracer_go.CallStack
use evm_firehose_tracer_go.Tracer.State.{
  Tracer, ok, Result-cases, BlockOutput, fire_block, new_tracer, reset_transaction, modify_block,
}
use evm_firehose_tracer_go.Tracer.Blocks.{
  BlockEvent, on_block_start, on_block_end, flush_block, release_block, reset_block, new_block,
  add_block_lists, is_flash_block, emit, write_output, block_output,
  reorder_isolated_transactions_and_ordinals,
}
use evm_firehose_tracer_go.FlashBlocks.Appends.{run-Appends}
use evm_firehose_tracer_go.Ordinals.Receipts.{Repeats}
use evm_firehose_tracer_go.Ordinals.{occurs, occurs_in_block}
use evm_firehose_tracer_go.Ordinals.Growth.{between}
use evm_firehose_tracer_go.Ordinals.Runs.{AreFresh, run-AreFresh}

-- Between blocks nothing is being traced: each field of a block and of a transaction is reset.
pub record IsIdle (t : Tracer) : Type 0 where
  pub ordinal : t.block_ordinal.value ≡ 0
  pub block : t.block ≡ none
  pub transaction : t.transaction ≡ none
  pub interrupted : t.interrupted_transaction ≡ none
  pub flash : t.flash_block_index ≡ none
  pub system_call : t.in_system_call ≡ false
  pub calls : t.call_stack ≡ CallStack.reset
  pub deferred : t.deferred_call_state ≡ Deferred.reset
  pub suicided : t.latest_call_enter_suicided ≡ false
  pub preimages : t.transaction_keccak_preimages ≡ []
  pub log_index : t.transaction_log_index ≡ 0
  pub reader : t.transaction_state_reader ≡ none
  pub transient : t.transaction_transient ≡ none
  pub finality : t.block_finality ≡ Finality.reset
  pub base_fee : t.block_base_fee ≡ none
  pub fork_rules : t.block_rules ≡ zero_rules
  pub reorder : t.block_reorder_ordinal ≡ false
  pub genesis : t.block_is_genesis ≡ false
  pub final_flash : t.flash_block_is_final ≡ false

pub new_tracer-IsIdle :
    (config : Config) (chain : Option ChainConfig) → IsIdle (new_tracer config chain)
unfolding new_tracer CallStack.reset Deferred.reset
new_tracer-IsIdle config chain = ground arith

module _ (event : BlockEvent) (t u : Tracer) (idle : IsIdle t) where
  pub on_block_start_empty :
      (k : ℕ)
      → event.flash_block ≡ none
      → on_block_start event t ≡ ok u
      → (u.block_ordinal.value ≡ 0) × (occurs k u ≡ 0)
  unfolding on_block_start is_flash_block release_block new_block modify_block add_block_lists
      occurs CallStack.reset Deferred.reset
  on_block_start_empty k plain e = ground arith

  pub on_block_start-AreFresh :
      event.flash_block ≡ none → on_block_start event t ≡ ok u → AreFresh u
  on_block_start-AreFresh plain e = record {
    unique = λ k h. omega (arith, on_block_start_empty k plain e);
    unused = λ k h. omega (arith, on_block_start_empty k plain e);
  }

flush_block_emits :
    (t u : Tracer)
    → t.config.before_block_flush ≡ none
    → t.concurrent_flush_queue ≡ none
    → flush_block t ≡ ok u
    → (out : BlockOutput) × (u.written ≡ t.written ++ fire_block out ∷ [])
      × (t.block ≡ some out.block)
unfolding flush_block emit write_output block_output reorder_isolated_transactions_and_ordinals
flush_block_emits t u plain synchronous e = elim (Option-cases t.block) [
  | inl absent ↦ absurd (ground arith)
  | inr (b, present) ↦ (block_output t b, ground arith, ground arith)
]

occurs_in_block-le :
    (k : ℕ) (b : Block) (t : Tracer) → t.block ≡ some b → occurs_in_block k (some b) ≤ occurs k t
unfolding occurs
occurs_in_block-le k b t e = ground arith

written_kept :
    (v w : Tracer) (out : BlockOutput) (u : Tracer)
    → w ≡ reset_transaction (reset_block v)
    → v.written ≡ u.written ++ fire_block out ∷ []
    → w.written ≡ u.written ++ fire_block out ∷ []
unfolding reset_transaction reset_block
written_kept v w out u e h = ground arith

started_without_traces :
    (event : BlockEvent) (t u : Tracer)
    → IsIdle t
    → event.flash_block ≡ none
    → on_block_start event t ≡ ok u
    → (b : Block) × (u.block ≡ some b) × (b.transaction_traces ≡ [])
unfolding on_block_start is_flash_block release_block new_block modify_block add_block_lists
started_without_traces event t u idle plain e =
    (add_block_lists event.block (new_block event.block), ground (arith, idle), refl)

-- The receipts of a block that had no traces at first.
block-Repeats :
    (ext : External) (hooks : List Hook) (s u : Tracer) (first last : Block)
    → s.block ≡ some first
    → first.transaction_traces ≡ []
    → run ext hooks s ≡ ok u
    → u.block ≡ some last
    → All Repeats last.transaction_traces
block-Repeats ext hooks s u first last present bare ran ended =
    let (added, kept) = run-Appends ext hooks s u ran in
    let same : last.transaction_traces ≡ added.traces = ground (arith, kept.block) in
    rw same kept.receipts

-- From an idle tracer, a block that starts (not as a flash block iteration), goes through any
-- hooks without a panic and ends without an error is written last. In what is written, apart from
-- the logs of receipts, every ordinal from 1 to the number of hooks occurs at most once, and none
-- above that occurs at all; the logs of receipts repeat ordinals: in each trace with calls a number
-- is the ordinal of a log of the receipt at most as often as of a log of the calls. The bound on
-- the hooks keeps the uint64 counter from wrapping. (No flush hook rewrites the block and no flush
-- queue is used.)
pub block_ordinals_distinct :
    (ext : External) (event : BlockEvent) (hooks : List Hook) (t s u w : Tracer)
    → IsIdle t
    → event.flash_block ≡ none
    → length hooks < u64_mod
    → on_block_start event t ≡ ok s
    → run ext hooks s ≡ ok u
    → u.config.before_block_flush ≡ none
    → u.concurrent_flush_queue ≡ none
    → on_block_end none u ≡ ok w
    → (out : BlockOutput) × (w.written ≡ u.written ++ fire_block out ∷ [])
      × ((k : ℕ) → occurs_in_block (suc k) (some out.block) ≤ between 0 (length hooks) (suc k))
      × All Repeats out.block.transaction_traces
unfolding on_block_end
block_ordinals_distinct ext event hooks t s u w idle plain few started ran no_hook no_queue ended =
    elim (Result-cases (flush_block u)) [
      | inr (p, failed) ↦ absurd (ground arith)
      | inl (v, flushed) ↦
          let (out, wrote, same) = flush_block_emits u v no_hook no_queue flushed in
          let start = on_block_start_empty event t s idle 0 plain started in
          let (first, present, bare) = started_without_traces event t s idle plain started in
          let (fresh, bound) =
            run-AreFresh ext hooks s u (omega (arith, start.0))
              (on_block_start-AreFresh event t s idle plain started) ran in
          (
            out,
            written_kept v w out u (ground arith) wrote,
            λ k.
                let le = occurs_in_block-le (suc k) out.block u same in
                ground (
                  arith,
                  le,
                  fresh.unique (suc k) (omega arith),
                  fresh.unused (suc k),
                  bound,
                  start.0,
                ),
            block-Repeats ext hooks s u first out.block present bare ran same,
          )
    ]
