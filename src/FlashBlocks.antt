-- ===== src/FlashBlocks.antt =====
-- tracer.go: the iterations of a flash block. What one iteration snapshots, the next starts with.
pub mod Added
pub mod Kept
pub mod Appends
pub mod Iterations
use evm_firehose_tracer_go.Prelude.{
  ℕ, ◌≡◌, refl, ap, List, [], ◌∷◌, ◌++◌, none, some, length, take, arith, inl, inr, length-append,
  ◌∙◌,
}
use evm_firehose_tracer_go.Pb.{Call, TransactionTrace, Block, BalanceChange, CodeChange}
use evm_firehose_tracer_go.Ordinal
use evm_firehose_tracer_go.Config.{ChainConfig}
use evm_firehose_tracer_go.Types.{FlashBlockData}
use evm_firehose_tracer_go.Tracer.State.{
  Tracer, FlashBlockSnapshot, ok, Result-cases, modify_block, reset_transaction,
}
use evm_firehose_tracer_go.Tracer.Blocks.{
  rules_of, start_flash, BlockEvent, on_block_start, on_block_end, flush_block, emit, reset_block,
  release_block, block_output, reorder_isolated_transactions_and_ordinals, handle_flash_block_start,
  check_snapshot, is_flash_block, add_block_lists, new_block, slice_to, snapshot_block,
  restore_flash_block_snapshot, snapshot_flash_block_for_next_iteration,
}

-- A block that has grown at the end of its lists.
pub record Grown (b c : Block) : Type 0 where
  pub traces : List TransactionTrace
  pub system_calls : List Call
  pub balance_changes : List BalanceChange
  pub code_changes : List CodeChange
  pub traces_eq : c.transaction_traces ≡ b.transaction_traces ++ traces
  pub system_calls_eq : c.system_calls ≡ b.system_calls ++ system_calls
  pub balance_changes_eq : c.balance_changes ≡ b.balance_changes ++ balance_changes
  pub code_changes_eq : c.code_changes ≡ b.code_changes ++ code_changes

take_prefix {ℓ} : {A : Type ℓ} (xs ys : List A) → take (length xs) (xs ++ ys) ≡ xs
take_prefix [] ys = refl
take_prefix (x ∷ xs) ys = ap (λ zs. x ∷ zs) (take_prefix xs ys)

slice_to_prefix {ℓ} :
    {A : Type ℓ} (xs ys zs : List A) → zs ≡ xs ++ ys → slice_to (length xs) zs ≡ ok xs
unfolding slice_to
slice_to_prefix xs ys zs e = rw e (ground (arith, take_prefix xs ys, length-append xs ys))

-- A snapshot taken in one iteration, whose block then grew and was let go of, and restored into an
-- empty block of the next iteration: that block has the traces, system calls, balance changes and
-- code changes of the moment of the snapshot, and the ordinals go on from that moment.
restore-snapshot :
    (t s u : Tracer) (b c fresh : Block) (snap : FlashBlockSnapshot) (idx : ℕ)
    → t.block ≡ some b
    → t.flash_block_index ≡ some idx
    → snapshot_flash_block_for_next_iteration t ≡ ok s
    → s.snapshot_for_next_flash_block ≡ some snap
    → Grown b c
    → fresh.transaction_traces ≡ []
    → fresh.system_calls ≡ []
    → fresh.balance_changes ≡ []
    → fresh.code_changes ≡ []
    → u.block ≡ some fresh
    → u.snapshot_for_next_flash_block ≡ some (record snap { block = some c })
    → restore_flash_block_snapshot u
      ≡ ok (record u {
        block = some (record fresh {
          transaction_traces = b.transaction_traces;
          system_calls = b.system_calls;
          balance_changes = b.balance_changes;
          code_changes = b.code_changes;
        });
        block_ordinal = record { value = t.block_ordinal.value };
      })
unfolding restore_flash_block_snapshot snapshot_flash_block_for_next_iteration snapshot_block
    modify_block Ordinal.restore Ordinal.peek
restore-snapshot t s u b c fresh snap idx present iterating e taken g f1 f2 f3 f4 now held =
    ground (
      arith,
      slice_to_prefix b.transaction_traces g.traces c.transaction_traces g.traces_eq,
      slice_to_prefix b.system_calls g.system_calls c.system_calls g.system_calls_eq,
      slice_to_prefix b.balance_changes g.balance_changes c.balance_changes g.balance_changes_eq,
      slice_to_prefix b.code_changes g.code_changes c.code_changes g.code_changes_eq,
    )

ended_snapshot :
    (e w : Tracer) (c : Block) (snap : FlashBlockSnapshot)
    → e.config.before_block_flush ≡ none
    → e.block ≡ some c
    → snap.block ≡ none
    → e.snapshot_for_next_flash_block ≡ some snap
    → on_block_end none e ≡ ok w
    → w.snapshot_for_next_flash_block ≡ some (record snap { block = some c })
unfolding on_block_end flush_block emit reset_block release_block snapshot_block reset_transaction
    reorder_isolated_transactions_and_ordinals block_output
ended_snapshot e w c snap plain present own held ended = ground arith

module _ (event : BlockEvent) (fb : FlashBlockData) (w : Tracer) (c : Block)
    (snap : FlashBlockSnapshot) (config : ChainConfig) where
  -- The tracer of the next iteration when it restores the snapshot.
  abbrev begun : Tracer
  begun = record w {
    flash_block_index = some fb.idx;
    flash_block_is_final = fb.is_final;
    block_rules = rules_of event.rules config event.block;
    block = some (new_block event.block);
  }

  flash_started :
      w.snapshot_for_next_flash_block ≡ some snap
      → snap.block ≡ some c
      → c.number ≡ event.block.number
      → (u : Tracer) → start_flash (some fb) event.block.number w ≡ ok u
      → u ≡ record w { flash_block_index = some fb.idx; flash_block_is_final = fb.is_final }
  unfolding handle_flash_block_start check_snapshot snapshot_block
  flash_started held owned same_number u e = ground arith

  kept_snapshot :
      (x : Tracer)
      → x.snapshot_for_next_flash_block ≡ some snap
      → snap.block ≡ some c
      → release_block x ≡ x
  unfolding release_block snapshot_block
  kept_snapshot x held owned = ground arith

  started_block :
      (u x : Tracer) (d : Block)
      → w.chain_config ≡ some config
      → event.flash_block ≡ some fb
      → w.snapshot_for_next_flash_block ≡ some snap
      → snap.block ≡ some c
      → c.number ≡ event.block.number
      → restore_flash_block_snapshot begun ≡ ok x
      → x.block ≡ some d
      → on_block_start event w ≡ ok u
      → (u.block ≡ some (add_block_lists event.block d)) × (u.block_ordinal ≡ x.block_ordinal)
  unfolding on_block_start is_flash_block modify_block
  started_block u x d configured flash held owned same_number restored block e =
      elim (Result-cases (start_flash (some fb) event.block.number w)) [
        | inr (p, failed) ↦ absurd (ground arith)
        | inl (v, started) ↦
            let same = flash_started held owned same_number v started in
            let kept = kept_snapshot v (ground arith) owned in ground arith
      ]

fresh_lists :
    (event : BlockEvent)
    → ((new_block event.block).transaction_traces ≡ [])
      × ((new_block event.block).system_calls ≡ [])
      × ((new_block event.block).balance_changes ≡ [])
      × ((new_block event.block).code_changes ≡ [])
unfolding new_block
fresh_lists event = (refl, refl, refl, refl)

snapshot_gives :
    (t s : Tracer) (b : Block) (idx : ℕ)
    → t.block ≡ some b
    → t.flash_block_index ≡ some idx
    → snapshot_flash_block_for_next_iteration t ≡ ok s
    → (snap : FlashBlockSnapshot) × (s.snapshot_for_next_flash_block ≡ some snap)
      × (snap.block ≡ none)
unfolding snapshot_flash_block_for_next_iteration Ordinal.peek
snapshot_gives t s b idx present iterating e =
    let snap : FlashBlockSnapshot = record {
      block = none;
      tx_traces_len = length b.transaction_traces;
      system_calls_len = length b.system_calls;
      balance_changes_len = length b.balance_changes;
      code_changes_len = length b.code_changes;
      ordinal = t.block_ordinal.value;
      flash_index = idx;
    } in
    (snap, ground arith, refl)

-- The block keeps what it had been given when the snapshot was taken.
abbrev pub with_lists_of : Block → Block → Block
with_lists_of b fresh = record fresh {
  transaction_traces = b.transaction_traces;
  system_calls = b.system_calls;
  balance_changes = b.balance_changes;
  code_changes = b.code_changes;
}

-- An iteration of a flash block takes a snapshot of its block b; the block grows to c at the end of
-- its lists and ends without an error (no flush hook rewrites it). When the next iteration, with
-- the same block number, starts without a panic, its block has the traces, system calls, balance
-- changes and code changes of b, and the ordinals go on from where they were at the snapshot.
pub flash_iteration :
    (t s e w u : Tracer) (b c : Block) (idx : ℕ) (event : BlockEvent) (fb : FlashBlockData)
    (config : ChainConfig)
    → t.block ≡ some b
    → t.flash_block_index ≡ some idx
    → snapshot_flash_block_for_next_iteration t ≡ ok s
    → e.snapshot_for_next_flash_block ≡ s.snapshot_for_next_flash_block
    → e.block ≡ some c
    → Grown b c
    → e.config.before_block_flush ≡ none
    → on_block_end none e ≡ ok w
    → w.chain_config ≡ some config
    → event.flash_block ≡ some fb
    → c.number ≡ event.block.number
    → on_block_start event w ≡ ok u
    → (u.block ≡ some (add_block_lists event.block (with_lists_of b (new_block event.block))))
      × (u.block_ordinal.value ≡ t.block_ordinal.value)
flash_iteration t s e w u b c idx event fb config present iterating taken same grown_at g plain
      ended configured flash number started =
    let (snap, held, own) = snapshot_gives t s b idx present iterating taken in
    let kept = ended_snapshot e w c snap plain grown_at own (same ∙ held) ended in
    let owned : FlashBlockSnapshot = record snap { block = some c } in
    let restored =
      restore-snapshot t s (begun event fb w c owned config) b c (new_block event.block) snap idx
        present iterating taken held g (fresh_lists event).0 (fresh_lists event).1
        (fresh_lists event).2 (fresh_lists event).3 refl kept in
    let (block, ordinal) =
      started_block event fb w c owned config u
        (record (begun event fb w c owned config) {
          block = some (with_lists_of b (new_block event.block));
          block_ordinal = record { value = t.block_ordinal.value };
        })
        (with_lists_of b (new_block event.block)) configured flash kept refl number restored refl
        started in
    (block, ap (λ o. o.value) ordinal)
