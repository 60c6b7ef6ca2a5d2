-- ===== src/Tracer/Blocks.antt =====
-- tracer.go: blocks, and the flash block iterations that build one block in steps.
use evm_firehose_tracer_go.Prelude.{
  ℕ, Bool, true, false, not, List, [], ◌∷◌, ◌++◌, Option, none, some, map, length, take, is_some,
  leb, ◌==◌, if◌then◌else◌,
}
use evm_firehose_tracer_go.Prelude.Int.{ℤ, pos}
use evm_firehose_tracer_go.Pb.{Block, Withdrawal}
use evm_firehose_tracer_go.Types.{BlockData, FlashBlockData, FinalizedBlockRef, WithdrawalData}
use evm_firehose_tracer_go.Types.GoError.{GoError}
use evm_firehose_tracer_go.Config.{ChainConfig, Rules, rules, zero_rules}
use evm_firehose_tracer_go.Ordinal
use evm_firehose_tracer_go.Finality
use evm_firehose_tracer_go.Finality.{set_last_finalized_block}
use evm_firehose_tracer_go.Printer.{compute_lib_num, compute_printed_flash_block_index}
use evm_firehose_tracer_go.Tracer.State.{
  Tracer, Result, ok, ◌>>=◌, ◌>>◌, guard, require, FlashBlockSnapshot, BlockOutput, fire_block,
  nil_pointer, index_out_of_range, write_failed, send_on_closed_channel,
  flash_block_index_not_advancing, skipped_block_in_transaction, modify_block, reset_transaction,
  ensure_block_chain_init, ensure_in_block, ensure_in_block_and_not_in_trx,
}
use evm_firehose_tracer_go.Tracer.Headers.{
  new_block_header_from_block_data, new_block_header_from_uncle_data,
}

pub record BlockEvent : Type 0 where
  pub block : BlockData
  pub finalized : Option FinalizedBlockRef
  pub flash_block : Option FlashBlockData
  pub rules : Option Rules

unfoldable pub is_flash_block : Tracer → Bool
is_flash_block t = is_some t.flash_block_index

unfoldable pub get_flash_block_index : Tracer → ℕ
get_flash_block_index t = elim t.flash_block_index [ none ↦ 0 | some idx ↦ idx ]

unfoldable pub has_flash_block_snapshot : Tracer → Bool
has_flash_block_snapshot t = is_some t.snapshot_for_next_flash_block

-- The block that a snapshot's pointer leads to.
unfoldable pub snapshot_block : Tracer → FlashBlockSnapshot → Option Block
snapshot_block t snap = elim snap.block [ none ↦ t.block | some b ↦ some b ]

-- Before the tracer lets go of its block: a snapshot of it now owns what it points to.
unfoldable pub release_block : Tracer → Tracer
unfolding snapshot_block
release_block t = elim t.snapshot_for_next_flash_block [
  | none ↦ t
  | some snap ↦ record t {
    snapshot_for_next_flash_block = some (record snap { block = snapshot_block t snap });
  }
]

unfoldable pub reset_block : Tracer → Tracer
unfolding release_block Ordinal.reset Finality.reset
reset_block t = record (release_block t) {
  block = none;
  block_base_fee = none;
  block_ordinal = Ordinal.reset;
  block_finality = Finality.reset;
  block_rules = zero_rules;
  block_reorder_ordinal = false;
  block_is_genesis = false;
  interrupted_transaction = none;
  flash_block_index = none;
  flash_block_is_final = false;
}

-- The index must advance within a block number; a snapshot of another number is dropped.
unfoldable pub check_snapshot : FlashBlockData → ℕ → Tracer → Result Tracer
unfolding snapshot_block
check_snapshot fb block_number t = elim t.snapshot_for_next_flash_block [
  | none ↦ ok t
  | some snap ↦ do
    b ← require (snapshot_block t snap) nil_pointer
    if b.number == block_number
        then (guard (not (leb fb.idx snap.flash_index)) flash_block_index_not_advancing >> ok t)
        else ok (record t { snapshot_for_next_flash_block = none })
]

unfoldable pub handle_flash_block_start : FlashBlockData → ℕ → Tracer → Result Tracer
unfolding check_snapshot
handle_flash_block_start fb block_number t = do
  u ← check_snapshot fb block_number t
  ok (record u { flash_block_index = some fb.idx; flash_block_is_final = fb.is_final })

-- `xs[:n]`, where the snapshot was of at least `n` elements. (A flush hook that shrinks a slice
-- is outside the model: Go then reads up to the capacity.)
unfoldable pub slice_to {ℓ} : {A : Type ℓ} → ℕ → List A → Result (List A)
slice_to n xs = do guard (leb n (length xs)) index_out_of_range; ok (take n xs)

unfoldable pub restore_flash_block_snapshot : Tracer → Result Tracer
unfolding slice_to snapshot_block Ordinal.restore
restore_flash_block_snapshot t = elim t.snapshot_for_next_flash_block [
  | none ↦ ok t
  | some snap ↦ do
    prev ← require (snapshot_block t snap) nil_pointer
    traces ← slice_to snap.tx_traces_len prev.transaction_traces
    system_calls ← slice_to snap.system_calls_len prev.system_calls
    balance_changes ← slice_to snap.balance_changes_len prev.balance_changes
    code_changes ← slice_to snap.code_changes_len prev.code_changes
    u ←
        modify_block
          (λ b. record b {
            transaction_traces = b.transaction_traces ++ traces;
            system_calls = b.system_calls ++ system_calls;
            balance_changes = b.balance_changes ++ balance_changes;
            code_changes = b.code_changes ++ code_changes;
          })
          t
    ok (record u { block_ordinal = Ordinal.restore snap.ordinal })
]

unfoldable pub snapshot_flash_block_for_next_iteration : Tracer → Result Tracer
unfolding Ordinal.peek
snapshot_flash_block_for_next_iteration t = elim t.flash_block_index [
  | none ↦ ok t
  | some idx ↦ do
    b ← require t.block nil_pointer
    let snap : FlashBlockSnapshot = record {
      block = none;
      tx_traces_len = length b.transaction_traces;
      system_calls_len = length b.system_calls;
      balance_changes_len = length b.balance_changes;
      code_changes_len = length b.code_changes;
      ordinal = Ordinal.peek t.block_ordinal;
      flash_index = idx;
    }
    ok (record t { snapshot_for_next_flash_block = some snap })
]

unfoldable pub new_block : BlockData → Block
unfolding new_block_header_from_block_data
new_block block = record {
  hash = block.hash;
  number = block.number;
  size = block.size;
  header = new_block_header_from_block_data block;
  uncles = [];
  transaction_traces = [];
  balance_changes = [];
  detail_level = 0;
  code_changes = [];
  system_calls = [];
  withdrawals = [];
  ver = 5;
}

unfoldable pub withdrawal_to_proto : WithdrawalData → Withdrawal
withdrawal_to_proto w = record {
  index = w.index;
  validator_index = w.validator_index;
  address = w.address;
  amount = w.amount;
}

-- Uncles and withdrawals join the block after the snapshot was restored.
unfoldable pub add_block_lists : BlockData → Block → Block
unfolding withdrawal_to_proto new_block_header_from_uncle_data
add_block_lists block b = record b {
  uncles = b.uncles ++ map new_block_header_from_uncle_data block.uncles;
  withdrawals = map withdrawal_to_proto block.withdrawals;
}

abbrev pub start_flash : Option FlashBlockData → ℕ → Tracer → Result Tracer
start_flash none number t = ok t
start_flash (some fb) number t = handle_flash_block_start fb number t

abbrev pub rules_of : Option Rules → ChainConfig → BlockData → Rules
rules_of none config block = rules config (some (pos block.number)) block.is_merge block.time
rules_of (some given) config block = given

abbrev some_or : Option ℤ → Option ℤ → Option ℤ
some_or none old = old
some_or (some new) old = some new

abbrev finality_of : Option FinalizedBlockRef → Tracer → Tracer
finality_of none t = t
finality_of (some ref) t = record t { block_finality = set_last_finalized_block ref.number }

unfoldable pub on_block_start : BlockEvent → Tracer → Result Tracer
unfolding ensure_block_chain_init
on_block_start event t = do
  ensure_block_chain_init t
  config ← require t.chain_config nil_pointer
  u ← start_flash event.flash_block event.block.number t
  let v = record (release_block u) {
    block_rules = rules_of event.rules config event.block;
    block = some (new_block event.block);
  }
  w ← if is_flash_block v then restore_flash_block_snapshot v else ok v
  x ← modify_block (add_block_lists event.block) w
  ok (
      finality_of event.finalized
        (record x { block_base_fee = some_or event.block.base_fee x.block_base_fee }))

-- The function body is a TODO.
unfoldable pub reorder_isolated_transactions_and_ordinals : Tracer → Tracer
reorder_isolated_transactions_and_ordinals t = t

abbrev pub flush_hook : Tracer → Result Tracer
flush_hook t = elim t.config.before_block_flush [ none ↦ ok t | some hook ↦ modify_block hook t ]

-- A block that cannot be marshalled, or not be written whole, panics.
unfoldable pub write_output : BlockOutput → Tracer → Result Tracer
write_output out t = do
  guard
      (t.output_writer (length t.written)
        (some (out.block, out.lib_num, out.printed_flash_block_index)))
      write_failed
  ok (record t { written = t.written ++ fire_block out ∷ [] })

-- The block goes to the queue, if there is one, or is written at once.
unfoldable pub emit : BlockOutput → Tracer → Result Tracer
unfolding write_output
emit out t = elim t.concurrent_flush_queue [
  | some jobs ↦ do
    guard (not t.flush_queue_closed) send_on_closed_channel
    ok (record t { concurrent_flush_queue = some (jobs ++ out ∷ []) })
  | none ↦ write_output out t
]

unfoldable pub block_output : Tracer → Block → BlockOutput
unfolding compute_lib_num compute_printed_flash_block_index
block_output t b = record {
  block = b;
  lib_num = compute_lib_num b.number t.block_finality;
  printed_flash_block_index =
      compute_printed_flash_block_index t.flash_block_index t.flash_block_is_final;
}

unfoldable pub flush_block : Tracer → Result Tracer
unfolding ensure_in_block_and_not_in_trx
flush_block t = do
  u ← flush_hook t
  let v = if u.block_reorder_ordinal then reorder_isolated_transactions_and_ordinals u else u
  ensure_in_block_and_not_in_trx v
  b ← require v.block nil_pointer
  emit (block_output v b) v

-- A failed block also gives up its snapshot.
unfoldable pub abandon_block : Tracer → Result Tracer
unfolding ensure_in_block is_flash_block
abandon_block t = do
  ensure_in_block t
  ok (if is_flash_block t then record t { snapshot_for_next_flash_block = none } else t)

unfoldable pub on_block_end : Option GoError → Tracer → Result Tracer
on_block_end err t = do
  u ← elim err [ none ↦ flush_block t | some _ ↦ abandon_block t ]
  ok (reset_transaction (reset_block u))

unfoldable pub on_skipped_block : BlockEvent → Tracer → Result Tracer
on_skipped_block event t = do
  guard (not (is_some t.transaction)) skipped_block_in_transaction
  u ← on_block_start event t
  on_block_end none u

unfoldable pub write_outputs : List BlockOutput → Tracer → Result Tracer
write_outputs [] t = ok t
write_outputs (out ∷ outs) t = do u ← write_output out t; write_outputs outs u

-- Closing waits until the worker has written every block that the queue holds, and is done once.
unfoldable pub on_close : Tracer → Result Tracer
unfolding write_outputs
on_close t = elim t.concurrent_flush_queue [
  | none ↦ ok t
  | some jobs ↦ do
    u ← write_outputs jobs t
    ok (record u { concurrent_flush_queue = some []; flush_queue_closed = true })
]
