-- ===== src/Protocol/Output.antt =====
-- The end of a block writes it or hands it to the flush queue.
use evm_firehose_tracer_go.Prelude.{
  ℕ, length, true, false, ◌≡◌, refl, ◌∙◌, [], ◌∷◌, ◌++◌, Bool-cases, Option, none, some, arith, inl,
  inr, Option-cases,
}
use evm_firehose_tracer_go.Pb.{Block}
use evm_firehose_tracer_go.Tracer.State.{
  Tracer, ok, Result-cases, BlockOutput, fire_block, reset_transaction,
  ensure_in_block_and_not_in_trx, modify_block,
}
use evm_firehose_tracer_go.Tracer.Blocks.{
  flush_block, flush_hook, emit, write_output, block_output,
  reorder_isolated_transactions_and_ordinals, reset_block, release_block,
}
use evm_firehose_tracer_go.Protocol.Transactions.{IsReady}

-- The stream takes every line whole, and the flush queue, if there is one, is not closed.
pub record IsWritable (t : Tracer) : Type 0 where
  pub accepts : (n : ℕ) (line : Option (Block × ℕ × ℕ)) → t.output_writer n line ≡ true
  pub live : t.flush_queue_closed ≡ false

-- What the output and the configuration of the chain are.
pub record SameOutput (t u : Tracer) : Type 0 where
  pub chain : u.chain_config ≡ t.chain_config
  pub writer : u.output_writer ≡ t.output_writer
  pub closed : u.flush_queue_closed ≡ t.flush_queue_closed

pub SameOutput-IsWritable : (t u : Tracer) → SameOutput t u → IsWritable t → IsWritable u
SameOutput-IsWritable t u same h = record {
  accepts = λ n line. rw same.writer (h.accepts n line);
  live = same.closed ∙ h.live;
}

pub SameOutput-trans : (t u v : Tracer) → SameOutput t u → SameOutput u v → SameOutput t v
SameOutput-trans t u v first second = record {
  chain = second.chain ∙ first.chain;
  writer = second.writer ∙ first.writer;
  closed = second.closed ∙ first.closed;
}

flush_hook-IsReady :
    (t : Tracer)
    → IsReady t
    → t.snapshot_for_next_flash_block ≡ none
    → (u : Tracer) × (flush_hook t ≡ ok u)
      × IsReady u
      × (u.snapshot_for_next_flash_block ≡ none)
      × SameOutput t u
unfolding modify_block
flush_hook-IsReady t h unsnapped = elim (Result-cases (flush_hook t)) [
  | inl (u, e) ↦ elim (Option-cases t.config.before_block_flush) [
    | inl plain ↦ (u, e, ground (arith, h), ground arith, ground arith)
    | inr (hook, set) ↦ (u, e, ground (arith, h), ground arith, ground arith)
  ]
  | inr (p, failed) ↦ elim (Option-cases t.config.before_block_flush) [
    | inl plain ↦ absurd (ground (arith, h))
    | inr (hook, set) ↦ absurd (ground (arith, h))
  ]
]

-- Wherever the block goes.
emit-IsReady :
    (out : BlockOutput) (t : Tracer)
    → IsReady t
    → IsWritable t
    → t.snapshot_for_next_flash_block ≡ none
    → (u : Tracer) × (emit out t ≡ ok u)
      × IsReady u
      × (u.snapshot_for_next_flash_block ≡ none)
      × SameOutput t u
unfolding emit write_output
emit-IsReady out t h writable unsnapped = elim (Option-cases t.concurrent_flush_queue) [
  | inl synchronous ↦ (
    record t { written = t.written ++ fire_block out ∷ [] },
    ground (
      arith,
      writable.accepts (length t.written)
          (some (out.block, out.lib_num, out.printed_flash_block_index)),
    ),
    ground (arith, h),
    unsnapped,
    record { chain = refl; writer = refl; closed = refl },
  )
  | inr (jobs, queued) ↦ (
    record t { concurrent_flush_queue = some (jobs ++ out ∷ []) },
    ground (arith, writable.live),
    ground (arith, h),
    unsnapped,
    record { chain = refl; writer = refl; closed = refl },
  )
]

flushed :
    (t u : Tracer) (b : Block)
    → flush_hook t ≡ ok u
    → IsReady u
    → u.block ≡ some b
    → flush_block t ≡ emit (block_output u b) u
unfolding flush_block reorder_isolated_transactions_and_ordinals ensure_in_block_and_not_in_trx
flushed t u b hooked h present = elim (Bool-cases u.block_reorder_ordinal) [
  | inl reorders ↦ ground (arith, h)
  | inr plain ↦ ground (arith, h)
]

pub flush_block-IsReady :
    (t : Tracer)
    → IsReady t
    → IsWritable t
    → t.snapshot_for_next_flash_block ≡ none
    → (u : Tracer) × (flush_block t ≡ ok u)
      × IsReady u
      × (u.snapshot_for_next_flash_block ≡ none)
      × SameOutput t u
flush_block-IsReady t h writable unsnapped =
    let (u, hooked, ready, none_taken, same) = flush_hook-IsReady t h unsnapped in
    elim (Option-cases u.block) [
      | inl absent ↦ absurd (ground (arith, ready))
      | inr (b, present) ↦
          let (v, sent, kept, still_none, same_sent) =
            emit-IsReady (block_output u b) u ready (SameOutput-IsWritable t u same writable)
              none_taken in
          (
            v,
            flushed t u b hooked ready present ∙ sent,
            kept,
            still_none,
            SameOutput-trans t u v same same_sent,
          )
    ]

pub reset-SameOutput : (t : Tracer) → SameOutput t (reset_transaction (reset_block t))
unfolding reset_block release_block reset_transaction
reset-SameOutput t = ground arith
