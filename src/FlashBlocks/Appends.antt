-- ===== src/FlashBlocks/Appends.antt =====
-- tracer.go: between the start and the end of a block the hooks only append to the block's lists,
-- and they leave the snapshot, the configuration and the output alone.
use evm_firehose_tracer_go.Prelude.{
  not, ◌&&◌, ◌||◌, All, All-append, ◌≡◌, sym, ap, ◌∙◌, List, [], ◌∷◌, Option, is_some, arith, inl,
  inr, Bool-cases, Option-cases,
}
use evm_firehose_tracer_go.Prelude.Int.{ℤ}
use evm_firehose_tracer_go.Prelude.Bytes.{Bytes, bytes_eq}
use evm_firehose_tracer_go.Pb.{TransactionTrace, BalanceChange, BalanceChangeReason}
use evm_firehose_tracer_go.Types.{ReceiptData}
use evm_firehose_tracer_go.Types.BigInt.{big_int_equal, big_int_to_protobuf}
use evm_firehose_tracer_go.External.{External}
use evm_firehose_tracer_go.Keccak.{attach_storage_slot_preimages}
use evm_firehose_tracer_go.Tracer.State.{
  Tracer, ok, Result-cases, tick, reset_transaction, modify_block,
}
use evm_firehose_tracer_go.Tracer.Changes.{
  is_unknown, on_balance_change, on_code_change, attach_code_change, new_code_change,
}
use evm_firehose_tracer_go.Tracer.Completion.{
  complete_transaction, store_trace, drop_transaction, end_transaction, on_tx_end,
}
use evm_firehose_tracer_go.Tracer.SystemCalls.{on_system_call_end}
use evm_firehose_tracer_go.Hooks.{
  Hook, tx_start, tx_end, call_enter, call_exit, balance_change, nonce_change, code_change,
  storage_change, log, opcode, opcode_fault, keccak_preimage, system_call_start, system_call_end,
  step, run,
}
use evm_firehose_tracer_go.FlashBlocks.Added.{
  Added, nothing, extend, both, extend-nothing, extend-traces, extend-system_calls,
  extend-balance_changes, extend-code_changes, extend-both,
}
use evm_firehose_tracer_go.Ordinals.Receipts.{Repeats, complete_transaction-Repeats}
use evm_firehose_tracer_go.FlashBlocks.Kept.{
  Same, complete_transaction-Same, on_call_enter-Same, on_call_exit-Same, on_keccak_preimage-Same,
  on_log-Same, on_nonce_change-Same, on_opcode-Same, on_opcode_fault-Same, on_storage_change-Same,
  on_system_call_start-Same, on_tx_start-Same,
}

-- The block, the snapshot, the configuration and the output after a hook. In the traces that the
-- block gained, receipts repeat ordinals of the calls' logs.
pub record Appends (added : Added) (t u : Tracer) : Type 0 where
  pub block : u.block ≡ extend t.block added
  pub receipts : All Repeats added.traces
  pub snapshot : u.snapshot_for_next_flash_block ≡ t.snapshot_for_next_flash_block
  pub config : u.config ≡ t.config
  pub chain : u.chain_config ≡ t.chain_config
  pub writer : u.output_writer ≡ t.output_writer
  pub closed : u.flush_queue_closed ≡ t.flush_queue_closed

Same-Appends : (t u : Tracer) → Same t u → Appends nothing t u
Same-Appends t u h = record {
  block = h.block ∙ sym (extend-nothing t.block);
  receipts = tt;
  snapshot = h.snapshot;
  config = h.config;
  chain = h.chain;
  writer = h.writer;
  closed = h.closed;
}

-- A hook that may write to the block appends something.
abbrev AppendsSome : Tracer → Tracer → Type 0
AppendsSome t u = (added : Added) × Appends added t u

Same-AppendsSome : (t u : Tracer) → Same t u → AppendsSome t u
Same-AppendsSome t u h = (nothing, Same-Appends t u h)

on_balance_change-AppendsSome :
    (addr : Bytes) (old new : Option ℤ) (reason : BalanceChangeReason) (t u : Tracer)
    → on_balance_change addr old new reason t ≡ ok u
    → AppendsSome t u
unfolding on_balance_change modify_block
on_balance_change-AppendsSome addr old new reason t u e = elim (Option-cases t.transaction) [
  | inr (trx, present) ↦ Same-AppendsSome t u (ground arith)
  | inl absent ↦ elim (Bool-cases (is_unknown reason || big_int_equal old new)) [
    | inl ignored ↦ Same-AppendsSome t u (ground arith)
    | inr changed ↦ elim (Option-cases t.block) [
      | inl no_block ↦ absurd (ground arith)
      | inr (b, held) ↦
          let change : BalanceChange = record {
            address = addr;
            old_value = big_int_to_protobuf old;
            new_value = big_int_to_protobuf new;
            reason = reason;
            ordinal = (tick t).block_ordinal.value;
          } in
          (
            record nothing { balance_changes = change ∷ [] },
            ground (arith, extend-balance_changes b (change ∷ [])),
          )
    ]
  ]
]

on_code_change-AppendsSome :
    (addr prev_hash new_hash old new : Bytes) (t u : Tracer)
    → on_code_change addr prev_hash new_hash old new t ≡ ok u
    → AppendsSome t u
unfolding on_code_change attach_code_change modify_block
on_code_change-AppendsSome addr prev_hash new_hash old new t u e =
    elim (Option-cases t.transaction) [
      | inr (trx, present) ↦ Same-AppendsSome t u (ground arith)
      | inl absent ↦ elim (Bool-cases (bytes_eq prev_hash new_hash)) [
        | inl ignored ↦ Same-AppendsSome t u (ground arith)
        | inr changed ↦ elim (Option-cases t.block) [
          | inl no_block ↦ absurd (ground arith)
          | inr (b, held) ↦
              let change = new_code_change addr prev_hash old new_hash new t in
              (
                record nothing { code_changes = change ∷ [] },
                ground (arith, extend-code_changes b (change ∷ [])),
              )
        ]
      ]
    ]

store_trace-AppendsSome :
    (trace : TransactionTrace) (t u : Tracer)
    → Repeats trace
    → store_trace trace t ≡ ok u
    → AppendsSome t u
unfolding store_trace modify_block reset_transaction
store_trace-AppendsSome trace t u repeats e = elim (Bool-cases t.transaction_isolated) [
  | inl isolated ↦ Same-AppendsSome t u (ground arith)
  | inr direct ↦ elim (Option-cases t.block) [
    | inl no_block ↦ absurd (ground arith)
    | inr (b, held) ↦ (
      record nothing { traces = trace ∷ [] },
      record {
        block = ground (arith, extend-traces b (trace ∷ []));
        receipts = (repeats, tt);
        snapshot = ground arith;
        config = ground arith;
        chain = ground arith;
        writer = ground arith;
        closed = ground arith;
      },
    )
  ]
]

end_transaction-AppendsSome :
    (receipt : Option ReceiptData) (t u : Tracer)
    → end_transaction receipt t ≡ ok u
    → AppendsSome t u
unfolding end_transaction
end_transaction-AppendsSome receipt t u e = elim (Option-cases t.transaction) [
  | inl absent ↦ absurd (ground arith)
  | inr (trx, present) ↦ elim (Result-cases (complete_transaction receipt trx t)) [
    | inr (p, failed) ↦ absurd (ground arith)
    | inl (r, completed) ↦
        let (added, h) =
          store_trace-AppendsSome r.0 r.1 u
            (complete_transaction-Repeats receipt trx r.0 t r.1 completed) (ground arith) in
        let same = complete_transaction-Same t r.1 receipt trx r.0 completed in
        (
          added,
          record {
            block = h.block ∙ ap (λ o. extend o added) same.block;
            receipts = h.receipts;
            snapshot = h.snapshot ∙ same.snapshot;
            config = h.config ∙ same.config;
            chain = h.chain ∙ same.chain;
            writer = h.writer ∙ same.writer;
            closed = h.closed ∙ same.closed;
          },
        )
  ]
]

on_tx_end-AppendsSome :
    (receipt : Option ReceiptData) (t u : Tracer) → on_tx_end receipt t ≡ ok u → AppendsSome t u
unfolding on_tx_end drop_transaction reset_transaction
on_tx_end-AppendsSome receipt t u e =
    elim (Bool-cases (not (is_some receipt) && t.config.drop_transactions_without_receipt)) [
      | inl dropped ↦ Same-AppendsSome t u (ground arith)
      | inr kept ↦ end_transaction-AppendsSome receipt t u (ground arith)
    ]

on_system_call_end-AppendsSome : (t u : Tracer) → on_system_call_end t ≡ ok u → AppendsSome t u
unfolding on_system_call_end modify_block reset_transaction
on_system_call_end-AppendsSome t u e = elim (Option-cases t.transaction) [
  | inl absent ↦ absurd (ground arith)
  | inr (trx, present) ↦ elim (Option-cases t.block) [
    | inl no_block ↦ absurd (ground arith)
    | inr (b, held) ↦
        let calls = attach_storage_slot_preimages trx.calls t.transaction_keccak_preimages in
        (record nothing { system_calls = calls }, ground (arith, extend-system_calls b calls))
  ]
]

module _ (ext : External) where
  step-AppendsSome : (h : Hook) (t u : Tracer) → step ext h t ≡ ok u → AppendsSome t u
  unfolding step
  step-AppendsSome (tx_start event reader) t u e =
      Same-AppendsSome t u (on_tx_start-Same t u ext event reader e)
  step-AppendsSome (tx_end receipt) t u e = on_tx_end-AppendsSome receipt t u e
  step-AppendsSome (call_enter depth typ from to input gas value) t u e =
      Same-AppendsSome t u (on_call_enter-Same depth typ from to input gas value t u e)
  step-AppendsSome (call_exit output gas_used err reverted) t u e =
      Same-AppendsSome t u (on_call_exit-Same t u output gas_used err reverted e)
  step-AppendsSome (balance_change addr old new reason) t u e =
      on_balance_change-AppendsSome addr old new reason t u e
  step-AppendsSome (nonce_change addr old new) t u e =
      Same-AppendsSome t u (on_nonce_change-Same t u addr old new e)
  step-AppendsSome (code_change addr prev_hash new_hash old new) t u e =
      on_code_change-AppendsSome addr prev_hash new_hash old new t u e
  step-AppendsSome (storage_change addr slot old new) t u e =
      Same-AppendsSome t u (on_storage_change-Same t u addr slot old new e)
  step-AppendsSome (log addr topics payload block_index) t u e =
      Same-AppendsSome t u (on_log-Same t u addr topics payload block_index e)
  step-AppendsSome (opcode op err) t u e =
      Same-AppendsSome t u (ground (arith, on_opcode-Same op err t))
  step-AppendsSome opcode_fault t u e =
      Same-AppendsSome t u (ground (arith, on_opcode_fault-Same t))
  step-AppendsSome (keccak_preimage hash preimage) t u e =
      Same-AppendsSome t u (on_keccak_preimage-Same t u hash preimage e)
  step-AppendsSome system_call_start t u e = Same-AppendsSome t u (on_system_call_start-Same t u e)
  step-AppendsSome system_call_end t u e = on_system_call_end-AppendsSome t u e

  -- Any hooks that do not panic leave the block with what it had, and with something added at the
  -- end of its lists of traces, system calls, balance changes and code changes; in each trace that
  -- is added and has calls, a number is the ordinal of a log of the receipt at most as often as of a
  -- log of the calls; the snapshot for
  -- the next flash block iteration, the two configurations, the output stream and the state of the
  -- flush queue stay.
  pub run-Appends :
      (hooks : List Hook) (t u : Tracer)
      → run ext hooks t ≡ ok u
      → (added : Added) × Appends added t u
  unfolding run
  run-Appends [] t u e =
      let same : t ≡ u = ground arith in
      Same-AppendsSome t u (record {
        block = ap (λ x. x.block) (sym same);
        snapshot = ap (λ x. x.snapshot_for_next_flash_block) (sym same);
        config = ap (λ x. x.config) (sym same);
        chain = ap (λ x. x.chain_config) (sym same);
        writer = ap (λ x. x.output_writer) (sym same);
        closed = ap (λ x. x.flush_queue_closed) (sym same);
      })
  run-Appends (h ∷ hs) t u e = elim (Result-cases (step ext h t)) [
    | inr (p, failed) ↦ absurd (ground arith)
    | inl (v, stepped) ↦
        let (x, first) = step-AppendsSome h t v stepped in
        let (y, rest) = run-Appends hs v u (ground arith) in
        (
          both x y,
          record {
            block = rest.block ∙ ap (λ o. extend o y) first.block ∙ extend-both t.block x y;
            receipts = All-append Repeats x.traces y.traces first.receipts rest.receipts;
            snapshot = rest.snapshot ∙ first.snapshot;
            config = rest.config ∙ first.config;
            chain = rest.chain ∙ first.chain;
            writer = rest.writer ∙ first.writer;
            closed = rest.closed ∙ first.closed;
          },
        )
  ]
