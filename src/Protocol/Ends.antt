-- ===== src/Protocol/Ends.antt =====
-- The end of a transaction panics only where the receipt's logs are not those of its calls.
use evm_firehose_tracer_go.Prelude.{
  ◌≡◌, ◌⊎◌, refl, sym, ◌∙◌, ap, true, false, not, ◌&&◌, List, [], ◌∷◌, Option, some, is_some,
  is_empty, length, map, arith, inl, inr, List-cases, Bool-cases, ◌==◌,
}
use evm_firehose_tracer_go.Prelude.Sort.{sort_by, length-sort_by}
use evm_firehose_tracer_go.Pb.{Call, Log, TransactionTrace}
use evm_firehose_tracer_go.Types.{ReceiptData}
use evm_firehose_tracer_go.Config.{Config}
use evm_firehose_tracer_go.Deferred.{DeferredCallState}
use evm_firehose_tracer_go.Deferred.Laws.{populate_root}
use evm_firehose_tracer_go.Keccak.{attach_storage_slot_preimages}
use evm_firehose_tracer_go.Tracer.State.{
  Tracer, Result, ok, panic, Result-cases, ◌>>=◌, tick, modify_block, log_count_mismatch,
  block_index_mismatch, require, nil_pointer, ensure_in_block, ensure_in_block_and_in_trx,
}
use evm_firehose_tracer_go.Tracer.Completion.{
  call_index, assign_logs, assign_ordinal_and_index_to_receipt_logs, surviving_logs, log_ordinal,
  receipt_logs, with_logs, populate_on_end, finish_transaction, populate_receipt,
  discard_uncommitted_set_code_authorizations, final_status, remove_block_index, end_with_calls,
  complete_transaction, store_trace, drop_transaction, end_transaction, on_tx_end,
}
use evm_firehose_tracer_go.CallTree.{shape, shape_index, view, calls_of}
use evm_firehose_tracer_go.CallTree.Completion.{
  shape-sort_by, shape-populate_on_end, shape-attach_storage_slot_preimages,
}
use evm_firehose_tracer_go.CallTree.Numbering.{IsNumbered}
use evm_firehose_tracer_go.CallTree.Reverted.{numbered_marks}
use evm_firehose_tracer_go.Protocol.{IsTracing}

-- A result, or one of the two panics over the receipt's logs.
abbrev pub OnlyLogPanics {ℓ} : {A : Type ℓ} → Result A → Type ℓ
OnlyLogPanics {A = A} m =
    ((a : A) × (m ≡ ok a)) ⊎ (m ≡ panic log_count_mismatch) ⊎ (m ≡ panic block_index_mismatch)

pub bind-OnlyLogPanics {ℓ κ} :
    {A : Type ℓ} {B : Type κ} (m : Result A) (f : A → Result B)
    → OnlyLogPanics m
    → ((a : A) → m ≡ ok a → OnlyLogPanics (f a))
    → OnlyLogPanics (m >>= f)
bind-OnlyLogPanics (ok a) f h next = next a refl
bind-OnlyLogPanics (panic p) f h next = elim h [
  | inl (a, e) ↦ cc
  | inr (inl e) ↦ let same : p ≡ log_count_mismatch = ground arith in inr (inl (ap panic same))
  | inr (inr e) ↦ let same : p ≡ block_index_mismatch = ground arith in inr (inr (ap panic same))
]

assign_logs-cons :
    (c r : Log) (cs rs : List Log)
    → (c.block_index == r.block_index) ≡ true
    → assign_logs (c ∷ cs) (r ∷ rs) ≡ (
        assign_logs cs rs >>= λ rest. ok (record r { ordinal = c.ordinal; index = c.index } ∷ rest))
unfolding assign_logs
assign_logs-cons c r cs rs same = rw same refl

assign_logs-OnlyLogPanics :
    (cs rs : List Log) → length cs ≡ length rs → OnlyLogPanics (assign_logs cs rs)
unfolding assign_logs
assign_logs-OnlyLogPanics [] rs h = inl ([], refl)
assign_logs-OnlyLogPanics (c ∷ cs) [] h = absurd (omega arith)
assign_logs-OnlyLogPanics (c ∷ cs) (r ∷ rs) h = elim (Bool-cases (c.block_index == r.block_index)) [
  | inr differ ↦ inr (inr (ground arith))
  | inl same ↦ rw (assign_logs-cons c r cs rs same) (
      bind-OnlyLogPanics (assign_logs cs rs)
        (λ rest. ok (record r { ordinal = c.ordinal; index = c.index } ∷ rest))
        (assign_logs-OnlyLogPanics cs rs (omega arith)) (λ rest e. inl (_, refl)))
]

assign-OnlyLogPanics :
    (config : Config) (trx : TransactionTrace)
    → OnlyLogPanics (assign_ordinal_and_index_to_receipt_logs config trx)
unfolding assign_ordinal_and_index_to_receipt_logs
assign-OnlyLogPanics config trx =
    let cs = sort_by log_ordinal (surviving_logs config trx.calls) in
    elim (Bool-cases (length cs == length (receipt_logs trx.receipt))) [
      | inr differ ↦ inr (inl (ground arith))
      | inl same ↦ elim (assign_logs-OnlyLogPanics cs (receipt_logs trx.receipt) (ground arith)) [
        | inl (logs, e) ↦
            inl (record trx { receipt = with_logs logs trx.receipt }, rw (same, e) refl)
        | inr (inl e) ↦ inr (inl (rw (same, e) refl))
        | inr (inr e) ↦ inr (inr (rw (same, e) refl))
      ]
    ]

populate_on_end_ok :
    (d : DeferredCallState) (root : Call)
    → (r : Call × DeferredCallState) × (populate_on_end d root ≡ ok r)
unfolding populate_on_end
populate_on_end_ok d root = elim (Result-cases (populate_on_end d root)) [
  | inl found ↦ found
  | inr (p, failed) ↦ absurd (ground (arith, populate_root d root))
]

module _ (t : Tracer) (trx : TransactionTrace) (numbered : IsNumbered (view t).current)
    (idle : t.call_stack.stack ≡ []) (present : t.transaction ≡ some trx) where
  -- The calls that the walk over reverted calls gets.
  walked_shapes :
      (root populated : Call) (others : List Call) (d d' : DeferredCallState)
      → sort_by call_index trx.calls ≡ root ∷ others
      → populate_on_end d root ≡ ok (populated, d')
      → map shape
          (attach_storage_slot_preimages (populated ∷ others) t.transaction_keccak_preimages)
        ≡ sort_by shape_index (view t).current.done
  walked_shapes root populated others d d' sorted entered =
      shape-attach_storage_slot_preimages (populated ∷ others) t.transaction_keccak_preimages
      ∙ ap (λ s. s ∷ map shape others) (shape-populate_on_end d d' root populated entered)
      ∙ ap (map shape) (sym sorted)
      ∙ shape-sort_by trx.calls
      ∙ ap (λ o. sort_by shape_index (map shape (calls_of o))) (sym present)

  finish-OnlyLogPanics :
      (receipt : Option ReceiptData) (root : Call) (others : List Call)
      → sort_by call_index trx.calls ≡ root ∷ others
      → OnlyLogPanics
          (finish_transaction t.config (root ∷ others) trx t.deferred_call_state t receipt)
  unfolding finish_transaction
  finish-OnlyLogPanics receipt root others sorted =
      let (r, populated) = populate_on_end_ok t.deferred_call_state root in
      let calls = attach_storage_slot_preimages (r.0 ∷ others) t.transaction_keccak_preimages in
      let (marked, walked, all) =
        numbered_marks t calls numbered idle
          (walked_shapes root r.0 others t.deferred_call_state r.1 sorted populated) in
      let received =
        populate_receipt receipt (discard_uncommitted_set_code_authorizations root trx) in
      let final : TransactionTrace = record received {
        status = final_status r.0 received.status;
        return_data = r.0.return_data;
        calls = map (remove_block_index t.config) marked;
      } in
      elim (assign-OnlyLogPanics t.config final) [
        | inl (out, e) ↦ inl ((out, r.1), ground arith)
        | inr (inl e) ↦ inr (inl (ground arith))
        | inr (inr e) ↦ inr (inr (ground arith))
      ]

module _ (t : Tracer) (trx : TransactionTrace) (numbered : IsNumbered (view t).current) (s : Tracer)
    (h : IsTracing s 0 t) (present : t.transaction ≡ some trx)
    (called : is_empty trx.calls ≡ false) where
  end_with_calls-OnlyLogPanics :
      (receipt : Option ReceiptData) → OnlyLogPanics (end_with_calls receipt trx t)
  unfolding end_with_calls
  end_with_calls-OnlyLogPanics receipt = elim (List-cases (sort_by call_index trx.calls)) [
    | inl none_sorted ↦ absurd (ground (arith, called, length-sort_by call_index trx.calls))
    | inr (root, others, sorted) ↦
        let idle : t.call_stack.stack ≡ [] = ground (arith, h.depth) in
        bind-OnlyLogPanics
          (finish_transaction t.config (sort_by call_index trx.calls) trx t.deferred_call_state t
            receipt)
          _
          (rw sorted (finish-OnlyLogPanics t trx numbered idle present receipt root others sorted))
          (λ r e. inl (_, refl))
  ]

  store_trace_ok :
      (trace : TransactionTrace) (u : Tracer)
      → u.block ≡ t.block
      → (v : Tracer) × (store_trace trace u ≡ ok v)
  unfolding store_trace modify_block
  store_trace_ok trace u kept = elim (Result-cases (store_trace trace u)) [
    | inl found ↦ found
    | inr (p, failed) ↦ absurd (ground (arith, h.block))
  ]

  block-end_with_calls :
      (receipt : Option ReceiptData) (r : TransactionTrace × Tracer)
      → end_with_calls receipt trx t ≡ ok r
      → r.1.block ≡ t.block
  unfolding end_with_calls tick
  block-end_with_calls receipt r e = ground arith

  complete_transaction-calls :
      (receipt : Option ReceiptData)
      → complete_transaction receipt trx t ≡ end_with_calls receipt trx t
  unfolding complete_transaction
  complete_transaction-calls receipt = rw called refl

  require-transaction : require t.transaction nil_pointer ≡ ok trx
  require-transaction = rw present refl

  end_transaction-OnlyLogPanics :
      (receipt : Option ReceiptData) → OnlyLogPanics (end_transaction receipt t)
  unfolding end_transaction
  end_transaction-OnlyLogPanics receipt =
      rw (require-transaction, complete_transaction-calls receipt)
        (bind-OnlyLogPanics (end_with_calls receipt trx t) (λ r. store_trace r.0 r.1)
          (end_with_calls-OnlyLogPanics receipt)
          (λ r e. inl (store_trace_ok r.0 r.1 (block-end_with_calls receipt r e))))

  ensure-traced : ensure_in_block_and_in_trx t ≡ ok tt
  unfolding ensure_in_block_and_in_trx ensure_in_block
  ensure-traced = ground (arith, h)

  pub on_tx_end-OnlyLogPanics : (receipt : Option ReceiptData) → OnlyLogPanics (on_tx_end receipt t)
  unfolding on_tx_end
  on_tx_end-OnlyLogPanics receipt =
      rw ensure-traced
        (elim (Bool-cases (not (is_some receipt) && t.config.drop_transactions_without_receipt)) [
          | inl drops ↦ inl (drop_transaction t, rw drops refl)
          | inr kept ↦ rw kept (end_transaction-OnlyLogPanics receipt)
        ])
