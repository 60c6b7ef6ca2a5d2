-- ===== src/Ordinals/Receipts.antt =====
-- The ordinals of the logs in a transaction's receipt are those of its calls' logs.
use evm_firehose_tracer_go.Prelude.{
  ℕ, ◌≤◌, ◌≡◌, refl, ap, ◌∙◌, ◌⊎◌, inl, inr, Bool, true, List, [], ◌∷◌, Option, none, some, total,
  is_empty, map, arith, Bool-cases, if◌then◌else◌,
}
use evm_firehose_tracer_go.Prelude.Sort.{sort_by, total-sort_by}
use evm_firehose_tracer_go.Pb.{Call, Log, TransactionReceipt, TransactionTrace}
use evm_firehose_tracer_go.Types.{ReceiptData}
use evm_firehose_tracer_go.Config.{Config}
use evm_firehose_tracer_go.Deferred.{DeferredCallState}
use evm_firehose_tracer_go.Keccak.{attach_storage_slot_preimages}
use evm_firehose_tracer_go.Tracer.State.{Tracer, ok, Result-cases}
use evm_firehose_tracer_go.Tracer.Completion.{
  call_index, log_ordinal, receipt_logs, with_logs, surviving_logs, populate_on_end,
  populate_state_reverted, assign_ordinal_and_index_to_receipt_logs, finish_transaction,
  populate_receipt, final_status, remove_block_index, discard_uncommitted_set_code_authorizations,
  end_without_calls, end_with_calls, complete_transaction,
}
use evm_firehose_tracer_go.Receipts.{
  paired, call_logs, stays, total-paired, total-surviving_logs, receipt_logs-with_logs,
  receipt_logs-paired, receipt_logs_mismatch,
}
use evm_firehose_tracer_go.Ordinals.{log_hit, occurs_in_receipt, IsCovered}

total-some-le :
    (p : Log → Bool) (f : Log → ℕ) (ls : List Log)
    → total (λ l. if p l then f l else 0) ls ≤ total f ls
total-some-le p f [] = omega arith
total-some-le p f (l ∷ ls) = ground (arith, total-some-le p f ls)

surviving_logs-le :
    (config : Config) (f : Log → ℕ) (cs : List Call)
    → total (λ c. total (λ l. if stays config c l then f l else 0) c.logs) cs
      ≤ total (λ c. total f c.logs) cs
surviving_logs-le config f [] = omega arith
surviving_logs-le config f (c ∷ cs) =
    omega (arith, total-some-le (stays config c) f c.logs, surviving_logs-le config f cs)

occurs_in_receipt-logs :
    (k : ℕ) (receipt : Option TransactionReceipt)
    → occurs_in_receipt k receipt ≡ total (log_hit k) (receipt_logs receipt)
occurs_in_receipt-logs k none = refl
occurs_in_receipt-logs k (some receipt) = refl

assigned-IsCovered :
    (config : Config) (trx out : TransactionTrace)
    → assign_ordinal_and_index_to_receipt_logs config trx ≡ ok out
    → IsCovered out
assigned-IsCovered config trx out e k =
    let same = receipt_logs_mismatch config trx out e in
    let receipt = receipt_logs trx.receipt in
    let logs = call_logs config trx in
    let known : out ≡ record trx { receipt = with_logs (paired logs receipt) trx.receipt } =
      ground (arith, receipt_logs-paired config trx same) in
    let taken =
      occurs_in_receipt-logs k (with_logs (paired logs receipt) trx.receipt)
      ∙ ap (total (log_hit k)) (receipt_logs-with_logs logs trx.receipt)
      ∙ total-paired (log_hit k) (λ c r h. refl) logs receipt same
      ∙ total-sort_by log_ordinal (log_hit k) (surviving_logs config trx.calls)
      ∙ total-surviving_logs config (log_hit k) trx.calls in
    rw known (omega (arith, taken, surviving_logs-le config (log_hit k) trx.calls))

-- A transaction without calls takes over no receipt.
abbrev pub Repeats : TransactionTrace → Type 0
Repeats trace = (is_empty trace.calls ≡ true) ⊎ IsCovered trace

finished-IsCovered :
    (config : Config) (cs : List Call) (trx trx' : TransactionTrace) (d d' : DeferredCallState)
    (t : Tracer) (receipt : Option ReceiptData)
    → finish_transaction config cs trx d t receipt ≡ ok (trx', d')
    → IsCovered trx'
unfolding finish_transaction
finished-IsCovered config [] trx trx' d d' t receipt e = cc
finished-IsCovered config (root ∷ others) trx trx' d d' t receipt e =
    elim (Result-cases (populate_on_end d root)) [
      | inr (p, failed) ↦ absurd (ground arith)
      | inl (r, populated) ↦
          let calls = attach_storage_slot_preimages (r.0 ∷ others) t.transaction_keccak_preimages in
          elim (Result-cases (populate_state_reverted calls)) [
            | inr (p, failed) ↦ absurd (ground arith)
            | inl (marked, walked) ↦
                let received =
                  populate_receipt receipt (discard_uncommitted_set_code_authorizations root trx) in
                assigned-IsCovered config
                  (record received {
                    status = final_status r.0 received.status;
                    return_data = r.0.return_data;
                    calls = map (remove_block_index config) marked;
                  })
                  trx' (ground arith)
          ]
    ]

pub complete_transaction-Repeats :
    (receipt : Option ReceiptData) (trx trace : TransactionTrace) (t u : Tracer)
    → complete_transaction receipt trx t ≡ ok (trace, u)
    → Repeats trace
unfolding complete_transaction end_without_calls end_with_calls
complete_transaction-Repeats receipt trx trace t u e = elim (Bool-cases (is_empty trx.calls)) [
  | inl bare ↦ inl (ground arith)
  | inr called ↦
      let sorted = sort_by call_index trx.calls in
      elim (Result-cases (finish_transaction t.config sorted trx t.deferred_call_state t receipt)) [
        | inr (p, failed) ↦ absurd (ground arith)
        | inl (r, finished) ↦
            let covered =
              finished-IsCovered t.config sorted trx r.0 t.deferred_call_state r.1 t receipt
                finished in
            inr (λ k. ground (arith, covered k))
      ]
]
