-- ===== src/Ordinals/Transactions.antt =====
-- Ordinals across the hooks that start and end transactions and system calls.
use mathlib.Core.Path.{subst}
use evm_firehose_tracer_go.Prelude.{
  ℕ, ◌+◌, ◌≤◌, ◌≡◌, Option, some, arith, total-append, inl, inr, Bool-cases, Option-cases, is_empty,
  is_some, not, ◌&&◌,
}
use evm_firehose_tracer_go.Prelude.Sort.{sort_by, total-sort_by}
use evm_firehose_tracer_go.Pb.{TransactionTrace}
use evm_firehose_tracer_go.Types.{ReceiptData, TxEvent}
use evm_firehose_tracer_go.Config.{StateReader}
use evm_firehose_tracer_go.External.{External}
use evm_firehose_tracer_go.Tracer.State.{Tracer, ok, Result-cases, tick}
use evm_firehose_tracer_go.Tracer.Transactions.{on_tx_start}
use evm_firehose_tracer_go.Tracer.Completion.{
  call_index, finish_transaction, end_without_calls, end_with_calls, complete_transaction,
  store_trace, drop_transaction, end_transaction, on_tx_end,
}
use evm_firehose_tracer_go.Tracer.SystemCalls.{on_system_call_start, on_system_call_end}
use evm_firehose_tracer_go.Ordinals.{hit, occurs_in_call, occurs}
use evm_firehose_tracer_go.Ordinals.Growth.{Grows, HasRoom}
use evm_firehose_tracer_go.Ordinals.Completion.{
  occurs-finish_transaction, occurs-attach_storage_slot_preimages,
}

module _ (t u : Tracer) (room : HasRoom t) where
  pub on_tx_start-Grows :
      (ext : External) (event : TxEvent) (reader : Option StateReader)
      → on_tx_start ext event reader t ≡ ok u
      → Grows t u
  unfolding on_tx_start occurs
  on_tx_start-Grows ext event reader e = record {
    from_old = ground arith;
    at_most_one = ground arith;
    recorded = λ k h. ground arith;
  }

  pub on_system_call_start-Grows : on_system_call_start t ≡ ok u → Grows t u
  unfolding on_system_call_start occurs
  on_system_call_start-Grows e = record {
    from_old = ground arith;
    at_most_one = ground arith;
    recorded = λ k h. ground arith;
  }

  pub on_system_call_end-Grows : on_system_call_end t ≡ ok u → Grows t u
  unfolding on_system_call_end occurs
  on_system_call_end-Grows e = record {
    from_old = ground arith;
    at_most_one = ground arith;
    recorded = λ k h. grind (arith, total-append, occurs-attach_storage_slot_preimages);
  }

  drop_transaction-Grows : Grows t (drop_transaction t)
  unfolding drop_transaction occurs
  drop_transaction-Grows = record {
    from_old = ground arith;
    at_most_one = ground arith;
    recorded = λ k h. ground arith;
  }

-- The trace that a completion returns is the one that the tracer points at.
module _ (receipt : Option ReceiptData) (trx trace : TransactionTrace) (t u : Tracer) where
  complete_transaction_points :
      complete_transaction receipt trx t ≡ ok (trace, u) → u.transaction ≡ some trace
  unfolding complete_transaction end_without_calls end_with_calls
  complete_transaction_points e = ground arith

  end_without_calls-Grows :
      HasRoom t → t.transaction ≡ some trx → end_without_calls trx t ≡ ok (trace, u) → Grows t u
  unfolding end_without_calls occurs
  end_without_calls-Grows room h e = record {
    from_old = ground arith;
    at_most_one = ground arith;
    recorded = λ k p. ground arith;
  }

  occurs-end_with_calls :
      (k : ℕ)
      → t.transaction ≡ some trx
      → end_with_calls receipt trx t ≡ ok (trace, u)
      → occurs k u ≤ occurs k t + hit k (tick t).block_ordinal.value
  unfolding end_with_calls occurs
  occurs-end_with_calls k h e =
      let sorted = sort_by call_index trx.calls in
      elim (Result-cases (finish_transaction t.config sorted trx t.deferred_call_state t receipt)) [
        | inr (p, failed) ↦ ground arith
        | inl (r, finished) ↦ ground (
          arith,
          total-sort_by call_index (occurs_in_call k) trx.calls,
          occurs-finish_transaction k t.config sorted trx r.0 t.deferred_call_state r.1 t receipt
              finished,
        )
      ]

  end_with_calls-Grows :
      HasRoom t
      → t.transaction ≡ some trx
      → end_with_calls receipt trx t ≡ ok (trace, u)
      → Grows t u
  unfolding end_with_calls
  end_with_calls-Grows room h e = record {
    from_old = ground arith;
    at_most_one = ground arith;
    recorded = λ k p. ground (arith, occurs-end_with_calls k h e);
  }

  complete_transaction-Grows :
      HasRoom t
      → t.transaction ≡ some trx
      → complete_transaction receipt trx t ≡ ok (trace, u)
      → Grows t u
  unfolding complete_transaction
  complete_transaction-Grows room h e = elim (Bool-cases (is_empty trx.calls)) [
    | inl bare ↦ end_without_calls-Grows room h (ground arith)
    | inr called ↦ end_with_calls-Grows room h (ground arith)
  ]

-- Storing the trace moves it from the tracer's pointer to the block.
occurs-store_trace :
    (k : ℕ) (trace : TransactionTrace) (t u : Tracer)
    → t.transaction ≡ some trace
    → store_trace trace t ≡ ok u
    → (u.block_ordinal.value ≡ t.block_ordinal.value) × (occurs k u ≤ occurs k t)
unfolding store_trace occurs
occurs-store_trace k trace t u h e = grind (arith, total-append)

module _ (receipt : Option ReceiptData) (t u : Tracer) (room : HasRoom t) where
  stored-Grows :
      (trace : TransactionTrace) (v : Tracer)
      → Grows t v
      → v.transaction ≡ some trace
      → store_trace trace v ≡ ok u
      → Grows t u
  stored-Grows trace v g h e = record {
    from_old = ground (arith, occurs-store_trace 0 trace v u h e, g.from_old);
    at_most_one = ground (arith, occurs-store_trace 0 trace v u h e, g.at_most_one);
    recorded = λ k p. ground (arith, occurs-store_trace k trace v u h e, g.recorded k p);
  }

  end_transaction-Grows : end_transaction receipt t ≡ ok u → Grows t u
  unfolding end_transaction
  end_transaction-Grows e = elim (Option-cases t.transaction) [
    | inl absent ↦ absurd (ground arith)
    | inr (trx, present) ↦ elim (Result-cases (complete_transaction receipt trx t)) [
      | inr (p, failed) ↦ absurd (ground arith)
      | inl (r, completed) ↦
          stored-Grows r.0 r.1
            (complete_transaction-Grows receipt trx r.0 t r.1 room present completed)
            (complete_transaction_points receipt trx r.0 t r.1 completed) (ground arith)
    ]
  ]

  pub on_tx_end-Grows : on_tx_end receipt t ≡ ok u → Grows t u
  unfolding on_tx_end
  on_tx_end-Grows e =
      elim (Bool-cases (not (is_some receipt) && t.config.drop_transactions_without_receipt)) [
        | inl dropped ↦ subst (Grows t) (ground arith) (drop_transaction-Grows t u room)
        | inr kept ↦ end_transaction-Grows (ground arith)
      ]
