-- ===== src/Interrupts.antt =====
-- tracer.go: a transaction that a system call interrupts comes back as it was.
use evm_firehose_tracer_go.Prelude.{
  ℕ, Bool, true, false, not, ◌&&◌, ◌≡◌, ◌∙◌, List, [], ◌∷◌, Option, none, some, is_some, All, arith,
  inl, inr, Bool-cases, Option-cases, ◌==◌,
}
use evm_firehose_tracer_go.Prelude.Int.{ℤ}
use evm_firehose_tracer_go.Prelude.Bytes.{Bytes}
use evm_firehose_tracer_go.Pb.{Call, TransactionTrace, BalanceChangeReason}
use evm_firehose_tracer_go.Types.GoError.{GoError}
use evm_firehose_tracer_go.Types.{TxEvent, ReceiptData}
use evm_firehose_tracer_go.Config.{StateReader}
use evm_firehose_tracer_go.External.{External}
use evm_firehose_tracer_go.Tracer.State.{
  Tracer, InterruptedTransactionState, ok, Result-cases, tick,
}
use evm_firehose_tracer_go.Tracer.Changes.{
  on_balance_change, on_nonce_change, on_code_change, on_storage_change, on_log, attach_code_change,
}
use evm_firehose_tracer_go.Tracer.Calls.{
  on_call_enter, on_call_exit, enter_call, populate_on_enter, on_opcode, on_opcode_fault,
  on_keccak_preimage, entered_call, resolve_delegation, call_type_self_destruct,
}
use evm_firehose_tracer_go.Tracer.Transactions.{on_tx_start}
use evm_firehose_tracer_go.Tracer.Completion.{
  end_without_calls, end_with_calls, complete_transaction, store_trace, drop_transaction,
  end_transaction, on_tx_end,
}
use evm_firehose_tracer_go.Tracer.SystemCalls.{
  on_system_call_start, on_system_call_end, save_transaction,
}
use evm_firehose_tracer_go.Hooks.{
  Hook, tx_start, tx_end, call_enter, call_exit, balance_change, nonce_change, code_change,
  storage_change, log, opcode, opcode_fault, keccak_preimage, system_call_start, system_call_end,
  step, run,
}

abbrev pub is_boundary : Hook → Bool
is_boundary system_call_start = true
is_boundary system_call_end = true
is_boundary _ = false

module _ (t u : Tracer) where
  abbrev Keeps : Type 0
  Keeps = u.interrupted_transaction ≡ t.interrupted_transaction

  on_nonce_change-Keeps :
      (addr : Bytes) (old new : ℕ) → on_nonce_change addr old new t ≡ ok u → Keeps
  unfolding on_nonce_change
  on_nonce_change-Keeps addr old new e = ground arith

  on_balance_change-Keeps :
      (addr : Bytes) (old new : Option ℤ) (reason : BalanceChangeReason)
      → on_balance_change addr old new reason t ≡ ok u
      → Keeps
  unfolding on_balance_change
  on_balance_change-Keeps addr old new reason e = ground arith

  on_code_change-Keeps :
      (addr prev_hash new_hash old new : Bytes)
      → on_code_change addr prev_hash new_hash old new t ≡ ok u
      → Keeps
  unfolding on_code_change attach_code_change
  on_code_change-Keeps addr prev_hash new_hash old new e = ground arith

  on_storage_change-Keeps :
      (addr slot old new : Bytes) → on_storage_change addr slot old new t ≡ ok u → Keeps
  unfolding on_storage_change
  on_storage_change-Keeps addr slot old new e = ground arith

  on_log-Keeps :
      (addr : Bytes) (topics : List Bytes) (payload : Bytes) (block_index : ℕ)
      → on_log addr topics payload block_index t ≡ ok u
      → Keeps
  unfolding on_log
  on_log-Keeps addr topics payload block_index e = ground arith

  on_keccak_preimage-Keeps :
      (hash preimage : Bytes) → on_keccak_preimage hash preimage t ≡ ok u → Keeps
  unfolding on_keccak_preimage
  on_keccak_preimage-Keeps hash preimage e = ground arith

  populate_on_enter-Keeps :
      (depth : ℕ) (c c' : Call) → populate_on_enter depth c t ≡ ok (c', u) → Keeps
  unfolding populate_on_enter
  populate_on_enter-Keeps depth c c' e = ground arith

  on_call_exit-Keeps :
      (output : Bytes) (gas_used : ℕ) (err : Option GoError) (reverted : Bool)
      → on_call_exit output gas_used err reverted t ≡ ok u
      → Keeps
  unfolding on_call_exit
  on_call_exit-Keeps output gas_used err reverted e = ground arith

  on_tx_start-Keeps :
      (ext : External) (event : TxEvent) (reader : Option StateReader)
      → on_tx_start ext event reader t ≡ ok u
      → Keeps
  unfolding on_tx_start
  on_tx_start-Keeps ext event reader e = ground arith

  store_trace-Keeps : (trace : TransactionTrace) → store_trace trace t ≡ ok u → Keeps
  unfolding store_trace
  store_trace-Keeps trace e = ground arith

  complete_transaction-Keeps :
      (receipt : Option ReceiptData) (trx trace : TransactionTrace)
      → complete_transaction receipt trx t ≡ ok (trace, u)
      → Keeps
  unfolding complete_transaction end_without_calls end_with_calls
  complete_transaction-Keeps receipt trx trace e = ground arith

on_opcode-Keeps : (op : ℕ) (err : Option GoError) (t : Tracer) → Keeps t (on_opcode op err t)
unfolding on_opcode
on_opcode-Keeps op err t = ground arith

on_opcode_fault-Keeps : (t : Tracer) → Keeps t (on_opcode_fault t)
unfolding on_opcode_fault
on_opcode_fault-Keeps t = ground arith

on_call_enter-Keeps :
    (depth typ : ℕ) (from to input : Bytes) (gas : ℕ) (value : Option ℤ) (t u : Tracer)
    → on_call_enter depth typ from to input gas value t ≡ ok u
    → Keeps t u
unfolding on_call_enter enter_call
on_call_enter-Keeps depth typ from to input gas value t u e =
    elim (Bool-cases (typ == call_type_self_destruct)) [
      | inl destruct ↦ ground arith
      | inr plain ↦
          let c = entered_call typ from to input gas value (tick t).block_ordinal.value in
          elim (Result-cases
            (populate_on_enter depth (resolve_delegation (tick t) to c) (tick t))) [
              | inr (p, failed) ↦ absurd (ground arith)
              | inl (r, populated) ↦ ground (
                arith,
                populate_on_enter-Keeps (tick t) r.1 depth (resolve_delegation (tick t) to c) r.0
                    populated,
              )
            ]
    ]

end_transaction-Keeps :
    (receipt : Option ReceiptData) (t u : Tracer) → end_transaction receipt t ≡ ok u → Keeps t u
unfolding end_transaction
end_transaction-Keeps receipt t u e = elim (Option-cases t.transaction) [
  | inl absent ↦ absurd (ground arith)
  | inr (trx, present) ↦ elim (Result-cases (complete_transaction receipt trx t)) [
    | inr (p, failed) ↦ absurd (ground arith)
    | inl (r, completed) ↦
        store_trace-Keeps r.1 u r.0 (ground arith)
        ∙ complete_transaction-Keeps t r.1 receipt trx r.0 completed
  ]
]

on_tx_end-Keeps :
    (receipt : Option ReceiptData) (t u : Tracer) → on_tx_end receipt t ≡ ok u → Keeps t u
unfolding on_tx_end drop_transaction
on_tx_end-Keeps receipt t u e =
    elim (Bool-cases (not (is_some receipt) && t.config.drop_transactions_without_receipt)) [
      | inl dropped ↦ ground arith
      | inr kept ↦ end_transaction-Keeps receipt t u (ground arith)
    ]

module _ (ext : External) where
  step-Keeps : (h : Hook) (t u : Tracer) → is_boundary h ≡ false → step ext h t ≡ ok u → Keeps t u
  unfolding step
  step-Keeps (tx_start event reader) t u b e = on_tx_start-Keeps t u ext event reader e
  step-Keeps (tx_end receipt) t u b e = on_tx_end-Keeps receipt t u e
  step-Keeps (call_enter depth typ from to input gas value) t u b e =
      on_call_enter-Keeps depth typ from to input gas value t u e
  step-Keeps (call_exit output gas_used err reverted) t u b e =
      on_call_exit-Keeps t u output gas_used err reverted e
  step-Keeps (balance_change addr old new reason) t u b e =
      on_balance_change-Keeps t u addr old new reason e
  step-Keeps (nonce_change addr old new) t u b e = on_nonce_change-Keeps t u addr old new e
  step-Keeps (code_change addr prev_hash new_hash old new) t u b e =
      on_code_change-Keeps t u addr prev_hash new_hash old new e
  step-Keeps (storage_change addr slot old new) t u b e =
      on_storage_change-Keeps t u addr slot old new e
  step-Keeps (log addr topics payload block_index) t u b e =
      on_log-Keeps t u addr topics payload block_index e
  step-Keeps (opcode op err) t u b e = ground (arith, on_opcode-Keeps op err t)
  step-Keeps opcode_fault t u b e = ground (arith, on_opcode_fault-Keeps t)
  step-Keeps (keccak_preimage hash preimage) t u b e = on_keccak_preimage-Keeps t u hash preimage e
  step-Keeps system_call_start t u b e = cc
  step-Keeps system_call_end t u b e = cc

  run-Keeps :
      (hooks : List Hook) (t u : Tracer)
      → All (λ h. is_boundary h ≡ false) hooks
      → run ext hooks t ≡ ok u
      → Keeps t u
  unfolding run
  run-Keeps [] t u b e = ground arith
  run-Keeps (h ∷ hs) t u b e = elim (Result-cases (step ext h t)) [
    | inr (p, failed) ↦ absurd (ground arith)
    | inl (v, stepped) ↦ run-Keeps hs v u b.1 (ground arith) ∙ step-Keeps h t v b.0 stepped
  ]

started_saves :
    (trx : TransactionTrace) (t s : Tracer)
    → t.transaction ≡ some trx
    → on_system_call_start t ≡ ok s
    → s.interrupted_transaction ≡ some (save_transaction t)
unfolding on_system_call_start
started_saves trx t s present e = ground arith

ended_restores :
    (saved : InterruptedTransactionState) (u w : Tracer)
    → u.interrupted_transaction ≡ some saved
    → on_system_call_end u ≡ ok w
    → (save_transaction w ≡ saved) × (w.interrupted_transaction ≡ none) × (w.in_system_call ≡ false)
unfolding on_system_call_end save_transaction
ended_restores saved u w held e = ground arith

-- A system call that starts within a transaction, goes through any hooks but the start and the end
-- of a system call, and ends, all without a panic, gives back the transaction with its log index,
-- its state reader, its preimages, its call stack, its deferred changes and the mark of a
-- self-destruct as they were, and nothing is set aside any more.
pub system_call_restores :
    (ext : External) (hooks : List Hook) (trx : TransactionTrace) (t s u w : Tracer)
    → t.transaction ≡ some trx
    → All (λ h. is_boundary h ≡ false) hooks
    → on_system_call_start t ≡ ok s
    → run ext hooks s ≡ ok u
    → on_system_call_end u ≡ ok w
    → (w.transaction ≡ t.transaction)
      × (w.transaction_log_index ≡ t.transaction_log_index)
      × (w.transaction_state_reader ≡ t.transaction_state_reader)
      × (w.transaction_keccak_preimages ≡ t.transaction_keccak_preimages)
      × (w.call_stack ≡ t.call_stack)
      × (w.deferred_call_state ≡ t.deferred_call_state)
      × (w.latest_call_enter_suicided ≡ t.latest_call_enter_suicided)
      × (w.latest_call_enter_suicided_depth ≡ t.latest_call_enter_suicided_depth)
      × (w.interrupted_transaction ≡ none)
      × (w.in_system_call ≡ false)
unfolding save_transaction
system_call_restores ext hooks trx t s u w present inner started ran ended = ground (
  arith,
  ended_restores (save_transaction t) u w
      (run-Keeps ext hooks s u inner ran ∙ started_saves trx t s present started) ended,
)
