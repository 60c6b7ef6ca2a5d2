-- ===== src/Protocol/Transactions.antt =====
-- Transactions that a client traces from start to end, one after the other in a block.
use mathlib.Core.Path.{subst}
use evm_firehose_tracer_go.Prelude.{
  ◌<◌, u32_mod, All, true, false, not, ◌&&◌, ◌≡◌, ◌⊎◌, refl, sym, ◌∙◌, ap, List, [], ◌∷◌, ◌++◌,
  Option, none, is_some, is_empty, length, map, arith, inl, inr, Option-cases, List-cases,
  Bool-cases,
}
use evm_firehose_tracer_go.Prelude.Bytes.{Bytes}
use evm_firehose_tracer_go.Types.{TxEvent, ReceiptData}
use evm_firehose_tracer_go.Config.{StateReader, ChainConfig}
use evm_firehose_tracer_go.Pb.{SetCodeAuthorization}
use evm_firehose_tracer_go.External.{External}
use evm_firehose_tracer_go.CallStack.{new_call_stack}
use evm_firehose_tracer_go.Hooks.{Hook, tx_start, tx_end, step, run}
use evm_firehose_tracer_go.Tracer.State.{
  Tracer, Result, ok, panic, Result-cases, log_count_mismatch, block_index_mismatch,
}
use evm_firehose_tracer_go.Tracer.Changes.{
  on_balance_change, on_nonce_change, on_code_change, on_storage_change, on_log, attach_code_change,
}
use evm_firehose_tracer_go.Tracer.Calls.{on_opcode, on_opcode_fault, on_call_exit}
use evm_firehose_tracer_go.Tracer.Transactions.{
  recipient, on_tx_start, recovery_of, authorizations_to_proto,
}
use evm_firehose_tracer_go.FlashBlocks.Appends.{run-Appends}
use evm_firehose_tracer_go.Tracer.Completion.{
  on_tx_end, drop_transaction, end_transaction, complete_transaction, end_with_calls,
  end_without_calls, store_trace,
}
use evm_firehose_tracer_go.CallTree.{empty, view, calls_of}
use evm_firehose_tracer_go.CallTree.Numbering.{IsNumbered, run-AreNumbered, blank-AreNumbered}
use evm_firehose_tracer_go.Protocol.{
  CallKind, opcode_of, Entry, Exit, enter, exit, Change, balance, nonce, code, storage, logs, runs,
  faults, change_hook, Activities, hooks_of_all, IsTracing,
}
use evm_firehose_tracer_go.Protocol.Changes.{Traces, change-Traces}
use evm_firehose_tracer_go.Protocol.Calls.{
  enter-Traces, exit-Traces, run-append, run-cons, run_panic-append, activities_trace,
}
use evm_firehose_tracer_go.Protocol.Ends.{on_tx_end-OnlyLogPanics}

-- Between two transactions of a block.
pub record IsReady (t : Tracer) : Type 0 where
  pub block : is_some t.block ≡ true
  pub chain : is_some t.chain_config ≡ true
  pub transaction : t.transaction ≡ none
  pub stack : t.call_stack ≡ new_call_stack
  pub plain : t.latest_call_enter_suicided ≡ false
  pub interrupted : t.interrupted_transaction ≡ none
  pub shared : t.transaction_isolated ≡ false

-- What happens in a transaction that has a root call: changes before it and after it.
pub record Traced : Type 0 where
  pub event : TxEvent
  pub reader : Option StateReader
  pub before : List Change
  pub kind : CallKind
  pub entry : Entry
  pub body : Activities
  pub left : Exit
  pub after : List Change
  pub receipt : Option ReceiptData

abbrev pub root_hooks : Traced → List Hook
root_hooks x = enter x.entry (opcode_of x.kind) ∷ hooks_of_all x.body ++ exit x.left ∷ []

abbrev pub inner_hooks : Traced → List Hook
inner_hooks x = map change_hook x.before ++ (root_hooks x ++ map change_hook x.after)

abbrev pub transaction_hooks : Traced → List Hook
transaction_hooks x = tx_start x.event x.reader ∷ inner_hooks x ++ tx_end x.receipt ∷ []

-- The recipient is known or can be computed, the recovery of the authorizations' signers does not
-- panic (it may fail), and the calls can be counted.
abbrev pub IsTraceable : External → Option ChainConfig → Traced → Type 0
IsTraceable ext chain x =
    ((to : Bytes) × (recipient ext x.event x.reader ≡ ok to))
    × ((auths : List SetCodeAuthorization) × (authorizations_to_proto (recovery_of ext chain)
            x.event.set_code_authorizations
          ≡ ok auths))
    × (length (tx_start x.event x.reader ∷ inner_hooks x) < u32_mod)

-- A transaction with a completed call.
abbrev HasCalls : Tracer → Type 0
HasCalls t = is_empty (calls_of t.transaction) ≡ false

-- The next transaction can start, or the receipt's logs are not those of the calls.
abbrev pub Finishes : Result Tracer → Type 0
Finishes m =
    ((u : Tracer) × (m ≡ ok u) × IsReady u)
    ⊎ (m ≡ panic log_count_mismatch)
    ⊎ (m ≡ panic block_index_mismatch)

abbrev pub block_hooks : List Traced → List Hook
block_hooks [] = []
block_hooks (x ∷ xs) = transaction_hooks x ++ block_hooks xs

module _ (ext : External) where
  change-transaction :
      (c : Change) (t u : Tracer)
      → step ext (change_hook c) t ≡ ok u
      → u.transaction ≡ t.transaction
  unfolding step on_balance_change on_nonce_change on_code_change on_storage_change on_log on_opcode
      on_opcode_fault attach_code_change
  change-transaction (balance addr old new reason) t u e = ground arith
  change-transaction (nonce addr old new) t u e = ground arith
  change-transaction (code addr prev_hash new_hash old new) t u e = ground arith
  change-transaction (storage addr slot old new) t u e = ground arith
  change-transaction (logs addr topics payload block_index) t u e = ground arith
  change-transaction (runs op err) t u e = ground arith
  change-transaction faults t u e = ground arith

  changes-Traces :
      (cs : List Change) (s t : Tracer)
      → IsTracing s 0 t
      → (u : Tracer) × (run ext (map change_hook cs) t ≡ ok u)
        × IsTracing s 0 u
        × (u.transaction ≡ t.transaction)
  unfolding run
  changes-Traces [] s t h = (t, refl, h, refl)
  changes-Traces (c ∷ cs) s t h =
      let (u, stepped, kept) = change-Traces s 0 t h ext c in
      let (v, ran, held, same) = changes-Traces cs s u kept in
      (
        v,
        run-cons ext (change_hook c) (map change_hook cs) t u stepped ∙ ran,
        held,
        same ∙ change-transaction c t u stepped,
      )

  exit-HasCalls :
      (x : Exit) (t u : Tracer)
      → t.latest_call_enter_suicided ≡ false
      → step ext (exit x) t ≡ ok u
      → HasCalls u
  unfolding step on_call_exit
  exit-HasCalls x t u plain e = elim (List-cases t.call_stack.stack) [
    | inl none_active ↦ absurd (ground arith)
    | inr (c, rest, stacked) ↦ elim (Option-cases t.transaction) [
      | inl absent ↦ absurd (ground arith)
      | inr (trx, present) ↦ elim (List-cases trx.calls) [
        | inl first ↦ ground arith
        | inr (c', cs, more) ↦ ground arith
      ]
    ]
  ]

  -- A transaction that is traced, no call being active, with a completed one.
  abbrev Completes : Tracer → Result Tracer → Type 0
  Completes s m = (u : Tracer) × (m ≡ ok u) × IsTracing s 0 u × HasCalls u

  root-Completes :
      (x : Traced) (s t : Tracer) → IsTracing s 0 t → Completes s (run ext (root_hooks x) t)
  unfolding run
  root-Completes x s t h =
      let (u, entered, inside) = enter-Traces ext s 0 x.kind x.entry t h in
      let (v, ran, kept) = activities_trace ext x.body s 0 u inside in
      let (w, exited, ended) = exit-Traces ext s 0 x.left v kept in
      (
        w,
        run-cons ext (enter x.entry (opcode_of x.kind)) (hooks_of_all x.body ++ exit x.left ∷ []) t
              u entered
            ∙ run-append ext (hooks_of_all x.body) (exit x.left ∷ []) u v ran
            ∙ run-cons ext (exit x.left) [] v w exited,
        ended,
        exit-HasCalls x.left v w kept.plain exited,
      )

  inner-Completes :
      (x : Traced) (s t : Tracer) → IsTracing s 0 t → Completes s (run ext (inner_hooks x) t)
  inner-Completes x s t h =
      let (u, began, before, started) = changes-Traces x.before s t h in
      let (v, called, within, has) = root-Completes x s u before in
      let (w, ended, after, same) = changes-Traces x.after s v within in
      (
        w,
        run-append ext (map change_hook x.before) (root_hooks x ++ map change_hook x.after) t u
              began
            ∙ run-append ext (root_hooks x) (map change_hook x.after) u v called
            ∙ ended,
        after,
        subst (λ o. is_empty (calls_of o) ≡ false) (sym same) has,
      )

  ready-stack : (t : Tracer) → IsReady t → t.call_stack.stack ≡ []
  unfolding new_call_stack
  ready-stack t h = ap (λ c. c.stack) h.stack

  start-Traces :
      (x : Traced) (t : Tracer) (to : Bytes) (auths : List SetCodeAuthorization)
      → IsReady t
      → recipient ext x.event x.reader ≡ ok to
      → authorizations_to_proto (recovery_of ext t.chain_config) x.event.set_code_authorizations
        ≡ ok auths
      → Traces t 0 (step ext (tx_start x.event x.reader) t)
  unfolding step on_tx_start
  start-Traces x t to auths h known recovered =
      elim (Result-cases (step ext (tx_start x.event x.reader) t)) [
        | inl (u, e) ↦ (u, e, ground (arith, h, ready-stack t h))
        | inr (p, failed) ↦ absurd (ground (arith, h, ready-stack t h))
      ]

  end-IsReady :
      (receipt : Option ReceiptData) (s t u : Tracer)
      → IsReady s
      → IsTracing s 0 t
      → on_tx_end receipt t ≡ ok u
      → IsReady u
  unfolding on_tx_end drop_transaction end_transaction complete_transaction end_with_calls
      store_trace end_without_calls new_call_stack
  end-IsReady receipt s t u ready h e =
      elim (Bool-cases (not (is_some receipt) && t.config.drop_transactions_without_receipt)) [
        | inl drops ↦ ground (arith, ready, h)
        | inr kept ↦ ground (arith, ready, h)
      ]

  ready-view : (t : Tracer) → IsReady t → ((view t).current ≡ empty) × ((view t).interrupted ≡ none)
  unfolding new_call_stack
  ready-view t h = ground (arith, h)

  inner-IsNumbered :
      (x : Traced) (t u : Tracer)
      → IsReady t
      → length (tx_start x.event x.reader ∷ inner_hooks x) < u32_mod
      → run ext (tx_start x.event x.reader ∷ inner_hooks x) t ≡ ok u
      → IsNumbered (view u).current
  inner-IsNumbered x t u h room e =
      let (vacant, alone) = ready-view t h in
      (run-AreNumbered ext (tx_start x.event x.reader ∷ inner_hooks x) 0 t u (ground (arith, room))
        (blank-AreNumbered (view t) vacant alone) e).current

  on_tx_end-Finishes :
      (receipt : Option ReceiptData) (s t : Tracer)
      → IsReady s
      → IsTracing s 0 t
      → HasCalls t
      → IsNumbered (view t).current
      → Finishes (run ext (tx_end receipt ∷ []) t)
  unfolding run step
  on_tx_end-Finishes receipt s t ready h has numbered = elim (Option-cases t.transaction) [
    | inl absent ↦ absurd (ground (arith, h.transaction))
    | inr (trx, present) ↦
        elim (on_tx_end-OnlyLogPanics t trx numbered s h present (ground arith) receipt) [
          | inl (u, e) ↦ inl (u, rw e refl, end-IsReady receipt s t u ready h e)
          | inr (inl e) ↦ inr (inl (rw e refl))
          | inr (inr e) ↦ inr (inr (rw e refl))
        ]
  ]

  transaction-Finishes :
      (x : Traced) (t : Tracer)
      → IsReady t
      → IsTraceable ext t.chain_config x
      → Finishes (run ext (transaction_hooks x) t)
  transaction-Finishes x t h ((to, known), (auths, recovered), room) =
      let (u, started, tracing) = start-Traces x t to auths h known recovered in
      let (v, ran, kept, has) = inner-Completes x t u tracing in
      let whole : run ext (tx_start x.event x.reader ∷ inner_hooks x) t ≡ ok v =
        run-cons ext (tx_start x.event x.reader) (inner_hooks x) t u started ∙ ran in
      let numbered = inner-IsNumbered x t v h room whole in
      let same : run ext (transaction_hooks x) t ≡ run ext (tx_end x.receipt ∷ []) v =
        run-append ext (tx_start x.event x.reader ∷ inner_hooks x) (tx_end x.receipt ∷ []) t v
          whole in
      rw same (on_tx_end-Finishes x.receipt t v h kept has numbered)

  -- Any number of transactions of a block, each with a recipient that is known or can be computed,
  -- with authorizations whose recovery does not panic, with fewer than 2^32 hooks before its end,
  -- with changes before its root call and after it and with calls nested to any depth in it, are
  -- traced to the end, after which the next one can start. The only
  -- panics are the two over a receipt whose logs are not those of the calls: their count differs,
  -- or one of their block indexes does.
  pub transactions_finish :
      (xs : List Traced) (t : Tracer)
      → IsReady t
      → All (IsTraceable ext t.chain_config) xs
      → Finishes (run ext (block_hooks xs) t)
  unfolding run
  transactions_finish [] t h all = inl (t, refl, h)
  transactions_finish (x ∷ xs) t h (traceable, all) = elim (transaction-Finishes x t h traceable) [
    | inl (u, e, ready) ↦
        let (added, kept) = run-Appends ext (transaction_hooks x) t u e in
        rw (run-append ext (transaction_hooks x) (block_hooks xs) t u e) (
          transactions_finish xs u ready
            (subst (λ c. All (IsTraceable ext c) xs) (sym kept.chain) all))
    | inr (inl e) ↦
        inr
          (inl (run_panic-append ext (transaction_hooks x) (block_hooks xs) t log_count_mismatch e))
    | inr (inr e) ↦
        inr (
          inr
            (run_panic-append ext (transaction_hooks x) (block_hooks xs) t block_index_mismatch e))
  ]
