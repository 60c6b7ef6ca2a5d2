-- ===== src/CallTree/Simulation.antt =====
-- Every hook that does not panic does what the abstract machine does for it.
use evm_firehose_tracer_go.Prelude.{
  ℕ, Bool, ◌≡◌, refl, List, [], ◌∷◌, Option, arith, inl, inr, List-cases, map-append, Bool-cases,
  Option-cases, ◌==◌,
}
use evm_firehose_tracer_go.Prelude.Int.{ℤ}
use evm_firehose_tracer_go.Prelude.Bytes.{Bytes}
use evm_firehose_tracer_go.Pb.{Call, BalanceChangeReason}
use evm_firehose_tracer_go.Types.GoError.{GoError}
use evm_firehose_tracer_go.Types.{TxEvent}
use evm_firehose_tracer_go.Config.{StateReader}
use evm_firehose_tracer_go.External.{External}
use evm_firehose_tracer_go.Deferred.{maybe_populate_call_and_reset}
use evm_firehose_tracer_go.Tracer.Transactions.{on_tx_start}
use evm_firehose_tracer_go.Tracer.SystemCalls.{on_system_call_start, on_system_call_end}
use evm_firehose_tracer_go.CallStack.{push}
use evm_firehose_tracer_go.Tracer.State.{Tracer, ok, Result-cases, tick}
use evm_firehose_tracer_go.Tracer.Changes.{
  on_balance_change, on_nonce_change, on_code_change, on_storage_change, on_log, attach_code_change,
}
use evm_firehose_tracer_go.Tracer.Calls.{
  on_call_enter, on_call_exit, enter_call, entered_call, exit_call, populate_on_enter,
  resolve_delegation, call_type_self_destruct, on_opcode, on_opcode_fault, on_keccak_preimage,
}
use evm_firehose_tracer_go.Hooks.{
  Hook, tx_start, tx_end, call_enter, call_exit, balance_change, nonce_change, code_change,
  storage_change, log, opcode, opcode_fault, keccak_preimage, system_call_start, system_call_end,
  step,
}
use evm_firehose_tracer_go.CallTree.Machine.{guards, with_current, next, next-Move}
use evm_firehose_tracer_go.CallTree.Completion.{on_tx_end_tree}
use evm_firehose_tracer_go.CallTree.{shape, view, entered, Move}

module _ (t u : Tracer) where
  on_nonce_change-view :
      (addr : Bytes) (old new : ℕ) → on_nonce_change addr old new t ≡ ok u → view u ≡ view t
  unfolding on_nonce_change
  on_nonce_change-view addr old new e = ground arith

  on_balance_change-view :
      (addr : Bytes) (old new : Option ℤ) (reason : BalanceChangeReason)
      → on_balance_change addr old new reason t ≡ ok u
      → view u ≡ view t
  unfolding on_balance_change
  on_balance_change-view addr old new reason e = ground arith

  on_code_change-view :
      (addr prev_hash new_hash old new : Bytes)
      → on_code_change addr prev_hash new_hash old new t ≡ ok u
      → view u ≡ view t
  unfolding on_code_change attach_code_change
  on_code_change-view addr prev_hash new_hash old new e = ground arith

  on_storage_change-view :
      (addr slot old new : Bytes) → on_storage_change addr slot old new t ≡ ok u → view u ≡ view t
  unfolding on_storage_change
  on_storage_change-view addr slot old new e = ground arith

  on_log-view :
      (addr : Bytes) (topics : List Bytes) (payload : Bytes) (block_index : ℕ)
      → on_log addr topics payload block_index t ≡ ok u
      → view u ≡ view t
  unfolding on_log
  on_log-view addr topics payload block_index e = ground arith

  on_opcode-view : (op : ℕ) (err : Option GoError) → view (on_opcode op err t) ≡ view t
  unfolding on_opcode
  on_opcode-view op err = ground arith

  on_opcode_fault-view : view (on_opcode_fault t) ≡ view t
  unfolding on_opcode_fault
  on_opcode_fault-view = ground arith

  on_keccak_preimage-view :
      (hash preimage : Bytes) → on_keccak_preimage hash preimage t ≡ ok u → view u ≡ view t
  unfolding on_keccak_preimage
  on_keccak_preimage-view hash preimage e = ground arith

-- Where the entered call came from, and what populating it leaves alone.
populate_on_enter-shape :
    (depth : ℕ) (c c' : Call) (t u : Tracer)
    → populate_on_enter depth c t ≡ ok (c', u)
    → (shape c' ≡ shape c) × (view u ≡ view t)
unfolding populate_on_enter maybe_populate_call_and_reset
populate_on_enter-shape depth c c' t u e = ground arith

shape-resolve_delegation :
    (t : Tracer) (to : Bytes) (c : Call) → shape (resolve_delegation t to c) ≡ shape c
unfolding resolve_delegation
shape-resolve_delegation t to c = ground arith

push-view :
    (c : Call) (t : Tracer)
    → c.parent_index ≡ 0
    → view (record t { call_stack = push c t.call_stack })
      ≡ record (view t) { current = entered (view t).current }
unfolding push
push-view c t h = ground arith

enter_call-view :
    (depth : ℕ) (to : Bytes) (c : Call) (t u : Tracer)
    → c.parent_index ≡ 0
    → enter_call depth to c t ≡ ok u
    → view u ≡ with_current (view t) (entered (view t).current)
unfolding enter_call
enter_call-view depth to c t u h e =
    elim (Result-cases (populate_on_enter depth (resolve_delegation t to c) t)) [
      | inl (r, populated) ↦ ground (
        arith,
        shape-resolve_delegation t to c,
        populate_on_enter-shape depth (resolve_delegation t to c) r.0 t r.1 populated,
        push-view r.0 r.1,
      )
      | inr (p, failed) ↦ absurd (ground arith)
    ]

on_call_enter-view :
    (depth typ : ℕ) (from to input : Bytes) (gas : ℕ) (value : Option ℤ) (t u : Tracer)
    → on_call_enter depth typ from to input gas value t ≡ ok u
    → view u ≡ next (call_enter depth typ from to input gas value) (guards t) (view t)
unfolding on_call_enter entered_call
on_call_enter-view depth typ from to input gas value t u e =
    elim (Bool-cases (typ == call_type_self_destruct)) [
      | inl destruct ↦ ground arith
      | inr plain ↦ rw plain (
          enter_call-view depth to
            (entered_call typ from to input gas value (tick t).block_ordinal.value) (tick t) u refl
            (ground arith))
    ]

shape-exit_call :
    (output : Bytes) (gas_used : ℕ) (err : Option GoError) (reverted : Bool) (c : Call) (n : ℕ)
    → shape (record (exit_call output gas_used err reverted c) { end_ordinal = n }) ≡ shape c
unfolding exit_call
shape-exit_call output gas_used err reverted c n = ground arith

on_call_exit-view :
    (output : Bytes) (gas_used : ℕ) (err : Option GoError) (reverted : Bool) (t u : Tracer)
    → on_call_exit output gas_used err reverted t ≡ ok u
    → view u ≡ next (call_exit output gas_used err reverted) (guards t) (view t)
unfolding on_call_exit
on_call_exit-view output gas_used err reverted t u e =
    elim (Bool-cases t.latest_call_enter_suicided) [
      | inl skipped ↦ ground arith
      | inr active ↦ elim (List-cases t.call_stack.stack) [
        | inl none_active ↦ absurd (ground arith)
        | inr (c, rest, stacked) ↦ elim (Option-cases t.transaction) [
          | inl absent ↦ absurd (ground arith)
          | inr (trx, present) ↦
              let done : Call = record (exit_call output gas_used err reverted c) {
                end_ordinal = (tick t).block_ordinal.value;
              } in
              ground (
                arith,
                shape-exit_call output gas_used err reverted c (tick t).block_ordinal.value,
                map-append shape trx.calls (done ∷ []),
              )
        ]
      ]
    ]

on_tx_start-view :
    (ext : External) (event : TxEvent) (reader : Option StateReader) (t u : Tracer)
    → on_tx_start ext event reader t ≡ ok u
    → view u ≡ view t
unfolding on_tx_start
on_tx_start-view ext event reader t u e = ground arith

on_system_call_start-view :
    (t u : Tracer)
    → on_system_call_start t ≡ ok u
    → view u ≡ next system_call_start (guards t) (view t)
unfolding on_system_call_start
on_system_call_start-view t u e = elim (Option-cases t.transaction) [
  | inl absent ↦ ground arith
  | inr (trx, present) ↦ ground arith
]

on_system_call_end-view :
    (t u : Tracer) → on_system_call_end t ≡ ok u → view u ≡ next system_call_end (guards t) (view t)
unfolding on_system_call_end
on_system_call_end-view t u e = elim (Option-cases t.interrupted_transaction) [
  | inl absent ↦ ground arith
  | inr (s, present) ↦ ground arith
]

pub view-step :
    (ext : External) (h : Hook) (t u : Tracer)
    → step ext h t ≡ ok u
    → view u ≡ next h (guards t) (view t)
unfolding step
view-step ext (tx_start event reader) t u e = on_tx_start-view ext event reader t u e
view-step ext (tx_end receipt) t u e = on_tx_end_tree receipt t u e
view-step ext (call_enter depth typ from to input gas value) t u e =
    on_call_enter-view depth typ from to input gas value t u e
view-step ext (call_exit output gas_used err reverted) t u e =
    on_call_exit-view output gas_used err reverted t u e
view-step ext (balance_change addr old new reason) t u e =
    on_balance_change-view t u addr old new reason e
view-step ext (nonce_change addr old new) t u e = on_nonce_change-view t u addr old new e
view-step ext (code_change addr prev_hash new_hash old new) t u e =
    on_code_change-view t u addr prev_hash new_hash old new e
view-step ext (storage_change addr slot old new) t u e =
    on_storage_change-view t u addr slot old new e
view-step ext (log addr topics payload block_index) t u e =
    on_log-view t u addr topics payload block_index e
view-step ext (opcode op err) t u e = ground (arith, on_opcode-view t u op err)
view-step ext opcode_fault t u e = ground (arith, on_opcode_fault-view t u)
view-step ext (keccak_preimage hash preimage) t u e = on_keccak_preimage-view t u hash preimage e
view-step ext system_call_start t u e = on_system_call_start-view t u e
view-step ext system_call_end t u e = on_system_call_end-view t u e

-- So each hook makes one of the moves, or none.
pub step-Move :
    (ext : External) (h : Hook) (t u : Tracer) → step ext h t ≡ ok u → Move (view t) (view u)
step-Move ext h t u e = rw (view-step ext h t u e) (next-Move h (guards t) (view t))
