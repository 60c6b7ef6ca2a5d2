-- ===== src/Ordinals/Calls.antt =====
-- Ordinals across the call hooks.
use evm_firehose_tracer_go.Prelude.{ℕ, Bool, ◌+◌, ◌≤◌, ◌<◌, ◌≡◌, Option, arith, inl, inr}
use evm_firehose_tracer_go.Prelude.Int.{ℤ}
use evm_firehose_tracer_go.Prelude.Bytes.{Bytes}
use evm_firehose_tracer_go.Pb.{Call}
use evm_firehose_tracer_go.Types.GoError.{GoError}
use evm_firehose_tracer_go.CallStack.{push}
use evm_firehose_tracer_go.Tracer.State.{Tracer, ok, Result-cases}
use evm_firehose_tracer_go.Tracer.Calls.{
  resolve_delegation, populate_on_enter, entered_call, enter_call, exit_call,
}
use evm_firehose_tracer_go.Ordinals.{hit, occurs_in_call, occurs}
use evm_firehose_tracer_go.Ordinals.Attach.{occurs-maybe_populate_call_and_reset}

module _ (k : ℕ) where
  occurs-resolve_delegation :
      (t : Tracer) (to : Bytes) (c : Call)
      → occurs_in_call k (resolve_delegation t to c) ≡ occurs_in_call k c
  unfolding resolve_delegation occurs_in_call
  occurs-resolve_delegation t to c = ground arith

  occurs-populate_on_enter :
      (depth : ℕ) (c c' : Call) (t u : Tracer)
      → populate_on_enter depth c t ≡ ok (c', u)
      → (u.block_ordinal.value ≡ t.block_ordinal.value)
        × (occurs k u + occurs_in_call k c' ≡ occurs k t + occurs_in_call k c)
  unfolding populate_on_enter occurs
  occurs-populate_on_enter depth c c' t u e = ground (
    arith,
    occurs-maybe_populate_call_and_reset k "enter" t.deferred_call_state u.deferred_call_state c c',
  )

  occurs-push :
      (c : Call) (t : Tracer)
      → occurs k (record t { call_stack = push c t.call_stack }) ≡ occurs k t + occurs_in_call k c
  unfolding push occurs
  occurs-push c t = ground arith

  pub occurs-entered_call :
      (typ : ℕ) (from to input : Bytes) (gas : ℕ) (value : Option ℤ) (n : ℕ)
      → 0 < k
      → occurs_in_call k (entered_call typ from to input gas value n) ≡ hit k n
  unfolding entered_call occurs_in_call
  occurs-entered_call typ from to input gas value n h = ground arith

  -- A call that enters brings its own ordinals and no other.
  pub occurs-enter_call :
      (depth : ℕ) (to : Bytes) (c : Call) (t u : Tracer)
      → enter_call depth to c t ≡ ok u
      → (u.block_ordinal.value ≡ t.block_ordinal.value)
        × (occurs k u ≡ occurs k t + occurs_in_call k c)
  unfolding enter_call
  occurs-enter_call depth to c t u e =
      elim (Result-cases (populate_on_enter depth (resolve_delegation t to c) t)) [
        | inl (r, populated) ↦ ground (
          arith,
          occurs-resolve_delegation t to c,
          occurs-populate_on_enter depth (resolve_delegation t to c) r.0 t r.1 populated,
          occurs-push r.0 r.1,
        )
        | inr (p, failed) ↦ ground arith
      ]

  pub occurs-exit_call :
      (output : Bytes) (gas_used : ℕ) (err : Option GoError) (reverted : Bool) (c : Call) (n : ℕ)
      → occurs_in_call k (record (exit_call output gas_used err reverted c) { end_ordinal = n })
        ≤ occurs_in_call k c + hit k n
  unfolding exit_call occurs_in_call
  occurs-exit_call output gas_used err reverted c n = ground arith
