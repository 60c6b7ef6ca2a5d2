-- ===== src/Ordinals/Runs.antt =====
-- The ordinals of a whole block, whatever hooks are called in it.
use mathlib.Core.Path.{subst}
use evm_firehose_tracer_go.Prelude.{
  ℕ, ◌+◌, ◌≤◌, ◌<◌, ◌≡◌, List, arith, ◌∷◌, [], inl, inr, length, u64_mod,
}
use evm_firehose_tracer_go.External.{External}
use evm_firehose_tracer_go.Hooks.{
  Hook, tx_start, tx_end, call_enter, call_exit, balance_change, nonce_change, code_change,
  storage_change, log, opcode, opcode_fault, keccak_preimage, system_call_start, system_call_end,
  step, run,
}
use evm_firehose_tracer_go.Tracer.State.{Tracer, ok, Result-cases}
use evm_firehose_tracer_go.Ordinals.{occurs}
use evm_firehose_tracer_go.Ordinals.Growth
use evm_firehose_tracer_go.Ordinals.Growth.{Grows, HasRoom, between, Grows-of_eq}
use evm_firehose_tracer_go.Ordinals.Transactions

-- No ordinal occurs twice, and none occurs that was not given out yet.
pub record AreFresh (t : Tracer) : Type 0 where
  pub unique : (k : ℕ) → 0 < k → occurs k t ≤ 1
  pub unused : (k : ℕ) → t.block_ordinal.value < k → occurs k t ≡ 0

Grows-AreFresh : {t u : Tracer} → Grows t u → AreFresh t → AreFresh u
Grows-AreFresh {t} g f = record {
  unique = λ k h. ground (arith, g.recorded k h, f.unique k h, f.unused k);
  unused = λ k h. ground (arith, g.recorded k, g.from_old, f.unused k);
}

module _ (ext : External) where
  step-Grows : (h : Hook) (t u : Tracer) → HasRoom t → step ext h t ≡ ok u → Grows t u
  unfolding step
  step-Grows (tx_start event reader) t u room e =
      Transactions.on_tx_start-Grows t u room ext event reader e
  step-Grows (tx_end receipt) t u room e = Transactions.on_tx_end-Grows receipt t u room e
  step-Grows (call_enter depth typ from to input gas value) t u room e =
      Growth.on_call_enter-Grows t u room depth typ from to input gas value e
  step-Grows (call_exit output gas_used err reverted) t u room e =
      Growth.on_call_exit-Grows t u room output gas_used err reverted e
  step-Grows (balance_change addr old new reason) t u room e =
      Growth.on_balance_change-Grows t u room addr old new reason e
  step-Grows (nonce_change addr old new) t u room e =
      Growth.on_nonce_change-Grows t u room addr old new e
  step-Grows (code_change addr prev_hash new_hash old new) t u room e =
      Growth.on_code_change-Grows t u room addr prev_hash new_hash old new e
  step-Grows (storage_change addr slot old new) t u room e =
      Growth.on_storage_change-Grows t u room addr slot old new e
  step-Grows (log addr topics payload block_index) t u room e =
      Growth.on_log-Grows t u room addr topics payload block_index e
  step-Grows (opcode op err) t u room e =
      subst (Grows t) (ground arith) (Growth.on_opcode-Grows t u room op err)
  step-Grows opcode_fault t u room e =
      subst (Grows t) (ground arith) (Growth.on_opcode_fault-Grows t u room)
  step-Grows (keccak_preimage hash preimage) t u room e =
      Growth.on_keccak_preimage-Grows t u room hash preimage e
  step-Grows system_call_start t u room e = Transactions.on_system_call_start-Grows t u room e
  step-Grows system_call_end t u room e = Transactions.on_system_call_end-Grows t u room e

  -- The recorded ordinals stay distinct and within what was given out, and each hook gives out at
  -- most one.
  pub run-AreFresh :
      (hooks : List Hook) (t u : Tracer)
      → t.block_ordinal.value + length hooks < u64_mod
      → AreFresh t
      → run ext hooks t ≡ ok u
      → AreFresh u × (u.block_ordinal.value ≤ t.block_ordinal.value + length hooks)
  unfolding run
  run-AreFresh [] t u room f e = (subst AreFresh (ground arith) f, ground arith)
  run-AreFresh (h ∷ hs) t u room f e = elim (Result-cases (step ext h t)) [
    | inr (p, failed) ↦ absurd (ground arith)
    | inl (v, stepped) ↦
        let g = step-Grows h t v (omega arith) stepped in
        let rest =
          run-AreFresh hs v u (omega (arith, g.at_most_one)) (Grows-AreFresh g f) (ground arith) in
        (rest.0, omega (arith, g.at_most_one, rest.1))
  ]
