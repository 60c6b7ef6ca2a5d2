-- ===== src/Protocol/Changes.antt =====
-- Changes while a transaction is traced: they never panic, and leave the calls as they were.
use evm_firehose_tracer_go.Prelude.{ℕ, ◌≡◌, ◌≢◌, refl, List, Option, arith, inl, inr}
use evm_firehose_tracer_go.Prelude.Int.{ℤ}
use evm_firehose_tracer_go.Prelude.Bytes.{Bytes}
use evm_firehose_tracer_go.Pb.{BalanceChangeReason}
use evm_firehose_tracer_go.Types.GoError.{GoError}
use evm_firehose_tracer_go.External.{External}
use evm_firehose_tracer_go.Hooks.{step}
use evm_firehose_tracer_go.Tracer.State.{Tracer, Result, Panic, ok, panic, Result-cases}
use evm_firehose_tracer_go.Tracer.Changes.{
  on_balance_change, on_nonce_change, on_code_change, on_storage_change, on_log, attach_code_change,
}
use evm_firehose_tracer_go.Tracer.Calls.{on_opcode, on_opcode_fault}
use evm_firehose_tracer_go.Protocol.{
  Change, balance, nonce, code, storage, logs, runs, faults, change_hook, IsTracing,
}

-- A result that is not a panic, and leaves `n` active calls.
abbrev pub Traces : Tracer → ℕ → Result Tracer → Type 0
Traces s n m = (u : Tracer) × (m ≡ ok u) × IsTracing s n u

pub Traces-of :
    (s : Tracer) (n : ℕ) (m : Result Tracer)
    → ((p : Panic) → m ≢ panic p)
    → ((u : Tracer) → m ≡ ok u → IsTracing s n u)
    → Traces s n m
Traces-of s n m safe keeps = elim (Result-cases m) [
  | inl (u, e) ↦ (u, e, keeps u e)
  | inr (p, e) ↦ absurd (safe p e)
]

module _ (s : Tracer) (n : ℕ) (t : Tracer) (h : IsTracing s n t) where
  on_nonce_change-Traces :
      (addr : Bytes) (old new : ℕ) → Traces s n (on_nonce_change addr old new t)
  unfolding on_nonce_change
  on_nonce_change-Traces addr old new =
      Traces-of s n (on_nonce_change addr old new t) (λ p e. ground (arith, h))
        (λ u e. ground (arith, h))

  on_balance_change-Traces :
      (addr : Bytes) (old new : Option ℤ) (reason : BalanceChangeReason)
      → Traces s n (on_balance_change addr old new reason t)
  unfolding on_balance_change
  on_balance_change-Traces addr old new reason =
      Traces-of s n (on_balance_change addr old new reason t) (λ p e. ground (arith, h))
        (λ u e. ground (arith, h))

  on_code_change-Traces :
      (addr prev_hash new_hash old new : Bytes)
      → Traces s n (on_code_change addr prev_hash new_hash old new t)
  unfolding on_code_change attach_code_change
  on_code_change-Traces addr prev_hash new_hash old new =
      Traces-of s n (on_code_change addr prev_hash new_hash old new t) (λ p e. ground (arith, h))
        (λ u e. ground (arith, h))

  on_storage_change-Traces :
      (addr slot old new : Bytes) → Traces s n (on_storage_change addr slot old new t)
  unfolding on_storage_change
  on_storage_change-Traces addr slot old new =
      Traces-of s n (on_storage_change addr slot old new t) (λ p e. ground (arith, h))
        (λ u e. ground (arith, h))

  on_log-Traces :
      (addr : Bytes) (topics : List Bytes) (payload : Bytes) (block_index : ℕ)
      → Traces s n (on_log addr topics payload block_index t)
  unfolding on_log
  on_log-Traces addr topics payload block_index =
      Traces-of s n (on_log addr topics payload block_index t) (λ p e. ground (arith, h))
        (λ u e. ground (arith, h))

  on_opcode-IsTracing : (op : ℕ) (err : Option GoError) → IsTracing s n (on_opcode op err t)
  unfolding on_opcode
  on_opcode-IsTracing op err = ground (arith, h)

  on_opcode_fault-IsTracing : IsTracing s n (on_opcode_fault t)
  unfolding on_opcode_fault
  on_opcode_fault-IsTracing = ground (arith, h)

  pub change-Traces : (ext : External) (c : Change) → Traces s n (step ext (change_hook c) t)
  unfolding step
  change-Traces ext (balance addr old new reason) = on_balance_change-Traces addr old new reason
  change-Traces ext (nonce addr old new) = on_nonce_change-Traces addr old new
  change-Traces ext (code addr prev_hash new_hash old new) =
      on_code_change-Traces addr prev_hash new_hash old new
  change-Traces ext (storage addr slot old new) = on_storage_change-Traces addr slot old new
  change-Traces ext (logs addr topics payload block_index) =
      on_log-Traces addr topics payload block_index
  change-Traces ext (runs op err) = (on_opcode op err t, refl, on_opcode-IsTracing op err)
  change-Traces ext faults = (on_opcode_fault t, refl, on_opcode_fault-IsTracing)
