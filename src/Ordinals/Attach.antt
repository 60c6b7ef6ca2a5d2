-- ===== src/Ordinals/Attach.antt =====
-- Attaching a change records its ordinal once, and moves no other.
use evm_firehose_tracer_go.Prelude.{ℕ, ◌+◌, ◌≤◌, ◌≡◌, some, arith, total-append, String}
use evm_firehose_tracer_go.Pb.{BalanceChange, NonceChange, CodeChange, StorageChange, Log, Call}
use evm_firehose_tracer_go.Deferred.{
  DeferredCallState, prepend, append, maybe_populate_call_and_reset,
}
use evm_firehose_tracer_go.Tracer.State.{Tracer, ok}
use evm_firehose_tracer_go.Tracer.Changes.{
  attach_balance_change, attach_nonce_change, attach_code_change, attach_storage_change, attach_log,
}
use evm_firehose_tracer_go.Ordinals.{hit, occurs_in_call, occurs_in_deferred, occurs}

module _ (k : ℕ) where
  pub occurs-attach_nonce_change :
      (change : NonceChange) (t : Tracer)
      → occurs k (attach_nonce_change change t) ≡ occurs k t + hit k change.ordinal
  unfolding occurs attach_nonce_change
  occurs-attach_nonce_change change t = grind (arith, total-append)

  pub occurs-attach_storage_change :
      (change : StorageChange) (t : Tracer)
      → occurs k (attach_storage_change change t) ≡ occurs k t + hit k change.ordinal
  unfolding occurs attach_storage_change
  occurs-attach_storage_change change t = grind (arith, total-append)

  pub occurs-attach_log :
      (log : Log) (t : Tracer) → occurs k (attach_log log t) ≡ occurs k t + hit k log.ordinal
  unfolding occurs attach_log
  occurs-attach_log log t = grind (arith, total-append)

  pub occurs-attach_balance_change :
      (change : BalanceChange) (t u : Tracer)
      → attach_balance_change change t ≡ ok u
      → occurs k u ≡ occurs k t + hit k change.ordinal
  unfolding occurs attach_balance_change
  occurs-attach_balance_change change t u e = grind (arith, total-append)

  pub occurs-attach_code_change :
      (change : CodeChange) (t u : Tracer)
      → attach_code_change change t ≡ ok u
      → occurs k u ≤ occurs k t + hit k change.ordinal
  unfolding occurs attach_code_change
  occurs-attach_code_change change t u e = grind (arith, total-append)

  pub occurs-prepend :
      (d : DeferredCallState) (c : Call)
      → occurs_in_call k (prepend d c) ≡ occurs_in_call k c + occurs_in_deferred k d
  unfolding occurs_in_call occurs_in_deferred prepend
  occurs-prepend d c = grind (arith, total-append)

  pub occurs-append :
      (d : DeferredCallState) (c : Call)
      → occurs_in_call k (append d c) ≡ occurs_in_call k c + occurs_in_deferred k d
  unfolding occurs_in_call occurs_in_deferred append
  occurs-append d c = grind (arith, total-append)

  -- Populating a call moves the deferred ordinals into it.
  pub occurs-maybe_populate_call_and_reset :
      (source : String) (d d' : DeferredCallState) (c c' : Call)
      → maybe_populate_call_and_reset source d c ≡ some (c', d')
      → occurs_in_call k c' + occurs_in_deferred k d' ≡ occurs_in_call k c + occurs_in_deferred k d
  unfolding maybe_populate_call_and_reset occurs_in_deferred
  occurs-maybe_populate_call_and_reset source d d' c c' e =
      ground (arith, occurs-prepend d c, occurs-append d c)
