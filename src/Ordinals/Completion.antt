-- ===== src/Ordinals/Completion.antt =====
-- Ending a transaction keeps the ordinals of its calls: sorting, the deferred changes, the
-- preimages, the reverted marks and the receipt move or repeat them and make no new one.
use evm_firehose_tracer_go.Prelude.{
  ℕ, Bool, ◌+◌, ◌≡◌, refl, Option, some, none, List, arith, total-append, total-map_eq, ◌∷◌, [],
  ◌++◌, inl, inr, map, ◌∙◌, ◌||◌, Bool-cases, if◌then◌else◌,
}
use evm_firehose_tracer_go.Prelude.Bytes.{Bytes}
use evm_firehose_tracer_go.Pb.{Call, Log, TransactionTrace}
use evm_firehose_tracer_go.Types.{ReceiptData}
use evm_firehose_tracer_go.Config.{Config}
use evm_firehose_tracer_go.Deferred.{DeferredCallState}
use evm_firehose_tracer_go.Keccak.{
  RecordedPreimage, attach_storage_slot_preimages, attach_kept, modify_by_index, add_preimage,
  contains, storage_slot_hashes,
}
use evm_firehose_tracer_go.Tracer.State.{Tracer, ok, Result-cases}
use evm_firehose_tracer_go.Tracer.Completion.{
  is_never_reverted, populate_loop, populate_state_reverted, parent_state_reverted,
  remove_block_index, assign_ordinal_and_index_to_receipt_logs, populate_on_end, finish_transaction,
  populate_receipt, discard_uncommitted_set_code_authorizations, final_status,
}
use evm_firehose_tracer_go.Ordinals.{log_hit, occurs_in_call, occurs_in_calls, occurs_in_deferred}
use evm_firehose_tracer_go.Ordinals.Attach.{occurs-maybe_populate_call_and_reset}

module _ (k : ℕ) where
  occurs-add_preimage :
      (r : RecordedPreimage) (c : Call) → occurs_in_call k (add_preimage r c) ≡ occurs_in_call k c
  unfolding add_preimage occurs_in_call
  occurs-add_preimage r c = refl

  occurs-modify_by_index :
      (i : ℕ) (r : RecordedPreimage) (cs : List Call)
      → occurs_in_calls k (modify_by_index i (add_preimage r) cs) ≡ occurs_in_calls k cs
  unfolding modify_by_index
  occurs-modify_by_index i r [] = refl
  occurs-modify_by_index i r (c ∷ cs) =
      ground (arith, occurs-modify_by_index i r cs, occurs-add_preimage r c)

  occurs-attach_kept :
      (kept : List Bytes) (rs : List RecordedPreimage) (cs : List Call)
      → occurs_in_calls k (attach_kept kept rs cs) ≡ occurs_in_calls k cs
  unfolding attach_kept
  occurs-attach_kept kept [] cs = refl
  occurs-attach_kept kept (r ∷ rs) cs = elim (Bool-cases (contains kept r.hash)) [
    | inl e ↦ rw e (
        occurs-attach_kept kept rs (modify_by_index r.call_index (add_preimage r) cs)
        ∙ occurs-modify_by_index r.call_index r cs)
    | inr e ↦ rw e (occurs-attach_kept kept rs cs)
  ]

  pub occurs-attach_storage_slot_preimages :
      (cs : List Call) (rs : List RecordedPreimage)
      → occurs_in_calls k (attach_storage_slot_preimages cs rs) ≡ occurs_in_calls k cs
  unfolding attach_storage_slot_preimages
  occurs-attach_storage_slot_preimages cs rs =
      ground (arith, occurs-attach_kept (storage_slot_hashes cs rs) rs cs)

  occurs-mark :
      (b : Bool) (c : Call)
      → occurs_in_call k (record c { state_reverted = b }) ≡ occurs_in_call k c
  unfolding occurs_in_call
  occurs-mark b c = refl

  occurs-populate_loop :
      (visited rest out : List Call)
      → populate_loop visited rest ≡ ok out
      → occurs_in_calls k out ≡ occurs_in_calls k visited + occurs_in_calls k rest
  unfolding populate_loop
  occurs-populate_loop visited [] out e = ground arith
  occurs-populate_loop visited (c ∷ rest) out e =
      elim (Result-cases (parent_state_reverted (visited ++ c ∷ rest) c.parent_index)) [
        | inl (above, found) ↦
            let marked : Call = record c { state_reverted = above || c.status_failed } in
            ground (
              arith,
              found,
              occurs-mark (above || c.status_failed) c,
              total-append (occurs_in_call k) visited (marked ∷ []),
              occurs-populate_loop (visited ++ marked ∷ []) rest out,
            )
        | inr (p, failed) ↦ ground arith
      ]

  occurs-remove_block_index :
      (config : Config) (c : Call)
      → occurs_in_call k (remove_block_index config c) ≡ occurs_in_call k c
  unfolding remove_block_index occurs_in_call
  occurs-remove_block_index config c = ground (
    arith,
    total-map_eq (log_hit k)
        (λ (log : Log).
          if is_never_reverted config log then log else record log { block_index = 0 })
        (λ log. ground arith) c.logs,
  )

  occurs-map-remove_block_index :
      (config : Config) (cs : List Call)
      → occurs_in_calls k (map (remove_block_index config) cs) ≡ occurs_in_calls k cs
  occurs-map-remove_block_index config cs =
      total-map_eq (occurs_in_call k) (remove_block_index config) (occurs-remove_block_index config)
        cs

  occurs-populate_state_reverted :
      (cs out : List Call)
      → populate_state_reverted cs ≡ ok out
      → occurs_in_calls k out ≡ occurs_in_calls k cs
  unfolding populate_state_reverted
  occurs-populate_state_reverted cs out e = omega (arith, occurs-populate_loop [] cs out e)

  occurs-populate_on_end :
      (d d' : DeferredCallState) (c c' : Call)
      → populate_on_end d c ≡ ok (c', d')
      → occurs_in_call k c' + occurs_in_deferred k d' ≡ occurs_in_call k c + occurs_in_deferred k d
  unfolding populate_on_end
  occurs-populate_on_end d d' c c' e =
      ground (arith, occurs-maybe_populate_call_and_reset k "root" d d' c c')

  begin-populate_receipt :
      (receipt : Option ReceiptData) (trx : TransactionTrace)
      → (populate_receipt receipt trx).begin_ordinal ≡ trx.begin_ordinal
  unfolding populate_receipt
  begin-populate_receipt none trx = refl
  begin-populate_receipt (some receipt) trx = refl

  begin-discard :
      (root : Call) (trx : TransactionTrace)
      → (discard_uncommitted_set_code_authorizations root trx).begin_ordinal ≡ trx.begin_ordinal
  unfolding discard_uncommitted_set_code_authorizations
  begin-discard root trx = refl

  assign_keeps_calls :
      (config : Config) (trx trx' : TransactionTrace)
      → assign_ordinal_and_index_to_receipt_logs config trx ≡ ok trx'
      → (trx'.begin_ordinal ≡ trx.begin_ordinal) × (trx'.calls ≡ trx.calls)
  unfolding assign_ordinal_and_index_to_receipt_logs
  assign_keeps_calls config trx trx' e = ground arith

  -- What a transaction with calls holds in the end, it held before, with what was deferred.
  pub occurs-finish_transaction :
      (config : Config) (cs : List Call) (trx trx' : TransactionTrace) (d d' : DeferredCallState)
      (t : Tracer) (receipt : Option ReceiptData)
      → finish_transaction config cs trx d t receipt ≡ ok (trx', d')
      → (trx'.begin_ordinal ≡ trx.begin_ordinal)
        × (occurs_in_calls k trx'.calls + occurs_in_deferred k d'
            ≡ occurs_in_calls k cs + occurs_in_deferred k d)
  unfolding finish_transaction
  occurs-finish_transaction config [] trx trx' d d' t receipt e = cc
  occurs-finish_transaction config (root ∷ others) trx trx' d d' t receipt e =
      elim (Result-cases (populate_on_end d root)) [
        | inr (p, failed) ↦ ground arith
        | inl (r, populated) ↦
            let calls =
              attach_storage_slot_preimages (r.0 ∷ others) t.transaction_keccak_preimages in
            elim (Result-cases (populate_state_reverted calls)) [
              | inr (p, failed) ↦ ground arith
              | inl (marked, walked) ↦
                  let received =
                    populate_receipt receipt
                      (discard_uncommitted_set_code_authorizations root trx) in
                  ground (
                    arith,
                    occurs-populate_on_end d r.1 root r.0 populated,
                    occurs-attach_storage_slot_preimages (r.0 ∷ others)
                        t.transaction_keccak_preimages,
                    occurs-populate_state_reverted calls marked walked,
                    occurs-map-remove_block_index config marked,
                    begin-populate_receipt receipt
                        (discard_uncommitted_set_code_authorizations root trx),
                    begin-discard root trx,
                    assign_keeps_calls config
                        (record received {
                          status = final_status r.0 received.status;
                          return_data = r.0.return_data;
                          calls = map (remove_block_index config) marked;
                        })
                        trx',
                  )
            ]
      ]
