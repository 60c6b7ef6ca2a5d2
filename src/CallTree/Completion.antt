-- ===== src/CallTree/Completion.antt =====
-- The end of a transaction sorts its calls and changes no shape.
use evm_firehose_tracer_go.Prelude.{
  ℕ, ◌≡◌, refl, ap, ◌∙◌, List, [], ◌∷◌, ◌++◌, Option, some, map, arith, inl, inr, map-append,
  map-map_eq, Bool-cases, Option-cases, if◌then◌else◌, ◌||◌, ◌&&◌, not, is_some, is_empty,
  append_assoc, append-nil,
}
use evm_firehose_tracer_go.Prelude.Sort.{sort_by, insert_by}
use evm_firehose_tracer_go.Prelude.Bytes.{Bytes}
use evm_firehose_tracer_go.Pb.{Call, TransactionTrace}
use evm_firehose_tracer_go.Types.{ReceiptData}
use evm_firehose_tracer_go.Config.{Config}
use evm_firehose_tracer_go.Deferred.{DeferredCallState, maybe_populate_call_and_reset}
use evm_firehose_tracer_go.Keccak.{
  RecordedPreimage, attach_storage_slot_preimages, attach_kept, modify_by_index, add_preimage,
  contains, storage_slot_hashes,
}
use evm_firehose_tracer_go.Tracer.State.{Tracer, ok, Result-cases}
use evm_firehose_tracer_go.Tracer.Completion.{
  call_index, populate_loop, populate_state_reverted, parent_state_reverted, remove_block_index,
  assign_ordinal_and_index_to_receipt_logs, populate_on_end, finish_transaction, populate_receipt,
  discard_uncommitted_set_code_authorizations, final_status, end_without_calls, end_with_calls,
  complete_transaction, store_trace, drop_transaction, end_transaction, on_tx_end,
}
use evm_firehose_tracer_go.CallTree.Machine.{guards, with_current, sorted_tree, end_tree}
use evm_firehose_tracer_go.CallTree.{shape, shape_index, view, empty}

shape-insert_by :
    (c : Call) (cs : List Call)
    → map shape (insert_by call_index c cs) ≡ insert_by shape_index (shape c) (map shape cs)
unfolding insert_by
shape-insert_by c [] = refl
shape-insert_by c (x ∷ cs) = ground (arith, shape-insert_by c cs)

pub shape-sort_by :
    (cs : List Call) → map shape (sort_by call_index cs) ≡ sort_by shape_index (map shape cs)
unfolding sort_by
shape-sort_by [] = refl
shape-sort_by (c ∷ cs) =
    shape-insert_by c (sort_by call_index cs)
    ∙ ap (insert_by shape_index (shape c)) (shape-sort_by cs)

shape-add_preimage : (r : RecordedPreimage) (c : Call) → shape (add_preimage r c) ≡ shape c
unfolding add_preimage
shape-add_preimage r c = refl

shape-modify_by_index :
    (i : ℕ) (r : RecordedPreimage) (cs : List Call)
    → map shape (modify_by_index i (add_preimage r) cs) ≡ map shape cs
unfolding modify_by_index
shape-modify_by_index i r [] = refl
shape-modify_by_index i r (c ∷ cs) =
    ground (arith, shape-modify_by_index i r cs, shape-add_preimage r c)

shape-attach_kept :
    (kept : List Bytes) (rs : List RecordedPreimage) (cs : List Call)
    → map shape (attach_kept kept rs cs) ≡ map shape cs
unfolding attach_kept
shape-attach_kept kept [] cs = refl
shape-attach_kept kept (r ∷ rs) cs = elim (Bool-cases (contains kept r.hash)) [
  | inl e ↦ rw e (
      shape-attach_kept kept rs (modify_by_index r.call_index (add_preimage r) cs)
      ∙ shape-modify_by_index r.call_index r cs)
  | inr e ↦ rw e (shape-attach_kept kept rs cs)
]

pub shape-attach_storage_slot_preimages :
    (cs : List Call) (rs : List RecordedPreimage)
    → map shape (attach_storage_slot_preimages cs rs) ≡ map shape cs
unfolding attach_storage_slot_preimages
shape-attach_storage_slot_preimages cs rs =
    ground (arith, shape-attach_kept (storage_slot_hashes cs rs) rs cs)

shape-populate_loop :
    (visited rest out : List Call)
    → populate_loop visited rest ≡ ok out
    → map shape out ≡ map shape visited ++ map shape rest
unfolding populate_loop
shape-populate_loop visited [] out e = ground (arith, append-nil (map shape visited))
shape-populate_loop visited (c ∷ rest) out e =
    elim (Result-cases (parent_state_reverted (visited ++ c ∷ rest) c.parent_index)) [
      | inl (above, found) ↦
          let marked : Call = record c { state_reverted = above || c.status_failed } in
          shape-populate_loop (visited ++ marked ∷ []) rest out (ground arith)
          ∙ ap (λ ss. ss ++ map shape rest) (map-append shape visited (marked ∷ []))
          ∙ append_assoc (map shape visited) (shape c ∷ []) (map shape rest)
      | inr (p, failed) ↦ absurd (ground arith)
    ]

shape-remove_block_index :
    (config : Config) (c : Call) → shape (remove_block_index config c) ≡ shape c
unfolding remove_block_index
shape-remove_block_index config c = ground arith

pub shape-populate_on_end :
    (d d' : DeferredCallState) (c c' : Call)
    → populate_on_end d c ≡ ok (c', d')
    → shape c' ≡ shape c
unfolding populate_on_end maybe_populate_call_and_reset
shape-populate_on_end d d' c c' e = ground arith

shape-populate_state_reverted :
    (cs out : List Call) → populate_state_reverted cs ≡ ok out → map shape out ≡ map shape cs
unfolding populate_state_reverted
shape-populate_state_reverted cs out e = shape-populate_loop [] cs out e

assign_keeps_calls :
    (config : Config) (trx trx' : TransactionTrace)
    → assign_ordinal_and_index_to_receipt_logs config trx ≡ ok trx'
    → trx'.calls ≡ trx.calls
unfolding assign_ordinal_and_index_to_receipt_logs
assign_keeps_calls config trx trx' e = ground arith

-- The calls of the finished trace have the shapes of the sorted calls, in their order.
pub shape-finish_transaction :
    (config : Config) (cs : List Call) (trx trx' : TransactionTrace) (d d' : DeferredCallState)
    (t : Tracer) (receipt : Option ReceiptData)
    → finish_transaction config cs trx d t receipt ≡ ok (trx', d')
    → map shape trx'.calls ≡ map shape cs
unfolding finish_transaction
shape-finish_transaction config [] trx trx' d d' t receipt e = cc
shape-finish_transaction config (root ∷ others) trx trx' d d' t receipt e =
    elim (Result-cases (populate_on_end d root)) [
      | inr (p, failed) ↦ absurd (ground arith)
      | inl (r, populated) ↦
          let calls = attach_storage_slot_preimages (r.0 ∷ others) t.transaction_keccak_preimages in
          elim (Result-cases (populate_state_reverted calls)) [
            | inr (p, failed) ↦ absurd (ground arith)
            | inl (marked, walked) ↦
                let received =
                  populate_receipt receipt (discard_uncommitted_set_code_authorizations root trx) in
                let final : TransactionTrace = record received {
                  status = final_status r.0 received.status;
                  return_data = r.0.return_data;
                  calls = map (remove_block_index config) marked;
                } in
                ap (map shape) (assign_keeps_calls config final trx' (ground arith))
                ∙ map-map_eq shape (remove_block_index config) (shape-remove_block_index config)
                    marked
                ∙ shape-populate_state_reverted calls marked walked
                ∙ shape-attach_storage_slot_preimages (r.0 ∷ others) t.transaction_keccak_preimages
                ∙ ap (λ s. s ∷ map shape others) (shape-populate_on_end d r.1 root r.0 populated)
          ]
    ]

-- The state after a completion holds the trace, and its tree is sorted.
complete_transaction_tree :
    (receipt : Option ReceiptData) (trx trace : TransactionTrace) (t u : Tracer)
    → t.transaction ≡ some trx
    → complete_transaction receipt trx t ≡ ok (trace, u)
    → (view u ≡ record (view t) {
      current = record (view t).current { done = sort_by shape_index (view t).current.done };
    })
      × (u.transaction_isolated ≡ t.transaction_isolated)
unfolding complete_transaction end_without_calls end_with_calls sort_by
complete_transaction_tree receipt trx trace t u h e = elim (Bool-cases (is_empty trx.calls)) [
  | inl bare ↦ ground arith
  | inr called ↦
      let sorted = sort_by call_index trx.calls in
      elim (Result-cases (finish_transaction t.config sorted trx t.deferred_call_state t receipt)) [
        | inr (p, failed) ↦ absurd (ground arith)
        | inl (r, finished) ↦ ground (
          arith,
          shape-sort_by trx.calls,
          shape-finish_transaction t.config sorted trx r.0 t.deferred_call_state r.1 t receipt
              finished,
        )
      ]
]

store_trace_tree :
    (trace : TransactionTrace) (t u : Tracer)
    → store_trace trace t ≡ ok u
    → view u ≡ (if t.transaction_isolated then view t else with_current (view t) empty)
unfolding store_trace
store_trace_tree trace t u e = ground arith

end_transaction_tree :
    (receipt : Option ReceiptData) (t u : Tracer)
    → end_transaction receipt t ≡ ok u
    → view u ≡ (
        if t.transaction_isolated
        then with_current (view t) (sorted_tree (view t).current)
        else with_current (view t) empty)
unfolding end_transaction
end_transaction_tree receipt t u e = elim (Option-cases t.transaction) [
  | inl absent ↦ absurd (ground arith)
  | inr (trx, present) ↦ elim (Result-cases (complete_transaction receipt trx t)) [
    | inr (p, failed) ↦ absurd (ground arith)
    | inl (r, completed) ↦
        let (sorted, same) = complete_transaction_tree receipt trx r.0 t r.1 present completed in
        let stored : view u
            ≡ (if r.1.transaction_isolated then view r.1 else with_current (view r.1) empty) =
          store_trace_tree r.0 r.1 u (ground arith) in
        elim (Bool-cases t.transaction_isolated) [
          | inl isolated ↦ rw isolated (stored ∙ rw (same, isolated) sorted)
          | inr direct ↦
              rw direct (stored ∙ rw (same, direct) (ap (λ v. with_current v empty) sorted))
        ]
  ]
]

pub on_tx_end_tree :
    (receipt : Option ReceiptData) (t u : Tracer)
    → on_tx_end receipt t ≡ ok u
    → view u ≡ end_tree (is_some receipt) (guards t) (view t)
unfolding on_tx_end drop_transaction
on_tx_end_tree receipt t u e =
    elim (Bool-cases (not (is_some receipt) && t.config.drop_transactions_without_receipt)) [
      | inr kept ↦ rw kept (end_transaction_tree receipt t u (ground arith))
      | inl dropped ↦ elim (Bool-cases t.transaction_isolated) [
        | inl isolated ↦ ground arith
        | inr direct ↦ ground arith
      ]
    ]
