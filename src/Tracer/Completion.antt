-- ===== src/Tracer/Completion.antt =====
-- tracer.go: the end of a transaction. Its calls are sorted, the deferred changes and the receipt
-- are attached, reverted state is marked, and the receipt's logs get their ordinals.
use evm_firehose_tracer_go.Prelude.{
  ℕ, zero, suc, ◌+◌, Bool, true, false, not, ◌&&◌, ◌||◌, List, [], ◌∷◌, ◌++◌, Option, none, some,
  map, length, is_empty, is_some, keep_if, get_elem?, u64, ◌==◌, if◌then◌else◌,
}
use evm_firehose_tracer_go.Prelude.Bytes.{Bytes, bytes_eq}
use evm_firehose_tracer_go.Prelude.Sort.{sort_by}
use evm_firehose_tracer_go.Pb.{
  Call, Log, NonceChange, SetCodeAuthorization, TransactionReceipt, TransactionTrace,
  TransactionTraceStatus, succeeded, failed, reverted,
}
use evm_firehose_tracer_go.Types.{ReceiptData, LogData}
use evm_firehose_tracer_go.Types.BigInt.{big_int_to_protobuf}
use evm_firehose_tracer_go.Config.{Config}
use evm_firehose_tracer_go.Keccak.{attach_storage_slot_preimages}
use evm_firehose_tracer_go.Deferred.{
  DeferredCallState, has_call_only_changes, is_empty_state, maybe_populate_call_and_reset,
}
use evm_firehose_tracer_go.Tracer.State.{
  Tracer, Result, ok, panic, ◌>>=◌, ◌>>◌, guard, require, call_only_changes, deferred_source,
  log_count_mismatch, block_index_mismatch, index_out_of_range, nil_pointer, tick,
  reset_transaction, modify_block, ensure_in_block_and_in_trx,
}

abbrev pub call_index : Call → ℕ
call_index c = c.index

abbrev pub log_ordinal : Log → ℕ
log_ordinal l = l.ordinal

-- `usedNonceChange[i]`
unfoldable pub used_before : List ℕ → ℕ → Bool
used_before [] i = false
used_before (u ∷ us) i = if u == i then true else used_before us i

-- The loop over the nonce changes: the first free one at position `i` or later that matches.
unfoldable pub find_nonce_change : Bytes → ℕ → List ℕ → ℕ → List NonceChange → Option ℕ
unfolding used_before
find_nonce_change authority nonce used i [] = none
find_nonce_change authority nonce used i (c ∷ cs) =
    if c.old_value == nonce
      && c.new_value == u64 (nonce + 1)
      && bytes_eq c.address authority
      && not (used_before used i)
    then some i
    else find_nonce_change authority nonce used (i + 1) cs

-- An authorization that no free nonce change answers is discarded.
unfoldable pub discard_uncommitted :
    List NonceChange → List ℕ → List SetCodeAuthorization → List SetCodeAuthorization
unfolding find_nonce_change
discard_uncommitted changes used [] = []
discard_uncommitted changes used (auth ∷ auths) = elim (is_empty auth.authority) [
  | true ↦ record auth { discarded = true } ∷ discard_uncommitted changes used auths
  | false ↦ elim (find_nonce_change auth.authority auth.nonce used 0 changes) [
    | none ↦ record auth { discarded = true } ∷ discard_uncommitted changes used auths
    | some i ↦ auth ∷ discard_uncommitted changes (i ∷ used) auths
  ]
]

unfoldable pub discard_uncommitted_set_code_authorizations :
    Call → TransactionTrace → TransactionTrace
unfolding discard_uncommitted
discard_uncommitted_set_code_authorizations root trx = record trx {
  set_code_authorizations = discard_uncommitted root.nonce_changes [] trx.set_code_authorizations;
}

unfoldable pub log_to_proto : LogData → Log
log_to_proto log = record {
  address = log.address;
  topics = log.topics;
  payload = log.payload;
  index = 0;
  block_index = log.block_index;
  ordinal = 0;
}

abbrev pub trx_type_blob : ℕ
trx_type_blob = 3

unfoldable pub new_receipt_from_data : TransactionTrace → ReceiptData → TransactionReceipt
unfolding log_to_proto
new_receipt_from_data trx receipt =
    let is_blob = trx.trx_type == trx_type_blob in
    record {
      state_root = receipt.state_root;
      cumulative_gas_used = receipt.cumulative_gas_used;
      logs_bloom = receipt.logs_bloom;
      logs = map log_to_proto receipt.logs;
      blob_gas_used = if is_blob then some receipt.blob_gas_used else none;
      blob_gas_price = if is_blob then big_int_to_protobuf receipt.blob_gas_price else none;
    }

unfoldable pub populate_receipt : Option ReceiptData → TransactionTrace → TransactionTrace
unfolding new_receipt_from_data
populate_receipt none trx = trx
populate_receipt (some receipt) trx = record trx {
  index = receipt.transaction_index;
  gas_used = receipt.gas_used;
  receipt = some (new_receipt_from_data trx receipt);
  status = if receipt.status == 1 then succeeded else failed;
}

-- The state of the parent among the calls already visited; the walk indexes the slice by
-- `ParentIndex - 1`, and later calls are not marked yet.
unfoldable pub parent_state_reverted : List Call → ℕ → Result Bool
parent_state_reverted calls zero = ok false
parent_state_reverted calls (suc i) = do
  parent ← require (get_elem? calls i) index_out_of_range
  ok parent.state_reverted

-- `visited` are the calls before the current one with their marks, `rest` the ones still to do.
unfoldable pub populate_loop : List Call → List Call → Result (List Call)
unfolding parent_state_reverted
populate_loop visited [] = ok visited
populate_loop visited (call ∷ rest) =
    elim (parent_state_reverted (visited ++ call ∷ rest) call.parent_index) [
      | panic p ↦ panic p
      | ok above ↦
          populate_loop
            (visited ++ record call { state_reverted = above || call.status_failed } ∷ []) rest
    ]

unfoldable pub populate_state_reverted : List Call → Result (List Call)
populate_state_reverted calls = populate_loop [] calls

unfoldable pub is_never_reverted : Config → Log → Bool
is_never_reverted config log = elim config.is_never_reverted_log [
  | none ↦ false
  | some test ↦ test log
]

unfoldable pub remove_block_index : Config → Call → Call
unfolding is_never_reverted
remove_block_index config call =
    if call.state_reverted
    then record call {
      logs =
          map (λ log. if is_never_reverted config log then log else record log { block_index = 0 })
            call.logs;
    }
    else call

-- The logs that stay in the receipt, call by call.
unfoldable pub surviving_logs : Config → List Call → List Log
unfolding is_never_reverted
surviving_logs config [] = []
surviving_logs config (call ∷ calls) =
    (if call.state_reverted then keep_if (is_never_reverted config) call.logs else call.logs)
    ++ surviving_logs config calls

-- Position by position; the lengths were compared before.
unfoldable pub assign_logs : List Log → List Log → Result (List Log)
assign_logs [] receipt_logs = ok []
assign_logs (c ∷ cs) [] = panic index_out_of_range
assign_logs (c ∷ cs) (r ∷ rs) = do
  guard (c.block_index == r.block_index) block_index_mismatch
  rest ← assign_logs cs rs
  ok (record r { ordinal = c.ordinal; index = c.index } ∷ rest)

abbrev pub receipt_logs : Option TransactionReceipt → List Log
receipt_logs none = []
receipt_logs (some receipt) = receipt.logs

abbrev pub with_logs : List Log → Option TransactionReceipt → Option TransactionReceipt
with_logs logs none = none
with_logs logs (some receipt) = some (record receipt { logs = logs })

unfoldable pub assign_ordinal_and_index_to_receipt_logs :
    Config → TransactionTrace → Result TransactionTrace
assign_ordinal_and_index_to_receipt_logs config trx = do
  let call_logs = sort_by log_ordinal (surviving_logs config trx.calls)
  guard (length call_logs == length (receipt_logs trx.receipt)) log_count_mismatch
  logs ← assign_logs call_logs (receipt_logs trx.receipt)
  ok (record trx { receipt = with_logs logs trx.receipt })

-- The deferred changes that are left go behind those of the root call.
unfoldable pub populate_on_end : DeferredCallState → Call → Result (Call × DeferredCallState)
populate_on_end d root =
    if is_empty_state d
    then ok (root, d)
    else require (maybe_populate_call_and_reset "root" d root) deferred_source

abbrev pub final_status : Call → TransactionTraceStatus → TransactionTraceStatus
final_status root status = if root.status_reverted then reverted else status

-- What happens to a transaction with calls, from its sorted calls on: the trace but for its end
-- ordinal, and the deferred state that is left.
unfoldable pub finish_transaction :
    Config
    → List Call
    → TransactionTrace
    → DeferredCallState
    → Tracer
    → Option ReceiptData
    → Result (TransactionTrace × DeferredCallState)
finish_transaction config [] trx d t receipt = panic index_out_of_range
finish_transaction config (root ∷ others) trx d t receipt = do
  let discarded = discard_uncommitted_set_code_authorizations root trx
  (populated, d') ← populate_on_end d root
  let calls = attach_storage_slot_preimages (populated ∷ others) t.transaction_keccak_preimages
  let received = populate_receipt receipt discarded
  marked ← populate_state_reverted calls
  finished ← assign_ordinal_and_index_to_receipt_logs config (record received {
    status = final_status populated received.status;
    return_data = populated.return_data;
    calls = map (remove_block_index config) marked;
  })
  ok (finished, d')

-- A transaction without calls ends at once.
unfoldable pub end_without_calls : TransactionTrace → Tracer → Result (TransactionTrace × Tracer)
unfolding tick
end_without_calls trx t = do
  guard (not (has_call_only_changes t.deferred_call_state)) call_only_changes
  let ended : TransactionTrace = record trx { end_ordinal = (tick t).block_ordinal.value }
  ok (ended, record (tick t) { transaction = some ended })

unfoldable pub end_with_calls :
    Option ReceiptData → TransactionTrace → Tracer → Result (TransactionTrace × Tracer)
unfolding tick
end_with_calls receipt trx t = do
  (finished, d) ←
      finish_transaction t.config (sort_by call_index trx.calls) trx t.deferred_call_state t receipt
  let ended : TransactionTrace = record finished { end_ordinal = (tick t).block_ordinal.value }
  ok (
    ended,
    record (tick t) {
      transaction = some ended;
      deferred_call_state = d;
      transaction_keccak_preimages = [];
    },
  )

-- The trace that ends here, in the state that is left; the tracer keeps pointing at it.
unfoldable pub complete_transaction :
    Option ReceiptData → TransactionTrace → Tracer → Result (TransactionTrace × Tracer)
complete_transaction receipt trx t =
    if is_empty trx.calls then end_without_calls trx t else end_with_calls receipt trx t

-- Where the trace goes: an isolated tracer holds it until it is committed.
unfoldable pub store_trace : TransactionTrace → Tracer → Result Tracer
unfolding modify_block reset_transaction
store_trace trace t =
    if t.transaction_isolated
    then ok (record t { transaction_transient = some trace })
    else (modify_block (λ b. record b { transaction_traces = b.transaction_traces ++ trace ∷ [] }) t
        >>= λ u. ok (reset_transaction u))

-- A transaction without a receipt is left out, on chains that ask for that.
unfoldable pub drop_transaction : Tracer → Tracer
unfolding reset_transaction
drop_transaction t =
    if t.transaction_isolated then record t { transaction_dropped = true } else reset_transaction t

unfoldable pub end_transaction : Option ReceiptData → Tracer → Result Tracer
end_transaction receipt t = do
  trx ← require t.transaction nil_pointer
  (trace, u) ← complete_transaction receipt trx t
  store_trace trace u

unfoldable pub on_tx_end : Option ReceiptData → Tracer → Result Tracer
unfolding ensure_in_block_and_in_trx
on_tx_end receipt t =
    ensure_in_block_and_in_trx t
    >> (if not (is_some receipt) && t.config.drop_transactions_without_receipt
        then ok (drop_transaction t)
        else end_transaction receipt t)
