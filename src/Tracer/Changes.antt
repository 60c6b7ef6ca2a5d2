-- ===== src/Tracer/Changes.antt =====
-- tracer.go: the hooks that record a state change or a log. A change goes to the active call, or
-- waits for the root call when none is active, or belongs to the block outside a transaction.
use evm_firehose_tracer_go.Prelude.{
  ℕ, ◌+◌, Bool, true, false, not, ◌&&◌, List, [], ◌∷◌, ◌++◌, Option, none, some, u32, is_empty,
  ◌==◌, if◌then◌else◌,
}
use evm_firehose_tracer_go.Prelude.Int.{ℤ}
use evm_firehose_tracer_go.Prelude.Bytes.{Bytes, bytes_eq}
use evm_firehose_tracer_go.Pb.{
  BalanceChange, BalanceChangeReason, NonceChange, CodeChange, StorageChange, Log, Call,
}
use evm_firehose_tracer_go.Types.BigInt.{big_int_equal, big_int_to_protobuf}
use evm_firehose_tracer_go.CallStack.{modify_top, peek}
use evm_firehose_tracer_go.Deferred.{
  add_balance_change, add_nonce_change, add_code_change, add_storage_change, add_log,
}
use evm_firehose_tracer_go.Tracer.State.{
  Tracer, Result, ok, ◌>>◌, tick, modify_block, ensure_in_block_or_trx, ensure_in_block_and_in_trx,
}

abbrev pub is_unknown : BalanceChangeReason → Bool
is_unknown BalanceChangeReason.unknown = true
is_unknown BalanceChangeReason.genesis_balance = false
is_unknown (BalanceChangeReason.other n) = false

abbrev pub on_active_call : (Call → Call) → Tracer → Tracer
on_active_call f t = record t { call_stack = modify_top f t.call_stack }

-- The change is attached where the state says that it belongs.
unfoldable pub attach_balance_change : BalanceChange → Tracer → Result Tracer
unfolding modify_top peek add_balance_change modify_block
attach_balance_change change t = elim t.transaction [
  | some _ ↦ elim (peek t.call_stack) [
    | none ↦ ok (record t { deferred_call_state = add_balance_change change t.deferred_call_state })
    | some _ ↦
        ok (on_active_call (λ c. record c { balance_changes = c.balance_changes ++ change ∷ [] }) t)
  ]
  | none ↦ modify_block (λ b. record b { balance_changes = b.balance_changes ++ change ∷ [] }) t
]

unfoldable pub on_balance_change :
    Bytes → Option ℤ → Option ℤ → BalanceChangeReason → Tracer → Result Tracer
unfolding attach_balance_change ensure_in_block_or_trx tick
on_balance_change addr old_balance new_balance reason t =
    if is_unknown reason then ok t else if big_int_equal old_balance new_balance then ok t else do
      ensure_in_block_or_trx t
      attach_balance_change
          (record {
            address = addr;
            old_value = big_int_to_protobuf old_balance;
            new_value = big_int_to_protobuf new_balance;
            reason = reason;
            ordinal = (tick t).block_ordinal.value;
          })
          (tick t)

unfoldable pub attach_nonce_change : NonceChange → Tracer → Tracer
unfolding modify_top peek add_nonce_change
attach_nonce_change change t = elim (peek t.call_stack) [
  | none ↦ record t { deferred_call_state = add_nonce_change change t.deferred_call_state }
  | some _ ↦ on_active_call (λ c. record c { nonce_changes = c.nonce_changes ++ change ∷ [] }) t
]

unfoldable pub on_nonce_change : Bytes → ℕ → ℕ → Tracer → Result Tracer
unfolding attach_nonce_change ensure_in_block_and_in_trx tick
on_nonce_change addr old_nonce new_nonce t = if old_nonce == new_nonce then ok t else do
  ensure_in_block_and_in_trx t
  ok (
      attach_nonce_change
        (record {
          address = addr;
          old_value = old_nonce;
          new_value = new_nonce;
          ordinal = (tick t).block_ordinal.value;
        })
        (tick t))

-- The change that newCodeChange makes in the state `tick t`.
unfoldable pub new_code_change : Bytes → Bytes → Bytes → Bytes → Bytes → Tracer → CodeChange
unfolding tick
new_code_change addr prev_code_hash old_code new_code_hash new_code t = record {
  address = addr;
  old_hash = prev_code_hash;
  old_code = old_code;
  new_hash = new_code_hash;
  new_code = new_code;
  ordinal = (tick t).block_ordinal.value;
}

-- A self-destruct's own deletion of the code is not recorded.
unfoldable pub code_change_on_call : CodeChange → Call → Tracer → Tracer
unfolding modify_top tick
code_change_on_call change active t =
    if active.suicide && not (is_empty change.old_code) && is_empty change.new_code
    then t
    else on_active_call (λ c. record c { code_changes = c.code_changes ++ change ∷ [] }) (tick t)

unfoldable pub attach_code_change : CodeChange → Tracer → Result Tracer
unfolding peek add_code_change modify_block code_change_on_call tick
attach_code_change change t = elim t.transaction [
  | some _ ↦ elim (peek t.call_stack) [
    | none ↦
        ok (record (tick t) { deferred_call_state = add_code_change change t.deferred_call_state })
    | some active ↦ ok (code_change_on_call change active t)
  ]
  | none ↦ modify_block (λ b. record b { code_changes = b.code_changes ++ change ∷ [] }) (tick t)
]

unfoldable pub on_code_change : Bytes → Bytes → Bytes → Bytes → Bytes → Tracer → Result Tracer
unfolding ensure_in_block_or_trx
on_code_change addr prev_code_hash new_code_hash old_code new_code t =
    if bytes_eq prev_code_hash new_code_hash then ok t else do
      ensure_in_block_or_trx t
      attach_code_change (new_code_change addr prev_code_hash old_code new_code_hash new_code t) t

unfoldable pub attach_storage_change : StorageChange → Tracer → Tracer
unfolding modify_top peek add_storage_change
attach_storage_change change t = elim (peek t.call_stack) [
  | none ↦ record t { deferred_call_state = add_storage_change change t.deferred_call_state }
  | some _ ↦ on_active_call (λ c. record c { storage_changes = c.storage_changes ++ change ∷ [] }) t
]

unfoldable pub on_storage_change : Bytes → Bytes → Bytes → Bytes → Tracer → Result Tracer
unfolding attach_storage_change ensure_in_block_and_in_trx tick
on_storage_change addr slot old_value new_value t =
    if bytes_eq old_value new_value then ok t else do
      ensure_in_block_and_in_trx t
      ok (
          attach_storage_change
            (record {
              address = addr;
              key = slot;
              old_value = old_value;
              new_value = new_value;
              ordinal = (tick t).block_ordinal.value;
            })
            (tick t))

unfoldable pub attach_log : Log → Tracer → Tracer
unfolding modify_top peek add_log
attach_log log t = elim (peek t.call_stack) [
  | none ↦ record t { deferred_call_state = add_log log t.deferred_call_state }
  | some _ ↦ on_active_call (λ c. record c { logs = c.logs ++ log ∷ [] }) t
]

unfoldable pub on_log : Bytes → List Bytes → Bytes → ℕ → Tracer → Result Tracer
unfolding attach_log ensure_in_block_and_in_trx tick
on_log addr topics payload block_index t = do
  ensure_in_block_and_in_trx t
  let log : Log = record {
    address = addr;
    topics = topics;
    payload = payload;
    index = t.transaction_log_index;
    block_index = block_index;
    ordinal = (tick t).block_ordinal.value;
  }
  let u = attach_log log (tick t)
  ok (record u { transaction_log_index = u32 (u.transaction_log_index + 1) })
