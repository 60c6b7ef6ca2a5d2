-- ===== src/Tracer/Calls.antt =====
-- tracer.go: the call hooks, and the opcode hooks that annotate the active call.
use evm_firehose_tracer_go.Prelude.{
  ℕ, Bool, true, false, not, ◌&&◌, ◌||◌, [], ◌∷◌, ◌++◌, Option, none, some, String, is_empty,
  is_some, length, ltb, take, drop, ◌==◌, if◌then◌else◌,
}
use evm_firehose_tracer_go.Prelude.Int.{ℤ}
use evm_firehose_tracer_go.Prelude.Bytes.{Bytes, bytes_eq}
use evm_firehose_tracer_go.Pb.{
  CallType, unspecified, call, callcode, delegate, static, create, Call, zero_call,
}
use evm_firehose_tracer_go.Types.BigInt.{big_int_to_protobuf}
use evm_firehose_tracer_go.Types.GoError.{GoError, message, error_is_string}
use evm_firehose_tracer_go.Config.{StateReader}
use evm_firehose_tracer_go.CallStack.{push, pop, peek, modify_top}
use evm_firehose_tracer_go.Deferred.{maybe_populate_call_and_reset}
use evm_firehose_tracer_go.Keccak.{RecordedPreimage}
use evm_firehose_tracer_go.Tracer.State.{
  Tracer, Result, ok, ◌>>=◌, ◌>>◌, guard, require, nil_pointer, unexpected_call_type,
  deferred_source, tick, ensure_in_block_and_in_trx_and_in_call,
}
use evm_firehose_tracer_go.Tracer.Changes.{on_active_call}

-- The opcodes of types.go.
abbrev pub call_type_create : ℕ
call_type_create = 0xf0

abbrev pub call_type_call : ℕ
call_type_call = 0xf1

abbrev pub call_type_call_code : ℕ
call_type_call_code = 0xf2

abbrev pub call_type_delegate_call : ℕ
call_type_delegate_call = 0xf4

abbrev pub call_type_create2 : ℕ
call_type_create2 = 0xf5

abbrev pub call_type_static_call : ℕ
call_type_static_call = 0xfa

abbrev pub call_type_self_destruct : ℕ
call_type_self_destruct = 0xff

unfoldable pub call_type_to_proto : ℕ → CallType
call_type_to_proto ct =
    if ct == call_type_call
    then call
    else if ct == call_type_call_code
    then callcode
    else if ct == call_type_delegate_call
    then delegate
    else if ct == call_type_static_call
    then static
    else if ct == call_type_create
    then create
    else if ct == call_type_create2
    then create
    else unspecified

abbrev pub is_unspecified : CallType → Bool
is_unspecified unspecified = true
is_unspecified _ = false

abbrev pub is_create : CallType → Bool
is_create create = true
is_create _ = false

abbrev pub delegation_prefix : Bytes
delegation_prefix = 0xef ∷ 0x01 ∷ 0x00 ∷ []

-- 0xef0100 and a 20-byte address, 23 bytes in all.
unfoldable pub parse_delegation : Bytes → Option Bytes
parse_delegation code =
    if not (length code == 23) || not (bytes_eq (take 3 code) delegation_prefix)
    then none
    else some (drop 3 code)

-- The delegation that a reader's code designates, if there is a reader.
unfoldable pub delegation_of : Option StateReader → Bytes → Option Bytes
unfolding parse_delegation
delegation_of none to = none
delegation_of (some reader) to =
    let code = reader.get_code to in if is_empty code then none else parse_delegation code

unfoldable pub resolve_delegation : Tracer → Bytes → Call → Call
unfolding delegation_of
resolve_delegation t to c =
    if t.block_rules.is_prague
      && not t.in_system_call
      && not t.block_is_genesis
      && not (is_create c.call_type)
    then elim (delegation_of t.transaction_state_reader to) [
      | none ↦ c
      | some target ↦ record c { address_delegates_to = some target }
    ]
    else c

-- The deferred changes move into the call that enters at depth 0.
unfoldable pub populate_on_enter : ℕ → Call → Tracer → Result (Call × Tracer)
populate_on_enter depth c t = if not (depth == 0) then ok (c, t) else do
  (populated, rest) ←
      require (maybe_populate_call_and_reset "enter" t.deferred_call_state c) deferred_source
  ok (populated, record t { deferred_call_state = rest })

-- The call as it enters; its ordinal is the one that `tick` takes.
unfoldable pub entered_call : ℕ → Bytes → Bytes → Bytes → ℕ → Option ℤ → ℕ → Call
unfolding call_type_to_proto
entered_call typ from to input gas value ordinal = record zero_call {
  call_type = call_type_to_proto typ;
  caller = from;
  address = to;
  value = big_int_to_protobuf value;
  gas_limit = gas;
  input = input;
  begin_ordinal = ordinal;
}

unfoldable pub enter_call : ℕ → Bytes → Call → Tracer → Result Tracer
enter_call depth to entered t = do
  guard (not (is_unspecified entered.call_type)) unexpected_call_type
  (populated, u) ← populate_on_enter depth (resolve_delegation t to entered) t
  ok (record u { call_stack = push populated u.call_stack })

-- A SELFDESTRUCT enters no call: it makes the next exit be skipped.
unfoldable pub on_call_enter : ℕ → ℕ → Bytes → Bytes → Bytes → ℕ → Option ℤ → Tracer → Result Tracer
unfolding tick
on_call_enter depth typ from to input gas value t =
    if typ == call_type_self_destruct
    then ok
        (record t { latest_call_enter_suicided = true; latest_call_enter_suicided_depth = depth })
    else enter_call depth to (entered_call typ from to input gas value (tick t).block_ordinal.value)
        (tick t)

abbrev pub text_execution_reverted_err : String
text_execution_reverted_err = "execution reverted"

abbrev pub text_insufficient_balance_transfer_err : String
text_insufficient_balance_transfer_err = "insufficient balance for transfer"

abbrev pub text_max_call_depth_err : String
text_max_call_depth_err = "max call depth exceeded"

abbrev pub failure_reason_of : Option GoError → String
failure_reason_of none = ""
failure_reason_of (some e) = message e

unfoldable pub is_revert_error : Option GoError → Bool
unfolding error_is_string
is_revert_error err =
    error_is_string err text_execution_reverted_err
    || error_is_string err text_insufficient_balance_transfer_err
    || error_is_string err text_max_call_depth_err

unfoldable pub exit_call : Bytes → ℕ → Option GoError → Bool → Call → Call
unfolding is_revert_error
exit_call output gas_used err reverted c =
    let returned = record c {
      gas_consumed = gas_used;
      return_data = if is_create c.call_type then c.return_data else output;
    } in
    if reverted
    then record returned {
      failure_reason = failure_reason_of err;
      status_failed = true;
      status_reverted = is_revert_error err;
    }
    else returned

unfoldable pub append_call : Call → Tracer → Result Tracer
append_call c t = do
  trx ← require t.transaction nil_pointer
  ok (record t { transaction = some (record trx { calls = trx.calls ++ c ∷ [] }) })

unfoldable pub on_call_exit : Bytes → ℕ → Option GoError → Bool → Tracer → Result Tracer
unfolding append_call pop tick ensure_in_block_and_in_trx_and_in_call
on_call_exit output gas_used err reverted t =
    if t.latest_call_enter_suicided
    then ok (record t { latest_call_enter_suicided = false })
    else do
      ensure_in_block_and_in_trx_and_in_call t
      let (popped, stack) = pop t.call_stack
      c ← require popped nil_pointer
      append_call
          (record (exit_call output gas_used err reverted c) {
            end_ordinal = (tick t).block_ordinal.value;
          })
          (record (tick t) { call_stack = stack })

-- The active call ran code; a SELFDESTRUCT that did not fail marks it.
unfoldable pub on_opcode : ℕ → Option GoError → Tracer → Tracer
unfolding modify_top
on_opcode op err t =
    on_active_call
      (λ c. record c {
        executed_code = true;
        suicide = if not (is_some err) && op == 0xff then true else c.suicide;
      })
      t

unfoldable pub on_opcode_fault : Tracer → Tracer
unfolding modify_top
on_opcode_fault t = on_active_call (λ c. record c { executed_code = true }) t

abbrev pub max_keccak_preimage_size : ℕ
max_keccak_preimage_size = 256

unfoldable pub on_keccak_preimage : Bytes → Bytes → Tracer → Result Tracer
unfolding ensure_in_block_and_in_trx_and_in_call peek
on_keccak_preimage hash preimage t = do
  ensure_in_block_and_in_trx_and_in_call t
  if ltb max_keccak_preimage_size (length preimage) then ok t else do
    active ← require (peek t.call_stack) nil_pointer
    let entry : RecordedPreimage = record {
      call_index = active.index;
      hash = hash;
      preimage = preimage;
    }
    ok (record t { transaction_keccak_preimages = t.transaction_keccak_preimages ++ entry ∷ [] })
