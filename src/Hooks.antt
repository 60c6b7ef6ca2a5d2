-- ===== src/Hooks.antt =====
-- tracer.go: the hooks that a client calls between the start and the end of a block, as events,
-- and their execution one after the other.
use evm_firehose_tracer_go.Prelude.{ℕ, Bool, List, [], ◌∷◌, Option}
use evm_firehose_tracer_go.Prelude.Int.{ℤ}
use evm_firehose_tracer_go.Prelude.Bytes.{Bytes}
use evm_firehose_tracer_go.Pb.{BalanceChangeReason}
use evm_firehose_tracer_go.Types.{TxEvent, ReceiptData}
use evm_firehose_tracer_go.Types.GoError.{GoError}
use evm_firehose_tracer_go.Config.{StateReader}
use evm_firehose_tracer_go.External.{External}
use evm_firehose_tracer_go.Tracer.State.{Tracer, Result, ok, ◌>>=◌}
use evm_firehose_tracer_go.Tracer.Changes.{
  on_balance_change, on_nonce_change, on_code_change, on_storage_change, on_log,
}
use evm_firehose_tracer_go.Tracer.Calls.{
  on_call_enter, on_call_exit, on_opcode, on_opcode_fault, on_keccak_preimage,
}
use evm_firehose_tracer_go.Tracer.Transactions.{on_tx_start}
use evm_firehose_tracer_go.Tracer.Completion.{on_tx_end}
use evm_firehose_tracer_go.Tracer.SystemCalls.{on_system_call_start, on_system_call_end}

pub data Hook : Type 0 where
  tx_start : TxEvent → Option StateReader → Hook
  tx_end : Option ReceiptData → Hook
  call_enter : ℕ → ℕ → Bytes → Bytes → Bytes → ℕ → Option ℤ → Hook
  call_exit : Bytes → ℕ → Option GoError → Bool → Hook
  balance_change : Bytes → Option ℤ → Option ℤ → BalanceChangeReason → Hook
  nonce_change : Bytes → ℕ → ℕ → Hook
  code_change : Bytes → Bytes → Bytes → Bytes → Bytes → Hook
  storage_change : Bytes → Bytes → Bytes → Bytes → Hook
  log : Bytes → List Bytes → Bytes → ℕ → Hook
  opcode : ℕ → Option GoError → Hook
  opcode_fault : Hook
  keccak_preimage : Bytes → Bytes → Hook
  system_call_start : Hook
  system_call_end : Hook

module _ (ext : External) where
  unfoldable pub step : Hook → Tracer → Result Tracer
  step (tx_start event reader) t = on_tx_start ext event reader t
  step (tx_end receipt) t = on_tx_end receipt t
  step (call_enter depth typ from to input gas value) t =
      on_call_enter depth typ from to input gas value t
  step (call_exit output gas_used err reverted) t = on_call_exit output gas_used err reverted t
  step (balance_change addr old new reason) t = on_balance_change addr old new reason t
  step (nonce_change addr old new) t = on_nonce_change addr old new t
  step (code_change addr prev_hash new_hash old new) t =
      on_code_change addr prev_hash new_hash old new t
  step (storage_change addr slot old new) t = on_storage_change addr slot old new t
  step (log addr topics payload block_index) t = on_log addr topics payload block_index t
  step (opcode op err) t = ok (on_opcode op err t)
  step opcode_fault t = ok (on_opcode_fault t)
  step (keccak_preimage hash preimage) t = on_keccak_preimage hash preimage t
  step system_call_start t = on_system_call_start t
  step system_call_end t = on_system_call_end t

  -- A panic stops the node.
  unfoldable pub run : List Hook → Tracer → Result Tracer
  run [] t = ok t
  run (h ∷ hs) t = step h t >>= run hs
