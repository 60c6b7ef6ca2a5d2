-- ===== src/FlashBlocks/Kept.antt =====
-- tracer.go: the hooks that leave the block, the snapshot and the configuration alone.
use evm_firehose_tracer_go.Prelude.{ℕ, Bool, ◌≡◌, List, Option, arith, inl, inr, Bool-cases, ◌==◌}
use evm_firehose_tracer_go.Prelude.Int.{ℤ}
use evm_firehose_tracer_go.Prelude.Bytes.{Bytes}
use evm_firehose_tracer_go.Pb.{Call, TransactionTrace}
use evm_firehose_tracer_go.Types.GoError.{GoError}
use evm_firehose_tracer_go.Types.{TxEvent, ReceiptData}
use evm_firehose_tracer_go.Config.{StateReader}
use evm_firehose_tracer_go.External.{External}
use evm_firehose_tracer_go.Tracer.State.{Tracer, ok, Result-cases, tick}
use evm_firehose_tracer_go.Tracer.Changes.{on_nonce_change, on_storage_change, on_log}
use evm_firehose_tracer_go.Tracer.Calls.{
  on_call_enter, on_call_exit, enter_call, populate_on_enter, on_opcode, on_opcode_fault,
  on_keccak_preimage, entered_call, resolve_delegation, call_type_self_destruct,
}
use evm_firehose_tracer_go.Tracer.Transactions.{on_tx_start}
use evm_firehose_tracer_go.Tracer.Completion.{
  end_without_calls, end_with_calls, complete_transaction,
}
use evm_firehose_tracer_go.Tracer.SystemCalls.{on_system_call_start}

-- What a tracer leaves alone in most hooks.
pub record Same (t u : Tracer) : Type 0 where
  pub block : u.block ≡ t.block
  pub snapshot : u.snapshot_for_next_flash_block ≡ t.snapshot_for_next_flash_block
  pub config : u.config ≡ t.config
  pub chain : u.chain_config ≡ t.chain_config
  pub writer : u.output_writer ≡ t.output_writer
  pub closed : u.flush_queue_closed ≡ t.flush_queue_closed

module _ (t u : Tracer) where
  pub on_nonce_change-Same :
      (addr : Bytes) (old new : ℕ) → on_nonce_change addr old new t ≡ ok u → Same t u
  unfolding on_nonce_change
  on_nonce_change-Same addr old new e = ground arith

  pub on_storage_change-Same :
      (addr slot old new : Bytes) → on_storage_change addr slot old new t ≡ ok u → Same t u
  unfolding on_storage_change
  on_storage_change-Same addr slot old new e = ground arith

  pub on_log-Same :
      (addr : Bytes) (topics : List Bytes) (payload : Bytes) (block_index : ℕ)
      → on_log addr topics payload block_index t ≡ ok u
      → Same t u
  unfolding on_log
  on_log-Same addr topics payload block_index e = ground arith

  pub on_keccak_preimage-Same :
      (hash preimage : Bytes) → on_keccak_preimage hash preimage t ≡ ok u → Same t u
  unfolding on_keccak_preimage
  on_keccak_preimage-Same hash preimage e = ground arith

  pub populate_on_enter-Same :
      (depth : ℕ) (c c' : Call) → populate_on_enter depth c t ≡ ok (c', u) → Same t u
  unfolding populate_on_enter
  populate_on_enter-Same depth c c' e = ground arith

  pub on_call_exit-Same :
      (output : Bytes) (gas_used : ℕ) (err : Option GoError) (reverted : Bool)
      → on_call_exit output gas_used err reverted t ≡ ok u
      → Same t u
  unfolding on_call_exit
  on_call_exit-Same output gas_used err reverted e = ground arith

  pub on_tx_start-Same :
      (ext : External) (event : TxEvent) (reader : Option StateReader)
      → on_tx_start ext event reader t ≡ ok u
      → Same t u
  unfolding on_tx_start
  on_tx_start-Same ext event reader e = ground arith

  pub complete_transaction-Same :
      (receipt : Option ReceiptData) (trx trace : TransactionTrace)
      → complete_transaction receipt trx t ≡ ok (trace, u)
      → Same t u
  unfolding complete_transaction end_without_calls end_with_calls
  complete_transaction-Same receipt trx trace e = ground arith

  pub on_system_call_start-Same : on_system_call_start t ≡ ok u → Same t u
  unfolding on_system_call_start
  on_system_call_start-Same e = ground arith

pub on_call_enter-Same :
    (depth typ : ℕ) (from to input : Bytes) (gas : ℕ) (value : Option ℤ) (t u : Tracer)
    → on_call_enter depth typ from to input gas value t ≡ ok u
    → Same t u
unfolding on_call_enter enter_call
on_call_enter-Same depth typ from to input gas value t u e =
    elim (Bool-cases (typ == call_type_self_destruct)) [
      | inl destruct ↦ ground arith
      | inr plain ↦
          let c = entered_call typ from to input gas value (tick t).block_ordinal.value in
          elim (Result-cases
            (populate_on_enter depth (resolve_delegation (tick t) to c) (tick t))) [
              | inr (p, failed) ↦ absurd (ground arith)
              | inl (r, populated) ↦ ground (
                arith,
                populate_on_enter-Same (tick t) r.1 depth (resolve_delegation (tick t) to c) r.0
                    populated,
              )
            ]
    ]

pub on_opcode-Same : (op : ℕ) (err : Option GoError) (t : Tracer) → Same t (on_opcode op err t)
unfolding on_opcode
on_opcode-Same op err t = ground arith

pub on_opcode_fault-Same : (t : Tracer) → Same t (on_opcode_fault t)
unfolding on_opcode_fault
on_opcode_fault-Same t = ground arith
