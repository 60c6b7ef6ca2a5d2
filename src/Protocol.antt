-- ===== src/Protocol.antt =====
-- tracer.go: the order in which a client calls the hooks of a transaction. A call enters, does
-- things, among them further calls, and exits; a self-destruct enters and exits with nothing between.
pub mod Changes
pub mod Calls
pub mod Ends
pub mod Transactions
pub mod Output
pub mod Blocks
use evm_firehose_tracer_go.Prelude.{
  ℕ, Bool, true, false, ◌≡◌, List, [], ◌∷◌, ◌++◌, Option, none, some, is_some, length,
}
use evm_firehose_tracer_go.Prelude.Int.{ℤ}
use evm_firehose_tracer_go.Prelude.Bytes.{Bytes}
use evm_firehose_tracer_go.Pb.{BalanceChangeReason}
use evm_firehose_tracer_go.Types.GoError.{GoError}
use evm_firehose_tracer_go.Hooks.{
  Hook, call_enter, call_exit, balance_change, nonce_change, code_change, storage_change, log,
  opcode, opcode_fault, keccak_preimage,
}
use evm_firehose_tracer_go.Tracer.State.{Tracer}
use evm_firehose_tracer_go.Tracer.Calls.{
  call_type_create, call_type_call, call_type_call_code, call_type_delegate_call, call_type_create2,
  call_type_static_call, call_type_self_destruct,
}

pub data CallKind : Type 0 where
  creates calls calls_code delegates creates2 calls_static : CallKind

abbrev pub opcode_of : CallKind → ℕ
opcode_of creates = call_type_create
opcode_of calls = call_type_call
opcode_of calls_code = call_type_call_code
opcode_of delegates = call_type_delegate_call
opcode_of creates2 = call_type_create2
opcode_of calls_static = call_type_static_call

-- The arguments of OnCallEnter but for the type, and those of OnCallExit.
pub record Entry : Type 0 where
  pub depth : ℕ
  pub from : Bytes
  pub to : Bytes
  pub input : Bytes
  pub gas : ℕ
  pub value : Option ℤ

pub record Exit : Type 0 where
  pub output : Bytes
  pub gas_used : ℕ
  pub err : Option GoError
  pub reverted : Bool

abbrev pub enter : Entry → ℕ → Hook
enter e typ = call_enter e.depth typ e.from e.to e.input e.gas e.value

abbrev pub exit : Exit → Hook
exit x = call_exit x.output x.gas_used x.err x.reverted

-- What may happen outside calls too, while a transaction is traced.
pub data Change : Type 0 where
  balance : Bytes → Option ℤ → Option ℤ → BalanceChangeReason → Change
  nonce : Bytes → ℕ → ℕ → Change
  code : Bytes → Bytes → Bytes → Bytes → Bytes → Change
  storage : Bytes → Bytes → Bytes → Bytes → Change
  logs : Bytes → List Bytes → Bytes → ℕ → Change
  runs : ℕ → Option GoError → Change
  faults : Change

abbrev pub change_hook : Change → Hook
change_hook (balance addr old new reason) = balance_change addr old new reason
change_hook (nonce addr old new) = nonce_change addr old new
change_hook (code addr prev_hash new_hash old new) = code_change addr prev_hash new_hash old new
change_hook (storage addr slot old new) = storage_change addr slot old new
change_hook (logs addr topics payload block_index) = log addr topics payload block_index
change_hook (runs op err) = opcode op err
change_hook faults = opcode_fault

-- What happens within a call.
mutual
  pub data Activity : Type 0 where
    changes : Change → Activity
    hashes : Bytes → Bytes → Activity
    nests : CallKind → Entry → Activities → Exit → Activity
    destructs : Entry → Exit → Activity

  pub data Activities : Type 0 where
    finished : Activities
    also : Activity → Activities → Activities

unfoldable mutual
  pub hooks_of : Activity → List Hook
  hooks_of (changes c) = change_hook c ∷ []
  hooks_of (hashes hash preimage) = keccak_preimage hash preimage ∷ []
  hooks_of (nests kind e body x) = enter e (opcode_of kind) ∷ hooks_of_all body ++ exit x ∷ []
  hooks_of (destructs e x) = enter e call_type_self_destruct ∷ exit x ∷ []

  pub hooks_of_all : Activities → List Hook
  hooks_of_all finished = []
  hooks_of_all (also a rest) = hooks_of a ++ hooks_of_all rest

-- In a block and a transaction, with `n` active calls. `s` is where this began: the tracer is as
-- isolated as there, and holds the same interrupted transaction.
pub record IsTracing (s : Tracer) (n : ℕ) (t : Tracer) : Type 0 where
  pub block : is_some t.block ≡ true
  pub chain : is_some t.chain_config ≡ true
  pub transaction : is_some t.transaction ≡ true
  pub depth : length t.call_stack.stack ≡ n
  pub plain : t.latest_call_enter_suicided ≡ false
  pub isolated : t.transaction_isolated ≡ s.transaction_isolated
  pub interrupted : t.interrupted_transaction ≡ s.interrupted_transaction
