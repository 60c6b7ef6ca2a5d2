-- ===== src/Ordinals.antt =====
-- Where ordinals are recorded: how often a number occurs as an ordinal of a call, of a
-- transaction, of the block and of the whole tracer. Receipt logs repeat the ordinals of call logs
-- on purpose, and are counted on their own.
pub mod Attach
pub mod Calls
pub mod Completion
pub mod Receipts
pub mod Growth
pub mod Transactions
pub mod Runs
pub mod Blocks
pub mod Commit
use evm_firehose_tracer_go.Prelude.{
  ℕ, ◌+◌, ◌≤◌, List, [], ◌∷◌, Option, none, some, total, ◌==◌, if◌then◌else◌,
}
use evm_firehose_tracer_go.Pb.{
  BalanceChange, NonceChange, CodeChange, StorageChange, Log, Call, TransactionReceipt,
  TransactionTrace, Block,
}
use evm_firehose_tracer_go.Deferred.{DeferredCallState}
use evm_firehose_tracer_go.Tracer.State.{Tracer, InterruptedTransactionState}

abbrev pub hit : ℕ → ℕ → ℕ
hit k n = if k == n then 1 else 0

abbrev pub balance_hit : ℕ → BalanceChange → ℕ
balance_hit k c = hit k c.ordinal

abbrev pub nonce_hit : ℕ → NonceChange → ℕ
nonce_hit k c = hit k c.ordinal

abbrev pub code_hit : ℕ → CodeChange → ℕ
code_hit k c = hit k c.ordinal

abbrev pub storage_hit : ℕ → StorageChange → ℕ
storage_hit k c = hit k c.ordinal

abbrev pub log_hit : ℕ → Log → ℕ
log_hit k l = hit k l.ordinal

unfoldable pub occurs_in_call : ℕ → Call → ℕ
occurs_in_call k c =
    hit k c.begin_ordinal
    + hit k c.end_ordinal
    + total (balance_hit k) c.balance_changes
    + total (nonce_hit k) c.nonce_changes
    + total (code_hit k) c.code_changes
    + total (storage_hit k) c.storage_changes
    + total (log_hit k) c.logs

-- How often a number is the ordinal of a log in the receipt, and of a log in the calls.
abbrev pub occurs_in_receipt : ℕ → Option TransactionReceipt → ℕ
occurs_in_receipt k none = 0
occurs_in_receipt k (some receipt) = total (log_hit k) receipt.logs

abbrev pub occurs_in_call_logs : ℕ → List Call → ℕ
occurs_in_call_logs k = total (λ c. total (log_hit k) c.logs)

-- The receipt's logs repeat ordinals of the logs of the calls, each at most as often as it is there.
abbrev pub IsCovered : TransactionTrace → Type 0
IsCovered trx = (k : ℕ) → occurs_in_receipt k trx.receipt ≤ occurs_in_call_logs k trx.calls

abbrev pub occurs_in_calls : ℕ → List Call → ℕ
occurs_in_calls k cs = total (occurs_in_call k) cs

unfoldable pub occurs_in_deferred : ℕ → DeferredCallState → ℕ
occurs_in_deferred k d =
    total (balance_hit k) d.balance_changes
    + total (nonce_hit k) d.nonce_changes
    + total (code_hit k) d.code_changes
    + total (storage_hit k) d.storage_changes
    + total (log_hit k) d.logs

unfoldable pub occurs_in_transaction : ℕ → TransactionTrace → ℕ
unfolding occurs_in_call
occurs_in_transaction k t = hit k t.begin_ordinal + hit k t.end_ordinal + occurs_in_calls k t.calls

unfoldable pub occurs_in_optional : ℕ → Option TransactionTrace → ℕ
unfolding occurs_in_transaction
occurs_in_optional k none = 0
occurs_in_optional k (some t) = occurs_in_transaction k t

abbrev pub occurs_in_transactions : ℕ → List TransactionTrace → ℕ
occurs_in_transactions k ts = total (occurs_in_transaction k) ts

unfoldable pub occurs_in_block : ℕ → Option Block → ℕ
unfolding occurs_in_transaction occurs_in_call
occurs_in_block k none = 0
occurs_in_block k (some b) =
    occurs_in_transactions k b.transaction_traces
    + total (balance_hit k) b.balance_changes
    + total (code_hit k) b.code_changes
    + occurs_in_calls k b.system_calls

unfoldable pub occurs_in_interrupted : ℕ → Option InterruptedTransactionState → ℕ
unfolding occurs_in_optional occurs_in_call occurs_in_deferred
occurs_in_interrupted k none = 0
occurs_in_interrupted k (some s) =
    occurs_in_optional k s.transaction
    + occurs_in_calls k s.call_stack.stack
    + occurs_in_deferred k s.deferred_call_state

-- Everywhere in the tracer.
unfoldable pub occurs : ℕ → Tracer → ℕ
unfolding occurs_in_block occurs_in_optional occurs_in_call occurs_in_deferred occurs_in_interrupted
occurs k t =
    occurs_in_block k t.block
    + occurs_in_optional k t.transaction
    + occurs_in_calls k t.call_stack.stack
    + occurs_in_deferred k t.deferred_call_state
    + occurs_in_interrupted k t.interrupted_transaction
