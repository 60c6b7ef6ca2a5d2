-- ===== src/Deferred.antt =====
-- deferred_call_state.go: changes seen while no call is active, kept for the root call.
pub mod Laws
use text.Mathlib.Text.{◌==◌ as str_eq}
use evm_firehose_tracer_go.Prelude.{
  Bool, not, ◌&&◌, ◌||◌, List, [], ◌∷◌, ◌++◌, Option, none, some, String, is_empty, if◌then◌else◌,
}
use evm_firehose_tracer_go.Pb.{
  AccountCreation, BalanceChange, NonceChange, CodeChange, StorageChange, Log, Call,
}

pub record DeferredCallState : Type 0 where
  pub account_creations : List AccountCreation
  pub balance_changes : List BalanceChange
  pub nonce_changes : List NonceChange
  pub code_changes : List CodeChange
  pub storage_changes : List StorageChange
  pub logs : List Log

unfoldable pub new_deferred_call_state : DeferredCallState
new_deferred_call_state = record {
  account_creations = [];
  balance_changes = [];
  nonce_changes = [];
  code_changes = [];
  storage_changes = [];
  logs = [];
}

unfoldable pub is_empty_state : DeferredCallState → Bool
is_empty_state d =
    is_empty d.account_creations
    && is_empty d.balance_changes
    && is_empty d.nonce_changes
    && is_empty d.code_changes
    && is_empty d.storage_changes
    && is_empty d.logs

unfoldable pub has_call_only_changes : DeferredCallState → Bool
has_call_only_changes d = not (is_empty d.logs) || not (is_empty d.storage_changes)

unfoldable pub reset : DeferredCallState
reset = record {
  account_creations = [];
  balance_changes = [];
  nonce_changes = [];
  code_changes = [];
  storage_changes = [];
  logs = [];
}

unfoldable pub add_account_creation : AccountCreation → DeferredCallState → DeferredCallState
add_account_creation a d = record d { account_creations = d.account_creations ++ a ∷ [] }

unfoldable pub add_balance_change : BalanceChange → DeferredCallState → DeferredCallState
add_balance_change c d = record d { balance_changes = d.balance_changes ++ c ∷ [] }

unfoldable pub add_nonce_change : NonceChange → DeferredCallState → DeferredCallState
add_nonce_change c d = record d { nonce_changes = d.nonce_changes ++ c ∷ [] }

unfoldable pub add_code_change : CodeChange → DeferredCallState → DeferredCallState
add_code_change c d = record d { code_changes = d.code_changes ++ c ∷ [] }

unfoldable pub add_storage_change : StorageChange → DeferredCallState → DeferredCallState
add_storage_change c d = record d { storage_changes = d.storage_changes ++ c ∷ [] }

unfoldable pub add_log : Log → DeferredCallState → DeferredCallState
add_log l d = record d { logs = d.logs ++ l ∷ [] }

-- What happened before the root call goes in front of what the call holds.
unfoldable pub prepend : DeferredCallState → Call → Call
prepend d call = record call {
  account_creations = d.account_creations ++ call.account_creations;
  balance_changes = d.balance_changes ++ call.balance_changes;
  nonce_changes = d.nonce_changes ++ call.nonce_changes;
  code_changes = d.code_changes ++ call.code_changes;
  storage_changes = d.storage_changes ++ call.storage_changes;
  logs = d.logs ++ call.logs;
}

-- What happened after it goes behind.
unfoldable pub append : DeferredCallState → Call → Call
append d call = record call {
  account_creations = call.account_creations ++ d.account_creations;
  balance_changes = call.balance_changes ++ d.balance_changes;
  nonce_changes = call.nonce_changes ++ d.nonce_changes;
  code_changes = call.code_changes ++ d.code_changes;
  storage_changes = call.storage_changes ++ d.storage_changes;
  logs = call.logs ++ d.logs;
}

-- `none` is the error of an unexpected source.
unfoldable pub maybe_populate_call_and_reset :
    String → DeferredCallState → Call → Option (Call × DeferredCallState)
unfolding is_empty_state prepend append reset
maybe_populate_call_and_reset source d call =
    if is_empty_state d
    then some (call, d)
    else if not (str_eq source "root") && not (str_eq source "enter")
    then none
    else if str_eq source "enter"
    then some (prepend d call, reset)
    else some (append d call, reset)
