-- ===== src/Scenarios/Traces.antt =====
-- A block traced from its start to its end, an iteration of a flash block, an interrupting system
-- call and a committed transaction, each run through.
use evm_firehose_tracer_go.Ordinals.{
  hit, occurs_in_transaction, occurs_in_call, occurs_in_calls, occurs_in_call_logs,
  occurs_in_receipt,
}
use evm_firehose_tracer_go.Prelude.Int.{pos}
use evm_firehose_tracer_go.Prelude.{
  ℕ, ◌+◌, ap, ◌∙◌, ◌≡◌, refl, List, [], ◌∷◌, Option, none, some, true, false, length, take, drop,
  map,
}
use evm_firehose_tracer_go.Pb.{Call, TransactionTrace, Block, zero_transaction}
use evm_firehose_tracer_go.Scenarios.{
  receipt, external, chain, config, block_event, flash_event, hooks, tx, ok_or, ok-ok_or, addr_a,
  addr_b, word,
}
use evm_firehose_tracer_go.Tracer.State.{Tracer, ok}
use evm_firehose_tracer_go.Keccak.{
  search_loop, sort_search, is_above, base_if_near, keccak_slot_base, words_fuel,
  inner_keccak_hash_candidates, contains, lookup, insert_new, preimages_of, keep, keep_found,
  keep_words, slot_keys, all_slot_keys, expand, rounds, storage_slot_hashes, add_preimage,
  has_index, modify_by_index, attach_kept, attach_storage_slot_preimages,
}
use evm_firehose_tracer_go.Config.{
  is_timestamp_forked, is_block_forked, is_shanghai, is_cancun, is_prague, is_verkle, rules,
}
use evm_firehose_tracer_go.Types.BigInt.{big_int_equal, big_int_to_protobuf}
use evm_firehose_tracer_go.Types.GoError.{chain_is_string, error_is_string}
use evm_firehose_tracer_go.Prelude.Int.{◌+ℤ◌}
use evm_firehose_tracer_go.Prelude.Sort.{insert_by, sort_by}
use evm_firehose_tracer_go.Prelude.Bytes.{
  bytes_eq, all_zero, from_bytes_acc, from_bytes, to_bytes_fuel, to_bytes,
}
use evm_firehose_tracer_go.Hooks.{
  Hook, tx_start, tx_end, call_enter, call_exit, storage_change, step, run, log,
}
use evm_firehose_tracer_go.FlashBlocks.{Grown}
use evm_firehose_tracer_go.CallTree.{shape, shape_index, view, empty, calls_of}
use evm_firehose_tracer_go.Tracer.State.{
  new_tracer, tick, modify_block, reset_transaction, ensure_block_chain_init, ensure_in_block,
  ensure_not_in_block, ensure_in_block_and_in_trx, ensure_in_block_and_not_in_trx,
  ensure_in_block_and_not_in_trx_and_not_in_call, ensure_in_block_or_trx,
  ensure_in_block_and_in_trx_and_in_call, ensure_in_call, ensure_in_system_call,
}
use evm_firehose_tracer_go.Tracer.Changes.{
  attach_balance_change, on_balance_change, attach_nonce_change, on_nonce_change, new_code_change,
  code_change_on_call, attach_code_change, on_code_change, attach_storage_change, on_storage_change,
  attach_log, on_log,
}
use evm_firehose_tracer_go.Tracer.Calls.{
  call_type_to_proto, parse_delegation, delegation_of, resolve_delegation, populate_on_enter,
  entered_call, enter_call, on_call_enter, is_revert_error, exit_call, append_call, on_call_exit,
  on_opcode, on_opcode_fault, on_keccak_preimage,
}
use evm_firehose_tracer_go.Tracer.Transactions.{
  capped_price, dynamic_price, compute_effective_gas_price, normalize_signature_point, blob_gas_of,
  access_list_to_proto, with_authority, authorization_to_proto, authorizations_to_proto,
  create_address, recipient, on_tx_start,
}
use evm_firehose_tracer_go.Tracer.Completion.{
  call_index, used_before, find_nonce_change, discard_uncommitted,
  discard_uncommitted_set_code_authorizations, log_to_proto, new_receipt_from_data,
  populate_receipt, parent_state_reverted, populate_loop, populate_state_reverted,
  is_never_reverted, remove_block_index, surviving_logs, assign_logs,
  assign_ordinal_and_index_to_receipt_logs, populate_on_end, finish_transaction, end_without_calls,
  end_with_calls, complete_transaction, store_trace, drop_transaction, end_transaction, on_tx_end,
}
use evm_firehose_tracer_go.Tracer.SystemCalls.{
  save_transaction, interrupt_transaction, resume_transaction, on_system_call_start,
  on_system_call_end,
}
use evm_firehose_tracer_go.Tracer.Headers.{
  required_difficulty, new_block_header_from_block_data, new_block_header_from_uncle_data,
}
use evm_firehose_tracer_go.Tracer.Blocks.{
  is_flash_block, get_flash_block_index, has_flash_block_snapshot, snapshot_block, release_block,
  reset_block, check_snapshot, handle_flash_block_start, slice_to, restore_flash_block_snapshot,
  snapshot_flash_block_for_next_iteration, new_block, withdrawal_to_proto, add_block_lists,
  on_block_start, reorder_isolated_transactions_and_ordinals, write_output, emit, block_output,
  flush_block, abandon_block, on_block_end, on_skipped_block, write_outputs, on_close,
}
use evm_firehose_tracer_go.Tracer.Parallel.{
  CommitError, new_isolated_transaction_tracer, on_tx_spawn, on_tx_reset, shift_call,
  reorder_call_ordinals, reorder_transaction_ordinals, reorder_calls_in_turn,
  reorder_trace_ordinals, add_isolated_transaction, add_isolated_system_calls, commit_transient,
  on_tx_commit,
}
use evm_firehose_tracer_go.SetCode.{
  validate_signature_values, fill_bytes, compute_set_code_sig_hash, recover_public_key,
  default_set_code_auth_recovery,
}
use evm_firehose_tracer_go.Printer.{compute_lib_num, compute_printed_flash_block_index}
use evm_firehose_tracer_go.Ordinal
use evm_firehose_tracer_go.Finality
use evm_firehose_tracer_go.CallStack
use evm_firehose_tracer_go.Deferred

abbrev pub blank : Tracer
blank = new_tracer config (some chain)

abbrev pub begun_block : Tracer
begun_block = ok_or blank (on_block_start block_event blank)

abbrev pub traced_block : Tracer
traced_block = ok_or blank (run external hooks begun_block)

abbrev pub ended_block : Tracer
ended_block = ok_or blank (on_block_end none traced_block)

-- Within the outer call, just before the inner one enters.
abbrev pub outer_hooks : List Hook
outer_hooks = take 4 hooks

abbrev pub in_call : Tracer
in_call = ok_or blank (run external outer_hooks begun_block)

abbrev pub entering : Hook
entering = call_enter 1 0xf1 addr_b addr_a [] 1000 none

abbrev pub in_inner_call : Tracer
in_inner_call = ok_or blank (step external entering in_call)

-- All calls have exited.
abbrev pub before_end : Tracer
before_end = ok_or blank (run external (take 8 hooks) begun_block)

abbrev pub sorted_calls : List Call
sorted_calls = sort_by call_index (calls_of before_end.transaction)

-- A system call within the outer call.
abbrev pub system_hooks : List Hook
system_hooks =
    call_enter 0 0xf1 addr_a addr_b [] 0 none
    ∷ storage_change addr_b (word 1) (word 0) (word 2)
    ∷ call_exit [] 0 none false
    ∷ []

abbrev pub system_started : Tracer
system_started = ok_or blank (on_system_call_start in_call)

abbrev pub system_traced : Tracer
system_traced = ok_or blank (run external system_hooks system_started)

abbrev pub system_ended : Tracer
system_ended = ok_or blank (on_system_call_end system_traced)

-- Two iterations of a flash block: a transaction is traced, a snapshot taken and another
-- transaction traced before the first one ends.
abbrev pub short_hooks : List Hook
short_hooks = tx_start tx none ∷ tx_end none ∷ []

abbrev pub flash_traced : Tracer
flash_traced =
    ok_or blank (run external short_hooks (ok_or blank (on_block_start (flash_event 1) blank)))

abbrev pub flash_snapshot : Tracer
flash_snapshot = ok_or blank (snapshot_flash_block_for_next_iteration flash_traced)

abbrev pub flash_grown : Tracer
flash_grown = ok_or blank (run external short_hooks flash_snapshot)

abbrev pub flash_ended : Tracer
flash_ended = ok_or blank (on_block_end none flash_grown)

abbrev pub flash_again : Tracer
flash_again = ok_or blank (on_block_start (flash_event 2) flash_ended)

abbrev pub block_or_none : Block → Option Block → Block
block_or_none b none = b
block_or_none b (some c) = c

abbrev pub transaction_or : Option TransactionTrace → TransactionTrace
transaction_or none = zero_transaction
transaction_or (some trx) = trx

abbrev no_block : Block
no_block = new_block block_event.block

abbrev pub flash_block : Block
flash_block = block_or_none no_block flash_traced.block

abbrev pub flash_block_later : Block
flash_block_later = block_or_none no_block flash_grown.block

-- An isolated tracer traces a transaction, which the coordinator commits.
abbrev pub spawned : Tracer
spawned = ok_or blank (on_tx_spawn traced_block)

abbrev pub isolated_hooks : List Hook
isolated_hooks =
    tx_start tx none
    ∷ call_enter 0 0xf1 addr_a addr_b [] 20000 (some (pos 3))
    ∷ log addr_b [] (1 ∷ []) 0
    ∷ call_exit [] 15000 none false
    ∷ tx_end (some receipt)
    ∷ []

abbrev pub isolated : Tracer
isolated = ok_or blank (run external isolated_hooks spawned)

abbrev pub isolated_trace : TransactionTrace
isolated_trace = transaction_or isolated.transaction_transient

abbrev pub committed : Option CommitError × Tracer × Tracer
committed = ok_or (none, blank, blank) (on_tx_commit traced_block isolated)

abbrev pub reset_isolated : Tracer
reset_isolated = ok_or blank (on_tx_reset isolated)

pub block_runs :
    (on_block_start block_event blank ≡ ok begun_block)
    × (run external hooks begun_block ≡ ok traced_block)
    × (on_block_end none traced_block ≡ ok ended_block)
    × (traced_block.config.before_block_flush ≡ none)
    × (traced_block.concurrent_flush_queue ≡ none)
unfolding search_loop sort_search is_above base_if_near keccak_slot_base words_fuel
    inner_keccak_hash_candidates contains lookup insert_new preimages_of keep keep_found keep_words
    slot_keys all_slot_keys expand rounds storage_slot_hashes add_preimage has_index modify_by_index
    attach_kept attach_storage_slot_preimages is_timestamp_forked is_block_forked is_shanghai
    is_cancun is_prague is_verkle rules big_int_equal big_int_to_protobuf chain_is_string
    error_is_string ◌+ℤ◌ insert_by sort_by bytes_eq all_zero from_bytes_acc from_bytes to_bytes_fuel
    to_bytes step run new_tracer tick modify_block reset_transaction ensure_block_chain_init
    ensure_in_block ensure_not_in_block ensure_in_block_and_in_trx ensure_in_block_and_not_in_trx
    ensure_in_block_and_not_in_trx_and_not_in_call ensure_in_block_or_trx
    ensure_in_block_and_in_trx_and_in_call ensure_in_call ensure_in_system_call
    attach_balance_change on_balance_change attach_nonce_change on_nonce_change new_code_change
    code_change_on_call attach_code_change on_code_change attach_storage_change on_storage_change
    attach_log on_log call_type_to_proto parse_delegation delegation_of resolve_delegation
    populate_on_enter entered_call enter_call on_call_enter is_revert_error exit_call append_call
    on_call_exit on_opcode on_opcode_fault on_keccak_preimage capped_price dynamic_price
    compute_effective_gas_price normalize_signature_point blob_gas_of access_list_to_proto
    with_authority authorization_to_proto authorizations_to_proto create_address recipient
    on_tx_start used_before find_nonce_change discard_uncommitted
    discard_uncommitted_set_code_authorizations log_to_proto new_receipt_from_data populate_receipt
    parent_state_reverted populate_loop populate_state_reverted is_never_reverted remove_block_index
    surviving_logs assign_logs assign_ordinal_and_index_to_receipt_logs populate_on_end
    finish_transaction end_without_calls end_with_calls complete_transaction store_trace
    drop_transaction end_transaction on_tx_end save_transaction interrupt_transaction
    resume_transaction on_system_call_start on_system_call_end required_difficulty
    new_block_header_from_block_data new_block_header_from_uncle_data is_flash_block
    get_flash_block_index has_flash_block_snapshot snapshot_block release_block reset_block
    check_snapshot handle_flash_block_start slice_to restore_flash_block_snapshot
    snapshot_flash_block_for_next_iteration new_block withdrawal_to_proto add_block_lists
    on_block_start reorder_isolated_transactions_and_ordinals write_output emit block_output
    flush_block abandon_block on_block_end on_skipped_block write_outputs on_close
    new_isolated_transaction_tracer on_tx_spawn on_tx_reset shift_call reorder_call_ordinals
    reorder_transaction_ordinals reorder_calls_in_turn reorder_trace_ordinals
    add_isolated_transaction add_isolated_system_calls commit_transient on_tx_commit
    validate_signature_values fill_bytes compute_set_code_sig_hash recover_public_key
    default_set_code_auth_recovery compute_lib_num compute_printed_flash_block_index Ordinal.next
    Ordinal.peek Ordinal.set Ordinal.reset Ordinal.restore Finality.reset
    Finality.populate_block_status Finality.set_last_finalized_block Finality.last_finalized_block
    Finality.is_empty CallStack.new_call_stack CallStack.peek_list CallStack.peek CallStack.link
    CallStack.push CallStack.pop_list CallStack.pop CallStack.has_active_list
    CallStack.has_active_call CallStack.depth CallStack.reset CallStack.root_list CallStack.root
    CallStack.parent_list CallStack.parent CallStack.parent_index_of CallStack.parent_index
    CallStack.modify_list CallStack.modify_top Deferred.new_deferred_call_state
    Deferred.is_empty_state Deferred.has_call_only_changes Deferred.reset
    Deferred.add_account_creation Deferred.add_balance_change Deferred.add_nonce_change
    Deferred.add_code_change Deferred.add_storage_change Deferred.add_log Deferred.prepend
    Deferred.append Deferred.maybe_populate_call_and_reset
block_runs = (
  ok-ok_or blank (on_block_start block_event blank) refl,
  ok-ok_or blank (run external hooks begun_block) refl,
  ok-ok_or blank (on_block_end none traced_block) refl,
  refl,
  refl,
)

pub call_runs :
    (run external outer_hooks begun_block ≡ ok in_call)
    × (step external entering in_call ≡ ok in_inner_call)
    × (run external (take 8 hooks) begun_block ≡ ok before_end)
    × (before_end.call_stack.stack ≡ [])
    × (map shape sorted_calls ≡ sort_by shape_index (view before_end).current.done)
    × (length sorted_calls ≡ 2)
    × ((view begun_block).current ≡ empty)
    × ((view begun_block).interrupted ≡ none)
unfolding search_loop sort_search is_above base_if_near keccak_slot_base words_fuel
    inner_keccak_hash_candidates contains lookup insert_new preimages_of keep keep_found keep_words
    slot_keys all_slot_keys expand rounds storage_slot_hashes add_preimage has_index modify_by_index
    attach_kept attach_storage_slot_preimages is_timestamp_forked is_block_forked is_shanghai
    is_cancun is_prague is_verkle rules big_int_equal big_int_to_protobuf chain_is_string
    error_is_string ◌+ℤ◌ insert_by sort_by bytes_eq all_zero from_bytes_acc from_bytes to_bytes_fuel
    to_bytes step run new_tracer tick modify_block reset_transaction ensure_block_chain_init
    ensure_in_block ensure_not_in_block ensure_in_block_and_in_trx ensure_in_block_and_not_in_trx
    ensure_in_block_and_not_in_trx_and_not_in_call ensure_in_block_or_trx
    ensure_in_block_and_in_trx_and_in_call ensure_in_call ensure_in_system_call
    attach_balance_change on_balance_change attach_nonce_change on_nonce_change new_code_change
    code_change_on_call attach_code_change on_code_change attach_storage_change on_storage_change
    attach_log on_log call_type_to_proto parse_delegation delegation_of resolve_delegation
    populate_on_enter entered_call enter_call on_call_enter is_revert_error exit_call append_call
    on_call_exit on_opcode on_opcode_fault on_keccak_preimage capped_price dynamic_price
    compute_effective_gas_price normalize_signature_point blob_gas_of access_list_to_proto
    with_authority authorization_to_proto authorizations_to_proto create_address recipient
    on_tx_start used_before find_nonce_change discard_uncommitted
    discard_uncommitted_set_code_authorizations log_to_proto new_receipt_from_data populate_receipt
    parent_state_reverted populate_loop populate_state_reverted is_never_reverted remove_block_index
    surviving_logs assign_logs assign_ordinal_and_index_to_receipt_logs populate_on_end
    finish_transaction end_without_calls end_with_calls complete_transaction store_trace
    drop_transaction end_transaction on_tx_end save_transaction interrupt_transaction
    resume_transaction on_system_call_start on_system_call_end required_difficulty
    new_block_header_from_block_data new_block_header_from_uncle_data is_flash_block
    get_flash_block_index has_flash_block_snapshot snapshot_block release_block reset_block
    check_snapshot handle_flash_block_start slice_to restore_flash_block_snapshot
    snapshot_flash_block_for_next_iteration new_block withdrawal_to_proto add_block_lists
    on_block_start reorder_isolated_transactions_and_ordinals write_output emit block_output
    flush_block abandon_block on_block_end on_skipped_block write_outputs on_close
    new_isolated_transaction_tracer on_tx_spawn on_tx_reset shift_call reorder_call_ordinals
    reorder_transaction_ordinals reorder_calls_in_turn reorder_trace_ordinals
    add_isolated_transaction add_isolated_system_calls commit_transient on_tx_commit
    validate_signature_values fill_bytes compute_set_code_sig_hash recover_public_key
    default_set_code_auth_recovery compute_lib_num compute_printed_flash_block_index Ordinal.next
    Ordinal.peek Ordinal.set Ordinal.reset Ordinal.restore Finality.reset
    Finality.populate_block_status Finality.set_last_finalized_block Finality.last_finalized_block
    Finality.is_empty CallStack.new_call_stack CallStack.peek_list CallStack.peek CallStack.link
    CallStack.push CallStack.pop_list CallStack.pop CallStack.has_active_list
    CallStack.has_active_call CallStack.depth CallStack.reset CallStack.root_list CallStack.root
    CallStack.parent_list CallStack.parent CallStack.parent_index_of CallStack.parent_index
    CallStack.modify_list CallStack.modify_top Deferred.new_deferred_call_state
    Deferred.is_empty_state Deferred.has_call_only_changes Deferred.reset
    Deferred.add_account_creation Deferred.add_balance_change Deferred.add_nonce_change
    Deferred.add_code_change Deferred.add_storage_change Deferred.add_log Deferred.prepend
    Deferred.append Deferred.maybe_populate_call_and_reset
call_runs = (
  ok-ok_or blank (run external outer_hooks begun_block) refl,
  ok-ok_or blank (step external entering in_call) refl,
  ok-ok_or blank (run external (take 8 hooks) begun_block) refl,
  refl,
  refl,
  refl,
  refl,
  refl,
)

pub system_call_runs :
    (in_call.transaction ≡ some (transaction_or in_call.transaction))
    × (on_system_call_start in_call ≡ ok system_started)
    × (run external system_hooks system_started ≡ ok system_traced)
    × (on_system_call_end system_traced ≡ ok system_ended)
unfolding search_loop sort_search is_above base_if_near keccak_slot_base words_fuel
    inner_keccak_hash_candidates contains lookup insert_new preimages_of keep keep_found keep_words
    slot_keys all_slot_keys expand rounds storage_slot_hashes add_preimage has_index modify_by_index
    attach_kept attach_storage_slot_preimages is_timestamp_forked is_block_forked is_shanghai
    is_cancun is_prague is_verkle rules big_int_equal big_int_to_protobuf chain_is_string
    error_is_string ◌+ℤ◌ insert_by sort_by bytes_eq all_zero from_bytes_acc from_bytes to_bytes_fuel
    to_bytes step run new_tracer tick modify_block reset_transaction ensure_block_chain_init
    ensure_in_block ensure_not_in_block ensure_in_block_and_in_trx ensure_in_block_and_not_in_trx
    ensure_in_block_and_not_in_trx_and_not_in_call ensure_in_block_or_trx
    ensure_in_block_and_in_trx_and_in_call ensure_in_call ensure_in_system_call
    attach_balance_change on_balance_change attach_nonce_change on_nonce_change new_code_change
    code_change_on_call attach_code_change on_code_change attach_storage_change on_storage_change
    attach_log on_log call_type_to_proto parse_delegation delegation_of resolve_delegation
    populate_on_enter entered_call enter_call on_call_enter is_revert_error exit_call append_call
    on_call_exit on_opcode on_opcode_fault on_keccak_preimage capped_price dynamic_price
    compute_effective_gas_price normalize_signature_point blob_gas_of access_list_to_proto
    with_authority authorization_to_proto authorizations_to_proto create_address recipient
    on_tx_start used_before find_nonce_change discard_uncommitted
    discard_uncommitted_set_code_authorizations log_to_proto new_receipt_from_data populate_receipt
    parent_state_reverted populate_loop populate_state_reverted is_never_reverted remove_block_index
    surviving_logs assign_logs assign_ordinal_and_index_to_receipt_logs populate_on_end
    finish_transaction end_without_calls end_with_calls complete_transaction store_trace
    drop_transaction end_transaction on_tx_end save_transaction interrupt_transaction
    resume_transaction on_system_call_start on_system_call_end required_difficulty
    new_block_header_from_block_data new_block_header_from_uncle_data is_flash_block
    get_flash_block_index has_flash_block_snapshot snapshot_block release_block reset_block
    check_snapshot handle_flash_block_start slice_to restore_flash_block_snapshot
    snapshot_flash_block_for_next_iteration new_block withdrawal_to_proto add_block_lists
    on_block_start reorder_isolated_transactions_and_ordinals write_output emit block_output
    flush_block abandon_block on_block_end on_skipped_block write_outputs on_close
    new_isolated_transaction_tracer on_tx_spawn on_tx_reset shift_call reorder_call_ordinals
    reorder_transaction_ordinals reorder_calls_in_turn reorder_trace_ordinals
    add_isolated_transaction add_isolated_system_calls commit_transient on_tx_commit
    validate_signature_values fill_bytes compute_set_code_sig_hash recover_public_key
    default_set_code_auth_recovery compute_lib_num compute_printed_flash_block_index Ordinal.next
    Ordinal.peek Ordinal.set Ordinal.reset Ordinal.restore Finality.reset
    Finality.populate_block_status Finality.set_last_finalized_block Finality.last_finalized_block
    Finality.is_empty CallStack.new_call_stack CallStack.peek_list CallStack.peek CallStack.link
    CallStack.push CallStack.pop_list CallStack.pop CallStack.has_active_list
    CallStack.has_active_call CallStack.depth CallStack.reset CallStack.root_list CallStack.root
    CallStack.parent_list CallStack.parent CallStack.parent_index_of CallStack.parent_index
    CallStack.modify_list CallStack.modify_top Deferred.new_deferred_call_state
    Deferred.is_empty_state Deferred.has_call_only_changes Deferred.reset
    Deferred.add_account_creation Deferred.add_balance_change Deferred.add_nonce_change
    Deferred.add_code_change Deferred.add_storage_change Deferred.add_log Deferred.prepend
    Deferred.append Deferred.maybe_populate_call_and_reset
system_call_runs = (
  refl,
  ok-ok_or blank (on_system_call_start in_call) refl,
  ok-ok_or blank (run external system_hooks system_started) refl,
  ok-ok_or blank (on_system_call_end system_traced) refl,
)

pub flash_runs :
    (flash_traced.block ≡ some flash_block)
    × (flash_traced.flash_block_index ≡ some 1)
    × (snapshot_flash_block_for_next_iteration flash_traced ≡ ok flash_snapshot)
    × (flash_grown.snapshot_for_next_flash_block ≡ flash_snapshot.snapshot_for_next_flash_block)
    × (flash_grown.block ≡ some flash_block_later)
    × (flash_grown.config.before_block_flush ≡ none)
    × (on_block_end none flash_grown ≡ ok flash_ended)
    × (flash_ended.chain_config ≡ some chain)
    × (flash_block_later.number ≡ (flash_event 2).block.number)
    × (on_block_start (flash_event 2) flash_ended ≡ ok flash_again)
    × (run external short_hooks flash_snapshot ≡ ok flash_grown)
    × (flash_traced.config.before_block_flush ≡ none)
    × (flash_block.number ≡ (flash_event 2).block.number)
unfolding search_loop sort_search is_above base_if_near keccak_slot_base words_fuel
    inner_keccak_hash_candidates contains lookup insert_new preimages_of keep keep_found keep_words
    slot_keys all_slot_keys expand rounds storage_slot_hashes add_preimage has_index modify_by_index
    attach_kept attach_storage_slot_preimages is_timestamp_forked is_block_forked is_shanghai
    is_cancun is_prague is_verkle rules big_int_equal big_int_to_protobuf chain_is_string
    error_is_string ◌+ℤ◌ insert_by sort_by bytes_eq all_zero from_bytes_acc from_bytes to_bytes_fuel
    to_bytes step run new_tracer tick modify_block reset_transaction ensure_block_chain_init
    ensure_in_block ensure_not_in_block ensure_in_block_and_in_trx ensure_in_block_and_not_in_trx
    ensure_in_block_and_not_in_trx_and_not_in_call ensure_in_block_or_trx
    ensure_in_block_and_in_trx_and_in_call ensure_in_call ensure_in_system_call
    attach_balance_change on_balance_change attach_nonce_change on_nonce_change new_code_change
    code_change_on_call attach_code_change on_code_change attach_storage_change on_storage_change
    attach_log on_log call_type_to_proto parse_delegation delegation_of resolve_delegation
    populate_on_enter entered_call enter_call on_call_enter is_revert_error exit_call append_call
    on_call_exit on_opcode on_opcode_fault on_keccak_preimage capped_price dynamic_price
    compute_effective_gas_price normalize_signature_point blob_gas_of access_list_to_proto
    with_authority authorization_to_proto authorizations_to_proto create_address recipient
    on_tx_start used_before find_nonce_change discard_uncommitted
    discard_uncommitted_set_code_authorizations log_to_proto new_receipt_from_data populate_receipt
    parent_state_reverted populate_loop populate_state_reverted is_never_reverted remove_block_index
    surviving_logs assign_logs assign_ordinal_and_index_to_receipt_logs populate_on_end
    finish_transaction end_without_calls end_with_calls complete_transaction store_trace
    drop_transaction end_transaction on_tx_end save_transaction interrupt_transaction
    resume_transaction on_system_call_start on_system_call_end required_difficulty
    new_block_header_from_block_data new_block_header_from_uncle_data is_flash_block
    get_flash_block_index has_flash_block_snapshot snapshot_block release_block reset_block
    check_snapshot handle_flash_block_start slice_to restore_flash_block_snapshot
    snapshot_flash_block_for_next_iteration new_block withdrawal_to_proto add_block_lists
    on_block_start reorder_isolated_transactions_and_ordinals write_output emit block_output
    flush_block abandon_block on_block_end on_skipped_block write_outputs on_close
    new_isolated_transaction_tracer on_tx_spawn on_tx_reset shift_call reorder_call_ordinals
    reorder_transaction_ordinals reorder_calls_in_turn reorder_trace_ordinals
    add_isolated_transaction add_isolated_system_calls commit_transient on_tx_commit
    validate_signature_values fill_bytes compute_set_code_sig_hash recover_public_key
    default_set_code_auth_recovery compute_lib_num compute_printed_flash_block_index Ordinal.next
    Ordinal.peek Ordinal.set Ordinal.reset Ordinal.restore Finality.reset
    Finality.populate_block_status Finality.set_last_finalized_block Finality.last_finalized_block
    Finality.is_empty CallStack.new_call_stack CallStack.peek_list CallStack.peek CallStack.link
    CallStack.push CallStack.pop_list CallStack.pop CallStack.has_active_list
    CallStack.has_active_call CallStack.depth CallStack.reset CallStack.root_list CallStack.root
    CallStack.parent_list CallStack.parent CallStack.parent_index_of CallStack.parent_index
    CallStack.modify_list CallStack.modify_top Deferred.new_deferred_call_state
    Deferred.is_empty_state Deferred.has_call_only_changes Deferred.reset
    Deferred.add_account_creation Deferred.add_balance_change Deferred.add_nonce_change
    Deferred.add_code_change Deferred.add_storage_change Deferred.add_log Deferred.prepend
    Deferred.append Deferred.maybe_populate_call_and_reset
flash_runs = (
  refl,
  refl,
  ok-ok_or blank (snapshot_flash_block_for_next_iteration flash_traced) refl,
  refl,
  refl,
  refl,
  ok-ok_or blank (on_block_end none flash_grown) refl,
  refl,
  refl,
  ok-ok_or blank (on_block_start (flash_event 2) flash_ended) refl,
  ok-ok_or blank (run external short_hooks flash_snapshot) refl,
  refl,
  refl,
)

pub flash_grows : Grown flash_block flash_block_later
unfolding search_loop sort_search is_above base_if_near keccak_slot_base words_fuel
    inner_keccak_hash_candidates contains lookup insert_new preimages_of keep keep_found keep_words
    slot_keys all_slot_keys expand rounds storage_slot_hashes add_preimage has_index modify_by_index
    attach_kept attach_storage_slot_preimages is_timestamp_forked is_block_forked is_shanghai
    is_cancun is_prague is_verkle rules big_int_equal big_int_to_protobuf chain_is_string
    error_is_string ◌+ℤ◌ insert_by sort_by bytes_eq all_zero from_bytes_acc from_bytes to_bytes_fuel
    to_bytes step run new_tracer tick modify_block reset_transaction ensure_block_chain_init
    ensure_in_block ensure_not_in_block ensure_in_block_and_in_trx ensure_in_block_and_not_in_trx
    ensure_in_block_and_not_in_trx_and_not_in_call ensure_in_block_or_trx
    ensure_in_block_and_in_trx_and_in_call ensure_in_call ensure_in_system_call
    attach_balance_change on_balance_change attach_nonce_change on_nonce_change new_code_change
    code_change_on_call attach_code_change on_code_change attach_storage_change on_storage_change
    attach_log on_log call_type_to_proto parse_delegation delegation_of resolve_delegation
    populate_on_enter entered_call enter_call on_call_enter is_revert_error exit_call append_call
    on_call_exit on_opcode on_opcode_fault on_keccak_preimage capped_price dynamic_price
    compute_effective_gas_price normalize_signature_point blob_gas_of access_list_to_proto
    with_authority authorization_to_proto authorizations_to_proto create_address recipient
    on_tx_start used_before find_nonce_change discard_uncommitted
    discard_uncommitted_set_code_authorizations log_to_proto new_receipt_from_data populate_receipt
    parent_state_reverted populate_loop populate_state_reverted is_never_reverted remove_block_index
    surviving_logs assign_logs assign_ordinal_and_index_to_receipt_logs populate_on_end
    finish_transaction end_without_calls end_with_calls complete_transaction store_trace
    drop_transaction end_transaction on_tx_end save_transaction interrupt_transaction
    resume_transaction on_system_call_start on_system_call_end required_difficulty
    new_block_header_from_block_data new_block_header_from_uncle_data is_flash_block
    get_flash_block_index has_flash_block_snapshot snapshot_block release_block reset_block
    check_snapshot handle_flash_block_start slice_to restore_flash_block_snapshot
    snapshot_flash_block_for_next_iteration new_block withdrawal_to_proto add_block_lists
    on_block_start reorder_isolated_transactions_and_ordinals write_output emit block_output
    flush_block abandon_block on_block_end on_skipped_block write_outputs on_close
    new_isolated_transaction_tracer on_tx_spawn on_tx_reset shift_call reorder_call_ordinals
    reorder_transaction_ordinals reorder_calls_in_turn reorder_trace_ordinals
    add_isolated_transaction add_isolated_system_calls commit_transient on_tx_commit
    validate_signature_values fill_bytes compute_set_code_sig_hash recover_public_key
    default_set_code_auth_recovery compute_lib_num compute_printed_flash_block_index Ordinal.next
    Ordinal.peek Ordinal.set Ordinal.reset Ordinal.restore Finality.reset
    Finality.populate_block_status Finality.set_last_finalized_block Finality.last_finalized_block
    Finality.is_empty CallStack.new_call_stack CallStack.peek_list CallStack.peek CallStack.link
    CallStack.push CallStack.pop_list CallStack.pop CallStack.has_active_list
    CallStack.has_active_call CallStack.depth CallStack.reset CallStack.root_list CallStack.root
    CallStack.parent_list CallStack.parent CallStack.parent_index_of CallStack.parent_index
    CallStack.modify_list CallStack.modify_top Deferred.new_deferred_call_state
    Deferred.is_empty_state Deferred.has_call_only_changes Deferred.reset
    Deferred.add_account_creation Deferred.add_balance_change Deferred.add_nonce_change
    Deferred.add_code_change Deferred.add_storage_change Deferred.add_log Deferred.prepend
    Deferred.append Deferred.maybe_populate_call_and_reset
flash_grows = record {
  traces = drop 1 flash_block_later.transaction_traces;
  system_calls = [];
  balance_changes = [];
  code_changes = [];
  traces_eq = refl;
  system_calls_eq = refl;
  balance_changes_eq = refl;
  code_changes_eq = refl;
}

pub isolated_runs :
    (on_tx_spawn traced_block ≡ ok spawned)
    × (isolated.transaction_transient ≡ some isolated_trace)
    × (isolated.transaction_dropped ≡ false)
    × (isolated.transaction_isolated ≡ true)
    × (on_tx_commit traced_block isolated ≡ ok (none, committed.1, committed.2))
    × (on_tx_reset isolated ≡ ok reset_isolated)
    × (traced_block.block_ordinal.value ≡ 9)
    × (isolated_trace.begin_ordinal ≡ 1)
    × (isolated_trace.end_ordinal ≡ 5)
    × ((k : ℕ)
        → occurs_in_transaction k isolated_trace
          ≡ hit k 1 + hit k 5 + occurs_in_calls k isolated_trace.calls)
    × ((k : ℕ)
        → occurs_in_calls k isolated_trace.calls
          ≡ hit k 2 + hit k 4 + 0 + 0 + 0 + 0 + (hit k 3 + 0) + 0)
    × ((k : ℕ) → occurs_in_call_logs k isolated_trace.calls ≡ hit k 3 + 0 + 0)
    × ((k : ℕ) → occurs_in_receipt k isolated_trace.receipt ≡ hit k 3 + 0)
unfolding occurs_in_transaction occurs_in_call search_loop sort_search is_above base_if_near
    keccak_slot_base words_fuel inner_keccak_hash_candidates contains lookup insert_new preimages_of
    keep keep_found keep_words slot_keys all_slot_keys expand rounds storage_slot_hashes
    add_preimage has_index modify_by_index attach_kept attach_storage_slot_preimages
    is_timestamp_forked is_block_forked is_shanghai is_cancun is_prague is_verkle rules
    big_int_equal big_int_to_protobuf chain_is_string error_is_string ◌+ℤ◌ insert_by sort_by
    bytes_eq all_zero from_bytes_acc from_bytes to_bytes_fuel to_bytes step run new_tracer tick
    modify_block reset_transaction ensure_block_chain_init ensure_in_block ensure_not_in_block
    ensure_in_block_and_in_trx ensure_in_block_and_not_in_trx
    ensure_in_block_and_not_in_trx_and_not_in_call ensure_in_block_or_trx
    ensure_in_block_and_in_trx_and_in_call ensure_in_call ensure_in_system_call
    attach_balance_change on_balance_change attach_nonce_change on_nonce_change new_code_change
    code_change_on_call attach_code_change on_code_change attach_storage_change on_storage_change
    attach_log on_log call_type_to_proto parse_delegation delegation_of resolve_delegation
    populate_on_enter entered_call enter_call on_call_enter is_revert_error exit_call append_call
    on_call_exit on_opcode on_opcode_fault on_keccak_preimage capped_price dynamic_price
    compute_effective_gas_price normalize_signature_point blob_gas_of access_list_to_proto
    with_authority authorization_to_proto authorizations_to_proto create_address recipient
    on_tx_start used_before find_nonce_change discard_uncommitted
    discard_uncommitted_set_code_authorizations log_to_proto new_receipt_from_data populate_receipt
    parent_state_reverted populate_loop populate_state_reverted is_never_reverted remove_block_index
    surviving_logs assign_logs assign_ordinal_and_index_to_receipt_logs populate_on_end
    finish_transaction end_without_calls end_with_calls complete_transaction store_trace
    drop_transaction end_transaction on_tx_end save_transaction interrupt_transaction
    resume_transaction on_system_call_start on_system_call_end required_difficulty
    new_block_header_from_block_data new_block_header_from_uncle_data is_flash_block
    get_flash_block_index has_flash_block_snapshot snapshot_block release_block reset_block
    check_snapshot handle_flash_block_start slice_to restore_flash_block_snapshot
    snapshot_flash_block_for_next_iteration new_block withdrawal_to_proto add_block_lists
    on_block_start reorder_isolated_transactions_and_ordinals write_output emit block_output
    flush_block abandon_block on_block_end on_skipped_block write_outputs on_close
    new_isolated_transaction_tracer on_tx_spawn on_tx_reset shift_call reorder_call_ordinals
    reorder_transaction_ordinals reorder_calls_in_turn reorder_trace_ordinals
    add_isolated_transaction add_isolated_system_calls commit_transient on_tx_commit
    validate_signature_values fill_bytes compute_set_code_sig_hash recover_public_key
    default_set_code_auth_recovery compute_lib_num compute_printed_flash_block_index Ordinal.next
    Ordinal.peek Ordinal.set Ordinal.reset Ordinal.restore Finality.reset
    Finality.populate_block_status Finality.set_last_finalized_block Finality.last_finalized_block
    Finality.is_empty CallStack.new_call_stack CallStack.peek_list CallStack.peek CallStack.link
    CallStack.push CallStack.pop_list CallStack.pop CallStack.has_active_list
    CallStack.has_active_call CallStack.depth CallStack.reset CallStack.root_list CallStack.root
    CallStack.parent_list CallStack.parent CallStack.parent_index_of CallStack.parent_index
    CallStack.modify_list CallStack.modify_top Deferred.new_deferred_call_state
    Deferred.is_empty_state Deferred.has_call_only_changes Deferred.reset
    Deferred.add_account_creation Deferred.add_balance_change Deferred.add_nonce_change
    Deferred.add_code_change Deferred.add_storage_change Deferred.add_log Deferred.prepend
    Deferred.append Deferred.maybe_populate_call_and_reset
isolated_runs = (
  ok-ok_or blank (on_tx_spawn traced_block) refl,
  refl,
  refl,
  refl,
  ok-ok_or (none, blank, blank) (on_tx_commit traced_block isolated) refl
      ∙ ap (λ e. ok (e, committed.1, committed.2)) refl,
  ok-ok_or blank (on_tx_reset isolated) refl,
  refl,
  refl,
  refl,
  λ k. refl,
  λ k. refl,
  λ k. refl,
  λ k. refl,
)
