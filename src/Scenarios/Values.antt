-- ===== src/Scenarios/Values.antt =====
-- The properties of single functions, at concrete values.
use Prim.Native.Nat.{min, max}
use evm_firehose_tracer_go.Prelude.{
  ℕ, ◌+◌, ◌-◌, ◌/◌, ◌^◌, ◌≤◌, ◌<◌, ◌≡◌, ◌≢◌, ◌↔◌, ◌⊎◌, refl, List, [], ◌∷◌, ◌++◌, none, some, true,
  false, take, length, get_elem?, replicate, arith, map, total, u64, if◌then◌else◌,
}
use evm_firehose_tracer_go.Prelude.Int.{ℤ, gtb_ℤ, ◌+ℤ◌, pos}
use evm_firehose_tracer_go.Prelude.Bytes.{Bytes, bytes_eq, IsByteString, from_bytes, from_bytes_acc}
use evm_firehose_tracer_go.Prelude.Sort.{sort_by, insert_by, IsSortedBy}
use evm_firehose_tracer_go.Pb.{
  Call, SetCodeAuthorization, Log, TransactionTrace, zero_call, zero_transaction,
}
use evm_firehose_tracer_go.Types.BigInt.{
  big_int_equal, big_int_equal_iff, big_int_to_protobuf, decode-big_int_to_protobuf, decode,
  value_of,
}
use evm_firehose_tracer_go.Config.{rules}
use evm_firehose_tracer_go.Config.Forks.{Extends, rules-Extends}
use evm_firehose_tracer_go.Deferred
use evm_firehose_tracer_go.Deferred.{
  DeferredCallState, prepend, append, maybe_populate_call_and_reset,
}
use evm_firehose_tracer_go.Deferred.Laws.{populate_both}
use evm_firehose_tracer_go.Hex.{hex, address_from_hex, hash_from_hex}
use evm_firehose_tracer_go.Hex.RoundTrip.{address_from_hex-hex, hash_from_hex-hex}
use evm_firehose_tracer_go.Fees.{effective_gas_price_capped}
use evm_firehose_tracer_go.Tracer.Transactions.{compute_effective_gas_price}
use evm_firehose_tracer_go.Keccak.{
  RecordedPreimage, search_loop, is_above, base_if_near, sort_search, keccak_slot_base,
  storage_slot_hashes, contains, rounds, expand, keep_words, keep_found, keep, preimages_of,
  insert_new, all_slot_keys, slot_keys, inner_keccak_hash_candidates, words_fuel, lookup,
}
use evm_firehose_tracer_go.Keccak.Closure.{Within, sorted_hashes, storage_slot_hashes_iff}
use evm_firehose_tracer_go.Keccak.Filter.{keccak_slot_base_finds, keccak_slot_base_recorded}
use evm_firehose_tracer_go.SetCode.{validate_signature_values, secp256k1_n}
use evm_firehose_tracer_go.SetCode.Validation.{validate_signature_values_iff}
use evm_firehose_tracer_go.Printer.{compute_lib_num, flush_loop}
use evm_firehose_tracer_go.Printer.LibNum.{compute_lib_num_clamps}
use evm_firehose_tracer_go.Printer.Flush.{flush_loop_writes, sum}
use evm_firehose_tracer_go.FlushQueue.{
  Worker, waiting, holding, ConcurrentFlushQueue, new_concurrent_flush_queue, start, push,
  hand_over, receive, print, close_queue, Steps, stop, then_step, pushes, hands_over, receives,
  prints, closes,
}
use evm_firehose_tracer_go.FlushQueue.Fifo.{held, has_finished, Steps-fifo}
use evm_firehose_tracer_go.Tracer.State.{ok}
use evm_firehose_tracer_go.Tracer.Parallel.{reorder_trace_ordinals, reorder_transaction_ordinals}
use evm_firehose_tracer_go.Isolation.{reorder_trace_ordinals_differs}
use evm_firehose_tracer_go.Tracer.Completion.{
  assign_ordinal_and_index_to_receipt_logs, receipt_logs, with_logs, surviving_logs, log_ordinal,
  discard_uncommitted_set_code_authorizations,
}
use evm_firehose_tracer_go.Authorizations.{
  one_if, raises, asked, left, unmarked, authorizations_left,
}
use evm_firehose_tracer_go.Receipts.{
  log_block_index, paired, call_logs, receipt_logs_assigned, receipt_logs_mismatch, is_stamped,
  unstamped, stays, receipt_logs-paired,
}
use evm_firehose_tracer_go.Scenarios.{tx, chain, config, word, addr_a}

flush_loop_writes_example :
    ((flush_loop 10 (2 ∷ 0 ∷ 5 ∷ []) (1 ∷ 2 ∷ 3 ∷ []) []).0
      ≡ [] ++ take (sum (take 10 (2 ∷ 0 ∷ 5 ∷ []))) (1 ∷ 2 ∷ 3 ∷ []))
    × (((flush_loop 10 (2 ∷ 0 ∷ 5 ∷ []) (1 ∷ 2 ∷ 3 ∷ []) []).1 ≡ true) ↔ (3 ≤ 7))
flush_loop_writes_example = flush_loop_writes 10 (2 ∷ 0 ∷ 5 ∷ []) (1 ∷ 2 ∷ 3 ∷ []) [] (omega arith)

compute_lib_num_clamps_example :
    compute_lib_num 1000 (record { last_finalized_block_number = 700 })
    ≡ min 1000 (max (1000 - 200) 700)
compute_lib_num_clamps_example =
    compute_lib_num_clamps 1000 (record { last_finalized_block_number = 700 })

abbrev queue_0 : ConcurrentFlushQueue ℕ
queue_0 = start (new_concurrent_flush_queue 2)

-- One job is handed to the waiting worker, one waits in the buffer.
abbrev queue_1 : ConcurrentFlushQueue ℕ
queue_1 = push 8 (hand_over 7 [] [] queue_0)

abbrev queue_2 : ConcurrentFlushQueue ℕ
queue_2 = close_queue (receive 8 [] [] [] (print 7 [] [] queue_1))

queue-Steps : Steps queue_0 queue_2
unfolding new_concurrent_flush_queue start push hand_over receive print close_queue
queue-Steps =
    then_step queue_0 (receive 8 [] [] [] (print 7 [] [] queue_1)) queue_2
      (then_step queue_0 (print 7 [] [] queue_1) (receive 8 [] [] [] (print 7 [] [] queue_1))
        (then_step queue_0 queue_1 (print 7 [] [] queue_1)
          (then_step queue_0 (hand_over 7 [] [] queue_0) queue_1
            (then_step queue_0 queue_0 (hand_over 7 [] [] queue_0) (stop queue_0)
              (hands_over 7 [] [] refl refl refl))
            (pushes 8 refl (omega arith)))
          (prints 7 [] [] refl))
        (receives 8 [] [] [] refl refl))
      closes

Steps-fifo_example :
    (w : Worker ℕ) × (queue_2.workers ≡ w ∷ [])
    × (queue_2.printed ++ (held w ++ queue_2.job_queue) ≡ queue_2.pushed)
    × (length queue_2.job_queue ≤ 2)
    × ((has_finished w ≡ false) ⊎ (queue_2.printed ≡ queue_2.pushed))
Steps-fifo_example = Steps-fifo 2 queue_2 queue-Steps

-- With a second worker, blocks can be printed in another order.
abbrev raced_0 : ConcurrentFlushQueue ℕ
raced_0 = start (start (new_concurrent_flush_queue 2))

abbrev raced_1 : ConcurrentFlushQueue ℕ
raced_1 = hand_over 8 (holding 7 ∷ []) [] (hand_over 7 [] (waiting ∷ []) raced_0)

abbrev raced_2 : ConcurrentFlushQueue ℕ
raced_2 = print 7 [] (waiting ∷ []) (print 8 (holding 7 ∷ []) [] raced_1)

two_workers_race :
    Steps raced_0 raced_2 × (raced_2.pushed ≡ 7 ∷ 8 ∷ []) × (raced_2.printed ≡ 8 ∷ 7 ∷ [])
unfolding new_concurrent_flush_queue start hand_over print
two_workers_race = (
  then_step raced_0 (print 8 (holding 7 ∷ []) [] raced_1) raced_2
      (then_step raced_0 raced_1 (print 8 (holding 7 ∷ []) [] raced_1)
        (then_step raced_0 (hand_over 7 [] (waiting ∷ []) raced_0) raced_1
          (then_step raced_0 raced_0 (hand_over 7 [] (waiting ∷ []) raced_0) (stop raced_0)
            (hands_over 7 [] (waiting ∷ []) refl refl refl))
          (hands_over 8 (holding 7 ∷ []) [] refl refl refl))
        (prints 8 (holding 7 ∷ []) [] refl))
      (prints 7 [] (waiting ∷ []) refl),
  refl,
  refl,
)

abbrev slot_word : Bytes
slot_word = replicate 31 1 ++ 9 ∷ []

abbrev hashes : List Bytes
hashes = word 1 ∷ word 2 ∷ []

slot_facts :
    (from_bytes (word 1) ≤ from_bytes (word 2))
    × (from_bytes slot_word < 2 ^ 256)
    × (from_bytes (word 1) ≤ from_bytes slot_word)
    × (from_bytes slot_word < from_bytes (word 1) + 2 ^ 64)
unfolding from_bytes from_bytes_acc
slot_facts = (omega arith, omega arith, omega arith, omega arith)

keccak_slot_base_finds_example :
    (base : Bytes) × (keccak_slot_base hashes slot_word ≡ some base)
    × (from_bytes (word 1) ≤ from_bytes base)
    × (from_bytes base ≤ from_bytes slot_word)
keccak_slot_base_finds_example =
    keccak_slot_base_finds hashes slot_word 0 (word 1) ((slot_facts.0, tt), (tt, tt)) slot_facts.1
      refl slot_facts.2 slot_facts.3

slot_found : keccak_slot_base hashes slot_word ≡ some (word 1)
unfolding keccak_slot_base sort_search search_loop is_above base_if_near from_bytes from_bytes_acc
slot_found = refl

keccak_slot_base_recorded_example :
    (j : ℕ) × (get_elem? hashes j ≡ some (word 1)) × (from_bytes (word 1) ≤ from_bytes slot_word)
keccak_slot_base_recorded_example =
    keccak_slot_base_recorded hashes slot_word (word 1) ((slot_facts.0, tt), (tt, tt)) slot_found

-- A storage key at an offset from a recorded hash, whose preimage holds another one.
abbrev slot_call : Call
slot_call = record zero_call {
  storage_changes =
      record { address = addr_a; key = slot_word; old_value = []; new_value = []; ordinal = 0 }
      ∷ [];
}

abbrev recorded : List RecordedPreimage
recorded =
    record { call_index = 1; hash = word 1; preimage = word 2 }
    ∷ record { call_index = 1; hash = word 2; preimage = [] }
    ∷ []

storage_slot_hashes_iff_example :
    (contains (storage_slot_hashes (slot_call ∷ []) recorded) (word 2) ≡ true)
    ↔ Within
        (sorted_hashes recorded)
        (preimages_of [] recorded)
        (all_slot_keys (slot_call ∷ []))
        16
        (word 2)
storage_slot_hashes_iff_example = storage_slot_hashes_iff (slot_call ∷ []) recorded (word 2)

-- The search goes through the preimage of the first hash to the second.
slot_kept : contains (storage_slot_hashes (slot_call ∷ []) recorded) (word 2) ≡ true
unfolding storage_slot_hashes contains rounds expand keep_words keep_found keep keccak_slot_base
    sort_search search_loop is_above base_if_near from_bytes from_bytes_acc preimages_of insert_new
    all_slot_keys slot_keys inner_keccak_hash_candidates words_fuel lookup sort_by insert_by
    bytes_eq
slot_kept = refl

effective_gas_price_capped_example :
    (price : ℤ) × (compute_effective_gas_price tx (some (pos 8)) ≡ some price)
    × (gtb_ℤ price (pos 9) ≡ false)
    × (gtb_ℤ price (pos 2 +ℤ pos 8) ≡ false)
    × ((price ≡ pos 9) ⊎ (price ≡ pos 2 +ℤ pos 8))
effective_gas_price_capped_example =
    effective_gas_price_capped tx (pos 8) (pos 2) (pos 9) refl refl refl

abbrev nonce_before : DeferredCallState
nonce_before = record Deferred.reset {
  nonce_changes = record { address = addr_a; old_value = 4; new_value = 5; ordinal = 2 } ∷ [];
}

populate_both_example :
    (entered : Call) × (root : Call) × (maybe_populate_call_and_reset "enter" nonce_before zero_call
      ≡ some (entered, Deferred.reset))
    × (maybe_populate_call_and_reset "root" nonce_before entered ≡ some (root, Deferred.reset))
    × (root.account_creations
        ≡ (nonce_before.account_creations ++ zero_call.account_creations)
          ++ nonce_before.account_creations)
    × (root.balance_changes
        ≡ (nonce_before.balance_changes ++ zero_call.balance_changes)
          ++ nonce_before.balance_changes)
    × (root.nonce_changes
        ≡ (nonce_before.nonce_changes ++ zero_call.nonce_changes) ++ nonce_before.nonce_changes)
    × (root.code_changes
        ≡ (nonce_before.code_changes ++ zero_call.code_changes) ++ nonce_before.code_changes)
    × (root.storage_changes
        ≡ (nonce_before.storage_changes ++ zero_call.storage_changes)
          ++ nonce_before.storage_changes)
    × (root.logs ≡ (nonce_before.logs ++ zero_call.logs) ++ nonce_before.logs)
    × (zero_call ≡ record root {
      account_creations = zero_call.account_creations;
      balance_changes = zero_call.balance_changes;
      nonce_changes = zero_call.nonce_changes;
      code_changes = zero_call.code_changes;
      storage_changes = zero_call.storage_changes;
      logs = zero_call.logs;
    })
populate_both_example = populate_both nonce_before nonce_before zero_call

addr_a-IsByteString : IsByteString addr_a
addr_a-IsByteString = ground arith

address_from_hex-hex_example : address_from_hex (hex addr_a) ≡ addr_a
address_from_hex-hex_example = address_from_hex-hex addr_a refl addr_a-IsByteString

word-IsByteString : IsByteString (word 171)
word-IsByteString = ground arith

hash_from_hex-hex_example : hash_from_hex (hex (word 171)) ≡ word 171
hash_from_hex-hex_example = hash_from_hex-hex (word 171) refl word-IsByteString

big_int_equal_iff_example : (big_int_equal none (some (pos 0)) ≡ true) ↔ (pos 0 ≡ pos 0)
big_int_equal_iff_example = big_int_equal_iff none (some (pos 0))

decode-big_int_to_protobuf_example :
    ((big_int_to_protobuf (some (pos 70000)) ≡ none) ↔ (value_of (some (pos 70000)) ≡ pos 0))
    × (decode (big_int_to_protobuf (some (pos 70000))) ≡ 70000)
decode-big_int_to_protobuf_example = decode-big_int_to_protobuf (some (pos 70000))

abbrev v_legacy : ℕ
v_legacy = 27

validate_signature_values_iff_example : (validate_signature_values v_legacy 5 9 ≡ true) ↔ (
    ((v_legacy ≡ 0) ⊎ (v_legacy ≡ 1) ⊎ (v_legacy ≡ 27) ⊎ (v_legacy ≡ 28))
    × (0 < 5)
    × (5 < secp256k1_n)
    × (0 < 9)
    × (9 ≤ secp256k1_n / 2))
validate_signature_values_iff_example = validate_signature_values_iff v_legacy 5 9

rules-Extends_example :
    Extends (rules chain (some (pos 7)) true 12) (rules chain (some (pos 40)) true 25)
rules-Extends_example = rules-Extends chain (pos 7) (pos 40) true true 12 25 refl (omega arith)

abbrev two_calls : TransactionTrace
two_calls = record zero_transaction {
  calls =
      record zero_call { begin_ordinal = 2; end_ordinal = 3 }
      ∷ record zero_call { begin_ordinal = 4; end_ordinal = 5 }
      ∷ [];
}

reorder_trace_ordinals_differs_example :
    (first : Call) × (too_far : Call) × (right : Call) × (too_far_rest : List Call)
    × (right_rest : List Call) × ((reorder_trace_ordinals two_calls 10).0.calls
        ≡ first ∷ too_far ∷ too_far_rest)
    × ((reorder_transaction_ordinals two_calls 10).0.calls ≡ first ∷ right ∷ right_rest)
    × (too_far.begin_ordinal ≡ u64 (right.begin_ordinal + 3))
    × (too_far.end_ordinal ≡ u64 (right.end_ordinal + 3))
    × (too_far.begin_ordinal ≢ right.begin_ordinal)
reorder_trace_ordinals_differs_example =
    reorder_trace_ordinals_differs two_calls
      (record zero_call { begin_ordinal = 2; end_ordinal = 3 })
      (record zero_call { begin_ordinal = 4; end_ordinal = 5 }) [] 10 refl (omega arith)
      (omega arith)

abbrev authorization : SetCodeAuthorization
authorization = record {
  discarded = false;
  chain_id = [];
  address = addr_a;
  nonce = 4;
  v = 0;
  r = [];
  s = [];
  authority = addr_a;
}

-- Two authorizations of one nonce, of which the transaction used one, and one of nobody.
abbrev delegating : TransactionTrace
delegating = record zero_transaction {
  set_code_authorizations =
      authorization
      ∷ record authorization { discarded = true; authority = [] }
      ∷ authorization
      ∷ [];
}

abbrev delegating_root : Call
delegating_root = record zero_call {
  nonce_changes = record { address = addr_a; old_value = 4; new_value = 5; ordinal = 2 } ∷ [];
}

abbrev delegated : List SetCodeAuthorization
delegated =
    (discard_uncommitted_set_code_authorizations delegating_root delegating).set_code_authorizations

authorizations_left_example :
    (left addr_a 4 delegated
      ≡ min
          (asked addr_a 4 delegating.set_code_authorizations)
          (total (λ c. one_if (raises addr_a 4 c)) delegating_root.nonce_changes))
    × (map unmarked delegated ≡ map unmarked delegating.set_code_authorizations)
authorizations_left_example =
    authorizations_left addr_a 4 delegating_root delegating refl (refl, (refl, (refl, tt)))

abbrev logged : Log
logged = record {
  address = addr_a;
  topics = [];
  payload = [];
  index = 0;
  block_index = 4;
  ordinal = 3;
}

abbrev logged_trx : TransactionTrace
logged_trx = record zero_transaction {
  calls = record zero_call { logs = logged ∷ [] } ∷ [];
  receipt = some (record {
    state_root = [];
    cumulative_gas_used = 0;
    logs_bloom = [];
    logs = record logged { ordinal = 0 } ∷ [];
    blob_gas_used = none;
    blob_gas_price = none;
  });
}

logged_same :
    map log_block_index (call_logs config logged_trx)
    ≡ map log_block_index (receipt_logs logged_trx.receipt)
unfolding surviving_logs sort_by insert_by
logged_same = refl

receipt_logs_assigned_example :
    (out : TransactionTrace) × (assign_ordinal_and_index_to_receipt_logs config logged_trx ≡ ok out)
    × ((o i b : ℕ)
        → total (is_stamped o i b) (receipt_logs out.receipt)
          ≡ total
              (λ c. total (λ l. if stays config c l then is_stamped o i b l else 0) c.logs)
              logged_trx.calls)
    × IsSortedBy log_ordinal (receipt_logs out.receipt)
    × (map unstamped (receipt_logs out.receipt) ≡ map unstamped (receipt_logs logged_trx.receipt))
    × (record out { receipt = logged_trx.receipt } ≡ logged_trx)
receipt_logs_assigned_example = receipt_logs_assigned config logged_trx logged_same

receipt_logs_mismatch_example :
    map log_block_index (call_logs config logged_trx)
    ≡ map log_block_index (receipt_logs logged_trx.receipt)
receipt_logs_mismatch_example =
    receipt_logs_mismatch config logged_trx
      (record logged_trx {
        receipt =
            with_logs (paired (call_logs config logged_trx) (receipt_logs logged_trx.receipt))
              logged_trx.receipt;
      })
      (receipt_logs-paired config logged_trx logged_same)
