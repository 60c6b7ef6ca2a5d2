-- ===== src/Receipts.antt =====
-- tracer.go, assignOrdinalAndIndexToReceiptLogs: the logs of a receipt take the ordinals and
-- indexes of the logs that the calls recorded.
use evm_firehose_tracer_go.Prelude.{
  ℕ, suc, ◌≤◌, Bool, not, ◌&&◌, ◌||◌, ◌≡◌, ◌∙◌, refl, ap, Option, some, none, All, total,
  total-append, if◌then◌else◌, List, [], ◌∷◌, map, length, keep_if, arith, inl, inr, ◌==◌,
  Bool-cases,
}
use evm_firehose_tracer_go.Prelude.Sort.{sort_by, IsSortedBy, sort_by-IsSortedBy, total-sort_by}
use evm_firehose_tracer_go.Pb.{Log, Call, TransactionReceipt, TransactionTrace}
use evm_firehose_tracer_go.Config.{Config}
use evm_firehose_tracer_go.Tracer.State.{ok, Result-cases}
use evm_firehose_tracer_go.Tracer.Completion.{
  assign_logs, assign_ordinal_and_index_to_receipt_logs, receipt_logs, with_logs, surviving_logs,
  log_ordinal, is_never_reverted,
}

abbrev pub log_block_index : Log → ℕ
log_block_index l = l.block_index

-- Each receipt log, with the ordinal and the index of the call log at its position.
abbrev pub paired : List Log → List Log → List Log
paired [] rs = []
paired (c ∷ cs) [] = []
paired (c ∷ cs) (r ∷ rs) = record r { ordinal = c.ordinal; index = c.index } ∷ paired cs rs

same_length :
    (cs rs : List Log) → map log_block_index cs ≡ map log_block_index rs → length cs ≡ length rs
same_length [] [] e = refl
same_length [] (r ∷ rs) e = cc
same_length (c ∷ cs) [] e = cc
same_length (c ∷ cs) (r ∷ rs) e = ap suc (same_length cs rs (ground arith))

assign_logs_pairs :
    (cs rs : List Log)
    → map log_block_index cs ≡ map log_block_index rs
    → assign_logs cs rs ≡ ok (paired cs rs)
unfolding assign_logs
assign_logs_pairs [] [] e = refl
assign_logs_pairs [] (r ∷ rs) e = cc
assign_logs_pairs (c ∷ cs) [] e = cc
assign_logs_pairs (c ∷ cs) (r ∷ rs) e = ground (arith, assign_logs_pairs cs rs)

assign_logs_same :
    (cs rs out : List Log)
    → length cs ≡ length rs
    → assign_logs cs rs ≡ ok out
    → map log_block_index cs ≡ map log_block_index rs
unfolding assign_logs
assign_logs_same [] [] out h e = refl
assign_logs_same [] (r ∷ rs) out h e = absurd (omega arith)
assign_logs_same (c ∷ cs) [] out h e = absurd (omega arith)
assign_logs_same (c ∷ cs) (r ∷ rs) out h e = elim (Bool-cases (c.block_index == r.block_index)) [
  | inr differ ↦ absurd (ground arith)
  | inl same ↦ elim (Result-cases (assign_logs cs rs)) [
    | inr (p, failed) ↦ absurd (ground arith)
    | inl (rest, assigned) ↦ ground (arith, assign_logs_same cs rs rest (omega arith) assigned)
  ]
]

-- Whether a log has an ordinal, an index and a block index, as a number to count with.
abbrev pub is_stamped : ℕ → ℕ → ℕ → Log → ℕ
is_stamped o i b l = if (l.ordinal == o) && (l.index == i) && (l.block_index == b) then 1 else 0

-- A log but for what the assignment gives it.
abbrev pub unstamped : Log → Log
unstamped l = record l { ordinal = 0; index = 0 }

-- Whether a call's log is part of the final state.
abbrev pub stays : Config → Call → Log → Bool
stays config c l = not c.state_reverted || is_never_reverted config l

-- A measure that the assignment does not tell apart from the call log at the position.
abbrev IsTakenOver : (Log → ℕ) → Type 0
IsTakenOver f =
    (c r : Log)
    → c.block_index ≡ r.block_index
    → f (record r { ordinal = c.ordinal; index = c.index }) ≡ f c

pub total-paired :
    (f : Log → ℕ)
    → IsTakenOver f
    → (cs rs : List Log) → map log_block_index cs ≡ map log_block_index rs
    → total f (paired cs rs) ≡ total f cs
total-paired f h [] rs e = refl
total-paired f h (c ∷ cs) [] e = cc
total-paired f h (c ∷ cs) (r ∷ rs) e =
    omega (arith, h c r (ground arith), total-paired f h cs rs (ground arith))

is_stamped-IsTakenOver : (o i b : ℕ) → IsTakenOver (is_stamped o i b)
is_stamped-IsTakenOver o i b c r same = rw same refl

paired-All :
    (n : ℕ) (cs rs : List Log)
    → All (λ (l : Log). n ≤ log_ordinal l) cs
    → All (λ (l : Log). n ≤ log_ordinal l) (paired cs rs)
paired-All n [] rs h = tt
paired-All n (c ∷ cs) [] h = tt
paired-All n (c ∷ cs) (r ∷ rs) h = (h.0, paired-All n cs rs h.1)

paired-IsSortedBy :
    (cs rs : List Log) → IsSortedBy log_ordinal cs → IsSortedBy log_ordinal (paired cs rs)
paired-IsSortedBy [] rs h = tt
paired-IsSortedBy (c ∷ cs) [] h = tt
paired-IsSortedBy (c ∷ cs) (r ∷ rs) h =
    (paired-All c.ordinal cs rs h.0, paired-IsSortedBy cs rs h.1)

map-paired :
    (cs rs : List Log) → length cs ≡ length rs → map unstamped (paired cs rs) ≡ map unstamped rs
map-paired [] [] e = refl
map-paired [] (r ∷ rs) e = absurd (omega arith)
map-paired (c ∷ cs) [] e = absurd (omega arith)
map-paired (c ∷ cs) (r ∷ rs) e = ap (λ xs. unstamped r ∷ xs) (map-paired cs rs (omega arith))

pub receipt_logs-with_logs :
    (cs : List Log) (receipt : Option TransactionReceipt)
    → receipt_logs (with_logs (paired cs (receipt_logs receipt)) receipt)
      ≡ paired cs (receipt_logs receipt)
receipt_logs-with_logs cs (some receipt) = refl
receipt_logs-with_logs [] none = refl
receipt_logs-with_logs (c ∷ cs) none = refl

total-keep_if :
    (p : Log → Bool) (f : Log → ℕ) (ls : List Log)
    → total f (keep_if p ls) ≡ total (λ l. if p l then f l else 0) ls
total-keep_if p f [] = refl
total-keep_if p f (l ∷ ls) = ground (arith, total-keep_if p f ls)

total-call_logs :
    (config : Config) (f : Log → ℕ) (c : Call)
    → total f (if c.state_reverted then keep_if (is_never_reverted config) c.logs else c.logs)
      ≡ total (λ l. if stays config c l then f l else 0) c.logs
total-call_logs config f c = elim (Bool-cases c.state_reverted) [
  | inl e ↦ rw e (total-keep_if (is_never_reverted config) f c.logs)
  | inr e ↦ rw e refl
]

pub total-surviving_logs :
    (config : Config) (f : Log → ℕ) (cs : List Call)
    → total f (surviving_logs config cs)
      ≡ total (λ c. total (λ l. if stays config c l then f l else 0) c.logs) cs
unfolding surviving_logs
total-surviving_logs config f [] = refl
total-surviving_logs config f (c ∷ cs) =
    let kept = if c.state_reverted then keep_if (is_never_reverted config) c.logs else c.logs in
    omega (
      arith,
      total-append f kept (surviving_logs config cs),
      total-call_logs config f c,
      total-surviving_logs config f cs,
    )

module _ (config : Config) (trx : TransactionTrace) where
  -- The logs of the calls that survive, in the order in which they were emitted.
  abbrev pub call_logs : List Log
  call_logs = sort_by log_ordinal (surviving_logs config trx.calls)

  pub receipt_logs-paired :
      map log_block_index call_logs ≡ map log_block_index (receipt_logs trx.receipt)
      → assign_ordinal_and_index_to_receipt_logs config trx
        ≡ ok (record trx {
          receipt = with_logs (paired call_logs (receipt_logs trx.receipt)) trx.receipt;
        })
  unfolding assign_ordinal_and_index_to_receipt_logs
  receipt_logs-paired e = ground (
    arith,
    same_length call_logs (receipt_logs trx.receipt) e,
    assign_logs_pairs call_logs (receipt_logs trx.receipt) e,
  )

  -- Where the calls' surviving logs, by ordinal, and the receipt's logs have the same block
  -- indexes in the same order, the assignment succeeds. Then each triple of an ordinal, an index and
  -- a block index occurs among the receipt's logs as often as among the calls' logs that are not in
  -- a reverted call or are never reverted; the receipt's logs go by increasing ordinal; each is, but
  -- for its ordinal and index, the log that was at its position; and nothing else changes.
  pub receipt_logs_assigned :
      map log_block_index call_logs ≡ map log_block_index (receipt_logs trx.receipt)
      → (out : TransactionTrace) × (assign_ordinal_and_index_to_receipt_logs config trx ≡ ok out)
        × ((o i b : ℕ)
            → total (is_stamped o i b) (receipt_logs out.receipt)
              ≡ total
                  (λ c. total (λ l. if stays config c l then is_stamped o i b l else 0) c.logs)
                  trx.calls)
        × IsSortedBy log_ordinal (receipt_logs out.receipt)
        × (map unstamped (receipt_logs out.receipt) ≡ map unstamped (receipt_logs trx.receipt))
        × (record out { receipt = trx.receipt } ≡ trx)
  receipt_logs_assigned e =
      let receipt = receipt_logs trx.receipt in
      let logs = paired call_logs receipt in
      let same = receipt_logs-with_logs call_logs trx.receipt in
      (
        record trx { receipt = with_logs logs trx.receipt },
        receipt_logs-paired e,
        λ o i b. rw same (
            total-paired (is_stamped o i b) (is_stamped-IsTakenOver o i b) call_logs receipt e
            ∙ total-sort_by log_ordinal (is_stamped o i b) (surviving_logs config trx.calls)
            ∙ total-surviving_logs config (is_stamped o i b) trx.calls),
        rw same (
            paired-IsSortedBy call_logs receipt
              (sort_by-IsSortedBy log_ordinal (surviving_logs config trx.calls))),
        rw same (map-paired call_logs receipt (same_length call_logs receipt e)),
        refl,
      )

  -- If the assignment does not panic, the calls' surviving logs, by ordinal, and the receipt's logs
  -- have the same block indexes in the same order.
  pub receipt_logs_mismatch :
      (out : TransactionTrace)
      → assign_ordinal_and_index_to_receipt_logs config trx ≡ ok out
      → map log_block_index call_logs ≡ map log_block_index (receipt_logs trx.receipt)
  unfolding assign_ordinal_and_index_to_receipt_logs
  receipt_logs_mismatch out e =
      elim (Bool-cases (length call_logs == length (receipt_logs trx.receipt))) [
        | inr differ ↦ absurd (ground arith)
        | inl same ↦ elim (Result-cases (assign_logs call_logs (receipt_logs trx.receipt))) [
          | inr (p, failed) ↦ absurd (ground arith)
          | inl (logs, assigned) ↦
              assign_logs_same call_logs (receipt_logs trx.receipt) logs (ground arith) assigned
        ]
      ]
