-- ===== src/Ordinals/Commit.antt =====
-- Committing an isolated transaction: its ordinals, which count from 1, are moved behind those
-- that the block has given out.
use evm_firehose_tracer_go.Prelude.{
  ℕ, ◌+◌, ◌-◌, ◌≤◌, ◌<◌, ◌≡◌, refl, false, List, [], ◌∷◌, ◌++◌, Option, none, some, map, total,
  total-append, arith, inl, inr, u64, u64_mod, ltb, if◌then◌else◌, Option-cases,
}
use evm_firehose_tracer_go.Pb.{
  BalanceChange, NonceChange, CodeChange, StorageChange, Log, Call, TransactionReceipt,
  TransactionTrace, Block,
}
use evm_firehose_tracer_go.Ordinal
use evm_firehose_tracer_go.Tracer.State.{Tracer, ok, modify_block}
use evm_firehose_tracer_go.Tracer.Parallel.{
  shift_call, shift_balance_change, shift_nonce_change, shift_code_change, shift_storage_change,
  shift_log, shift_receipt, reorder_call_ordinals, reorder_transaction_ordinals, commit_transient,
  on_tx_commit, CommitError,
}
use evm_firehose_tracer_go.Ordinals.{
  hit, occurs_in_call, occurs_in_calls, occurs_in_transaction, occurs_in_block, occurs,
  occurs_in_call_logs, occurs_in_receipt, IsCovered,
}
use evm_firehose_tracer_go.Ordinals.Growth.{between}
use evm_firehose_tracer_go.Ordinals.Runs.{AreFresh}

-- Numbers from 1 to `n` only.
abbrev pub IsWithin : ℕ → (ℕ → ℕ) → Type 0
IsWithin n count = (k : ℕ) → count k ≤ between 0 n k

-- Numbers from 1 to `n` only, and however often.
abbrev IsBounded : ℕ → (ℕ → ℕ) → Type 0
IsBounded n count = (k : ℕ) → between 0 n k ≡ 0 → count k ≡ 0

-- How often numbers occur once `base` is added to each.
abbrev IsShifted : ℕ → (ℕ → ℕ) → (ℕ → ℕ) → Type 0
IsShifted base count count' = (k : ℕ) → count' k ≡ (if ltb base k then count (k - base) else 0)

module _ (base n : ℕ) (room : base + n < u64_mod) where
  hit-IsShifted :
      (o : ℕ)
      → IsBounded n (λ k. hit k o)
      → IsShifted base (λ k. hit k o) (λ k. hit k (u64 (o + base)))
  hit-IsShifted o h k = ground (arith, h o)

  total-IsShifted {ℓ} :
      {A : Type ℓ} (key : A → ℕ) (shift : A → A)
      → ((a : A) → key (shift a) ≡ u64 (key a + base))
      → (xs : List A) → IsBounded n (λ k. total (λ a. hit k (key a)) xs)
      → IsShifted base
          (λ k. total (λ a. hit k (key a)) xs)
          (λ k. total (λ a. hit k (key a)) (map shift xs))
  total-IsShifted key shift moved [] h k = ground arith
  total-IsShifted key shift moved (x ∷ xs) h k =
      let first = hit-IsShifted (key x) (λ j e. omega (arith, h j e)) k in
      let rest = total-IsShifted key shift moved xs (λ j e. omega (arith, h j e)) k in
      rw (moved x) (ground (arith, first, rest))

  shift_call-IsShifted :
      (c : Call)
      → IsBounded n (λ k. occurs_in_call k c)
      → IsShifted base (λ k. occurs_in_call k c) (λ k. occurs_in_call k (shift_call base c))
  unfolding occurs_in_call shift_call
  shift_call-IsShifted c h k = ground (
    arith,
    hit-IsShifted c.begin_ordinal (λ j e. omega (arith, h j e)) k,
    hit-IsShifted c.end_ordinal (λ j e. omega (arith, h j e)) k,
    total-IsShifted (λ (x : BalanceChange). x.ordinal) (shift_balance_change base) (λ a. refl)
        c.balance_changes (λ j e. omega (arith, h j e)) k,
    total-IsShifted (λ (x : NonceChange). x.ordinal) (shift_nonce_change base) (λ a. refl)
        c.nonce_changes (λ j e. omega (arith, h j e)) k,
    total-IsShifted (λ (x : CodeChange). x.ordinal) (shift_code_change base) (λ a. refl)
        c.code_changes (λ j e. omega (arith, h j e)) k,
    total-IsShifted (λ (x : StorageChange). x.ordinal) (shift_storage_change base) (λ a. refl)
        c.storage_changes (λ j e. omega (arith, h j e)) k,
    total-IsShifted (λ (x : Log). x.ordinal) (shift_log base) (λ a. refl) c.logs
        (λ j e. omega (arith, h j e)) k,
  )

  calls-IsShifted :
      (cs : List Call)
      → IsBounded n (λ k. occurs_in_calls k cs)
      → IsShifted base
          (λ k. occurs_in_calls k cs)
          (λ k. occurs_in_calls k (map (λ c. (reorder_call_ordinals c base).0) cs))
  unfolding reorder_call_ordinals
  calls-IsShifted [] h k = ground arith
  calls-IsShifted (c ∷ cs) h k = ground (
    arith,
    shift_call-IsShifted c (λ j e. omega (arith, h j e)) k,
    calls-IsShifted cs (λ j e. omega (arith, h j e)) k,
  )

  transaction-IsShifted :
      (trx : TransactionTrace)
      → IsBounded n (λ k. occurs_in_transaction k trx)
      → IsShifted base
          (λ k. occurs_in_transaction k trx)
          (λ k. occurs_in_transaction k (reorder_transaction_ordinals trx base).0)
  unfolding occurs_in_transaction reorder_transaction_ordinals
  transaction-IsShifted trx h k = ground (
    arith,
    hit-IsShifted trx.begin_ordinal (λ j e. omega (arith, h j e)) k,
    hit-IsShifted trx.end_ordinal (λ j e. omega (arith, h j e)) k,
    calls-IsShifted trx.calls (λ j e. omega (arith, h j e)) k,
  )

  -- A log's count within its call's.
  call_logs-le : (k : ℕ) (cs : List Call) → occurs_in_call_logs k cs ≤ occurs_in_calls k cs
  unfolding occurs_in_call
  call_logs-le k [] = omega arith
  call_logs-le k (c ∷ cs) = omega (arith, call_logs-le k cs)

  call_logs-IsShifted :
      (cs : List Call)
      → IsBounded n (λ k. occurs_in_call_logs k cs)
      → IsShifted base
          (λ k. occurs_in_call_logs k cs)
          (λ k. occurs_in_call_logs k (map (λ c. (reorder_call_ordinals c base).0) cs))
  unfolding reorder_call_ordinals shift_call
  call_logs-IsShifted [] h k = ground arith
  call_logs-IsShifted (c ∷ cs) h k = ground (
    arith,
    total-IsShifted (λ (x : Log). x.ordinal) (shift_log base) (λ a. refl) c.logs
        (λ j e. omega (arith, h j e)) k,
    call_logs-IsShifted cs (λ j e. omega (arith, h j e)) k,
  )

  receipt-IsShifted :
      (receipt : Option TransactionReceipt)
      → IsBounded n (λ k. occurs_in_receipt k receipt)
      → IsShifted base
          (λ k. occurs_in_receipt k receipt)
          (λ k. occurs_in_receipt k (shift_receipt base receipt))
  receipt-IsShifted none h k = ground arith
  receipt-IsShifted (some receipt) h k =
      total-IsShifted (λ (x : Log). x.ordinal) (shift_log base) (λ a. refl) receipt.logs h k

  -- The logs of the receipt move with those of the calls.
  transaction-IsCovered :
      (trx : TransactionTrace)
      → IsWithin n (λ k. occurs_in_transaction k trx)
      → IsCovered trx
      → IsCovered (reorder_transaction_ordinals trx base).0
  unfolding occurs_in_transaction reorder_transaction_ordinals
  transaction-IsCovered trx within covered k =
      let bounded : IsBounded n (λ j. occurs_in_call_logs j trx.calls) =
        λ j e. omega (arith, within j, call_logs-le j trx.calls) in
      ground (
        arith,
        call_logs-IsShifted trx.calls bounded k,
        receipt-IsShifted trx.receipt (λ j e. omega (arith, covered j, bounded j e)) k,
        covered (k - base),
      )

commit_transient_gives :
    (trx : TransactionTrace) (t u isolated isolated' : Tracer) (b : Block)
    → t.block ≡ some b
    → commit_transient trx t isolated ≡ ok (none, u, isolated')
    → u ≡ record t {
      block = some (record b {
        transaction_traces =
            b.transaction_traces ++ (reorder_transaction_ordinals trx t.block_ordinal.value).0 ∷ [];
      });
      block_ordinal = record { value = u64 (trx.end_ordinal + t.block_ordinal.value) };
    }
unfolding commit_transient modify_block Ordinal.peek Ordinal.set reorder_transaction_ordinals
commit_transient_gives trx t u isolated isolated' b present e = ground arith

committed_occurs :
    (t : Tracer) (b : Block) (shifted : TransactionTrace) (n k : ℕ)
    → t.block ≡ some b
    → occurs k (record t {
      block = some (record b { transaction_traces = b.transaction_traces ++ shifted ∷ [] });
      block_ordinal = record { value = n };
    })
      ≡ occurs k t + occurs_in_transaction k shifted
unfolding occurs occurs_in_block
committed_occurs t b shifted n k present =
    ground (arith, total-append (occurs_in_transaction k) b.transaction_traces (shifted ∷ []))

transient_committed :
    (trx : TransactionTrace) (t u isolated isolated' : Tracer)
    → isolated.transaction_transient ≡ some trx
    → isolated.transaction_dropped ≡ false
    → on_tx_commit t isolated ≡ ok (none, u, isolated')
    → commit_transient trx t isolated ≡ ok (none, u, isolated')
unfolding on_tx_commit
transient_committed trx t u isolated isolated' held live e = ground arith

committed_in_block :
    (trx : TransactionTrace) (t isolated : Tracer) (r : Option CommitError × Tracer × Tracer)
    → commit_transient trx t isolated ≡ ok r
    → (b : Block) × (t.block ≡ some b)
unfolding commit_transient modify_block
committed_in_block trx t isolated r e = elim (Option-cases t.block) [
  | inl absent ↦ absurd (ground arith)
  | inr found ↦ found
]

-- The block after a commit.
abbrev pub gaining : Block → TransactionTrace → Option Block
gaining b trace = some (record b { transaction_traces = b.transaction_traces ++ trace ∷ [] })

-- A coordinator whose ordinals are distinct and within what it gave out commits an isolated
-- transaction whose ordinals are distinct and go from 1 to its end ordinal, the logs of its receipt
-- left out, which repeat ordinals of the calls' logs: the coordinator's ordinals, without those of
-- the logs of receipts, are again distinct and within what it gave out, which has grown by that end
-- ordinal (with no uint64 wrap), and its block gains a trace in which again the logs of the receipt
-- repeat ordinals of the calls' logs, none more often than there.
pub on_tx_commit-AreFresh :
    (trx : TransactionTrace) (t u isolated isolated' : Tracer)
    → AreFresh t
    → IsWithin trx.end_ordinal (λ k. occurs_in_transaction k trx)
    → IsCovered trx
    → t.block_ordinal.value + trx.end_ordinal < u64_mod
    → isolated.transaction_transient ≡ some trx
    → isolated.transaction_dropped ≡ false
    → on_tx_commit t isolated ≡ ok (none, u, isolated')
    → AreFresh u
      × (u.block_ordinal.value ≡ t.block_ordinal.value + trx.end_ordinal)
      × ((b : Block) × (trace : TransactionTrace) × (t.block ≡ some b)
          × (u.block ≡ gaining b trace)
          × IsCovered trace)
on_tx_commit-AreFresh trx t u isolated isolated' fresh within covered room held live e =
    let committed = transient_committed trx t u isolated isolated' held live e in
    let (b, present) = committed_in_block trx t isolated (none, u, isolated') committed in
    let shifted = (reorder_transaction_ordinals trx t.block_ordinal.value).0 in
    let gives = commit_transient_gives trx t u isolated isolated' b present committed in
    let counts =
      transaction-IsShifted t.block_ordinal.value trx.end_ordinal room trx
        (λ k out. omega (arith, within k)) in
    let last = u64 (trx.end_ordinal + t.block_ordinal.value) in
    rw gives (
      record {
        unique = λ k h. ground (
          arith,
          committed_occurs t b shifted last k present,
          counts k,
          within (k - t.block_ordinal.value),
          fresh.unique k h,
          fresh.unused k,
        );
        unused = λ k h. ground (
          arith,
          committed_occurs t b shifted last k present,
          counts k,
          within (k - t.block_ordinal.value),
          fresh.unused k,
        );
      },
      omega arith,
      (
        b,
        shifted,
        present,
        refl,
        transaction-IsCovered t.block_ordinal.value trx.end_ordinal room trx within covered,
      ),
    )
