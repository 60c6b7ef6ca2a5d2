-- ===== src/CallTree/Sequence.antt =====
-- Sorting the calls of a transaction by index puts the call of index i at position i - 1.
use evm_firehose_tracer_go.Prelude.{ℕ, suc, ◌≤◌, ◌<◌, ◌≡◌, List, [], ◌∷◌, All, total, arith, dec_lt}
use evm_firehose_tracer_go.Prelude.Sort.{sort_by, IsSortedBy, sort_by-IsSortedBy, total-sort_by}
use evm_firehose_tracer_go.Ordinals.Growth.{between}
use evm_firehose_tracer_go.CallTree.{Shape, shape_index, Tree}
use evm_firehose_tracer_go.CallTree.Numbering.{shape_hit, IsNumbered}

-- The indexes count up, from the one after `n`.
abbrev pub IsSequence : ℕ → List Shape → Type 0
IsSequence n [] = Unit
IsSequence n (s ∷ ss) = (s.index ≡ suc n) × IsSequence (suc n) ss

-- A number below all the indexes does not occur.
absent_below : (k : ℕ) (ss : List Shape) → All (λ s. k < s.index) ss → total (shape_hit k) ss ≡ 0
absent_below k [] h = omega arith
absent_below k (s ∷ ss) h = ground (arith, h.0, absent_below k ss h.1)

All-lt-le :
    (a b : ℕ) (ss : List Shape) → a < b → All (λ s. b ≤ s.index) ss → All (λ s. a < s.index) ss
All-lt-le a b [] h hs = tt
All-lt-le a b (s ∷ ss) h hs = (omega (arith, hs.0), All-lt-le a b ss h hs.1)

head-index :
    (m n : ℕ) (s : Shape) (ss : List Shape)
    → IsSortedBy shape_index (s ∷ ss)
    → ((k : ℕ) → total (shape_hit k) (s ∷ ss) ≡ between m n k)
    → s.index ≡ suc m
head-index m n s ss sorted once =
    let above = absent_below (suc m) ss in
    let rest = All-lt-le (suc m) s.index ss in
    elim (dec_lt (suc m) s.index) [
      | yes gap ↦ absurd (ground (arith, once s.index, once (suc m), above (rest gap sorted.0)))
      | no near ↦ ground (arith, once s.index)
    ]

sorted_once-IsSequence :
    (m n : ℕ) (ss : List Shape)
    → IsSortedBy shape_index ss
    → ((k : ℕ) → total (shape_hit k) ss ≡ between m n k)
    → IsSequence m ss
sorted_once-IsSequence m n [] sorted once = tt
sorted_once-IsSequence m n (s ∷ ss) sorted once =
    let first = head-index m n s ss sorted once in
    (
      first,
      sorted_once-IsSequence (suc m) n ss sorted.1
          (λ k. ground (arith, first, once k, once (suc m))),
    )

-- A numbered transaction that no call is active in.
pub sort_by-IsSequence :
    (tr : Tree) → IsNumbered tr → tr.active ≡ [] → IsSequence 0 (sort_by shape_index tr.done)
sort_by-IsSequence tr h idle =
    sorted_once-IsSequence 0 tr.index (sort_by shape_index tr.done)
      (sort_by-IsSortedBy shape_index tr.done)
      (λ k. ground (arith, h.once k, total-sort_by shape_index (shape_hit k) tr.done))
