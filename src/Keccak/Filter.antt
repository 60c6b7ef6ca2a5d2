-- ===== src/Keccak/Filter.antt =====
-- The recorded hash that a word points at: the greatest one that is not above it, if near.
use mathlib.Core.Path.{subst, ap}
use evm_firehose_tracer_go.Prelude.{
  Option, ℕ, zero, suc, ◌+◌, ◌-◌, ◌^◌, ◌≤◌, ◌<◌, ◌≡◌, refl, true, false, List, [], ◌∷◌, none, some,
  length, dec_lt, ◌∙◌, get_elem?, All, arith, inl, inr, Option-cases, ltb,
}
use evm_firehose_tracer_go.Prelude.Bytes.{Bytes, from_bytes}
use evm_firehose_tracer_go.Prelude.Sort.{IsSortedBy}
use evm_firehose_tracer_go.Keccak.{sort_search, is_above, base_if_near, keccak_slot_base}
use evm_firehose_tracer_go.Keccak.Search.{IsMonotone, sort_search-IsFirst}

All-get_elem? {ℓ κ} :
    {A : Type ℓ} (P : A → Type κ) (xs : List A) (i : ℕ) (a : A)
    → All P xs
    → get_elem? xs i ≡ some a
    → P a
All-get_elem? P [] i a h e = cc
All-get_elem? P (x ∷ xs) zero a h e = subst P (ground arith) h.0
All-get_elem? P (x ∷ xs) (suc i) a h e = All-get_elem? P xs i a h.1 e

sorted_le :
    (hs : List Bytes) (i j : ℕ) (a b : Bytes)
    → IsSortedBy from_bytes hs
    → i ≤ j
    → get_elem? hs i ≡ some a
    → get_elem? hs j ≡ some b
    → from_bytes a ≤ from_bytes b
sorted_le [] i j a b s h ea eb = cc
sorted_le (x ∷ xs) zero zero a b s h ea eb =
    let same : a ≡ b = ground arith in omega (arith, ap from_bytes same)
sorted_le (x ∷ xs) zero (suc j) a b s h ea eb =
    let first : x ≡ a = ground arith in
    omega
      (arith, ap from_bytes first, All-get_elem? (λ y. from_bytes x ≤ from_bytes y) xs j b s.0 eb)
sorted_le (x ∷ xs) (suc i) zero a b s h ea eb = absurd (omega arith)
sorted_le (x ∷ xs) (suc i) (suc j) a b s h ea eb = sorted_le xs i j a b s.1 (omega arith) ea eb

get_elem?-some : (hs : List Bytes) (i : ℕ) → i < length hs → (a : Bytes) × (get_elem? hs i ≡ some a)
get_elem?-some [] i h = absurd (omega arith)
get_elem?-some (x ∷ xs) zero h = (x, refl)
get_elem?-some (x ∷ xs) (suc i) h = get_elem?-some xs i (omega arith)

get_elem?-lt : (hs : List Bytes) (i : ℕ) (a : Bytes) → get_elem? hs i ≡ some a → i < length hs
get_elem?-lt [] i a e = cc
get_elem?-lt (x ∷ xs) zero a e = omega arith
get_elem?-lt (x ∷ xs) (suc i) a e = omega (arith, get_elem?-lt xs i a e)

module _ (hs : List Bytes) (key : Bytes) where
  is_above-at :
      (i : ℕ) (a : Bytes)
      → get_elem? hs i ≡ some a
      → is_above hs key i ≡ ltb (from_bytes key) (from_bytes a)
  unfolding is_above
  is_above-at i a e = rw (is_above, e) refl

  is_above-out : (i : ℕ) → get_elem? hs i ≡ none → is_above hs key i ≡ true
  unfolding is_above
  is_above-out i e = rw (is_above, e) refl

  is_above-IsMonotone : IsSortedBy from_bytes hs → IsMonotone (is_above hs key)
  is_above-IsMonotone s i j h up = elim (Option-cases (get_elem? hs j)) [
    | inl out ↦ is_above-out j out
    | inr (b, eb) ↦
        let (a, ea) = get_elem?-some hs i (omega (arith, get_elem?-lt hs j b eb)) in
        ground (arith, is_above-at i a ea, is_above-at j b eb, sorted_le hs i j a b s h ea eb)
  ]

  base_if_near-some :
      (base : Bytes)
      → from_bytes base ≤ from_bytes key
      → from_bytes key < 2 ^ 256
      → from_bytes key < from_bytes base + 2 ^ 64
      → base_if_near key (some base) ≡ some base
  unfolding base_if_near
  base_if_near-some base low bound near = ground arith

  keccak_slot_base-at :
      (base : Bytes)
      → 0 < sort_search (length hs) (is_above hs key)
      → get_elem? hs (sort_search (length hs) (is_above hs key) - 1) ≡ some base
      → keccak_slot_base hs key ≡ base_if_near key (some base)
  unfolding keccak_slot_base
  keccak_slot_base-at base some_below e = ground arith

  -- Among sorted hashes, for a word below 2^256: if one of them is at or below the word and less
  -- than 2^64 from it, the search returns a hash, which is neither below that one nor above the
  -- word.
  pub keccak_slot_base_finds :
      (j : ℕ) (h : Bytes)
      → IsSortedBy from_bytes hs
      → from_bytes key < 2 ^ 256
      → get_elem? hs j ≡ some h
      → from_bytes h ≤ from_bytes key
      → from_bytes key < from_bytes h + 2 ^ 64
      → (base : Bytes) × (keccak_slot_base hs key ≡ some base)
        × (from_bytes h ≤ from_bytes base)
        × (from_bytes base ≤ from_bytes key)
  keccak_slot_base_finds j h s bound found low near =
      let r = sort_search (length hs) (is_above hs key) in
      let first = sort_search-IsFirst (length hs) (is_above hs key) (is_above-IsMonotone s) in
      let past : j < r = elim (dec_lt j r) [
        | yes lt ↦ lt
        | no ge ↦
            let up = first.after j (omega arith) (get_elem?-lt hs j h found) in
            absurd (ground (arith, is_above-at j h found))
      ] in
      let (base, e) = get_elem?-some hs (r - 1) (omega (arith, first.upto)) in
      let under : is_above hs key (r - 1) ≡ false =
        first.before (r - 1) (omega arith) (omega arith) in
      let lower : from_bytes base ≤ from_bytes key = ground (arith, is_above-at (r - 1) base e) in
      let upper = sorted_le hs j (r - 1) h base s (omega arith) found e in
      (
        base,
        keccak_slot_base-at base (omega arith) e ∙ base_if_near-some base lower bound (omega arith),
        upper,
        lower,
      )

  base_if_near-back :
      (o : Option Bytes) (base : Bytes) → base_if_near key o ≡ some base → o ≡ some base
  unfolding base_if_near
  base_if_near-back none base e = cc
  base_if_near-back (some b) base e = ground arith

  keccak_slot_base-back :
      (base : Bytes)
      → keccak_slot_base hs key ≡ some base
      → (0 < sort_search (length hs) (is_above hs key))
        × (base_if_near key (get_elem? hs (sort_search (length hs) (is_above hs key) - 1))
            ≡ some base)
  unfolding keccak_slot_base
  keccak_slot_base-back base e = ground arith

  -- Among sorted hashes, what the search returns for a word is one of them, and not above the word.
  pub keccak_slot_base_recorded :
      (base : Bytes)
      → IsSortedBy from_bytes hs
      → keccak_slot_base hs key ≡ some base
      → (j : ℕ) × (get_elem? hs j ≡ some base) × (from_bytes base ≤ from_bytes key)
  keccak_slot_base_recorded base s e =
      let r = sort_search (length hs) (is_above hs key) in
      let (some_below, near) = keccak_slot_base-back base e in
      let found = base_if_near-back (get_elem? hs (r - 1)) base near in
      let first = sort_search-IsFirst (length hs) (is_above hs key) (is_above-IsMonotone s) in
      let under : is_above hs key (r - 1) ≡ false =
        first.before (r - 1) (omega arith) (omega arith) in
      (r - 1, found, ground (arith, is_above-at (r - 1) base found))
