-- ===== src/Keccak/Search.antt =====
-- The binary search, and the hash that a word points at.
use evm_firehose_tracer_go.Prelude.{
  ℕ, zero, suc, ◌+◌, ◌/◌, ◌≤◌, ◌<◌, ◌≡◌, refl, Bool, true, false, arith, inl, inr, Bool-cases, ltb,
  dec_lt,
}
use evm_firehose_tracer_go.Keccak.{search_loop, sort_search}

-- `f` is false below some point and true from it on.
abbrev pub IsMonotone : (ℕ → Bool) → Type 0
IsMonotone f = (i j : ℕ) → i ≤ j → f i ≡ true → f j ≡ true

module _ (f : ℕ → Bool) (fuel i j : ℕ) where
  search_left :
      i < j
      → f ((i + j) / 2) ≡ true
      → search_loop (suc fuel) f i j ≡ search_loop fuel f i ((i + j) / 2)
  unfolding search_loop
  search_left h e =
      let open_range : ltb i j ≡ true = ground arith in rw (search_loop, open_range, e) refl

  search_right :
      i < j
      → f ((i + j) / 2) ≡ false
      → search_loop (suc fuel) f i j ≡ search_loop fuel f ((i + j) / 2 + 1) j
  unfolding search_loop
  search_right h e =
      let open_range : ltb i j ≡ true = ground arith in rw (search_loop, open_range, e) refl

  search_empty : j ≤ i → search_loop (suc fuel) f i j ≡ i
  unfolding search_loop
  search_empty h = let shut : ltb i j ≡ false = ground arith in rw (search_loop, shut) refl

pub record IsFirst (f : ℕ → Bool) (i j r : ℕ) : Type 0 where
  pub from : i ≤ r
  pub upto : r ≤ j
  pub before : (k : ℕ) → i ≤ k → k < r → f k ≡ false
  pub after : (k : ℕ) → r ≤ k → k < j → f k ≡ true

search_loop-IsFirst :
    (f : ℕ → Bool) (fuel i j : ℕ)
    → IsMonotone f
    → i ≤ j
    → j ≤ i + fuel
    → IsFirst f i j (search_loop fuel f i j)
unfolding search_loop
search_loop-IsFirst f zero i j mono h bound = record {
  from = omega arith;
  upto = omega arith;
  before = λ k a b. absurd (omega arith);
  after = λ k a b. absurd (omega arith);
}
search_loop-IsFirst f (suc fuel) i j mono h bound = elim (dec_lt i j) [
  | no shut ↦ rw (search_empty f fuel i j (omega arith)) (record {
    from = omega arith;
    upto = omega arith;
    before = λ k a b. absurd (omega arith);
    after = λ k a b. absurd (omega arith);
  })
  | yes lt ↦
      let m = (i + j) / 2 in
      elim (Bool-cases (f m)) [
        | inl e ↦
            let r = search_loop-IsFirst f fuel i m mono (omega arith) (omega arith) in
            rw (search_left f fuel i j lt e) (record {
              from = r.from;
              upto = omega (arith, r.upto);
              before = r.before;
              after = λ k a b. elim (dec_lt k m) [
                | yes near ↦ r.after k a near
                | no far ↦ mono m k (omega arith) e
              ];
            })
        | inr e ↦
            let r = search_loop-IsFirst f fuel (m + 1) j mono (omega arith) (omega arith) in
            rw (search_right f fuel i j lt e) (record {
              from = omega (arith, r.from);
              upto = r.upto;
              before = λ k a b. elim (dec_lt m k) [
                | yes far ↦ r.before k (omega arith) b
                | no near ↦ elim (Bool-cases (f k)) [
                  | inr low ↦ low
                  | inl high ↦ let up = mono k m (omega arith) high in cc
                ]
              ];
              after = r.after;
            })
      ]
]

-- For a test that stays true once it is, the search among n positions, in n rounds, returns the
-- first one where it holds, or n if there is none.
pub sort_search-IsFirst : (n : ℕ) (f : ℕ → Bool) → IsMonotone f → IsFirst f 0 n (sort_search n f)
unfolding sort_search
sort_search-IsFirst n f mono = search_loop-IsFirst f n 0 n mono (omega arith) (omega arith)
