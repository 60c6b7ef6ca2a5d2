-- ===== src/Keccak/Closure.antt =====
-- The kept hashes are those that a storage key leads to, through at most sixteen preimages.
use evm_firehose_tracer_go.Prelude.{
  ℕ, zero, suc, ◌+◌, ◌≤◌, ◌⊎◌, ◌↔◌, ◌≢◌, ◌≡◌, refl, Bool, true, List, [], ◌∷◌, arith, inl, inr,
  is_empty, Bool-cases,
}
use evm_firehose_tracer_go.Prelude.Bytes.{Bytes, from_bytes}
use evm_firehose_tracer_go.Prelude.Sort.{sort_by}
use evm_firehose_tracer_go.Pb.{Call}
use evm_firehose_tracer_go.Keccak.{
  RecordedPreimage, keccak_filter_max_depth, contains, keep_words, expand, rounds, preimages_of,
  all_slot_keys, keys, storage_slot_hashes,
}
use evm_firehose_tracer_go.Keccak.Growth.{
  Has, PointsTo, keep_words-Grows, keep_words-has, Child, expand-Grows, expand-has,
}

module _ (sorted : List Bytes) (preimages : List (Bytes × Bytes)) (slots : List Bytes) where
  -- Through `n` preimages from one of the storage keys.
  pub Explained : ℕ → Bytes → Type 0
  Explained zero h = PointsTo sorted slots h
  Explained (suc n) h = (parent : Bytes) × Explained n parent × Child sorted preimages parent h

  -- Through `n` of them at most.
  abbrev pub Within : ℕ → Bytes → Type 0
  Within n h = (m : ℕ) × (m ≤ n) × Explained m h

  Within-le : (m n : ℕ) (h : Bytes) → m ≤ n → Within m h → Within n h
  Within-le m n h le (k, small, e) = (k, omega arith, e)

  nothing-Has : (h : Bytes) → Has [] h → (b : Bool) → b ≡ true
  unfolding contains
  nothing-Has h e b = absurd (ground arith)

  empty-Has : (xs : List Bytes) (h : Bytes) → is_empty xs ≡ true → contains xs h ≢ true
  unfolding contains
  empty-Has [] h e there = ground arith
  empty-Has (x ∷ xs) h e there = ground arith

  -- A round over the frontier of a sound set is sound.
  expand_sound :
      (r : ℕ) (kept frontier : List Bytes) (h : Bytes)
      → ((x : Bytes) → Has kept x → Within r x)
      → ((x : Bytes) → Has frontier x → Has kept x)
      → Has (expand sorted preimages frontier (kept, [])).0 h
      → Within (suc r) h
  unfolding Explained
  expand_sound r kept frontier h sound inside there =
      elim ((expand-Grows sorted preimages frontier (kept, [])).fresh h there) [
        | inl old ↦ Within-le r (suc r) h (omega arith) (sound h old)
        | inr (new, (parent, waits, child)) ↦
            let (m, small, e) = sound parent (inside parent waits) in
            (suc m, omega arith, (parent, e, child))
      ]

  expand_inside :
      (kept frontier : List Bytes) (h : Bytes)
      → Has (expand sorted preimages frontier (kept, [])).1 h
      → Has (expand sorted preimages frontier (kept, [])).0 h
  expand_inside kept frontier h there =
      elim ((expand-Grows sorted preimages frontier (kept, [])).within h there) [
        | inl none_before ↦ nothing-Has h none_before _
        | inr kept_too ↦ kept_too
      ]

  rounds_sound :
      (fuel r : ℕ) (kept frontier : List Bytes) (h : Bytes)
      → ((x : Bytes) → Has kept x → Within r x)
      → ((x : Bytes) → Has frontier x → Has kept x)
      → Has (rounds fuel sorted preimages kept frontier) h
      → Within (r + fuel) h
  unfolding rounds
  rounds_sound zero r kept frontier h sound inside there =
      Within-le r (r + zero) h (omega arith) (sound h there)
  rounds_sound (suc n) r kept frontier h sound inside there =
      elim (Bool-cases (is_empty frontier)) [
        | inl done ↦ Within-le r (r + suc n) h (omega arith) (sound h (ground arith))
        | inr waiting ↦
            let next = expand sorted preimages frontier (kept, []) in
            Within-le (suc r + n) (r + suc n) h (omega arith) (
              rounds_sound n (suc r) next.0 next.1 h
                (λ x e. expand_sound r kept frontier x sound inside e)
                (λ x e. expand_inside kept frontier x e) (ground arith))
      ]

  -- Where nothing waits, everything that is explained is kept.
  closed-Has :
      (kept : List Bytes) (m : ℕ) (h : Bytes)
      → ((x : Bytes) → Explained zero x → Has kept x)
      → ((x y : Bytes) → Has kept x → Child sorted preimages x y → Has kept y)
      → Explained m h
      → Has kept h
  unfolding Explained
  closed-Has kept zero h seeds closed e = seeds h e
  closed-Has kept (suc m) h seeds closed (parent, e, child) =
      closed parent h (closed-Has kept m parent seeds closed e) child

  -- What a kept hash points at is kept, unless the hash waits in the frontier.
  abbrev IsClosed : List Bytes → List Bytes → Type 0
  IsClosed kept frontier =
      (x y : Bytes) → Has kept x → Child sorted preimages x y → Has kept y ⊎ Has frontier x

  expand_child :
      (kept frontier : List Bytes) (x y : Bytes)
      → IsClosed kept frontier
      → Has kept x
      → Child sorted preimages x y
      → Has (expand sorted preimages frontier (kept, [])).0 y
  expand_child kept frontier x y closed there child = elim (closed x y there child) [
    | inl old ↦ (expand-Grows sorted preimages frontier (kept, [])).kept y old
    | inr waits ↦ expand-has sorted preimages frontier (kept, []) y (x, waits, child)
  ]

  expand-IsClosed :
      (kept frontier : List Bytes)
      → IsClosed kept frontier
      → IsClosed
          (expand sorted preimages frontier (kept, [])).0
          (expand sorted preimages frontier (kept, [])).1
  expand-IsClosed kept frontier closed x y there child =
      elim ((expand-Grows sorted preimages frontier (kept, [])).fresh x there) [
        | inl old ↦ inl (expand_child kept frontier x y closed old child)
        | inr (new, origin) ↦ inr new
      ]

  expand_complete :
      (r : ℕ) (kept frontier : List Bytes)
      → IsClosed kept frontier
      → ((m : ℕ) (x : Bytes) → m ≤ r → Explained m x → Has kept x)
      → (m : ℕ) (x : Bytes) → m ≤ suc r
      → Explained m x
      → Has (expand sorted preimages frontier (kept, [])).0 x
  unfolding Explained
  expand_complete r kept frontier closed complete zero x small e =
      (expand-Grows sorted preimages frontier (kept, [])).kept x (complete zero x (omega arith) e)
  expand_complete r kept frontier closed complete (suc m) x small (parent, e, child) =
      expand_child kept frontier parent x closed (complete m parent (omega arith) e) child

  rounds_complete :
      (fuel r : ℕ) (kept frontier : List Bytes) (m : ℕ) (h : Bytes)
      → IsClosed kept frontier
      → ((n : ℕ) (x : Bytes) → n ≤ r → Explained n x → Has kept x)
      → m ≤ r + fuel
      → Explained m h
      → Has (rounds fuel sorted preimages kept frontier) h
  unfolding rounds
  rounds_complete zero r kept frontier m h closed complete small e = complete m h (omega arith) e
  rounds_complete (suc n) r kept frontier m h closed complete small e =
      elim (Bool-cases (is_empty frontier)) [
        | inl done ↦
            let all : Has kept h =
              closed-Has kept m h (λ x s. complete zero x (omega arith) s)
                (λ x y there child. elim (closed x y there child) [
                  | inl old ↦ old
                  | inr waits ↦ absurd (empty-Has frontier x done waits)
                ])
                e in
            ground arith
        | inr waiting ↦
            let next = expand sorted preimages frontier (kept, []) in
            let all =
              rounds_complete n (suc r) next.0 next.1 m h (expand-IsClosed kept frontier closed)
                (expand_complete r kept frontier closed complete) (omega arith) e in
            ground arith
      ]

  seeds_sound : (x : Bytes) → Has (keep_words sorted slots ([], [])).0 x → Within 0 x
  unfolding Explained
  seeds_sound x there = elim ((keep_words-Grows sorted slots ([], [])).fresh x there) [
    | inl none_before ↦ absurd (empty-Has [] x refl none_before)
    | inr (new, points) ↦ (0, omega arith, points)
  ]

  seeds_inside :
      (x : Bytes)
      → Has (keep_words sorted slots ([], [])).1 x
      → Has (keep_words sorted slots ([], [])).0 x
  seeds_inside x there = elim ((keep_words-Grows sorted slots ([], [])).within x there) [
    | inl none_before ↦ absurd (empty-Has [] x refl none_before)
    | inr kept_too ↦ kept_too
  ]

  seeds-IsClosed :
      IsClosed (keep_words sorted slots ([], [])).0 (keep_words sorted slots ([], [])).1
  seeds-IsClosed x y there child = elim ((keep_words-Grows sorted slots ([], [])).fresh x there) [
    | inl none_before ↦ absurd (empty-Has [] x refl none_before)
    | inr (new, points) ↦ inr new
  ]

  seeds_complete :
      (m : ℕ) (x : Bytes) → m ≤ 0 → Explained m x → Has (keep_words sorted slots ([], [])).0 x
  unfolding Explained
  seeds_complete zero x small e = keep_words-has sorted slots ([], []) x e
  seeds_complete (suc m) x small e = absurd (omega arith)

-- The hashes in the order of the search, for what was recorded.
abbrev pub sorted_hashes : List RecordedPreimage → List Bytes
sorted_hashes recorded = sort_by from_bytes (keys (preimages_of [] recorded))

-- A hash is kept exactly if a storage key of 32 bytes leads to it: the search finds it for the
-- key, or for a word of a preimage of a hash that a key leads to, through at most sixteen
-- preimages. What counts for a hash is the first preimage recorded for it.
pub storage_slot_hashes_iff :
    (calls : List Call) (recorded : List RecordedPreimage) (h : Bytes)
    → (contains (storage_slot_hashes calls recorded) h ≡ true)
      ↔ Within
          (sorted_hashes recorded)
          (preimages_of [] recorded)
          (all_slot_keys calls)
          keccak_filter_max_depth
          h
unfolding storage_slot_hashes
storage_slot_hashes_iff calls recorded h =
    let sorted = sorted_hashes recorded in
    let preimages = preimages_of [] recorded in
    let slots = all_slot_keys calls in
    let seeds = keep_words sorted slots ([], []) in
    (
      λ there.
          rounds_sound sorted preimages slots keccak_filter_max_depth 0 seeds.0 seeds.1 h
            (seeds_sound sorted preimages slots) (seeds_inside sorted preimages slots) there,
      λ explained.
          rounds_complete sorted preimages slots keccak_filter_max_depth 0 seeds.0 seeds.1
            explained.0 h (seeds-IsClosed sorted preimages slots)
            (seeds_complete sorted preimages slots) explained.1 explained.2,
    )
