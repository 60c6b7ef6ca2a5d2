-- ===== src/Prelude/Sort.antt =====
-- Sorting by a numeric key (Go's slices.SortFunc with cmp.Compare). Where keys are distinct, as
-- call indexes and ordinals are, every sorting function returns this list.
use Prim.Native.Nat.{ℕ, suc, ◌+◌, ◌≤◌}
use mathlib.Core.Path.{◌≡◌, refl}
use mathlib.Core.List.{List, [], ◌∷◌}
use native.Mathlib.Omega.{arith}
use evm_firehose_tracer_go.Prelude.Tests.{leb, if◌then◌else◌}
use evm_firehose_tracer_go.Prelude.Lists.{length, total, All}

module _ {ℓ} {A : Type ℓ} (key : A → ℕ) where
  unfoldable pub insert_by : A → List A → List A
  insert_by a [] = a ∷ []
  insert_by a (x ∷ xs) = if leb (key a) (key x) then a ∷ x ∷ xs else x ∷ insert_by a xs

  unfoldable pub sort_by : List A → List A
  unfolding insert_by
  sort_by [] = []
  sort_by (x ∷ xs) = insert_by x (sort_by xs)

  abbrev pub IsSortedBy : List A → Type 0
  IsSortedBy [] = Unit {0}
  IsSortedBy (x ∷ xs) = All (λ y. key x ≤ key y) xs × IsSortedBy xs

  All-insert_by {κ} :
      (P : A → Type κ) (a : A) (xs : List A) → P a → All P xs → All P (insert_by a xs)
  unfolding insert_by
  All-insert_by P a [] h hs = (h, tt)
  All-insert_by P a (x ∷ xs) h hs = ground (arith, All-insert_by P a xs h hs.1)

  All-le_trans : (a b : ℕ) (xs : List A) → a ≤ b → All (λ y. b ≤ key y) xs → All (λ y. a ≤ key y) xs
  All-le_trans a b [] h hs = tt
  All-le_trans a b (x ∷ xs) h hs = (omega arith, All-le_trans a b xs h hs.1)

  insert_by-IsSortedBy : (a : A) (xs : List A) → IsSortedBy xs → IsSortedBy (insert_by a xs)
  unfolding insert_by
  insert_by-IsSortedBy a [] h = (tt, tt)
  insert_by-IsSortedBy a (x ∷ xs) h = ground (
    arith,
    insert_by-IsSortedBy a xs h.1,
    All-le_trans (key a) (key x) xs,
    All-insert_by (λ (y : A). key x ≤ key y) a xs,
  )

  pub sort_by-IsSortedBy : (xs : List A) → IsSortedBy (sort_by xs)
  unfolding sort_by
  sort_by-IsSortedBy [] = tt
  sort_by-IsSortedBy (x ∷ xs) = insert_by-IsSortedBy x (sort_by xs) (sort_by-IsSortedBy xs)

  pub All-sort_by {κ} : (P : A → Type κ) (xs : List A) → All P xs → All P (sort_by xs)
  unfolding sort_by
  All-sort_by P [] h = tt
  All-sort_by P (x ∷ xs) h = All-insert_by P x (sort_by xs) h.0 (All-sort_by P xs h.1)

  total-insert_by : (f : A → ℕ) (a : A) (xs : List A) → total f (insert_by a xs) ≡ f a + total f xs
  unfolding insert_by
  total-insert_by f a [] = refl
  total-insert_by f a (x ∷ xs) = ground (arith, total-insert_by f a xs)

  -- Sorting keeps every additive measure, so it keeps how often each value occurs.
  pub total-sort_by : (f : A → ℕ) (xs : List A) → total f (sort_by xs) ≡ total f xs
  unfolding sort_by
  total-sort_by f [] = refl
  total-sort_by f (x ∷ xs) = omega (arith, total-insert_by f x (sort_by xs), total-sort_by f xs)

  length-insert_by : (a : A) (xs : List A) → length (insert_by a xs) ≡ suc (length xs)
  unfolding insert_by
  length-insert_by a [] = refl
  length-insert_by a (x ∷ xs) = ground (arith, length-insert_by a xs)

  pub length-sort_by : (xs : List A) → length (sort_by xs) ≡ length xs
  unfolding sort_by
  length-sort_by [] = refl
  length-sort_by (x ∷ xs) = omega (arith, length-insert_by x (sort_by xs), length-sort_by xs)
