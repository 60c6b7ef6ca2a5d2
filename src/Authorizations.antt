-- ===== src/Authorizations.antt =====
-- tracer.go, discardUncommittedSetCodeAuthorizations: which authorizations are left. An account
-- and a nonce are counted on both sides.
use Prim.Native.Nat.{min}
use mathlib.Core.Path.{subst}
use evm_firehose_tracer_go.Prelude.{
  ℕ, ◌+◌, ◌≤◌, ◌<◌, ◌≡◌, refl, sym, ◌∙◌, ap, Bool, true, false, not, ◌&&◌, List, [], ◌∷◌, map, none,
  some, All, total, is_empty, u64, ◌==◌, if◌then◌else◌, arith, inl, inr, Bool-cases, Option-cases,
}
use evm_firehose_tracer_go.Prelude.Bytes.{Bytes, bytes_eq, bytes_eq_iff}
use evm_firehose_tracer_go.Pb.{Call, NonceChange, SetCodeAuthorization, TransactionTrace}
use evm_firehose_tracer_go.Tracer.Completion.{
  used_before, find_nonce_change, discard_uncommitted, discard_uncommitted_set_code_authorizations,
}

abbrev pub one_if : Bool → ℕ
one_if b = if b then 1 else 0

-- The change raises the nonce `n` of the account `a` by one.
abbrev pub raises : Bytes → ℕ → NonceChange → Bool
raises a n c = c.old_value == n && c.new_value == u64 (n + 1) && bytes_eq c.address a

abbrev pub is_of : Bytes → ℕ → SetCodeAuthorization → Bool
is_of a n auth = bytes_eq auth.authority a && auth.nonce == n

abbrev pub is_left : Bytes → ℕ → SetCodeAuthorization → Bool
is_left a n auth = not auth.discarded && is_of a n auth

module _ (a : Bytes) (n : ℕ) where
  -- Of the changes from position `i` on, those that raise the nonce and are free.
  unfoldable free_from : List ℕ → ℕ → List NonceChange → ℕ
  free_from used i [] = 0
  free_from used i (c ∷ cs) =
      one_if (raises a n c && not (used_before used i)) + free_from used (i + 1) cs

  free_from-none :
      (used : List ℕ) (i : ℕ) (cs : List NonceChange)
      → find_nonce_change a n used i cs ≡ none
      → free_from used i cs ≡ 0
  unfolding free_from find_nonce_change
  free_from-none used i [] e = refl
  free_from-none used i (c ∷ cs) e = elim (Bool-cases (raises a n c && not (used_before used i))) [
    | inl found ↦ absurd (ground arith)
    | inr skipped ↦ ground (arith, free_from-none used (i + 1) cs)
  ]

  find_nonce_change-le :
      (used : List ℕ) (i k : ℕ) (cs : List NonceChange)
      → find_nonce_change a n used i cs ≡ some k
      → i ≤ k
  unfolding find_nonce_change
  find_nonce_change-le used i k [] e = absurd (ground arith)
  find_nonce_change-le used i k (c ∷ cs) e =
      elim (Bool-cases (raises a n c && not (used_before used i))) [
        | inl found ↦ ground arith
        | inr skipped ↦
            let later : i + 1 ≤ k = find_nonce_change-le used (i + 1) k cs (ground arith) in
            omega arith
      ]

  -- A position before the first one does not matter.
  free_from-earlier :
      (used : List ℕ) (k i : ℕ) (cs : List NonceChange)
      → k < i
      → free_from (k ∷ used) i cs ≡ free_from used i cs
  unfolding free_from used_before
  free_from-earlier used k i [] h = refl
  free_from-earlier used k i (c ∷ cs) h =
      ground (arith, free_from-earlier used k (i + 1) cs (omega arith))

  -- The position that is found is free, and taken once it is used.
  free_from-some :
      (used : List ℕ) (i k : ℕ) (cs : List NonceChange)
      → find_nonce_change a n used i cs ≡ some k
      → free_from (k ∷ used) i cs + 1 ≡ free_from used i cs
  unfolding free_from find_nonce_change used_before
  free_from-some used i k [] e = absurd (ground arith)
  free_from-some used i k (c ∷ cs) e =
      elim (Bool-cases (raises a n c && not (used_before used i))) [
        | inl found ↦
            let here : i ≡ k = ground arith in
            ground (arith, free_from-earlier used k (i + 1) cs (omega arith))
        | inr skipped ↦
            let there : find_nonce_change a n used (i + 1) cs ≡ some k = ground arith in
            ground (
              arith,
              free_from-some used (i + 1) k cs there,
              find_nonce_change-le used (i + 1) k cs there,
            )
      ]

differs :
    (a b : Bytes) (n m : ℕ) (c : NonceChange)
    → (bytes_eq b a && m == n) ≡ false
    → raises b m c ≡ true
    → raises a n c ≡ false
differs a b n m c other found =
    let same_b : c.address ≡ b = ground (arith, bytes_eq_iff c.address b) in
    elim (Bool-cases (bytes_eq c.address a)) [
      | inr apart ↦ ground arith
      | inl same ↦
          let both : bytes_eq b a ≡ true = subst (λ x. bytes_eq x a ≡ true) same_b same in
          ground arith
    ]

-- The position that is found is of no other account and nonce.
free_from-other :
    (a : Bytes) (n : ℕ) (b : Bytes) (m : ℕ) (used : List ℕ) (i k : ℕ) (cs : List NonceChange)
    → (bytes_eq b a && m == n) ≡ false
    → find_nonce_change b m used i cs ≡ some k
    → free_from a n (k ∷ used) i cs ≡ free_from a n used i cs
unfolding free_from find_nonce_change used_before
free_from-other a n b m used i k [] other e = absurd (ground arith)
free_from-other a n b m used i k (c ∷ cs) other e =
    elim (Bool-cases (raises b m c && not (used_before used i))) [
      | inl found ↦
          let here : i ≡ k = ground arith in
          let none_here = differs a b n m c other (ground arith) in
          ground (arith, free_from-earlier a n used k (i + 1) cs (omega arith))
      | inr skipped ↦
          let there : find_nonce_change b m used (i + 1) cs ≡ some k = ground arith in
          ground (
            arith,
            free_from-other a n b m used (i + 1) k cs other there,
            find_nonce_change-le b m used (i + 1) k cs there,
          )
    ]

-- How many of a list are of the account and the nonce, and how many of them are left.
abbrev pub asked : Bytes → ℕ → List SetCodeAuthorization → ℕ
asked a n = total (λ auth. one_if (is_of a n auth))

abbrev pub left : Bytes → ℕ → List SetCodeAuthorization → ℕ
left a n = total (λ auth. one_if (is_left a n auth))

-- Only one without an account is marked before the end, as the start of a transaction does it.
abbrev pub IsUnjudged : SetCodeAuthorization → Type 0
IsUnjudged auth = (auth.discarded && not (is_empty auth.authority)) ≡ false

module _ (a : Bytes) (n : ℕ) (some_account : is_empty a ≡ false) (changes : List NonceChange) where
  of_nobody :
      (auth : SetCodeAuthorization) → is_empty auth.authority ≡ true → is_of a n auth ≡ false
  unfolding bytes_eq
  of_nobody auth e = ground arith

  own_search :
      (auth : SetCodeAuthorization) (used : List ℕ)
      → is_of a n auth ≡ true
      → find_nonce_change auth.authority auth.nonce used 0 changes
        ≡ find_nonce_change a n used 0 changes
  own_search auth used own =
      let account : auth.authority ≡ a = ground (arith, bytes_eq_iff auth.authority a) in
      let nonce : auth.nonce ≡ n = ground arith in rw (account, nonce) refl

  left-discard_uncommitted :
      (used : List ℕ) (auths : List SetCodeAuthorization)
      → All IsUnjudged auths
      → left a n (discard_uncommitted changes used auths)
        ≡ min (asked a n auths) (free_from a n used 0 changes)
  unfolding discard_uncommitted
  left-discard_uncommitted used [] h = omega arith
  left-discard_uncommitted used (auth ∷ auths) (fresh, h) =
      elim (Bool-cases (is_empty auth.authority)) [
        | inl nobody ↦ ground (arith, of_nobody auth nobody, left-discard_uncommitted used auths h)
        | inr somebody ↦
            elim (Option-cases (find_nonce_change auth.authority auth.nonce used 0 changes)) [
              | inl nothing ↦ elim (Bool-cases (is_of a n auth)) [
                | inr foreign ↦ ground (arith, left-discard_uncommitted used auths h)
                | inl own ↦ ground (
                  arith,
                  left-discard_uncommitted used auths h,
                  free_from-none a n used 0 changes (sym (own_search auth used own) ∙ nothing),
                )
              ]
              | inr (k, found) ↦ elim (Bool-cases (is_of a n auth)) [
                | inr foreign ↦ ground (
                  arith,
                  left-discard_uncommitted (k ∷ used) auths h,
                  free_from-other a n auth.authority auth.nonce used 0 k changes foreign found,
                )
                | inl own ↦ ground (
                  arith,
                  left-discard_uncommitted (k ∷ used) auths h,
                  free_from-some a n used 0 k changes (sym (own_search auth used own) ∙ found),
                )
              ]
            ]
      ]

free_from-unused :
    (a : Bytes) (n i : ℕ) (cs : List NonceChange)
    → free_from a n [] i cs ≡ total (λ c. one_if (raises a n c)) cs
unfolding free_from used_before
free_from-unused a n i [] = refl
free_from-unused a n i (c ∷ cs) = ground (arith, free_from-unused a n (i + 1) cs)

-- An authorization but for the mark.
abbrev pub unmarked : SetCodeAuthorization → SetCodeAuthorization
unmarked auth = record auth { discarded = false }

unmarked-discard_uncommitted :
    (changes : List NonceChange) (used : List ℕ) (auths : List SetCodeAuthorization)
    → map unmarked (discard_uncommitted changes used auths) ≡ map unmarked auths
unfolding discard_uncommitted
unmarked-discard_uncommitted changes used [] = refl
unmarked-discard_uncommitted changes used (auth ∷ auths) =
    elim (Bool-cases (is_empty auth.authority)) [
      | inl nobody ↦ ground (arith, unmarked-discard_uncommitted changes used auths)
      | inr somebody ↦
          elim (Option-cases (find_nonce_change auth.authority auth.nonce used 0 changes)) [
            | inl nothing ↦ ground (arith, unmarked-discard_uncommitted changes used auths)
            | inr (k, found) ↦ ground (arith, unmarked-discard_uncommitted changes (k ∷ used) auths)
          ]
    ]

-- For each account and nonce, as many authorizations of a transaction are left at its end as it
-- has of them, or as often as its root call raises that account's nonce by one from there,
-- whichever is less: no nonce change answers two authorizations, and none is left unused that one
-- asks for. Nothing but the marks changes. (Only
-- authorizations without an account are marked before.)
pub authorizations_left :
    (a : Bytes) (n : ℕ) (root : Call) (trx : TransactionTrace)
    → is_empty a ≡ false
    → All IsUnjudged trx.set_code_authorizations
    → let out = (discard_uncommitted_set_code_authorizations root trx).set_code_authorizations in
      (left a n out
        ≡ min
            (asked a n trx.set_code_authorizations)
            (total (λ c. one_if (raises a n c)) root.nonce_changes))
      × (map unmarked out ≡ map unmarked trx.set_code_authorizations)
unfolding discard_uncommitted_set_code_authorizations
authorizations_left a n root trx some_account fresh = (
  left-discard_uncommitted a n some_account root.nonce_changes [] trx.set_code_authorizations fresh
      ∙ ap (min (asked a n trx.set_code_authorizations))
          (free_from-unused a n 0 root.nonce_changes),
  unmarked-discard_uncommitted root.nonce_changes [] trx.set_code_authorizations,
)
