-- ===== src/Keccak/Growth.antt =====
-- How the set of kept hashes and the next frontier grow together.
use mathlib.Core.Path.{subst}
use evm_firehose_tracer_go.Prelude.{
  ◌⊎◌, ◌≡◌, refl, sym, ◌∙◌, ap, true, ◌||◌, List, [], ◌∷◌, ◌++◌, Option, none, some, arith, inl,
  inr, Bool-cases,
}
use evm_firehose_tracer_go.Prelude.Bytes.{Bytes, bytes_eq_iff}
use evm_firehose_tracer_go.Keccak.{
  contains, keep, keep_found, keep_words, expand, keccak_slot_base, inner_keccak_hash_candidates,
  lookup, or_empty,
}

abbrev pub Has : List Bytes → Bytes → Type 0
Has xs h = contains xs h ≡ true

pub Has-append :
    (xs ys : List Bytes) (h : Bytes) → contains (xs ++ ys) h ≡ (contains xs h || contains ys h)
unfolding contains
Has-append [] ys h = refl
Has-append (x ∷ xs) ys h = ground (arith, Has-append xs ys h)

Has-single : (x h : Bytes) → Has (x ∷ []) h → x ≡ h
unfolding contains
Has-single x h e = ground (arith, bytes_eq_iff x h)

Has-self : (h : Bytes) → Has (h ∷ []) h
unfolding contains
Has-self h = ground (arith, bytes_eq_iff h h)

-- The kept hashes and the list that new ones are added to, before and after: nothing is lost, and
-- what is new has `P` and is in both.
pub record Grows (P : Bytes → Type 0) (st st' : List Bytes × List Bytes) : Type 0 where
  pub kept : (h : Bytes) → Has st.0 h → Has st'.0 h
  pub into : (h : Bytes) → Has st.1 h → Has st'.1 h
  pub fresh : (h : Bytes) → Has st'.0 h → Has st.0 h ⊎ (Has st'.1 h × P h)
  pub within : (h : Bytes) → Has st'.1 h → Has st.1 h ⊎ Has st'.0 h

pub Grows-same : (P : Bytes → Type 0) (st : List Bytes × List Bytes) → Grows P st st
Grows-same P st = record {
  kept = λ h e. e;
  into = λ h e. e;
  fresh = λ h e. inl e;
  within = λ h e. inl e;
}

Grows-weaken :
    (P Q : Bytes → Type 0) (st st' : List Bytes × List Bytes)
    → ((h : Bytes) → P h → Q h)
    → Grows P st st'
    → Grows Q st st'
Grows-weaken P Q st st' f g = record {
  kept = g.kept;
  into = g.into;
  fresh = λ h e. elim (g.fresh h e) [ inl old ↦ inl old | inr new ↦ inr (new.0, f h new.1) ];
  within = g.within;
}

Grows-trans :
    (P : Bytes → Type 0) (st st' st'' : List Bytes × List Bytes)
    → Grows P st st'
    → Grows P st' st''
    → Grows P st st''
Grows-trans P st st' st'' f g = record {
  kept = λ h e. g.kept h (f.kept h e);
  into = λ h e. g.into h (f.into h e);
  fresh = λ h e. elim (g.fresh h e) [
    | inr new ↦ inr new
    | inl old ↦ elim (f.fresh h old) [
      | inl older ↦ inl older
      | inr new ↦ inr (g.into h new.0, new.1)
    ]
  ];
  within = λ h e. elim (g.within h e) [
    | inr new ↦ inr new
    | inl old ↦ elim (f.within h old) [ inl older ↦ inl older | inr new ↦ inr (g.kept h new) ]
  ];
}

keep-Grows :
    (x : Bytes) (kept into : List Bytes) → Grows (λ h. x ≡ h) (kept, into) (keep x (kept, into))
unfolding keep
keep-Grows x kept into = elim (Bool-cases (contains kept x)) [
  | inl there ↦ rw there (Grows-same (λ h. x ≡ h) (kept, into))
  | inr missing ↦ rw missing (record {
    kept = λ h e. ground (arith, Has-append kept (x ∷ []) h);
    into = λ h e. ground (arith, Has-append into (x ∷ []) h);
    fresh = λ h e. elim (Bool-cases (contains kept h)) [
      | inl old ↦ inl old
      | inr other ↦
          let single : Has (x ∷ []) h = ground (arith, Has-append kept (x ∷ []) h) in
          inr (ground (arith, Has-append into (x ∷ []) h), Has-single x h single)
    ];
    within = λ h e. elim (Bool-cases (contains into h)) [
      | inl old ↦ inl old
      | inr other ↦ inr (ground (arith, Has-append into (x ∷ []) h, Has-append kept (x ∷ []) h))
    ];
  })
]

keep-has : (x : Bytes) (kept into : List Bytes) → Has (keep x (kept, into)).0 x
unfolding keep
keep-has x kept into = elim (Bool-cases (contains kept x)) [
  | inl there ↦ ground arith
  | inr missing ↦ ground (arith, Has-append kept (x ∷ []) x, Has-self x)
]

module _ (sorted : List Bytes) where
  -- One of the words points at the hash.
  abbrev pub PointsTo : List Bytes → Bytes → Type 0
  PointsTo ws h = (w : Bytes) × Has ws w × (keccak_slot_base sorted w ≡ some h)

  keep_found-Grows :
      (found : Option Bytes) (st : List Bytes × List Bytes)
      → Grows (λ h. found ≡ some h) st (keep_found found st)
  unfolding keep_found
  keep_found-Grows none st = Grows-same (λ h. none ≡ some h) st
  keep_found-Grows (some x) st =
      Grows-weaken (λ h. x ≡ h) (λ h. some x ≡ some h) st (keep x st) (λ h e. ap some e)
        (keep-Grows x st.0 st.1)

  keep_found-has :
      (found : Option Bytes) (h : Bytes) (st : List Bytes × List Bytes)
      → found ≡ some h
      → Has (keep_found found st).0 h
  unfolding keep_found
  keep_found-has none h st e = cc
  keep_found-has (some x) h st e =
      let same : x ≡ h = ground arith in
      subst (λ y. Has (keep x st).0 y) same (keep-has x st.0 st.1)

  Has-head : (w : Bytes) (ws : List Bytes) → Has (w ∷ ws) w
  unfolding contains
  Has-head w ws = ground (arith, bytes_eq_iff w w)

  Has-tail : (w v : Bytes) (ws : List Bytes) → Has ws v → Has (w ∷ ws) v
  unfolding contains
  Has-tail w v ws e = ground arith

  Has-cons : (w v : Bytes) (ws : List Bytes) → Has (w ∷ ws) v → (w ≡ v) ⊎ Has ws v
  unfolding contains
  Has-cons w v ws e = ground (arith, bytes_eq_iff w v)

  pub keep_words-Grows :
      (ws : List Bytes) (st : List Bytes × List Bytes)
      → Grows (PointsTo ws) st (keep_words sorted ws st)
  unfolding keep_words
  keep_words-Grows [] st = Grows-same (PointsTo []) st
  keep_words-Grows (w ∷ ws) st =
      let next = keep_found (keccak_slot_base sorted w) st in
      Grows-trans (PointsTo (w ∷ ws)) st next (keep_words sorted ws next)
        (Grows-weaken (λ h. keccak_slot_base sorted w ≡ some h) (PointsTo (w ∷ ws)) st next
          (λ h e. (w, Has-head w ws, e)) (keep_found-Grows (keccak_slot_base sorted w) st))
        (Grows-weaken (PointsTo ws) (PointsTo (w ∷ ws)) next (keep_words sorted ws next)
          (λ h p. (p.0, Has-tail w p.0 ws p.1, p.2)) (keep_words-Grows ws next))

  -- What a word points at is kept.
  pub keep_words-has :
      (ws : List Bytes) (st : List Bytes × List Bytes) (h : Bytes)
      → PointsTo ws h
      → Has (keep_words sorted ws st).0 h
  unfolding keep_words
  keep_words-has [] st h (v, there, points) = cc
  keep_words-has (w ∷ ws) st h (v, there, points) =
      let next = keep_found (keccak_slot_base sorted w) st in
      elim (Has-cons w v ws there) [
        | inr later ↦ keep_words-has ws next h (v, later, points)
        | inl same ↦ (keep_words-Grows ws next).kept h (
            keep_found-has (keccak_slot_base sorted w) h st
              (ap (keccak_slot_base sorted) same ∙ points))
      ]

  module _ (preimages : List (Bytes × Bytes)) where
    -- A word of a hash's preimage points at another hash.
    abbrev pub Child : Bytes → Bytes → Type 0
    Child parent h = PointsTo (inner_keccak_hash_candidates (or_empty (lookup parent preimages))) h

    abbrev pub ChildOf : List Bytes → Bytes → Type 0
    ChildOf hs h = (parent : Bytes) × Has hs parent × Child parent h

    pub expand-Grows :
        (hs : List Bytes) (st : List Bytes × List Bytes)
        → Grows (ChildOf hs) st (expand sorted preimages hs st)
    unfolding expand
    expand-Grows [] st = Grows-same (ChildOf []) st
    expand-Grows (x ∷ xs) st =
        let words = inner_keccak_hash_candidates (or_empty (lookup x preimages)) in
        let next = keep_words sorted words st in
        Grows-trans (ChildOf (x ∷ xs)) st next (expand sorted preimages xs next)
          (Grows-weaken (PointsTo words) (ChildOf (x ∷ xs)) st next (λ h p. (x, Has-head x xs, p))
            (keep_words-Grows words st))
          (Grows-weaken (ChildOf xs) (ChildOf (x ∷ xs)) next (expand sorted preimages xs next)
            (λ h p. (p.0, Has-tail x p.0 xs p.1, p.2)) (expand-Grows xs next))

    -- What a preimage of the frontier points at is kept.
    pub expand-has :
        (hs : List Bytes) (st : List Bytes × List Bytes) (h : Bytes)
        → ChildOf hs h
        → Has (expand sorted preimages hs st).0 h
    unfolding expand
    expand-has [] st h (parent, there, child) = cc
    expand-has (x ∷ xs) st h (parent, there, child) =
        let words = inner_keccak_hash_candidates (or_empty (lookup x preimages)) in
        let next = keep_words sorted words st in
        elim (Has-cons x parent xs there) [
          | inr later ↦ expand-has xs next h (parent, later, child)
          | inl same ↦
              (expand-Grows xs next).kept h
                (keep_words-has words st h (subst (λ y. Child y h) (sym same) child))
        ]
