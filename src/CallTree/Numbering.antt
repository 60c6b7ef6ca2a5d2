-- ===== src/CallTree/Numbering.antt =====
-- How calls are numbered: the indexes of a transaction's calls are 1, 2, 3 and so on without a
-- gap or a repetition, and a call's parent has a smaller one.
use mathlib.Core.Path.{subst}
use evm_firehose_tracer_go.Prelude.{
  ◌⊎◌, ℕ, ◌+◌, ◌≤◌, ◌<◌, ◌≡◌, refl, List, [], ◌∷◌, none, some, length, All, All-append, total,
  total-append, arith, u32_mod, inl, inr,
}
use evm_firehose_tracer_go.Prelude.Sort.{sort_by, total-sort_by, All-sort_by}
use evm_firehose_tracer_go.External.{External}
use evm_firehose_tracer_go.Tracer.State.{Tracer, ok, Result-cases}
use evm_firehose_tracer_go.Hooks.{Hook, step, run}
use evm_firehose_tracer_go.Ordinals.{hit}
use evm_firehose_tracer_go.Ordinals.Growth.{between}
use evm_firehose_tracer_go.CallTree.Simulation.{step-Move}
use evm_firehose_tracer_go.CallTree.{
  Shape, shape_index, Tree, View, view, empty, entered, left, top_index, Move, keep, enter, leave,
  order, clear, interrupt, resume,
}

abbrev pub shape_hit : ℕ → Shape → ℕ
shape_hit k s = hit k s.index

abbrev pub IsBelow : Shape → Type 0
IsBelow s = s.parent_index < s.index

-- Each active call was called by the one under it, and its depth is how many are under it.
abbrev pub IsChain : List Shape → Type 0
IsChain [] = Unit
IsChain (s ∷ ss) = (s.parent_index ≡ top_index ss) × (s.depth ≡ length ss) × IsBelow s × IsChain ss

pub record IsNumbered (tr : Tree) : Type 0 where
  pub once :
      (k : ℕ) → total (shape_hit k) tr.active + total (shape_hit k) tr.done ≡ between 0 tr.index k
  pub depth : tr.depth ≡ length tr.active
  pub shallow : length tr.active ≤ tr.index
  pub chain : IsChain tr.active
  pub below : All IsBelow tr.done

-- Both transactions of a view are numbered, with at most `n` calls each.
pub record AreNumbered (n : ℕ) (v : View) : Type 0 where
  pub current : IsNumbered v.current
  pub current_le : v.current.index ≤ n
  pub other : (tr : Tree) → v.interrupted ≡ some tr → IsNumbered tr × (tr.index ≤ n)

empty-IsNumbered : IsNumbered empty
empty-IsNumbered = record {
  once = λ k. ground arith;
  depth = refl;
  shallow = omega arith;
  chain = tt;
  below = tt;
}

top_cases : (ss : List Shape) → (top_index ss ≡ 0) ⊎ (0 < total (shape_hit (top_index ss)) ss)
top_cases [] = inl refl
top_cases (s ∷ ss) = inr (ground arith)

top_index-le : (tr : Tree) → IsNumbered tr → top_index tr.active ≤ tr.index
top_index-le tr h = elim (top_cases tr.active) [
  | inl e ↦ omega (arith, e)
  | inr e ↦ ground (arith, h.once (top_index tr.active))
]

entered-IsNumbered : (tr : Tree) → tr.index + 1 < u32_mod → IsNumbered tr → IsNumbered (entered tr)
entered-IsNumbered tr room h = record {
  once = λ k. ground (arith, h.once k);
  depth = ground (arith, h.depth);
  shallow = ground (arith, h.shallow);
  chain = ground (arith, h.chain, h.depth, h.shallow, top_index-le tr h);
  below = h.below;
}

left-IsNumbered :
    (tr : Tree) (s : Shape) (rest : List Shape)
    → tr.active ≡ s ∷ rest
    → IsNumbered tr
    → IsNumbered (left s rest tr)
left-IsNumbered tr s rest e h =
    let chain : IsChain (s ∷ rest) = subst IsChain e h.chain in
    record {
      once = λ k. ground (arith, h.once k, total-append (shape_hit k) tr.done (s ∷ []));
      depth = ground (arith, h.depth);
      shallow = ground (arith, h.shallow);
      chain = chain.3;
      below = All-append IsBelow tr.done (s ∷ []) h.below (chain.2, tt);
    }

ordered-IsNumbered :
    (tr : Tree) → IsNumbered tr → IsNumbered (record tr { done = sort_by shape_index tr.done })
ordered-IsNumbered tr h = record {
  once = λ k. ground (arith, h.once k, total-sort_by shape_index (shape_hit k) tr.done);
  depth = h.depth;
  shallow = h.shallow;
  chain = h.chain;
  below = All-sort_by shape_index IsBelow tr.done h.below;
}

AreNumbered-le : (n : ℕ) (v : View) → AreNumbered n v → AreNumbered (n + 1) v
AreNumbered-le n v h = record {
  current = h.current;
  current_le = omega (arith, h.current_le);
  other = λ tr e. ((h.other tr e).0, omega (arith, (h.other tr e).1));
}

pub blank-AreNumbered : (v : View) → v.current ≡ empty → v.interrupted ≡ none → AreNumbered 0 v
blank-AreNumbered v e absent = record {
  current = subst IsNumbered (ground arith) empty-IsNumbered;
  current_le = ground arith;
  other = λ tr same. cc;
}

Move-AreNumbered :
    (n : ℕ) (v w : View) → n + 1 < u32_mod → AreNumbered n v → Move v w → AreNumbered (n + 1) w
Move-AreNumbered n v w room h (keep e) = rw e (AreNumbered-le n v h)
Move-AreNumbered n v w room h (enter e) = rw e (record {
  current = entered-IsNumbered v.current (omega (arith, h.current_le)) h.current;
  current_le = omega (arith, h.current_le);
  other = (AreNumbered-le n v h).other;
})
Move-AreNumbered n v w room h (leave s rest top e) = rw e (record {
  current = left-IsNumbered v.current s rest top h.current;
  current_le = omega (arith, h.current_le);
  other = (AreNumbered-le n v h).other;
})
Move-AreNumbered n v w room h (order e) = rw e (record {
  current = ordered-IsNumbered v.current h.current;
  current_le = omega (arith, h.current_le);
  other = (AreNumbered-le n v h).other;
})
Move-AreNumbered n v w room h (clear e) = rw e (record {
  current = empty-IsNumbered;
  current_le = omega arith;
  other = (AreNumbered-le n v h).other;
})
Move-AreNumbered n v w room h (interrupt e) = rw e (record {
  current = empty-IsNumbered;
  current_le = omega arith;
  other = λ tr same.
      subst (λ x. IsNumbered x × (x.index ≤ n + 1)) (ground arith)
        (h.current, omega (arith, h.current_le));
})
Move-AreNumbered n v w room h (resume tr held e) = rw e (record {
  current = (h.other tr held).0;
  current_le = omega (arith, (h.other tr held).1);
  other = λ x absent. cc;
})

module _ (ext : External) where
  -- Any hooks that do not panic keep the calls of the current transaction, and of one that a system
  -- call interrupted, numbered: the active and the completed ones have the indexes from 1 on without
  -- a gap or a repetition, each active call has the one under it as its parent and the number of
  -- those under it as its depth, and every call has a greater index than its parent. If the
  -- two had at most n calls, they have at most n and the number of hooks afterwards; this sum has to
  -- be below 2^32.
  pub run-AreNumbered :
      (hooks : List Hook) (n : ℕ) (t u : Tracer)
      → n + length hooks < u32_mod
      → AreNumbered n (view t)
      → run ext hooks t ≡ ok u
      → AreNumbered (n + length hooks) (view u)
  unfolding run
  run-AreNumbered [] n t u room h e =
      let same : t ≡ u = ground arith in
      subst (λ x. AreNumbered (n + 0) (view x)) same
        (subst (λ m. AreNumbered m (view t)) (omega arith) h)
  run-AreNumbered (h ∷ hs) n t u room numbered e = elim (Result-cases (step ext h t)) [
    | inr (p, failed) ↦ absurd (ground arith)
    | inl (v, stepped) ↦
        subst (λ m. AreNumbered m (view u)) (omega arith)
          (run-AreNumbered hs (n + 1) v u (omega arith)
            (Move-AreNumbered n (view t) (view v) (omega arith) numbered
              (step-Move ext h t v stepped))
            (ground arith))
  ]
