-- ===== src/CallTree/Reverted.antt =====
-- Which calls are marked as reverted: those that failed and those under a call that failed.
use mathlib.Core.Path.{subst}
use evm_firehose_tracer_go.Prelude.{
  ℕ, zero, suc, ◌≤◌, ◌<◌, ◌≡◌, ◌↔◌, refl, sym, ap, ◌∙◌, Bool, true, false, ◌||◌, List, [], ◌∷◌,
  ◌++◌, some, map, length, get_elem?, All, arith, inl, inr, ◌⊎◌, Bool-cases, append_assoc,
  append-nil, length-append,
}
use evm_firehose_tracer_go.Prelude.Sort.{sort_by, All-sort_by}
use evm_firehose_tracer_go.Pb.{Call}
use evm_firehose_tracer_go.Tracer.State.{Tracer, ok}
use evm_firehose_tracer_go.Tracer.Completion.{
  parent_state_reverted, populate_loop, populate_state_reverted,
}
use evm_firehose_tracer_go.CallTree.{shape, shape_index, view}
use evm_firehose_tracer_go.CallTree.Numbering.{IsBelow, IsNumbered}
use evm_firehose_tracer_go.CallTree.Sequence.{IsSequence, sort_by-IsSequence}

-- The call failed, or the call at its parent's position is one of these.
pub data IsReverted (calls : List Call) : Call → Type 0 where
  itself : (c : Call) → c.status_failed ≡ true → IsReverted calls c
  above :
      (c : Call) (i : ℕ) (p : Call)
      → c.parent_index ≡ suc i
      → get_elem? calls i ≡ some p
      → IsReverted calls p
      → IsReverted calls c

-- A call with its mark; nothing else of it is changed.
pub record IsMarked (calls : List Call) (c marked : Call) : Type 0 where
  pub same : marked ≡ record c { state_reverted = marked.state_reverted }
  pub mark : (marked.state_reverted ≡ true) ↔ IsReverted calls c

abbrev pub AllMarked : List Call → List Call → List Call → Type 0
AllMarked calls [] [] = Unit
AllMarked calls [] (m ∷ ms) = ⊥
AllMarked calls (c ∷ cs) [] = ⊥
AllMarked calls (c ∷ cs) (m ∷ ms) = IsMarked calls c m × AllMarked calls cs ms

-- From position `n` on, each call's parent stands before it.
abbrev pub HasParentsFrom : ℕ → List Call → Type 0
HasParentsFrom n [] = Unit
HasParentsFrom n (c ∷ cs) = (c.parent_index ≤ n) × HasParentsFrom (suc n) cs

AllMarked-append :
    (calls cs ms : List Call) (c m : Call)
    → AllMarked calls cs ms
    → IsMarked calls c m
    → AllMarked calls (cs ++ c ∷ []) (ms ++ m ∷ [])
AllMarked-append calls [] [] c m h hm = (hm, tt)
AllMarked-append calls [] (y ∷ ys) c m h hm = absurd h
AllMarked-append calls (x ∷ xs) [] c m h hm = absurd h
AllMarked-append calls (x ∷ xs) (y ∷ ys) c m h hm = (h.0, AllMarked-append calls xs ys c m h.1 hm)

-- The call at a position that was visited, with its mark.
visited_at :
    (calls cs ms rest rest' : List Call) (i : ℕ)
    → AllMarked calls cs ms
    → i < length cs
    → (p : Call) × (m : Call) × (get_elem? (cs ++ rest) i ≡ some p)
      × (get_elem? (ms ++ rest') i ≡ some m)
      × IsMarked calls p m
visited_at calls [] ms rest rest' i h hi = absurd (omega arith)
visited_at calls (c ∷ cs) [] rest rest' i h hi = absurd h
visited_at calls (c ∷ cs) (m ∷ ms) rest rest' zero h hi = (c, m, refl, refl, h.0)
visited_at calls (c ∷ cs) (m ∷ ms) rest rest' (suc i) h hi =
    visited_at calls cs ms rest rest' i h.1 (omega arith)

length-AllMarked : (calls cs ms : List Call) → AllMarked calls cs ms → length ms ≡ length cs
length-AllMarked calls [] [] h = refl
length-AllMarked calls [] (m ∷ ms) h = absurd h
length-AllMarked calls (c ∷ cs) [] h = absurd h
length-AllMarked calls (c ∷ cs) (m ∷ ms) h = ap suc (length-AllMarked calls cs ms h.1)

-- A call is one of these if it failed or its parent is.
IsReverted-under :
    (calls : List Call) (c p : Call) (i : ℕ)
    → c.parent_index ≡ suc i
    → get_elem? calls i ≡ some p
    → IsReverted calls c
    → (c.status_failed ≡ true) ⊎ IsReverted calls p
IsReverted-under calls _ p i under found (itself c failed) = inl failed
IsReverted-under calls _ p i under found (above c j q under' found' r) =
    let same_index : j ≡ i = omega arith in
    let same : q ≡ p = ground arith in inr (subst (IsReverted calls) same r)

mark_under :
    (calls : List Call) (c p m : Call) (i : ℕ)
    → c.parent_index ≡ suc i
    → get_elem? calls i ≡ some p
    → IsMarked calls p m
    → IsMarked calls c (record c { state_reverted = m.state_reverted || c.status_failed })
mark_under calls c p m i under found h = record {
  same = refl;
  mark = (
    λ e. elim (Bool-cases m.state_reverted) [
      | inl marked ↦ above c i p under found (h.mark.0 marked)
      | inr unmarked ↦ itself c (ground arith)
    ],
    λ r. elim (IsReverted-under calls c p i under found r) [
      | inl failed ↦ ground arith
      | inr r' ↦ let e = h.mark.1 r' in ground arith
    ],
  );
}

root_reverted :
    (calls : List Call) (c : Call)
    → c.parent_index ≡ 0
    → IsReverted calls c
    → c.status_failed ≡ true
root_reverted calls _ alone (itself c failed) = failed
root_reverted calls _ alone (above c j q under found r) = absurd (omega arith)

mark_root :
    (calls : List Call) (c : Call)
    → c.parent_index ≡ 0
    → IsMarked calls c (record c { state_reverted = c.status_failed })
mark_root calls c alone = record {
  same = refl;
  mark = (λ e. itself c e, λ r. root_reverted calls c alone r);
}

index_cases : (n : ℕ) → (n ≡ 0) ⊎ ((i : ℕ) × (n ≡ suc i))
index_cases zero = inl refl
index_cases (suc i) = inr (i, refl)

-- The mark that the walk computes for the call after those visited.
next_mark :
    (calls cs ms rest : List Call) (c : Call)
    → calls ≡ cs ++ c ∷ rest
    → AllMarked calls cs ms
    → c.parent_index ≤ length cs
    → (b : Bool) × (parent_state_reverted (ms ++ c ∷ rest) c.parent_index ≡ ok b)
      × IsMarked calls c (record c { state_reverted = b || c.status_failed })
unfolding parent_state_reverted
next_mark calls cs ms rest c e h bound = elim (index_cases c.parent_index) [
  | inl alone ↦ (false, ground arith, mark_root calls c alone)
  | inr (i, under) ↦
      let (p, m, found, visited, marked) =
        visited_at calls cs ms (c ∷ rest) (c ∷ rest) i h (omega arith) in
      (m.state_reverted, ground arith, mark_under calls c p m i under (ground arith) marked)
]

populate_step :
    (ms rest : List Call) (c : Call) (b : Bool)
    → parent_state_reverted (ms ++ c ∷ rest) c.parent_index ≡ ok b
    → populate_loop ms (c ∷ rest)
      ≡ populate_loop (ms ++ record c { state_reverted = b || c.status_failed } ∷ []) rest
unfolding populate_loop
populate_step ms rest c b found = rw (populate_loop, found) refl

populate_loop_marks :
    (calls cs ms rest : List Call)
    → calls ≡ cs ++ rest
    → AllMarked calls cs ms
    → HasParentsFrom (length cs) rest
    → (out : List Call) × (populate_loop ms rest ≡ ok out) × AllMarked calls calls out
unfolding populate_loop
populate_loop_marks calls cs ms [] e h parents =
    (ms, refl, subst (λ xs. AllMarked calls xs ms) (sym (e ∙ append-nil cs)) h)
populate_loop_marks calls cs ms (c ∷ rest) e h (near, parents) =
    let (b, found, marked) = next_mark calls cs ms rest c e h near in
    let m : Call = record c { state_reverted = b || c.status_failed } in
    let (out, walked, all) =
      populate_loop_marks calls (cs ++ c ∷ []) (ms ++ m ∷ []) rest
        (e ∙ sym (append_assoc cs (c ∷ []) rest)) (AllMarked-append calls cs ms c m h marked)
        (subst (λ n. HasParentsFrom n rest) (omega (arith, length-append cs (c ∷ []))) parents) in
    (out, populate_step ms rest c b found ∙ walked, all)

-- If each call's parent stands before it, the walk does not panic, changes nothing but the marks,
-- and marks exactly the calls that failed or are under one that failed.
pub populate_state_reverted_marks :
    (calls : List Call)
    → HasParentsFrom 0 calls
    → (out : List Call) × (populate_state_reverted calls ≡ ok out) × AllMarked calls calls out
unfolding populate_state_reverted
populate_state_reverted_marks calls parents = populate_loop_marks calls [] [] calls refl tt parents

sequence-HasParentsFrom :
    (n : ℕ) (calls : List Call)
    → IsSequence n (map shape calls)
    → All IsBelow (map shape calls)
    → HasParentsFrom n calls
sequence-HasParentsFrom n [] h hs = tt
sequence-HasParentsFrom n (c ∷ cs) h hs =
    (omega (arith, h.0, hs.0), sequence-HasParentsFrom (suc n) cs h.1 hs.1)

-- For a transaction whose calls are numbered and of which none is active, on calls that have the
-- indexes, parents and depths of its completed ones, sorted by index, the walk at its end does not
-- panic, changes nothing but the marks, and marks exactly the calls that failed or are under one
-- that failed.
pub numbered_marks :
    (t : Tracer) (calls : List Call)
    → IsNumbered (view t).current
    → t.call_stack.stack ≡ []
    → map shape calls ≡ sort_by shape_index (view t).current.done
    → (out : List Call) × (populate_state_reverted calls ≡ ok out) × AllMarked calls calls out
numbered_marks t calls h idle e =
    let done = (view t).current.done in
    populate_state_reverted_marks calls (
      sequence-HasParentsFrom 0 calls
        (subst (IsSequence 0) (sym e) (sort_by-IsSequence (view t).current h (ap (map shape) idle)))
        (subst (All IsBelow) (sym e) (All-sort_by shape_index IsBelow done h.below)))
