-- ===== src/Protocol/Calls.antt =====
-- Hooks that are called in the order of calls never panic, and leave the calls as they were.
use evm_firehose_tracer_go.Prelude.{
  ℕ, suc, false, ◌≡◌, refl, ◌∙◌, ap, ◌==◌, List, [], ◌∷◌, ◌++◌, arith, inl, inr,
}
use evm_firehose_tracer_go.Prelude.Bytes.{Bytes}
use evm_firehose_tracer_go.Pb.{Call}
use evm_firehose_tracer_go.External.{External}
use evm_firehose_tracer_go.Hooks.{Hook, keccak_preimage, step, run}
use evm_firehose_tracer_go.Deferred.Laws.{populate_enter}
use evm_firehose_tracer_go.CallStack.{push}
use evm_firehose_tracer_go.Tracer.State.{Tracer, Panic, ok, panic, Result-cases, tick}
use evm_firehose_tracer_go.Tracer.Calls.{
  on_call_enter, on_call_exit, enter_call, populate_on_enter, on_keccak_preimage, entered_call,
  resolve_delegation, call_type_self_destruct, call_type_to_proto, is_unspecified,
}
use evm_firehose_tracer_go.Protocol.{
  CallKind, creates, calls, calls_code, delegates, creates2, calls_static, opcode_of, Entry, Exit,
  enter, exit, change_hook, Activity, changes, hashes, nests, destructs, Activities, finished, also,
  hooks_of, hooks_of_all, IsTracing,
}
use evm_firehose_tracer_go.Protocol.Changes.{Traces, Traces-of, change-Traces}

module _ (s : Tracer) (n : ℕ) (t : Tracer) (h : IsTracing s n t) where
  populate_on_enter-Traces :
      (depth : ℕ) (c : Call)
      → (r : Call × Tracer) × (populate_on_enter depth c t ≡ ok r) × IsTracing s n r.1
  unfolding populate_on_enter
  populate_on_enter-Traces depth c = elim (Result-cases (populate_on_enter depth c t)) [
    | inl (r, e) ↦ (r, e, ground (arith, h, populate_enter t.deferred_call_state c))
    | inr (p, e) ↦ absurd (ground (arith, h, populate_enter t.deferred_call_state c))
  ]

kind_specified : (kind : CallKind) → is_unspecified (call_type_to_proto (opcode_of kind)) ≡ false
unfolding call_type_to_proto
kind_specified creates = refl
kind_specified calls = refl
kind_specified calls_code = refl
kind_specified delegates = refl
kind_specified creates2 = refl
kind_specified calls_static = refl

kind_plain : (kind : CallKind) → (opcode_of kind == call_type_self_destruct) ≡ false
kind_plain creates = refl
kind_plain calls = refl
kind_plain calls_code = refl
kind_plain delegates = refl
kind_plain creates2 = refl
kind_plain calls_static = refl

tick-IsTracing : (s : Tracer) (n : ℕ) (t : Tracer) → IsTracing s n t → IsTracing s n (tick t)
unfolding tick
tick-IsTracing s n t h = ground (arith, h)

push-IsTracing :
    (s : Tracer) (n : ℕ) (c : Call) (t : Tracer)
    → IsTracing s n t
    → IsTracing s (suc n) (record t { call_stack = push c t.call_stack })
unfolding push
push-IsTracing s n c t h = ground (arith, h)

enter_call-Traces :
    (s : Tracer) (n depth : ℕ) (to : Bytes) (c : Call) (t : Tracer)
    → IsTracing s n t
    → is_unspecified c.call_type ≡ false
    → Traces s (suc n) (enter_call depth to c t)
unfolding enter_call
enter_call-Traces s n depth to c t h valid =
    let (r, populated, kept) = populate_on_enter-Traces s n t h depth (resolve_delegation t to c) in
    (
      record r.1 { call_stack = push r.0 r.1.call_stack },
      ground (arith, populated),
      push-IsTracing s n r.0 r.1 kept,
    )

entered-type :
    (typ : ℕ) (e : Entry) (ordinal : ℕ)
    → (entered_call typ e.from e.to e.input e.gas e.value ordinal).call_type
      ≡ call_type_to_proto typ
unfolding entered_call
entered-type typ e ordinal = refl

module _ (ext : External) where
  pub enter-Traces :
      (s : Tracer) (n : ℕ) (kind : CallKind) (e : Entry) (t : Tracer)
      → IsTracing s n t
      → Traces s (suc n) (step ext (enter e (opcode_of kind)) t)
  unfolding step on_call_enter
  enter-Traces s n kind e t h =
      let c =
        entered_call (opcode_of kind) e.from e.to e.input e.gas e.value
          (tick t).block_ordinal.value in
      let (u, entered, kept) =
        enter_call-Traces s n e.depth e.to c (tick t) (tick-IsTracing s n t h) (
          ap is_unspecified (entered-type (opcode_of kind) e (tick t).block_ordinal.value)
          ∙ kind_specified kind) in
      (u, rw (kind_plain kind) entered, kept)

  pub exit-Traces :
      (s : Tracer) (n : ℕ) (x : Exit) (t : Tracer)
      → IsTracing s (suc n) t
      → Traces s n (step ext (exit x) t)
  unfolding step on_call_exit
  exit-Traces s n x t h =
      Traces-of s n (step ext (exit x) t) (λ p e. ground (arith, h)) (λ u e. ground (arith, h))

  destruct-Traces :
      (s : Tracer) (n : ℕ) (e : Entry) (x : Exit) (t : Tracer)
      → IsTracing s n t
      → Traces s n (run ext (enter e call_type_self_destruct ∷ exit x ∷ []) t)
  unfolding run step on_call_enter on_call_exit
  destruct-Traces s n e x t h =
      Traces-of s n (run ext (enter e call_type_self_destruct ∷ exit x ∷ []) t)
        (λ p e. ground (arith, h)) (λ u e. ground (arith, h))

  hashes-Traces :
      (s : Tracer) (n : ℕ) (hash preimage : Bytes) (t : Tracer)
      → IsTracing s (suc n) t
      → Traces s (suc n) (step ext (keccak_preimage hash preimage) t)
  unfolding step on_keccak_preimage
  hashes-Traces s n hash preimage t h =
      Traces-of s (suc n) (on_keccak_preimage hash preimage t) (λ p e. ground (arith, h))
        (λ u e. ground (arith, h))

  -- One list of hooks after another.
  pub run-append :
      (xs ys : List Hook) (t u : Tracer) → run ext xs t ≡ ok u → run ext (xs ++ ys) t ≡ run ext ys u
  unfolding run
  run-append [] ys t u e = let same : t ≡ u = ground arith in ap (run ext ys) same
  run-append (x ∷ xs) ys t u e = elim (Result-cases (step ext x t)) [
    | inr (p, failed) ↦ absurd (ground arith)
    | inl (v, stepped) ↦ ground (arith, run-append xs ys v u)
  ]

  pub run_panic-append :
      (xs ys : List Hook) (t : Tracer) (p : Panic)
      → run ext xs t ≡ panic p
      → run ext (xs ++ ys) t ≡ panic p
  unfolding run
  run_panic-append [] ys t p e = absurd (ground arith)
  run_panic-append (x ∷ xs) ys t p e = elim (Result-cases (step ext x t)) [
    | inr (q, failed) ↦ ground arith
    | inl (v, stepped) ↦ ground (arith, run_panic-append xs ys v p)
  ]

  run-step : (x : Hook) (t u : Tracer) → step ext x t ≡ ok u → run ext (x ∷ []) t ≡ ok u
  unfolding run
  run-step x t u e = ground arith

  pub run-cons :
      (x : Hook) (xs : List Hook) (t u : Tracer)
      → step ext x t ≡ ok u
      → run ext (x ∷ xs) t ≡ run ext xs u
  unfolding run
  run-cons x xs t u e = ground arith

  pub then-Traces :
      (s : Tracer) (m n : ℕ) (xs ys : List Hook) (t : Tracer)
      → Traces s m (run ext xs t)
      → ((u : Tracer) → IsTracing s m u → Traces s n (run ext ys u))
      → Traces s n (run ext (xs ++ ys) t)
  then-Traces s m n xs ys t (u, ran, kept) next =
      let (v, last, held) = next u kept in (v, run-append xs ys t u ran ∙ last, held)

  pub single-Traces :
      (s : Tracer) (n : ℕ) (x : Hook) (t : Tracer)
      → Traces s n (step ext x t)
      → Traces s n (run ext (x ∷ []) t)
  single-Traces s n x t (u, e, kept) = (u, run-step x t u e, kept)

  mutual
    unfolding hooks_of hooks_of_all run

    activity-Traces :
        (a : Activity) (s : Tracer) (n : ℕ) (t : Tracer)
        → IsTracing s (suc n) t
        → Traces s (suc n) (run ext (hooks_of a) t)
    activity-Traces (changes c) s n t h =
        single-Traces s (suc n) (change_hook c) t (change-Traces s (suc n) t h ext c)
    activity-Traces (hashes hash preimage) s n t h =
        single-Traces s (suc n) (keccak_preimage hash preimage) t
          (hashes-Traces s n hash preimage t h)
    activity-Traces (nests kind e body x) s n t h =
        let (u, entered, inside) = enter-Traces s (suc n) kind e t h in
        let (v, ran, kept) =
          then-Traces s (suc (suc n)) (suc n) (hooks_of_all body) (exit x ∷ []) u
            (activities-Traces body s (suc n) u inside)
            (λ w k. single-Traces s (suc n) (exit x) w (exit-Traces s (suc n) x w k)) in
        (
          v,
          run-cons (enter e (opcode_of kind)) (hooks_of_all body ++ exit x ∷ []) t u entered ∙ ran,
          kept,
        )
    activity-Traces (destructs e x) s n t h = destruct-Traces s (suc n) e x t h

    activities-Traces :
        (body : Activities) (s : Tracer) (n : ℕ) (t : Tracer)
        → IsTracing s (suc n) t
        → Traces s (suc n) (run ext (hooks_of_all body) t)
    activities-Traces finished s n t h = (t, refl, h)
    activities-Traces (also a rest) s n t h =
        then-Traces s (suc n) (suc n) (hooks_of a) (hooks_of_all rest) t (activity-Traces a s n t h)
          (λ u k. activities-Traces rest s n u k)

  -- Whatever happens within an active call, with calls nested to any depth, the hooks never
  -- panic, and they leave as many active calls as there were, the block, the transaction and the
  -- chain's configuration in place, and no self-destruct pending. The tracer stays as isolated as it was, and keeps the transaction that
  -- a system call interrupted.
  pub activities_trace :
      (body : Activities) (s : Tracer) (n : ℕ) (t : Tracer)
      → IsTracing s (suc n) t
      → (u : Tracer) × (run ext (hooks_of_all body) t ≡ ok u) × IsTracing s (suc n) u
  activities_trace body s n t h = activities-Traces body s n t h
