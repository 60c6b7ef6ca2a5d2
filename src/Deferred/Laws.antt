-- ===== src/Deferred/Laws.antt =====
-- What moving the deferred changes into a root call does.
use mathlib.Core.List.{append-nil}
use evm_firehose_tracer_go.Prelude.{
  ◌≡◌, refl, ap, sym, true, List, [], ◌∷◌, ◌++◌, some, inl, inr, is_empty, Bool-cases, arith,
}
use evm_firehose_tracer_go.Pb.{Call}
use evm_firehose_tracer_go.Deferred.{
  DeferredCallState, is_empty_state, prepend, append, reset, maybe_populate_call_and_reset,
}

-- With nothing deferred, both ways of populating leave a call as it is, so the early return is
-- only a shortcut.

is_empty→nil {ℓ} : {A : Type ℓ} (xs : List A) → is_empty xs ≡ true → xs ≡ []
is_empty→nil [] h = refl
is_empty→nil (x ∷ xs) h = cc

pub is_empty_state→reset : (d : DeferredCallState) → is_empty_state d ≡ true → d ≡ reset
unfolding is_empty_state reset
is_empty_state→reset d h = ground (
  arith,
  is_empty→nil d.account_creations,
  is_empty→nil d.balance_changes,
  is_empty→nil d.nonce_changes,
  is_empty→nil d.code_changes,
  is_empty→nil d.storage_changes,
  is_empty→nil d.logs,
)

prepend-reset : (call : Call) → prepend reset call ≡ call
unfolding prepend reset
prepend-reset call = refl

-- On entering the root call the deferred changes come first, each kind in its order, and none
-- stays behind; the call with `enter` never fails.
pub populate_enter :
    (d : DeferredCallState) (call : Call)
    → maybe_populate_call_and_reset "enter" d call ≡ some (prepend d call, reset)
unfolding maybe_populate_call_and_reset
populate_enter d call = elim (Bool-cases (is_empty_state d)) [
  | inl e ↦
      rw e (rw (is_empty_state→reset d e) (ap (λ c. some (c, reset)) (sym (prepend-reset call))))
  | inr e ↦ rw e refl
]

append-reset : (call : Call) → append reset call ≡ call
unfolding append reset
append-reset call = ground (
  arith,
  append-nil call.account_creations,
  append-nil call.balance_changes,
  append-nil call.nonce_changes,
  append-nil call.code_changes,
  append-nil call.storage_changes,
  append-nil call.logs,
)

-- At the end of the transaction the deferred changes come last.
pub populate_root :
    (d : DeferredCallState) (call : Call)
    → maybe_populate_call_and_reset "root" d call ≡ some (append d call, reset)
unfolding maybe_populate_call_and_reset
populate_root d call = elim (Bool-cases (is_empty_state d)) [
  | inl e ↦
      rw e (rw (is_empty_state→reset d e) (ap (λ c. some (c, reset)) (sym (append-reset call))))
  | inr e ↦ rw e refl
]

-- Changes seen before the root call enters and changes seen after it left end up in the root call,
-- each kind in its order with the earlier ones in front of the call's own and the later ones behind
-- them; the rest of the call is as it was, none stays behind, and neither step fails.
pub populate_both :
    (before after : DeferredCallState) (call : Call)
    → (entered root : Call) × (maybe_populate_call_and_reset "enter" before call
        ≡ some (entered, reset))
      × (maybe_populate_call_and_reset "root" after entered ≡ some (root, reset))
      × (root.account_creations
          ≡ (before.account_creations ++ call.account_creations) ++ after.account_creations)
      × (root.balance_changes
          ≡ (before.balance_changes ++ call.balance_changes) ++ after.balance_changes)
      × (root.nonce_changes ≡ (before.nonce_changes ++ call.nonce_changes) ++ after.nonce_changes)
      × (root.code_changes ≡ (before.code_changes ++ call.code_changes) ++ after.code_changes)
      × (root.storage_changes
          ≡ (before.storage_changes ++ call.storage_changes) ++ after.storage_changes)
      × (root.logs ≡ (before.logs ++ call.logs) ++ after.logs)
      × (call ≡ record root {
        account_creations = call.account_creations;
        balance_changes = call.balance_changes;
        nonce_changes = call.nonce_changes;
        code_changes = call.code_changes;
        storage_changes = call.storage_changes;
        logs = call.logs;
      })
unfolding prepend append
populate_both before after call = (
  prepend before call,
  append after (prepend before call),
  populate_enter before call,
  populate_root after (prepend before call),
  refl,
  refl,
  refl,
  refl,
  refl,
  refl,
  refl,
)
