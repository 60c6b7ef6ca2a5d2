-- ===== src/CallTree/Machine.antt =====
-- Which move of the abstract call tree each hook makes. Besides the tree, a move depends on four
-- facts about the tracer.
use evm_firehose_tracer_go.Prelude.{
  refl, Bool, not, ◌&&◌, [], ◌∷◌, none, some, is_some, inl, inr, Bool-cases, List-cases,
  Option-cases, if◌then◌else◌, ◌==◌,
}
use evm_firehose_tracer_go.Prelude.Sort.{sort_by}
use evm_firehose_tracer_go.Tracer.State.{Tracer}
use evm_firehose_tracer_go.Tracer.Calls.{call_type_self_destruct}
use evm_firehose_tracer_go.Hooks.{
  Hook, tx_start, tx_end, call_enter, call_exit, balance_change, nonce_change, code_change,
  storage_change, log, opcode, opcode_fault, keccak_preimage, system_call_start, system_call_end,
}
use evm_firehose_tracer_go.CallTree.{
  Tree, View, shape_index, empty, entered, left, Move, keep, enter, leave, order, clear, interrupt,
  resume,
}

pub record Guards : Type 0 where
  -- The last call enter was a self-destruct, whose exit is still to come.
  pub destructed : Bool
  pub in_transaction : Bool
  pub isolated : Bool
  -- A transaction without a receipt is left out.
  pub drops : Bool

abbrev pub guards : Tracer → Guards
guards t = record {
  destructed = t.latest_call_enter_suicided;
  in_transaction = is_some t.transaction;
  isolated = t.transaction_isolated;
  drops = t.config.drop_transactions_without_receipt;
}

abbrev pub with_current : View → Tree → View
with_current v tr = record v { current = tr }

-- The call on top leaves, if there is one.
abbrev pub pop_tree : Tree → Tree
pop_tree tr = elim tr.active [ [] ↦ tr | s ∷ rest ↦ left s rest tr ]

abbrev pub sorted_tree : Tree → Tree
sorted_tree tr = record tr { done = sort_by shape_index tr.done }

-- An isolated tracer keeps its transaction, with the calls in the order of their indexes unless it
-- is left out.
abbrev pub end_tree : Bool → Guards → View → View
end_tree has_receipt g v =
    if g.isolated
    then (if not has_receipt && g.drops then v else with_current v (sorted_tree v.current))
    else with_current v empty

abbrev pub resumed : View → View
resumed v = elim v.interrupted [
  | none ↦ with_current v empty
  | some tr ↦ record { current = tr; interrupted = none }
]

-- A self-destruct enters no call, and no call leaves behind it. A system call puts the current
-- transaction aside, if there is one. Changes, logs, opcodes and preimages leave the tree as it is.
abbrev pub next : Hook → Guards → View → View
next (tx_start event reader) g v = v
next (tx_end receipt) g v = end_tree (is_some receipt) g v
next (call_enter depth typ from to input gas value) g v =
    if typ == call_type_self_destruct then v else with_current v (entered v.current)
next (call_exit output gas_used err reverted) g v =
    if g.destructed then v else with_current v (pop_tree v.current)
next (balance_change addr old new reason) g v = v
next (nonce_change addr old new) g v = v
next (code_change addr prev_hash new_hash old new) g v = v
next (storage_change addr slot old new) g v = v
next (log addr topics payload block_index) g v = v
next (opcode op err) g v = v
next opcode_fault g v = v
next (keccak_preimage hash preimage) g v = v
next system_call_start g v =
    if g.in_transaction then record { current = empty; interrupted = some v.current } else v
next system_call_end g v = resumed v

if-Move : (b : Bool) (v x y : View) → Move v x → Move v y → Move v (if b then x else y)
if-Move b v x y on_true on_false = elim (Bool-cases b) [
  | inl e ↦ rw e on_true
  | inr e ↦ rw e on_false
]

pop_tree-Move : (v : View) → Move v (with_current v (pop_tree v.current))
pop_tree-Move v = elim (List-cases v.current.active) [
  | inl e ↦ keep (rw e refl)
  | inr (s, rest, e) ↦ leave s rest e (rw e refl)
]

resumed-Move : (v : View) → Move v (resumed v)
resumed-Move v = elim (Option-cases v.interrupted) [
  | inl e ↦ clear (rw e refl)
  | inr (tr, e) ↦ resume tr e (rw e refl)
]

-- What each hook does is one of the moves.
pub next-Move : (h : Hook) (g : Guards) (v : View) → Move v (next h g v)
next-Move (tx_start event reader) g v = keep refl
next-Move (tx_end receipt) g v =
    if-Move g.isolated v _ _
      (if-Move (not (is_some receipt) && g.drops) v _ _ (keep refl) (order refl)) (clear refl)
next-Move (call_enter depth typ from to input gas value) g v =
    if-Move (typ == call_type_self_destruct) v _ _ (keep refl) (enter refl)
next-Move (call_exit output gas_used err reverted) g v =
    if-Move g.destructed v _ _ (keep refl) (pop_tree-Move v)
next-Move (balance_change addr old new reason) g v = keep refl
next-Move (nonce_change addr old new) g v = keep refl
next-Move (code_change addr prev_hash new_hash old new) g v = keep refl
next-Move (storage_change addr slot old new) g v = keep refl
next-Move (log addr topics payload block_index) g v = keep refl
next-Move (opcode op err) g v = keep refl
next-Move opcode_fault g v = keep refl
next-Move (keccak_preimage hash preimage) g v = keep refl
next-Move system_call_start g v = if-Move g.in_transaction v _ _ (interrupt refl) (keep refl)
next-Move system_call_end g v = resumed-Move v
