-- ===== src/CallTree.antt =====
-- The call tree that the hooks build, as an abstract machine: the shapes of the active and of the
-- completed calls of the current transaction, and of one that a system call interrupted.
pub mod Machine
pub mod Completion
pub mod Simulation
pub mod Numbering
pub mod Sequence
pub mod Reverted
use evm_firehose_tracer_go.Prelude.{
  ℕ, ◌+◌, ◌-◌, ◌≡◌, List, [], ◌∷◌, ◌++◌, Option, none, some, map, u32,
}
use evm_firehose_tracer_go.Prelude.Sort.{sort_by}
use evm_firehose_tracer_go.Pb.{Call, TransactionTrace}
use evm_firehose_tracer_go.CallStack.{CallStack}
use evm_firehose_tracer_go.Tracer.State.{Tracer, InterruptedTransactionState}

pub record Shape : Type 0 where
  pub index : ℕ
  pub parent_index : ℕ
  pub depth : ℕ

abbrev pub shape : Call → Shape
shape c = record { index = c.index; parent_index = c.parent_index; depth = c.depth }

abbrev pub shape_index : Shape → ℕ
shape_index s = s.index

pub record Tree : Type 0 where
  pub active : List Shape
  pub done : List Shape
  pub index : ℕ
  pub depth : ℕ

abbrev pub empty : Tree
empty = record { active = []; done = []; index = 0; depth = 0 }

abbrev pub calls_of : Option TransactionTrace → List Call
calls_of none = []
calls_of (some trx) = trx.calls

abbrev pub tree : CallStack → Option TransactionTrace → Tree
tree cs trx = record {
  active = map shape cs.stack;
  done = map shape (calls_of trx);
  index = cs.index;
  depth = cs.depth;
}

abbrev pub interrupted_tree : Option InterruptedTransactionState → Option Tree
interrupted_tree none = none
interrupted_tree (some s) = some (tree s.call_stack s.transaction)

pub record View : Type 0 where
  pub current : Tree
  pub interrupted : Option Tree

abbrev pub view : Tracer → View
view t = record {
  current = tree t.call_stack t.transaction;
  interrupted = interrupted_tree t.interrupted_transaction;
}

abbrev pub top_index : List Shape → ℕ
top_index [] = 0
top_index (s ∷ ss) = s.index

-- A call enters under the one on top.
abbrev pub entered : Tree → Tree
entered tr = record {
  active =
      record {
        index = u32 (tr.index + 1);
        parent_index = top_index tr.active;
        depth = u32 tr.depth;
      }
      ∷ tr.active;
  done = tr.done;
  index = u32 (tr.index + 1);
  depth = tr.depth + 1;
}

-- The call on top is done.
abbrev pub left : Shape → List Shape → Tree → Tree
left s rest tr = record tr { active = rest; done = tr.done ++ s ∷ []; depth = tr.depth - 1 }

pub data Move (v w : View) : Type 0 where
  keep : w ≡ v → Move v w
  enter : w ≡ record v { current = entered v.current } → Move v w
  leave :
      (s : Shape) (rest : List Shape)
      → v.current.active ≡ s ∷ rest
      → w ≡ record v { current = left s rest v.current }
      → Move v w
  order :
      w ≡ record v { current = record v.current { done = sort_by shape_index v.current.done } }
      → Move v w
  clear : w ≡ record v { current = empty } → Move v w
  interrupt : w ≡ record { current = empty; interrupted = some v.current } → Move v w
  resume :
      (tr : Tree)
      → v.interrupted ≡ some tr
      → w ≡ record { current = tr; interrupted = none }
      → Move v w
