-- ===== src/CallStack.antt =====
-- callstack.go. The slice is a list with the top of the stack at its head; `index` is a uint32
-- that wraps. What `Peek` hands out is changed in place, which is `modify_top` here.
use evm_firehose_tracer_go.Prelude.{
  ℕ, ◌+◌, ◌-◌, Bool, true, false, List, [], ◌∷◌, Option, none, some, u32, length,
}
use evm_firehose_tracer_go.Pb.{Call}

pub record CallStack : Type 0 where
  pub stack : List Call
  pub index : ℕ
  pub depth : ℕ

unfoldable pub new_call_stack : CallStack
new_call_stack = record { stack = []; index = 0; depth = 0 }

unfoldable pub peek_list : List Call → Option Call
peek_list [] = none
peek_list (c ∷ cs) = some c

unfoldable pub peek : CallStack → Option Call
unfolding peek_list
peek cs = peek_list cs.stack

-- `call.ParentIndex = parent.Index`, if there is a parent.
unfoldable pub link : List Call → Call → Call
link [] call = call
link (parent ∷ rest) call = record call { parent_index = parent.index }

unfoldable pub push : Call → CallStack → CallStack
unfolding link
push call cs =
    let index = u32 (cs.index + 1) in
    record {
      stack = link cs.stack (record call { index = index; depth = u32 cs.depth }) ∷ cs.stack;
      index = index;
      depth = cs.depth + 1;
    }

unfoldable pub pop_list : List Call → CallStack → Option Call × CallStack
pop_list [] cs = (none, cs)
pop_list (c ∷ rest) cs = (some c, record cs { stack = rest; depth = cs.depth - 1 })

unfoldable pub pop : CallStack → Option Call × CallStack
unfolding pop_list
pop cs = pop_list cs.stack cs

unfoldable pub has_active_list : List Call → Bool
has_active_list [] = false
has_active_list (c ∷ cs) = true

unfoldable pub has_active_call : CallStack → Bool
unfolding has_active_list
has_active_call cs = has_active_list cs.stack

unfoldable pub depth : CallStack → ℕ
depth cs = length cs.stack

unfoldable pub reset : CallStack
reset = record { stack = []; index = 0; depth = 0 }

unfoldable pub root_list : List Call → Option Call
root_list [] = none
root_list (c ∷ []) = some c
root_list (c ∷ d ∷ cs) = root_list (d ∷ cs)

unfoldable pub root : CallStack → Option Call
unfolding root_list
root cs = root_list cs.stack

unfoldable pub parent_list : List Call → Option Call
parent_list [] = none
parent_list (c ∷ []) = none
parent_list (c ∷ p ∷ cs) = some p

unfoldable pub parent : CallStack → Option Call
unfolding parent_list
parent cs = parent_list cs.stack

unfoldable pub parent_index_of : Option Call → ℕ
parent_index_of none = 0
parent_index_of (some p) = p.index

unfoldable pub parent_index : CallStack → ℕ
unfolding parent parent_index_of
parent_index cs = parent_index_of (parent cs)

unfoldable pub modify_list : (Call → Call) → List Call → List Call
modify_list f [] = []
modify_list f (c ∷ cs) = f c ∷ cs

-- A write through the pointer that `Peek` returned.
unfoldable pub modify_top : (Call → Call) → CallStack → CallStack
unfolding modify_list
modify_top f cs = record cs { stack = modify_list f cs.stack }
