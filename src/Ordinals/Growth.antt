-- ===== src/Ordinals/Growth.antt =====
-- One hook takes at most one new ordinal, the next one, and records it at most once.
use evm_firehose_tracer_go.Prelude.{
  ℕ, Bool, ◌+◌, ◌≤◌, ◌<◌, ◌≡◌, Option, List, arith, total-append, ltb, leb, ◌&&◌, if◌then◌else◌,
  u64_mod, ◌==◌, false, Bool-cases, inl, inr, ◌⊎◌, true,
}
use evm_firehose_tracer_go.Prelude.Int.{ℤ}
use evm_firehose_tracer_go.Prelude.Bytes.{Bytes, bytes_eq}
use evm_firehose_tracer_go.Pb.{BalanceChangeReason, CodeChange, Call}
use evm_firehose_tracer_go.Types.GoError.{GoError}
use evm_firehose_tracer_go.Tracer.State.{Tracer, ok, tick}
use evm_firehose_tracer_go.Tracer.Changes.{
  on_balance_change, on_nonce_change, on_code_change, on_storage_change, on_log, attach_code_change,
  new_code_change,
}
use evm_firehose_tracer_go.Tracer.Calls.{
  on_call_enter, on_call_exit, enter_call, entered_call, call_type_self_destruct, on_opcode,
  on_opcode_fault, on_keccak_preimage,
}
use evm_firehose_tracer_go.Ordinals.{hit, occurs_in_call, occurs}
use evm_firehose_tracer_go.Ordinals.Calls.{occurs-entered_call, occurs-enter_call, occurs-exit_call}
use mathlib.Core.Path.{subst}
use evm_firehose_tracer_go.Ordinals.Attach.{occurs-attach_code_change}

-- 1 for the ordinals from `a`, exclusive, to `b`.
abbrev pub between : ℕ → ℕ → ℕ → ℕ
between a b k = if ltb a k && leb k b then 1 else 0

pub record Grows (t u : Tracer) : Type 0 where
  pub from_old : t.block_ordinal.value ≤ u.block_ordinal.value
  pub at_most_one : u.block_ordinal.value ≤ t.block_ordinal.value + 1
  pub recorded :
      (k : ℕ)
      → 0 < k
      → occurs k u ≤ occurs k t + between t.block_ordinal.value u.block_ordinal.value k

abbrev pub HasRoom : Tracer → Type 0
HasRoom t = t.block_ordinal.value + 1 < u64_mod

occurs-tick : (k : ℕ) (t : Tracer) → occurs k (tick t) ≡ occurs k t
unfolding occurs tick
occurs-tick k t = ground arith

pub Grows-of_eq : {t u : Tracer} → t ≡ u → Grows t u
Grows-of_eq {t} e =
    rw (← e)
      (record { from_old = omega arith; at_most_one = omega arith; recorded = λ k h. omega arith })

module _ (t u : Tracer) (room : HasRoom t) where
  pub on_nonce_change-Grows :
      (addr : Bytes) (old new : ℕ) → on_nonce_change addr old new t ≡ ok u → Grows t u
  unfolding on_nonce_change occurs
  on_nonce_change-Grows addr old new e = record {
    from_old = ground arith;
    at_most_one = ground arith;
    recorded = λ k h. grind (arith, total-append);
  }

  pub on_storage_change-Grows :
      (addr slot old new : Bytes) → on_storage_change addr slot old new t ≡ ok u → Grows t u
  unfolding on_storage_change occurs
  on_storage_change-Grows addr slot old new e = record {
    from_old = ground arith;
    at_most_one = ground arith;
    recorded = λ k h. grind (arith, total-append);
  }

  pub on_balance_change-Grows :
      (addr : Bytes) (old new : Option ℤ) (reason : BalanceChangeReason)
      → on_balance_change addr old new reason t ≡ ok u
      → Grows t u
  unfolding on_balance_change occurs
  on_balance_change-Grows addr old new reason e = record {
    from_old = ground arith;
    at_most_one = ground arith;
    recorded = λ k h. grind (arith, total-append);
  }

  attach_code_change_ignored :
      (change : CodeChange) (k : ℕ)
      → attach_code_change change t ≡ ok u
      → u.block_ordinal.value ≡ t.block_ordinal.value
      → occurs k u ≤ occurs k t
  unfolding attach_code_change occurs
  attach_code_change_ignored change k e same = ground arith

  attach_code_change_ordinal :
      (change : CodeChange)
      → attach_code_change change t ≡ ok u
      → (u.block_ordinal.value ≡ t.block_ordinal.value)
        ⊎ (u.block_ordinal.value ≡ t.block_ordinal.value + 1)
  unfolding attach_code_change
  attach_code_change_ordinal change e = ground arith

  attach_code_change-Grows :
      (change : CodeChange)
      → change.ordinal ≡ t.block_ordinal.value + 1
      → attach_code_change change t ≡ ok u
      → Grows t u
  attach_code_change-Grows change fresh e = record {
    from_old = ground (arith, attach_code_change_ordinal change e);
    at_most_one = ground (arith, attach_code_change_ordinal change e);
    recorded = λ k h. ground (
      arith,
      attach_code_change_ordinal change e,
      attach_code_change_ignored change k e,
      occurs-attach_code_change k change t u e,
    );
  }

  pub on_code_change-Grows :
      (addr prev_hash new_hash old new : Bytes)
      → on_code_change addr prev_hash new_hash old new t ≡ ok u
      → Grows t u
  unfolding on_code_change new_code_change
  on_code_change-Grows addr prev_hash new_hash old new e =
      elim (Bool-cases (bytes_eq prev_hash new_hash)) [
        | inl same ↦ Grows-of_eq (ground arith)
        | inr differ ↦
            attach_code_change-Grows (new_code_change addr prev_hash old new_hash new t)
              (ground arith) (ground arith)
      ]

  pub on_log-Grows :
      (addr : Bytes) (topics : List Bytes) (payload : Bytes) (block_index : ℕ)
      → on_log addr topics payload block_index t ≡ ok u
      → Grows t u
  unfolding on_log occurs
  on_log-Grows addr topics payload block_index e = record {
    from_old = ground arith;
    at_most_one = ground arith;
    recorded = λ k h. grind (arith, total-append);
  }

  enter_call-Grows :
      (depth : ℕ) (to : Bytes) (c : Call)
      → ((k : ℕ) → 0 < k → occurs_in_call k c ≡ hit k (t.block_ordinal.value + 1))
      → enter_call depth to c (tick t) ≡ ok u
      → Grows t u
  unfolding tick
  enter_call-Grows depth to c fresh e = record {
    from_old = ground (arith, occurs-enter_call 0 depth to c (tick t) u e);
    at_most_one = ground (arith, occurs-enter_call 0 depth to c (tick t) u e);
    recorded = λ k h.
        ground (arith, fresh k h, occurs-tick k t, occurs-enter_call k depth to c (tick t) u e);
  }

  enter_self_destruct-Grows :
      (depth : ℕ)
      → Grows t
          (record t { latest_call_enter_suicided = true; latest_call_enter_suicided_depth = depth })
  unfolding occurs
  enter_self_destruct-Grows depth = record {
    from_old = ground arith;
    at_most_one = ground arith;
    recorded = λ k h. ground arith;
  }

  pub on_call_enter-Grows :
      (depth typ : ℕ) (from to input : Bytes) (gas : ℕ) (value : Option ℤ)
      → on_call_enter depth typ from to input gas value t ≡ ok u
      → Grows t u
  unfolding on_call_enter
  on_call_enter-Grows depth typ from to input gas value e =
      elim (Bool-cases (typ == call_type_self_destruct)) [
        | inl destruct ↦ subst (Grows t) (ground arith) (enter_self_destruct-Grows depth)
        | inr plain ↦
            enter_call-Grows depth to
              (entered_call typ from to input gas value (tick t).block_ordinal.value)
              (λ k h. ground (
                arith,
                occurs-entered_call k typ from to input gas value (t.block_ordinal.value + 1) h,
              ))
              (ground arith)
      ]

  exit_self_destruct-Grows : Grows t (record t { latest_call_enter_suicided = false })
  unfolding occurs
  exit_self_destruct-Grows = record {
    from_old = ground arith;
    at_most_one = ground arith;
    recorded = λ k h. ground arith;
  }

  pub on_call_exit-Grows :
      (output : Bytes) (gas_used : ℕ) (err : Option GoError) (reverted : Bool)
      → on_call_exit output gas_used err reverted t ≡ ok u
      → Grows t u
  unfolding on_call_exit occurs
  on_call_exit-Grows output gas_used err reverted e = record {
    from_old = ground arith;
    at_most_one = ground arith;
    recorded = λ k h. grind (arith, total-append, occurs-exit_call);
  }

  pub on_opcode-Grows : (op : ℕ) (err : Option GoError) → Grows t (on_opcode op err t)
  unfolding on_opcode occurs
  on_opcode-Grows op err = record {
    from_old = ground arith;
    at_most_one = ground arith;
    recorded = λ k h. ground arith;
  }

  pub on_opcode_fault-Grows : Grows t (on_opcode_fault t)
  unfolding on_opcode_fault occurs
  on_opcode_fault-Grows = record {
    from_old = ground arith;
    at_most_one = ground arith;
    recorded = λ k h. ground arith;
  }

  pub on_keccak_preimage-Grows :
      (hash preimage : Bytes) → on_keccak_preimage hash preimage t ≡ ok u → Grows t u
  unfolding on_keccak_preimage occurs
  on_keccak_preimage-Grows hash preimage e = record {
    from_old = ground arith;
    at_most_one = ground arith;
    recorded = λ k h. ground arith;
  }
