-- ===== src/Types/BigInt.antt =====
-- types.go: comparison of big.Int pointers and their protobuf encoding.
use evm_firehose_tracer_go.Prelude.{
  ℕ, suc, Bool, true, Option, none, some, ◌≡◌, ◌↔◌, arith, if◌then◌else◌,
}
use evm_firehose_tracer_go.Prelude.Int.{ℤ, pos, nat_abs, is_zero_ℤ, eqb_ℤ, eqb_ℤ_iff, negsuc}
use evm_firehose_tracer_go.Prelude.Bytes.{from_bytes, to_bytes, from_bytes-to_bytes}
use evm_firehose_tracer_go.Pb.{BigIntBytes}

-- Nil and zero count as equal.
unfoldable pub big_int_equal : Option ℤ → Option ℤ → Bool
big_int_equal none none = true
big_int_equal none (some b) = is_zero_ℤ b
big_int_equal (some a) none = is_zero_ℤ a
big_int_equal (some a) (some b) = eqb_ℤ a b

-- Nil for nil and for zero; the magnitude's bytes otherwise.
unfoldable pub big_int_to_protobuf : Option ℤ → BigIntBytes
big_int_to_protobuf none = none
big_int_to_protobuf (some i) = if is_zero_ℤ i then none else some (to_bytes (nat_abs i))

-- The integer that a pointer stands for, nil being zero.
abbrev pub value_of : Option ℤ → ℤ
value_of none = pos 0
value_of (some i) = i

-- The number that a reader decodes.
abbrev pub decode : BigIntBytes → ℕ
decode none = 0
decode (some bs) = from_bytes bs

-- Two pointers are equal for the tracer exactly when they stand for one integer.
pub big_int_equal_iff : (a b : Option ℤ) → (big_int_equal a b ≡ true) ↔ (value_of a ≡ value_of b)
unfolding big_int_equal
big_int_equal_iff none none = ground arith
big_int_equal_iff none (some b) = ground arith
big_int_equal_iff (some a) none = ground arith
big_int_equal_iff (some a) (some b) = eqb_ℤ_iff a b

-- The encoding is nil exactly for zero, whether nil or not, and a reader of it gets the magnitude.
pub decode-big_int_to_protobuf :
    (i : Option ℤ)
    → ((big_int_to_protobuf i ≡ none) ↔ (value_of i ≡ pos 0))
      × (decode (big_int_to_protobuf i) ≡ nat_abs (value_of i))
unfolding big_int_to_protobuf
decode-big_int_to_protobuf none = ground arith
decode-big_int_to_protobuf (some (pos n)) = ground (arith, from_bytes-to_bytes n)
decode-big_int_to_protobuf (some (negsuc n)) = ground (arith, from_bytes-to_bytes (suc n))
