-- ===== src/Debug/OpCodes.antt =====
-- The text of an opcode tells which one it is.
use mathlib.Core.Path.{subst}
use evm_firehose_tracer_go.Prelude.{
  ℕ, zero, suc, ◌<◌, ◌≡◌, refl, Bool, true, false, ◌&&◌, List, [], ◌∷◌, Option, none, some, String,
  ◌==◌, if◌then◌else◌, arith, inl, inr, Bool-cases, Option-cases,
}
use evm_firehose_tracer_go.Prelude.Bytes.{Bytes, bytes_eq, codes}
use evm_firehose_tracer_go.Hex.{hex_digit, hex_to_byte, hex_char_to_byte}
use evm_firehose_tracer_go.Debug.{op_code_names, op_code_view}

-- The opcode with a name.
unfoldable pub named_in : List (ℕ × String) → Bytes → Option ℕ
unfolding bytes_eq
named_in [] text = none
named_in ((k, name) ∷ names) text = elim (bytes_eq (codes name) text) [
  | true ↦ some k
  | false ↦ named_in names text
]

-- A name, or 0x and two digits.
unfoldable pub read_op_code : Bytes → Option ℕ
unfolding named_in hex_to_byte
read_op_code (c ∷ x ∷ a ∷ b ∷ []) =
    if c == b'0' && x == b'x'
    then some (hex_to_byte a b)
    else named_in op_code_names (c ∷ x ∷ a ∷ b ∷ [])
read_op_code text = named_in op_code_names text

abbrev is_read : ℕ → Bool
is_read o = elim (read_op_code (op_code_view o)) [ none ↦ false | some k ↦ k == o ]

unfoldable all_below : ℕ → Bool
all_below zero = true
all_below (suc n) = is_read n && all_below n

all_read : all_below 256 ≡ true
unfolding all_below read_op_code op_code_view hex_char_to_byte hex_digit
all_read = refl

read_below : (n o : ℕ) → all_below n ≡ true → o < n → is_read o ≡ true
unfolding all_below
read_below zero o all h = absurd (omega arith)
read_below (suc n) o all h = elim (Bool-cases (o == n)) [
  | inl last ↦ let same : n ≡ o = ground arith in subst (λ k. is_read k ≡ true) same (ground arith)
  | inr before ↦ read_below n o (ground arith) (ground arith)
]

-- Reading the text of a byte's opcode gives the byte: no two of the 256 have the same text, a
-- name never reads as two digits, and a byte without a name is written with its digits.
pub read_op_code-op_code_view : (o : ℕ) → o < 256 → read_op_code (op_code_view o) ≡ some o
read_op_code-op_code_view o h =
    let fits : is_read o ≡ true = read_below 256 o all_read h in
    elim (Option-cases (read_op_code (op_code_view o))) [
      | inl nothing ↦ absurd (ground arith)
      | inr (k, found) ↦ ground arith
    ]
