-- ===== src/Printer/Decimal.antt =====
-- strconv.AppendUint and strconv.AppendInt in base 10, as tracer_printer.go calls them, and the
-- reading of such a text.
use mathlib.Core.Path.{subst}
use evm_firehose_tracer_go.Prelude.{
  ℕ, zero, suc, ◌+◌, ◌-◌, ◌*◌, ◌/◌, ◌%◌, ◌≤◌, ◌<◌, ◌≡◌, refl, ap, sym, ◌∙◌, true, false, ◌&&◌, [],
  ◌∷◌, ◌++◌, Option, none, some, length, List-cases, append_assoc, leb, ltb, ◌==◌, if◌then◌else◌,
  All, arith, inl, inr, Bool-cases,
}
use evm_firehose_tracer_go.Prelude.Int.{ℤ, pos, negsuc}
use evm_firehose_tracer_go.Prelude.Bytes.{Bytes}
use evm_firehose_tracer_go.Printer.Words.{IsWord}

-- The digits of `n`, put before `rest`. One unit of fuel is a digit; `n + 1` are enough.
unfoldable pub digits_fuel : ℕ → ℕ → Bytes → Bytes
digits_fuel zero n rest = rest
digits_fuel (suc f) n rest = elim (ltb n 10) [
  | true ↦ (n + b'0') ∷ rest
  | false ↦ digits_fuel f (n / 10) ((n % 10 + b'0') ∷ rest)
]

unfoldable pub append_uint : Bytes → ℕ → Bytes
unfolding digits_fuel
append_uint line n = line ++ digits_fuel (n + 1) n []

unfoldable pub append_int : Bytes → ℤ → Bytes
unfolding append_uint
append_int line (pos n) = append_uint line n
append_int line (negsuc n) = append_uint (line ++ b'-' ∷ []) (n + 1)

abbrev pub IsDigit : ℕ → Type 0
IsDigit c = (b'0' ≤ c) × (c ≤ b'9')

-- The number that a text of digits continues, digit by digit.
unfoldable pub parse_digits : ℕ → Bytes → Option ℕ
parse_digits n [] = some n
parse_digits n (c ∷ s) =
    let rest = parse_digits (n * 10 + (c - b'0')) s in
    if leb b'0' c && leb c b'9' then rest else none

unfoldable pub parse_uint : Bytes → Option ℕ
unfolding parse_digits
parse_uint [] = none
parse_uint (c ∷ s) = parse_digits 0 (c ∷ s)

abbrev pub negated : Option ℕ → Option ℤ
negated none = none
negated (some zero) = some (pos 0)
negated (some (suc n)) = some (negsuc n)

abbrev pub unsigned : Option ℕ → Option ℤ
unsigned none = none
unsigned (some n) = some (pos n)

unfoldable pub parse_int : Bytes → Option ℤ
unfolding parse_uint
parse_int [] = none
parse_int (c ∷ s) = if c == b'-' then negated (parse_uint s) else unsigned (parse_uint (c ∷ s))

parse_digits-digits_fuel :
    (f n : ℕ) (rest : Bytes) → n < f → parse_digits 0 (digits_fuel f n rest) ≡ parse_digits n rest
unfolding digits_fuel parse_digits
parse_digits-digits_fuel zero n rest h = absurd (omega arith)
parse_digits-digits_fuel (suc f) n rest h = elim (Bool-cases (ltb n 10)) [
  | inl small ↦ rw (digits_fuel, small) (ground arith)
  | inr large ↦
      rw (digits_fuel, large)
        (parse_digits-digits_fuel f (n / 10) ((n % 10 + b'0') ∷ rest) (ground arith) ∙ ground arith)
]

All-digits_fuel : (f n : ℕ) (rest : Bytes) → All IsDigit rest → All IsDigit (digits_fuel f n rest)
unfolding digits_fuel
All-digits_fuel zero n rest h = h
All-digits_fuel (suc f) n rest h = elim (Bool-cases (ltb n 10)) [
  | inl small ↦ rw (digits_fuel, small) ((ground arith, ground arith), h)
  | inr large ↦
      rw (digits_fuel, large)
        (All-digits_fuel f (n / 10) ((n % 10 + b'0') ∷ rest) ((omega arith, omega arith), h))
]

length-digits_fuel : (f n : ℕ) (rest : Bytes) → length rest ≤ length (digits_fuel f n rest)
unfolding digits_fuel
length-digits_fuel zero n rest = omega arith
length-digits_fuel (suc f) n rest = elim (Bool-cases (ltb n 10)) [
  | inl small ↦ rw (digits_fuel, small) (omega arith)
  | inr large ↦
      rw (digits_fuel, large)
        (omega (arith, length-digits_fuel f (n / 10) ((n % 10 + b'0') ∷ rest)))
]

abbrev digits : ℕ → Bytes
digits n = digits_fuel (n + 1) n []

digits-cons : (n : ℕ) → (c : ℕ) × (s : Bytes) × (digits n ≡ c ∷ s)
unfolding digits_fuel
digits-cons n = elim (List-cases (digits n)) [
  | inr found ↦ found
  | inl e ↦ elim (Bool-cases (ltb n 10)) [
    | inl small ↦ absurd (ground arith)
    | inr large ↦ absurd (ground (arith, length-digits_fuel n (n / 10) ((n % 10 + b'0') ∷ [])))
  ]
]

parse_uint-digits : (n : ℕ) → parse_uint (digits n) ≡ some n
unfolding parse_uint
parse_uint-digits n =
    let (c, s, e) = digits-cons n in
    let read : parse_digits 0 (digits n) ≡ some n =
      parse_digits-digits_fuel (n + 1) n [] (omega arith) in
    rw e (ap (parse_digits 0) (sym e) ∙ read)

parse_int-digits : (n : ℕ) → parse_int (digits n) ≡ some (pos n)
unfolding parse_int
parse_int-digits n =
    let (c, s, e) = digits-cons n in
    let digit : IsDigit c = (subst (All IsDigit) e (All-digits_fuel (n + 1) n [] tt)).0 in
    let plain : (c == b'-') ≡ false = ground arith in
    rw (e, plain) (ap unsigned (ap parse_uint (sym e) ∙ parse_uint-digits n))

digits-IsWord : (s : Bytes) → All IsDigit s → IsWord s
digits-IsWord [] h = tt
digits-IsWord (c ∷ s) (digit, h) = (omega (arith, digit), digits-IsWord s h)

word_of : (n : ℕ) → IsWord (digits n)
word_of n = digits-IsWord (digits n) (All-digits_fuel (n + 1) n [] tt)

parse_int-negative : (n : ℕ) → parse_int (b'-' ∷ digits (n + 1)) ≡ some (negsuc n)
unfolding parse_int
parse_int-negative n =
    let same : n + 1 ≡ suc n = omega arith in ap negated (parse_uint-digits (n + 1) ∙ ap some same)

-- The text of a number is put behind what the line has, and reads as the number.
pub append_uint-read :
    (line : Bytes) (n : ℕ)
    → (text : Bytes) × (append_uint line n ≡ line ++ text)
      × (parse_uint text ≡ some n)
      × IsWord text
unfolding append_uint
append_uint-read line n = (digits n, refl, parse_uint-digits n, word_of n)

-- The same for a number with a sign.
pub append_int-read :
    (line : Bytes) (n : ℤ)
    → (text : Bytes) × (append_int line n ≡ line ++ text) × (parse_int text ≡ some n) × IsWord text
unfolding append_int append_uint
append_int-read line (pos n) = (digits n, refl, parse_int-digits n, word_of n)
append_int-read line (negsuc n) = (
  b'-' ∷ digits (n + 1),
  append_assoc line (b'-' ∷ []) (digits (n + 1)),
  parse_int-negative n,
  (omega arith, word_of (n + 1)),
)
