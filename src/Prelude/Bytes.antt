-- ===== src/Prelude/Bytes.antt =====
-- Byte strings: equality, order and the numbers that they stand for, most significant byte first
-- (Go's bytes.Equal, bytes.Compare, big.Int.SetBytes and big.Int.Bytes).
use Prim.Native.Nat.{ℕ, zero, suc, ◌+◌, ◌*◌, ◌/◌, ◌%◌, ◌<◌, ◌≤◌}
use Prim.Native.Char.{code}
use Prim.Native.String.{String}
use mathlib.Core.Path.{◌≡◌, ap, ◌∙◌}
use mathlib.Core.Bool.{Bool, true, false, ◌&&◌}
use mathlib.Core.Logic.{◌↔◌, inl, inr}
use mathlib.Core.List.{List, [], ◌∷◌}
use native.Mathlib.Omega.{arith}
use evm_firehose_tracer_go.Prelude.Tests.{◌==◌, Bool-cases}
use evm_firehose_tracer_go.Prelude.Lists.{All}

abbrev pub Bytes : Type 0
Bytes = List ℕ

abbrev pub IsByteString : Bytes → Type 0
IsByteString = All (λ b. b < 256)

unfoldable pub bytes_eq : Bytes → Bytes → Bool
bytes_eq [] [] = true
bytes_eq [] (y ∷ ys) = false
bytes_eq (x ∷ xs) [] = false
bytes_eq (x ∷ xs) (y ∷ ys) = x == y && bytes_eq xs ys

pub bytes_eq_iff : (xs ys : Bytes) → (bytes_eq xs ys ≡ true) ↔ (xs ≡ ys)
unfolding bytes_eq
bytes_eq_iff [] [] = ground arith
bytes_eq_iff [] (y ∷ ys) = ground arith
bytes_eq_iff (x ∷ xs) [] = ground arith
bytes_eq_iff (x ∷ xs) (y ∷ ys) = ground (arith, bytes_eq_iff xs ys)

-- The characters of a literal, which are its bytes when the text is ASCII.
abbrev pub codes : String → Bytes
codes String.[] = []
codes (String.◌∷◌ c s) = code c ∷ codes s

-- All the bytes are zero.
unfoldable pub all_zero : Bytes → Bool
all_zero [] = true
all_zero (x ∷ xs) = x == 0 && all_zero xs

-- `SetBytes`, continued from what was read before.
unfoldable pub from_bytes_acc : ℕ → Bytes → ℕ
from_bytes_acc acc [] = acc
from_bytes_acc acc (b ∷ bs) = from_bytes_acc (acc * 256 + b) bs

unfoldable pub from_bytes : Bytes → ℕ
unfolding from_bytes_acc
from_bytes bs = from_bytes_acc 0 bs

-- The digits of `n`, put before `rest`. One unit of fuel is a byte; `n` of them are enough.
unfoldable pub to_bytes_fuel : ℕ → ℕ → Bytes → Bytes
to_bytes_fuel zero n rest = rest
to_bytes_fuel (suc f) n rest = elim (n == 0) [
  | true ↦ rest
  | false ↦ to_bytes_fuel f (n / 256) (n % 256 ∷ rest)
]

-- `Bytes()`: no leading zero, and nothing at all for zero.
unfoldable pub to_bytes : ℕ → Bytes
unfolding to_bytes_fuel
to_bytes n = to_bytes_fuel n n []

from_bytes_acc-to_bytes_fuel :
    (f n : ℕ) (rest : Bytes)
    → n ≤ f
    → from_bytes_acc 0 (to_bytes_fuel f n rest) ≡ from_bytes_acc n rest
unfolding to_bytes_fuel from_bytes_acc
from_bytes_acc-to_bytes_fuel zero n rest h = ap (λ k. from_bytes_acc k rest) (omega arith)
from_bytes_acc-to_bytes_fuel (suc f) n rest h = elim (Bool-cases (n == 0)) [
  | inl e ↦ rw (e, to_bytes_fuel) (ap (λ k. from_bytes_acc k rest) (ground arith))
  | inr e ↦
      rw (e, to_bytes_fuel)
        (from_bytes_acc-to_bytes_fuel f (n / 256) (n % 256 ∷ rest) (ground arith)
          ∙ ap (λ k. from_bytes_acc k rest) (omega arith))
]

-- Reading back what was written gives the number.
pub from_bytes-to_bytes : (n : ℕ) → from_bytes (to_bytes n) ≡ n
unfolding from_bytes to_bytes from_bytes_acc
from_bytes-to_bytes n = from_bytes_acc-to_bytes_fuel n n [] (omega arith)
