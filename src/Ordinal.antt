-- ===== src/Ordinal.antt =====
-- ordinal.go: the counter behind the ordinals, an atomic uint64 that wraps.
use evm_firehose_tracer_go.Prelude.{ℕ, ◌+◌, u64}

pub record Ordinal : Type 0 where
  pub value : ℕ

-- The new counter; its value is what `Next` returns.
unfoldable pub next : Ordinal → Ordinal
next o = record { value = u64 (o.value + 1) }

unfoldable pub peek : Ordinal → ℕ
peek o = o.value

unfoldable pub set : ℕ → Ordinal
set v = record { value = v }

unfoldable pub reset : Ordinal
reset = record { value = 0 }

unfoldable pub restore : ℕ → Ordinal
restore v = record { value = v }
