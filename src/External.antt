-- ===== src/External.antt =====
-- The functions of other modules that the tracer calls: Keccak-256 and RLP of eth-go, and public
-- key recovery of btcec. `none` is an error.
use evm_firehose_tracer_go.Prelude.{ℕ, Option, ◌++◌, take, replicate}
use evm_firehose_tracer_go.Prelude.Bytes.{Bytes}

pub record External : Type 0 where
  pub keccak256 : Bytes → Bytes
  -- rlp.Encode of [address, nonce], and of [chain ID, address, nonce].
  pub rlp_sender_nonce : Bytes → ℕ → Option Bytes
  pub rlp_authorization : ℕ → Bytes → ℕ → Option Bytes
  -- RecoverCompact of a compact signature and a hash: the point's two coordinates.
  pub recover_compact : Bytes → Bytes → Option (ℕ × ℕ)

-- `copy` into a zeroed array of `n` bytes.
abbrev pub fit : ℕ → Bytes → Bytes
fit n bs = take n (bs ++ replicate n 0)
