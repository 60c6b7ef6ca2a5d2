-- ===== src/SetCode/Validation.antt =====
-- Which signatures the tracer accepts.
use evm_firehose_tracer_go.Prelude.{ℕ, ◌/◌, ◌≤◌, ◌<◌, ◌≡◌, ◌↔◌, ◌⊎◌, true, arith}
use evm_firehose_tracer_go.SetCode.{validate_signature_values, secp256k1_n}

-- A signature is accepted exactly when its recovery ID is one of 0, 1, 27 and 28, r lies strictly
-- between 0 and the order of the curve, and s between 0, exclusive, and half the order.
pub validate_signature_values_iff :
    (v r s : ℕ)
    → (validate_signature_values v r s ≡ true) ↔ (
        ((v ≡ 0) ⊎ (v ≡ 1) ⊎ (v ≡ 27) ⊎ (v ≡ 28))
        × (0 < r)
        × (r < secp256k1_n)
        × (0 < s)
        × (s ≤ secp256k1_n / 2))
unfolding validate_signature_values
validate_signature_values_iff v r s = ground arith
