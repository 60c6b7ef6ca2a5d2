-- ===== src/SetCode/Signing.antt =====
-- setcode.go: signing an EIP-7702 authorization.
use evm_firehose_tracer_go.Prelude.{
  ℕ, ◌-◌, ◌/◌, Bool, false, ◌&&◌, ◌++◌, Option, none, some, length, ltb, ◌==◌, if◌then◌else◌,
}
use evm_firehose_tracer_go.Prelude.Options.{◌>>=◌}
use evm_firehose_tracer_go.Prelude.Bytes.{Bytes, bytes_eq}
use evm_firehose_tracer_go.External.{External}
use evm_firehose_tracer_go.Types.{SetCodeAuthorization}
use evm_firehose_tracer_go.SetCode.{
  secp256k1_n, fill_bytes, compute_set_code_sig_hash, recover_public_key,
}

-- A private key: its public point, and what ecdsa.Sign gives for a hash with the randomness that
-- it draws (`none` is an error).
pub record SigningKey : Type 0 where
  pub x : ℕ
  pub y : ℕ
  pub sign : Bytes → Option (ℕ × ℕ)

-- The lower one of s and its negative.
unfoldable pub low_s : ℕ → ℕ
low_s s = if ltb (secp256k1_n / 2) s then secp256k1_n - s else s

unfoldable pub sign_ecdsa : SigningKey → Bytes → Option (ℕ × ℕ)
sign_ecdsa key hash = do (r, s) ← key.sign hash; some (r, low_s s)

-- The 64 bytes of the public key.
unfoldable pub expected_pub_key : SigningKey → Bytes
expected_pub_key key = fill_bytes 32 key.x ++ fill_bytes 32 key.y

module _ (ext : External) where
  -- One round of the loop: the ID recovers the key.
  unfoldable pub recovers : SigningKey → Bytes → ℕ → ℕ → ℕ → Bool
  recovers key hash r s v = elim (recover_public_key ext hash r s v) [
    | none ↦ false
    | some recovered ↦ length recovered == 64 && bytes_eq recovered (expected_pub_key key)
  ]

  unfoldable pub find_recovery_id : SigningKey → Bytes → ℕ → ℕ → Option ℕ
  find_recovery_id key hash r s =
      if recovers key hash r s 0 then some 0 else if recovers key hash r s 1 then some 1 else none

  -- `some none` is an error, and `none` the panic on an encoding error.
  unfoldable pub sign_set_code_auth_with_ecdsa :
      SigningKey → ℕ → Bytes → ℕ → Option (Option SetCodeAuthorization)
  sign_set_code_auth_with_ecdsa key chain_id delegate_address nonce = do
    let chain_id_bytes = fill_bytes 32 chain_id
    sighash ← compute_set_code_sig_hash ext chain_id_bytes delegate_address nonce
    some (do
      (r, s) ← sign_ecdsa key sighash
      v ← find_recovery_id key sighash r s
      some (record {
        chain_id = chain_id_bytes;
        address = delegate_address;
        nonce = nonce;
        v = v;
        r = fill_bytes 32 r;
        s = fill_bytes 32 s;
      }))

  -- `priv_key_from_bytes` makes the signing key of a private key's bytes.
  unfoldable pub sign_set_code_auth :
      (Bytes → SigningKey) → Bytes → ℕ → Bytes → ℕ → Option (Option SetCodeAuthorization)
  sign_set_code_auth priv_key_from_bytes private_key chain_id delegate_address nonce =
      sign_set_code_auth_with_ecdsa (priv_key_from_bytes private_key) chain_id delegate_address
        nonce
