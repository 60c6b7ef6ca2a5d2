-- ===== src/SetCode.antt =====
-- setcode.go: recovery of the signer of an EIP-7702 authorization. Hashing, RLP and public key
-- recovery are the parameters of External. Signing is in the child Signing.
pub mod Validation
pub mod Signing
pub mod Recovery
use evm_firehose_tracer_go.Prelude.{
  ℕ, ◌+◌, ◌-◌, ◌/◌, ◌%◌, Bool, true, false, not, ◌&&◌, ◌||◌, List, [], ◌∷◌, ◌++◌, Option, none,
  some, length, replicate, drop, ltb, leb, ◌==◌, if◌then◌else◌,
}
use evm_firehose_tracer_go.Prelude.Bytes.{Bytes, from_bytes, to_bytes}
use evm_firehose_tracer_go.External.{External, fit}
use evm_firehose_tracer_go.Prelude.Options.{◌>>=◌}

-- The order of the curve.
abbrev pub secp256k1_n : ℕ
secp256k1_n = 0xfffffffffffffffffffffffffffffffebaaedce6af48a03bbfd25e8cd0364141

unfoldable pub validate_signature_values : ℕ → ℕ → ℕ → Bool
validate_signature_values v r s =
    if not (v == 0) && not (v == 1) && not (v == 27) && not (v == 28)
    then false
    else if leb r 0 || leb s 0
    then false
    else if leb secp256k1_n r || leb secp256k1_n s
    then false
    else if ltb (secp256k1_n / 2) s
    then false
    else true

-- `FillBytes` of a number that fits into `n` bytes.
unfoldable pub fill_bytes : ℕ → ℕ → Bytes
fill_bytes n x = replicate (n - length (to_bytes x)) 0 ++ to_bytes x

module _ (ext : External) where
  -- keccak256(0x05 || rlp([chainID, address, nonce])); `none` is the panic on an encoding error.
  unfoldable pub compute_set_code_sig_hash : Bytes → Bytes → ℕ → Option Bytes
  compute_set_code_sig_hash chain_id address nonce = do
    encoded ← ext.rlp_authorization (from_bytes chain_id) address nonce
    some (fit 32 (ext.keccak256 (0x05 ∷ encoded)))

  unfoldable pub recover_public_key : Bytes → ℕ → ℕ → ℕ → Option Bytes
  unfolding fill_bytes
  recover_public_key hash r s v =
      let rec_id = if leb 27 v then v - 27 else v in
      if not (rec_id == 0) && not (rec_id == 1) then none else do
        (x, y) ← ext.recover_compact ((rec_id + 27) ∷ fill_bytes 32 r ++ fill_bytes 32 s) hash
        some (fill_bytes 32 x ++ fill_bytes 32 y)

  -- `byte(v)` keeps the low eight bits of the uint32. `some none` is an error, `none` the panic.
  unfoldable pub default_set_code_auth_recovery :
      Bytes → Bytes → ℕ → ℕ → Bytes → Bytes → Option (Option Bytes)
  unfolding compute_set_code_sig_hash validate_signature_values recover_public_key
  default_set_code_auth_recovery chain_id address nonce v r s = do
    sighash ← compute_set_code_sig_hash chain_id address nonce
    if not (validate_signature_values (v % 256) (from_bytes r) (from_bytes s))
        then some none
        else some (do
          pub_key ← recover_public_key sighash (from_bytes r) (from_bytes s) (v % 256)
          some (fit 20 (drop 12 (ext.keccak256 pub_key))))
