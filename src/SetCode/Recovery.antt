-- ===== src/SetCode/Recovery.antt =====
-- A signed authorization recovers to the address of its signer.
use mathlib.Core.Path.{subst}
use evm_firehose_tracer_go.Prelude.{
  ℕ, zero, suc, ◌-◌, ◌/◌, ◌%◌, ◌≤◌, ◌<◌, ◌≡◌, ◌⊎◌, refl, sym, ◌∙◌, true, ◌++◌, some, length,
  replicate, drop, arith, inl, inr, Bool-cases, Option-cases,
}
use evm_firehose_tracer_go.Prelude.Bytes.{
  Bytes, bytes_eq_iff, from_bytes, from_bytes_acc, to_bytes, from_bytes-to_bytes,
}
use evm_firehose_tracer_go.External.{External, fit}
use evm_firehose_tracer_go.Types.{SetCodeAuthorization}
use evm_firehose_tracer_go.SetCode.{
  secp256k1_n, fill_bytes, compute_set_code_sig_hash, recover_public_key, validate_signature_values,
  default_set_code_auth_recovery,
}
use evm_firehose_tracer_go.SetCode.Validation.{validate_signature_values_iff}
use evm_firehose_tracer_go.SetCode.Signing.{
  SigningKey, low_s, sign_ecdsa, expected_pub_key, recovers, find_recovery_id,
  sign_set_code_auth_with_ecdsa,
}

from_bytes_acc-zeros :
    (k : ℕ) (bs : Bytes) → from_bytes_acc 0 (replicate k 0 ++ bs) ≡ from_bytes_acc 0 bs
unfolding from_bytes_acc
from_bytes_acc-zeros zero bs = refl
from_bytes_acc-zeros (suc k) bs = from_bytes_acc-zeros k bs

-- Padding to a fixed size does not change the number.
from_bytes-fill_bytes : (n x : ℕ) → from_bytes (fill_bytes n x) ≡ x
unfolding from_bytes fill_bytes
from_bytes-fill_bytes n x =
    from_bytes_acc-zeros (n - length (to_bytes x)) (to_bytes x) ∙ from_bytes-to_bytes x

-- The lower one is half the order at most.
low_s_bounds : (s : ℕ) → 0 < s → s < secp256k1_n → (0 < low_s s) × (low_s s ≤ secp256k1_n / 2)
unfolding low_s
low_s_bounds s positive small = ground arith

module _ (ext : External) (key : SigningKey) where
  -- The address of the key.
  abbrev pub authority_of : Bytes
  authority_of = fit 20 (drop 12 (ext.keccak256 (expected_pub_key key)))

  recovers-key :
      (hash : Bytes) (r s v : ℕ)
      → recovers ext key hash r s v ≡ true
      → recover_public_key ext hash r s v ≡ some (expected_pub_key key)
  unfolding recovers
  recovers-key hash r s v e = elim (Option-cases (recover_public_key ext hash r s v)) [
    | inl failed ↦ absurd (ground arith)
    | inr (found, recovered) ↦ ground (arith, bytes_eq_iff found (expected_pub_key key))
  ]

  -- The ID that is found is 0 or 1 and recovers the key.
  find_recovery_id-recovers :
      (hash : Bytes) (r s v : ℕ)
      → find_recovery_id ext key hash r s ≡ some v
      → ((v ≡ 0) ⊎ (v ≡ 1)) × (recovers ext key hash r s v ≡ true)
  unfolding find_recovery_id
  find_recovery_id-recovers hash r s v e = elim (Bool-cases (recovers ext key hash r s 0)) [
    | inl first ↦
        let is_zero : 0 ≡ v = ground arith in
        (inl (sym is_zero), subst (λ i. recovers ext key hash r s i ≡ true) is_zero first)
    | inr other ↦ elim (Bool-cases (recovers ext key hash r s 1)) [
      | inl second ↦
          let is_one : 1 ≡ v = ground arith in
          (inr (sym is_one), subst (λ i. recovers ext key hash r s i ≡ true) is_one second)
      | inr neither ↦ absurd (ground arith)
    ]
  ]

  -- It finds one, if 0 or 1 recovers the key.
  find_recovery_id-some :
      (hash : Bytes) (r s : ℕ)
      → (recovers ext key hash r s 0 ≡ true) ⊎ (recovers ext key hash r s 1 ≡ true)
      → (v : ℕ) × (find_recovery_id ext key hash r s ≡ some v)
  unfolding find_recovery_id
  find_recovery_id-some hash r s either = elim (Bool-cases (recovers ext key hash r s 0)) [
    | inl first ↦ (0, ground arith)
    | inr other ↦ (1, ground arith)
  ]

  accepts :
      (v r s : ℕ)
      → (v ≡ 0) ⊎ (v ≡ 1)
      → 0 < r
      → r < secp256k1_n
      → 0 < s
      → s ≤ secp256k1_n / 2
      → validate_signature_values (v % 256) r s ≡ true
  accepts v r s id r_pos r_lt s_pos s_le =
      ground (arith, validate_signature_values_iff (v % 256) r s)

  -- Recovery of what was signed.
  recovery-signed :
      (hash : Bytes) (chain_id : ℕ) (address : Bytes) (nonce r s v : ℕ)
      → compute_set_code_sig_hash ext (fill_bytes 32 chain_id) address nonce ≡ some hash
      → 0 < r
      → r < secp256k1_n
      → 0 < s
      → s ≤ secp256k1_n / 2
      → find_recovery_id ext key hash r s ≡ some v
      → default_set_code_auth_recovery ext
          (fill_bytes 32 chain_id)
          address
          nonce
          v
          (fill_bytes 32 r)
          (fill_bytes 32 s)
        ≡ some (some authority_of)
  unfolding default_set_code_auth_recovery
  recovery-signed hash chain_id address nonce r s v hashed r_pos r_lt s_pos s_le found =
      let (id, matches) = find_recovery_id-recovers hash r s v found in
      let small : v % 256 ≡ v = ground arith in
      let valid = accepts v r s id r_pos r_lt s_pos s_le in
      rw
        (
          hashed,
          from_bytes-fill_bytes 32 r,
          from_bytes-fill_bytes 32 s,
          valid,
          small,
          recovers-key hash r s v matches,
        )
        refl

  -- An authorization whose signature hash the key signs with r and s between 0 and the order of the
  -- curve, and whose key one of the IDs 0 and 1 recovers from r and the lower one of s and its
  -- negative, is signed: it names the chain, the contract and the nonce that were given, and the
  -- default recovery gives the address of the key for it.
  pub sign-recover :
      (chain_id : ℕ) (delegate_address : Bytes) (nonce : ℕ) (hash : Bytes) (r s : ℕ)
      → compute_set_code_sig_hash ext (fill_bytes 32 chain_id) delegate_address nonce ≡ some hash
      → key.sign hash ≡ some (r, s)
      → 0 < r
      → r < secp256k1_n
      → 0 < s
      → s < secp256k1_n
      → (recovers ext key hash r (low_s s) 0 ≡ true) ⊎ (recovers ext key hash r (low_s s) 1 ≡ true)
      → (auth : SetCodeAuthorization) × (sign_set_code_auth_with_ecdsa ext key chain_id
            delegate_address nonce
          ≡ some (some auth))
        × (from_bytes auth.chain_id ≡ chain_id)
        × (auth.address ≡ delegate_address)
        × (auth.nonce ≡ nonce)
        × (default_set_code_auth_recovery ext auth.chain_id auth.address auth.nonce auth.v auth.r
              auth.s
            ≡ some (some authority_of))
  unfolding sign_set_code_auth_with_ecdsa sign_ecdsa
  sign-recover chain_id delegate_address nonce hash r s hashed signed r_pos r_lt s_pos s_lt either =
      let (v, found) = find_recovery_id-some hash r (low_s s) either in
      let (low_pos, low_le) = low_s_bounds s s_pos s_lt in
      (
        record {
          chain_id = fill_bytes 32 chain_id;
          address = delegate_address;
          nonce = nonce;
          v = v;
          r = fill_bytes 32 r;
          s = fill_bytes 32 (low_s s);
        },
        rw (hashed, signed, found) refl,
        from_bytes-fill_bytes 32 chain_id,
        refl,
        refl,
        recovery-signed hash chain_id delegate_address nonce r (low_s s) v hashed r_pos r_lt low_pos
            low_le found,
      )
