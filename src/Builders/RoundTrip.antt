-- ===== src/Builders/RoundTrip.antt =====
-- A builder made from an event builds the event again.
use mathlib.Core.Path.{subst}
use native.Mathlib.Nat.{sub_self}
use evm_firehose_tracer_go.Prelude.{
  ℕ, ◌≡◌, refl, ◌*◌, [], ◌∷◌, none, some, Option, length, arith, Option-cases, inl, inr, All, List,
  map,
}
use evm_firehose_tracer_go.Prelude.Bytes.{Bytes, IsByteString}
use evm_firehose_tracer_go.Types.{TxEvent}
use evm_firehose_tracer_go.Hex.{
  encode_to_string, hex_digit, strip_prefix, pad_zeros, read_bytes, hash_from_hex, address_from_hex,
}
use evm_firehose_tracer_go.Hex.RoundTrip.{read_bytes-encode_to_string, length-encode_to_string}
use evm_firehose_tracer_go.Builders.{new_tx_event_builder_from, build_tx, empty_hash}

-- The text has no prefix, even where it starts with a zero: an `x` is no digit.
strip_prefix-encode_to_string :
    (bs : Bytes) → IsByteString bs → strip_prefix (encode_to_string bs) ≡ encode_to_string bs
unfolding strip_prefix encode_to_string hex_digit
strip_prefix-encode_to_string [] h = refl
strip_prefix-encode_to_string (b ∷ bs) (small, h) = ground arith

-- Reading the text of n bytes gives the n bytes.
read-unprefixed :
    (n : ℕ) (bs : Bytes)
    → length bs ≡ n
    → IsByteString bs
    → read_bytes n (pad_zeros (2 * n) (strip_prefix (encode_to_string bs))) ≡ bs
unfolding pad_zeros
read-unprefixed n bs e h =
    rw (strip_prefix-encode_to_string bs h, ← e, length-encode_to_string bs, sub_self)
      (read_bytes-encode_to_string bs h)

hash_from_hex-encode_to_string :
    (a : Bytes) → length a ≡ 32 → IsByteString a → hash_from_hex (encode_to_string a) ≡ a
unfolding hash_from_hex
hash_from_hex-encode_to_string a e h = read-unprefixed 32 a e h

address_from_hex-encode_to_string :
    (a : Bytes) → length a ≡ 20 → IsByteString a → address_from_hex (encode_to_string a) ≡ a
unfolding address_from_hex
address_from_hex-encode_to_string a e h = read-unprefixed 20 a e h

abbrev pub as_list {ℓ} : {A : Type ℓ} → Option A → List A
as_list none = []
as_list (some a) = a ∷ []

-- What a builder keeps of an event: no input, index, signature, access list, blobs or
-- authorizations.
abbrev pub kept : TxEvent → TxEvent
kept event = record event {
  input = [];
  index = 0;
  v = [];
  r = empty_hash;
  s = empty_hash;
  access_list = [];
  blob_gas_fee_cap = none;
  blob_hashes = [];
  set_code_authorizations = [];
}

-- A builder that is made from an event builds an event with its type, hash, addresses, value, gas,
-- prices, fees and nonce, and with nothing else of it, if the hash is 32 bytes and the addresses
-- are 20. From an event without a recipient, the creation of a contract, none is made.
pub build_tx-new_tx_event_builder_from :
    (event : TxEvent)
    → length event.hash ≡ 32
    → IsByteString event.hash
    → length event.from ≡ 20
    → IsByteString event.from
    → All (λ a. (length a ≡ 20) × IsByteString a) (as_list event.to)
    → map build_tx (as_list (new_tx_event_builder_from event))
      ≡ map (λ to. record (kept event) { to = some to }) (as_list event.to)
unfolding new_tx_event_builder_from build_tx
build_tx-new_tx_event_builder_from event hash_len hash_bytes from_len from_bytes to_ok =
    elim (Option-cases event.to) [
      | inl absent ↦ rw absent refl
      | inr (to, present) ↦
          let to_20 : (length to ≡ 20) × IsByteString to =
            (subst (λ o. All (λ a. (length a ≡ 20) × IsByteString a) (as_list o)) present
              to_ok).0 in
          rw
            (
              present,
              hash_from_hex-encode_to_string event.hash hash_len hash_bytes,
              address_from_hex-encode_to_string event.from from_len from_bytes,
              address_from_hex-encode_to_string to to_20.0 to_20.1,
            )
            refl
    ]
