-- ===== src/Hex/RoundTrip.antt =====
-- Parsing what the Hex methods print.
use native.Mathlib.Nat.{sub_self}
use evm_firehose_tracer_go.Prelude.{ℕ, ◌*◌, ◌/◌, ◌%◌, ◌<◌, ◌≡◌, refl, ap₂, [], ◌∷◌, length, arith}
use evm_firehose_tracer_go.Prelude.Bytes.{Bytes, IsByteString}
use evm_firehose_tracer_go.Hex.{
  hex_digit, encode_to_string, hex, hex_char_to_byte, hex_to_byte, strip_prefix, pad_zeros,
  read_bytes, hash_from_hex, address_from_hex,
}

hex_char_to_byte-hex_digit : (n : ℕ) → n < 16 → hex_char_to_byte (hex_digit n) ≡ n
unfolding hex_char_to_byte hex_digit
hex_char_to_byte-hex_digit n h = ground arith

hex_to_byte-hex_digit :
    (b : ℕ) → b < 256 → hex_to_byte (hex_digit (b / 16)) (hex_digit (b % 16)) ≡ b
unfolding hex_to_byte
hex_to_byte-hex_digit b h = omega (
  arith,
  hex_char_to_byte-hex_digit (b / 16) (omega arith),
  hex_char_to_byte-hex_digit (b % 16) (omega arith),
)

pub read_bytes-encode_to_string :
    (bs : Bytes) → IsByteString bs → read_bytes (length bs) (encode_to_string bs) ≡ bs
unfolding read_bytes encode_to_string
read_bytes-encode_to_string [] h = refl
read_bytes-encode_to_string (b ∷ bs) h =
    ap₂ ◌∷◌ (hex_to_byte-hex_digit b h.0) (read_bytes-encode_to_string bs h.1)

pub length-encode_to_string : (bs : Bytes) → length (encode_to_string bs) ≡ 2 * length bs
unfolding encode_to_string
length-encode_to_string [] = omega arith
length-encode_to_string (b ∷ bs) = omega (arith, length-encode_to_string bs)

read-pad-strip-hex :
    (n : ℕ) (bs : Bytes)
    → length bs ≡ n
    → IsByteString bs
    → read_bytes n (pad_zeros (2 * n) (strip_prefix (hex bs))) ≡ bs
unfolding hex strip_prefix pad_zeros
read-pad-strip-hex n bs e h =
    rw (← e, length-encode_to_string bs, sub_self) (read_bytes-encode_to_string bs h)

-- Parsing the text of a 20-byte address gives the address back.
pub address_from_hex-hex :
    (a : Bytes) → length a ≡ 20 → IsByteString a → address_from_hex (hex a) ≡ a
unfolding address_from_hex
address_from_hex-hex a e h = read-pad-strip-hex 20 a e h

-- Parsing the text of a hash of 32 bytes gives the hash back.
pub hash_from_hex-hex : (a : Bytes) → length a ≡ 32 → IsByteString a → hash_from_hex (hex a) ≡ a
unfolding hash_from_hex
hash_from_hex-hex a e h = read-pad-strip-hex 32 a e h
