-- ===== src/Hex.antt =====
-- Hexadecimal text as byte strings of its characters: encoding/hex, the parsers of
-- types_builder.go and the Hex methods of types.go.
pub mod RoundTrip
use evm_firehose_tracer_go.Prelude.{
  ℕ, zero, suc, ◌+◌, ◌-◌, ◌*◌, ◌/◌, ◌%◌, Bool, true, false, ◌&&◌, List, [], ◌∷◌, ◌++◌, leb, ltb,
  ◌==◌, length, replicate, if◌then◌else◌,
}
use evm_firehose_tracer_go.Prelude.Bytes.{Bytes}

-- A digit of encoding/hex, in lower case.
unfoldable pub hex_digit : ℕ → ℕ
hex_digit n = if ltb n 10 then n + b'0' else n - 10 + b'a'

unfoldable pub encode_to_string : Bytes → Bytes
unfolding hex_digit
encode_to_string [] = []
encode_to_string (b ∷ bs) = hex_digit (b / 16) ∷ hex_digit (b % 16) ∷ encode_to_string bs

-- `Hex` of Address and of Hash.
unfoldable pub hex : Bytes → Bytes
unfolding encode_to_string
hex a = b'0' ∷ b'x' ∷ encode_to_string a

unfoldable pub hex_char_to_byte : ℕ → ℕ
hex_char_to_byte c =
    if leb b'0' c && leb c b'9'
    then c - b'0'
    else if leb b'a' c && leb c b'f'
    then c - b'a' + 10
    else if leb b'A' c && leb c b'F'
    then c - b'A' + 10
    else 0

-- The low half of the result is free, so `|` adds. The shift is on a byte, and wraps.
unfoldable pub hex_to_byte : ℕ → ℕ → ℕ
unfolding hex_char_to_byte
hex_to_byte c1 c2 = (hex_char_to_byte c1 * 16) % 256 + hex_char_to_byte c2

unfoldable pub strip_prefix : Bytes → Bytes
strip_prefix [] = []
strip_prefix (a ∷ []) = a ∷ []
strip_prefix (a ∷ b ∷ s) = if a == b'0' && b == b'x' then s else a ∷ b ∷ s

-- `for len(s) < n { s = "0" + s }`
unfoldable pub pad_zeros : ℕ → Bytes → Bytes
pad_zeros n s = replicate (n - length s) b'0' ++ s

-- The loop over the `n` bytes of the array; what is left of the text is not read.
unfoldable pub read_bytes : ℕ → Bytes → Bytes
unfolding hex_to_byte
read_bytes zero s = []
read_bytes (suc n) [] = []
read_bytes (suc n) (a ∷ []) = []
read_bytes (suc n) (a ∷ b ∷ s) = hex_to_byte a b ∷ read_bytes n s

unfoldable pub hash_from_hex : Bytes → Bytes
unfolding strip_prefix pad_zeros read_bytes
hash_from_hex s = read_bytes 32 (pad_zeros 64 (strip_prefix s))

unfoldable pub address_from_hex : Bytes → Bytes
unfolding strip_prefix pad_zeros read_bytes
address_from_hex s = read_bytes 20 (pad_zeros 40 (strip_prefix s))
