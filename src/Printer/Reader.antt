-- ===== src/Printer/Reader.antt =====
-- What a reader of the stream gets from a FIRE BLOCK line.
use evm_firehose_tracer_go.Prelude.{
  ℕ, ◌/◌, ◌≡◌, ◌&&◌, List, [], ◌∷◌, Option, none, some, length, if◌then◌else◌,
}
use evm_firehose_tracer_go.Prelude.Options.{◌>>=◌}
use evm_firehose_tracer_go.Prelude.Int.{ℤ}
use evm_firehose_tracer_go.Prelude.Bytes.{Bytes, bytes_eq}
use evm_firehose_tracer_go.Pb.{Block}
use evm_firehose_tracer_go.Hex.{read_bytes}
use evm_firehose_tracer_go.Printer.Decimal.{parse_uint, parse_int}
use evm_firehose_tracer_go.Printer.Line.{BlockCodec}
use evm_firehose_tracer_go.Printer.Words.{IsWord, split, chop}

pub record BlockLine : Type 0 where
  pub number : ℕ
  pub flash_block_index : ℕ
  pub hash : Bytes
  pub previous_number : ℕ
  pub previous_hash : Bytes
  pub lib_num : ℕ
  pub unix_nano : ℤ
  pub payload : Bytes

abbrev pub fire : Bytes
fire = b'F' ∷ b'I' ∷ b'R' ∷ b'E' ∷ []

abbrev pub block : Bytes
block = b'B' ∷ b'L' ∷ b'O' ∷ b'C' ∷ b'K' ∷ []

unfoldable pub decode_string : Bytes → Bytes
decode_string text = read_bytes (length text / 2) text

-- The eight fields behind the two words that announce a block.
unfoldable pub read_fields : BlockCodec → List Bytes → Option BlockLine
unfolding decode_string
read_fields codec (n ∷ i ∷ h ∷ pn ∷ ph ∷ l ∷ t ∷ p ∷ []) = do
  number ← parse_uint n
  flash ← parse_uint i
  previous ← parse_uint pn
  lib ← parse_uint l
  nanos ← parse_int t
  payload ← codec.decode_base64 p
  some (record {
    number = number;
    flash_block_index = flash;
    hash = decode_string h;
    previous_number = previous;
    previous_hash = decode_string ph;
    lib_num = lib;
    unix_nano = nanos;
    payload = payload;
  })
read_fields codec _ = none

unfoldable pub read_words : BlockCodec → List Bytes → Option BlockLine
unfolding read_fields
read_words codec [] = none
read_words codec (a ∷ []) = none
read_words codec (a ∷ b ∷ rest) =
    if bytes_eq a fire && bytes_eq b block then read_fields codec rest else none

unfoldable pub read_line : BlockCodec → Bytes → Option BlockLine
unfolding read_words
read_line codec line = do text ← chop line; read_words codec (split text)

-- The documented behaviour of the marshaller and of base64.
pub record IsCodec (codec : BlockCodec) : Type 0 where
  pub sized :
      (b : Block) (message : Bytes)
      → codec.marshal_vt b ≡ some message
      → length message ≡ codec.size_vt b
  pub alphabet : (payload : Bytes) → IsWord (codec.encode_base64 payload)
  pub decodes : (payload : Bytes) → codec.decode_base64 (codec.encode_base64 payload) ≡ some payload
