-- ===== src/Printer/Line.antt =====
-- tracer_printer.go: the text of the lines. Protobuf marshalling, the time of a block and base64
-- belong to other modules and are fields of `BlockCodec`.
use evm_firehose_tracer_go.Prelude.{
  ℕ, ◌-◌, Bool, List, [], ◌∷◌, ◌++◌, Option, some, leb, ltb, length, take, drop, replicate,
  if◌then◌else◌,
}
use evm_firehose_tracer_go.Prelude.Options.{◌>>=◌}
use evm_firehose_tracer_go.Prelude.Int.{ℤ}
use evm_firehose_tracer_go.Prelude.Bytes.{Bytes}
use evm_firehose_tracer_go.Pb.{Block}
use evm_firehose_tracer_go.Hex.{encode_to_string}
use evm_firehose_tracer_go.Tracer.State.{BlockOutput}
use evm_firehose_tracer_go.Printer.{flush_loop, max_write_attempts}
use evm_firehose_tracer_go.Printer.Decimal.{append_uint, append_int}
use evm_firehose_tracer_go.Printer.Words.{join}

-- SizeVT and the bytes that MarshalToSizedBufferVT writes (`none` is an error), MustTime().UnixNano(),
-- and the standard base64 encoding and decoding.
pub record BlockCodec : Type 0 where
  pub size_vt : Block → ℕ
  pub marshal_vt : Block → Option Bytes
  pub unix_nano : Block → ℤ
  pub encode_base64 : Bytes → Bytes
  pub decode_base64 : Bytes → Option Bytes

-- The arrays behind the two slices: what the payload's holds, of its whole capacity, and the line.
pub record BlockLineBuffers : Type 0 where
  pub payload : Bytes
  pub line : Bytes

-- `slices.Grow(b[:0], n)`: an array that is too small is left for a new one. (The runtime may
-- make it larger than asked for.)
unfoldable pub grow : ℕ → Bytes → Bytes
grow n array = if leb n (length array) then array else replicate n 0

-- MarshalToSizedBufferVT fills the buffer from its end.
unfoldable pub write_at_end : Bytes → Bytes → Bytes
write_at_end message buffer = take (length buffer - length message) buffer ++ message

-- The payload, and the array that holds it.
unfoldable pub payload_of : BlockCodec → Bytes → Block → Option (Bytes × Bytes)
unfolding grow write_at_end
payload_of codec array block = do
  let size = codec.size_vt block
  let grown = grow size array
  message ← codec.marshal_vt block
  let buffer = write_at_end message (take size grown)
  some (drop (length buffer - length message) buffer, buffer ++ drop size grown)

unfoldable pub previous_num : ℕ → ℕ
previous_num number = if ltb 0 number then number - 1 else 0

abbrev pub space : Bytes → Bytes
space line = line ++ b' ' ∷ []

-- "FIRE BLOCK "
abbrev pub fire_block_prefix : Bytes
fire_block_prefix = b'F' ∷ b'I' ∷ b'R' ∷ b'E' ∷ b' ' ∷ b'B' ∷ b'L' ∷ b'O' ∷ b'C' ∷ b'K' ∷ b' ' ∷ []

-- The line of a block, from its payload.
unfoldable pub block_line : BlockCodec → BlockOutput → Bytes → Bytes
block_line codec out payload =
    let numbered = append_uint fire_block_prefix out.block.number in
    let indexed = append_uint (space numbered) out.printed_flash_block_index in
    let hashed = space indexed ++ encode_to_string out.block.hash in
    let previous = append_uint (space hashed) (previous_num out.block.number) in
    let linked = space previous ++ encode_to_string out.block.header.parent_hash in
    let final = append_uint (space linked) out.lib_num in
    let timed = append_int (space final) (codec.unix_nano out.block) in
    (space timed ++ codec.encode_base64 payload) ++ 10 ∷ []

unfoldable pub render :
    BlockCodec → BlockLineBuffers → BlockOutput → Option (Bytes × BlockLineBuffers)
unfolding payload_of block_line
render codec b out = do
  (payload, array) ← payload_of codec b.payload out.block
  let line = block_line codec out payload
  some (line, record { payload = array; line = line })

-- What is written, whether it all was, and the buffers; `accepts` is what the writer takes at each
-- attempt. A block that does not marshal panics.
unfoldable pub write_block :
    BlockCodec
    → BlockLineBuffers
    → BlockOutput
    → List ℕ
    → Bytes
    → Option (Bytes × Bool × BlockLineBuffers)
unfolding render flush_loop
write_block codec b out accepts stream = do
  (line, b') ← render codec b out
  let (written, whole) = flush_loop max_write_attempts accepts line stream
  some (written, whole, b')

-- fmt.Sprintln of strings.
unfoldable pub sprintln : List Bytes → Bytes
unfolding join
sprintln args = join args ++ 10 ∷ []

unfoldable pub print_to_firehose : List Bytes → List ℕ → Bytes → Bytes × Bool
unfolding sprintln flush_loop
print_to_firehose args accepts stream = flush_loop max_write_attempts accepts (sprintln args) stream
