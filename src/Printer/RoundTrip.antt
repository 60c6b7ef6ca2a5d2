-- ===== src/Printer/RoundTrip.antt =====
-- The text of a FIRE BLOCK line is read back.
use evm_firehose_tracer_go.Prelude.{
  ℕ, ◌<◌, ◌≤◌, ◌≡◌, refl, ap, ap₂, ◌∙◌, true, List, [], ◌∷◌, ◌++◌, some, length, take, All, arith,
  append_assoc, length-append,
}
use evm_firehose_tracer_go.Prelude.Bytes.{Bytes, bytes_eq, IsByteString}
use evm_firehose_tracer_go.Hex.{encode_to_string}
use evm_firehose_tracer_go.Tracer.State.{BlockOutput}
use evm_firehose_tracer_go.Printer.Decimal.{
  append_uint, append_int, append_uint-read, append_int-read,
}
use evm_firehose_tracer_go.Printer.Line.{
  BlockCodec, BlockLineBuffers, previous_num, space, fire_block_prefix, block_line, render,
  write_block,
}
use evm_firehose_tracer_go.Printer.{flush_loop, max_write_attempts}
use evm_firehose_tracer_go.Printer.Flush.{sum, take_all, flush_loop_writes}
use evm_firehose_tracer_go.Printer.Words.{IsWord, join, split-join, chop-append, join-IsLine}
use evm_firehose_tracer_go.Printer.Reader.{
  BlockLine, fire, block, read_fields, read_words, read_line, IsCodec,
}
use evm_firehose_tracer_go.Printer.Payload.{
  hex_word, decode_string-encode_to_string, payload_of-marshal,
}

-- The words of the line.
abbrev line_words : Bytes → Bytes → Bytes → Bytes → Bytes → Bytes → Bytes → Bytes → List Bytes
line_words n i h pn ph l t p = fire ∷ block ∷ n ∷ i ∷ h ∷ pn ∷ ph ∷ l ∷ t ∷ p ∷ []

spaced :
    (n i h pn ph l t p : Bytes)
    → (space (
            space (
              space (space (space (space (space (fire_block_prefix ++ n) ++ i) ++ h) ++ pn) ++ ph)
              ++ l)
            ++ t)
          ++ p)
        ++ 10 ∷ []
      ≡ join (line_words n i h pn ph l t p) ++ 10 ∷ []
unfolding join
spaced n i h pn ph l t p = simp append_assoc

read_words-line_words :
    (codec : BlockCodec) (n i h pn ph l t p : Bytes)
    → read_words codec (line_words n i h pn ph l t p)
      ≡ read_fields codec (n ∷ i ∷ h ∷ pn ∷ ph ∷ l ∷ t ∷ p ∷ [])
unfolding read_words bytes_eq
read_words-line_words codec n i h pn ph l t p = refl

-- A line of the ten words is read field by field.
read_line-words :
    (codec : BlockCodec) (n i h pn ph l t p : Bytes)
    → All IsWord (n ∷ i ∷ h ∷ pn ∷ ph ∷ l ∷ t ∷ p ∷ [])
    → read_line codec (join (line_words n i h pn ph l t p) ++ 10 ∷ [])
      ≡ read_fields codec (n ∷ i ∷ h ∷ pn ∷ ph ∷ l ∷ t ∷ p ∷ [])
unfolding read_line
read_line-words codec n i h pn ph l t p words =
    let all : All IsWord (line_words n i h pn ph l t p) = (ground arith, (ground arith, words)) in
    rw
      (
        chop-append (join (line_words n i h pn ph l t p))
            (join-IsLine (line_words n i h pn ph l t p) all),
        split-join fire (block ∷ n ∷ i ∷ h ∷ pn ∷ ph ∷ l ∷ t ∷ p ∷ []) all,
      )
      (read_words-line_words codec n i h pn ph l t p)

-- What the line of a block says, when its payload is `message`.
abbrev pub announced : BlockCodec → BlockOutput → Bytes → BlockLine
announced codec out message = record {
  number = out.block.number;
  flash_block_index = out.printed_flash_block_index;
  hash = out.block.hash;
  previous_number = previous_num out.block.number;
  previous_hash = out.block.header.parent_hash;
  lib_num = out.lib_num;
  unix_nano = codec.unix_nano out.block;
  payload = message;
}

block_line-texts :
    (codec : BlockCodec) (out : BlockOutput) (message n i pn l t : Bytes)
    → let hash = encode_to_string out.block.hash in
      let parent = encode_to_string out.block.header.parent_hash in
      let s1 = fire_block_prefix ++ n in
      let s3 = space (space s1 ++ i) ++ hash in
      let s5 = space (space s3 ++ pn) ++ parent in
      let s6 = space s5 ++ l in
      append_uint fire_block_prefix out.block.number ≡ s1
      → append_uint (space s1) out.printed_flash_block_index ≡ space s1 ++ i
      → append_uint (space s3) (previous_num out.block.number) ≡ space s3 ++ pn
      → append_uint (space s5) out.lib_num ≡ s6
      → append_int (space s6) (codec.unix_nano out.block) ≡ space s6 ++ t
      → block_line codec out message
        ≡ join (line_words n i hash pn parent l t (codec.encode_base64 message)) ++ 10 ∷ []
unfolding block_line
block_line-texts codec out message n i pn l t e1 e2 e3 e4 e5 =
    rw (e1, e2, e3, e4, e5)
      (spaced n i (encode_to_string out.block.hash) pn
        (encode_to_string out.block.header.parent_hash) l t (codec.encode_base64 message))

newline-pos : (text : Bytes) → 0 < length (text ++ 10 ∷ [])
newline-pos text = omega (arith, length-append text (10 ∷ []))

block_line-pos :
    (codec : BlockCodec) (out : BlockOutput) (message : Bytes)
    → 0 < length (block_line codec out message)
unfolding block_line
block_line-pos codec out message = newline-pos _

module _ (codec : BlockCodec) (out : BlockOutput) (h : IsCodec codec) (message : Bytes)
    (hash_bytes : IsByteString out.block.hash)
    (parent_bytes : IsByteString out.block.header.parent_hash) where
  read_line-block_line :
      read_line codec (block_line codec out message) ≡ some (announced codec out message)
  unfolding read_fields
  read_line-block_line =
      let hash = encode_to_string out.block.hash in
      let parent = encode_to_string out.block.header.parent_hash in
      let (n, n_put, n_read, n_word) = append_uint-read fire_block_prefix out.block.number in
      let s1 = fire_block_prefix ++ n in
      let (i, i_put, i_read, i_word) = append_uint-read (space s1) out.printed_flash_block_index in
      let s3 = space (space s1 ++ i) ++ hash in
      let (pn, pn_put, pn_read, pn_word) =
        append_uint-read (space s3) (previous_num out.block.number) in
      let s5 = space (space s3 ++ pn) ++ parent in
      let (l, l_put, l_read, l_word) = append_uint-read (space s5) out.lib_num in
      let (t, t_put, t_read, t_word) =
        append_int-read (space (space s5 ++ l)) (codec.unix_nano out.block) in
      let p = codec.encode_base64 message in
      let words : All IsWord (n ∷ i ∷ hash ∷ pn ∷ parent ∷ l ∷ t ∷ p ∷ []) = (
        n_word,
        (
          i_word,
          (
            hex_word out.block.hash hash_bytes,
            (
              pn_word,
              (
                hex_word out.block.header.parent_hash parent_bytes,
                (l_word, (t_word, (h.alphabet message, tt))),
              ),
            ),
          ),
        ),
      ) in
      rw (block_line-texts codec out message n i pn l t n_put i_put pn_put l_put t_put) (
        read_line-words codec n i hash pn parent l t p words
        ∙ rw
            (
              n_read,
              i_read,
              pn_read,
              l_read,
              t_read,
              h.decodes message,
              decode_string-encode_to_string out.block.hash hash_bytes,
              decode_string-encode_to_string out.block.header.parent_hash parent_bytes,
            )
            refl)

  render-block_line :
      (b : BlockLineBuffers)
      → codec.marshal_vt out.block ≡ some message
      → (b' : BlockLineBuffers) × (render codec b out ≡ some (block_line codec out message, b'))
  unfolding render
  render-block_line b marshals =
      let (array, made) = payload_of-marshal codec b.payload message out.block h marshals in
      (record { payload = array; line = block_line codec out message }, rw made refl)

  -- A block that marshals to a message is written, if the writer takes as much as the line's length
  -- in ten attempts: the stream grows by one line, and whoever reads this line gets the
  -- block's number, its flash block index, its hash, the number and the hash of the block before
  -- it, the last irreversible block, the time and the message. This holds whatever the reused
  -- buffers held; the hashes have to be bytes, and the marshaller to fill a buffer of the size
  -- it announces. The encoding of the message has neither spaces nor newlines and can be decoded.
  pub write_block-read :
      (b : BlockLineBuffers) (accepts : List ℕ) (stream : Bytes)
      → codec.marshal_vt out.block ≡ some message
      → length (block_line codec out message) ≤ sum (take max_write_attempts accepts)
      → (line : Bytes) × (b' : BlockLineBuffers) × (write_block codec b out accepts stream
          ≡ some (stream ++ line, true, b'))
        × (read_line codec line ≡ some (announced codec out message))
  unfolding write_block
  write_block-read b accepts stream marshals room =
      let line = block_line codec out message in
      let (b', rendered) = render-block_line b marshals in
      let (wrote, success) =
        flush_loop_writes max_write_attempts accepts line stream
          (block_line-pos codec out message) in
      let all = take_all (sum (take max_write_attempts accepts)) line room in
      let written : flush_loop max_write_attempts accepts line stream ≡ (stream ++ line, true) =
        ap₂ (λ bytes whole. (bytes, whole)) (wrote ∙ ap (λ q. stream ++ q) all) (success.1 room) in
      (line, b', rw (rendered, written) refl, read_line-block_line)
