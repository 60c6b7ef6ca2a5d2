-- ===== src/Printer/Payload.antt =====
-- The payload is the marshalled message, whatever the reused buffer held, and hashes are words.
use evm_firehose_tracer_go.Prelude.{
  ℕ, zero, suc, ◌-◌, ◌/◌, ◌≤◌, ◌≡◌, refl, sym, ◌∙◌, [], ◌∷◌, ◌++◌, some, length, take, drop,
  replicate, arith,
}
use evm_firehose_tracer_go.Prelude.Bytes.{Bytes, IsByteString}
use evm_firehose_tracer_go.Pb.{Block}
use evm_firehose_tracer_go.Hex.{hex_digit, encode_to_string}
use evm_firehose_tracer_go.Hex.RoundTrip.{read_bytes-encode_to_string, length-encode_to_string}
use evm_firehose_tracer_go.Printer.Line.{BlockCodec, grow, write_at_end, payload_of}
use evm_firehose_tracer_go.Printer.Words.{IsWord}
use evm_firehose_tracer_go.Printer.Reader.{decode_string, IsCodec}

pub hex_word : (bs : Bytes) → IsByteString bs → IsWord (encode_to_string bs)
unfolding encode_to_string hex_digit
hex_word [] h = tt
hex_word (b ∷ bs) (small, h) = (ground arith, (ground arith, hex_word bs h))

pub decode_string-encode_to_string :
    (bs : Bytes) → IsByteString bs → decode_string (encode_to_string bs) ≡ bs
unfolding decode_string
decode_string-encode_to_string bs h =
    let half : length (encode_to_string bs) / 2 ≡ length bs =
      omega (arith, length-encode_to_string bs) in
    rw half (read_bytes-encode_to_string bs h)

length-take : (n : ℕ) (xs : Bytes) → n ≤ length xs → length (take n xs) ≡ n
length-take zero xs h = refl
length-take (suc n) [] h = absurd (omega arith)
length-take (suc n) (x ∷ xs) h = omega (arith, length-take n xs (omega arith))

length-replicate : (n : ℕ) → length (replicate {A = ℕ} n 0) ≡ n
length-replicate zero = refl
length-replicate (suc n) = omega (arith, length-replicate n)

length-grow : (n : ℕ) (array : Bytes) → n ≤ length (grow n array)
unfolding grow
length-grow n array = ground (arith, length-replicate n)

-- The buffer is as long as the message, which fills it.
write_at_end-fills :
    (message buffer : Bytes)
    → length buffer ≡ length message
    → write_at_end message buffer ≡ message
unfolding write_at_end
write_at_end-fills message buffer e =
    let room : length buffer - length message ≡ 0 = omega arith in rw room refl

pub payload_of-marshal :
    (codec : BlockCodec) (array message : Bytes) (b : Block)
    → IsCodec codec
    → codec.marshal_vt b ≡ some message
    → (array' : Bytes) × (payload_of codec array b ≡ some (message, array'))
unfolding payload_of
payload_of-marshal codec array message b h e =
    let size = codec.size_vt b in
    let filled =
      write_at_end-fills message (take size (grow size array))
        (length-take size (grow size array) (length-grow size array) ∙ sym (h.sized b message e)) in
    let whole : length message - length message ≡ 0 = omega arith in
    (message ++ drop size (grow size array), rw (e, filled, whole) refl)
