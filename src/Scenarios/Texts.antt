-- ===== src/Scenarios/Texts.antt =====
-- The properties of texts and signatures, at concrete values.
use evm_firehose_tracer_go.Prelude.{
  ℕ, ◌+◌, ◌-◌, ◌<◌, ◌≡◌, refl, ap, ap₂, ◌≤◌, length, take, [], ◌∷◌, ◌++◌, some, true, map, arith,
  inl, replicate,
}
use evm_firehose_tracer_go.Prelude.Int.{negsuc}
use evm_firehose_tracer_go.Prelude.Bytes.{
  Bytes, IsByteString, bytes_eq, from_bytes, to_bytes, to_bytes_fuel,
}
use evm_firehose_tracer_go.Types.{SetCodeAuthorization}
use evm_firehose_tracer_go.External.{External}
use evm_firehose_tracer_go.Tracer.State.{BlockOutput}
use evm_firehose_tracer_go.Tracer.Blocks.{new_block}
use evm_firehose_tracer_go.Tracer.Headers.{new_block_header_from_block_data}
use evm_firehose_tracer_go.Hex.{encode_to_string, hex_digit}
use evm_firehose_tracer_go.Printer.{max_write_attempts}
use evm_firehose_tracer_go.Printer.Flush.{sum}
use evm_firehose_tracer_go.Printer.Decimal.{append_uint, append_int, digits_fuel}
use evm_firehose_tracer_go.Printer.Line.{
  BlockCodec, BlockLineBuffers, write_block, block_line, previous_num,
}
use evm_firehose_tracer_go.Printer.Words.{IsWord}
use evm_firehose_tracer_go.Printer.Reader.{IsCodec, read_line}
use evm_firehose_tracer_go.Printer.RoundTrip.{announced, write_block-read}
use evm_firehose_tracer_go.SetCode.{
  secp256k1_n, fill_bytes, compute_set_code_sig_hash, recover_public_key,
  default_set_code_auth_recovery,
}
use evm_firehose_tracer_go.SetCode.Signing.{
  SigningKey, low_s, expected_pub_key, recovers, sign_set_code_auth_with_ecdsa,
}
use evm_firehose_tracer_go.SetCode.Recovery.{authority_of, sign-recover}
use evm_firehose_tracer_go.Builders.{new_tx_event_builder_from, build_tx}
use evm_firehose_tracer_go.Builders.RoundTrip.{as_list, kept, build_tx-new_tx_event_builder_from}
use evm_firehose_tracer_go.Debug.{op_code_view}
use evm_firehose_tracer_go.Debug.OpCodes.{read_op_code, read_op_code-op_code_view}
use evm_firehose_tracer_go.Scenarios.{external, block_event, tx, word, addr_b}

-- A message is the number of the block, and each byte of a payload is one printed character.
abbrev codec : BlockCodec
codec = record {
  size_vt = λ b. 1;
  marshal_vt = λ b. some (b.number ∷ []);
  unix_nano = λ b. negsuc 4;
  encode_base64 = map (λ c. c + 33);
  decode_base64 = λ text. some (map (λ c. c - 33) text);
}

printed : (payload : Bytes) → IsWord (codec.encode_base64 payload)
printed [] = tt
printed (c ∷ payload) = (omega arith, printed payload)

decoded : (payload : Bytes) → map (λ c. c - 33) (map (λ c. c + 33) payload) ≡ payload
decoded [] = refl
decoded (c ∷ payload) = ap₂ ◌∷◌ (omega arith) (decoded payload)

codec-IsCodec : IsCodec codec
codec-IsCodec = record {
  sized = λ b message e. ground arith;
  alphabet = printed;
  decodes = λ payload. ap some (decoded payload);
}

abbrev out : BlockOutput
out = record { block = new_block block_event.block; lib_num = 0; printed_flash_block_index = 1002 }

abbrev buffers : BlockLineBuffers
buffers = record { payload = 9 ∷ 9 ∷ 9 ∷ []; line = [] }

word-IsByteString : (n : ℕ) → n < 256 → IsByteString (word n)
word-IsByteString n h = ground arith

line_fits : length (block_line codec out (7 ∷ [])) ≤ sum (take max_write_attempts (100 ∷ 200 ∷ []))
unfolding block_line append_uint append_int digits_fuel previous_num encode_to_string hex_digit
    new_block new_block_header_from_block_data
line_fits = omega arith

write_block-read_example :
    (line : Bytes) × (b' : BlockLineBuffers) × (write_block codec buffers out
        (100 ∷ 200 ∷ [])
        (1 ∷ [])
      ≡ some ((1 ∷ []) ++ line, true, b'))
    × (read_line codec line ≡ some (announced codec out (7 ∷ [])))
unfolding new_block new_block_header_from_block_data
write_block-read_example =
    write_block-read codec out codec-IsCodec (7 ∷ []) (word-IsByteString 1 (omega arith))
      (word-IsByteString 2 (omega arith)) buffers (100 ∷ 200 ∷ []) (1 ∷ []) refl line_fits

abbrev signer : External
signer = record external { recover_compact = λ signature hash. some (5, 6) }

-- The s that it draws is in the upper half.
abbrev key : SigningKey
key = record { x = 5; y = 6; sign = λ hash. some (11, secp256k1_n - 3) }

key_recovers : recovers signer key (word 7) 11 (low_s (secp256k1_n - 3)) 0 ≡ true
unfolding recovers recover_public_key expected_pub_key fill_bytes to_bytes to_bytes_fuel low_s
    bytes_eq
key_recovers = refl

sig_hash : compute_set_code_sig_hash signer (fill_bytes 32 1) addr_b 4 ≡ some (word 7)
unfolding compute_set_code_sig_hash
sig_hash = refl

sign-recover_example :
    (auth : SetCodeAuthorization) × (sign_set_code_auth_with_ecdsa signer key 1 addr_b 4
      ≡ some (some auth))
    × (from_bytes auth.chain_id ≡ 1)
    × (auth.address ≡ addr_b)
    × (auth.nonce ≡ 4)
    × (default_set_code_auth_recovery signer auth.chain_id auth.address auth.nonce auth.v auth.r
          auth.s
        ≡ some (some (authority_of signer key)))
sign-recover_example =
    sign-recover signer key 1 addr_b 4 (word 7) 11 (secp256k1_n - 3) sig_hash refl (omega arith)
      (omega arith) (omega arith) (omega arith) (inl key_recovers)

addr-IsByteString : (n : ℕ) → n < 256 → IsByteString (replicate 20 n)
addr-IsByteString n h = ground arith

build_tx-new_tx_event_builder_from_example :
    map build_tx (as_list (new_tx_event_builder_from tx))
    ≡ record (kept tx) { to = some addr_b } ∷ []
build_tx-new_tx_event_builder_from_example =
    build_tx-new_tx_event_builder_from tx refl (word-IsByteString 9 (omega arith)) refl
      (addr-IsByteString 1 (omega arith)) ((refl, addr-IsByteString 2 (omega arith)), tt)

abbrev sha3 : ℕ
sha3 = 0x20

read_op_code-op_code_view_example : read_op_code (op_code_view sha3) ≡ some sha3
read_op_code-op_code_view_example = read_op_code-op_code_view sha3 (omega arith)
