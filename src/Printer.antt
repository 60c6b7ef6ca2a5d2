-- ===== src/Printer.antt =====
-- tracer_printer.go: what the FIRE BLOCK line of a block says, and the write loop. Marshalling
-- and base64 belong to other modules and are parameters of the rendering.
pub mod LibNum
pub mod Flush
pub mod Decimal
pub mod Line
pub mod Words
pub mod Reader
pub mod Payload
pub mod RoundTrip
use evm_firehose_tracer_go.Prelude.{
  ℕ, zero, suc, ◌+◌, ◌-◌, Bool, true, false, ◌&&◌, List, [], ◌∷◌, ◌++◌, Option, none, some, leb,
  ltb, u64, length, take, drop, if◌then◌else◌,
}
use evm_firehose_tracer_go.Prelude.Bytes.{Bytes}
use evm_firehose_tracer_go.Pb.{Block}
use evm_firehose_tracer_go.Finality.{FinalityStatus, is_empty, last_finalized_block}

unfoldable pub compute_lib_num : ℕ → FinalityStatus → ℕ
unfolding is_empty last_finalized_block
compute_lib_num block_number finality =
    let known = last_finalized_block finality in
    let assumed =
      if is_empty finality then if leb 200 block_number then block_number - 200 else 0 else known in
    let raised =
      if leb 200 block_number && ltb assumed (block_number - 200)
      then block_number - 200
      else assumed in
    if ltb block_number raised then block_number else raised

unfoldable pub compute_printed_flash_block_index : Option ℕ → Bool → ℕ
compute_printed_flash_block_index none is_final = 0
compute_printed_flash_block_index (some idx) is_final = if is_final then u64 (idx + 1000) else idx

abbrev pub max_write_attempts : ℕ
max_write_attempts = 10

-- The writer takes some of the bytes at each attempt: `accepts` is how many, one entry for each
-- attempt. The result is what was written, and whether all of it was (a panic if not).
unfoldable pub flush_loop : ℕ → List ℕ → Bytes → Bytes → Bytes × Bool
flush_loop zero accepts payload written = (written, false)
flush_loop (suc attempts) [] payload written = (written, false)
flush_loop (suc attempts) (n ∷ accepts) payload written = elim (drop n payload) [
  | [] ↦ (written ++ payload, true)
  | b ∷ rest ↦ flush_loop attempts accepts (b ∷ rest) (written ++ take n payload)
]
