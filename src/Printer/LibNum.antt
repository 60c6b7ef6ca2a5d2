-- ===== src/Printer/LibNum.antt =====
-- The last irreversible block that a FIRE BLOCK line states.
use Prim.Native.Nat.{min, max}
use evm_firehose_tracer_go.Prelude.{ℕ, ◌-◌, ◌≡◌, arith}
use evm_firehose_tracer_go.Finality.{FinalityStatus, is_empty, last_finalized_block}
use evm_firehose_tracer_go.Printer.{compute_lib_num}

-- The stated block is the last finalized block that was reported (0 if none was), brought between 200 blocks
-- before the block itself, or 0 where there are none, and the block itself.
pub compute_lib_num_clamps :
    (n : ℕ) (finality : FinalityStatus)
    → compute_lib_num n finality ≡ min n (max (n - 200) finality.last_finalized_block_number)
unfolding compute_lib_num is_empty last_finalized_block
compute_lib_num_clamps n finality = ground arith
