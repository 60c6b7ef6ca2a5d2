-- ===== src/Finality.antt =====
-- finality.go: the last finalized block number, 0 standing for "none seen".
use evm_firehose_tracer_go.Prelude.{ℕ, Bool, leb, ◌==◌, if◌then◌else◌}
use evm_firehose_tracer_go.Pb.{Block}

pub record FinalityStatus : Type 0 where
  pub last_finalized_block_number : ℕ

unfoldable pub reset : FinalityStatus
reset = record { last_finalized_block_number = 0 }

unfoldable pub populate_block_status : FinalityStatus → Block → Block
populate_block_status fs block =
    if leb block.number fs.last_finalized_block_number
    then record block { detail_level = 1 }
    else record block { detail_level = 2 }

unfoldable pub set_last_finalized_block : ℕ → FinalityStatus
set_last_finalized_block n = record { last_finalized_block_number = n }

unfoldable pub last_finalized_block : FinalityStatus → ℕ
last_finalized_block fs = fs.last_finalized_block_number

unfoldable pub is_empty : FinalityStatus → Bool
is_empty fs = fs.last_finalized_block_number == 0
