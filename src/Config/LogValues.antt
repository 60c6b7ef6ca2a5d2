-- ===== src/Config/LogValues.antt =====
-- config.go: the key-value pairs of the configuration for structured logging.
use evm_firehose_tracer_go.Prelude.{Bool, true, false, List, [], ◌∷◌}
use evm_firehose_tracer_go.Prelude.Bytes.{Bytes, codes}
use evm_firehose_tracer_go.Printer.Decimal.{append_uint}
use evm_firehose_tracer_go.Config.{Config}

-- `%t`
abbrev bool_text : Bool → Bytes
bool_text true = codes "true"
bool_text false = codes "false"

unfoldable pub log_key_values : Config → List Bytes
unfolding append_uint
log_key_values c =
    codes "config_ignore_genesis_block"
    ∷ bool_text c.ignore_genesis_block
    ∷ codes "config_enable_concurrent_flushing"
    ∷ bool_text c.enable_concurrent_flushing
    ∷ codes "config_concurrent_buffer_size"
    ∷ append_uint [] c.concurrent_buffer_size
    ∷ codes "config_drop_transactions_without_receipt"
    ∷ bool_text c.drop_transactions_without_receipt
    ∷ []
