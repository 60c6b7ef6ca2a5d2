-- ===== src/Tracer/Lifecycle.antt =====
-- tracer.go: initialization, and the genesis block, whose allocation is traced as one call of a
-- synthetic transaction.
use evm_firehose_tracer_go.Prelude.{
  length, Bool, true, false, not, List, [], ◌∷◌, ◌++◌, Option, none, some, String, is_empty,
  replicate, ltb, if◌then◌else◌,
}
use evm_firehose_tracer_go.Prelude.Int.{ℤ, pos, is_zero_ℤ}
use evm_firehose_tracer_go.Prelude.Bytes.{Bytes, from_bytes}
use evm_firehose_tracer_go.Prelude.Sort.{sort_by}
use evm_firehose_tracer_go.Pb.{genesis_balance}
use evm_firehose_tracer_go.Types.{GenesisAccount, GenesisAlloc, TxEvent, ReceiptData}
use evm_firehose_tracer_go.Config.{Config, ChainConfig, SetCodeAuthRecovery}
use evm_firehose_tracer_go.External.{External, fit}
use evm_firehose_tracer_go.SetCode.{default_set_code_auth_recovery}
use evm_firehose_tracer_go.Tracer.State.{
  Tracer, Result, ok, ◌>>=◌, ◌>>◌, guard, fire_init, initialized_twice, write_failed,
  ensure_block_chain_init,
}
use evm_firehose_tracer_go.Tracer.Changes.{
  on_balance_change, on_nonce_change, on_code_change, on_storage_change,
}
use evm_firehose_tracer_go.Tracer.Calls.{on_call_enter, on_call_exit, call_type_call}
use evm_firehose_tracer_go.Tracer.Transactions.{on_tx_start}
use evm_firehose_tracer_go.Tracer.Completion.{on_tx_end}
use evm_firehose_tracer_go.Tracer.Blocks.{BlockEvent, on_block_start, on_block_end}

abbrev pub empty_hash : Bytes
empty_hash = replicate 32 0

abbrev pub zero_address : Bytes
zero_address = replicate 20 0

unfoldable pub sorted_genesis_addresses : GenesisAlloc → GenesisAlloc
unfolding sort_by from_bytes
sorted_genesis_addresses alloc = sort_by (λ entry. from_bytes entry.0) alloc

unfoldable pub sorted_storage_keys : List (Bytes × Bytes) → List (Bytes × Bytes)
unfolding sort_by from_bytes
sorted_storage_keys storage = sort_by (λ entry. from_bytes entry.0) storage

unfoldable pub genesis_storage : Bytes → List (Bytes × Bytes) → Tracer → Result Tracer
unfolding on_storage_change
genesis_storage addr [] t = ok t
genesis_storage addr ((key, value) ∷ entries) t = do
  u ← on_storage_change addr key empty_hash value t
  genesis_storage addr entries u

abbrev non_zero : Option ℤ → Bool
non_zero none = false
non_zero (some b) = not (is_zero_ℤ b)

abbrev genesis_event : TxEvent
genesis_event = record {
  trx_type = 0;
  hash = empty_hash;
  from = zero_address;
  to = some zero_address;
  input = [];
  value = none;
  gas = 0;
  gas_price = none;
  nonce = 0;
  index = 0;
  v = [];
  r = empty_hash;
  s = empty_hash;
  max_fee_per_gas = none;
  max_priority_fee_per_gas = none;
  access_list = [];
  blob_gas_fee_cap = none;
  blob_hashes = [];
  set_code_authorizations = [];
}

abbrev genesis_receipt : Bytes → ReceiptData
genesis_receipt root = record {
  transaction_index = 0;
  gas_used = 0;
  status = 1;
  logs = [];
  logs_bloom = replicate 256 0;
  cumulative_gas_used = 0;
  blob_gas_used = 0;
  blob_gas_price = none;
  state_root = root;
}

module _ (ext : External) where
  unfoldable pub hash_bytes : Bytes → Bytes
  hash_bytes payload = fit 32 (ext.keccak256 payload)

  unfoldable pub on_blockchain_init :
      String → String → ChainConfig → Option (Config → Config) → Tracer → Result Tracer
  on_blockchain_init node_name node_version chain_config config_func t = do
    guard (not t.init_sent) initialized_twice
    guard (t.output_writer (length t.written) none) write_failed
    let recovery : Option SetCodeAuthRecovery = elim chain_config.set_code_auth_recovery [
      | none ↦ some (default_set_code_auth_recovery ext)
      | some given ↦ some given
    ]
    ok (record t {
      init_sent = true;
      written = t.written ++ fire_init node_name node_version ∷ [];
      chain_config = some (record chain_config { set_code_auth_recovery = recovery });
      config = elim config_func [ none ↦ t.config | some f ↦ f t.config ];
    })

  unfoldable pub genesis_account : Bytes → GenesisAccount → Tracer → Result Tracer
  genesis_account addr account t = do
    u ←
        if non_zero account.balance
        then on_balance_change addr (some (pos 0)) account.balance genesis_balance t
        else ok t
    v ←
        if not (is_empty account.code)
        then on_code_change addr empty_hash (hash_bytes account.code) [] account.code u
        else ok u
    w ← if ltb 0 account.nonce then on_nonce_change addr 0 account.nonce v else ok v
    genesis_storage addr (sorted_storage_keys account.storage) w

  unfoldable pub genesis_accounts : GenesisAlloc → Tracer → Result Tracer
  genesis_accounts [] t = ok t
  genesis_accounts ((addr, account) ∷ accounts) t = do
    u ← genesis_account addr account t
    genesis_accounts accounts u

  unfoldable pub trace_genesis_block : BlockEvent → GenesisAlloc → Tracer → Result Tracer
  trace_genesis_block event alloc t = do
    started ← on_block_start event (record t { block_is_genesis = true })
    in_trx ← on_tx_start ext genesis_event none started
    in_call ← on_call_enter 0 call_type_call zero_address zero_address [] 0 none in_trx
    allocated ← genesis_accounts (sorted_genesis_addresses alloc) in_call
    exited ← on_call_exit [] 0 none false allocated
    ended ← on_tx_end (some (genesis_receipt event.block.root)) exited
    on_block_end none ended

  unfoldable pub on_genesis_block : BlockEvent → GenesisAlloc → Tracer → Result Tracer
  unfolding ensure_block_chain_init
  on_genesis_block event alloc t =
      if t.config.ignore_genesis_block
      then ok t
      else (ensure_block_chain_init t >> trace_genesis_block event alloc t)
