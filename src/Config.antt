-- ===== src/Config.antt =====
-- config.go: the chain configuration, the fork rules of a block and the tracer's options. A
-- function of the embedding client (a state reader, a hook, a recovery scheme) is a field.
pub mod Forks
pub mod LogValues
use evm_firehose_tracer_go.Prelude.{
  ℕ, ◌≤◌, Bool, true, false, ◌||◌, Option, none, some, ◌≡◌, arith, leb, not,
}
use evm_firehose_tracer_go.Prelude.Int.{ℤ, gtb_ℤ, pos_part, neg_part}
use evm_firehose_tracer_go.Prelude.Bytes.{Bytes}
use evm_firehose_tracer_go.Pb.{Log, Block}

pub record StateReader : Type 0 where
  pub get_code : Bytes → Bytes
  pub get_nonce : Bytes → ℕ
  pub exist : Bytes → Bool

-- chain ID, address, nonce, v, r, s; `some none` is an error and `none` a panic.
abbrev pub SetCodeAuthRecovery : Type 0
SetCodeAuthRecovery = Bytes → Bytes → ℕ → ℕ → Bytes → Bytes → Option (Option Bytes)

pub record ChainConfig : Type 0 where
  pub chain_id : Option ℤ
  pub shanghai_time : Option ℕ
  pub cancun_time : Option ℕ
  pub prague_time : Option ℕ
  pub verkle_time : Option ℕ
  pub shanghai_block : Option ℤ
  pub cancun_block : Option ℤ
  pub prague_block : Option ℤ
  pub set_code_auth_recovery : Option SetCodeAuthRecovery

unfoldable pub is_timestamp_forked : Option ℕ → ℕ → Bool
is_timestamp_forked none timestamp = false
is_timestamp_forked (some fork) timestamp = leb fork timestamp

unfoldable pub is_block_forked : Option ℤ → Option ℤ → Bool
is_block_forked (some fork) (some num) = not (gtb_ℤ fork num)
is_block_forked none num = false
is_block_forked (some fork) none = false

unfoldable pub is_shanghai : ChainConfig → Option ℤ → ℕ → Bool
unfolding is_timestamp_forked is_block_forked
is_shanghai c num timestamp =
    is_timestamp_forked c.shanghai_time timestamp || is_block_forked c.shanghai_block num

unfoldable pub is_cancun : ChainConfig → Option ℤ → ℕ → Bool
unfolding is_timestamp_forked is_block_forked
is_cancun c num timestamp =
    is_timestamp_forked c.cancun_time timestamp || is_block_forked c.cancun_block num

unfoldable pub is_prague : ChainConfig → Option ℤ → ℕ → Bool
unfolding is_timestamp_forked is_block_forked
is_prague c num timestamp =
    is_timestamp_forked c.prague_time timestamp || is_block_forked c.prague_block num

unfoldable pub is_verkle : ChainConfig → Option ℤ → ℕ → Bool
unfolding is_timestamp_forked
is_verkle c num timestamp = is_timestamp_forked c.verkle_time timestamp

pub record Rules : Type 0 where
  pub chain_id : Option ℤ
  pub is_merge : Bool
  pub is_shanghai : Bool
  pub is_cancun : Bool
  pub is_prague : Bool
  pub is_verkle : Bool

-- The zero value, which resetBlock stores.
abbrev pub zero_rules : Rules
zero_rules = record {
  chain_id = none;
  is_merge = false;
  is_shanghai = false;
  is_cancun = false;
  is_prague = false;
  is_verkle = false;
}

unfoldable pub rules : ChainConfig → Option ℤ → Bool → ℕ → Rules
unfolding is_shanghai is_cancun is_prague is_verkle
rules c num is_merge timestamp = record {
  chain_id = c.chain_id;
  is_merge = is_merge;
  is_shanghai = is_shanghai c num timestamp;
  is_cancun = is_cancun c num timestamp;
  is_prague = is_prague c num timestamp;
  is_verkle = is_verkle c num timestamp;
}

-- What the tracer learns of the stream it writes to: whether a line, sent after so many others, is
-- written whole. The line is the one on the initialization (`none`), or that of a block with its
-- last irreversible block and its flash index, which has to be marshalled first.
abbrev pub OutputWriter : Type 0
OutputWriter = ℕ → Option (Block × ℕ × ℕ) → Bool

-- ChainConfig is a field of the tracer.
pub record Config : Type 0 where
  pub ignore_genesis_block : Bool
  pub enable_concurrent_flushing : Bool
  pub concurrent_buffer_size : ℕ
  pub drop_transactions_without_receipt : Bool
  pub is_never_reverted_log : Option (Log → Bool)
  pub before_block_flush : Option (Block → Block)
  pub output_writer : OutputWriter
