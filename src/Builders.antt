-- ===== src/Builders.antt =====
-- types_builder.go: builders of block and transaction events. A builder is changed in place and
-- returned; here each setter gives the changed builder.
pub mod RoundTrip
use evm_firehose_tracer_go.Prelude.{
  ℕ, Bool, false, List, [], ◌∷◌, Option, none, some, replicate, ◌&&◌,
}
use evm_firehose_tracer_go.Prelude.Options.{◌>>=◌}
use evm_firehose_tracer_go.Prelude.Int.{ℤ, pos, is_zero_ℤ}
use evm_firehose_tracer_go.Prelude.Bytes.{Bytes}
use evm_firehose_tracer_go.Types.{BlockData, TxEvent, AccessTuple, SetCodeAuthorization}
use evm_firehose_tracer_go.Hex.{encode_to_string, hash_from_hex, address_from_hex}
use evm_firehose_tracer_go.Tracer.Blocks.{BlockEvent}

abbrev pub empty_hash : Bytes
empty_hash = replicate 32 0

abbrev pub empty_address : Bytes
empty_address = replicate 20 0

pub record BlockEventBuilder : Type 0 where
  pub number : ℕ
  pub hash : Bytes
  pub parent_hash : Bytes
  pub timestamp : ℕ
  pub coinbase : Bytes
  pub gas_limit : ℕ
  pub difficulty : Option ℤ
  pub size : ℕ
  pub bloom : Bytes

pub record TxEventBuilder : Type 0 where
  pub trx_type : ℕ
  pub hash : Bytes
  pub from : Bytes
  pub to : Bytes
  pub value : Option ℤ
  pub gas : ℕ
  pub gas_price : Option ℤ
  pub nonce : ℕ
  pub input : Bytes
  pub v : Bytes
  pub r : Bytes
  pub s : Bytes
  pub max_fee_per_gas : Option ℤ
  pub max_priority_fee_per_gas : Option ℤ
  pub access_list : List AccessTuple
  pub blob_gas_fee_cap : Option ℤ
  pub blob_hashes : List Bytes
  pub set_code_authorizations : List SetCodeAuthorization

-- The setters of BlockEventBuilder.
unfoldable pub set_block_number : ℕ → BlockEventBuilder → BlockEventBuilder
set_block_number x b = record b { number = x }

unfoldable pub set_block_hash : Bytes → BlockEventBuilder → BlockEventBuilder
set_block_hash x b = record b { hash = hash_from_hex x }

unfoldable pub set_parent_hash : Bytes → BlockEventBuilder → BlockEventBuilder
set_parent_hash x b = record b { parent_hash = hash_from_hex x }

unfoldable pub set_timestamp : ℕ → BlockEventBuilder → BlockEventBuilder
set_timestamp x b = record b { timestamp = x }

unfoldable pub set_coinbase : Bytes → BlockEventBuilder → BlockEventBuilder
set_coinbase x b = record b { coinbase = address_from_hex x }

unfoldable pub set_gas_limit : ℕ → BlockEventBuilder → BlockEventBuilder
set_gas_limit x b = record b { gas_limit = x }

unfoldable pub set_difficulty : Option ℤ → BlockEventBuilder → BlockEventBuilder
set_difficulty x b = record b { difficulty = x }

unfoldable pub set_size : ℕ → BlockEventBuilder → BlockEventBuilder
set_size x b = record b { size = x }

unfoldable pub set_bloom : Bytes → BlockEventBuilder → BlockEventBuilder
set_bloom x b = record b { bloom = x }

-- The setters of TxEventBuilder.
unfoldable pub set_type : ℕ → TxEventBuilder → TxEventBuilder
set_type x b = record b { trx_type = x }

unfoldable pub set_hash : Bytes → TxEventBuilder → TxEventBuilder
set_hash x b = record b { hash = hash_from_hex x }

unfoldable pub set_from : Bytes → TxEventBuilder → TxEventBuilder
set_from x b = record b { from = address_from_hex x }

unfoldable pub set_to : Bytes → TxEventBuilder → TxEventBuilder
set_to x b = record b { to = address_from_hex x }

unfoldable pub set_value : Option ℤ → TxEventBuilder → TxEventBuilder
set_value x b = record b { value = x }

unfoldable pub set_gas : ℕ → TxEventBuilder → TxEventBuilder
set_gas x b = record b { gas = x }

unfoldable pub set_gas_price : Option ℤ → TxEventBuilder → TxEventBuilder
set_gas_price x b = record b { gas_price = x }

unfoldable pub set_nonce : ℕ → TxEventBuilder → TxEventBuilder
set_nonce x b = record b { nonce = x }

unfoldable pub set_data : Bytes → TxEventBuilder → TxEventBuilder
set_data x b = record b { input = x }

unfoldable pub set_max_fee_per_gas : Option ℤ → TxEventBuilder → TxEventBuilder
set_max_fee_per_gas x b = record b { max_fee_per_gas = x }

unfoldable pub set_max_priority_fee_per_gas : Option ℤ → TxEventBuilder → TxEventBuilder
set_max_priority_fee_per_gas x b = record b { max_priority_fee_per_gas = x }

unfoldable pub set_access_list : List AccessTuple → TxEventBuilder → TxEventBuilder
set_access_list x b = record b { access_list = x }

unfoldable pub set_blob_gas_fee_cap : Option ℤ → TxEventBuilder → TxEventBuilder
set_blob_gas_fee_cap x b = record b { blob_gas_fee_cap = x }

unfoldable pub set_blob_hashes : List Bytes → TxEventBuilder → TxEventBuilder
set_blob_hashes x b = record b { blob_hashes = x }

unfoldable pub set_set_code_authorizations :
    List SetCodeAuthorization → TxEventBuilder → TxEventBuilder
set_set_code_authorizations x b = record b { set_code_authorizations = x }

unfoldable pub set_v : Bytes → TxEventBuilder → TxEventBuilder
set_v x b = record b { v = x }

unfoldable pub set_r : Bytes → TxEventBuilder → TxEventBuilder
set_r x b = record b { r = hash_from_hex x }

unfoldable pub set_s : Bytes → TxEventBuilder → TxEventBuilder
set_s x b = record b { s = hash_from_hex x }

-- `eth_to_wei` computes in floating point, and is a parameter.
unfoldable pub set_amount {ℓ} :
    {Float : Type ℓ} → (Float → ℤ) → Float → TxEventBuilder → TxEventBuilder
unfolding set_value
set_amount eth_to_wei eth b = set_value (some (eth_to_wei eth)) b

-- A block is of proof of stake if its difficulty is there and zero.
unfoldable pub is_merge_difficulty : Option ℤ → Bool
is_merge_difficulty none = false
is_merge_difficulty (some difficulty) = is_zero_ℤ difficulty

-- What the builder does not set is empty.
unfoldable pub build_block : BlockEventBuilder → BlockEvent
unfolding is_merge_difficulty
build_block b = record {
  block = record {
    number = b.number;
    hash = b.hash;
    parent_hash = b.parent_hash;
    uncle_hash = empty_hash;
    coinbase = b.coinbase;
    root = empty_hash;
    tx_hash = empty_hash;
    receipt_hash = empty_hash;
    bloom = b.bloom;
    difficulty = b.difficulty;
    gas_limit = b.gas_limit;
    gas_used = 0;
    time = b.timestamp;
    extra = [];
    mix_digest = empty_hash;
    nonce = 0;
    base_fee = none;
    uncles = [];
    size = b.size;
    withdrawals = [];
    is_merge = is_merge_difficulty b.difficulty;
    withdrawals_root = none;
    blob_gas_used = none;
    excess_blob_gas = none;
    parent_beacon_root = none;
    requests_hash = none;
    tx_dependency = none;
    slot_number = none;
    block_access_list_hash = none;
  };
  finalized = none;
  flash_block = none;
  rules = none;
}

-- `new(TxEventBuilder)`
abbrev pub new_builder : TxEventBuilder
new_builder = record {
  trx_type = 0;
  hash = empty_hash;
  from = empty_address;
  to = empty_address;
  value = none;
  gas = 0;
  gas_price = none;
  nonce = 0;
  input = [];
  v = [];
  r = empty_hash;
  s = empty_hash;
  max_fee_per_gas = none;
  max_priority_fee_per_gas = none;
  access_list = [];
  blob_gas_fee_cap = none;
  blob_hashes = [];
  set_code_authorizations = [];
}

-- The text of the zero hash.
abbrev pub zero_hash_text : Bytes
zero_hash_text = b'0' ∷ b'x' ∷ replicate 64 b'0'

unfoldable pub defaults : TxEventBuilder → TxEventBuilder
unfolding set_type set_hash set_value set_gas set_gas_price set_nonce set_max_fee_per_gas
    set_max_priority_fee_per_gas
defaults b = set_max_priority_fee_per_gas (some (pos 2)) (
    set_max_fee_per_gas (some (pos 20)) (
      set_nonce 0 (
        set_gas_price (some (pos 10))
          (set_gas 21000 (set_value (some (pos 100)) (set_hash zero_hash_text (set_type 0 b)))))))

-- `other.To[:]` of a nil pointer panics, which is `none`.
unfoldable pub defaults_from : TxEvent → TxEventBuilder → Option TxEventBuilder
unfolding set_type set_hash set_from set_to set_value set_gas set_gas_price set_nonce
    set_max_fee_per_gas set_max_priority_fee_per_gas
defaults_from other b = do
  to ← other.to
  let addressed = set_to (encode_to_string to) (
      set_from (encode_to_string other.from)
        (set_hash (encode_to_string other.hash) (set_type other.trx_type b)))
  let priced = set_gas_price other.gas_price (set_gas other.gas (set_value other.value addressed))
  some (
      set_max_priority_fee_per_gas other.max_priority_fee_per_gas
        (set_max_fee_per_gas other.max_fee_per_gas (set_nonce other.nonce priced)))

unfoldable pub new_tx_event_builder_from : TxEvent → Option TxEventBuilder
unfolding defaults_from
new_tx_event_builder_from other = defaults_from other new_builder

-- The recipient is the address of the builder's own field; there always is one.
unfoldable pub build_tx : TxEventBuilder → TxEvent
build_tx b = record {
  trx_type = b.trx_type;
  hash = b.hash;
  from = b.from;
  to = some b.to;
  input = b.input;
  value = b.value;
  gas = b.gas;
  gas_price = b.gas_price;
  nonce = b.nonce;
  index = 0;
  v = b.v;
  r = b.r;
  s = b.s;
  max_fee_per_gas = b.max_fee_per_gas;
  max_priority_fee_per_gas = b.max_priority_fee_per_gas;
  access_list = b.access_list;
  blob_gas_fee_cap = b.blob_gas_fee_cap;
  blob_hashes = b.blob_hashes;
  set_code_authorizations = b.set_code_authorizations;
}
