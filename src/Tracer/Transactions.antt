-- ===== src/Tracer/Transactions.antt =====
-- tracer.go: the start of a transaction, the price that it pays and the address it creates.
use evm_firehose_tracer_go.Prelude.{
  ◌∷◌, [], ℕ, ◌*◌, true, false, ◌&&◌, List, [], Option, none, some, map, length, is_empty, drop,
  u64, leb, if◌then◌else◌,
}
use evm_firehose_tracer_go.Prelude.Int.{ℤ, ◌+ℤ◌, gtb_ℤ}
use evm_firehose_tracer_go.Prelude.Bytes.{Bytes, from_bytes, to_bytes, all_zero}
use evm_firehose_tracer_go.Pb
use evm_firehose_tracer_go.Pb.{TransactionTrace, zero_transaction}
use evm_firehose_tracer_go.Types.{TxEvent, AccessTuple, SetCodeAuthorization}
use evm_firehose_tracer_go.Types.BigInt.{big_int_to_protobuf}
use evm_firehose_tracer_go.Config.{ChainConfig, StateReader, SetCodeAuthRecovery}
use evm_firehose_tracer_go.External.{External, fit}
use evm_firehose_tracer_go.SetCode.{default_set_code_auth_recovery}
use evm_firehose_tracer_go.Tracer.State.{
  Tracer, Result, ok, ◌>>=◌, ◌>>◌, require, rlp_encoding, auth_recovery, nil_pointer, tick,
  ensure_in_block_and_not_in_trx_and_not_in_call,
}

-- The fee fields of a dynamic transaction, both present, or the gas price.
unfoldable pub capped_price : ℤ → Option ℤ → Option ℤ → Option ℤ → Option ℤ
unfolding ◌+ℤ◌
capped_price base_fee (some tip) (some max_fee) gas_price =
    let effective_price = tip +ℤ base_fee in
    if gtb_ℤ effective_price max_fee then some max_fee else some effective_price
capped_price base_fee none max_fee gas_price = gas_price
capped_price base_fee (some tip) none gas_price = gas_price

abbrev or_else : Option ℤ → Option ℤ → Option ℤ
or_else none b = b
or_else (some a) b = some a

unfoldable pub dynamic_price : Option ℤ → TxEvent → Option ℤ
unfolding capped_price
dynamic_price none event = or_else event.max_fee_per_gas event.gas_price
dynamic_price (some base_fee) event =
    capped_price base_fee event.max_priority_fee_per_gas event.max_fee_per_gas event.gas_price

-- Types 2, 3 and 4 are dynamic; 0, 1 and the unknown ones pay the gas price.
unfoldable pub compute_effective_gas_price : TxEvent → Option ℤ → Option ℤ
unfolding dynamic_price
compute_effective_gas_price event base_fee =
    if leb 2 event.trx_type && leb event.trx_type 4
    then dynamic_price base_fee event
    else event.gas_price

-- All zeros are written as nothing.
unfoldable pub normalize_signature_point : Bytes → Bytes
unfolding all_zero
normalize_signature_point value = if all_zero value then [] else value

abbrev pub blob_gas_per_blob : ℕ
blob_gas_per_blob = 131072

unfoldable pub blob_gas_of : List Bytes → Option ℕ
blob_gas_of hashes =
    if is_empty hashes then none else some (u64 (length hashes * blob_gas_per_blob))

unfoldable pub access_list_to_proto : List AccessTuple → List Pb.AccessTuple
access_list_to_proto =
    map (λ tuple. record { address = tuple.address; storage_keys = tuple.storage_keys })

-- The authority, or the mark of a signature that recovers none.
unfoldable pub with_authority : Option Bytes → Pb.SetCodeAuthorization → Pb.SetCodeAuthorization
with_authority none auth = record auth { discarded = true }
with_authority (some authority) auth = record auth { authority = authority }

unfoldable pub authorization_to_proto :
    SetCodeAuthRecovery → SetCodeAuthorization → Result Pb.SetCodeAuthorization
unfolding with_authority normalize_signature_point
authorization_to_proto recovery auth = do
  authority ←
      require (recovery auth.chain_id auth.address auth.nonce auth.v auth.r auth.s) auth_recovery
  ok (
      with_authority authority (record {
        discarded = false;
        chain_id = to_bytes (from_bytes auth.chain_id);
        address = auth.address;
        nonce = auth.nonce;
        v = auth.v;
        r = normalize_signature_point auth.r;
        s = normalize_signature_point auth.s;
        authority = [];
      }))

unfoldable pub authorizations_to_proto :
    SetCodeAuthRecovery → List SetCodeAuthorization → Result (List Pb.SetCodeAuthorization)
unfolding authorization_to_proto
authorizations_to_proto recovery [] = ok []
authorizations_to_proto recovery (auth ∷ auths) = do
  first ← authorization_to_proto recovery auth
  rest ← authorizations_to_proto recovery auths
  ok (first ∷ rest)

module _ (ext : External) where
  -- keccak256(rlp([sender, nonce]))[12:]
  unfoldable pub create_address : Bytes → ℕ → Result Bytes
  create_address sender nonce = do
    encoded ← require (ext.rlp_sender_nonce sender nonce) rlp_encoding
    ok (fit 20 (drop 12 (ext.keccak256 encoded)))

  unfoldable pub recipient : TxEvent → Option StateReader → Result Bytes
  unfolding create_address
  recipient event state_reader = elim event.to [
    | some to ↦ ok to
    | none ↦ do
      reader ← require state_reader nil_pointer
      create_address event.from (reader.get_nonce event.from)
  ]

  abbrev pub recovery_of : Option ChainConfig → SetCodeAuthRecovery
  recovery_of none = default_set_code_auth_recovery ext
  recovery_of (some c) = elim c.set_code_auth_recovery [
    | none ↦ default_set_code_auth_recovery ext
    | some recovery ↦ recovery
  ]

  unfoldable pub on_tx_start : TxEvent → Option StateReader → Tracer → Result Tracer
  unfolding tick ensure_in_block_and_not_in_trx_and_not_in_call
  on_tx_start event state_reader t = do
    ensure_in_block_and_not_in_trx_and_not_in_call t
    to ← recipient event state_reader
    authorizations ←
        authorizations_to_proto (recovery_of t.chain_config) event.set_code_authorizations
    let trx : TransactionTrace = record zero_transaction {
      begin_ordinal = (tick t).block_ordinal.value;
      hash = event.hash;
      from = event.from;
      to = to;
      nonce = event.nonce;
      gas_limit = event.gas;
      gas_price = big_int_to_protobuf (compute_effective_gas_price event t.block_base_fee);
      value = big_int_to_protobuf event.value;
      input = event.input;
      v = event.v;
      r = normalize_signature_point event.r;
      s = normalize_signature_point event.s;
      trx_type = event.trx_type;
      max_fee_per_gas = big_int_to_protobuf event.max_fee_per_gas;
      max_priority_fee_per_gas = big_int_to_protobuf event.max_priority_fee_per_gas;
      access_list = access_list_to_proto event.access_list;
      blob_gas_fee_cap = big_int_to_protobuf event.blob_gas_fee_cap;
      blob_hashes = event.blob_hashes;
      blob_gas = blob_gas_of event.blob_hashes;
      set_code_authorizations = authorizations;
    }
    ok (record (tick t) { transaction = some trx; transaction_state_reader = state_reader })
