-- ===== src/Fees.antt =====
-- tracer.go, computeEffectiveGasPrice: what a dynamic transaction pays.
use evm_firehose_tracer_go.Prelude.{
  ◌≡◌, true, false, ◌&&◌, ◌⊎◌, inl, inr, refl, some, leb, arith, Bool-cases,
}
use evm_firehose_tracer_go.Prelude.Int.{ℤ, ◌+ℤ◌, gtb_ℤ}
use evm_firehose_tracer_go.Types.{TxEvent}
use evm_firehose_tracer_go.Tracer.Transactions.{
  compute_effective_gas_price, dynamic_price, capped_price,
}

gtb_ℤ-irrefl : (a : ℤ) → gtb_ℤ a a ≡ false
gtb_ℤ-irrefl a = ground arith

gtb_ℤ-asym : (a b : ℤ) → gtb_ℤ a b ≡ true → gtb_ℤ b a ≡ false
gtb_ℤ-asym a b h = ground arith

-- A transaction of type 2, 3 or 4 with both fee fields, in a block with a base fee, pays the base
-- fee and its tip or its maximum fee, and neither is less than what it pays.
pub effective_gas_price_capped :
    (event : TxEvent) (base_fee tip max_fee : ℤ)
    → (leb 2 event.trx_type && leb event.trx_type 4) ≡ true
    → event.max_priority_fee_per_gas ≡ some tip
    → event.max_fee_per_gas ≡ some max_fee
    → (price : ℤ) × (compute_effective_gas_price event (some base_fee) ≡ some price)
      × (gtb_ℤ price max_fee ≡ false)
      × (gtb_ℤ price (tip +ℤ base_fee) ≡ false)
      × ((price ≡ max_fee) ⊎ (price ≡ tip +ℤ base_fee))
unfolding compute_effective_gas_price dynamic_price capped_price
effective_gas_price_capped event base_fee tip max_fee dynamic tipped capped =
    elim (Bool-cases (gtb_ℤ (tip +ℤ base_fee) max_fee)) [
      | inl over ↦ (
        max_fee,
        ground arith,
        gtb_ℤ-irrefl max_fee,
        gtb_ℤ-asym (tip +ℤ base_fee) max_fee over,
        inl refl,
      )
      | inr within ↦
          (tip +ℤ base_fee, ground arith, within, gtb_ℤ-irrefl (tip +ℤ base_fee), inr refl)
    ]
