-- ===== src/Aggregator/Grpc/RoundTrip.antt =====
-- What is written to a protocol message reads back (crates/bin/aggregator/src/grpc.rs).
use graph_tally.Prelude.{ℕ, ◌<◌, ◌≡◌, ok, arith}
use graph_tally.Prelude.Words.{u128_mod}
use graph_tally.Graph.{Receipt, ReceiptAggregateVoucher, SignedReceipt, SignedRav}
use graph_tally.Aggregator.Grpc.{
  Slices, ReadsBack, u128_of, uint128_of, read_receipt, write_receipt, read_signed_receipt,
  write_signed_receipt, read_voucher, write_voucher, read_signed_rav, write_signed_rav,
}

-- A `u128` survives its two halves.
pub u128_of-uint128_of : (value : ℕ) → value < u128_mod → u128_of (uint128_of value) ≡ value
unfolding u128_of uint128_of
u128_of-uint128_of value h = omega arith

module _ (slices : Slices) (back : ReadsBack slices) where
  read_receipt-write_receipt :
      (r : Receipt) → r.value < u128_mod → read_receipt slices (write_receipt slices r) ≡ ok r
  unfolding read_receipt write_receipt
  read_receipt-write_receipt r h = rw (
    ReadsBack.word_back back r.collection_id,
    ReadsBack.address_back back r.payer,
    ReadsBack.address_back back r.data_service,
    ReadsBack.address_back back r.service_provider,
    u128_of-uint128_of r.value h,
  )

  pub read_signed_receipt-write_signed_receipt :
      (r : SignedReceipt)
      → r.message.value < u128_mod
      → read_signed_receipt slices (write_signed_receipt slices r) ≡ ok r
  unfolding read_signed_receipt write_signed_receipt
  read_signed_receipt-write_signed_receipt r h =
      rw (ReadsBack.signature_back back, read_receipt-write_receipt r.message h)

  read_voucher-write_voucher :
      (v : ReceiptAggregateVoucher)
      → v.value_aggregate < u128_mod
      → read_voucher slices (write_voucher slices v) ≡ ok v
  unfolding read_voucher write_voucher
  read_voucher-write_voucher v h = rw (
    ReadsBack.word_back back v.collection_id,
    ReadsBack.address_back back v.payer,
    ReadsBack.address_back back v.data_service,
    ReadsBack.address_back back v.service_provider,
    u128_of-uint128_of v.value_aggregate h,
  )

  -- A signed voucher whose value is within `u128` reads back from its protocol message, given that
  -- the bytes of addresses, words and signatures do.
  pub read_signed_rav-write_signed_rav :
      (v : SignedRav)
      → v.message.value_aggregate < u128_mod
      → read_signed_rav slices (write_signed_rav slices v) ≡ ok v
  unfolding read_signed_rav write_signed_rav
  read_signed_rav-write_signed_rav v h =
      rw (ReadsBack.signature_back back, read_voucher-write_voucher v.message h)
