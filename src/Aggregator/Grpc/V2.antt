-- ===== src/Aggregator/Grpc/V2.antt =====
-- The messages and the conversions of the older clients (crates/bin/aggregator/src/grpc.rs: the
-- modules uint128 and v2), which are declared apart from the ones of the module graph_tally.
pub mod Handler
pub mod Same
use graph_tally.Prelude.{
  ℕ, ◌+◌, ◌*◌, ◌/◌, ◌%◌, List, [], ◌∷◌, map, Option, none, some, Result, ok, err, ok_or, map_or,
  ◌>>=◌,
}
use graph_tally.Prelude.Words.{u64_mod}
use graph_tally.Graph.{Receipt, ReceiptAggregateVoucher, SignedReceipt, SignedRav}
use graph_tally.Message.{Bytes}
use graph_tally.Aggregator.Grpc.{
  Slices, ReadError, missing_value, missing_message, missing_value_aggregate, missing_rav,
  wrong_length,
}

pub record Uint128V2 : Type 0 where
  pub high : ℕ
  pub low : ℕ

pub record ReceiptV2 : Type 0 where
  pub collection_id : Bytes
  pub payer : Bytes
  pub data_service : Bytes
  pub service_provider : Bytes
  pub timestamp_ns : ℕ
  pub nonce : ℕ
  pub value : Option Uint128V2

pub record SignedReceiptV2 : Type 0 where
  pub message : Option ReceiptV2
  pub signature : Bytes

pub record VoucherV2 : Type 0 where
  pub collection_id : Bytes
  pub payer : Bytes
  pub data_service : Bytes
  pub service_provider : Bytes
  pub timestamp_ns : ℕ
  pub value_aggregate : Option Uint128V2
  pub metadata : Bytes

pub record SignedRavV2 : Type 0 where
  pub message : Option VoucherV2
  pub signature : Bytes

pub record RavRequestV2 : Type 0 where
  pub receipts : List SignedReceiptV2
  pub previous_rav : Option SignedRavV2

pub record RavResponseV2 : Type 0 where
  pub rav : Option SignedRavV2

-- The shift to the high half, and the low half beside it.
unfoldable pub u128_of_v2 : Uint128V2 → ℕ
u128_of_v2 u = u.high * u64_mod + u.low

unfoldable pub uint128_of_v2 : ℕ → Uint128V2
uint128_of_v2 value = record { high = value / u64_mod % u64_mod; low = value % u64_mod }

module _ (slices : Slices) where
  unfoldable pub read_receipt_v2 : ReceiptV2 → Result Receipt ReadError
  unfolding u128_of_v2
  read_receipt_v2 receipt = do
    collection_id ← ok_or (slices.word_of receipt.collection_id) wrong_length
    value ← ok_or receipt.value missing_value
    payer ← ok_or (slices.address_of receipt.payer) wrong_length
    data_service ← ok_or (slices.address_of receipt.data_service) wrong_length
    service_provider ← ok_or (slices.address_of receipt.service_provider) wrong_length
    ok (record {
      collection_id = collection_id;
      payer = payer;
      data_service = data_service;
      service_provider = service_provider;
      timestamp_ns = receipt.timestamp_ns;
      nonce = receipt.nonce;
      value = u128_of_v2 value;
    })

  unfoldable pub read_signed_receipt_v2 : SignedReceiptV2 → Result SignedReceipt ReadError
  read_signed_receipt_v2 receipt = do
    signature ← ok_or (slices.signature_of_bytes receipt.signature) wrong_length
    written ← ok_or receipt.message missing_message
    message ← read_receipt_v2 written
    ok (record { message = message; signature = signature })

  unfoldable pub write_receipt_v2 : Receipt → ReceiptV2
  unfolding uint128_of_v2
  write_receipt_v2 value = record {
    collection_id = slices.word_bytes value.collection_id;
    payer = slices.address_bytes value.payer;
    data_service = slices.address_bytes value.data_service;
    service_provider = slices.address_bytes value.service_provider;
    timestamp_ns = value.timestamp_ns;
    nonce = value.nonce;
    value = some (uint128_of_v2 value.value);
  }

  unfoldable pub write_signed_receipt_v2 : SignedReceipt → SignedReceiptV2
  unfolding write_receipt_v2
  write_signed_receipt_v2 value = record {
    message = some (write_receipt_v2 value.message);
    signature = slices.signature_bytes value.signature;
  }

  unfoldable pub read_voucher_v2 : VoucherV2 → Result ReceiptAggregateVoucher ReadError
  unfolding u128_of_v2
  read_voucher_v2 voucher = do
    collection_id ← ok_or (slices.word_of voucher.collection_id) wrong_length
    value ← ok_or voucher.value_aggregate missing_value_aggregate
    payer ← ok_or (slices.address_of voucher.payer) wrong_length
    data_service ← ok_or (slices.address_of voucher.data_service) wrong_length
    service_provider ← ok_or (slices.address_of voucher.service_provider) wrong_length
    ok (record {
      collection_id = collection_id;
      payer = payer;
      service_provider = service_provider;
      data_service = data_service;
      timestamp_ns = voucher.timestamp_ns;
      value_aggregate = u128_of_v2 value;
      metadata = voucher.metadata;
    })

  unfoldable pub read_signed_rav_v2 : SignedRavV2 → Result SignedRav ReadError
  read_signed_rav_v2 voucher = do
    signature ← ok_or (slices.signature_of_bytes voucher.signature) wrong_length
    written ← ok_or voucher.message missing_message
    message ← read_voucher_v2 written
    ok (record { message = message; signature = signature })

  unfoldable pub write_voucher_v2 : ReceiptAggregateVoucher → VoucherV2
  unfolding uint128_of_v2
  write_voucher_v2 voucher = record {
    collection_id = slices.word_bytes voucher.collection_id;
    payer = slices.address_bytes voucher.payer;
    data_service = slices.address_bytes voucher.data_service;
    service_provider = slices.address_bytes voucher.service_provider;
    timestamp_ns = voucher.timestamp_ns;
    value_aggregate = some (uint128_of_v2 voucher.value_aggregate);
    metadata = voucher.metadata;
  }

  unfoldable pub write_signed_rav_v2 : SignedRav → SignedRavV2
  unfolding write_voucher_v2
  write_signed_rav_v2 voucher = record {
    message = some (write_voucher_v2 voucher.message);
    signature = slices.signature_bytes voucher.signature;
  }

  -- `v2::RavRequest::new`
  unfoldable pub new_request_v2 : List SignedReceipt → Option SignedRav → RavRequestV2
  new_request_v2 receipts previous_rav = record {
    receipts = map write_signed_receipt_v2 receipts;
    previous_rav = map_or previous_rav none (λ rav. some (write_signed_rav_v2 rav));
  }

  -- `RavResponse::signed_rav_v2`
  unfoldable pub signed_rav_v2 : RavResponseV2 → Result SignedRav ReadError
  signed_rav_v2 response = do rav ← ok_or response.rav missing_rav; read_signed_rav_v2 rav
