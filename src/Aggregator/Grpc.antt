-- ===== src/Aggregator/Grpc.antt =====
-- The protocol messages and the handler of the gRPC server (crates/bin/aggregator/src/grpc.rs: the
-- module graph_tally, crates/bin/aggregator/src/server.rs: impl GraphTallyAggregator).
pub mod RoundTrip
pub mod Handler
pub mod V2
use graph_tally.Prelude.{
  ◌≡◌, ℕ, ◌+◌, ◌*◌, ◌/◌, ◌%◌, List, [], ◌∷◌, ◌++◌, map, Option, none, some, Result, ok, err, ok_or,
  map_err, map_or, ◌>>=◌, length,
}
use graph_tally.Prelude.Words.{u64_mod, add_u64}
use graph_tally.Message.{
  Alloy, Address, Bytes, FixedBytes, Signature, SolStruct, Eip712Domain, Eip712SignedMessage,
}
use graph_tally.Graph.{Receipt, ReceiptAggregateVoucher, SignedReceipt, SignedRav}
use graph_tally.Aggregator.{Failure, check_and_aggregate_receipts}
use graph_tally.Aggregator.Signers.{SignerRegistry}

-- The alloy crate's bytes of addresses, words and signatures; `none` is a slice of another length.
pub record Slices : Type 0 where
  pub address_bytes : Address → Bytes
  pub address_of : Bytes → Option Address
  pub word_bytes : FixedBytes → Bytes
  pub word_of : Bytes → Option FixedBytes
  pub signature_bytes : Signature → Bytes
  pub signature_of_bytes : Bytes → Option Signature

-- What the conversions rely on: bytes that were written read back.
pub record ReadsBack (slices : Slices) : Type 0 where
  pub address_back : (a : Address) → slices.address_of (slices.address_bytes a) ≡ some a
  pub word_back : (w : FixedBytes) → slices.word_of (slices.word_bytes w) ≡ some w
  pub signature_back :
      (s : Signature) → slices.signature_of_bytes (slices.signature_bytes s) ≡ some s

pub record Uint128 : Type 0 where
  pub high : ℕ
  pub low : ℕ

pub record ReceiptMessage : Type 0 where
  pub collection_id : Bytes
  pub payer : Bytes
  pub data_service : Bytes
  pub service_provider : Bytes
  pub timestamp_ns : ℕ
  pub nonce : ℕ
  pub value : Option Uint128

pub record SignedReceiptMessage : Type 0 where
  pub message : Option ReceiptMessage
  pub signature : Bytes

pub record VoucherMessage : Type 0 where
  pub collection_id : Bytes
  pub payer : Bytes
  pub data_service : Bytes
  pub service_provider : Bytes
  pub timestamp_ns : ℕ
  pub value_aggregate : Option Uint128
  pub metadata : Bytes

pub record SignedRavMessage : Type 0 where
  pub message : Option VoucherMessage
  pub signature : Bytes

pub record RavRequestMessage : Type 0 where
  pub receipts : List SignedReceiptMessage
  pub previous_rav : Option SignedRavMessage

pub record RavResponseMessage : Type 0 where
  pub rav : Option SignedRavMessage

pub data ReadError : Type 0 where
  missing_value missing_message missing_value_aggregate missing_rav wrong_length : ReadError

-- The shift to the high half, and the low half beside it.
unfoldable pub u128_of : Uint128 → ℕ
u128_of u = u.high * u64_mod + u.low

unfoldable pub uint128_of : ℕ → Uint128
uint128_of value = record { high = value / u64_mod % u64_mod; low = value % u64_mod }

module _ (slices : Slices) where
  unfoldable pub read_receipt : ReceiptMessage → Result Receipt ReadError
  unfolding u128_of
  read_receipt receipt = do
    collection_id ← ok_or (slices.word_of receipt.collection_id) wrong_length
    value ← ok_or receipt.value missing_value
    payer ← ok_or (slices.address_of receipt.payer) wrong_length
    data_service ← ok_or (slices.address_of receipt.data_service) wrong_length
    service_provider ← ok_or (slices.address_of receipt.service_provider) wrong_length
    ok (record {
      collection_id = collection_id;
      payer = payer;
      data_service = data_service;
      service_provider = service_provider;
      timestamp_ns = receipt.timestamp_ns;
      nonce = receipt.nonce;
      value = u128_of value;
    })

  unfoldable pub read_signed_receipt : SignedReceiptMessage → Result SignedReceipt ReadError
  read_signed_receipt receipt = do
    signature ← ok_or (slices.signature_of_bytes receipt.signature) wrong_length
    written ← ok_or receipt.message missing_message
    message ← read_receipt written
    ok (record { message = message; signature = signature })

  unfoldable pub write_receipt : Receipt → ReceiptMessage
  unfolding uint128_of
  write_receipt value = record {
    collection_id = slices.word_bytes value.collection_id;
    payer = slices.address_bytes value.payer;
    data_service = slices.address_bytes value.data_service;
    service_provider = slices.address_bytes value.service_provider;
    timestamp_ns = value.timestamp_ns;
    nonce = value.nonce;
    value = some (uint128_of value.value);
  }

  unfoldable pub write_signed_receipt : SignedReceipt → SignedReceiptMessage
  unfolding write_receipt
  write_signed_receipt value = record {
    message = some (write_receipt value.message);
    signature = slices.signature_bytes value.signature;
  }

  unfoldable pub read_voucher : VoucherMessage → Result ReceiptAggregateVoucher ReadError
  unfolding u128_of
  read_voucher voucher = do
    collection_id ← ok_or (slices.word_of voucher.collection_id) wrong_length
    value ← ok_or voucher.value_aggregate missing_value_aggregate
    payer ← ok_or (slices.address_of voucher.payer) wrong_length
    data_service ← ok_or (slices.address_of voucher.data_service) wrong_length
    service_provider ← ok_or (slices.address_of voucher.service_provider) wrong_length
    ok (record {
      collection_id = collection_id;
      payer = payer;
      service_provider = service_provider;
      data_service = data_service;
      timestamp_ns = voucher.timestamp_ns;
      value_aggregate = u128_of value;
      metadata = voucher.metadata;
    })

  unfoldable pub read_signed_rav : SignedRavMessage → Result SignedRav ReadError
  read_signed_rav voucher = do
    signature ← ok_or (slices.signature_of_bytes voucher.signature) wrong_length
    written ← ok_or voucher.message missing_message
    message ← read_voucher written
    ok (record { message = message; signature = signature })

  unfoldable pub write_voucher : ReceiptAggregateVoucher → VoucherMessage
  unfolding uint128_of
  write_voucher voucher = record {
    collection_id = slices.word_bytes voucher.collection_id;
    payer = slices.address_bytes voucher.payer;
    data_service = slices.address_bytes voucher.data_service;
    service_provider = slices.address_bytes voucher.service_provider;
    timestamp_ns = voucher.timestamp_ns;
    value_aggregate = some (uint128_of voucher.value_aggregate);
    metadata = voucher.metadata;
  }

  unfoldable pub write_signed_rav : SignedRav → SignedRavMessage
  unfolding write_voucher
  write_signed_rav voucher = record {
    message = some (write_voucher voucher.message);
    signature = slices.signature_bytes voucher.signature;
  }

  -- `RavRequest::new`
  unfoldable pub new_request : List SignedReceipt → Option SignedRav → RavRequestMessage
  new_request receipts previous_rav = record {
    receipts = map write_signed_receipt receipts;
    previous_rav = map_or previous_rav none (λ rav. some (write_signed_rav rav));
  }

  -- `RavResponse::signed_rav`
  unfoldable pub signed_rav : RavResponseMessage → Result SignedRav ReadError
  signed_rav response = do rav ← ok_or response.rav missing_rav; read_signed_rav rav
