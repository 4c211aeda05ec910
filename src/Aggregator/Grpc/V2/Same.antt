-- ===== src/Aggregator/Grpc/V2/Same.antt =====
-- The older clients are answered as the newer ones (crates/bin/aggregator/src/server.rs and
-- grpc.rs).
use graph_tally.Prelude.{
  ◌≡◌, refl, Bool, List, [], ◌∷◌, map, Option, none, some, Result, ok, err, map_or, Result-cases,
  Option-cases, inl, inr, arith,
}
use graph_tally.Message.{Alloy, SolStruct, Eip712Domain}
use graph_tally.Graph.{Receipt, ReceiptAggregateVoucher, SignedReceipt, SignedRav}
use graph_tally.Aggregator.{check_and_aggregate_receipts}
use graph_tally.Aggregator.Signers.{SignerRegistry}
use graph_tally.Aggregator.Grpc.{
  Slices, Uint128, ReceiptMessage, SignedReceiptMessage, VoucherMessage, SignedRavMessage,
  RavRequestMessage, RavResponseMessage, read_receipt, read_signed_receipt, read_voucher,
  read_signed_rav, write_signed_rav, uint128_of,
}
use graph_tally.Aggregator.Grpc.Handler.{
  Status, Served, read_all, read_previous, read_request, answer_request, serve,
}
use graph_tally.Aggregator.Grpc.V2.{
  Uint128V2, ReceiptV2, SignedReceiptV2, VoucherV2, SignedRavV2, RavRequestV2, RavResponseV2,
  read_receipt_v2, read_signed_receipt_v2, read_voucher_v2, read_signed_rav_v2, write_signed_rav_v2,
  uint128_of_v2,
}
use graph_tally.Aggregator.Grpc.V2.Handler.{
  read_all_v2, read_previous_v2, read_request_v2, answer_request_v2, serve_v2,
}

-- A message of one module with the fields of the other's.
abbrev as_uint128 : Uint128 → Uint128V2
as_uint128 u = record { high = u.high; low = u.low }

abbrev option_map : {A B : Type 0} → (A → B) → Option A → Option B
option_map f o = map_or o none (λ a. some (f a))

abbrev as_receipt : ReceiptMessage → ReceiptV2
as_receipt r = record {
  collection_id = r.collection_id;
  payer = r.payer;
  data_service = r.data_service;
  service_provider = r.service_provider;
  timestamp_ns = r.timestamp_ns;
  nonce = r.nonce;
  value = option_map as_uint128 r.value;
}

abbrev as_signed_receipt : SignedReceiptMessage → SignedReceiptV2
as_signed_receipt r = record { message = option_map as_receipt r.message; signature = r.signature }

abbrev as_voucher : VoucherMessage → VoucherV2
as_voucher v = record {
  collection_id = v.collection_id;
  payer = v.payer;
  data_service = v.data_service;
  service_provider = v.service_provider;
  timestamp_ns = v.timestamp_ns;
  value_aggregate = option_map as_uint128 v.value_aggregate;
  metadata = v.metadata;
}

abbrev as_signed_rav : SignedRavMessage → SignedRavV2
as_signed_rav v = record { message = option_map as_voucher v.message; signature = v.signature }

abbrev pub as_request : RavRequestMessage → RavRequestV2
as_request q = record {
  receipts = map as_signed_receipt q.receipts;
  previous_rav = option_map as_signed_rav q.previous_rav;
}

abbrev pub as_response : RavResponseMessage → RavResponseV2
as_response r = record { rav = option_map as_signed_rav r.rav }

-- A response, or the status as it is.
abbrev pub as_answer : Result RavResponseMessage Status → Result RavResponseV2 Status
as_answer (ok response) = ok (as_response response)
as_answer (err status) = err status

module _ (slices : Slices) where
  read_receipt-same :
      (r : ReceiptMessage) → read_receipt_v2 slices (as_receipt r) ≡ read_receipt slices r
  unfolding read_receipt read_receipt_v2
  read_receipt-same r = ground arith

  read_signed_receipt-same :
      (r : SignedReceiptMessage)
      → read_signed_receipt_v2 slices (as_signed_receipt r) ≡ read_signed_receipt slices r
  unfolding read_signed_receipt read_signed_receipt_v2
  read_signed_receipt-same r = elim (Option-cases r.message) [
    | inl h ↦ rw h refl
    | inr (m, h) ↦ rw h (rw (read_receipt-same m) refl)
  ]

  read_voucher-same :
      (v : VoucherMessage) → read_voucher_v2 slices (as_voucher v) ≡ read_voucher slices v
  unfolding read_voucher read_voucher_v2
  read_voucher-same v = ground arith

  read_signed_rav-same :
      (v : SignedRavMessage)
      → read_signed_rav_v2 slices (as_signed_rav v) ≡ read_signed_rav slices v
  unfolding read_signed_rav read_signed_rav_v2
  read_signed_rav-same v = elim (Option-cases v.message) [
    | inl h ↦ rw h refl
    | inr (m, h) ↦ rw h (rw (read_voucher-same m) refl)
  ]

  read_all-same :
      (rs : List SignedReceiptMessage)
      → read_all_v2 slices (map as_signed_receipt rs) ≡ read_all slices rs
  read_all-same [] = refl
  read_all-same (r ∷ rs) = rw (read_signed_receipt-same r, read_all-same rs) refl

  read_previous-same :
      (previous : Option SignedRavMessage)
      → read_previous_v2 slices (option_map as_signed_rav previous) ≡ read_previous slices previous
  read_previous-same none = refl
  read_previous-same (some rav) = rw (read_signed_rav-same rav) refl

  read_request-same :
      (q : RavRequestMessage) → read_request_v2 slices (as_request q) ≡ read_request slices q
  unfolding read_request read_request_v2
  read_request-same q = rw (read_all-same q.receipts, read_previous-same q.previous_rav) refl

  write_signed_rav-same :
      (signed : SignedRav)
      → write_signed_rav_v2 slices signed ≡ as_signed_rav (write_signed_rav slices signed)
  unfolding write_signed_rav write_signed_rav_v2 uint128_of uint128_of_v2
  write_signed_rav-same signed = refl

module _ (alloy : Alloy) (slices : Slices) ⦃receipt_sol : SolStruct Receipt⦄
    ⦃rav_sol : SolStruct ReceiptAggregateVoucher⦄ (signers : SignerRegistry) (domain : Eip712Domain)
    (kafka : Bool) where
  answer_request-same :
      (receipts : List SignedReceipt) (previous : Option SignedRav) (self : Served)
      → let answer = answer_request alloy slices signers domain kafka receipts previous self in
        answer_request_v2 alloy slices signers domain kafka receipts previous self
        ≡ (as_answer answer.0, answer.1)
  unfolding answer_request answer_request_v2 write_signed_rav write_signed_rav_v2 uint128_of
      uint128_of_v2
  answer_request-same receipts previous self =
      elim (Result-cases (check_and_aggregate_receipts alloy domain receipts previous signers)) [
        | inl (signed, h) ↦ rw (h, answer_request, answer_request_v2) refl
        | inr (e, h) ↦ rw (h, answer_request, answer_request_v2) refl
      ]

  -- A request of an older client is answered as the same request of a newer one, field by field,
  -- with the same status where it is refused; the counters and the records come out the same.
  pub serve_v2-serve :
      (request : RavRequestMessage) (self : Served)
      → let answer = serve alloy slices signers domain kafka request self in
        serve_v2 alloy slices signers domain kafka (as_request request) self
        ≡ (as_answer answer.0, answer.1)
  unfolding serve serve_v2
  serve_v2-serve request self = elim (Result-cases (read_request slices request)) [
    | inl ((receipts, previous), h) ↦
        rw (read_request-same slices request, h, serve, serve_v2)
          (answer_request-same receipts previous self)
    | inr (status, h) ↦ rw (read_request-same slices request, h, serve, serve_v2) refl
  ]
