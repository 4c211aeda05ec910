-- ===== src/Aggregator/Grpc/Handler/Client.antt =====
-- A client's request is answered as the aggregation decides (crates/bin/aggregator/src/server.rs
-- and grpc.rs).
use graph_tally.Prelude.{
  ◌<◌, ◌≡◌, refl, ◌∙◌, Bool, List, [], ◌∷◌, ◌++◌, map, Option, none, some, ok, err, length, All,
  if◌then◌else◌,
}
use graph_tally.Prelude.Words.{u128_mod, add_u64}
use graph_tally.Message.{Alloy, SolStruct, Eip712Domain}
use graph_tally.Graph.{Receipt, ReceiptAggregateVoucher, SignedReceipt, SignedRav}
use graph_tally.Aggregator.{Failure, check_and_aggregate_receipts}
use graph_tally.Aggregator.Signers.{SignerRegistry}
use graph_tally.Aggregator.Grpc.{
  Slices, ReadsBack, RavResponseMessage, write_signed_receipt, write_signed_rav, new_request,
  signed_rav,
}
use graph_tally.Aggregator.Grpc.RoundTrip.{
  read_signed_receipt-write_signed_receipt, read_signed_rav-write_signed_rav,
}
use graph_tally.Aggregator.Grpc.Handler.{
  failed_precondition, Served, read_all, read_request, answer_request, serve,
}

module _ (slices : Slices) (back : ReadsBack slices) where
  read_all-written :
      (receipts : List SignedReceipt)
      → All (λ r. r.message.value < u128_mod) receipts
      → read_all slices (map (λ r. write_signed_receipt slices r) receipts) ≡ ok receipts
  read_all-written [] h = refl
  read_all-written (r ∷ rs) h =
      rw (read_signed_receipt-write_signed_receipt slices back r h.0, read_all-written rs h.1)

  -- The voucher to go on from, within `u128`.
  abbrev pub HasValue : Option SignedRav → Type 0
  HasValue none = Unit
  HasValue (some rav) = rav.message.value_aggregate < u128_mod

  read_request-new_request :
      (receipts : List SignedReceipt) (previous : Option SignedRav)
      → All (λ r. r.message.value < u128_mod) receipts
      → HasValue previous
      → read_request slices (new_request slices receipts previous) ≡ ok (receipts, previous)
  unfolding read_request new_request
  read_request-new_request receipts none h k = rw (read_all-written receipts h)
  read_request-new_request receipts (some rav) h k =
      rw (read_all-written receipts h, read_signed_rav-write_signed_rav slices back rav k)

  module _ (alloy : Alloy) ⦃receipt_sol : SolStruct Receipt⦄
      ⦃rav_sol : SolStruct ReceiptAggregateVoucher⦄ (signers : SignerRegistry)
      (domain : Eip712Domain) (kafka : Bool) (receipts : List SignedReceipt)
      (previous : Option SignedRav) (self : Served)
      (values : All (λ r. r.message.value < u128_mod) receipts) (value : HasValue previous) where
    serve-read :
        serve alloy slices signers domain kafka (new_request slices receipts previous) self
        ≡ answer_request alloy slices signers domain kafka receipts previous self
    unfolding serve
    serve-read = rw (read_request-new_request receipts previous values value, serve) refl

    -- The request that a client makes of receipts and a previous voucher, all within `u128`, is
    -- answered as the aggregation of just these decides. A signed voucher within `u128` is what the
    -- client reads from the response, the receipts are counted once, and with Kafka one record is
    -- produced; a failure comes back as it is, is counted, and produces nothing.
    pub serve-new_request :
        ((signed : SignedRav)
          → check_and_aggregate_receipts alloy domain receipts previous signers ≡ ok signed
          → signed.message.value_aggregate < u128_mod
          → (response : RavResponseMessage) × (after : Served) × (serve alloy slices signers domain
                kafka
                (new_request slices receipts previous)
                self
              ≡ (ok response, after))
            × (signed_rav slices response ≡ ok signed)
            × (after.total_aggregated_receipts
                ≡ add_u64 self.total_aggregated_receipts (length receipts))
            × (after.kafka_records ≡ (
                if kafka
                then self.kafka_records
                  ++ (
                    signed.message.payer, signed.message.collection_id,
                    signed.message.value_aggregate,
                  )
                    ∷ []
                else self.kafka_records)))
        × ((e : Failure)
            → check_and_aggregate_receipts alloy domain receipts previous signers ≡ err e
            → serve alloy slices signers domain kafka (new_request slices receipts previous) self
              ≡ (
                err (failed_precondition e),
                record self { aggregation_failure = add_u64 self.aggregation_failure 1 },
              ))
    unfolding answer_request signed_rav
    serve-new_request = (
      (λ signed h small. (
        record { rav = some (write_signed_rav slices signed) },
        record {
          total_aggregated_receipts = add_u64 self.total_aggregated_receipts (length receipts);
          aggregation_success = add_u64 self.aggregation_success 1;
          aggregation_failure = self.aggregation_failure;
          version_errors = self.version_errors;
          deprecation_warnings = self.deprecation_warnings;
          kafka_records =
              if kafka
              then self.kafka_records
                ++ (
                  signed.message.payer, signed.message.collection_id,
                  signed.message.value_aggregate,
                )
                  ∷ []
              else self.kafka_records;
        },
        serve-read ∙ rw (h, answer_request) refl,
        read_signed_rav-write_signed_rav slices back signed small,
        refl,
        refl,
      )),
      (λ e h. serve-read ∙ rw (h, answer_request) refl),
    )
