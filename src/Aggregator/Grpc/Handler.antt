-- ===== src/Aggregator/Grpc/Handler.antt =====
-- The handler of the gRPC server (crates/bin/aggregator/src/server.rs: impl GraphTallyAggregator).
pub mod Client
use graph_tally.Prelude.{
  ℕ, ◌%◌, Bool, true, false, List, [], ◌∷◌, ◌++◌, Option, none, some, Result, ok, err, map_err,
  ◌>>=◌, if◌then◌else◌, length,
}
use graph_tally.Prelude.Words.{u64_mod, add_u64}
use graph_tally.Message.{Alloy, Address, FixedBytes, SolStruct, Eip712Domain}
use graph_tally.Graph.{Receipt, ReceiptAggregateVoucher, SignedReceipt, SignedRav}
use graph_tally.Aggregator.{Failure, check_and_aggregate_receipts}
use graph_tally.Aggregator.Signers.{SignerRegistry}
use graph_tally.Aggregator.Grpc.{
  Slices, ReadError, SignedReceiptMessage, SignedRavMessage, RavRequestMessage, RavResponseMessage,
  read_signed_receipt, read_signed_rav, write_signed_rav,
}

-- `Status`, by what it is made from.
pub data Status : Type 0 where
  bad_receipts bad_previous_rav : Status
  failed_precondition : Failure → Status

-- The counters of the metrics, without the floating-point sum of values, and what was produced to
-- Kafka: the payer, the collection and the value of a voucher.
pub record Served : Type 0 where
  pub total_aggregated_receipts : ℕ
  pub aggregation_success : ℕ
  pub aggregation_failure : ℕ
  pub version_errors : ℕ
  pub deprecation_warnings : ℕ
  pub kafka_records : List (Address × FixedBytes × ℕ)

-- The counters and the record of a voucher that was signed, and the counter of a failure.
abbrev pub count_success : Bool → List SignedReceipt → SignedRav → Served → Served
count_success kafka receipts res self = record {
  total_aggregated_receipts = add_u64 self.total_aggregated_receipts (length receipts);
  aggregation_success = add_u64 self.aggregation_success 1;
  aggregation_failure = self.aggregation_failure;
  version_errors = self.version_errors;
  deprecation_warnings = self.deprecation_warnings;
  kafka_records =
      if kafka
      then self.kafka_records
        ++ (res.message.payer, res.message.collection_id, res.message.value_aggregate) ∷ []
      else self.kafka_records;
}

abbrev pub count_failure : Served → Served
count_failure self = record self { aggregation_failure = add_u64 self.aggregation_failure 1 }

-- `collect` into a result: the first error.
abbrev pub read_all : Slices → List SignedReceiptMessage → Result (List SignedReceipt) ReadError
read_all slices [] = ok []
read_all slices (written ∷ rest) = do
  receipt ← read_signed_receipt slices written
  receipts ← read_all slices rest
  ok (receipt ∷ receipts)

-- `transpose`
abbrev pub read_previous : Slices → Option SignedRavMessage → Result (Option SignedRav) ReadError
read_previous slices none = ok none
read_previous slices (some written) = do rav ← read_signed_rav slices written; ok (some rav)

unfoldable pub read_request :
    Slices → RavRequestMessage → Result (List SignedReceipt × Option SignedRav) Status
read_request slices request = do
  receipts ← map_err (λ _. bad_receipts) (read_all slices request.receipts)
  previous_rav ← map_err (λ _. bad_previous_rav) (read_previous slices request.previous_rav)
  ok (receipts, previous_rav)

module _ (alloy : Alloy) (slices : Slices) ⦃receipt_sol : SolStruct Receipt⦄
    ⦃rav_sol : SolStruct ReceiptAggregateVoucher⦄ (signers : SignerRegistry)
    (domain_separator : Eip712Domain) (kafka : Bool) where
  -- What follows the reading: the aggregation, the counters, and the record.
  unfoldable pub answer_request :
      List SignedReceipt → Option SignedRav → Served → Result RavResponseMessage Status × Served
  answer_request receipts previous_rav self =
      elim (check_and_aggregate_receipts alloy domain_separator receipts previous_rav signers) [
        | ok res ↦ (
          ok (record { rav = some (write_signed_rav slices res) }),
          count_success kafka receipts res self,
        )
        | err e ↦ (err (failed_precondition e), count_failure self)
      ]

  unfoldable pub serve : RavRequestMessage → Served → Result RavResponseMessage Status × Served
  serve request self = elim (read_request slices request) [
    | err status ↦ (err status, self)
    | ok (receipts, previous_rav) ↦ answer_request receipts previous_rav self
  ]
