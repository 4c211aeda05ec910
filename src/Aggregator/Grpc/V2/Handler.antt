-- ===== src/Aggregator/Grpc/V2/Handler.antt =====
-- The handler of the older clients (crates/bin/aggregator/src/server.rs: impl TapAggregator).
use graph_tally.Prelude.{Bool, List, [], ◌∷◌, Option, none, some, Result, ok, err, map_err, ◌>>=◌}
use graph_tally.Message.{Alloy, SolStruct, Eip712Domain}
use graph_tally.Graph.{Receipt, ReceiptAggregateVoucher, SignedReceipt, SignedRav}
use graph_tally.Aggregator.{check_and_aggregate_receipts}
use graph_tally.Aggregator.Signers.{SignerRegistry}
use graph_tally.Aggregator.Grpc.{Slices, ReadError}
use graph_tally.Aggregator.Grpc.Handler.{
  Status, bad_receipts, bad_previous_rav, failed_precondition, Served, count_success, count_failure,
}
use graph_tally.Aggregator.Grpc.V2.{
  SignedReceiptV2, SignedRavV2, RavRequestV2, RavResponseV2, read_signed_receipt_v2,
  read_signed_rav_v2, write_signed_rav_v2,
}

-- `collect` into a result: the first error.
abbrev pub read_all_v2 : Slices → List SignedReceiptV2 → Result (List SignedReceipt) ReadError
read_all_v2 slices [] = ok []
read_all_v2 slices (written ∷ rest) = do
  receipt ← read_signed_receipt_v2 slices written
  receipts ← read_all_v2 slices rest
  ok (receipt ∷ receipts)

-- `transpose`
abbrev pub read_previous_v2 : Slices → Option SignedRavV2 → Result (Option SignedRav) ReadError
read_previous_v2 slices none = ok none
read_previous_v2 slices (some written) = do rav ← read_signed_rav_v2 slices written; ok (some rav)

unfoldable pub read_request_v2 :
    Slices → RavRequestV2 → Result (List SignedReceipt × Option SignedRav) Status
read_request_v2 slices request = do
  receipts ← map_err (λ _. bad_receipts) (read_all_v2 slices request.receipts)
  previous_rav ← map_err (λ _. bad_previous_rav) (read_previous_v2 slices request.previous_rav)
  ok (receipts, previous_rav)

module _ (alloy : Alloy) (slices : Slices) ⦃receipt_sol : SolStruct Receipt⦄
    ⦃rav_sol : SolStruct ReceiptAggregateVoucher⦄ (signers : SignerRegistry)
    (domain_separator : Eip712Domain) (kafka : Bool) where
  -- What follows the reading: the aggregation, the counters, and the record.
  unfoldable pub answer_request_v2 :
      List SignedReceipt → Option SignedRav → Served → Result RavResponseV2 Status × Served
  answer_request_v2 receipts previous_rav self =
      elim (check_and_aggregate_receipts alloy domain_separator receipts previous_rav signers) [
        | ok res ↦ (
          ok (record { rav = some (write_signed_rav_v2 slices res) }),
          count_success kafka receipts res self,
        )
        | err e ↦ (err (failed_precondition e), count_failure self)
      ]

  unfoldable pub serve_v2 : RavRequestV2 → Served → Result RavResponseV2 Status × Served
  serve_v2 request self = elim (read_request_v2 slices request) [
    | err status ↦ (err status, self)
    | ok (receipts, previous_rav) ↦ answer_request_v2 receipts previous_rav self
  ]
