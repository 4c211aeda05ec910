-- ===== src/Tests/Served.antt =====
-- Requests to the servers, on the receipts of the tests.
use graph_tally.Prelude.{ℕ, ◌≡◌, refl, true, [], ◌∷◌, Option, none, some, ok, arith}
use graph_tally.Prelude.Words.{add_u64}
use graph_tally.Aggregator.{check_and_aggregate_receipts}
use graph_tally.Message.{Bytes}
use graph_tally.Aggregator.Grpc.{Slices, ReadsBack, RavResponseMessage, new_request, signed_rav}
use graph_tally.Aggregator.Grpc.Handler.{Served, serve}
use graph_tally.Aggregator.Grpc.Handler.Client.{serve-new_request}
use graph_tally.Aggregator.Rpc.{rpc_aggregate_receipts}
use graph_tally.Aggregator.Rpc.Outcomes.{IsAnswered, rpc_aggregate_receipts-outcome}
use graph_tally.Tests.Base.{
  toy, receipt_sol, rav_sol, domain, registry, first_receipt, second_receipt, first_rav,
}

abbrev pub one_byte : ℕ → Bytes
one_byte n = n ∷ []

abbrev pub of_one_byte : Bytes → Option ℕ
of_one_byte [] = none
of_one_byte (n ∷ []) = some n
of_one_byte (n ∷ m ∷ rest) = none

abbrev pub slices : Slices
slices = record {
  address_bytes = one_byte;
  address_of = of_one_byte;
  word_bytes = one_byte;
  word_of = of_one_byte;
  signature_bytes = one_byte;
  signature_of_bytes = of_one_byte;
}

back : ReadsBack slices
back = record { address_back = λ a. refl; word_back = λ w. refl; signature_back = λ s. refl }

abbrev pub served : Served
served = record {
  total_aggregated_receipts = 0;
  aggregation_success = 0;
  aggregation_failure = 0;
  version_errors = 0;
  deprecation_warnings = 0;
  kafka_records = [];
}

aggregates :
    check_and_aggregate_receipts toy domain (first_receipt ∷ second_receipt ∷ []) none registry
    ≡ ok first_rav
unfolding check_and_aggregate_receipts graph_tally.Aggregator.check_signatures_unique
    graph_tally.Message.get_signature_bytes graph_tally.Aggregator.Signers.resolve
    graph_tally.Aggregator.check_signature_is_from_one_of_addresses
    graph_tally.Message.recover_signer graph_tally.Aggregator.check_receipt_timestamps
    graph_tally.Aggregator.check_collection_id graph_tally.Aggregator.check_previous_id
    graph_tally.Graph.aggregate_receipts graph_tally.Graph.aggregate_loop
    graph_tally.Message.new_signed
aggregates = refl

serve-new_request_example :
    (response : RavResponseMessage) × (after : Served) × (serve toy slices registry domain true
        (new_request slices (first_receipt ∷ second_receipt ∷ []) none)
        served
      ≡ (ok response, after))
    × (signed_rav slices response ≡ ok first_rav)
    × (after.total_aggregated_receipts ≡ add_u64 0 2)
    × (after.kafka_records ≡ (7, 3, 30) ∷ [])
serve-new_request_example =
    (serve-new_request slices back toy registry domain true (first_receipt ∷ second_receipt ∷ [])
        none served (omega arith, (omega arith, tt)) tt).0
      first_rav aggregates (omega arith)

-- Two receipts that the registry aggregates.
rpc_aggregate_receipts-outcome_example :
    IsAnswered toy registry domain true none served "0.0" (first_receipt ∷ second_receipt ∷ []) (
      rpc_aggregate_receipts toy registry domain true "0.0"
        (first_receipt ∷ second_receipt ∷ [])
        none
        served)
rpc_aggregate_receipts-outcome_example =
    rpc_aggregate_receipts-outcome toy registry domain true none served "0.0"
      (first_receipt ∷ second_receipt ∷ [])
