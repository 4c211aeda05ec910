-- ===== src/Aggregator/Rpc/Outcomes.antt =====
-- What a JSON-RPC request is answered (crates/bin/aggregator/src/server.rs).
use graph_tally.Prelude.{
  ℕ, ◌+◌, ◌%◌, ◌≡◌, ◌≢◌, refl, sym, Bool, List, ◌++◌, if◌then◌else◌, length, Result, Result-cases,
  [], ◌∷◌, Option, none, String, ok, err, Bool-cases, inl, inr,
}
use text.Mathlib.Text.{◌==◌}
use text.Mathlib.TextEquality.{eq_iff}
use graph_tally.Prelude.Words.{u64_mod, add_u64}
use mathlib.Core.Path.{subst}
use graph_tally.Message.{Alloy, SolStruct, Eip712Domain}
use graph_tally.Graph.{Receipt, ReceiptAggregateVoucher, SignedReceipt, SignedRav}
use graph_tally.Aggregator.{Failure, check_and_aggregate_receipts}
use graph_tally.Aggregator.Signers.{SignerRegistry}
use graph_tally.Aggregator.Grpc.Handler.{Served}
use graph_tally.Aggregator.Rpc.{
  JsonRpcResponse, JsonRpcError, count_version, unsupported_version, empty_batch,
  aggregation_failed, parse_api_version, aggregate_batch, warn, check_api_version_deprecation,
  aggregate_receipts_of_version, rpc_aggregate_receipts,
}

parse_other_version :
    (version : String)
    → version ≢ "0.0"
    → parse_api_version version ≡ err (unsupported_version version)
unfolding parse_api_version
parse_other_version version other = elim (Bool-cases (version == "0.0")) [
  | inl same ↦ absurd (other ((eq_iff version "0.0").0 same))
  | inr differs ↦ rw (differs, parse_api_version) refl
]

module _ (alloy : Alloy) ⦃receipt_sol : SolStruct Receipt⦄
    ⦃rav_sol : SolStruct ReceiptAggregateVoucher⦄ (signers : SignerRegistry) (domain : Eip712Domain)
    (kafka : Bool) (previous : Option SignedRav) (self : Served) where
  of_other_version :
      (version : String) (receipts : List SignedReceipt)
      → version ≢ "0.0"
      → aggregate_receipts_of_version alloy signers domain version receipts previous
        ≡ err (unsupported_version version)
  unfolding aggregate_receipts_of_version
  of_other_version version receipts other =
      rw (parse_other_version version other, aggregate_receipts_of_version) refl

  of_batch :
      (r : SignedReceipt) (rs : List SignedReceipt)
      → ((signed : SignedRav)
          → check_and_aggregate_receipts alloy domain (r ∷ rs) previous signers ≡ ok signed
          → aggregate_receipts_of_version alloy signers domain "0.0" (r ∷ rs) previous
            ≡ ok (record { content = signed; warnings = none }))
        × ((e : Failure)
            → check_and_aggregate_receipts alloy domain (r ∷ rs) previous signers ≡ err e
            → aggregate_receipts_of_version alloy signers domain "0.0" (r ∷ rs) previous
              ≡ err (aggregation_failed e))
  unfolding aggregate_receipts_of_version parse_api_version aggregate_batch warn
      check_api_version_deprecation
  of_batch r rs =
      ((λ signed h. rw (h, aggregate_batch) refl), (λ e h. rw (h, aggregate_batch) refl))

  -- Refused: a failure more, this count of version errors, and nothing else.
  abbrev pub refused : ℕ → Served
  refused version_errors = record {
    total_aggregated_receipts = self.total_aggregated_receipts;
    aggregation_success = self.aggregation_success;
    aggregation_failure = (self.aggregation_failure + 1) % u64_mod;
    version_errors = version_errors;
    deprecation_warnings = self.deprecation_warnings;
    kafka_records = self.kafka_records;
  }

  -- Answered with a voucher: a success more, the receipts counted, and with Kafka one record with
  -- the payer, the collection and the value of the voucher.
  abbrev pub answered : List SignedReceipt → SignedRav → Served
  answered receipts signed = record {
    total_aggregated_receipts = (self.total_aggregated_receipts + length receipts) % u64_mod;
    aggregation_success = (self.aggregation_success + 1) % u64_mod;
    aggregation_failure = self.aggregation_failure;
    version_errors = self.version_errors;
    deprecation_warnings = self.deprecation_warnings;
    kafka_records =
        if kafka
        then self.kafka_records
          ++ (signed.message.payer, signed.message.collection_id, signed.message.value_aggregate)
            ∷ []
        else self.kafka_records;
  }

  -- What an answer says about the request, and the counters and records after it. No two of the
  -- cases fit one request.
  abbrev pub IsAnswered :
      String
      → List SignedReceipt
      → Result (JsonRpcResponse SignedRav) JsonRpcError × Served
      → Type 0
  IsAnswered version receipts (ok response, after) =
      (version ≡ "0.0")
      × (receipts ≢ [])
      × (check_and_aggregate_receipts alloy domain receipts previous signers ≡ ok response.content)
      × (response.warnings ≡ none)
      × (after ≡ answered receipts response.content)
  IsAnswered version receipts (err (unsupported_version named), after) =
      (version ≢ "0.0")
      × (named ≡ version)
      × (after ≡ refused ((self.version_errors + 1) % u64_mod))
  IsAnswered version receipts (err empty_batch, after) =
      (version ≡ "0.0") × (receipts ≡ []) × (after ≡ refused self.version_errors)
  IsAnswered version receipts (err (aggregation_failed e), after) =
      (version ≡ "0.0")
      × (receipts ≢ [])
      × (check_and_aggregate_receipts alloy domain receipts previous signers ≡ err e)
      × (after ≡ refused self.version_errors)

  IsAnswered-current :
      (receipts : List SignedReceipt)
      → IsAnswered "0.0" receipts
          (rpc_aggregate_receipts alloy signers domain kafka "0.0" receipts previous self)
  unfolding rpc_aggregate_receipts aggregate_receipts_of_version parse_api_version aggregate_batch
      count_version check_api_version_deprecation warn
  IsAnswered-current [] = (refl, refl, refl)
  IsAnswered-current (r ∷ rs) =
      elim (Result-cases (check_and_aggregate_receipts alloy domain (r ∷ rs) previous signers)) [
        | inl (signed, h) ↦
            rw ((of_batch r rs).0 signed h, rpc_aggregate_receipts)
              (refl, (λ e. absurd (cc e)), h, refl, refl)
        | inr (e, h) ↦
            rw ((of_batch r rs).1 e h, rpc_aggregate_receipts) (refl, (λ k. absurd (cc k)), h, refl)
      ]

  IsAnswered-other :
      (version : String) (receipts : List SignedReceipt)
      → version ≢ "0.0"
      → IsAnswered version receipts
          (rpc_aggregate_receipts alloy signers domain kafka version receipts previous self)
  unfolding rpc_aggregate_receipts count_version
  IsAnswered-other version receipts other =
      rw (of_other_version version receipts other, rpc_aggregate_receipts, count_other_version)
        (other, refl, refl)
    where
      count_other_version :
          count_version version self
          ≡ record self { version_errors = add_u64 self.version_errors 1 }
      count_other_version = rw (count_version, parse_other_version version other) refl

  -- However a request is answered, the answer tells what the request was and what was counted. A
  -- voucher is the one that the aggregation of a batch of version 0.0 with receipts signs, without
  -- warnings; its receipts and the success are counted, and with Kafka one record is produced. An
  -- error is that of another version, of an empty batch, or of the aggregation; it is counted as a
  -- failure, another version as a version error too, and nothing else changes.
  pub rpc_aggregate_receipts-outcome :
      (version : String) (receipts : List SignedReceipt)
      → IsAnswered version receipts
          (rpc_aggregate_receipts alloy signers domain kafka version receipts previous self)
  rpc_aggregate_receipts-outcome version receipts = elim (Bool-cases (version == "0.0")) [
    | inr differs ↦
        IsAnswered-other version receipts (λ same. cc (differs, (eq_iff version "0.0").1 same))
    | inl same ↦
        subst
          (λ v.
            IsAnswered v receipts
              (rpc_aggregate_receipts alloy signers domain kafka v receipts previous self))
          (sym ((eq_iff version "0.0").0 same)) (IsAnswered-current receipts)
  ]
