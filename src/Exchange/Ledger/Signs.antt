-- ===== src/Exchange/Ledger/Signs.antt =====
-- A response of the server carries what the aggregator signed
-- (crates/bin/aggregator/src/server.rs: aggregate_receipts_).
use graph_tally.Prelude.{◌≡◌, ap, List, [], ◌∷◌, Option, String, ok, arith, Result-cases, inl, inr}
use graph_tally.Message.{Alloy, SolStruct, Eip712Domain}
use graph_tally.Receipt.{signed_value}
use graph_tally.Graph.{
  Receipt, ReceiptAggregateVoucher, SignedReceipt, SignedRav, receipt_value, rav_value,
}
use graph_tally.Core.Memory.{memory_rav_read, memory_rav_store, memory_signature_checker}
use graph_tally.Core.Vouchers.{graph_aggregate, rav_partial_eq}
use graph_tally.Aggregator.{check_and_aggregate_receipts}
use graph_tally.Aggregator.Signers.{SignerRegistry}
use graph_tally.Aggregator.Rpc.{
  JsonRpcResponse, JsonRpcWarning, parse_api_version, aggregate_batch, warn, warnings_of,
  aggregate_receipts_of_version,
}

module _ (alloy : Alloy) ⦃receipt_sol : SolStruct Receipt⦄
    ⦃rav_sol : SolStruct ReceiptAggregateVoucher⦄ (signers : SignerRegistry) (domain : Eip712Domain)
    (previous : Option SignedRav) (response : JsonRpcResponse SignedRav) where
  aggregate_batch-signs :
      (warnings : List JsonRpcWarning) (rs : List SignedReceipt)
      → aggregate_batch alloy signers domain warnings rs previous ≡ ok response
      → check_and_aggregate_receipts alloy domain rs previous signers ≡ ok response.content
  unfolding aggregate_batch warn
  aggregate_batch-signs warnings [] h = absurd (cc h)
  aggregate_batch-signs warnings (r ∷ rs) h =
      elim (Result-cases (check_and_aggregate_receipts alloy domain (r ∷ rs) previous signers)) [
        | inl (signed, e) ↦
            rw e (ap ok (of_warn warnings signed (ground (arith, rw (e, aggregate_batch) at h))))
        | inr (f, e) ↦ absurd (cc (rw (e, aggregate_batch) at h))
      ]
    where
      of_warn :
          (ws : List JsonRpcWarning) (signed : SignedRav)
          → warn signed ws ≡ response
          → signed ≡ response.content
      of_warn [] signed k = ground arith
      of_warn (w ∷ ws) signed k = ground arith

  -- A response carries what the aggregator signed.
  pub aggregate_receipts_of_version-signs :
      (version : String) (rs : List SignedReceipt)
      → aggregate_receipts_of_version alloy signers domain version rs previous ≡ ok response
      → check_and_aggregate_receipts alloy domain rs previous signers ≡ ok response.content
  unfolding aggregate_receipts_of_version
  aggregate_receipts_of_version-signs version rs h =
      elim (Result-cases (parse_api_version version)) [
        | inl (v, e) ↦
            aggregate_batch-signs (warnings_of v) rs (rw (e, aggregate_receipts_of_version) at h)
        | inr (f, e) ↦ absurd (cc (rw (e, aggregate_receipts_of_version) at h))
      ]
