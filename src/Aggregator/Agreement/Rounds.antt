-- ===== src/Aggregator/Agreement/Rounds.antt =====
-- Two rounds of requests (crates/core/src/manager/core.rs with
-- crates/bin/aggregator/src/aggregator.rs and crates/core/src/manager/context/memory.rs).
use graph_tally.Prelude.{
  ℕ, ◌<◌, ◌≤◌, ◌≡◌, List, [], ◌∷◌, map, Option, some, Result, ok, All, All-map, arith,
}
use graph_tally.Message.{Alloy, SolStruct}
use graph_tally.Receipt.{Checked, ReceiptWithState, signed_value, signed_unique_id, signed_receipt}
use graph_tally.Graph.{
  Receipt, ReceiptAggregateVoucher, SignedReceipt, SignedRav, receipt_value, rav_value,
  aggregate_checked,
}
use graph_tally.Graph.Aggregate.{aggregate_receipts-covers}
use graph_tally.Core.{RavRequest}
use graph_tally.Core.Adapters.{RavRead, ReceiptRead}
use graph_tally.Core.Requests.{Manager, create_rav_request}
use graph_tally.Core.Requests.Sound.{create_rav_request-IsSound, IsSound}
use graph_tally.Core.Vouchers.{graph_aggregate}
use graph_tally.Aggregator.{check_and_aggregate_receipts}
use graph_tally.Aggregator.Signers.{SignerRegistry}
use graph_tally.Aggregator.Agreement.{sent, HasNext, aggregate_checked-signed}

All-unmap :
    {A B : Type 0} (P : B → Type 0) (f : A → B) (xs : List A)
    → All P (map f xs)
    → All (λ x. P (f x)) xs
All-unmap P f [] h = tt
All-unmap P f (x ∷ xs) h = (h.0, All-unmap P f xs h.1)

-- No receipt is later than the voucher that it went into.
checked-covers :
    (rs : List (ReceiptWithState Checked SignedReceipt)) (previous : Option SignedRav)
    (rav : ReceiptAggregateVoucher)
    → aggregate_checked rs previous ≡ ok rav
    → All (λ r. r.receipt.message.timestamp_ns ≤ rav.timestamp_ns) rs
unfolding aggregate_checked
checked-covers [] previous rav h = tt
checked-covers (r ∷ rs) previous rav h =
    let m = r.receipt.message in
    All-unmap (λ x. x.message.timestamp_ns ≤ rav.timestamp_ns) signed_receipt (r ∷ rs)
      (aggregate_receipts-covers m.collection_id m.payer m.data_service m.service_provider
        (sent (r ∷ rs)) previous rav h)

module _ (alloy : Alloy) ⦃receipt_sol : SolStruct Receipt⦄
    ⦃rav_sol : SolStruct ReceiptAggregateVoucher⦄ {S Ctx : Type 0}
    ⦃receipt_read : ReceiptRead S SignedReceipt⦄ ⦃rav_read : RavRead S ReceiptAggregateVoucher⦄
    (manager : Manager Ctx SignedReceipt) (ctx : Ctx) (timestamp_buffer_ns : ℕ) (limit : Option ℕ)
    (signers : SignerRegistry) (signed : SignedRav) where
  -- A request, signed by the aggregator, and a later one on top of the signed voucher: every receipt
  -- of the first is at or before the voucher's timestamp and every receipt of the second is after
  -- it, so no receipt is aggregated twice.
  pub create_rav_request-rounds :
      (clock clock₂ : Result ℕ (Unit {0})) (s s₂ : S)
      (request next : RavRequest SignedReceipt ReceiptAggregateVoucher)
      → create_rav_request ⦃u = signed_unique_id alloy⦄ manager ctx clock timestamp_buffer_ns limit
          s
        ≡ ok request
      → check_and_aggregate_receipts alloy manager.domain_separator
          (sent request.valid_receipts)
          request.previous_rav
          signers
        ≡ ok signed
      → rav_read.last_rav s₂ ≡ ok (some signed)
      → HasNext (some signed)
      → create_rav_request ⦃u = signed_unique_id alloy⦄ manager ctx clock₂ timestamp_buffer_ns limit
          s₂
        ≡ ok next
      → All
          (λ r. r.receipt.message.timestamp_ns ≤ signed.message.timestamp_ns)
          request.valid_receipts
        × All
            (λ r. signed.message.timestamp_ns < r.receipt.message.timestamp_ns)
            next.valid_receipts
  create_rav_request-rounds clock clock₂ s s₂ request next made signs last room made₂ =
      let second =
        create_rav_request-IsSound ⦃u = signed_unique_id alloy⦄ manager ctx clock₂
          timestamp_buffer_ns limit s₂ next made₂ in
      let continued : next.previous_rav ≡ some signed = cc (IsSound.from_last second, last) in
      (
        checked-covers request.valid_receipts request.previous_rav signed.message (
            aggregate_checked-signed alloy manager.domain_separator request.valid_receipts
              request.previous_rav signers signed signs),
        All-map (λ r h. omega (arith, h.0, room)) next.valid_receipts
            (rw continued at (IsSound.passed second)),
      )
