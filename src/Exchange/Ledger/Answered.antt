-- ===== src/Exchange/Ledger/Answered.antt =====
-- What `request_rav` leaves behind, whatever it returns
-- (crates/integration_tests/tests/indexer_mock.rs).
use graph_tally.Prelude.{
  ℕ, ◌≡◌, ◌≢◌, ◌⊎◌, refl, ap, ◌∙◌, List, [], ◌++◌, none, some, String, Result, ok, length,
  length-map, inl, inr,
}
use graph_tally.Message.{Alloy, SolStruct}
use graph_tally.Receipt.{signed_value, signed_receipt}
use graph_tally.Graph.{
  Receipt, ReceiptAggregateVoucher, SignedReceipt, SignedRav, receipt_value, rav_value,
}
use graph_tally.Core.{RavRequest}
use graph_tally.Core.Memory.{
  InMemoryContext, Stored, memory_rav_read, memory_rav_store, memory_signature_checker,
  update_last_rav,
}
use graph_tally.Core.Requests.{Manager}
use graph_tally.Core.Vouchers.{graph_aggregate, rav_partial_eq}
use graph_tally.Aggregator.{check_and_aggregate_receipts}
use graph_tally.Aggregator.Signers.{SignerRegistry}
use graph_tally.Aggregator.Agreement.{sent}
use graph_tally.Exchange.{RoundError, make_request, request_rav, Settled, Run, settle}
use graph_tally.Exchange.Ledger.{IsLedger}
use graph_tally.Exchange.Ledger.Run.{Run-IsLedger, verify_and_store_rav-stores}
use graph_tally.Exchange.Ledger.Concluded.{request_rav-Answered}

pub stored_rav :
    (signed : SignedRav) (s : InMemoryContext)
    → (update_last_rav signed s).1.rav_storage ≡ some signed
unfolding update_last_rav
stored_rav signed s = refl

module _ (alloy : Alloy) ⦃receipt_sol : SolStruct Receipt⦄
    ⦃rav_sol : SolStruct ReceiptAggregateVoucher⦄ (sort : List Stored → List Stored) {Ctx : Type 0}
    (manager : Manager Ctx SignedReceipt) (ctx : Ctx) (signers : SignerRegistry)
    (ledger : List SignedReceipt) (s : InMemoryContext)
    (run : Run alloy sort manager ctx signers ledger s) where
  -- What a round in a run leads to: it fails and leaves the context and its books alone, or the
  -- receipts that its request sent are, on top of those so far, what the voucher that the
  -- aggregator signed for them carries.
  abbrev pub KeepsBooks :
      Result ℕ (Unit {0}) → ℕ → ℕ → Result (Unit {0}) RoundError × InMemoryContext → Type 0
  KeepsBooks clock buffer threshold round =
      ((round.1 ≡ s) × (round.0 ≢ ok tt) × IsLedger alloy ledger round.1.rav_storage)
      ⊎ ((request : RavRequest SignedReceipt ReceiptAggregateVoucher) × (signed : SignedRav)
          × (make_request alloy sort manager ctx signers clock buffer none s ≡ ok request)
          × (check_and_aggregate_receipts alloy manager.domain_separator
                (sent request.valid_receipts) request.previous_rav signers
              ≡ ok signed)
          × (round.1.rav_storage ≡ some signed)
          × IsLedger alloy (sent request.valid_receipts ++ ledger) (some signed)
          × (round.0 ≡ ok tt
              → (length (sent request.valid_receipts) ≡ threshold)
                × (request.invalid_receipts ≡ [])))

  -- In a run, whatever `request_rav` returns, it keeps the books. Either it fails and nothing has
  -- changed, or the context stores the voucher that the aggregator signed for the receipts of the
  -- request: it carries the sum of those receipts and of all that went into vouchers before, none of
  -- them twice. When the round succeeds the request had as many receipts as the threshold, and none
  -- that were invalid.
  pub request_rav-IsLedger :
      (clock : Result ℕ (Unit {0})) (buffer : ℕ) (version : String) (threshold : ℕ)
      → KeepsBooks clock buffer threshold
          (request_rav alloy sort manager ctx signers clock buffer version threshold s)
  request_rav-IsLedger clock buffer version threshold =
      elim (request_rav-Answered alloy sort manager ctx signers clock buffer version threshold s) [
        | inl (same, fails) ↦
            inl (same, fails, rw same (Run-IsLedger alloy sort manager ctx signers run))
        | inr (request, signed, t, full) ↦
            let stores =
              verify_and_store_rav-stores alloy manager (Settled.expected t) signed s _
                (Settled.stores t) in
            let voucher =
              ap (λ (c : InMemoryContext). c.rav_storage) stores ∙ stored_rav signed s in
            inr (
              request,
              signed,
              Settled.requested t,
              Settled.signs t,
              voucher,
              rw (← voucher) (
                  Run-IsLedger alloy sort manager ctx signers
                    (settle run clock buffer none request signed t refl)),
              (λ h. (length-map signed_receipt request.valid_receipts ∙ (full h).0, (full h).1)),
            )
      ]
