-- ===== src/Exchange/Ledger/Run.antt =====
-- The ledger of a run (crates/core/src/manager/core.rs and memory.rs with
-- crates/bin/aggregator/src/aggregator.rs).
use graph_tally.Prelude.{
  ℕ, ◌≡◌, refl, sym, ap, ◌∙◌, List, Option, Result, ok, arith, Bool-cases, Result-cases,
  Option-cases, inl, inr,
}
use mathlib.Core.Path.{subst}
use graph_tally.Message.{Alloy, SolStruct}
use graph_tally.Receipt.{signed_value, signed_unique_id, new_receipt, perform_checks}
use graph_tally.Graph.{
  Receipt, ReceiptAggregateVoucher, SignedReceipt, SignedRav, receipt_value, rav_value,
}
use graph_tally.Core.{RavRequest}
use graph_tally.Core.Adapters.{check_signature}
use graph_tally.Core.Memory.{
  InMemoryContext, Stored, memory_rav_read, memory_rav_store, memory_receipt_store,
  memory_receipt_read, memory_receipt_delete, memory_signature_checker, last_rav, update_last_rav,
  store_receipt, remove_receipts_in_timestamp_range,
}
use graph_tally.Core.Requests.{Manager, get_previous_rav}
use graph_tally.Core.Requests.Sound.{create_rav_request-IsSound, IsSound}
use graph_tally.Core.Manager.{
  verify_and_store_rav, verify_and_store_receipt, remove_obsolete_receipts,
}
use graph_tally.Core.Manager.Storage.{verify_and_store_rav-outcome}
use graph_tally.Core.Vouchers.{graph_aggregate, rav_partial_eq, rav_eq}
use graph_tally.Aggregator.Signers.{SignerRegistry}
use graph_tally.Aggregator.Agreement.{sent}
use graph_tally.Exchange.{Settled, Run, begin, receive, settle, clean}
use graph_tally.Exchange.Ledger.{IsLedger, check_and_aggregate-IsAdded, add-IsLedger}

module _ (alloy : Alloy) {Ctx : Type 0} (manager : Manager Ctx SignedReceipt) where
  -- A voucher that is stored is the one to go on from, and the receipts stay.
  pub verify_and_store_rav-stores :
      ⦃rav_sol : SolStruct ReceiptAggregateVoucher⦄ (expected : ReceiptAggregateVoucher)
      (signed : SignedRav) (s after : InMemoryContext)
      → verify_and_store_rav alloy manager expected signed s ≡ (ok tt, after)
      → after ≡ (update_last_rav signed s).1
  unfolding update_last_rav
  verify_and_store_rav-stores expected signed s after h =
      let outcome = verify_and_store_rav-outcome alloy manager expected signed s in
      elim (Result-cases (check_signature alloy signed manager.domain_separator s)) [
        | inr (e, bad) ↦ cc (outcome.0 e bad, h)
        | inl (u, good) ↦ elim (Bool-cases (rav_eq signed.message expected)) [
          | inl same ↦ cc ((outcome.1 good).1 same, h)
          | inr differ ↦ cc ((outcome.1 good).0 differ, h)
        ]
      ]

  pub receive-rav_storage :
      (ctx : Ctx) (receipt : SignedReceipt) (s : InMemoryContext)
      → (verify_and_store_receipt manager ctx receipt s).1.rav_storage ≡ s.rav_storage
  unfolding verify_and_store_receipt store_receipt
  receive-rav_storage ctx receipt s =
      elim (Result-cases (perform_checks ctx manager.checks (new_receipt receipt))) [
        | inl (u, h) ↦ rw h
        | inr (e, h) ↦ rw h
      ]

  pub clean-rav_storage :
      (s : InMemoryContext)
      → (remove_obsolete_receipts ReceiptAggregateVoucher manager s).1.rav_storage ≡ s.rav_storage
  unfolding remove_obsolete_receipts get_previous_rav last_rav remove_receipts_in_timestamp_range
  clean-rav_storage s = elim (Option-cases s.rav_storage) [
    | inl h ↦ ground (arith, h)
    | inr (rav, h) ↦ ground (arith, h)
  ]

module _ (alloy : Alloy) ⦃receipt_sol : SolStruct Receipt⦄
    ⦃rav_sol : SolStruct ReceiptAggregateVoucher⦄ (sort : List Stored → List Stored) {Ctx : Type 0}
    (manager : Manager Ctx SignedReceipt) (ctx : Ctx) (signers : SignerRegistry) where
  -- A request goes on from the stored voucher.
  pub Settled-previous :
      (clock : Result ℕ (Unit {0})) (buffer : ℕ) (limit : Option ℕ)
      (request : RavRequest SignedReceipt ReceiptAggregateVoucher) (signed : SignedRav)
      (s after : InMemoryContext)
      → Settled alloy sort manager ctx signers clock buffer limit request signed s after
      → request.previous_rav ≡ s.rav_storage
  unfolding last_rav
  Settled-previous clock buffer limit request signed s after t =
      let sound =
        create_rav_request-IsSound ⦃receipt_read = memory_receipt_read sort⦄
          ⦃u = signed_unique_id alloy⦄ manager ctx clock buffer limit s request
          (Settled.requested t) in
      cc (IsSound.from_last sound)

  -- Along every run the stored voucher, if there is one, carries exactly the sum of the values of
  -- the receipts that went into vouchers. None of them is later than the voucher, and none went in
  -- twice: of each timestamp and signature there is at most one.
  pub Run-IsLedger :
      {ledger : List SignedReceipt} {s : InMemoryContext}
      → Run alloy sort manager ctx signers ledger s
      → IsLedger alloy ledger s.rav_storage
  unfolding update_last_rav
  Run-IsLedger (begin h) =
      rw h (record { value = refl; covered = tt; once = λ t id. omega arith; fresh = λ e. refl })
  Run-IsLedger {ledger} (receive {s = s} run receipt same) =
      subst (IsLedger alloy ledger)
        (sym (receive-rav_storage alloy manager ctx receipt s) ∙ ap (λ c. c.rav_storage) same)
        (Run-IsLedger run)
  Run-IsLedger {ledger} (clean {s = s} run same) =
      subst (IsLedger alloy ledger)
        (sym (clean-rav_storage alloy manager s) ∙ ap (λ c. c.rav_storage) same) (Run-IsLedger run)
  Run-IsLedger
        (settle {ledger = ledger} {s = s} {after = after} run clock buffer limit request signed t
          same) =
      rw
        (
          ← same,
          verify_and_store_rav-stores alloy manager (Settled.expected t) signed s after
              (Settled.stores t),
        )
        (add-IsLedger alloy (sent request.valid_receipts) signed ledger s.rav_storage
          (Run-IsLedger run)
          (rw (← Settled-previous clock buffer limit request signed s after t) (
            check_and_aggregate-IsAdded alloy manager.domain_separator request.previous_rav signers
              signed (sent request.valid_receipts) (Settled.signs t))))
