-- ===== src/Core/Manager.antt =====
-- The manager's methods that change the storage (crates/core/src/manager/core.rs:
-- verify_and_store_rav, remove_obsolete_receipts, verify_and_store_receipt).
pub mod Storage
use graph_tally.Prelude.{
  ℕ, Bool, true, false, not, List, Option, none, some, Result, ok, err, map_err, if◌then◌else◌, leb,
  guard,
}
use graph_tally.Message.{Alloy, SolStruct, Eip712Domain, Eip712SignedMessage}
use graph_tally.Receipt.{WithValueAndTimestamp, ReceiptCheck, new_receipt, perform_checks}
use graph_tally.Core.{Error}
use graph_tally.Core.Exec.{Exec, pure, reads, or_else, ◌>>=◌, ◌>>◌}
use graph_tally.Core.Adapters.{
  RavStore, RavRead, ReceiptStore, ReceiptDelete, SignatureChecker, check_signature,
}
use graph_tally.Core.Requests.{Manager, get_previous_rav}

-- `PartialEq` of the voucher.
pub record PartialEq (A : Type 0) : Type 0 where
  pub eq : A → A → Bool

unfoldable pub verify_and_store_rav :
    Alloy
    → {S Ctx Rcpt Rav : Type 0} ⦃store : RavStore S Rav⦄ ⦃checker : SignatureChecker S⦄
    → ⦃sol : SolStruct Rav⦄ ⦃e : PartialEq Rav⦄ → Manager Ctx Rcpt
    → Rav
    → Eip712SignedMessage Rav
    → Exec S Error Unit
verify_and_store_rav alloy ⦃store⦄ ⦃e = e⦄ manager expected_rav signed_rav = do
  reads (check_signature alloy signed_rav manager.domain_separator)
  reads (λ _. guard (e.eq signed_rav.message expected_rav) Error.invalid_received_rav)
  or_else Error.adapter_error (store.update_last_rav signed_rav)

unfoldable pub remove_obsolete_receipts :
    (Rav : Type 0) {S Ctx Rcpt : Type 0} ⦃rav_read : RavRead S Rav⦄
    ⦃receipt_delete : ReceiptDelete S⦄
    → ⦃w : WithValueAndTimestamp Rav⦄ → Manager Ctx Rcpt
    → Exec S Error Unit
remove_obsolete_receipts Rav ⦃rav_read⦄ ⦃receipt_delete⦄ ⦃w⦄ manager = do
  previous ← reads get_previous_rav
  elim previous [
    | none ↦ pure tt
    | some last_rav ↦ or_else Error.adapter_error (
        receipt_delete.remove_receipts_in_timestamp_range
          (λ t. leb t (w.timestamp_ns last_rav.message)))
  ]

unfoldable pub verify_and_store_receipt :
    {S Ctx Rcpt : Type 0} ⦃store : ReceiptStore S Rcpt⦄
    → Manager Ctx Rcpt
    → Ctx
    → Rcpt
    → Exec S Error Unit
verify_and_store_receipt ⦃store⦄ manager ctx signed_receipt = do
  let received_receipt = new_receipt signed_receipt
  reads (λ _. map_err Error.receipt_error (perform_checks ctx manager.checks received_receipt))
  or_else Error.adapter_error (store.store_receipt received_receipt)
  pure tt
