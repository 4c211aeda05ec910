-- ===== src/Core/Manager/Storage.antt =====
-- What the manager's methods do to the storage (crates/core/src/manager/core.rs).
use graph_tally.Prelude.{ℕ, ◌≡◌, ◌∙◌, true, false, Result, ok, err, guard, arith}
use graph_tally.Message.{Alloy, SolStruct, Eip712SignedMessage}
use graph_tally.Receipt.{Anyhow, ReceiptError, new_receipt, perform_checks}
use graph_tally.Core.{Error}
use graph_tally.Core.Exec.{Exec, reads, or_else, reads_ok, reads_err, ◌>>◌}
use graph_tally.Core.Adapters.{RavStore, ReceiptStore, SignatureChecker, check_signature}
use graph_tally.Core.Requests.{Manager}
use graph_tally.Core.Manager.{PartialEq, verify_and_store_rav, verify_and_store_receipt}

module _ (alloy : Alloy) {S Ctx Rcpt Rav : Type 0} ⦃store : RavStore S Rav⦄
    ⦃checker : SignatureChecker S⦄ ⦃sol : SolStruct Rav⦄ ⦃e : PartialEq Rav⦄
    (manager : Manager Ctx Rcpt) (expected : Rav) (signed : Eip712SignedMessage Rav) (s : S) where
  same_message : Exec S Error Unit
  same_message = reads (λ _. guard (e.eq signed.message expected) Error.invalid_received_rav)

  stored : Exec S Error Unit
  stored = or_else Error.adapter_error (store.update_last_rav signed)

  -- A voucher reaches the storage exactly when its signature is accepted and it is the expected
  -- one; the first test that fails gives the error, and then the storage is as before.
  pub verify_and_store_rav-outcome :
      ((x : Error)
        → check_signature alloy signed manager.domain_separator s ≡ err x
        → verify_and_store_rav alloy manager expected signed s ≡ (err x, s))
      × (check_signature alloy signed manager.domain_separator s ≡ ok tt
          → (e.eq signed.message expected ≡ false
              → verify_and_store_rav alloy manager expected signed s
                ≡ (err Error.invalid_received_rav, s))
            × (e.eq signed.message expected ≡ true
                → verify_and_store_rav alloy manager expected signed s
                  ≡ or_else Error.adapter_error (store.update_last_rav signed) s))
  unfolding verify_and_store_rav same_message stored
  verify_and_store_rav-outcome = (
    (λ x h. reads_err signature (λ _. same_message >> stored) s x h),
    (λ h. (
      (λ differ.
          reads_ok signature (λ _. same_message >> stored) s tt h
          ∙ reads_err same (λ _. stored) s Error.invalid_received_rav (rw differ)),
      (λ same_rav.
          reads_ok signature (λ _. same_message >> stored) s tt h
          ∙ reads_ok same (λ _. stored) s tt (rw same_rav)),
    )),
  )
    where
      signature : S → Result (Unit {0}) Error
      signature = check_signature alloy signed manager.domain_separator

      same : S → Result (Unit {0}) Error
      same _ = guard (e.eq signed.message expected) Error.invalid_received_rav

module _ {S Ctx Rcpt : Type 0} ⦃receipt_store : ReceiptStore S Rcpt⦄ (manager : Manager Ctx Rcpt)
    (ctx : Ctx) (receipt : Rcpt) (s : S) where
  -- A receipt whose checks fail is refused with the error of the first check that fails, and nothing
  -- is stored; one that passes all checks is handed to the storage, whose error is passed on with
  -- what it has written.
  pub verify_and_store_receipt-outcome :
      ((x : ReceiptError)
        → perform_checks ctx manager.checks (new_receipt receipt) ≡ err x
        → verify_and_store_receipt manager ctx receipt s ≡ (err (Error.receipt_error x), s))
      × (perform_checks ctx manager.checks (new_receipt receipt) ≡ ok tt
          → ((verify_and_store_receipt manager ctx receipt s).1
              ≡ (receipt_store.store_receipt (new_receipt receipt) s).1)
            × ((id : ℕ)
                → (receipt_store.store_receipt (new_receipt receipt) s).0 ≡ ok id
                → (verify_and_store_receipt manager ctx receipt s).0 ≡ ok tt)
            × ((x : Anyhow)
                → (receipt_store.store_receipt (new_receipt receipt) s).0 ≡ err x
                → (verify_and_store_receipt manager ctx receipt s).0 ≡ err (Error.adapter_error x)))
  unfolding verify_and_store_receipt
  verify_and_store_receipt-outcome = (
    (λ x h. ground (arith, h)),
    (λ h. (ground (arith, h), (λ id e. ground (arith, h, e)), (λ x e. ground (arith, h, e)))),
  )
