-- ===== src/Receipt/Finalize.antt =====
-- What a run of the checks decides (`perform_checks` and `finalize_receipt_checks`).
use graph_tally.Prelude.{
  ◌≡◌, ◌↔◌, refl, List, [], ◌∷◌, ◌++◌, Result, ok, err, All, arith, inl, inr, Result-cases,
}
use graph_tally.Receipt.{
  ReceiptError, Anyhow, Checking, Checked, ReceiptWithState, ReceiptCheck, CheckError,
  perform_checks, finalize, perform_state_changes, perform_state_error, finalize_receipt_checks,
  receipt_error_of, check_failure, retryable_check,
}

module _ {Rcpt : Type 0} (r : ReceiptWithState Checking Rcpt) where
  finalize-passed :
      (result : Result Unit ReceiptError) (c : ReceiptWithState Checked Rcpt)
      → finalize r result ≡ ok (ok c)
      → result ≡ ok tt
  unfolding finalize
  finalize-passed (ok tt) c h = refl
  finalize-passed (err (retryable_check e)) c h = absurd (cc h)
  finalize-passed (err e) c h = absurd (ground arith)

  finalize-receipt :
      (result : Result Unit ReceiptError) (c : ReceiptWithState Checked Rcpt)
      → finalize r result ≡ ok (ok c)
      → c.receipt ≡ r.receipt
  unfolding finalize perform_state_changes
  finalize-receipt result c h = ground arith

  finalize-checked :
      (c : ReceiptWithState Checked Rcpt) → c.receipt ≡ r.receipt → finalize r (ok tt) ≡ ok (ok c)
  unfolding finalize perform_state_changes
  finalize-checked c h = ground arith

module _ {Ctx Rcpt : Type 0} (ctx : Ctx) where
  perform_checks-ok :
      (checks : List (ReceiptCheck Ctx Rcpt)) (r : ReceiptWithState Checking Rcpt)
      → All (λ check. check ctx r ≡ ok tt) checks
      → perform_checks ctx checks r ≡ ok tt
  unfolding perform_checks
  perform_checks-ok [] r h = refl
  perform_checks-ok (c ∷ cs) r h = ground (arith, perform_checks-ok cs r h.1)

  perform_checks-All :
      (checks : List (ReceiptCheck Ctx Rcpt)) (r : ReceiptWithState Checking Rcpt)
      → perform_checks ctx checks r ≡ ok tt
      → All (λ check. check ctx r ≡ ok tt) checks
  unfolding perform_checks
  perform_checks-All [] r h = tt
  perform_checks-All (c ∷ cs) r h = elim (Result-cases (c ctx r)) [
    | inl (tt, e) ↦ (e, perform_checks-All cs r (rw e at h))
    | inr (x, e) ↦ absurd (ground arith)
  ]

  -- The checks pass exactly when each of them passes.
  pub perform_checks_iff :
      (checks : List (ReceiptCheck Ctx Rcpt)) (r : ReceiptWithState Checking Rcpt)
      → (perform_checks ctx checks r ≡ ok tt) ↔ All (λ check. check ctx r ≡ ok tt) checks
  perform_checks_iff checks r = (perform_checks-All checks r, perform_checks-ok checks r)

  -- After checks that pass, the first failing check alone decides the error.
  pub perform_checks-first :
      (before : List (ReceiptCheck Ctx Rcpt)) (check : ReceiptCheck Ctx Rcpt)
      (after : List (ReceiptCheck Ctx Rcpt)) (r : ReceiptWithState Checking Rcpt) (e : CheckError)
      → All (λ c. c ctx r ≡ ok tt) before
      → check ctx r ≡ err e
      → perform_checks ctx (before ++ check ∷ after) r ≡ err (receipt_error_of e)
  unfolding perform_checks
  perform_checks-first [] check after r e h f = rw f
  perform_checks-first (c ∷ cs) check after r e h f =
      ground (arith, h.0, perform_checks-first cs check after r e h.1 f)

  -- A receipt becomes checked exactly when every check passes, and it is the receipt that was given.
  pub finalize_receipt_checks_iff :
      (checks : List (ReceiptCheck Ctx Rcpt)) (r : ReceiptWithState Checking Rcpt)
      (c : ReceiptWithState Checked Rcpt)
      → (finalize_receipt_checks ctx checks r ≡ ok (ok c))
        ↔ ((c.receipt ≡ r.receipt) × All (λ check. check ctx r ≡ ok tt) checks)
  unfolding finalize_receipt_checks
  finalize_receipt_checks_iff checks r c = (
    (λ h. (
      finalize-receipt r (perform_checks ctx checks r) c h,
      perform_checks-All checks r (finalize-passed r (perform_checks ctx checks r) c h),
    )),
    (λ h. rw (perform_checks-ok checks r h.1) (finalize-checked r c h.0)),
  )

  -- After checks that pass, a check that fails for good turns the receipt into a failed one with
  -- that error, and one that may be retried stops the whole run with its message.
  pub finalize_receipt_checks-first :
      (before : List (ReceiptCheck Ctx Rcpt)) (check : ReceiptCheck Ctx Rcpt)
      (after : List (ReceiptCheck Ctx Rcpt)) (r : ReceiptWithState Checking Rcpt) (e : Anyhow)
      → All (λ c. c ctx r ≡ ok tt) before
      → (check ctx r ≡ err (CheckError.failed e)
          → finalize_receipt_checks ctx (before ++ check ∷ after) r
            ≡ ok (err (record { receipt = r.receipt; state = record { error = check_failure e } })))
        × (check ctx r ≡ err (CheckError.retryable e)
            → finalize_receipt_checks ctx (before ++ check ∷ after) r ≡ err e)
  unfolding finalize_receipt_checks finalize receipt_error_of perform_state_error
  finalize_receipt_checks-first before check after r e h = (
    (λ f. rw (perform_checks-first before check after r (CheckError.failed e) h f)),
    (λ f. rw (perform_checks-first before check after r (CheckError.retryable e) h f)),
  )
