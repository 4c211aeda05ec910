-- ===== src/Core/Requests/Collect.antt =====
-- What a request collects (crates/core/src/manager/core.rs: the loop of collect_receipts).
use graph_tally.Prelude.{
  ◌≡◌, ap, ◌∙◌, Bool, true, false, not, List, [], ◌∷◌, ◌++◌, map, Result, ok, err, map_err,
  map_err-eq-ok, >>=-eq-ok, retain, arith, Bool-cases, inl, inr, if◌then◌else◌,
}
use mathlib.Core.List.{append_assoc, append-nil}
use graph_tally.Receipt.{
  ReceiptError, Checking, Checked, Failed, ReceiptWithState, ReceiptCheck, ReceiptResult,
  perform_checks, perform_state_error, perform_state_changes, finalize, finalize_receipt_checks,
  retryable_check,
}
use graph_tally.Core.{Error}
use graph_tally.Core.Requests.{Sorted, push, finalize_all}

-- The state that the checks put a receipt in, and whether they all pass.
abbrev pub is_ok : ReceiptResult Unit → Bool
is_ok (ok _) = true
is_ok (err _) = false

abbrev pub error_or : ReceiptResult Unit → ReceiptError
error_or (ok _) = ReceiptError.non_unique_receipt
error_or (err e) = e

module _ {Ctx Rcpt : Type 0} (ctx : Ctx) (checks : List (ReceiptCheck Ctx Rcpt)) where
  abbrev pub passes : ReceiptWithState Checking Rcpt → Bool
  passes r = is_ok (perform_checks ctx checks r)

  abbrev pub as_checked : ReceiptWithState Checking Rcpt → ReceiptWithState Checked Rcpt
  as_checked r = record { receipt = r.receipt; state = Checked.checked }

  abbrev pub as_failed : ReceiptWithState Checking Rcpt → ReceiptWithState Failed Rcpt
  as_failed r = record {
    receipt = r.receipt;
    state = record { error = error_or (perform_checks ctx checks r) };
  }

  abbrev pub sorted_as : Sorted Rcpt → List (ReceiptWithState Checking Rcpt) → Sorted Rcpt
  sorted_as acc rs = (
    acc.0 ++ map as_checked (retain passes rs),
    acc.1 ++ map as_failed (retain (λ r. not (passes r)) rs),
  )

  -- One receipt goes to the vector that its checks choose.
  push-finalize_of :
      (r : ReceiptWithState Checking Rcpt) (acc : Sorted Rcpt) (result : ReceiptResult Unit)
      (outcome : Result (ReceiptWithState Checked Rcpt) (ReceiptWithState Failed Rcpt))
      → finalize r result ≡ ok outcome
      → push acc outcome ≡ (
        acc.0 ++ (if is_ok result then as_checked r ∷ [] else []),
        acc.1
            ++ (if is_ok result
                then []
                else record { receipt = r.receipt; state = record { error = error_or result } }
                  ∷ []),
      )
  unfolding finalize perform_state_error perform_state_changes
  push-finalize_of r (xs, ys) (err (retryable_check e)) outcome h = absurd (cc h)
  push-finalize_of r (xs, ys) (ok tt) outcome h = ground (arith, append-nil ys)
  push-finalize_of r (xs, ys) (err e) outcome h = ground (arith, append-nil xs)

  sorted_as-cons :
      (r : ReceiptWithState Checking Rcpt) (acc : Sorted Rcpt)
      (rs : List (ReceiptWithState Checking Rcpt))
      → sorted_as
          (
            acc.0 ++ (if passes r then as_checked r ∷ [] else []),
            acc.1 ++ (if passes r then [] else as_failed r ∷ []),
          )
          rs
        ≡ sorted_as acc (r ∷ rs)
  sorted_as-cons r (xs, ys) rs = elim (Bool-cases (passes r)) [
    | inl h ↦ rw h (simp (append_assoc, append-nil))
    | inr h ↦ rw h (simp (append_assoc, append-nil))
  ]

  -- The loop sorts the receipts by their checks, in order, when none has to be retried.
  pub finalize_all-split :
      (acc : Sorted Rcpt) (rs : List (ReceiptWithState Checking Rcpt)) (out : Sorted Rcpt)
      → finalize_all ctx checks acc rs ≡ ok out
      → out ≡ sorted_as acc rs
  unfolding finalize_all finalize_receipt_checks
  finalize_all-split (xs, ys) [] out h = ground (arith, append-nil xs, append-nil ys)
  finalize_all-split (xs, ys) (r ∷ rs) out h =
      let (outcome, e, rest) =
        >>=-eq-ok
          (map_err (λ x. Error.receipt_error (ReceiptError.retryable_check x))
            (finalize r (perform_checks ctx checks r)))
          (λ o. finalize_all ctx checks (push (xs, ys) o) rs) h in
      finalize_all-split (push (xs, ys) outcome) rs out rest
      ∙ ap (λ acc. sorted_as acc rs)
          (push-finalize_of r (xs, ys) (perform_checks ctx checks r) outcome (map_err-eq-ok _ _ e))
      ∙ sorted_as-cons r (xs, ys) rs
