-- ===== src/Receipt/Checks/Timestamp.antt =====
-- `TimestampCheck::check_batch` splits the batch in two (crates/receipt/src/checks.rs).
use graph_tally.Prelude.{
  ℕ, ◌≡◌, Bool, not, List, [], ◌∷◌, ◌++◌, map, ok, leb, retain, Bool-cases, inl, inr,
}
use mathlib.Core.List.{append_assoc, append-nil}
use graph_tally.Receipt.{
  ReceiptError, WithValueAndTimestamp, Checking, Failed, ReceiptWithState, perform_state_error,
}
use graph_tally.Receipt.Checks.{
  CheckBatchResponse, timestamp_step, timestamp_loop, timestamp_check_batch,
}

module _ {Rcpt : Type 0} ⦃v : WithValueAndTimestamp Rcpt⦄ (min : ℕ) where
  -- The test of the source, on a receipt.
  abbrev pub in_time : ReceiptWithState Checking Rcpt → Bool
  in_time r = leb min (v.timestamp_ns r.receipt)

  abbrev pub too_early : ReceiptWithState Checking Rcpt → ReceiptWithState Failed Rcpt
  too_early r =
      perform_state_error r (ReceiptError.invalid_timestamp (v.timestamp_ns r.receipt) min)

  timestamp_loop-split :
      (acc : CheckBatchResponse Rcpt) (rs : List (ReceiptWithState Checking Rcpt))
      → timestamp_loop min acc rs
        ≡ (acc.0 ++ retain in_time rs, acc.1 ++ map too_early (retain (λ r. not (in_time r)) rs))
  unfolding timestamp_loop timestamp_step
  timestamp_loop-split (xs, ys) [] = simp append-nil
  timestamp_loop-split (xs, ys) (r ∷ rs) = elim (Bool-cases (in_time r)) [
    | inl h ↦ rw h (simp (timestamp_loop-split (xs ++ r ∷ [], ys) rs, append_assoc))
    | inr h ↦ rw h (simp (timestamp_loop-split (xs, ys ++ too_early r ∷ []) rs, append_assoc))
  ]

  -- The batch check keeps, in order, the receipts at or after the minimum, and fails the others
  -- with their timestamp and the minimum; it never errs.
  pub timestamp_check_batch-split :
      (rs : List (ReceiptWithState Checking Rcpt))
      → timestamp_check_batch min rs
        ≡ ok (retain in_time rs, map too_early (retain (λ r. not (in_time r)) rs))
  unfolding timestamp_check_batch
  timestamp_check_batch-split rs = rw (timestamp_loop-split ([], []) rs)
