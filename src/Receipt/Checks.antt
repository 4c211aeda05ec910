-- ===== src/Receipt/Checks.antt =====
-- The built-in checks (crates/receipt/src/checks.rs).
pub mod Timestamp
pub mod Unique
use graph_tally.Prelude.{
  ℕ, ◌≡◌, Bool, true, false, List, [], ◌∷◌, ◌++◌, Result, ok, err, contains, leb, if◌then◌else◌,
}
use graph_tally.Message.{Eip712Error}
use graph_tally.Receipt.{
  ReceiptError, Anyhow, WithValueAndTimestamp, WithUniqueId, Checking, Failed, ReceiptWithState,
  CheckError, CheckResult, perform_state_error, signed_receipt,
}

-- `StatefulTimestampCheck`: the value behind its lock.
pub record StatefulTimestampCheck : Type 0 where
  pub min_timestamp_ns : ℕ

unfoldable pub update_min_timestamp_ns : ℕ → StatefulTimestampCheck → StatefulTimestampCheck
update_min_timestamp_ns min self = record self { min_timestamp_ns = min }

unfoldable pub check_min_timestamp :
    {Rcpt : Type 0} ⦃v : WithValueAndTimestamp Rcpt⦄
    → StatefulTimestampCheck
    → ReceiptWithState Checking Rcpt
    → CheckResult
check_min_timestamp ⦃v⦄ self receipt =
    if leb (v.timestamp_ns (signed_receipt receipt)) self.min_timestamp_ns
    then err (
        CheckError.failed (
          Anyhow.receipt_error (
            ReceiptError.invalid_timestamp (v.timestamp_ns (signed_receipt receipt))
              self.min_timestamp_ns)))
    else ok tt

-- The two vectors that a batch check fills.
abbrev pub CheckBatchResponse : Type 0 → Type 0
CheckBatchResponse Rcpt =
    List (ReceiptWithState Checking Rcpt) × List (ReceiptWithState Failed Rcpt)

-- `TimestampCheck(min)`: the loop with its two vectors.
module _ {Rcpt : Type 0} ⦃v : WithValueAndTimestamp Rcpt⦄ (min_timestamp_ns : ℕ) where
  timestamp_step :
      CheckBatchResponse Rcpt → ReceiptWithState Checking Rcpt → CheckBatchResponse Rcpt
  timestamp_step (checking, failed) receipt =
      let receipt_timestamp_ns = v.timestamp_ns (signed_receipt receipt) in
      if leb min_timestamp_ns receipt_timestamp_ns then (checking ++ receipt ∷ [], failed) else (
        checking,
        failed
            ++ perform_state_error receipt
                (ReceiptError.invalid_timestamp receipt_timestamp_ns min_timestamp_ns)
              ∷ [],
      )

  timestamp_loop :
      CheckBatchResponse Rcpt → List (ReceiptWithState Checking Rcpt) → CheckBatchResponse Rcpt
  timestamp_loop acc [] = acc
  timestamp_loop acc (receipt ∷ receipts) = timestamp_loop (timestamp_step acc receipt) receipts

  unfoldable pub timestamp_check_batch :
      List (ReceiptWithState Checking Rcpt) → Result (CheckBatchResponse Rcpt) Eip712Error
  unfolding timestamp_loop timestamp_step
  timestamp_check_batch receipts = ok (timestamp_loop ([], []) receipts)

-- `UniqueCheck`: the set of the identities seen so far, and the two vectors.
module _ {Rcpt : Type 0} ⦃u : WithUniqueId Rcpt⦄ where
  unique_step :
      List ℕ × CheckBatchResponse Rcpt
      → ReceiptWithState Checking Rcpt
      → List ℕ × CheckBatchResponse Rcpt
  unique_step (signatures, (checking, failed)) received_receipt =
      let unique_id = u.unique_id received_receipt.receipt in
      if contains signatures unique_id
      then (
        signatures,
        (
          checking,
          failed ++ perform_state_error received_receipt ReceiptError.non_unique_receipt ∷ [],
        ),
      )
      else (unique_id ∷ signatures, (checking ++ received_receipt ∷ [], failed))

  unique_loop :
      List ℕ × CheckBatchResponse Rcpt
      → List (ReceiptWithState Checking Rcpt)
      → List ℕ × CheckBatchResponse Rcpt
  unique_loop acc [] = acc
  unique_loop acc (receipt ∷ receipts) = unique_loop (unique_step acc receipt) receipts

  unfoldable pub unique_check_batch :
      List (ReceiptWithState Checking Rcpt) → Result (CheckBatchResponse Rcpt) Eip712Error
  unfolding unique_loop unique_step
  unique_check_batch receipts = ok (unique_loop ([], ([], [])) receipts).1
