-- ===== src/Core/Requests.antt =====
-- The manager's request for a voucher (crates/core/src/manager/core.rs: get_previous_rav,
-- collect_receipts, create_rav_request).
pub mod Collect
pub mod Valid
pub mod Sound
use graph_tally.Prelude.{
  ℕ, ◌+◌, Bool, List, [], ◌∷◌, ◌++◌, Option, none, some, Result, ok, err, map_err, ◌>>=◌,
  if◌then◌else◌, leb, ltb, ◌&&◌, map_or,
}
use graph_tally.Prelude.Words.{add_u64, sub_u64}
use graph_tally.Message.{Eip712Domain, Eip712SignedMessage}
use graph_tally.Receipt.{
  ReceiptError, AggregationError, WithValueAndTimestamp, WithUniqueId, Checking, Checked, Failed,
  ReceiptWithState, ReceiptCheck, finalize_receipt_checks,
}
use graph_tally.Receipt.Checks.{timestamp_check_batch, unique_check_batch}
use graph_tally.Core.{Error, RavRequest, get_current_timestamp_u64_ns}
use graph_tally.Core.Adapters.{RavRead, ReceiptRead}

-- `Manager`: the context is the storage `S` with its adapters, which the methods are given.
pub record Manager (Ctx Rcpt : Type 0) : Type 0 where
  pub checks : List (ReceiptCheck Ctx Rcpt)
  pub domain_separator : Eip712Domain

-- The trait `Aggregate` of a voucher.
pub record Aggregate (Rcpt Rav : Type 0) : Type 0 where
  pub aggregate_receipts :
      List (ReceiptWithState Checked Rcpt)
      → Option (Eip712SignedMessage Rav)
      → Result Rav AggregationError

unfoldable pub get_previous_rav :
    {S Rav : Type 0} ⦃rav_read : RavRead S Rav⦄
    → S
    → Result (Option (Eip712SignedMessage Rav)) Error
get_previous_rav ⦃rav_read⦄ s = map_err Error.adapter_error (rav_read.last_rav s)

-- The vectors of checked and of failed receipts.
abbrev pub Sorted : Type 0 → Type 0
Sorted Rcpt = List (ReceiptWithState Checked Rcpt) × List (ReceiptWithState Failed Rcpt)

abbrev push :
    {Rcpt : Type 0}
    → Sorted Rcpt
    → Result (ReceiptWithState Checked Rcpt) (ReceiptWithState Failed Rcpt)
    → Sorted Rcpt
push (checked, failed) (ok receipt) = (checked ++ receipt ∷ [], failed)
push (checked, failed) (err receipt) = (checked, failed ++ receipt ∷ [])

-- The loop of `collect_receipts` over the receipts that are still to be checked.
unfoldable pub finalize_all :
    {Ctx Rcpt : Type 0}
    → Ctx
    → List (ReceiptCheck Ctx Rcpt)
    → Sorted Rcpt
    → List (ReceiptWithState Checking Rcpt)
    → Result (Sorted Rcpt) Error
finalize_all ctx checks acc [] = ok acc
finalize_all ctx checks acc (receipt ∷ receipts) = do
  outcome ←
      map_err (λ e. Error.receipt_error (ReceiptError.retryable_check e))
        (finalize_receipt_checks ctx checks receipt)
  finalize_all ctx checks (push acc outcome) receipts

-- `min..max` of the timestamps: without its end.
abbrev pub timestamp_range : ℕ → ℕ → ℕ → Bool
timestamp_range min max t = leb min t && ltb t max

-- The first timestamp that the previous voucher does not cover.
abbrev pub min_timestamp_after :
    {Rav : Type 0} ⦃w : WithValueAndTimestamp Rav⦄ → Option (Eip712SignedMessage Rav) → ℕ
min_timestamp_after ⦃w⦄ previous_rav =
    map_or previous_rav 0 (λ rav. add_u64 (w.timestamp_ns rav.message) 1)

-- `collect_receipts` from the retrieved receipts on: their timestamps, their uniqueness, and the
-- manager's own checks.
unfoldable pub check_retrieved :
    {Ctx Rcpt : Type 0} ⦃v : WithValueAndTimestamp Rcpt⦄ ⦃u : WithUniqueId Rcpt⦄
    → Manager Ctx Rcpt
    → Ctx
    → ℕ
    → List (ReceiptWithState Checking Rcpt)
    → Result (Sorted Rcpt) Error
unfolding finalize_all
check_retrieved manager ctx min_timestamp_ns retrieved = do
  (in_time, too_early) ←
      map_err Error.signature_error (timestamp_check_batch min_timestamp_ns retrieved)
  (unique, repeated) ← map_err Error.signature_error (unique_check_batch in_time)
  finalize_all ctx manager.checks ([], too_early ++ repeated) unique

module _ {S Ctx Rcpt : Type 0} ⦃receipt_read : ReceiptRead S Rcpt⦄ ⦃v : WithValueAndTimestamp Rcpt⦄
    ⦃u : WithUniqueId Rcpt⦄ where
  unfoldable pub collect_receipts :
      Manager Ctx Rcpt
      → Ctx
      → Result ℕ (Unit {0})
      → ℕ
      → ℕ
      → Option ℕ
      → S
      → Result (Sorted Rcpt) Error
  unfolding check_retrieved
  collect_receipts manager ctx clock timestamp_buffer_ns min_timestamp_ns limit s = do
    now ← get_current_timestamp_u64_ns clock
    let max_timestamp_ns = sub_u64 now timestamp_buffer_ns
    if ltb max_timestamp_ns min_timestamp_ns
        then err (Error.timestamp_range_error min_timestamp_ns max_timestamp_ns)
        else do
          checking_receipts ← map_err Error.adapter_error (
              receipt_read.retrieve_receipts_in_timestamp_range
                (timestamp_range min_timestamp_ns max_timestamp_ns) limit s)
          check_retrieved manager ctx min_timestamp_ns checking_receipts

  unfoldable pub create_rav_request :
      {Rav : Type 0} ⦃rav_read : RavRead S Rav⦄ ⦃w : WithValueAndTimestamp Rav⦄
      ⦃a : Aggregate Rcpt Rav⦄
      → Manager Ctx Rcpt
      → Ctx
      → Result ℕ (Unit {0})
      → ℕ
      → Option ℕ
      → S
      → Result (RavRequest Rcpt Rav) Error
  create_rav_request ⦃a = a⦄ manager ctx clock timestamp_buffer_ns receipts_limit s = do
    previous_rav ← get_previous_rav s
    let min_timestamp_ns = min_timestamp_after previous_rav
    (valid_receipts, invalid_receipts) ←
        collect_receipts manager ctx clock timestamp_buffer_ns min_timestamp_ns receipts_limit s
    ok (record {
      valid_receipts = valid_receipts;
      previous_rav = previous_rav;
      invalid_receipts = invalid_receipts;
      expected_rav = a.aggregate_receipts valid_receipts previous_rav;
    })
