-- ===== src/Receipt.antt =====
-- Receipts with their state (crates/receipt/src: lib.rs, error.rs, state.rs, received_receipt.rs,
-- rav.rs). The checks stand in the module Checks below.
pub mod Checks
pub mod Finalize
use graph_tally.Prelude.{ℕ, String, List, [], ◌∷◌, Option, Result, ok, err, map_err, ◌>>◌}
use graph_tally.Message.{Alloy, FixedBytes, SolStruct, Eip712SignedMessage, get_signature_bytes}

-- `anyhow::Error` holds a message or an error of the library. Where the source stores the text
-- that an error displays as, the model stores the error.
mutual
  pub data ReceiptError : Type 0 where
    invalid_collection_id : FixedBytes → ReceiptError
    invalid_signature : Anyhow → ReceiptError
    -- the timestamp received, and the minimum
    invalid_timestamp : ℕ → ℕ → ReceiptError
    invalid_value : ℕ → ReceiptError
    non_unique_receipt : ReceiptError
    subtract_escrow_failed : ReceiptError
    check_failure : Anyhow → ReceiptError
    retryable_check : Anyhow → ReceiptError

  pub data Anyhow : Type 0 where
    msg : String → Anyhow
    receipt_error : ReceiptError → Anyhow

abbrev pub ReceiptResult : Type 0 → Type 0
ReceiptResult A = Result A ReceiptError

-- The traits of a receipt that can be aggregated.
pub record WithValueAndTimestamp (R : Type 0) : Type 0 where
  pub value : R → ℕ
  pub timestamp_ns : R → ℕ

pub record WithUniqueId (R : Type 0) : Type 0 where
  pub unique_id : R → ℕ

-- A signed message has the value and the timestamp of its message.
instance abbrev pub signed_value :
    {T : Type 0} ⦃v : WithValueAndTimestamp T⦄ → WithValueAndTimestamp (Eip712SignedMessage T)
signed_value ⦃v⦄ = record {
  value = λ s. v.value s.message;
  timestamp_ns = λ s. v.timestamp_ns s.message;
}

-- Its identity is its signature alone.
abbrev pub signed_unique_id : Alloy → {T : Type 0} → WithUniqueId (Eip712SignedMessage T)
signed_unique_id alloy = record { unique_id = λ s. get_signature_bytes alloy s.signature }

-- The states of a receipt.
pub data Checking : Type 0 where
  checking : Checking

pub data Checked : Type 0 where
  checked : Checked

pub record Failed : Type 0 where
  pub error : ReceiptError

pub record ReceiptWithState (S Rcpt : Type 0) : Type 0 where
  pub receipt : Rcpt
  pub state : S

pub data CheckError : Type 0 where
  retryable : Anyhow → CheckError
  failed : Anyhow → CheckError

abbrev pub CheckResult : Type 0
CheckResult = Result Unit CheckError

pub data AggregationError : Type 0 where
  aggregate_overflow no_valid_receipts_for_rav_request : AggregationError
  other : Anyhow → AggregationError

-- `ReceiptWithState::new`
unfoldable pub new_receipt : {Rcpt : Type 0} → Rcpt → ReceiptWithState Checking Rcpt
new_receipt receipt = record { receipt = receipt; state = checking }

module _ {S Rcpt : Type 0} where
  unfoldable pub perform_state_error :
      ReceiptWithState S Rcpt → ReceiptError → ReceiptWithState Failed Rcpt
  perform_state_error self error = record {
    receipt = self.receipt;
    state = record { error = error };
  }

  unfoldable pub perform_state_changes :
      {T : Type 0} → ReceiptWithState S Rcpt → T → ReceiptWithState T Rcpt
  perform_state_changes self new_state = record { receipt = self.receipt; state = new_state }

  abbrev pub signed_receipt : ReceiptWithState S Rcpt → Rcpt
  signed_receipt self = self.receipt

-- `impl ReceiptWithState<Failed, Rcpt>`
abbrev pub error_of : {Rcpt : Type 0} → ReceiptWithState Failed Rcpt → ReceiptError
error_of self = self.state.error

-- The conversion of a failed check in `perform_checks`.
unfoldable pub receipt_error_of : CheckError → ReceiptError
receipt_error_of (retryable e) = retryable_check e
receipt_error_of (failed e) = check_failure e

-- A check reads the map that `Context` names (`Ctx` below) and the receipt.
abbrev pub ReceiptCheck : Type 0 → Type 0 → Type 0
ReceiptCheck Ctx Rcpt = Ctx → ReceiptWithState Checking Rcpt → CheckResult

-- The loop ends at the first error.
unfoldable pub perform_checks :
    {Ctx Rcpt : Type 0}
    → Ctx
    → List (ReceiptCheck Ctx Rcpt)
    → ReceiptWithState Checking Rcpt
    → ReceiptResult Unit
perform_checks ctx [] self = ok tt
perform_checks ctx (check ∷ checks) self =
    map_err receipt_error_of (check ctx self) >> perform_checks ctx checks self

-- The branches on what `perform_checks` returned.
unfoldable pub finalize :
    {Rcpt : Type 0}
    → ReceiptWithState Checking Rcpt
    → ReceiptResult Unit
    → Result (Result (ReceiptWithState Checked Rcpt) (ReceiptWithState Failed Rcpt)) Anyhow
finalize self (err (retryable_check e)) = err e
finalize self (ok _) = ok (ok (perform_state_changes self checked))
finalize self (err e) = ok (err (perform_state_error self e))

unfoldable pub finalize_receipt_checks :
    {Ctx Rcpt : Type 0}
    → Ctx
    → List (ReceiptCheck Ctx Rcpt)
    → ReceiptWithState Checking Rcpt
    → Result (Result (ReceiptWithState Checked Rcpt) (ReceiptWithState Failed Rcpt)) Anyhow
unfolding perform_checks finalize
finalize_receipt_checks ctx checks self = finalize self (perform_checks ctx checks self)
