-- ===== src/Core.antt =====
-- The core crate (crates/core/src): its errors (error.rs), the clock and the domain (lib.rs), and
-- the request for a voucher (rav_request.rs). The adapters, the in-memory context and the manager
-- are the modules below.
pub mod Exec
pub mod Adapters
pub mod Memory
pub mod Requests
pub mod Manager
pub mod Vouchers
use graph_tally.Prelude.{ℕ, ◌%◌, List, Option, Result, ok, err, map_err, ◌>>=◌}
use graph_tally.Prelude.Words.{u64_mod}
use graph_tally.Message.{Address, FixedBytes, Eip712Domain, Eip712Error, Eip712SignedMessage}
use graph_tally.Receipt.{ReceiptError, Anyhow, AggregationError, Checked, Failed, ReceiptWithState}

-- Texts that only print a value are left out: the two vouchers of `invalid_received_rav`.
pub data Error : Type 0 where
  aggregate_overflow : Error
  invalid_system_time : Error
  wallet_error : Error
  signature_error : Eip712Error → Error
  -- expected, received
  verification_failed : Address → Address → Error
  invalid_received_rav : Error
  adapter_error : Anyhow → Error
  no_valid_receipts_for_rav_request : Error
  -- the previous id, the new id
  rav_collection_id_mismatch : FixedBytes → FixedBytes → Error
  rav_collection_id_not_uniform : Error
  duplicate_receipt_signature : ℕ → Error
  -- the voucher's timestamp, the receipt's
  receipt_timestamp_lower_than_rav : ℕ → ℕ → Error
  -- the minimum, the maximum
  timestamp_range_error : ℕ → ℕ → Error
  receipt_error : ReceiptError → Error
  invalid_recovered_signer : Address → Error
  failed_to_verify_signer : Anyhow → Error

-- The clock's answer, nanoseconds since the epoch or a failure, is an argument.
unfoldable pub get_current_timestamp_u64_ns : Result ℕ (Unit {0}) → Result ℕ Error
get_current_timestamp_u64_ns clock = do
  now ← map_err (λ _. Error.invalid_system_time) clock
  ok (now % u64_mod)

abbrev pub graph_tally_eip712_domain : ℕ → Address → Eip712Domain
graph_tally_eip712_domain chain_id verifying_contract_address = record {
  name = "GraphTallyCollector";
  version = "1";
  chain_id = chain_id;
  verifying_contract = verifying_contract_address;
}

pub record RavRequest (Rcpt Rav : Type 0) : Type 0 where
  pub valid_receipts : List (ReceiptWithState Checked Rcpt)
  pub previous_rav : Option (Eip712SignedMessage Rav)
  pub invalid_receipts : List (ReceiptWithState Failed Rcpt)
  pub expected_rav : Result Rav AggregationError
