-- ===== src/Aggregator.antt =====
-- The aggregator (crates/bin/aggregator/src/aggregator.rs): the checks of a batch and the signed
-- voucher that it yields.
pub mod Signers
pub mod Check
pub mod Agreement
pub mod Grpc
pub mod Rpc
pub mod Kafka
pub mod Startup
use graph_tally.Prelude.{
  ℕ, Bool, true, false, not, ◌||◌, List, [], ◌∷◌, Option, none, some, Result, ok, err, ok_or,
  map_err, ◌>>=◌, ◌>>◌, guard, if◌then◌else◌, contains, leb, ◌==◌, first,
}
use graph_tally.Message.{
  Alloy, Address, FixedBytes, SolStruct, Eip712Domain, Eip712Error, Eip712SignedMessage,
  recover_signer, new_signed, get_signature_bytes,
}
use graph_tally.Receipt.{AggregationError}
use graph_tally.Graph.{
  Receipt, ReceiptAggregateVoucher, SignedReceipt, SignedRav, aggregate_receipts,
}
use graph_tally.Core.{Error}
use graph_tally.Aggregator.Signers.{SignerRegistry, resolve}

-- The `anyhow` errors of the aggregator, by what they were made from.
pub data Failure : Type 0 where
  core : Error → Failure
  message : Eip712Error → Failure
  aggregation : AggregationError → Failure
  no_signing_key : Address → Failure

-- `FixedBytes` and `Address` are compared by `!=`, with an early return.
abbrev pub differs : ℕ → ℕ → Error → Result (Unit {0}) Failure
differs a b e = guard (a == b) (core e)

-- The set of signatures seen so far.
pub unique_signatures : Alloy → List ℕ → List SignedReceipt → Result (Unit {0}) Failure
unique_signatures alloy seen [] = ok tt
unique_signatures alloy seen (receipt ∷ receipts) =
    let signature = get_signature_bytes alloy receipt.signature in
    guard (not (contains seen signature)) (core (Error.duplicate_receipt_signature signature))
    >> unique_signatures alloy (signature ∷ seen) receipts

unfoldable pub check_signatures_unique : Alloy → List SignedReceipt → Result (Unit {0}) Failure
unfolding unique_signatures
check_signatures_unique alloy receipts = unique_signatures alloy [] receipts

-- The loop under a previous voucher with the timestamp `rav_ts`.
pub timestamps_after : ℕ → List SignedReceipt → Result (Unit {0}) Failure
timestamps_after rav_ts [] = ok tt
timestamps_after rav_ts (receipt ∷ receipts) =
    guard (not (leb receipt.message.timestamp_ns rav_ts))
      (core (Error.receipt_timestamp_lower_than_rav rav_ts receipt.message.timestamp_ns))
    >> timestamps_after rav_ts receipts

unfoldable pub check_receipt_timestamps :
    List SignedReceipt → Option SignedRav → Result (Unit {0}) Failure
unfolding timestamps_after
check_receipt_timestamps receipts none = ok tt
check_receipt_timestamps receipts (some previous_rav) =
    timestamps_after previous_rav.message.timestamp_ns receipts

unfoldable pub check_collection_id :
    List SignedReceipt → FixedBytes → Address → Address → Address → Result (Unit {0}) Failure
check_collection_id [] collection_id payer data_service service_provider = ok tt
check_collection_id (receipt ∷ receipts) collection_id payer data_service service_provider =
    let m = receipt.message in
    differs m.collection_id collection_id Error.rav_collection_id_not_uniform
    >> (differs m.payer payer Error.rav_collection_id_not_uniform
        >> (differs m.data_service data_service Error.rav_collection_id_not_uniform
            >> (differs m.service_provider service_provider Error.rav_collection_id_not_uniform
                >> check_collection_id receipts collection_id payer data_service service_provider)))

-- The previous voucher must be for the identifiers of the receipts; all four tests report the
-- collection ids.
unfoldable pub check_previous_id :
    Option SignedRav → FixedBytes → Address → Address → Address → Result (Unit {0}) Failure
check_previous_id none collection_id payer data_service service_provider = ok tt
check_previous_id (some previous_rav) collection_id payer data_service service_provider =
    let m = previous_rav.message in
    let mismatch = Error.rav_collection_id_mismatch m.collection_id collection_id in
    differs m.collection_id collection_id mismatch
    >> (differs m.payer payer mismatch
        >> (differs m.data_service data_service mismatch
            >> differs m.service_provider service_provider mismatch))

module _ (alloy : Alloy) where
  unfoldable pub check_signature_is_from_one_of_addresses :
      {M : Type 0} ⦃sol : SolStruct M⦄
      → Eip712SignedMessage M
      → Eip712Domain
      → List Address
      → Result (Unit {0}) Failure
  check_signature_is_from_one_of_addresses signed domain_separator accepted_addresses = do
    recovered_address ← map_err message (recover_signer alloy signed domain_separator)
    guard (contains accepted_addresses recovered_address)
        (core (Error.invalid_recovered_signer recovered_address))

module _ (alloy : Alloy) ⦃receipt_sol : SolStruct Receipt⦄
    ⦃rav_sol : SolStruct ReceiptAggregateVoucher⦄ where
  -- `try_for_each` in order; the source runs it in parallel, so of several bad signatures it may
  -- report another one.
  pub check_all_signatures :
      List SignedReceipt → Eip712Domain → List Address → Result (Unit {0}) Failure
  check_all_signatures [] domain_separator accepted_addresses = ok tt
  check_all_signatures (receipt ∷ receipts) domain_separator accepted_addresses =
      check_signature_is_from_one_of_addresses alloy receipt domain_separator accepted_addresses
      >> check_all_signatures receipts domain_separator accepted_addresses

  pub check_previous_signature :
      Option SignedRav → Eip712Domain → List Address → Result (Unit {0}) Failure
  check_previous_signature none domain_separator accepted_addresses = ok tt
  check_previous_signature (some previous_rav) domain_separator accepted_addresses =
      check_signature_is_from_one_of_addresses alloy previous_rav domain_separator
        accepted_addresses

  unfoldable pub check_and_aggregate_receipts :
      Eip712Domain
      → List SignedReceipt
      → Option SignedRav
      → SignerRegistry
      → Result SignedRav Failure
  unfolding check_all_signatures check_previous_signature
  check_and_aggregate_receipts domain_separator receipts previous_rav signers = do
    check_signatures_unique alloy receipts
    head ← ok_or (first receipts) (core Error.no_valid_receipts_for_rav_request)
    let m = head.message
    keys ← ok_or (resolve signers m.payer) (no_signing_key m.payer)
    check_all_signatures receipts domain_separator keys.1
    check_previous_signature previous_rav domain_separator keys.1
    check_receipt_timestamps receipts previous_rav
    check_collection_id receipts m.collection_id m.payer m.data_service m.service_provider
    check_previous_id previous_rav m.collection_id m.payer m.data_service m.service_provider
    rav ← map_err aggregation (
        aggregate_receipts m.collection_id m.payer m.data_service m.service_provider receipts
          previous_rav)
    map_err message (new_signed alloy domain_separator rav keys.0)
