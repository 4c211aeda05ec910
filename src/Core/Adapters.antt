-- ===== src/Core/Adapters.antt =====
-- The adapters of the manager's context (crates/core/src/manager/adapters): one record for each
-- trait, over the type `S` of what the context stores. A range of timestamps is given by its
-- `contains`. An adapter's own error is kept as the `anyhow` error that the manager makes of it.
pub mod Truncate
use graph_tally.Prelude.{
  ◌≡◌, ℕ, Bool, true, false, List, Option, Result, ok, err, map_err, ◌>>=◌, if◌then◌else◌,
}
use graph_tally.Message.{
  Alloy, Address, SolStruct, Eip712Domain, Eip712SignedMessage, recover_signer,
}
use graph_tally.Receipt.{Anyhow, Checking, ReceiptWithState}
use graph_tally.Core.{Error}
use graph_tally.Core.Exec.{Exec}

pub record RavStore (S Rav : Type 0) : Type 0 where
  pub update_last_rav : Eip712SignedMessage Rav → Exec S Anyhow Unit

pub record RavRead (S Rav : Type 0) : Type 0 where
  pub last_rav : S → Result (Option (Eip712SignedMessage Rav)) Anyhow

pub record ReceiptStore (S Rcpt : Type 0) : Type 0 where
  pub store_receipt : ReceiptWithState Checking Rcpt → Exec S Anyhow ℕ

pub record ReceiptDelete (S : Type 0) : Type 0 where
  pub remove_receipts_in_timestamp_range : (ℕ → Bool) → Exec S Anyhow Unit

pub record ReceiptRead (S Rcpt : Type 0) : Type 0 where
  pub retrieve_receipts_in_timestamp_range :
      (ℕ → Bool) → Option ℕ → S → Result (List (ReceiptWithState Checking Rcpt)) Anyhow

pub record SignatureChecker (S : Type 0) : Type 0 where
  pub verify_signer : Address → S → Result Bool Anyhow

-- The provided method of `SignatureChecker`.
unfoldable pub check_signature :
    Alloy
    → {S : Type 0} ⦃checker : SignatureChecker S⦄ → {T : Type 0} ⦃sol : SolStruct T⦄
    → Eip712SignedMessage T
    → Eip712Domain
    → S
    → Result (Unit {0}) Error
check_signature alloy ⦃checker⦄ signed_message domain_separator s = do
  recovered_address ←
      map_err Error.signature_error (recover_signer alloy signed_message domain_separator)
  is_valid ← map_err Error.failed_to_verify_signer (checker.verify_signer recovered_address s)
  if is_valid then ok tt else err (Error.invalid_recovered_signer recovered_address)

pub check_signature-accepts :
    (alloy : Alloy) {S : Type 0} ⦃checker : SignatureChecker S⦄ {T : Type 0} ⦃sol : SolStruct T⦄
    (signed_message : Eip712SignedMessage T) (domain_separator : Eip712Domain) (s : S)
    (signer : Address)
    → recover_signer alloy signed_message domain_separator ≡ ok signer
    → checker.verify_signer signer s ≡ ok true
    → check_signature alloy signed_message domain_separator s ≡ ok tt
unfolding check_signature
check_signature-accepts alloy signed_message domain_separator s signer recovers accepted =
    rw (recovers, accepted)
