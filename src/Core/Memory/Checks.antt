-- ===== src/Core/Memory/Checks.antt =====
-- The checks that come with the in-memory context (crates/core/src/manager/context/memory.rs:
-- the module checks).
use graph_tally.Prelude.{
  ◌≡◌, ◌↔◌, true, List, [], ◌∷◌, String, ok, map_err, map_err-eq-ok, ◌>>=◌, >>=-eq-ok, guard,
  guard-true, contains, All, arith,
}
use graph_tally.Message.{
  Alloy, Address, FixedBytes, SolStruct, Eip712Domain, Eip712Error, recover_signer,
}
use graph_tally.Receipt.{
  ReceiptError, Anyhow, CheckError, ReceiptCheck, Checking, Checked, ReceiptWithState,
  finalize_receipt_checks,
}
use graph_tally.Receipt.Finalize.{finalize_receipt_checks_iff}
use graph_tally.Graph.{Receipt, SignedReceipt}

unfoldable pub collection_id_check :
    {Ctx : Type 0} → List FixedBytes → ReceiptCheck Ctx SignedReceipt
collection_id_check collection_ids ctx receipt =
    let received_collection_id = receipt.receipt.message.collection_id in
    guard (contains collection_ids received_collection_id) (
      CheckError.failed
        (Anyhow.receipt_error (ReceiptError.invalid_collection_id received_collection_id)))

-- `to_string` is what the error displays as.
module _ (alloy : Alloy) (to_string : Eip712Error → String) ⦃sol : SolStruct Receipt⦄ where
  unfoldable pub signature_check :
      {Ctx : Type 0} → Eip712Domain → List Address → ReceiptCheck Ctx SignedReceipt
  signature_check domain_separator valid_signers ctx receipt = do
    recovered_address ←
        map_err
          (λ e.
            CheckError.failed
              (Anyhow.receipt_error (ReceiptError.invalid_signature (Anyhow.msg (to_string e)))))
          (recover_signer alloy receipt.receipt domain_separator)
    guard (contains valid_signers recovered_address) (
        CheckError.failed
          (Anyhow.receipt_error (ReceiptError.invalid_signature (Anyhow.msg "Invalid signer"))))

  abbrev pub get_full_list_of_checks :
      {Ctx : Type 0}
      → Eip712Domain
      → List Address
      → List FixedBytes
      → List (ReceiptCheck Ctx SignedReceipt)
  get_full_list_of_checks domain_separator valid_signers collection_ids =
      collection_id_check collection_ids ∷ signature_check domain_separator valid_signers ∷ []

  module _ {Ctx : Type 0} (ctx : Ctx) (domain : Eip712Domain) (signers : List Address)
      (ids : List FixedBytes) (r : ReceiptWithState Checking SignedReceipt) where
    -- A receipt is good for the context when its collection is known and a valid signer signed it.
    abbrev pub IsKnown : Type 0
    IsKnown =
        (contains ids r.receipt.message.collection_id ≡ true)
        × ((signer : Address) × (recover_signer alloy r.receipt domain ≡ ok signer)
            × (contains signers signer ≡ true))

    known-from :
        All (λ check. check ctx r ≡ ok tt) (get_full_list_of_checks domain signers ids) → IsKnown
    unfolding collection_id_check signature_check
    known-from h =
        let (signer, e, g) =
          >>=-eq-ok (map_err _ (recover_signer alloy r.receipt domain)) _ h.1.0 in
        (guard-true _ _ h.0, (signer, map_err-eq-ok _ _ e, guard-true _ _ g))

    known-to :
        IsKnown → All (λ check. check ctx r ≡ ok tt) (get_full_list_of_checks domain signers ids)
    unfolding collection_id_check signature_check
    known-to h = (rw h.0, (ground (arith, h.1.1, h.1.2), tt))

    -- With the full list of checks, a receipt is checked exactly when its collection id is one of
    -- the given ones and its signature recovers to one of the valid signers.
    pub get_full_list_of_checks_iff :
        (c : ReceiptWithState Checked SignedReceipt)
        → (finalize_receipt_checks ctx (get_full_list_of_checks domain signers ids) r ≡ ok (ok c))
          ↔ ((c.receipt ≡ r.receipt) × IsKnown)
    get_full_list_of_checks_iff c =
        let (from, to) =
          finalize_receipt_checks_iff ctx (get_full_list_of_checks domain signers ids) r c in
        ((λ h. ((from h).0, known-from (from h).1)), (λ h. to (h.0, known-to h.1)))
