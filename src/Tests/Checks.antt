-- ===== src/Tests/Checks.antt =====
-- The checks of receipts, on concrete receipts.
use graph_tally.Prelude.{
  ℕ, ◌+◌, ◌≡◌, refl, Bool, true, List, [], ◌∷◌, ◌++◌, ok, err, take, retain, count_if, All, ◌==◌,
  contains, String,
}
use graph_tally.Message.{Eip712Error}
use graph_tally.Receipt.{
  Checking, Checked, Failed, checking, checked, ReceiptWithState, ReceiptCheck, ReceiptError,
  Anyhow, CheckError, check_failure, signed_value, signed_unique_id, finalize_receipt_checks,
  error_of, WithUniqueId,
}
use graph_tally.Receipt.Checks.{unique_check_batch}
use graph_tally.Receipt.Checks.Unique.{id_of, unique_check_batch-first, repeated}
use graph_tally.Receipt.Finalize.{finalize_receipt_checks-first}
use graph_tally.Graph.{SignedReceipt, receipt_value}
use graph_tally.Core.Memory.{Stored}
use graph_tally.Core.Memory.Checks.{
  collection_id_check, signature_check, get_full_list_of_checks, get_full_list_of_checks_iff,
}
use graph_tally.Tests.Base.{toy, receipt_sol, domain, first_receipt, second_receipt}

abbrev as_stored : SignedReceipt → Stored
as_stored r = record { receipt = r; state = checking }

abbrev as_checked : SignedReceipt → ReceiptWithState Checked SignedReceipt
as_checked r = record { receipt = r; state = checked }

instance abbrev by_signature : WithUniqueId SignedReceipt
by_signature = signed_unique_id toy

abbrev shown : Eip712Error → String
shown e = "error"

abbrev full : List (ReceiptCheck Unit SignedReceipt)
full = get_full_list_of_checks toy shown domain (1002 ∷ []) (3 ∷ [])

full_passes :
    finalize_receipt_checks tt full (as_stored first_receipt) ≡ ok (ok (as_checked first_receipt))
unfolding finalize_receipt_checks collection_id_check signature_check
    graph_tally.Message.recover_signer graph_tally.Receipt.perform_state_changes
full_passes = refl

get_full_list_of_checks_iff_example :
    contains (3 ∷ []) (as_stored first_receipt).receipt.message.collection_id ≡ true
get_full_list_of_checks_iff_example =
    ((get_full_list_of_checks_iff toy shown tt domain (1002 ∷ []) (3 ∷ []) (as_stored first_receipt)
        (as_checked first_receipt)).0
      full_passes).1.0

abbrev wrong_collection : Anyhow
wrong_collection = Anyhow.receipt_error (ReceiptError.invalid_collection_id 3)

fails :
    collection_id_check [] tt (as_stored first_receipt) ≡ err (CheckError.failed wrong_collection)
unfolding collection_id_check
fails = refl

passes_signature :
    All
      (λ c. c tt (as_stored first_receipt) ≡ ok tt)
      (signature_check toy shown domain (1002 ∷ []) ∷ [])
unfolding signature_check graph_tally.Message.recover_signer
passes_signature = (refl, tt)

finalize_receipt_checks-first_example :
    finalize_receipt_checks tt
      ((signature_check toy shown domain (1002 ∷ []) ∷ []) ++ collection_id_check [] ∷ [])
      (as_stored first_receipt)
    ≡ ok (
        err (record {
          receipt = first_receipt;
          state = record { error = check_failure wrong_collection };
        }))
finalize_receipt_checks-first_example =
    (finalize_receipt_checks-first tt (signature_check toy shown domain (1002 ∷ []) ∷ [])
        (collection_id_check []) [] (as_stored first_receipt) wrong_collection passes_signature).0
      fails

abbrev batch : List Stored
batch = as_stored first_receipt ∷ as_stored second_receipt ∷ as_stored first_receipt ∷ []

unique_result :
    unique_check_batch batch
    ≡ ok (
      as_stored first_receipt ∷ as_stored second_receipt ∷ [],
      repeated (as_stored first_receipt) ∷ [],
    )
unfolding unique_check_batch graph_tally.Message.get_signature_bytes
unique_result = refl

unique_check_batch-first_example :
    ((i : ℕ)
      → retain (λ r. id_of r == i) (as_stored first_receipt ∷ as_stored second_receipt ∷ [])
        ≡ take 1 (retain (λ r. id_of r == i) batch))
    × ((p : SignedReceipt → Bool)
        → count_if (λ r. p r.receipt) (as_stored first_receipt ∷ as_stored second_receipt ∷ [])
            + count_if (λ r. p r.receipt) (repeated (as_stored first_receipt) ∷ [])
          ≡ count_if (λ r. p r.receipt) batch)
    × All
        (λ r. error_of r ≡ ReceiptError.non_unique_receipt)
        (repeated (as_stored first_receipt) ∷ [])
unique_check_batch-first_example =
    unique_check_batch-first batch (as_stored first_receipt ∷ as_stored second_receipt ∷ [])
      (repeated (as_stored first_receipt) ∷ []) unique_result
