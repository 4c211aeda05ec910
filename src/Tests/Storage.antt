-- ===== src/Tests/Storage.antt =====
-- The in-memory context and the manager's storage, on a concrete context.
use graph_tally.Prelude.{
  ℕ, ◌≡◌, refl, ◌&&◌, Bool, [], ◌∷◌, none, some, ok, err, arith, ltb, count_if,
}
use graph_tally.Receipt.{checking, signed_value}
use graph_tally.Graph.{SignedReceipt, ReceiptAggregateVoucher, receipt_value, rav_value}
use graph_tally.Core.Adapters.Truncate.{safe_truncate_receipts}
use graph_tally.Core.Adapters.Truncate.Cutoff.{ts, safe_truncate-cutoff}
use graph_tally.Core.Memory.{
  update_last_rav, InMemoryContext, Stored, new_context, no_receipt, store_receipt,
  retrieve_receipt_by_id, memory_rav_store, memory_rav_read, memory_receipt_store,
  memory_receipt_delete, memory_signature_checker,
}
use graph_tally.Core.Memory.Receipts.{
  IsWellFormed, IsReachable, empty, step, after, store, update_rav, IsReachable-IsWellFormed,
}
use graph_tally.Core.Memory.Obsolete.{remove_obsolete_receipts-retrieve}
use graph_tally.Core.Requests.{Manager}
use graph_tally.Core.Manager.{remove_obsolete_receipts}
use graph_tally.Core.Vouchers.{rav_partial_eq}
use graph_tally.Tests.Base.{rav_sol, domain, first_receipt, third_receipt, first_rav}
use graph_tally.Tests.Sort.{sort, sort-IsSorted, sort-SameCounts}

abbrev as_stored : SignedReceipt → Stored
as_stored r = record { receipt = r; state = checking }

abbrev start : InMemoryContext
start = new_context none [] ((9, 100) ∷ []) (record { min_timestamp_ns = 0 })

abbrev with_first : InMemoryContext
with_first = after (store (as_stored first_receipt)) start

abbrev with_third : InMemoryContext
with_third = after (store (as_stored third_receipt)) with_first

abbrev with_rav : InMemoryContext
with_rav = after (update_rav first_rav) with_third

reach_first : IsReachable with_first
unfolding store_receipt
reach_first =
    step start (store (as_stored first_receipt)) (omega arith)
      (empty ((9, 100) ∷ []) (record { min_timestamp_ns = 0 }))

reach_third : IsReachable with_third
unfolding store_receipt
reach_third = step with_first (store (as_stored third_receipt)) (omega arith) reach_first

reach_rav : IsReachable with_rav
unfolding store_receipt
reach_rav = step with_third (update_rav first_rav) (omega arith) reach_third

IsReachable-IsWellFormed_example : IsWellFormed with_rav
IsReachable-IsWellFormed_example = IsReachable-IsWellFormed with_rav reach_rav

abbrev manager : Manager Unit SignedReceipt
manager = record { checks = []; domain_separator = domain }

has_rav : with_rav.rav_storage ≡ some first_rav
unfolding update_last_rav
has_rav = refl

found_old : retrieve_receipt_by_id 0 with_rav ≡ ok (as_stored first_receipt)
unfolding retrieve_receipt_by_id update_last_rav store_receipt
found_old = refl

remove_obsolete_receipts-retrieve_example :
    retrieve_receipt_by_id 0 (remove_obsolete_receipts ReceiptAggregateVoucher manager with_rav).1
    ≡ err no_receipt
remove_obsolete_receipts-retrieve_example =
    ((remove_obsolete_receipts-retrieve manager with_rav reach_rav).1 first_rav has_rav).1 0
      (as_stored first_receipt) found_old

safe_truncate-cutoff_example :
    (cutoff : ℕ) × ((p : Stored → Bool)
      → count_if p
          (safe_truncate_receipts sort (as_stored third_receipt ∷ as_stored first_receipt ∷ []) 1)
        ≡ count_if
            (λ r. ltb (ts r) cutoff && p r)
            (as_stored third_receipt ∷ as_stored first_receipt ∷ []))
safe_truncate-cutoff_example =
    safe_truncate-cutoff sort sort-IsSorted sort-SameCounts
      (as_stored third_receipt ∷ as_stored first_receipt ∷ []) 1
