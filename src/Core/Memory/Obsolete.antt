-- ===== src/Core/Memory/Obsolete.antt =====
-- The manager over the in-memory context: the receipts that a stored voucher covers go
-- (crates/core/src/manager/core.rs, crates/core/src/manager/context/memory.rs).
use graph_tally.Prelude.{
  ℕ, ◌≡◌, ◌<◌, ◌↔◌, refl, not, none, some, ok, err, leb, if◌then◌else◌, arith,
}
use graph_tally.Prelude.Maps.{lookup-retain}
use graph_tally.Receipt.{signed_value}
use graph_tally.Receipt.Checks.{check_min_timestamp, update_min_timestamp_ns}
use graph_tally.Graph.{SignedReceipt, SignedRav, ReceiptAggregateVoucher, rav_value, receipt_value}
use graph_tally.Core.Memory.{
  InMemoryContext, Stored, no_receipt, retrieve_receipt_by_id, update_last_rav, last_rav,
  remove_receipts_in_timestamp_range, memory_rav_read, memory_receipt_delete,
}
use graph_tally.Core.Memory.Receipts.{IsWellFormed, IsReachable, IsReachable-IsWellFormed}
use graph_tally.Core.Requests.{Manager, get_previous_rav}
use graph_tally.Core.Manager.{remove_obsolete_receipts}

module _ {Ctx : Type 0} (manager : Manager Ctx SignedReceipt) (s : InMemoryContext) where
  -- In a reachable context, removing the obsolete receipts succeeds. Without a voucher nothing
  -- changes; with one, a stored receipt is gone exactly when it is at or before the voucher's
  -- timestamp, and is otherwise found under its id as before.
  pub remove_obsolete_receipts-retrieve :
      IsReachable s
      → ((s.rav_storage ≡ none
            → remove_obsolete_receipts ReceiptAggregateVoucher manager s ≡ (ok tt, s))
          × ((rav : SignedRav)
              → s.rav_storage ≡ some rav
              → ((remove_obsolete_receipts ReceiptAggregateVoucher manager s).0 ≡ ok tt)
                × ((id : ℕ) (r : Stored)
                    → retrieve_receipt_by_id id s ≡ ok r
                    → retrieve_receipt_by_id id
                        (remove_obsolete_receipts ReceiptAggregateVoucher manager s).1
                      ≡ (if leb r.receipt.message.timestamp_ns rav.message.timestamp_ns
                          then err no_receipt
                          else ok r))))
  unfolding remove_obsolete_receipts get_previous_rav last_rav remove_receipts_in_timestamp_range
      retrieve_receipt_by_id
  remove_obsolete_receipts-retrieve reach = (
    (λ h. ground (arith, h)),
    (λ rav h. (
      ground (arith, h),
      (λ id r found. ground (
        arith,
        h,
        lookup-retain (λ e. not (leb e.1.receipt.message.timestamp_ns rav.message.timestamp_ns)) id
            r s.receipt_storage (IsWellFormed.unique (IsReachable-IsWellFormed s reach)),
      )),
    )),
  )

-- After a voucher is stored, the timestamp check of the context passes exactly the receipts that
-- are later than the voucher, and the voucher is the one to go on from.
pub update_last_rav-check :
    (rav : SignedRav) (s : InMemoryContext) (r : Stored)
    → (last_rav (update_last_rav rav s).1 ≡ ok (some rav))
      × ((check_min_timestamp (update_last_rav rav s).1.timestamp_check r ≡ ok tt)
          ↔ (rav.message.timestamp_ns < r.receipt.message.timestamp_ns))
unfolding update_last_rav last_rav check_min_timestamp update_min_timestamp_ns
update_last_rav-check rav s r = (refl, ((λ h. ground arith), (λ h. ground arith)))
