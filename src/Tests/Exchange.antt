-- ===== src/Tests/Exchange.antt =====
-- Rounds on the context of the requests.
use graph_tally.Prelude.{
  Bool, ◌&&◌, some, count_if, ◌+◌, ◌≤◌, ◌≡◌, refl, [], ◌∷◌, none, ok, length, All, arith,
}
use graph_tally.Receipt.{signed_value, signed_unique_id}
use graph_tally.Core.{RavRequest}
use graph_tally.Aggregator.{check_and_aggregate_receipts}
use graph_tally.Aggregator.Agreement.{sent}
use graph_tally.Core.Memory.Retrieve.{stored}
use graph_tally.Graph.{ReceiptAggregateVoucher, SignedReceipt, SignedRav, receipt_value, rav_value}
use graph_tally.Core.Memory.{
  InMemoryContext, memory_rav_read, memory_rav_store, memory_receipt_read, memory_receipt_delete,
  memory_signature_checker, update_last_rav,
}
use graph_tally.Core.Manager.{verify_and_store_rav, remove_obsolete_receipts}
use graph_tally.Core.Vouchers.{graph_aggregate, rav_partial_eq}
use graph_tally.Exchange.{make_request, request_rav, Settled, Run, begin, settle}
use graph_tally.Exchange.Ledger.{IsLedger}
use graph_tally.Exchange.Ledger.Run.{Run-IsLedger}
use graph_tally.Exchange.Ledger.Answered.{KeepsBooks, request_rav-IsLedger}
use graph_tally.Exchange.Progress.{stop, again, Rounds-bounded}
use graph_tally.Exchange.Progress.Drained.{in_round, request_rav-drained}
use graph_tally.Tests.Base.{
  toy, receipt_sol, rav_sol, registry, first_receipt, second_receipt, voucher, first_rav,
}
use graph_tally.Tests.Sort.{sort, sort-IsSorted, sort-SameCounts}
use graph_tally.Tests.Requests.{context, manager, request, signs}

made : make_request toy sort manager tt registry (ok 17) 10 none (context none) ≡ ok request
unfolding graph_tally.Core.Requests.create_rav_request graph_tally.Core.Requests.get_previous_rav
    graph_tally.Core.Memory.last_rav graph_tally.Core.Requests.collect_receipts
    graph_tally.Core.get_current_timestamp_u64_ns
    graph_tally.Core.Memory.retrieve_receipts_in_timestamp_range
    graph_tally.Receipt.Checks.timestamp_check_batch graph_tally.Receipt.Checks.unique_check_batch
    graph_tally.Message.get_signature_bytes graph_tally.Receipt.finalize_receipt_checks
    graph_tally.Receipt.perform_state_changes graph_tally.Graph.aggregate_checked
    graph_tally.Graph.aggregate_loop
made = refl

after : InMemoryContext
unfolding update_last_rav
after = (update_last_rav first_rav (context none)).1

stores : verify_and_store_rav toy manager (voucher 6 30) first_rav (context none) ≡ (ok tt, after)
unfolding verify_and_store_rav after graph_tally.Core.Adapters.check_signature
    graph_tally.Message.recover_signer graph_tally.Core.Memory.verify_signer
    graph_tally.Core.Vouchers.rav_eq
stores = refl

settled :
    Settled toy sort manager tt registry (ok 17) 10 none request first_rav (context none) after
settled = record { requested = made; signs = signs; expected = voucher 6 30; stores = stores }

Run-IsLedger_example : IsLedger toy (first_receipt ∷ second_receipt ∷ []) after.rav_storage
Run-IsLedger_example =
    Run-IsLedger toy sort manager tt registry
      (settle (begin refl) (ok 17) 10 none request first_rav settled refl)

request_rav-IsLedger_example :
    KeepsBooks toy sort manager tt registry []
      (context none)
      (begin refl)
      (ok 17)
      10
      2
      (request_rav toy sort manager tt registry (ok 17) 10 "0.0" 2 (context none))
request_rav-IsLedger_example =
    request_rav-IsLedger toy sort manager tt registry [] (context none) (begin refl) (ok 17) 10
      "0.0" 2

cleaned : InMemoryContext
cleaned = (remove_obsolete_receipts ReceiptAggregateVoucher manager after).1

Rounds-bounded_example : 1 + length cleaned.receipt_storage ≤ 3
unfolding cleaned
Rounds-bounded_example =
    Rounds-bounded toy sort sort-IsSorted sort-SameCounts manager tt registry
      (again (ok 17) 10 none request first_rav settled refl (stop refl) (omega arith))

succeeds :
    request_rav toy sort manager tt registry (ok 17) 10 "0.0" 2 (context none) ≡ (ok tt, after)
unfolding after request_rav graph_tally.Exchange.submit graph_tally.Exchange.conclude
    graph_tally.Core.Requests.create_rav_request graph_tally.Core.Requests.get_previous_rav
    graph_tally.Core.Memory.last_rav graph_tally.Core.Requests.collect_receipts
    graph_tally.Core.get_current_timestamp_u64_ns
    graph_tally.Core.Memory.retrieve_receipts_in_timestamp_range
    graph_tally.Receipt.Checks.timestamp_check_batch graph_tally.Receipt.Checks.unique_check_batch
    graph_tally.Message.get_signature_bytes graph_tally.Receipt.finalize_receipt_checks
    graph_tally.Receipt.perform_state_changes graph_tally.Graph.aggregate_checked
    graph_tally.Graph.aggregate_loop graph_tally.Aggregator.Rpc.aggregate_receipts_of_version
    graph_tally.Aggregator.Rpc.parse_api_version graph_tally.Aggregator.Rpc.aggregate_batch
    graph_tally.Aggregator.Rpc.warn graph_tally.Aggregator.Rpc.check_api_version_deprecation
    graph_tally.Aggregator.check_and_aggregate_receipts
    graph_tally.Aggregator.check_signatures_unique graph_tally.Aggregator.Signers.resolve
    graph_tally.Aggregator.check_signature_is_from_one_of_addresses
    graph_tally.Message.recover_signer graph_tally.Aggregator.check_receipt_timestamps
    graph_tally.Aggregator.check_collection_id graph_tally.Aggregator.check_previous_id
    graph_tally.Graph.aggregate_receipts graph_tally.Message.new_signed verify_and_store_rav
    graph_tally.Core.Adapters.check_signature graph_tally.Core.Memory.verify_signer
    graph_tally.Core.Vouchers.rav_eq update_last_rav
succeeds = refl

request_rav-drained_example :
    (asked : RavRequest SignedReceipt ReceiptAggregateVoucher) × (signed : SignedRav)
    × (check_and_aggregate_receipts toy manager.domain_separator
          (sent asked.valid_receipts)
          none
          registry
        ≡ ok signed)
    × (after.rav_storage ≡ some signed)
    × ((p : SignedReceipt → Bool)
        → count_if p (sent asked.valid_receipts)
          ≡ count_if (λ r. in_round none 7 r && p r.receipt) (stored (context none)))
    × All (λ e. 7 ≤ e.1.receipt.message.timestamp_ns) cleaned.receipt_storage
unfolding cleaned
request_rav-drained_example =
    request_rav-drained toy sort sort-IsSorted sort-SameCounts manager tt registry 17 10
      (context none) (omega arith) (omega arith) "0.0" 2 after succeeds
