-- ===== src/Tests/Requests.antt =====
-- Requests over the in-memory context, on a concrete context.
use graph_tally.Prelude.{◌≡◌, refl, true, [], ◌∷◌, Option, none, some, ok, arith}
use graph_tally.Message.{recover_signer}
use graph_tally.Receipt.{
  Checking, Checked, checking, checked, ReceiptWithState, signed_value, signed_unique_id,
  ReceiptCheck,
}
use graph_tally.Receipt.Checks.{StatefulTimestampCheck}
use graph_tally.Graph.{
  Receipt, ReceiptAggregateVoucher, SignedReceipt, SignedRav, receipt_value, rav_value,
}
use graph_tally.Core.{Error, RavRequest}
use graph_tally.Core.Exec.{or_else}
use graph_tally.Core.Memory.{
  InMemoryContext, Stored, memory_rav_read, memory_rav_store, memory_signature_checker,
  memory_receipt_read, update_last_rav, verify_signer,
}
use graph_tally.Core.Adapters.{ReceiptRead}
use graph_tally.Core.Requests.{Manager, create_rav_request}
use graph_tally.Core.Requests.Sound.{create_rav_request-IsSound, IsSound}
use graph_tally.Core.Manager.{verify_and_store_rav}
use graph_tally.Core.Vouchers.{graph_aggregate, rav_partial_eq}
use graph_tally.Aggregator.{
  check_and_aggregate_receipts, check_signatures_unique, check_receipt_timestamps,
}
use graph_tally.Aggregator.Agreement.{
  sent, create_rav_request-admissible, verify_and_store_rav-signed,
}
use graph_tally.Tests.Base.{
  toy, receipt_sol, rav_sol, domain, registry, first_receipt, second_receipt, third_receipt,
  voucher, first_rav,
}

abbrev stored : SignedReceipt → Stored
stored r = record { receipt = r; state = checking }

abbrev valid : SignedReceipt → ReceiptWithState Checked SignedReceipt
valid r = record { receipt = r; state = checked }

abbrev pub context : Option SignedRav → InMemoryContext
context rav = record {
  rav_storage = rav;
  receipt_storage =
      (0, stored first_receipt) ∷ (1, stored second_receipt) ∷ (2, stored third_receipt) ∷ [];
  unique_id = 3;
  sender_escrow_storage = [];
  timestamp_check = record { min_timestamp_ns = 0 };
  sender_address = some 1001;
}

instance abbrev test_read : ReceiptRead InMemoryContext SignedReceipt
test_read = memory_receipt_read (λ rs. rs)

abbrev pub manager : Manager Unit SignedReceipt
manager = record { checks = []; domain_separator = domain }

-- At time 17 the buffer leaves the receipts before 7, at time 30 those before 20.
abbrev pub request : RavRequest SignedReceipt ReceiptAggregateVoucher
request = record {
  valid_receipts = valid first_receipt ∷ valid second_receipt ∷ [];
  previous_rav = none;
  invalid_receipts = [];
  expected_rav = ok (voucher 6 30);
}

abbrev next_request : RavRequest SignedReceipt ReceiptAggregateVoucher
next_request = record {
  valid_receipts = valid third_receipt ∷ [];
  previous_rav = some first_rav;
  invalid_receipts = [];
  expected_rav = ok (voucher 8 70);
}

made :
    create_rav_request ⦃u = signed_unique_id toy⦄ manager tt (ok 17) 10 none (context none)
    ≡ ok request
unfolding create_rav_request graph_tally.Core.Requests.get_previous_rav
    graph_tally.Core.Memory.last_rav graph_tally.Core.Requests.collect_receipts
    graph_tally.Core.get_current_timestamp_u64_ns
    graph_tally.Core.Memory.retrieve_receipts_in_timestamp_range
    graph_tally.Receipt.Checks.timestamp_check_batch graph_tally.Receipt.Checks.unique_check_batch
    graph_tally.Message.get_signature_bytes graph_tally.Receipt.finalize_receipt_checks
    graph_tally.Receipt.perform_state_changes graph_tally.Graph.aggregate_checked
    graph_tally.Graph.aggregate_loop
made = refl

made_next :
    create_rav_request ⦃u = signed_unique_id toy⦄ manager tt
      (ok 30)
      10
      none
      (context (some first_rav))
    ≡ ok next_request
unfolding create_rav_request graph_tally.Core.Requests.get_previous_rav
    graph_tally.Core.Memory.last_rav graph_tally.Core.Requests.collect_receipts
    graph_tally.Core.get_current_timestamp_u64_ns
    graph_tally.Core.Memory.retrieve_receipts_in_timestamp_range
    graph_tally.Receipt.Checks.timestamp_check_batch graph_tally.Receipt.Checks.unique_check_batch
    graph_tally.Receipt.finalize_receipt_checks graph_tally.Receipt.perform_state_changes
    graph_tally.Graph.aggregate_checked graph_tally.Graph.aggregate_loop
made_next = refl

pub signs :
    check_and_aggregate_receipts toy domain (sent request.valid_receipts) none registry
    ≡ ok first_rav
unfolding check_and_aggregate_receipts check_signatures_unique
    graph_tally.Message.get_signature_bytes graph_tally.Aggregator.Signers.resolve
    graph_tally.Aggregator.check_signature_is_from_one_of_addresses recover_signer
    check_receipt_timestamps graph_tally.Aggregator.check_collection_id
    graph_tally.Aggregator.check_previous_id graph_tally.Graph.aggregate_receipts
    graph_tally.Graph.aggregate_loop graph_tally.Message.new_signed
signs = refl

recovers : recover_signer toy first_rav domain ≡ ok 1001
unfolding recover_signer
recovers = refl

accepts_signer : verify_signer 1001 (context none) ≡ ok true
unfolding verify_signer
accepts_signer = refl

create_rav_request-IsSound_example :
    IsSound ⦃u = signed_unique_id toy⦄ manager tt (ok 17) 10 none (context none) request
create_rav_request-IsSound_example =
    create_rav_request-IsSound ⦃u = signed_unique_id toy⦄ manager tt (ok 17) 10 none (context none)
      request made

create_rav_request-admissible_example :
    (check_signatures_unique toy (sent next_request.valid_receipts) ≡ ok tt)
    × (check_receipt_timestamps (sent next_request.valid_receipts) (some first_rav) ≡ ok tt)
create_rav_request-admissible_example =
    create_rav_request-admissible toy manager tt (ok 30) 10 none (context (some first_rav))
      next_request made_next (omega arith)

verify_and_store_rav-signed_example :
    (expected : ReceiptAggregateVoucher) × (request.expected_rav ≡ ok expected)
    × (verify_and_store_rav toy manager expected first_rav (context none)
        ≡ or_else Error.adapter_error (update_last_rav first_rav) (context none))
verify_and_store_rav-signed_example =
    verify_and_store_rav-signed toy manager tt (ok 17) 10 none (context none) request made registry
      first_rav signs 1001 recovers accepts_signer
