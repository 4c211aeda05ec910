-- ===== src/Tests/Aggregation.antt =====
-- The aggregator, its registry, and aggregation, on concrete inputs.
use graph_tally.Prelude.{ℕ, ◌≡◌, ◌||◌, refl, List, [], ◌∷◌, none, some, ok, arith}
use mathlib.Core.List.{Perm, Permᴰ}
use graph_tally.Message.{PrivateKeySigner, Address, new_signed, recover_signer, get_signature_bytes}
use graph_tally.Graph.{aggregate_receipts, aggregate_loop}
use graph_tally.Graph.Aggregate.{aggregate_receipts-exact}
use graph_tally.Graph.Batches.{aggregate_receipts-append, aggregate_receipts-perm}
use graph_tally.Aggregator.{
  check_and_aggregate_receipts, check_signatures_unique, check_signature_is_from_one_of_addresses,
  check_receipt_timestamps, check_collection_id, check_previous_id,
}
use graph_tally.Aggregator.Signers.{build, resolve}
use graph_tally.Aggregator.Signers.Built.{
  accepts, lists_signer, lists_key, build-accepts, build-one_payer,
}
use graph_tally.Aggregator.Check.Exact.{Outcome, check_and_aggregate_receipts_iff}
use graph_tally.Aggregator.Check.Rounds.{IsOwn, check_and_aggregate_receipts-IsOwn}
use graph_tally.Tests.Base.{
  toy, toy-SignRecovers, receipt_sol, rav_sol, domain, keys, extra, registry, first_receipt,
  second_receipt, third_receipt, voucher, first_rav,
}

built : build toy keys extra ≡ ok registry
unfolding build
built = refl

aggregates :
    check_and_aggregate_receipts toy domain (first_receipt ∷ second_receipt ∷ []) none registry
    ≡ ok first_rav
unfolding check_and_aggregate_receipts check_signatures_unique get_signature_bytes resolve
    check_signature_is_from_one_of_addresses recover_signer check_receipt_timestamps
    check_collection_id check_previous_id aggregate_receipts aggregate_loop new_signed
aggregates = refl

check_and_aggregate_receipts_iff_example :
    Outcome toy domain first_receipt (second_receipt ∷ []) none registry first_rav
check_and_aggregate_receipts_iff_example =
    (check_and_aggregate_receipts_iff toy domain first_receipt (second_receipt ∷ []) none registry
        first_rav).0
      aggregates

check_and_aggregate_receipts-IsOwn_example :
    (key : PrivateKeySigner) × (accepted : List Address) × IsOwn toy toy-SignRecovers keys extra
      registry built domain first_receipt
      (second_receipt ∷ [])
      none
      first_rav
      aggregates
      key
      accepted
check_and_aggregate_receipts-IsOwn_example =
    check_and_aggregate_receipts-IsOwn toy toy-SignRecovers keys extra registry built domain
      first_receipt (second_receipt ∷ []) none first_rav aggregates

aggregate_receipts-exact_example :
    aggregate_receipts 3 7 4 5 (first_receipt ∷ second_receipt ∷ []) none ≡ ok (voucher 6 30)
aggregate_receipts-exact_example =
    (aggregate_receipts-exact 3 7 4 5 (first_receipt ∷ second_receipt ∷ []) none (omega arith)).0
      (omega arith)

first_batch :
    aggregate_receipts 3 7 4 5 (first_receipt ∷ second_receipt ∷ []) none ≡ ok first_rav.message
unfolding aggregate_receipts aggregate_loop
first_batch = refl

aggregate_receipts-append_example :
    aggregate_receipts 3 7 4 5 (third_receipt ∷ []) (some first_rav)
    ≡ aggregate_receipts 3 7 4 5 (first_receipt ∷ second_receipt ∷ third_receipt ∷ []) none
aggregate_receipts-append_example =
    aggregate_receipts-append 3 7 4 5 (first_receipt ∷ second_receipt ∷ []) (third_receipt ∷ [])
      none first_rav first_batch

swapped : Perm (first_receipt ∷ second_receipt ∷ []) (second_receipt ∷ first_receipt ∷ [])
swapped = ∣ Permᴰ.swap refl refl ∣₁

aggregate_receipts-perm_example :
    aggregate_receipts 3 7 4 5 (first_receipt ∷ second_receipt ∷ []) none
    ≡ aggregate_receipts 3 7 4 5 (second_receipt ∷ first_receipt ∷ []) none
aggregate_receipts-perm_example = aggregate_receipts-perm 3 7 4 5 none swapped

build-accepts_example :
    accepts registry 7 1002 ≡ (lists_signer extra 7 1002 || lists_key toy keys 7 1002)
build-accepts_example = build-accepts toy keys extra registry built 7 1002

build-one_payer_example : ◌≡◌ {A = ℕ} 7 7
build-one_payer_example = build-one_payer toy keys extra registry built 7 7 1002 refl refl
