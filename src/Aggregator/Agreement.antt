-- ===== src/Aggregator/Agreement.antt =====
-- The manager's request against the aggregator's answer (crates/core/src/manager/core.rs and
-- crates/bin/aggregator/src/aggregator.rs).
pub mod Rounds
use graph_tally.Prelude.{
  ℕ, ◌+◌, ◌<◌, ◌≤◌, ◌≡◌, refl, ap, sym, ◌∙◌, Bool, true, List, [], ◌∷◌, map, Option, none, some,
  Result, ok, err, All, All-map, All-map_of, arith, Option-cases, inl, inr,
}
use graph_tally.Prelude.Words.{u64_mod}
use graph_tally.Message.{
  Alloy, Address, SolStruct, Eip712Domain, Eip712SignedMessage, SignRecovers, recover_signer,
  new_signed,
}
use graph_tally.Message.Recovery.{new_signed-message}
use graph_tally.Receipt.{
  WithValueAndTimestamp, WithUniqueId, Checked, ReceiptWithState, signed_value, signed_unique_id,
  signed_receipt,
}
use graph_tally.Receipt.Checks.Unique.{IsUnique, id_of}
use graph_tally.Graph.{
  Receipt, ReceiptAggregateVoucher, SignedReceipt, SignedRav, receipt_value, rav_value,
  aggregate_checked,
}
use graph_tally.Core.{Error, RavRequest}
use graph_tally.Core.Exec.{or_else}
use graph_tally.Core.Manager.Storage.{verify_and_store_rav-outcome}
use graph_tally.Core.Adapters.{
  RavStore, RavRead, ReceiptRead, SignatureChecker, check_signature, check_signature-accepts,
}
use graph_tally.Core.Requests.{Manager, create_rav_request, min_timestamp_after}
use graph_tally.Core.Requests.Sound.{create_rav_request-IsSound, IsSound}
use graph_tally.Core.Manager.{verify_and_store_rav}
use graph_tally.Core.Vouchers.{graph_aggregate, rav_partial_eq, rav_eq_refl}
use graph_tally.Aggregator.{
  check_signatures_unique, check_receipt_timestamps, check_and_aggregate_receipts,
}
use graph_tally.Aggregator.Signers.{SignerRegistry}
use graph_tally.Aggregator.Check.{
  signature_of, check_signatures_unique_iff, IsAfter, check_receipt_timestamps_iff,
}
use graph_tally.Aggregator.Check.Exact.{
  check_and_aggregate_receipts_iff, check_and_aggregate_receipts-empty,
}

-- What the manager sends of its valid receipts.
abbrev pub sent : List (ReceiptWithState Checked SignedReceipt) → List SignedReceipt
sent receipts = map signed_receipt receipts

sent-ids :
    (alloy : Alloy) (rs : List (ReceiptWithState Checked SignedReceipt))
    → map (signature_of alloy) (sent rs) ≡ map (λ r. signature_of alloy r.receipt) rs
sent-ids alloy [] = refl
sent-ids alloy (r ∷ rs) = ap (λ xs. signature_of alloy r.receipt ∷ xs) (sent-ids alloy rs)

-- The previous voucher's timestamp can still be counted up.
abbrev pub HasNext : Option SignedRav → Type 0
HasNext none = Unit
HasNext (some rav) = rav.message.timestamp_ns + 1 < u64_mod

min_timestamp-IsAfter :
    (previous : Option SignedRav) (rs : List (ReceiptWithState Checked SignedReceipt))
    → HasNext previous
    → All (λ r. min_timestamp_after previous ≤ r.receipt.message.timestamp_ns) rs
    → IsAfter (sent rs) previous
min_timestamp-IsAfter none rs next h = tt
min_timestamp-IsAfter (some rav) rs next h =
    All-map_of (λ r. rav.message.timestamp_ns < r.message.timestamp_ns) signed_receipt rs
      (All-map (λ r k. omega arith) rs h)

-- What the aggregator signs for the receipts is what they aggregate to.
pub aggregate_checked-signed :
    (alloy : Alloy) ⦃receipt_sol : SolStruct Receipt⦄ ⦃rav_sol : SolStruct ReceiptAggregateVoucher⦄
    (domain : Eip712Domain) (rs : List (ReceiptWithState Checked SignedReceipt))
    (previous : Option SignedRav) (signers : SignerRegistry) (signed : SignedRav)
    → check_and_aggregate_receipts alloy domain (sent rs) previous signers ≡ ok signed
    → aggregate_checked rs previous ≡ ok signed.message
unfolding aggregate_checked
aggregate_checked-signed alloy domain [] previous signers signed h =
    absurd (check_and_aggregate_receipts-empty alloy domain previous signers signed h)
aggregate_checked-signed alloy domain (r ∷ rs) previous signers signed h =
    let (key, accepted, rav, a, sign) =
      (check_and_aggregate_receipts_iff alloy domain r.receipt (sent rs) previous signers signed).0
        h in
    rw (new_signed-message alloy domain rav key signed sign) a.aggregates

module _ (alloy : Alloy) {S Ctx : Type 0} ⦃receipt_read : ReceiptRead S SignedReceipt⦄
    ⦃rav_read : RavRead S ReceiptAggregateVoucher⦄ (manager : Manager Ctx SignedReceipt) (ctx : Ctx)
    (clock : Result ℕ (Unit {0})) (timestamp_buffer_ns : ℕ) (limit : Option ℕ) (s : S)
    (request : RavRequest SignedReceipt ReceiptAggregateVoucher)
    (made : create_rav_request ⦃u = signed_unique_id alloy⦄ manager ctx clock timestamp_buffer_ns
        limit s
      ≡ ok request) where
  sound : IsSound ⦃u = signed_unique_id alloy⦄ manager ctx clock timestamp_buffer_ns limit s request
  sound =
      create_rav_request-IsSound ⦃u = signed_unique_id alloy⦄ manager ctx clock timestamp_buffer_ns
        limit s request made

  -- The receipts of a request pass the aggregator's tests of the signatures' uniqueness and of the
  -- timestamps, when the previous voucher's timestamp is not the last of `u64`.
  pub create_rav_request-admissible :
      HasNext request.previous_rav
      → (check_signatures_unique alloy (sent request.valid_receipts) ≡ ok tt)
        × (check_receipt_timestamps (sent request.valid_receipts) request.previous_rav ≡ ok tt)
  create_rav_request-admissible next = (
    (check_signatures_unique_iff alloy (sent request.valid_receipts)).1
        (rw sent-ids (IsSound.differ sound)),
    (check_receipt_timestamps_iff (sent request.valid_receipts) request.previous_rav).1 (
        min_timestamp-IsAfter request.previous_rav request.valid_receipts next
          (All-map (λ r h. h.0) request.valid_receipts (IsSound.passed sound))),
  )

  module _ ⦃receipt_sol : SolStruct Receipt⦄ ⦃rav_sol : SolStruct ReceiptAggregateVoucher⦄
      ⦃store : RavStore S ReceiptAggregateVoucher⦄ ⦃checker : SignatureChecker S⦄
      (signers : SignerRegistry) (signed : SignedRav)
      (signs : check_and_aggregate_receipts alloy manager.domain_separator
          (sent request.valid_receipts)
          request.previous_rav
          signers
        ≡ ok signed) where
    create_rav_request-expected : request.expected_rav ≡ ok signed.message
    create_rav_request-expected =
        IsSound.expects sound
        ∙ aggregate_checked-signed alloy manager.domain_separator request.valid_receipts
            request.previous_rav signers signed signs

    -- A voucher that the aggregator signs for a request is the voucher that the request expects:
    -- when the manager's context accepts the signer, the voucher is handed to the storage.
    pub verify_and_store_rav-signed :
        (signer : Address)
        → recover_signer alloy signed manager.domain_separator ≡ ok signer
        → checker.verify_signer signer s ≡ ok true
        → (expected : ReceiptAggregateVoucher) × (request.expected_rav ≡ ok expected)
          × (verify_and_store_rav alloy manager expected signed s
              ≡ or_else Error.adapter_error (store.update_last_rav signed) s)
    verify_and_store_rav-signed signer recovers accepted = (
      signed.message,
      create_rav_request-expected,
      ((verify_and_store_rav-outcome alloy manager signed.message signed s).1 (
            check_signature-accepts alloy signed manager.domain_separator s signer recovers
              accepted)).1
          (rav_eq_refl signed.message),
    )
