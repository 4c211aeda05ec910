-- ===== src/Aggregator/Check/Exact.antt =====
-- When the aggregator signs a voucher, and which (crates/bin/aggregator/src/aggregator.rs:
-- check_and_aggregate_receipts).
use graph_tally.Prelude.{
  ◌≡◌, ◌≢◌, ◌↔◌, List, [], ◌∷◌, map, Option, none, some, ok, ok_or, map_err, >>=-eq-ok,
  map_err-eq-ok, All, arith,
}
use graph_tally.Message.{Alloy, Address, PrivateKeySigner, SolStruct, Eip712Domain, new_signed}
use graph_tally.Receipt.Checks.Unique.{IsUnique}
use graph_tally.Graph.{
  Receipt, ReceiptAggregateVoucher, SignedReceipt, SignedRav, aggregate_receipts,
}
use graph_tally.Aggregator.{
  Failure, unique_signatures, check_signatures_unique, check_all_signatures,
  check_previous_signature, check_receipt_timestamps, check_collection_id, check_previous_id,
  check_and_aggregate_receipts, no_signing_key,
}
use graph_tally.Aggregator.Signers.{SignerRegistry, resolve}
use graph_tally.Aggregator.Check.{
  signature_of, check_signatures_unique_iff, IsAfter, check_receipt_timestamps_iff, HasIds,
  check_collection_id_iff, PreviousHasIds, check_previous_id_iff, SignedByOne,
  check_all_signatures_iff, PreviousSigned, check_previous_signature_iff,
}

ok_or-eq-ok : {A E : Type 0} (o : Option A) (e : E) {a : A} → ok_or o e ≡ ok a → o ≡ some a
ok_or-eq-ok none e h = absurd (cc h)
ok_or-eq-ok (some b) e h = ground arith

module _ (alloy : Alloy) ⦃receipt_sol : SolStruct Receipt⦄
    ⦃rav_sol : SolStruct ReceiptAggregateVoucher⦄ (domain : Eip712Domain) (head : SignedReceipt)
    (tail : List SignedReceipt) (previous : Option SignedRav) (signers : SignerRegistry) where
  -- A batch that may be aggregated, with the payer's key, the signers accepted for the payer, and
  -- the voucher.
  pub record IsAggregable (key : PrivateKeySigner) (accepted : List Address)
      (rav : ReceiptAggregateVoucher) : Type 0 where
    pub signatures_differ : IsUnique (map (signature_of alloy) (head ∷ tail))
    pub payer_has_key : resolve signers head.message.payer ≡ some (key, accepted)
    pub receipts_signed : All (λ r. SignedByOne alloy domain accepted r) (head ∷ tail)
    pub previous_signed : PreviousSigned alloy domain accepted previous
    pub later : IsAfter (head ∷ tail) previous
    pub uniform :
        All
          (HasIds head.message.collection_id head.message.payer head.message.data_service
            head.message.service_provider)
          (head ∷ tail)
    pub continues :
        PreviousHasIds head.message.collection_id head.message.payer head.message.data_service
          head.message.service_provider previous
    pub aggregates :
        aggregate_receipts head.message.collection_id head.message.payer head.message.data_service
          head.message.service_provider
          (head ∷ tail)
          previous
        ≡ ok rav

  abbrev pub Outcome : SignedRav → Type 0
  Outcome signed =
      (key : PrivateKeySigner) × (accepted : List Address) × (rav : ReceiptAggregateVoucher)
      × IsAggregable key accepted rav
      × (new_signed alloy domain rav key ≡ ok signed)

  pub check_and_aggregate-from :
      (signed : SignedRav)
      → check_and_aggregate_receipts alloy domain (head ∷ tail) previous signers ≡ ok signed
      → Outcome signed
  unfolding check_and_aggregate_receipts
  check_and_aggregate-from signed h =
      let rs = head ∷ tail in
      let m = head.message in
      let (_, e₁, h₁) = >>=-eq-ok (check_signatures_unique alloy rs) _ h in
      let ((key, accepted), e₂, h₂) =
        >>=-eq-ok (ok_or (resolve signers m.payer) (no_signing_key m.payer)) _ h₁ in
      let (_, e₃, h₃) = >>=-eq-ok (check_all_signatures alloy rs domain accepted) _ h₂ in
      let (_, e₄, h₄) = >>=-eq-ok (check_previous_signature alloy previous domain accepted) _ h₃ in
      let (_, e₅, h₅) = >>=-eq-ok (check_receipt_timestamps rs previous) _ h₄ in
      let (_, e₆, h₆) =
        >>=-eq-ok (check_collection_id rs m.collection_id m.payer m.data_service m.service_provider)
          _ h₅ in
      let (_, e₇, h₇) =
        >>=-eq-ok
          (check_previous_id previous m.collection_id m.payer m.data_service m.service_provider) _
          h₆ in
      let (rav, e₈, h₈) =
        >>=-eq-ok
          (map_err Failure.aggregation (
            aggregate_receipts m.collection_id m.payer m.data_service m.service_provider rs
              previous))
          _ h₇ in
      (
        key,
        accepted,
        rav,
        record {
          signatures_differ = (check_signatures_unique_iff alloy rs).0 e₁;
          payer_has_key = ok_or-eq-ok _ _ e₂;
          receipts_signed = (check_all_signatures_iff alloy domain accepted rs).0 e₃;
          previous_signed = (check_previous_signature_iff alloy domain accepted previous).0 e₄;
          later = (check_receipt_timestamps_iff rs previous).0 e₅;
          uniform = (check_collection_id_iff _ _ _ _ rs).0 e₆;
          continues = (check_previous_id_iff _ _ _ _ previous).0 e₇;
          aggregates = map_err-eq-ok Failure.aggregation _ e₈;
        },
        map_err-eq-ok Failure.message _ h₈,
      )

  pub check_and_aggregate-to :
      (signed : SignedRav)
      → Outcome signed
      → check_and_aggregate_receipts alloy domain (head ∷ tail) previous signers ≡ ok signed
  unfolding check_and_aggregate_receipts
  check_and_aggregate-to signed (key, accepted, rav, a, sign) = rw (
    (check_signatures_unique_iff alloy (head ∷ tail)).1 a.signatures_differ,
    a.payer_has_key,
    (check_all_signatures_iff alloy domain accepted (head ∷ tail)).1 a.receipts_signed,
    (check_previous_signature_iff alloy domain accepted previous).1 a.previous_signed,
    (check_receipt_timestamps_iff (head ∷ tail) previous).1 a.later,
    (check_collection_id_iff _ _ _ _ (head ∷ tail)).1 a.uniform,
    (check_previous_id_iff _ _ _ _ previous).1 a.continues,
    a.aggregates,
    sign,
  )

  -- A batch yields a signed voucher exactly when no signature stands twice, the payer of the first
  -- receipt has a key, every receipt and the previous voucher are signed by a signer accepted for
  -- that payer, every receipt is later than the previous voucher, all have the first receipt's
  -- four identifiers, the aggregation fits, and the payer's own key signs the voucher.
  pub check_and_aggregate_receipts_iff :
      (signed : SignedRav)
      → (check_and_aggregate_receipts alloy domain (head ∷ tail) previous signers ≡ ok signed)
        ↔ Outcome signed
  check_and_aggregate_receipts_iff signed =
      (check_and_aggregate-from signed, check_and_aggregate-to signed)

-- Without receipts there is no voucher.
pub check_and_aggregate_receipts-empty :
    (alloy : Alloy) ⦃receipt_sol : SolStruct Receipt⦄ ⦃rav_sol : SolStruct ReceiptAggregateVoucher⦄
    (domain : Eip712Domain) (previous : Option SignedRav) (signers : SignerRegistry)
    (signed : SignedRav)
    → check_and_aggregate_receipts alloy domain [] previous signers ≢ ok signed
unfolding check_and_aggregate_receipts check_signatures_unique unique_signatures
check_and_aggregate_receipts-empty alloy domain previous signers signed h = cc h
