-- ===== src/Aggregator/Check/Rounds.antt =====
-- The voucher of one round of aggregation in the next (crates/bin/aggregator/src/aggregator.rs,
-- with the registry of signers.rs).
use graph_tally.Prelude.{◌≡◌, true, List, ◌∷◌, Option, some, ok}
use graph_tally.Message.{
  Alloy, Address, PrivateKeySigner, SolStruct, Eip712Domain, SignRecovers, recover_signer,
}
use graph_tally.Message.Recovery.{new_signed-message, recover_signer-new_signed}
use graph_tally.Graph.{Receipt, ReceiptAggregateVoucher, SignedReceipt, SignedRav}
use graph_tally.Graph.Aggregate.{aggregate_receipts-message}
use graph_tally.Aggregator.{check_and_aggregate_receipts}
use graph_tally.Aggregator.Signers.{SignerRegistry, resolve, build}
use graph_tally.Aggregator.Signers.OwnKey.{gives, resolve-build}
use graph_tally.Aggregator.Check.{PreviousHasIds, PreviousSigned}
use graph_tally.Aggregator.Check.Exact.{check_and_aggregate_receipts_iff}

module _ (alloy : Alloy) ⦃receipt_sol : SolStruct Receipt⦄
    ⦃rav_sol : SolStruct ReceiptAggregateVoucher⦄ (law : SignRecovers alloy)
    (config : List (Address × PrivateKeySigner)) (extra : List (Address × Address))
    (signers : SignerRegistry) (built : build alloy config extra ≡ ok signers)
    (domain : Eip712Domain) (head : SignedReceipt) (tail : List SignedReceipt)
    (previous : Option SignedRav) (signed : SignedRav)
    (signs : check_and_aggregate_receipts alloy domain (head ∷ tail) previous signers
      ≡ ok signed) where
  pub record IsOwn (key : PrivateKeySigner) (accepted : List Address) : Type 0 where
    pub configured : gives alloy config head.message.payer key ≡ true
    pub resolved : resolve signers head.message.payer ≡ some (key, accepted)
    pub recovers : recover_signer alloy signed domain ≡ ok (alloy.address key)
    -- What a next round asks of its previous voucher.
    pub signed_for_next : PreviousSigned alloy domain accepted (some signed)
    pub continues_next :
        PreviousHasIds head.message.collection_id head.message.payer head.message.data_service
          head.message.service_provider
          (some signed)

  -- A voucher that a registry's aggregator signs recovers to the address of the key that the
  -- configuration gives the receipts' payer, and it passes the two tests that the next round makes
  -- of its previous voucher: its signer is accepted for the payer, and it has the identifiers.
  pub check_and_aggregate_receipts-IsOwn :
      (key : PrivateKeySigner) × (accepted : List Address) × IsOwn key accepted
  check_and_aggregate_receipts-IsOwn =
      let (key, accepted, rav, a, sign) =
        (check_and_aggregate_receipts_iff alloy domain head tail previous signers signed).0 signs in
      let (given, own) =
        resolve-build alloy config extra signers head.message.payer key accepted built
          a.payer_has_key in
      let recovers = recover_signer-new_signed alloy law domain rav key signed sign in
      let m = head.message in
      let ids =
        aggregate_receipts-message m.collection_id m.payer m.data_service m.service_provider
          (head ∷ tail) previous rav a.aggregates in
      let same = new_signed-message alloy domain rav key signed sign in
      (
        key,
        accepted,
        record {
          configured = given;
          resolved = a.payer_has_key;
          recovers = recovers;
          signed_for_next = (alloy.address key, recovers, own);
          continues_next = rw same ids;
        },
      )
