-- ===== src/Exchange/Ledger.antt =====
-- What a run of rounds puts into vouchers (crates/core/src/manager/core.rs and memory.rs with
-- crates/bin/aggregator/src/aggregator.rs).
pub mod Run
pub mod Answered
pub mod Concluded
pub mod Signs
use graph_tally.Prelude.{
  ℕ, ◌+◌, ◌≤◌, ◌<◌, ◌≡◌, refl, sym, ap, ◌∙◌, Bool, true, false, ◌&&◌, List, [], ◌∷◌, ◌++◌, map,
  Option, none, some, Result, ok, err, ok_or, >>=-eq-ok, ◌==◌, contains, count_if, count_if-append,
  sum_of-append, All, All-map, All-append, max, leb, length, ◌⊎◌, arith, Bool-cases, Result-cases,
  Option-cases, inl, inr,
}
use graph_tally.Message.{Alloy, Address, FixedBytes, SolStruct, Eip712Domain}
use graph_tally.Message.Recovery.{new_signed-message}
use graph_tally.Receipt.{aggregate_overflow, signed_value, signed_unique_id}
use graph_tally.Receipt.Checks.Unique.{IsUnique}
use graph_tally.Graph.{
  Receipt, ReceiptAggregateVoucher, SignedReceipt, SignedRav, receipt_value, rav_value,
  aggregate_loop, aggregate_start, aggregate_receipts,
}
use graph_tally.Prelude.Words.{checked_add_u128}
use graph_tally.Graph.Aggregate.{
  total_value, latest, latest_bounds, aggregate_loop-ok, aggregate_receipts-covers,
}
use graph_tally.Aggregator.{check_and_aggregate_receipts}
use graph_tally.Aggregator.Signers.{SignerRegistry}
use graph_tally.Aggregator.Check.{signature_of, IsAfter}
use graph_tally.Aggregator.Check.Exact.{
  check_and_aggregate_receipts_iff, check_and_aggregate_receipts-empty,
}

le_or_lt : (a b : ℕ) → (a ≤ b) ⊎ (b < a)
le_or_lt a b = elim (Bool-cases (leb a b)) [
  | inl h ↦ inl (ground arith)
  | inr h ↦ inr (ground arith)
]

aggregate_loop-sum :
    (t v : ℕ) (rs : List SignedReceipt) (out : ℕ × ℕ)
    → aggregate_loop (t, v) rs ≡ ok out
    → (out.0 ≡ latest t rs) × (out.1 ≡ v + total_value rs)
unfolding aggregate_loop
aggregate_loop-sum t v [] out h = (ground arith, ground arith)
aggregate_loop-sum t v (r ∷ rs) out h =
    let (sum, added, rest) =
      >>=-eq-ok (ok_or (checked_add_u128 v r.message.value) aggregate_overflow) _ h in
    let (last, total) = aggregate_loop-sum (max t r.message.timestamp_ns) sum rs out rest in
    (last, ground (arith, total))

-- The value of a voucher is the previous one's and the receipts', and its timestamp does not fall.
aggregate_receipts-sum :
    (collection_id : FixedBytes) (payer data_service service_provider : Address)
    (rs : List SignedReceipt) (previous : Option SignedRav) (rav : ReceiptAggregateVoucher)
    → aggregate_receipts collection_id payer data_service service_provider rs previous ≡ ok rav
    → (rav.value_aggregate ≡ (aggregate_start previous).1 + total_value rs)
      × ((aggregate_start previous).0 ≤ rav.timestamp_ns)
unfolding aggregate_receipts
aggregate_receipts-sum collection_id payer data_service service_provider rs previous rav h =
    let ((t, v), e, made) = >>=-eq-ok (aggregate_loop (aggregate_start previous) rs) _ h in
    let (last, total) =
      aggregate_loop-sum (aggregate_start previous).0 (aggregate_start previous).1 rs (t, v) e in
    let (low, _) = latest_bounds (aggregate_start previous).0 rs in
    (ground (arith, total), ground (arith, last, low))

-- What a voucher that the aggregator signed says of its receipts.
pub record IsAdded (alloy : Alloy) (rs : List SignedReceipt) (previous : Option SignedRav)
    (signed : SignedRav) : Type 0 where
  pub differ : IsUnique (map (signature_of alloy) rs)
  pub later : IsAfter rs previous
  pub value : signed.message.value_aggregate ≡ (aggregate_start previous).1 + total_value rs
  pub covered : All (λ r. r.message.timestamp_ns ≤ signed.message.timestamp_ns) rs
  pub some_receipt : 1 ≤ length rs
  pub grows : (aggregate_start previous).0 ≤ signed.message.timestamp_ns

module _ (alloy : Alloy) ⦃receipt_sol : SolStruct Receipt⦄
    ⦃rav_sol : SolStruct ReceiptAggregateVoucher⦄ (domain : Eip712Domain)
    (previous : Option SignedRav) (signers : SignerRegistry) (signed : SignedRav) where
  pub check_and_aggregate-IsAdded :
      (rs : List SignedReceipt)
      → check_and_aggregate_receipts alloy domain rs previous signers ≡ ok signed
      → IsAdded alloy rs previous signed
  check_and_aggregate-IsAdded [] h =
      absurd (check_and_aggregate_receipts-empty alloy domain previous signers signed h)
  check_and_aggregate-IsAdded (r ∷ rs) h =
      let (key, accepted, rav, a, sign) =
        (check_and_aggregate_receipts_iff alloy domain r rs previous signers signed).0 h in
      let m = r.message in
      let same : signed.message ≡ rav = new_signed-message alloy domain rav key signed sign in
      let sums =
        aggregate_receipts-sum m.collection_id m.payer m.data_service m.service_provider (r ∷ rs)
          previous rav a.aggregates in
      let covers =
        aggregate_receipts-covers m.collection_id m.payer m.data_service m.service_provider (r ∷ rs)
          previous rav a.aggregates in
      record {
        differ = a.signatures_differ;
        later = a.later;
        value = rw same sums.0;
        covered = All-map (λ x k. rw same k) (r ∷ rs) covers;
        some_receipt = omega arith;
        grows = rw same sums.1;
      }

-- Receipts with one timestamp and one signature: none, where the signature is not there.
module _ (p : SignedReceipt → Bool) (f : SignedReceipt → ℕ) where
  count_if-contains :
      (a : ℕ) (xs : List SignedReceipt)
      → contains (map f xs) a ≡ false
      → count_if (λ r. p r && f r == a) xs ≡ 0
  count_if-contains a [] h = refl
  count_if-contains a (x ∷ xs) h = ground (arith, count_if-contains a xs)

  count_if-IsUnique :
      (a : ℕ) (xs : List SignedReceipt)
      → IsUnique (map f xs)
      → count_if (λ r. p r && f r == a) xs ≤ 1
  count_if-IsUnique a [] h = omega arith
  count_if-IsUnique a (x ∷ xs) h =
      ground (arith, count_if-contains (f x) xs h.0, count_if-IsUnique a xs h.1)

abbrev stamped : Alloy → ℕ → ℕ → SignedReceipt → Bool
stamped alloy t id r = r.message.timestamp_ns == t && signature_of alloy r == id

-- No receipt has a timestamp that all are below, or above.
none_above :
    (alloy : Alloy) (t id high : ℕ) (xs : List SignedReceipt)
    → All (λ r. r.message.timestamp_ns ≤ high) xs
    → high < t
    → count_if (stamped alloy t id) xs ≡ 0
none_above alloy t id high [] a h = refl
none_above alloy t id high (x ∷ xs) a h = ground (arith, none_above alloy t id high xs a.1 h)

none_below :
    (alloy : Alloy) (t id low : ℕ) (xs : List SignedReceipt)
    → All (λ r. low < r.message.timestamp_ns) xs
    → t ≤ low
    → count_if (stamped alloy t id) xs ≡ 0
none_below alloy t id low [] a h = refl
none_below alloy t id low (x ∷ xs) a h = ground (arith, none_below alloy t id low xs a.1 h)

-- The receipts so far against the stored voucher.
pub record IsLedger (alloy : Alloy) (ledger : List SignedReceipt) (stored : Option SignedRav)
    : Type 0 where
  pub value : (aggregate_start stored).1 ≡ total_value ledger
  pub covered : All (λ r. r.message.timestamp_ns ≤ (aggregate_start stored).0) ledger
  pub once :
      (t id : ℕ)
      → count_if (λ r. r.message.timestamp_ns == t && signature_of alloy r == id) ledger ≤ 1
  pub fresh : stored ≡ none → ledger ≡ []

module _ (alloy : Alloy) (rs : List SignedReceipt) (signed : SignedRav) where
  once-append :
      (t id : ℕ) (ledger : List SignedReceipt) (previous : Option SignedRav)
      → IsLedger alloy ledger previous
      → IsAdded alloy rs previous signed
      → count_if (stamped alloy t id) (rs ++ ledger) ≤ 1
  once-append t id ledger none l a =
      let empty : ledger ≡ [] = IsLedger.fresh l refl in
      rw (empty, count_if-append (stamped alloy t id) rs [])
        (omega (
          arith,
          count_if-IsUnique (λ r. r.message.timestamp_ns == t) (signature_of alloy) id rs
              (IsAdded.differ a),
        ))
  once-append t id ledger (some rav) l a =
      let both = count_if-append (stamped alloy t id) rs ledger in
      elim (le_or_lt t rav.message.timestamp_ns) [
        | inl old ↦ omega (
          arith,
          both,
          IsLedger.once l t id,
          none_below alloy t id rav.message.timestamp_ns rs (IsAdded.later a) old,
        )
        | inr new ↦ omega (
          arith,
          both,
          none_above alloy t id rav.message.timestamp_ns ledger (IsLedger.covered l) new,
          count_if-IsUnique (λ r. r.message.timestamp_ns == t) (signature_of alloy) id rs
              (IsAdded.differ a),
        )
      ]

  pub add-IsLedger :
      (ledger : List SignedReceipt) (previous : Option SignedRav)
      → IsLedger alloy ledger previous
      → IsAdded alloy rs previous signed
      → IsLedger alloy (rs ++ ledger) (some signed)
  add-IsLedger ledger previous l a = record {
    value = omega (
      arith,
      IsAdded.value a,
      IsLedger.value l,
      sum_of-append (λ (r : SignedReceipt). r.message.value) rs ledger,
    );
    covered =
        All-append (λ r. r.message.timestamp_ns ≤ signed.message.timestamp_ns) rs ledger
          (IsAdded.covered a)
          (All-map (λ r k. omega (arith, k, IsAdded.grows a)) ledger (IsLedger.covered l));
    once = λ t id. once-append t id ledger previous l a;
    fresh = λ h. absurd (cc h);
  }
