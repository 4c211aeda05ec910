-- ===== src/Graph/Aggregate.antt =====
-- The value and the timestamp of a voucher.
use graph_tally.Prelude.{
  ok_or, >>=-eq-ok, All-map, ℕ, ◌+◌, ◌≤◌, ◌<◌, ◌≡◌, refl, max, List, [], ◌∷◌, Option, ok, err,
  arith, sum_of, Bool-cases, inl, inr, ltb, ltb→lt, All, any, true, ◌==◌, ◌⊎◌,
}
use graph_tally.Prelude.Words.{u128_mod, checked_add_u128}
use graph_tally.Message.{Address, FixedBytes}
use graph_tally.Receipt.{aggregate_overflow}
use graph_tally.Graph.{
  SignedReceipt, SignedRav, ReceiptAggregateVoucher, aggregate_loop, aggregate_start,
  aggregate_receipts,
}

abbrev pub total_value : List SignedReceipt → ℕ
total_value = sum_of (λ r. r.message.value)

abbrev pub latest : ℕ → List SignedReceipt → ℕ
latest t [] = t
latest t (r ∷ rs) = latest (max t r.message.timestamp_ns) rs

pub aggregate_loop-ok :
    (t v : ℕ) (rs : List SignedReceipt)
    → v + total_value rs < u128_mod
    → aggregate_loop (t, v) rs ≡ ok (latest t rs, v + total_value rs)
unfolding aggregate_loop
aggregate_loop-ok t v [] h = ground arith
aggregate_loop-ok t v (r ∷ rs) h =
    ground (arith, aggregate_loop-ok (max t r.message.timestamp_ns) (v + r.message.value) rs)

pub aggregate_loop-err :
    (t v : ℕ) (rs : List SignedReceipt)
    → v < u128_mod
    → u128_mod ≤ v + total_value rs
    → aggregate_loop (t, v) rs ≡ err aggregate_overflow
unfolding aggregate_loop
aggregate_loop-err t v [] small h = absurd (omega arith)
aggregate_loop-err t v (r ∷ rs) small h = elim (Bool-cases (ltb (v + r.message.value) u128_mod)) [
  | inl fits ↦ rw fits (
      aggregate_loop-err (max t r.message.timestamp_ns) (v + r.message.value) rs (ltb→lt _ _ fits)
        (omega arith))
  | inr over ↦ rw over
]

-- The latest timestamp bounds all timestamps, and is one of them.
pub latest_bounds :
    (t : ℕ) (rs : List SignedReceipt)
    → (t ≤ latest t rs) × All (λ r. r.message.timestamp_ns ≤ latest t rs) rs
latest_bounds t [] = (omega arith, tt)
latest_bounds t (r ∷ rs) =
    let (low, rest) = latest_bounds (max t r.message.timestamp_ns) rs in
    (omega arith, (omega arith, rest))

pub latest_attained :
    (t : ℕ) (rs : List SignedReceipt)
    → (latest t rs ≡ t) ⊎ (any (λ r. r.message.timestamp_ns == latest t rs) rs ≡ true)
latest_attained t [] = inl refl
latest_attained t (r ∷ rs) = ground (arith, latest_attained (max t r.message.timestamp_ns) rs)

module _ (collection_id : FixedBytes) (payer data_service service_provider : Address)
    (rs : List SignedReceipt) (previous : Option SignedRav) where
  -- The voucher that a batch yields, when its value fits.
  abbrev pub voucher_of : ReceiptAggregateVoucher
  voucher_of = record {
    collection_id = collection_id;
    payer = payer;
    service_provider = service_provider;
    data_service = data_service;
    timestamp_ns = latest (aggregate_start previous).0 rs;
    value_aggregate = (aggregate_start previous).1 + total_value rs;
    metadata = [];
  }

  -- From a previous value within `u128`, aggregation succeeds exactly when the previous value and
  -- all the receipts' values together fit in `u128`: then the voucher carries that sum, the latest
  -- timestamp and the given identifiers, and otherwise the error is the overflow.
  pub aggregate_receipts-exact :
      (aggregate_start previous).1 < u128_mod
      → ((aggregate_start previous).1 + total_value rs < u128_mod
          → aggregate_receipts collection_id payer data_service service_provider rs previous
            ≡ ok voucher_of)
        × (u128_mod ≤ (aggregate_start previous).1 + total_value rs
            → aggregate_receipts collection_id payer data_service service_provider rs previous
              ≡ err aggregate_overflow)
  unfolding aggregate_receipts
  aggregate_receipts-exact small = (
    (λ h. rw (aggregate_loop-ok (aggregate_start previous).0 (aggregate_start previous).1 rs h)),
    (λ h.
        rw (
          aggregate_loop-err (aggregate_start previous).0 (aggregate_start previous).1 rs small h)),
  )

  pub aggregate_receipts-message :
      (rav : ReceiptAggregateVoucher)
      → aggregate_receipts collection_id payer data_service service_provider rs previous ≡ ok rav
      → (rav.collection_id ≡ collection_id)
        × (rav.payer ≡ payer)
        × (rav.data_service ≡ data_service)
        × (rav.service_provider ≡ service_provider)
  unfolding aggregate_receipts
  aggregate_receipts-message rav h = ground arith

aggregate_loop-latest :
    (t v : ℕ) (rs : List SignedReceipt) (out : ℕ × ℕ)
    → aggregate_loop (t, v) rs ≡ ok out
    → out.0 ≡ latest t rs
unfolding aggregate_loop
aggregate_loop-latest t v [] out h = ground arith
aggregate_loop-latest t v (r ∷ rs) out h =
    let (sum, _, rest) =
      >>=-eq-ok (ok_or (checked_add_u128 v r.message.value) aggregate_overflow) _ h in
    aggregate_loop-latest (max t r.message.timestamp_ns) sum rs out rest

-- No receipt of a batch is later than its voucher.
pub aggregate_receipts-covers :
    (collection_id : FixedBytes) (payer data_service service_provider : Address)
    (rs : List SignedReceipt) (previous : Option SignedRav) (rav : ReceiptAggregateVoucher)
    → aggregate_receipts collection_id payer data_service service_provider rs previous ≡ ok rav
    → All (λ r. r.message.timestamp_ns ≤ rav.timestamp_ns) rs
unfolding aggregate_receipts
aggregate_receipts-covers collection_id payer data_service service_provider rs previous rav h =
    let ((t, v), e, made) = >>=-eq-ok (aggregate_loop (aggregate_start previous) rs) _ h in
    let last =
      aggregate_loop-latest (aggregate_start previous).0 (aggregate_start previous).1 rs (t, v) e in
    let same : t ≡ rav.timestamp_ns = ground arith in
    All-map (λ r k. omega (arith, last, same)) rs (latest_bounds (aggregate_start previous).0 rs).1
