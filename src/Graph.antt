-- ===== src/Graph.antt =====
-- The structs of The Graph (crates/graph/src: receipt.rs, rav.rs): receipts, vouchers (RAVs), and
-- the aggregation of receipts into a voucher.
pub mod Aggregate
pub mod Batches
use graph_tally.Prelude.{
  ℕ, ◌%◌, max, List, [], ◌∷◌, map, Option, none, some, Result, ok, err, ok_or, map_err, ◌>>=◌,
  map_or, first,
}
use graph_tally.Prelude.Words.{checked_add_u128, u64_mod}
use graph_tally.Message.{Address, FixedBytes, Eip712SignedMessage}
use graph_tally.Receipt.{
  WithValueAndTimestamp, AggregationError, aggregate_overflow, no_valid_receipts_for_rav_request,
  Checked, ReceiptWithState, signed_receipt,
}

pub record Receipt : Type 0 where
  pub collection_id : FixedBytes
  pub payer : Address
  pub data_service : Address
  pub service_provider : Address
  -- Unix time in nanoseconds, `u64`
  pub timestamp_ns : ℕ
  pub nonce : ℕ
  -- GRT in wei, `u128`
  pub value : ℕ

pub record ReceiptAggregateVoucher : Type 0 where
  pub collection_id : FixedBytes
  pub payer : Address
  pub service_provider : Address
  pub data_service : Address
  pub timestamp_ns : ℕ
  pub value_aggregate : ℕ
  pub metadata : List ℕ

abbrev pub SignedReceipt : Type 0
SignedReceipt = Eip712SignedMessage Receipt

abbrev pub SignedRav : Type 0
SignedRav = Eip712SignedMessage ReceiptAggregateVoucher

instance abbrev pub receipt_value : WithValueAndTimestamp Receipt
receipt_value = record { value = λ r. r.value; timestamp_ns = λ r. r.timestamp_ns }

instance abbrev pub rav_value : WithValueAndTimestamp ReceiptAggregateVoucher
rav_value = record { value = λ r. r.value_aggregate; timestamp_ns = λ r. r.timestamp_ns }

-- `Receipt::new`: the clock (nanoseconds since the epoch, or its error) and the random nonce are
-- arguments; the cast to `u64` keeps the low bits.
unfoldable pub new_graph_receipt {ℓ} :
    {E : Type ℓ} → Result ℕ E → ℕ → FixedBytes → Address → Address → Address → ℕ → Result Receipt E
new_graph_receipt clock nonce collection_id payer data_service service_provider value = do
  now ← clock
  ok (record {
    collection_id = collection_id;
    payer = payer;
    data_service = data_service;
    service_provider = service_provider;
    timestamp_ns = now % u64_mod;
    nonce = nonce;
    value = value;
  })

-- The loop of `aggregate_receipts`: the latest timestamp and the value so far.
unfoldable pub aggregate_loop : ℕ × ℕ → List SignedReceipt → Result (ℕ × ℕ) AggregationError
aggregate_loop acc [] = ok acc
aggregate_loop (timestamp_max, value_aggregate) (receipt ∷ receipts) = do
  value ← ok_or (checked_add_u128 value_aggregate receipt.message.value) aggregate_overflow
  aggregate_loop (max timestamp_max receipt.message.timestamp_ns, value) receipts

-- The loop's start: the previous voucher's timestamp and value, or zeros.
abbrev pub aggregate_start : Option SignedRav → ℕ × ℕ
aggregate_start none = (0, 0)
aggregate_start (some prev_rav) = (prev_rav.message.timestamp_ns, prev_rav.message.value_aggregate)

-- `ReceiptAggregateVoucher::aggregate_receipts`
unfoldable pub aggregate_receipts :
    FixedBytes
    → Address
    → Address
    → Address
    → List SignedReceipt
    → Option SignedRav
    → Result ReceiptAggregateVoucher AggregationError
aggregate_receipts collection_id payer data_service service_provider receipts previous_rav = do
  (timestamp_max, value_aggregate) ← aggregate_loop (aggregate_start previous_rav) receipts
  ok (record {
    collection_id = collection_id;
    payer = payer;
    service_provider = service_provider;
    data_service = data_service;
    timestamp_ns = timestamp_max;
    value_aggregate = value_aggregate;
    metadata = [];
  })

-- `impl Aggregate<SignedReceipt>`: the identifiers are the first receipt's.
unfoldable pub aggregate_checked :
    List (ReceiptWithState Checked SignedReceipt)
    → Option SignedRav
    → Result ReceiptAggregateVoucher AggregationError
unfolding aggregate_receipts
aggregate_checked [] previous_rav = err no_valid_receipts_for_rav_request
aggregate_checked (head ∷ tail) previous_rav =
    let m = (signed_receipt head).message in
    aggregate_receipts m.collection_id m.payer m.data_service m.service_provider
      (map signed_receipt (head ∷ tail)) previous_rav
