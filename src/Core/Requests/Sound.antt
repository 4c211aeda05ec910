-- ===== src/Core/Requests/Sound.antt =====
-- The guarantees of a request for a voucher (crates/core/src/manager/core.rs: create_rav_request).
use graph_tally.Prelude.{
  ℕ, ◌+◌, ◌≤◌, ◌≡◌, refl, List, map, Option, Result, ok, map_err, map_err-eq-ok, >>=-eq-ok,
  if-err-eq-ok, ltb, ltb-false, All, count_if, Bool,
}
use mathlib.Core.Path.{subst}
use graph_tally.Prelude.Words.{sub_u64}
use graph_tally.Message.{Eip712SignedMessage}
use graph_tally.Receipt.{
  WithValueAndTimestamp, WithUniqueId, Checking, ReceiptWithState, perform_checks, new_receipt,
}
use graph_tally.Receipt.Checks.Unique.{IsUnique, id_of}
use graph_tally.Core.{Error, RavRequest, get_current_timestamp_u64_ns}
use graph_tally.Core.Adapters.{RavRead, ReceiptRead}
use graph_tally.Core.Requests.{
  Manager, Aggregate, Sorted, get_previous_rav, collect_receipts, check_retrieved,
  create_rav_request, min_timestamp_after, timestamp_range,
}
use graph_tally.Core.Requests.Valid.{
  check_retrieved-IsChecked, IsChecked-passes, IsChecked-IsUnique, IsChecked-counts,
}

module _ {S Ctx Rcpt : Type 0} ⦃receipt_read : ReceiptRead S Rcpt⦄ ⦃v : WithValueAndTimestamp Rcpt⦄
    ⦃u : WithUniqueId Rcpt⦄ (manager : Manager Ctx Rcpt) (ctx : Ctx) (clock : Result ℕ (Unit {0}))
    (timestamp_buffer_ns : ℕ) (limit : Option ℕ) (s : S) (min : ℕ) where
  -- A collection that succeeds has read the clock and the storage, and sorted what it found.
  record IsCollected (out : Sorted Rcpt) : Type 0 where
    now : ℕ
    retrieved : List (ReceiptWithState Checking Rcpt)
    at_now : get_current_timestamp_u64_ns clock ≡ ok now
    in_order : min ≤ sub_u64 now timestamp_buffer_ns
    from_storage :
        receipt_read.retrieve_receipts_in_timestamp_range
          (timestamp_range min (sub_u64 now timestamp_buffer_ns))
          limit
          s
        ≡ ok retrieved
    sorted : check_retrieved manager ctx min retrieved ≡ ok out

  collect_receipts-IsCollected :
      (out : Sorted Rcpt)
      → collect_receipts manager ctx clock timestamp_buffer_ns min limit s ≡ ok out
      → IsCollected out
  unfolding collect_receipts
  collect_receipts-IsCollected out h =
      let (now, at_now, h₁) = >>=-eq-ok (get_current_timestamp_u64_ns clock) _ h in
      let (in_range, h₂) = if-err-eq-ok (ltb (sub_u64 now timestamp_buffer_ns) min) _ _ h₁ in
      let (retrieved, from_storage, h₃) =
        >>=-eq-ok
          (map_err Error.adapter_error (
            receipt_read.retrieve_receipts_in_timestamp_range
              (timestamp_range min (sub_u64 now timestamp_buffer_ns)) limit s))
          (check_retrieved manager ctx min) h₂ in
      record {
        now = now;
        retrieved = retrieved;
        at_now = at_now;
        in_order = ltb-false _ _ in_range;
        from_storage = map_err-eq-ok Error.adapter_error _ from_storage;
        sorted = h₃;
      }

module _ {S Ctx Rcpt Rav : Type 0} ⦃receipt_read : ReceiptRead S Rcpt⦄
    ⦃v : WithValueAndTimestamp Rcpt⦄ ⦃u : WithUniqueId Rcpt⦄ ⦃rav_read : RavRead S Rav⦄
    ⦃w : WithValueAndTimestamp Rav⦄ ⦃a : Aggregate Rcpt Rav⦄ (manager : Manager Ctx Rcpt)
    (ctx : Ctx) (clock : Result ℕ (Unit {0})) (timestamp_buffer_ns : ℕ) (limit : Option ℕ)
    (s : S) where
  pub record IsSound (request : RavRequest Rcpt Rav) : Type 0 where
    -- The voucher to go on from is the stored one, and the expected one aggregates on it.
    pub from_last : rav_read.last_rav s ≡ ok request.previous_rav
    pub expects :
        request.expected_rav ≡ a.aggregate_receipts request.valid_receipts request.previous_rav
    -- The valid receipts are later than that voucher, pass the manager's checks, and differ.
    pub passed :
        All
          (λ r.
            (min_timestamp_after request.previous_rav ≤ v.timestamp_ns r.receipt)
            × (perform_checks ctx manager.checks (new_receipt r.receipt) ≡ ok tt))
          request.valid_receipts
    pub differ : IsUnique (map id_of request.valid_receipts)
    -- What was retrieved for the range up to the buffer is all there, as valid or as invalid.
    pub now : ℕ
    pub retrieved : List (ReceiptWithState Checking Rcpt)
    pub at_now : get_current_timestamp_u64_ns clock ≡ ok now
    pub in_order : min_timestamp_after request.previous_rav ≤ sub_u64 now timestamp_buffer_ns
    pub from_storage :
        receipt_read.retrieve_receipts_in_timestamp_range
          (timestamp_range
            (min_timestamp_after request.previous_rav)
            (sub_u64 now timestamp_buffer_ns))
          limit
          s
        ≡ ok retrieved
    pub all_there :
        (p : Rcpt → Bool)
        → count_if (λ r. p r.receipt) request.valid_receipts
            + count_if (λ r. p r.receipt) request.invalid_receipts
          ≡ count_if (λ r. p r.receipt) retrieved

  request_of : Option (Eip712SignedMessage Rav) → Sorted Rcpt → RavRequest Rcpt Rav
  request_of previous_rav out = record {
    valid_receipts = out.0;
    previous_rav = previous_rav;
    invalid_receipts = out.1;
    expected_rav = a.aggregate_receipts out.0 previous_rav;
  }

  request_of-IsSound :
      (previous : Option (Eip712SignedMessage Rav)) (out : Sorted Rcpt)
      → rav_read.last_rav s ≡ ok previous
      → collect_receipts manager ctx clock timestamp_buffer_ns
          (min_timestamp_after previous)
          limit
          s
        ≡ ok out
      → IsSound (request_of previous out)
  unfolding request_of
  request_of-IsSound previous out from_last h =
      let min = min_timestamp_after previous in
      let c =
        collect_receipts-IsCollected manager ctx clock timestamp_buffer_ns limit s min out h in
      let checked = check_retrieved-IsChecked manager ctx min c.retrieved out c.sorted in
      record {
        from_last = from_last;
        expects = refl;
        passed = IsChecked-passes manager ctx min c.retrieved out checked;
        differ = IsChecked-IsUnique manager ctx min c.retrieved out checked;
        now = c.now;
        retrieved = c.retrieved;
        at_now = c.at_now;
        in_order = c.in_order;
        from_storage = c.from_storage;
        all_there = IsChecked-counts manager ctx min c.retrieved out checked;
      }

  -- Every request that is made is sound: it goes on from the stored voucher; its valid receipts are
  -- later than that voucher, pass the manager's checks and have different identities; valid and
  -- invalid receipts together are what the storage returned for the range, each as often; and the
  -- expected voucher is the aggregation of the valid ones.
  pub create_rav_request-IsSound :
      (request : RavRequest Rcpt Rav)
      → create_rav_request manager ctx clock timestamp_buffer_ns limit s ≡ ok request
      → IsSound request
  unfolding create_rav_request get_previous_rav request_of
  create_rav_request-IsSound request h =
      let (previous, e, h₁) = >>=-eq-ok (map_err Error.adapter_error (rav_read.last_rav s)) _ h in
      let (out, f, h₂) =
        >>=-eq-ok
          (collect_receipts manager ctx clock timestamp_buffer_ns (min_timestamp_after previous)
            limit s)
          (λ o. ok (request_of previous o)) h₁ in
      let made : request_of previous out ≡ request = cc h₂ in
      subst IsSound made (request_of-IsSound previous out (map_err-eq-ok Error.adapter_error _ e) f)
