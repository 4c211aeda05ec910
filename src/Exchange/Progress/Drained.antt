-- ===== src/Exchange/Progress/Drained.antt =====
-- What a successful round leaves in the storage
-- (crates/integration_tests/tests/indexer_mock.rs: request_rav).
use graph_tally.Prelude.{
  ℕ, ◌-◌, ◌≤◌, ◌<◌, ◌≡◌, refl, sym, ap, ◌∙◌, Bool, true, not, ◌&&◌, List, [], ◌∷◌, Option, none,
  some, String, ok, leb, ltb, length, retain, count_if, count_if-map, count_if-retain,
  count_if_zero, All, All-map, arith, inl, inr,
}
use graph_tally.Prelude.Words.{u64_mod, sub_u64}
use graph_tally.Message.{Alloy, SolStruct}
use graph_tally.Receipt.{Checked, ReceiptWithState, signed_value, signed_unique_id}
use graph_tally.Graph.{
  Receipt, ReceiptAggregateVoucher, SignedReceipt, SignedRav, receipt_value, rav_value,
  aggregate_start,
}
use graph_tally.Core.{RavRequest, get_current_timestamp_u64_ns}
use graph_tally.Core.Adapters.Truncate.Cutoff.{IsSorted, SameCounts}
use graph_tally.Core.Memory.{
  InMemoryContext, Stored, memory_rav_read, memory_receipt_read, memory_receipt_delete,
}
use graph_tally.Core.Memory.Retrieve.{stamp, stored, retrieve_receipts-all}
use graph_tally.Core.Requests.{Manager, timestamp_range, min_timestamp_after}
use graph_tally.Core.Requests.Sound.{IsSound}
use graph_tally.Core.Manager.{remove_obsolete_receipts}
use graph_tally.Core.Vouchers.{graph_aggregate}
use graph_tally.Aggregator.{check_and_aggregate_receipts}
use graph_tally.Aggregator.Signers.{SignerRegistry}
use graph_tally.Aggregator.Agreement.{sent}
use graph_tally.Exchange.{Settled, request_rav}
use graph_tally.Exchange.Ledger.{IsAdded}
use graph_tally.Exchange.Ledger.Run.{verify_and_store_rav-stores, Settled-previous}
use graph_tally.Exchange.Ledger.Answered.{stored_rav}
use graph_tally.Exchange.Ledger.Concluded.{request_rav-Answered}
use graph_tally.Exchange.Progress.{Settled-IsSound, Settled-IsAdded, clean-receipt_storage}

count_if_mono :
    {A : Type 0} (p q : A → Bool) (xs : List A)
    → ((x : A) → p x ≡ true → q x ≡ true)
    → count_if p xs ≤ count_if q xs
count_if_mono p q [] h = omega arith
count_if_mono p q (x ∷ xs) h = ground (arith, h x, count_if_mono p q xs h)

none_uncovered :
    (t : ℕ) (rs : List (ReceiptWithState Checked SignedReceipt))
    → All (λ r. r.message.timestamp_ns ≤ t) (sent rs)
    → count_if (λ r. not (leb r.receipt.message.timestamp_ns t)) rs ≡ 0
none_uncovered t [] h = refl
none_uncovered t (r ∷ rs) h = ground (arith, none_uncovered t rs h.1)

-- A receipt before the range is covered by the previous voucher.
before_range :
    (previous : Option SignedRav) (t : ℕ)
    → t < min_timestamp_after previous
    → t ≤ (aggregate_start previous).0
before_range none t h = absurd (omega (arith, h))
before_range (some rav) t h = omega arith

-- A stored receipt that is later than the previous voucher and from before an end.
abbrev pub in_round : Option SignedRav → ℕ → Stored → Bool
in_round previous end r = timestamp_range (min_timestamp_after previous) end (stamp r)

module _ (alloy : Alloy) ⦃receipt_sol : SolStruct Receipt⦄
    ⦃rav_sol : SolStruct ReceiptAggregateVoucher⦄ (sort : List Stored → List Stored)
    (sort-IsSorted : (rs : List Stored) → IsSorted (sort rs))
    (sort-SameCounts : (rs : List Stored) → SameCounts (sort rs) rs) {Ctx : Type 0}
    (manager : Manager Ctx SignedReceipt) (ctx : Ctx) (signers : SignerRegistry) (now buffer : ℕ)
    (s : InMemoryContext) (in_time : now < u64_mod) (past : buffer ≤ now) where
  module _ (request : RavRequest SignedReceipt ReceiptAggregateVoucher) (signed : SignedRav)
      (after : InMemoryContext)
      (t : Settled alloy sort manager ctx signers (ok now) buffer none request signed s after)
      (no_invalid : request.invalid_receipts ≡ []) where
    late : Stored → Bool
    late r = not (leb (stamp r) signed.message.timestamp_ns)

    sound :
        IsSound ⦃receipt_read = memory_receipt_read sort⦄ ⦃u = signed_unique_id alloy⦄ manager ctx
          (ok now)
          buffer
          none
          s
          request
    sound =
        Settled-IsSound alloy sort sort-IsSorted sort-SameCounts manager ctx signers (ok now) buffer
          none request signed s after t

    added : IsAdded alloy (sent request.valid_receipts) request.previous_rav signed
    added =
        Settled-IsAdded alloy sort sort-IsSorted sort-SameCounts manager ctx signers (ok now) buffer
          none request signed s after t

    range : ℕ → Bool
    range =
        timestamp_range (min_timestamp_after request.previous_rav)
          (sub_u64 (IsSound.now sound) buffer)

    same_now : IsSound.now sound ≡ now
    unfolding get_current_timestamp_u64_ns
    same_now = ground (arith, IsSound.at_now sound)

    in_range-late : count_if (λ r. range (stamp r) && late r) (stored s) ≡ 0
    unfolding late range
    in_range-late = omega (
      arith,
      none_uncovered signed.message.timestamp_ns request.valid_receipts (IsAdded.covered added),
      IsSound.all_there sound (λ r. not (leb r.message.timestamp_ns signed.message.timestamp_ns)),
      ap length no_invalid,
      invalid_zero,
      retrieve_receipts-all sort sort-IsSorted sort-SameCounts range s (IsSound.retrieved sound)
          (IsSound.from_storage sound) late,
    )
      where
        invalid_zero :
            count_if
              (λ r. not (leb r.receipt.message.timestamp_ns signed.message.timestamp_ns))
              request.invalid_receipts
            ≡ 0
        invalid_zero = rw no_invalid

    past_late :
        (r : Stored)
        → (late r && ltb (stamp r) (now - buffer)) ≡ true
        → (range (stamp r) && late r) ≡ true
    unfolding late range
    past_late r h =
        let low = before_range request.previous_rav (stamp r) in
        let grows = IsAdded.grows added in ground (arith, h, low, grows, same_now, in_time, past)

    none_past : count_if (λ r. late r && ltb (stamp r) (now - buffer)) (stored s) ≡ 0
    none_past = omega (
      arith,
      in_range-late,
      count_if_mono (λ r. late r && ltb (stamp r) (now - buffer)) (λ r. range (stamp r) && late r)
          (stored s) past_late,
    )

    drained :
        All
          (λ e. now - buffer ≤ stamp e.1)
          (remove_obsolete_receipts ReceiptAggregateVoucher manager after).1.receipt_storage
    unfolding late
    drained =
        rw
          (
            verify_and_store_rav-stores alloy manager (Settled.expected t) signed s after
                (Settled.stores t),
            clean-receipt_storage manager signed s,
          )
          (All-map (λ e h. ground (arith, h))
            (retain (λ (e : ℕ × Stored). late e.1) s.receipt_storage)
            (count_if_zero (λ (e : ℕ × Stored). ltb (stamp e.1) (now - buffer))
              (retain (λ (e : ℕ × Stored). late e.1) s.receipt_storage)
              (count_if-retain (λ (e : ℕ × Stored). ltb (stamp e.1) (now - buffer))
                  (λ (e : ℕ × Stored). late e.1) s.receipt_storage
                ∙ sym (
                    count_if-map (λ (r : Stored). late r && ltb (stamp r) (now - buffer))
                      (λ (e : ℕ × Stored). e.1) s.receipt_storage)
                ∙ none_past)))

    same_start : min_timestamp_after request.previous_rav ≡ min_timestamp_after s.rav_storage
    same_start =
        ap (λ (o : Option SignedRav). min_timestamp_after o)
          (Settled-previous alloy sort manager ctx signers (ok now) buffer none request signed s
            after t)

    same_end : sub_u64 (IsSound.now sound) buffer ≡ now - buffer
    same_end = omega (arith, same_now, in_time, past)

    -- The stored receipts of the range are the ones that were sent, each as often.
    range-sent :
        (p : SignedReceipt → Bool)
        → count_if p (sent request.valid_receipts)
          ≡ count_if (λ r. in_round s.rav_storage (now - buffer) r && p r.receipt) (stored s)
    range-sent p =
        let all =
          retrieve_receipts-all sort sort-IsSorted sort-SameCounts
            (timestamp_range (min_timestamp_after request.previous_rav)
              (sub_u64 (IsSound.now sound) buffer))
            s (IsSound.retrieved sound) (IsSound.from_storage sound) (λ r. p r.receipt) in
        let renamed : count_if
              (λ r.
                timestamp_range (min_timestamp_after request.previous_rav)
                  (sub_u64 (IsSound.now sound) buffer) (stamp r)
                && p r.receipt)
              (stored s)
            ≡ count_if (λ r. in_round s.rav_storage (now - buffer) r && p r.receipt) (stored s) =
          rw (same_start, same_end) refl in
        omega (
          arith,
          count_if-map p (λ (r : ReceiptWithState Checked SignedReceipt). r.receipt)
              request.valid_receipts,
          IsSound.all_there sound p,
          all,
          renamed,
          none_invalid,
        )
      where
        none_invalid : count_if (λ r. p r.receipt) request.invalid_receipts ≡ 0
        none_invalid = rw no_invalid

  -- When `request_rav` succeeds, the context stores the voucher that the aggregator signed for the
  -- receipts of the request. These are exactly the stored receipts that are later than the previous
  -- voucher and from before the buffer, each as often as it is stored. Once the obsolete receipts
  -- are removed, every receipt that is still stored is from the buffer on.
  pub request_rav-drained :
      (version : String) (threshold : ℕ) (after : InMemoryContext)
      → request_rav alloy sort manager ctx signers (ok now) buffer version threshold s
        ≡ (ok tt, after)
      → (request : RavRequest SignedReceipt ReceiptAggregateVoucher) × (signed : SignedRav)
        × (check_and_aggregate_receipts alloy manager.domain_separator
              (sent request.valid_receipts)
              s.rav_storage
              signers
            ≡ ok signed)
        × (after.rav_storage ≡ some signed)
        × ((p : SignedReceipt → Bool)
            → count_if p (sent request.valid_receipts)
              ≡ count_if (λ r. in_round s.rav_storage (now - buffer) r && p r.receipt) (stored s))
        × All
            (λ e. now - buffer ≤ e.1.receipt.message.timestamp_ns)
            (remove_obsolete_receipts ReceiptAggregateVoucher manager after).1.receipt_storage
  request_rav-drained version threshold after h =
      elim (request_rav-Answered alloy sort manager ctx signers (ok now) buffer version threshold
        s) [
          | inl (_, fails) ↦ absurd (fails (ap (λ r. r.0) h))
          | inr (request, signed, t, full) ↦
              let settled = rw (ap (λ r. r.1) h) at t in
              let whole = (full (ap (λ r. r.0) h)).1 in
              let previous =
                Settled-previous alloy sort manager ctx signers (ok now) buffer none request signed
                  s after settled in
              (
                request,
                signed,
                rw (← previous) (Settled.signs settled),
                ap (λ (c : InMemoryContext). c.rav_storage)
                      (verify_and_store_rav-stores alloy manager (Settled.expected settled) signed s
                        after (Settled.stores settled))
                    ∙ stored_rav signed s,
                range-sent request signed after settled whole,
                drained request signed after settled whole,
              )
        ]
