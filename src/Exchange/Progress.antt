-- ===== src/Exchange/Progress.antt =====
-- Rounds come to an end: each takes receipts out of the storage
-- (crates/core/src/manager/core.rs, crates/core/src/manager/context/memory.rs).
pub mod Drained
use graph_tally.Prelude.{
  ℕ, suc, ◌+◌, ◌≤◌, ◌<◌, ◌≡◌, refl, sym, ap, ◌∙◌, Bool, true, false, not, ◌&&◌, List, [], ◌∷◌, map,
  Option, none, some, Result, ok, err, leb, ltb, if◌then◌else◌, length, length-map, retain,
  count_if, count_if-map, All, arith, Bool-cases, Option-cases, inl, inr,
}
use graph_tally.Message.{Alloy, SolStruct}
use graph_tally.Receipt.{Checked, ReceiptWithState, signed_value, signed_unique_id}
use graph_tally.Graph.{
  Receipt, ReceiptAggregateVoucher, SignedReceipt, SignedRav, receipt_value, rav_value,
}
use graph_tally.Core.{RavRequest}
use graph_tally.Core.Adapters.Truncate.Cutoff.{IsSorted, SameCounts}
use graph_tally.Core.Memory.{
  InMemoryContext, Stored, memory_rav_read, memory_receipt_read, memory_receipt_delete, last_rav,
  update_last_rav, remove_receipts_in_timestamp_range, retrieve_receipts_in_timestamp_range,
}
use graph_tally.Core.Memory.Retrieve.{
  stamp, stored, retrieve_receipts-all, retrieve_receipts-limited,
}
use graph_tally.Core.Requests.{Manager, get_previous_rav}
use graph_tally.Core.Requests.Sound.{create_rav_request-IsSound, IsSound}
use graph_tally.Core.Manager.{remove_obsolete_receipts}
use graph_tally.Core.Vouchers.{graph_aggregate}
use graph_tally.Aggregator.Signers.{SignerRegistry}
use graph_tally.Aggregator.Agreement.{sent}
use graph_tally.Exchange.{Settled}
use graph_tally.Exchange.Ledger.{IsAdded, check_and_aggregate-IsAdded}
use graph_tally.Exchange.Ledger.Run.{verify_and_store_rav-stores}

count_if-and-le :
    {A : Type 0} (p q : A → Bool) (xs : List A) → count_if (λ x. q x && p x) xs ≤ count_if p xs
count_if-and-le p q [] = omega arith
count_if-and-le p q (x ∷ xs) = ground (arith, count_if-and-le p q xs)

-- What a test drops and what it keeps.
length-retain-not :
    {A : Type 0} (p : A → Bool) (xs : List A)
    → length (retain (λ x. not (p x)) xs) + count_if p xs ≡ length xs
length-retain-not p [] = omega arith
length-retain-not p (x ∷ xs) = ground (arith, length-retain-not p xs)

-- Storing a voucher and removing what it covers.
pub clean-receipt_storage :
    {Ctx : Type 0} (manager : Manager Ctx SignedReceipt) (signed : SignedRav) (s : InMemoryContext)
    → (remove_obsolete_receipts ReceiptAggregateVoucher manager
        (update_last_rav signed s).1).1.receipt_storage
      ≡ retain
          (λ e. not (leb e.1.receipt.message.timestamp_ns signed.message.timestamp_ns))
          s.receipt_storage
unfolding remove_obsolete_receipts get_previous_rav last_rav update_last_rav
    remove_receipts_in_timestamp_range
clean-receipt_storage manager signed s = refl

module _ (alloy : Alloy) ⦃receipt_sol : SolStruct Receipt⦄
    ⦃rav_sol : SolStruct ReceiptAggregateVoucher⦄ (sort : List Stored → List Stored)
    (sort-IsSorted : (rs : List Stored) → IsSorted (sort rs))
    (sort-SameCounts : (rs : List Stored) → SameCounts (sort rs) rs) {Ctx : Type 0}
    (manager : Manager Ctx SignedReceipt) (ctx : Ctx) (signers : SignerRegistry) where
  -- What is retrieved is stored, as often.
  retrieved-le :
      (in_range : ℕ → Bool) (limit : Option ℕ) (s : InMemoryContext) (out : List Stored)
      → retrieve_receipts_in_timestamp_range sort in_range limit s ≡ ok out
      → (p : Stored → Bool) → count_if p out ≤ count_if p (stored s)
  retrieved-le in_range none s out h p = omega (
    arith,
    retrieve_receipts-all sort sort-IsSorted sort-SameCounts in_range s out h p,
    count_if-and-le p (λ r. in_range (stamp r)) (stored s),
  )
  retrieved-le in_range (some n) s out h p =
      let (found, e, _, (cutoff, counts)) =
        retrieve_receipts-limited sort sort-IsSorted sort-SameCounts in_range s n in
      let same : found ≡ out = ground arith in
      let low = count_if-and-le p (λ r. ltb (stamp r) cutoff) (stored s) in
      let part =
        count_if-and-le (λ r. ltb (stamp r) cutoff && p r) (λ r. in_range (stamp r)) (stored s) in
      rw (← same) (omega (arith, counts p, part, low))

  module _ (clock : Result ℕ (Unit {0})) (buffer : ℕ) (limit : Option ℕ)
      (request : RavRequest SignedReceipt ReceiptAggregateVoucher) (signed : SignedRav)
      (s after : InMemoryContext)
      (t : Settled alloy sort manager ctx signers clock buffer limit request signed s after) where
    pub Settled-IsSound :
        IsSound ⦃receipt_read = memory_receipt_read sort⦄ ⦃u = signed_unique_id alloy⦄ manager ctx
          clock buffer limit s request
    Settled-IsSound =
        create_rav_request-IsSound ⦃receipt_read = memory_receipt_read sort⦄
          ⦃u = signed_unique_id alloy⦄ manager ctx clock buffer limit s request
          (Settled.requested t)

    pub Settled-IsAdded : IsAdded alloy (sent request.valid_receipts) request.previous_rav signed
    Settled-IsAdded =
        check_and_aggregate-IsAdded alloy manager.domain_separator request.previous_rav signers
          signed (sent request.valid_receipts) (Settled.signs t)

    abbrev covers : SignedReceipt → Bool
    covers r = leb r.message.timestamp_ns signed.message.timestamp_ns

    valid_nonempty : 1 ≤ length request.valid_receipts
    valid_nonempty = omega (
      arith,
      IsAdded.some_receipt Settled-IsAdded,
      length-map (λ (r : ReceiptWithState Checked SignedReceipt). r.receipt) request.valid_receipts,
    )

    valid_covered :
        (rs : List (ReceiptWithState Checked SignedReceipt))
        → All (λ r. r.message.timestamp_ns ≤ signed.message.timestamp_ns) (sent rs)
        → count_if (λ r. covers r.receipt) rs ≡ length rs
    valid_covered [] h = refl
    valid_covered (r ∷ rs) h = ground (arith, valid_covered rs h.1)

    -- The storage has a receipt that the voucher covers.
    covered_stored : 1 ≤ count_if (λ r. covers r.receipt) (stored s)
    covered_stored =
        let sound = Settled-IsSound in
        omega (
          arith,
          valid_nonempty,
          valid_covered request.valid_receipts (IsAdded.covered Settled-IsAdded),
          IsSound.all_there sound covers,
          retrieved-le _ limit s (IsSound.retrieved sound) (IsSound.from_storage sound)
              (λ r. covers r.receipt),
        )

    clean-lt :
        length (remove_obsolete_receipts ReceiptAggregateVoucher manager after).1.receipt_storage
          + 1
        ≤ length s.receipt_storage
    clean-lt =
        rw
          (
            verify_and_store_rav-stores alloy manager (Settled.expected t) signed s after
                (Settled.stores t),
            clean-receipt_storage manager signed s,
          )
          (omega (
            arith,
            length-retain-not (λ (e : ℕ × Stored). covers e.1.receipt) s.receipt_storage,
            count_if-map (λ (r : Stored). covers r.receipt) (λ (e : ℕ × Stored). e.1)
                s.receipt_storage,
            covered_stored,
          ))

  -- A round, with the removal of the receipts that its voucher covers.
  pub data Rounds : ℕ → InMemoryContext → InMemoryContext → Type 0 where
    stop : {n : ℕ} {s : InMemoryContext} → n ≡ 0 → Rounds n s s
    again :
        {n m : ℕ} {s mid next after : InMemoryContext} (clock : Result ℕ (Unit {0})) (buffer : ℕ)
        (limit : Option ℕ) (request : RavRequest SignedReceipt ReceiptAggregateVoucher)
        (signed : SignedRav)
        → Settled alloy sort manager ctx signers clock buffer limit request signed s mid
        → (remove_obsolete_receipts ReceiptAggregateVoucher manager mid).1 ≡ next
        → Rounds n next after
        → suc n ≡ m
        → Rounds m s after

  -- However many receipts arrived before, rounds that store a voucher, each followed by the removal
  -- of what the voucher covers, are no more than the receipts that they take out of the storage: so
  -- without new receipts they come to an end.
  pub Rounds-bounded :
      {n : ℕ} {s after : InMemoryContext}
      → Rounds n s after
      → n + length after.receipt_storage ≤ length s.receipt_storage
  Rounds-bounded (stop h) = omega (arith, h)
  Rounds-bounded
        (again {n = n} {s = s} {mid = mid} {after = after} clock buffer limit request signed t same
          rest h) =
      let fewer = clean-lt clock buffer limit request signed s mid t in
      let most = Rounds-bounded rest in
      omega (arith, h, most, fewer, ap (λ (c : InMemoryContext). length c.receipt_storage) same)
