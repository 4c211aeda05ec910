-- ===== src/Core/Memory/Retrieve.antt =====
-- What the in-memory context retrieves for a range of timestamps
-- (crates/core/src/manager/context/memory.rs: retrieve_receipts_in_timestamp_range).
use graph_tally.Prelude.{
  ℕ, ◌≡◌, ◌≤◌, ◌∙◌, Bool, true, ◌&&◌, List, map, none, some, ok, ltb, leb, ap, if◌then◌else◌,
  retain, length, count_if, count_if-retain, count_if-map, arith, Bool-cases, inl, inr,
}
use graph_tally.Prelude.Maps.{Map}
use graph_tally.Receipt.{signed_value}
use graph_tally.Graph.{receipt_value}
use graph_tally.Core.Adapters.Truncate.{safe_truncate_receipts}
use graph_tally.Core.Adapters.Truncate.Cutoff.{
  IsSorted, SameCounts, safe_truncate-cutoff, length-safe_truncate,
}
use graph_tally.Core.Memory.{InMemoryContext, Stored, retrieve_receipts_in_timestamp_range}

abbrev pub stamp : Stored → ℕ
stamp r = r.receipt.message.timestamp_ns

abbrev pub stored : InMemoryContext → List Stored
stored s = map (λ (e : ℕ × Stored). e.1) s.receipt_storage

in_range-stored :
    (p in_range : Stored → Bool) (m : Map Stored)
    → count_if p (map (λ (e : ℕ × Stored). e.1) (retain (λ e. in_range e.1) m))
      ≡ count_if (λ r. in_range r && p r) (map (λ (e : ℕ × Stored). e.1) m)
in_range-stored p in_range m =
    count_if-map p (λ (e : ℕ × Stored). e.1) (retain (λ e. in_range e.1) m)
    ∙ count_if-retain (λ (e : ℕ × Stored). p e.1) (λ e. in_range e.1) m
    ∙ sym_map
  where
    sym_map :
        count_if (λ (e : ℕ × Stored). in_range e.1 && p e.1) m
        ≡ count_if (λ r. in_range r && p r) (map (λ (e : ℕ × Stored). e.1) m)
    sym_map = rw (count_if-map (λ r. in_range r && p r) (λ (e : ℕ × Stored). e.1) m)

-- The guard around the truncation makes no difference.
truncate-guard :
    (sort : List Stored → List Stored) (found : List Stored) (n : ℕ)
    → (if ltb n (length found) then safe_truncate_receipts sort found n else found)
      ≡ safe_truncate_receipts sort found n
unfolding safe_truncate_receipts
truncate-guard sort found n = elim (Bool-cases (ltb n (length found))) [
  | inl h ↦ rw h
  | inr h ↦ let fits : leb (length found) n ≡ true = ground arith in rw (h, fits)
]

module _ (sort : List Stored → List Stored)
    (sort-IsSorted : (rs : List Stored) → IsSorted (sort rs))
    (sort-SameCounts : (rs : List Stored) → SameCounts (sort rs) rs) (in_range : ℕ → Bool)
    (s : InMemoryContext) where
  -- Without a limit, exactly the stored receipts in the range come back, each as often.
  pub retrieve_receipts-all :
      (out : List Stored)
      → retrieve_receipts_in_timestamp_range sort in_range none s ≡ ok out
      → (p : Stored → Bool) → count_if p out ≡ count_if (λ r. in_range (stamp r) && p r) (stored s)
  unfolding retrieve_receipts_in_timestamp_range
  retrieve_receipts-all out h p =
      let same : map (λ (e : ℕ × Stored). e.1)
            (retain (λ e. in_range (stamp e.1)) s.receipt_storage)
          ≡ out =
        ground arith in
      rw (← same) (in_range-stored p (λ r. in_range (stamp r)) s.receipt_storage)

  -- Retrieval never fails. With a limit, at most that many receipts come back, and for some
  -- timestamp they are exactly the stored receipts in the range before it: no timestamp is
  -- retrieved in part, and none is passed over.
  pub retrieve_receipts-limited :
      (limit : ℕ)
      → (out : List Stored) × (retrieve_receipts_in_timestamp_range sort in_range (some limit) s
          ≡ ok out)
        × (length out ≤ limit)
        × ((cutoff : ℕ) × ((p : Stored → Bool)
              → count_if p out
                ≡ count_if (λ r. in_range (stamp r) && (ltb (stamp r) cutoff && p r)) (stored s)))
  unfolding retrieve_receipts_in_timestamp_range
  retrieve_receipts-limited limit =
      let found =
        map (λ (e : ℕ × Stored). e.1) (retain (λ e. in_range (stamp e.1)) s.receipt_storage) in
      let (cutoff, counts) = safe_truncate-cutoff sort sort-IsSorted sort-SameCounts found limit in
      (
        safe_truncate_receipts sort found limit,
        ap ok (truncate-guard sort found limit),
        length-safe_truncate sort sort-IsSorted sort-SameCounts found limit,
        (
          cutoff,
          λ p.
              counts p
              ∙ in_range-stored (λ r. ltb (stamp r) cutoff && p r) (λ r. in_range (stamp r))
                  s.receipt_storage,
        ),
      )
