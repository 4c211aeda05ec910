-- ===== src/Core/Memory/Receipts.antt =====
-- The receipts and the voucher that the in-memory context stores
-- (crates/core/src/manager/context/memory.rs).
use graph_tally.Prelude.{
  ℕ, ◌+◌, ◌<◌, ◌-◌, ◌≡◌, Bool, not, List, [], ◌∷◌, none, some, ok, err, leb, ◌==◌, if◌then◌else◌,
  retain, All, All-map, All-retain_of, arith, Bool-cases, Option-cases, Result-cases, inl, inr,
}
use graph_tally.Prelude.Words.{u64_mod, add_u64}
use graph_tally.Prelude.Maps.{
  Map, lookup, insert, has_key, HasUniqueKeys, lookup-insert, lookup-remove, insert-HasUniqueKeys,
  retain-HasUniqueKeys, lookup_above, insert-All,
}
use graph_tally.Message.{Address}
use graph_tally.Receipt.{Anyhow}
use graph_tally.Receipt.Checks.{StatefulTimestampCheck, update_min_timestamp_ns}
use graph_tally.Graph.{SignedRav}
use graph_tally.Core.Memory.{
  no_receipt, increase_escrow, reduce_escrow, InMemoryContext, Stored, new_context, store_receipt,
  retrieve_receipt_by_id, remove_receipt_by_id, remove_receipts_by_ids,
  remove_receipts_in_timestamp_range, update_last_rav,
}

-- The ids are below the counter and different, and the timestamp check is at the stored voucher.
pub record IsWellFormed (s : InMemoryContext) : Type 0 where
  pub below : All (λ e. e.0 < s.unique_id) s.receipt_storage
  pub unique : HasUniqueKeys s.receipt_storage
  pub in_step :
      (rav : SignedRav)
      → s.rav_storage ≡ some rav
      → s.timestamp_check.min_timestamp_ns ≡ rav.message.timestamp_ns

module _ (s : InMemoryContext) (wf : IsWellFormed s) where
  retained :
      (p : ℕ × Stored → Bool)
      → IsWellFormed (record s { receipt_storage = retain p s.receipt_storage })
  retained p = record {
    below = All-retain_of (λ e. e.0 < s.unique_id) p s.receipt_storage (IsWellFormed.below wf);
    unique = retain-HasUniqueKeys p s.receipt_storage (IsWellFormed.unique wf);
    in_step = IsWellFormed.in_step wf;
  }

  new_id : lookup s.unique_id s.receipt_storage ≡ none
  new_id = lookup_above s.unique_id s.receipt_storage (IsWellFormed.below wf)

  store_receipt-IsWellFormed :
      (r : Stored) → s.unique_id + 1 < u64_mod → IsWellFormed (store_receipt r s).1
  unfolding store_receipt
  store_receipt-IsWellFormed r room = record {
    below =
        insert-All (λ e. e.0 < add_u64 s.unique_id 1) s.unique_id r s.receipt_storage (omega arith)
          (All-map (λ e h. omega arith) s.receipt_storage (IsWellFormed.below wf));
    unique = insert-HasUniqueKeys s.unique_id r s.receipt_storage (IsWellFormed.unique wf);
    in_step = IsWellFormed.in_step wf;
  }

  remove_receipt_by_id-IsWellFormed : (id : ℕ) → IsWellFormed (remove_receipt_by_id id s).1
  unfolding remove_receipt_by_id
  remove_receipt_by_id-IsWellFormed id = elim (Bool-cases (has_key id s.receipt_storage)) [
    | inl h ↦ rw h (retained (λ e. not (e.0 == id)))
    | inr h ↦ rw h wf
  ]

  remove_receipts_in_timestamp_range-IsWellFormed :
      (in_range : ℕ → Bool) → IsWellFormed (remove_receipts_in_timestamp_range in_range s).1
  unfolding remove_receipts_in_timestamp_range
  remove_receipts_in_timestamp_range-IsWellFormed in_range =
      retained (λ e. not (in_range e.1.receipt.message.timestamp_ns))

  update_last_rav-IsWellFormed : (rav : SignedRav) → IsWellFormed (update_last_rav rav s).1
  unfolding update_last_rav update_min_timestamp_ns
  update_last_rav-IsWellFormed rav = record {
    below = IsWellFormed.below wf;
    unique = IsWellFormed.unique wf;
    in_step = λ other h. ground arith;
  }

  escrow_only-IsWellFormed : (m : Map ℕ) → IsWellFormed (record s { sender_escrow_storage = m })
  escrow_only-IsWellFormed m = record {
    below = IsWellFormed.below wf;
    unique = IsWellFormed.unique wf;
    in_step = IsWellFormed.in_step wf;
  }

remove_receipts_by_ids-IsWellFormed :
    (ids : List ℕ) (s : InMemoryContext)
    → IsWellFormed s
    → IsWellFormed (remove_receipts_by_ids ids s).1
unfolding remove_receipts_by_ids
remove_receipts_by_ids-IsWellFormed [] s wf = wf
remove_receipts_by_ids-IsWellFormed (id ∷ ids) s wf =
    let kept = remove_receipt_by_id-IsWellFormed s wf id in
    elim (Result-cases (remove_receipt_by_id id s).0) [
      | inl (_, h) ↦
          rw (h, remove_receipts_by_ids)
            (remove_receipts_by_ids-IsWellFormed ids (remove_receipt_by_id id s).1 kept)
      | inr (e, h) ↦ rw (h, remove_receipts_by_ids) kept
    ]

-- The calls that change the context.
pub data Change : Type 0 where
  store : Stored → Change
  remove_id : ℕ → Change
  remove_ids : List ℕ → Change
  remove_range : (ℕ → Bool) → Change
  update_rav : SignedRav → Change
  add_escrow sub_escrow : Address → ℕ → Change

abbrev pub after : Change → InMemoryContext → InMemoryContext
after (store r) s = (store_receipt r s).1
after (remove_id id) s = (remove_receipt_by_id id s).1
after (remove_ids ids) s = (remove_receipts_by_ids ids s).1
after (remove_range in_range) s = (remove_receipts_in_timestamp_range in_range s).1
after (update_rav rav) s = (update_last_rav rav s).1
after (add_escrow a v) s = increase_escrow a v s
after (sub_escrow a v) s = (reduce_escrow a v s).1

-- What the calls lead to from an empty context, as long as the ids last.
pub data IsReachable : InMemoryContext → Type 0 where
  empty :
      (escrow : Map ℕ) (check : StatefulTimestampCheck)
      → IsReachable (new_context none [] escrow check)
  step :
      (s : InMemoryContext) (change : Change)
      → s.unique_id + 1 < u64_mod
      → IsReachable s
      → IsReachable (after change s)

reduce_escrow-IsWellFormed :
    (a : Address) (v : ℕ) (s : InMemoryContext)
    → IsWellFormed s
    → IsWellFormed (reduce_escrow a v s).1
unfolding reduce_escrow
reduce_escrow-IsWellFormed a v s wf = elim (Option-cases (lookup a s.sender_escrow_storage)) [
  | inl h ↦ rw (h, reduce_escrow) wf
  | inr (old, h) ↦ elim (Bool-cases (leb v old)) [
    | inl e ↦
        rw (h, e, reduce_escrow)
          (escrow_only-IsWellFormed s wf (insert a (old - v) s.sender_escrow_storage))
    | inr e ↦ rw (h, e, reduce_escrow) wf
  ]
]

-- Whatever calls change a context that starts empty, in whatever order and whether they succeed or
-- not, the ids in use stay different and below the counter, and the timestamp check stays at the
-- stored voucher's timestamp.
pub IsReachable-IsWellFormed : (s : InMemoryContext) → IsReachable s → IsWellFormed s
unfolding increase_escrow
IsReachable-IsWellFormed _ (empty escrow check) = record {
  below = tt;
  unique = tt;
  in_step = λ rav h. absurd (cc h);
}
IsReachable-IsWellFormed _ (step s (store r) room h) =
    store_receipt-IsWellFormed s (IsReachable-IsWellFormed s h) r room
IsReachable-IsWellFormed _ (step s (remove_id id) room h) =
    remove_receipt_by_id-IsWellFormed s (IsReachable-IsWellFormed s h) id
IsReachable-IsWellFormed _ (step s (remove_ids ids) room h) =
    remove_receipts_by_ids-IsWellFormed ids s (IsReachable-IsWellFormed s h)
IsReachable-IsWellFormed _ (step s (remove_range in_range) room h) =
    remove_receipts_in_timestamp_range-IsWellFormed s (IsReachable-IsWellFormed s h) in_range
IsReachable-IsWellFormed _ (step s (update_rav rav) room h) =
    update_last_rav-IsWellFormed s (IsReachable-IsWellFormed s h) rav
IsReachable-IsWellFormed _ (step s (add_escrow a v) room h) =
    escrow_only-IsWellFormed s (IsReachable-IsWellFormed s h) _
IsReachable-IsWellFormed _ (step s (sub_escrow a v) room h) =
    reduce_escrow-IsWellFormed a v s (IsReachable-IsWellFormed s h)

-- In a context reached so, a stored receipt is found under the id that storing it returned, and
-- every receipt that was there before is still found under its own.
pub store_receipt-retrieve :
    (s : InMemoryContext) (r : Stored) (id : ℕ)
    → IsReachable s
    → (store_receipt r s).0 ≡ ok id
    → (retrieve_receipt_by_id id (store_receipt r s).1 ≡ ok r)
      × ((other : ℕ) (old : Stored)
          → retrieve_receipt_by_id other s ≡ ok old
          → retrieve_receipt_by_id other (store_receipt r s).1 ≡ ok old)
unfolding store_receipt retrieve_receipt_by_id
store_receipt-retrieve s r id reach h =
    let fresh = new_id s (IsReachable-IsWellFormed s reach) in
    (
      ground (arith, lookup-insert s.unique_id id r s.receipt_storage),
      λ other old found. ground (arith, fresh, lookup-insert s.unique_id other r s.receipt_storage),
    )

-- Removing a stored receipt succeeds, after which it is not found any more and the others are;
-- removing an id that is not there is an error that changes nothing.
pub remove_receipt_by_id-retrieve :
    (s : InMemoryContext) (id : ℕ)
    → ((old : Stored)
        → retrieve_receipt_by_id id s ≡ ok old
        → ((remove_receipt_by_id id s).0 ≡ ok tt)
          × ((other : ℕ)
              → retrieve_receipt_by_id other (remove_receipt_by_id id s).1
                ≡ (if id == other then err no_receipt else retrieve_receipt_by_id other s)))
      × ((e : Anyhow)
          → retrieve_receipt_by_id id s ≡ err e
          → remove_receipt_by_id id s ≡ (err no_receipt, s))
unfolding remove_receipt_by_id retrieve_receipt_by_id
remove_receipt_by_id-retrieve s id = (
  (λ old h.
      (ground (arith, h), (λ other. ground (arith, h, lookup-remove id other s.receipt_storage)))),
  (λ e h. ground (arith, h)),
)
