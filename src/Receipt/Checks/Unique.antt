-- ===== src/Receipt/Checks/Unique.antt =====
-- `UniqueCheck::check_batch` keeps the first receipt of each identity (crates/receipt/src/checks.rs).
use graph_tally.Prelude.{
  ℕ, ◌+◌, ◌≡◌, refl, Bool, false, List, [], ◌∷◌, ◌++◌, map, ok, if◌then◌else◌, retain, arith,
  Bool-cases, inl, inr, contains, take, All, All-map, count_if, ◌==◌,
}
use mathlib.Core.List.{append_assoc, append-nil}
use graph_tally.Receipt.{
  ReceiptError, WithUniqueId, Checking, Failed, ReceiptWithState, perform_state_error, error_of,
}
use graph_tally.Receipt.Checks.{CheckBatchResponse, unique_step, unique_loop, unique_check_batch}

-- No number stands twice.
abbrev pub IsUnique : List ℕ → Type 0
IsUnique [] = Unit
IsUnique (x ∷ xs) = (contains xs x ≡ false) × IsUnique xs

module _ {Rcpt : Type 0} ⦃u : WithUniqueId Rcpt⦄ where
  abbrev pub id_of : {S : Type 0} → ReceiptWithState S Rcpt → ℕ
  id_of r = u.unique_id r.receipt

  abbrev pub repeated : ReceiptWithState Checking Rcpt → ReceiptWithState Failed Rcpt
  repeated r = perform_state_error r ReceiptError.non_unique_receipt

  -- What the loop pushes to its two vectors, from the identities that it has seen.
  abbrev seen_with : List ℕ → ReceiptWithState Checking Rcpt → List ℕ
  seen_with seen r = if contains seen (id_of r) then seen else id_of r ∷ seen

  kept : List ℕ → List (ReceiptWithState Checking Rcpt) → List (ReceiptWithState Checking Rcpt)
  kept seen [] = []
  kept seen (r ∷ rs) =
      let rest = kept (seen_with seen r) rs in if contains seen (id_of r) then rest else r ∷ rest

  dropped : List ℕ → List (ReceiptWithState Checking Rcpt) → List (ReceiptWithState Failed Rcpt)
  dropped seen [] = []
  dropped seen (r ∷ rs) =
      let rest = dropped (seen_with seen r) rs in
      if contains seen (id_of r) then repeated r ∷ rest else rest

  unique_loop-split :
      (seen : List ℕ) (acc : CheckBatchResponse Rcpt) (rs : List (ReceiptWithState Checking Rcpt))
      → (unique_loop (seen, acc) rs).1 ≡ (acc.0 ++ kept seen rs, acc.1 ++ dropped seen rs)
  unfolding unique_loop unique_step kept dropped
  unique_loop-split seen (xs, ys) [] = simp append-nil
  unique_loop-split seen (xs, ys) (r ∷ rs) = elim (Bool-cases (contains seen (id_of r))) [
    | inl h ↦ ground (
      arith,
      unique_loop-split seen (xs, ys ++ repeated r ∷ []) rs,
      append_assoc ys (repeated r ∷ []) (dropped seen rs),
    )
    | inr h ↦ ground (
      arith,
      unique_loop-split (id_of r ∷ seen) (xs ++ r ∷ [], ys) rs,
      append_assoc xs (r ∷ []) (kept (id_of r ∷ seen) rs),
    )
  ]

  kept-unseen :
      (seen : List ℕ) (rs : List (ReceiptWithState Checking Rcpt))
      → All (λ r. contains seen (id_of r) ≡ false) (kept seen rs)
  unfolding kept
  kept-unseen seen [] = tt
  kept-unseen seen (r ∷ rs) = elim (Bool-cases (contains seen (id_of r))) [
    | inl h ↦ rw h (kept-unseen seen rs)
    | inr h ↦ rw h (
      h,
      All-map (λ x e. ground arith) (kept (id_of r ∷ seen) rs) (kept-unseen (id_of r ∷ seen) rs),
    )
  ]

  -- A receipt whose identity is not in the list.
  contains-map_ne :
      (a : ℕ) (seen : List ℕ) (rs : List (ReceiptWithState Checking Rcpt))
      → All (λ r. contains (a ∷ seen) (id_of r) ≡ false) rs
      → contains (map id_of rs) a ≡ false
  contains-map_ne a seen [] h = refl
  contains-map_ne a seen (r ∷ rs) h = ground (arith, contains-map_ne a seen rs h.1)

  kept-IsUnique :
      (seen : List ℕ) (rs : List (ReceiptWithState Checking Rcpt))
      → IsUnique (map id_of (kept seen rs))
  unfolding kept
  kept-IsUnique seen [] = tt
  kept-IsUnique seen (r ∷ rs) = elim (Bool-cases (contains seen (id_of r))) [
    | inl h ↦ rw h (kept-IsUnique seen rs)
    | inr h ↦ rw h (
      contains-map_ne (id_of r) seen (kept (id_of r ∷ seen) rs) (kept-unseen (id_of r ∷ seen) rs),
      kept-IsUnique (id_of r ∷ seen) rs,
    )
  ]

  kept-first :
      (seen : List ℕ) (i : ℕ) (rs : List (ReceiptWithState Checking Rcpt))
      → retain (λ r. id_of r == i) (kept seen rs)
        ≡ (if contains seen i then [] else take 1 (retain (λ r. id_of r == i) rs))
  unfolding kept
  kept-first seen i [] = ground arith
  kept-first seen i (r ∷ rs) = ground (arith, kept-first (seen_with seen r) i rs)

  dropped-count :
      (seen : List ℕ) (p : Rcpt → Bool) (rs : List (ReceiptWithState Checking Rcpt))
      → count_if (λ r. p r.receipt) (kept seen rs) + count_if (λ r. p r.receipt) (dropped seen rs)
        ≡ count_if (λ r. p r.receipt) rs
  unfolding kept dropped perform_state_error
  dropped-count seen p [] = refl
  dropped-count seen p (r ∷ rs) = ground (arith, dropped-count (seen_with seen r) p rs)

  dropped-repeated :
      (seen : List ℕ) (rs : List (ReceiptWithState Checking Rcpt))
      → All (λ r. error_of r ≡ ReceiptError.non_unique_receipt) (dropped seen rs)
  unfolding dropped perform_state_error
  dropped-repeated seen [] = tt
  dropped-repeated seen (r ∷ rs) = ground (arith, dropped-repeated (seen_with seen r) rs)

  module _ (rs passed : List (ReceiptWithState Checking Rcpt))
      (repeats : List (ReceiptWithState Failed Rcpt))
      (result : unique_check_batch rs ≡ ok (passed, repeats)) where
    passed-kept : (passed ≡ kept [] rs) × (repeats ≡ dropped [] rs)
    unfolding unique_check_batch
    passed-kept = ground (arith, unique_loop-split [] ([], []) rs)

    -- No identity stands twice among the receipts that pass.
    pub passed-IsUnique : IsUnique (map id_of passed)
    passed-IsUnique = rw passed-kept.0 (kept-IsUnique [] rs)

    -- Of each identity exactly the first receipt passes, and every receipt of the batch is among
    -- those that pass or those that fail, as often as before.
    pub unique_check_batch-first :
        ((i : ℕ) → retain (λ r. id_of r == i) passed ≡ take 1 (retain (λ r. id_of r == i) rs))
        × ((p : Rcpt → Bool)
            → count_if (λ r. p r.receipt) passed + count_if (λ r. p r.receipt) repeats
              ≡ count_if (λ r. p r.receipt) rs)
        × All (λ r. error_of r ≡ ReceiptError.non_unique_receipt) repeats
    unique_check_batch-first = (
      (λ i. rw passed-kept.0 (kept-first [] i rs)),
      (λ p. rw (passed-kept.0, passed-kept.1) (dropped-count [] p rs)),
      rw passed-kept.1 (dropped-repeated [] rs),
    )
