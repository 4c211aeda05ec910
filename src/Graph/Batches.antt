-- ===== src/Graph/Batches.antt =====
-- Aggregation in batches and in any order.
use graph_tally.Prelude.{
  ◌≡◌, refl, ◌∙◌, ◌+◌, ℕ, max, List, [], ◌∷◌, ◌++◌, Option, some, Result, ok, ◌>>=◌, arith,
}
use mathlib.Core.Logic.{∥∥₁_elim}
use native.Mathlib.Nat.{ℕ_set}
use text.Mathlib.TextEquality.{IsScalar-prop}
use mathlib.Core.List.{Perm, Permᴰ}
use graph_tally.Message.{Address, FixedBytes}
use graph_tally.Receipt.{AggregationError}
use graph_tally.Graph.{
  SignedReceipt, SignedRav, aggregate_loop, aggregate_start, aggregate_receipts,
}

aggregate_loop-append :
    (acc : ℕ × ℕ) (xs ys : List SignedReceipt)
    → aggregate_loop acc (xs ++ ys) ≡ (aggregate_loop acc xs >>= λ a. aggregate_loop a ys)
unfolding aggregate_loop
aggregate_loop-append acc [] ys = refl
aggregate_loop-append (t, v) (r ∷ rs) ys =
    ground (arith, aggregate_loop-append (max t r.message.timestamp_ns, v + r.message.value) rs ys)

aggregate_loop-perm :
    (acc : ℕ × ℕ) {xs ys : List SignedReceipt}
    → Permᴰ xs ys
    → aggregate_loop acc xs ≡ aggregate_loop acc ys
unfolding aggregate_loop
aggregate_loop-perm acc Permᴰ.nil = refl
aggregate_loop-perm (t, v) (Permᴰ.cons {a = r} {b = s} e p) =
    ground (arith, e, aggregate_loop-perm (max t r.message.timestamp_ns, v + r.message.value) p)
aggregate_loop-perm (t, v) (Permᴰ.swap {a = r} {b = s} e f) = ground (arith, e, f)
aggregate_loop-perm acc (Permᴰ.trans p q) = aggregate_loop-perm acc p ∙ aggregate_loop-perm acc q

loop_result-set : IsSet (Result (ℕ × ℕ) AggregationError)
loop_result-set = hlevel (ℕ_set, IsScalar-prop)

module _ (collection_id : FixedBytes) (payer data_service service_provider : Address) where
  -- Aggregating a batch, signing the voucher, and aggregating a second batch on top of it, gives
  -- what aggregating both batches at once gives: the same voucher or the same error.
  pub aggregate_receipts-append :
      (xs ys : List SignedReceipt) (previous : Option SignedRav) (signed : SignedRav)
      → aggregate_receipts collection_id payer data_service service_provider xs previous
        ≡ ok signed.message
      → aggregate_receipts collection_id payer data_service service_provider ys (some signed)
        ≡ aggregate_receipts collection_id payer data_service service_provider (xs ++ ys) previous
  unfolding aggregate_receipts
  aggregate_receipts-append xs ys previous signed h =
      ground (arith, aggregate_loop-append (aggregate_start previous) xs ys)

  -- The order of the receipts does not matter.
  pub aggregate_receipts-perm :
      {xs ys : List SignedReceipt} (previous : Option SignedRav)
      → Perm xs ys
      → aggregate_receipts collection_id payer data_service service_provider xs previous
        ≡ aggregate_receipts collection_id payer data_service service_provider ys previous
  unfolding aggregate_receipts
  aggregate_receipts-perm {xs} {ys} previous p = rw (
      ∥∥₁_elim p
        (loop_result-set (aggregate_loop (aggregate_start previous) xs)
          (aggregate_loop (aggregate_start previous) ys))
        (aggregate_loop-perm (aggregate_start previous)))
