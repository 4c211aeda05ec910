-- ===== src/Core/Vouchers.antt =====
-- The Graph's voucher in the core crate's traits (crates/graph/src/rav.rs: the derived comparison
-- and `impl Aggregate`).
use graph_tally.Prelude.{ℕ, ◌≡◌, refl, Bool, true, false, ◌&&◌, List, [], ◌∷◌, ◌==◌, arith}
use graph_tally.Graph.{ReceiptAggregateVoucher, SignedReceipt, aggregate_checked}
use graph_tally.Core.Requests.{Aggregate}
use graph_tally.Core.Manager.{PartialEq}

instance abbrev pub graph_aggregate : Aggregate SignedReceipt ReceiptAggregateVoucher
graph_aggregate = record { aggregate_receipts = aggregate_checked }

abbrev bytes_eq : List ℕ → List ℕ → Bool
bytes_eq [] [] = true
bytes_eq [] (y ∷ ys) = false
bytes_eq (x ∷ xs) [] = false
bytes_eq (x ∷ xs) (y ∷ ys) = x == y && bytes_eq xs ys

unfoldable pub rav_eq : ReceiptAggregateVoucher → ReceiptAggregateVoucher → Bool
rav_eq a b =
    a.collection_id == b.collection_id
    && a.payer == b.payer
    && a.service_provider == b.service_provider
    && a.data_service == b.data_service
    && a.timestamp_ns == b.timestamp_ns
    && a.value_aggregate == b.value_aggregate
    && bytes_eq a.metadata b.metadata

instance abbrev pub rav_partial_eq : PartialEq ReceiptAggregateVoucher
rav_partial_eq = record { eq = rav_eq }

bytes_eq_refl : (xs : List ℕ) → bytes_eq xs xs ≡ true
bytes_eq_refl [] = refl
bytes_eq_refl (x ∷ xs) = ground (arith, bytes_eq_refl xs)

pub rav_eq_refl : (a : ReceiptAggregateVoucher) → rav_eq a a ≡ true
unfolding rav_eq
rav_eq_refl a = ground (arith, bytes_eq_refl a.metadata)

bytes_eq-true : (xs ys : List ℕ) → bytes_eq xs ys ≡ true → xs ≡ ys
bytes_eq-true [] [] h = refl
bytes_eq-true [] (y ∷ ys) h = absurd (cc h)
bytes_eq-true (x ∷ xs) [] h = absurd (cc h)
bytes_eq-true (x ∷ xs) (y ∷ ys) h = ground (arith, bytes_eq-true xs ys)

pub rav_eq-true : (a b : ReceiptAggregateVoucher) → rav_eq a b ≡ true → a ≡ b
unfolding rav_eq
rav_eq-true a b h = ground (arith, bytes_eq-true a.metadata b.metadata)
