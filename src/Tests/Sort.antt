-- ===== src/Tests/Sort.antt =====
-- An insertion sort by timestamp, for the sort that the truncation takes as a parameter.
use graph_tally.Prelude.{
  ℕ, ◌≤◌, ◌≡◌, refl, Bool, List, [], ◌∷◌, if◌then◌else◌, leb, All, All-map, count_if, arith,
  Bool-cases, inl, inr, leb→le, leb-false,
}
use graph_tally.Receipt.{signed_value}
use graph_tally.Graph.{receipt_value}
use graph_tally.Core.Adapters.Truncate.Cutoff.{ts, IsSorted, SameCounts}
use graph_tally.Core.Memory.{Stored}

abbrev pub insert_sorted : Stored → List Stored → List Stored
insert_sorted x [] = x ∷ []
insert_sorted x (y ∷ ys) =
    let rest = insert_sorted x ys in if leb (ts x) (ts y) then x ∷ y ∷ ys else y ∷ rest

abbrev pub sort : List Stored → List Stored
sort [] = []
sort (x ∷ xs) = insert_sorted x (sort xs)

insert-count :
    (p : Stored → Bool) (x : Stored) (xs : List Stored)
    → count_if p (insert_sorted x xs) ≡ count_if p (x ∷ xs)
insert-count p x [] = refl
insert-count p x (y ∷ ys) = ground (arith, insert-count p x ys)

pub sort-SameCounts : (xs : List Stored) → SameCounts (sort xs) xs
sort-SameCounts [] p = refl
sort-SameCounts (x ∷ xs) p = omega (arith, insert-count p x (sort xs), sort-SameCounts xs p)

insert-All :
    (n : ℕ) (x : Stored) (xs : List Stored)
    → n ≤ ts x
    → All (λ y. n ≤ ts y) xs
    → All (λ y. n ≤ ts y) (insert_sorted x xs)
insert-All n x [] h a = (h, tt)
insert-All n x (y ∷ ys) h a = elim (Bool-cases (leb (ts x) (ts y))) [
  | inl e ↦ rw e (h, a)
  | inr e ↦ rw e (a.0, insert-All n x ys h a.1)
]

insert-IsSorted : (x : Stored) (xs : List Stored) → IsSorted xs → IsSorted (insert_sorted x xs)
insert-IsSorted x [] h = (tt, tt)
insert-IsSorted x (y ∷ ys) h = elim (Bool-cases (leb (ts x) (ts y))) [
  | inl e ↦
      let low = leb→le (ts x) (ts y) e in
      rw e ((low, All-map (λ z k. omega (arith, low, k)) ys h.0), h)
  | inr e ↦
      let low = leb-false (ts x) (ts y) e in
      rw e (insert-All (ts y) x ys (omega (arith, low)) h.0, insert-IsSorted x ys h.1)
]

pub sort-IsSorted : (xs : List Stored) → IsSorted (sort xs)
sort-IsSorted [] = tt
sort-IsSorted (x ∷ xs) = insert-IsSorted x (sort xs) (sort-IsSorted xs)
