-- ===== src/Prelude/Maps.antt =====
-- Maps keyed by numbers, as association lists: `HashMap` and `BTreeMap`. The order of the list
-- stands for the order of iteration.
use Prim.Native.Nat.{ℕ, ◌≤◌, ◌<◌, ◌+◌}
use mathlib.Core.Path.{◌≡◌, refl}
use mathlib.Core.Bool.{Bool, true, false, not}
use mathlib.Core.Logic.{inl, inr}
use mathlib.Core.List.{List, [], ◌∷◌, ◌++◌, map}
use mathlib.Core.Option.{Option, none, some}
use native.Mathlib.Omega.{arith}
use graph_tally.Prelude.Tests.{◌==◌, if◌then◌else◌, Bool-cases}
use graph_tally.Prelude.Lists.{retain, All, sum_of}
use graph_tally.Prelude.Results.{map_or}

abbrev pub Map {ℓ} : Type ℓ → Type ℓ
Map V = List (ℕ × V)

module _ {ℓ} {V : Type ℓ} where
  -- A key that is there keeps its place.
  abbrev pub insert : ℕ → V → Map V → Map V
  insert key value [] = (key, value) ∷ []
  insert key value ((at_key, old) ∷ rest) =
      if at_key == key then (key, value) ∷ rest else (at_key, old) ∷ insert key value rest

  abbrev pub lookup : ℕ → Map V → Option V
  lookup key [] = none
  lookup key ((at_key, value) ∷ rest) = if at_key == key then some value else lookup key rest

  abbrev pub remove : ℕ → Map V → Map V
  remove k m = retain (λ e. not (e.0 == k)) m

  abbrev pub has_key : ℕ → Map V → Bool
  has_key k m = elim (lookup k m) [ none ↦ false | some _ ↦ true ]

  -- No key stands twice.
  abbrev pub HasUniqueKeys : Map V → Type ℓ
  HasUniqueKeys [] = Unit
  HasUniqueKeys ((k, _) ∷ m) = (lookup k m ≡ none) × HasUniqueKeys m

module _ {ℓ} {V : Type ℓ} where
  pub lookup-insert :
      (key asked : ℕ) (value : V) (map_ : Map V)
      → lookup asked (insert key value map_)
        ≡ (if key == asked then some value else lookup asked map_)
  lookup-insert key asked value [] = refl
  lookup-insert key asked value ((at_key, old) ∷ rest) =
      ground (arith, lookup-insert key asked value rest)

  pub lookup-remove :
      (k j : ℕ) (m : Map V) → lookup j (remove k m) ≡ (if k == j then none else lookup j m)
  lookup-remove k j [] = ground arith
  lookup-remove k j ((i, w) ∷ m) = ground (arith, lookup-remove k j m)

  pub insert_new : (k : ℕ) (v : V) (m : Map V) → lookup k m ≡ none → insert k v m ≡ m ++ (k, v) ∷ []
  insert_new k v [] h = refl
  insert_new k v ((j, w) ∷ m) h = ground (arith, insert_new k v m)

  pub insert-HasUniqueKeys :
      (k : ℕ) (v : V) (m : Map V) → HasUniqueKeys m → HasUniqueKeys (insert k v m)
  insert-HasUniqueKeys k v [] h = (refl, tt)
  insert-HasUniqueKeys k v ((j, w) ∷ m) h =
      ground (arith, lookup-insert k j v m, insert-HasUniqueKeys k v m h.1)

  pub lookup-retain-none :
      (p : ℕ × V → Bool) (k : ℕ) (m : Map V) → lookup k m ≡ none → lookup k (retain p m) ≡ none
  lookup-retain-none p k [] h = refl
  lookup-retain-none p k ((j, w) ∷ m) h = ground (arith, lookup-retain-none p k m)

  pub retain-HasUniqueKeys :
      (p : ℕ × V → Bool) (m : Map V) → HasUniqueKeys m → HasUniqueKeys (retain p m)
  retain-HasUniqueKeys p [] h = tt
  retain-HasUniqueKeys p ((j, w) ∷ m) h =
      ground (arith, lookup-retain-none p j m, retain-HasUniqueKeys p m h.1)

  -- Above all keys there is nothing.
  pub lookup_above : (k : ℕ) (m : Map V) → All (λ e. e.0 < k) m → lookup k m ≡ none
  lookup_above k [] h = refl
  lookup_above k ((j, w) ∷ m) h = ground (arith, lookup_above k m h.1)

  pub insert-All {κ} :
      (P : ℕ × V → Type κ) (k : ℕ) (v : V) (m : Map V) → P (k, v) → All P m → All P (insert k v m)
  insert-All P k v [] h a = (h, tt)
  insert-All P k v ((j, w) ∷ m) h a = elim (Bool-cases (j == k)) [
    | inl e ↦ rw e (h, a.1)
    | inr e ↦ rw e (a.0, insert-All P k v m h a.1)
  ]

  -- With unique keys, filtering keeps the value of a key or drops it.
  pub lookup-retain :
      (p : ℕ × V → Bool) (k : ℕ) (v : V) (m : Map V)
      → HasUniqueKeys m
      → lookup k m ≡ some v
      → lookup k (retain p m) ≡ (if p (k, v) then some v else none)
  lookup-retain p k v [] u h = absurd (cc h)
  lookup-retain p k v ((j, w) ∷ m) u h =
      ground (arith, lookup-retain-none p k m, lookup-retain p k v m u.1)

  -- Values that are mapped are found as before.
  pub lookup-map {κ} :
      {W : Type κ} (f : V → W) (k : ℕ) (m : Map V)
      → lookup k (map (λ (e : ℕ × V). (e.0, f e.1)) m) ≡ map_or (lookup k m) none (λ v. some (f v))
  lookup-map f k [] = refl
  lookup-map f k ((j, w) ∷ m) = ground (arith, lookup-map f k m)

abbrev pub sum_values : Map ℕ → ℕ
sum_values m = sum_of (λ e. e.1) m

-- An insertion replaces the old value, zero when there is none, in the sum.
pub sum_values-insert :
    (k w : ℕ) (m : Map ℕ)
    → sum_values (insert k w m) + map_or (lookup k m) 0 (λ v. v) ≡ sum_values m + w
sum_values-insert k w [] = omega arith
sum_values-insert k w ((j, v) ∷ m) = ground (arith, sum_values-insert k w m)

pub lookup-sum_values : (k : ℕ) (m : Map ℕ) → map_or (lookup k m) 0 (λ v. v) ≤ sum_values m
lookup-sum_values k [] = omega arith
lookup-sum_values k ((j, v) ∷ m) = ground (arith, lookup-sum_values k m)
