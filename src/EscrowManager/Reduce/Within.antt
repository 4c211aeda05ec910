-- ===== src/EscrowManager/Reduce/Within.antt =====
-- One deposit of a reduction (crates/bin/escrow_manager/src/main.rs: the body of the inner loop of
-- reduce_adjustments).
use graph_tally.Prelude.{
  ℕ, ◌+◌, ◌≤◌, ◌<◌, ◌≡◌, ◌∙◌, min, max, ◌⊎◌, inl, inr, List, [], ◌∷◌, map, some, if◌then◌else◌, ltb,
  ◌==◌, arith, Bool-cases, ==_iff,
}
use graph_tally.Prelude.Words.{add_u128, u128_mod}
use graph_tally.Prelude.Maps.{
  Map, lookup, insert, lookup-insert, HasUniqueKeys, insert-HasUniqueKeys, sum_values,
  sum_values-insert, lookup-sum_values,
}
use graph_tally.EscrowManager.{min_deposit}
use graph_tally.EscrowManager.Reduce.{value_at, hundred_grt, raise_towards}

abbrev pub keys : Map ℕ → List ℕ
keys m = map (λ (e : ℕ × ℕ). e.0) m

-- An insertion under a key that is there keeps the keys.
keys-insert : (k v w : ℕ) (m : Map ℕ) → lookup k m ≡ some v → keys (insert k w m) ≡ keys m
keys-insert k v w [] h = absurd (cc h)
keys-insert k v w ((j, x) ∷ m) h = ground (arith, keys-insert k v w m)

-- Maps with the same keys have the same ones set.
lookup-keys :
    (k v : ℕ) (m n : Map ℕ)
    → keys m ≡ keys n
    → lookup k n ≡ some v
    → (w : ℕ) × (lookup k m ≡ some w)
lookup-keys k v [] [] e h = absurd (cc h)
lookup-keys k v [] (_ ∷ n) e h = absurd (cc e)
lookup-keys k v (_ ∷ m) [] e h = absurd (cc e)
lookup-keys k v ((i, x) ∷ m) ((j, y) ∷ n) e h =
    let same : i ≡ j = cc e in
    let rest : keys m ≡ keys n = cc e in
    elim (Bool-cases (j == k)) [
      | inl here ↦ (x, ground arith)
      | inr further ↦ let (w, f) = lookup-keys k v m n rest (ground arith) in (w, ground arith)
    ]

-- The receivers are the desired ones, each with at least the minimal deposit and no more than the
-- larger of that and what it desires.
pub record IsWithin (desired adjustments : Map ℕ) : Type 0 where
  pub same_keys : keys adjustments ≡ keys desired
  pub unique : HasUniqueKeys adjustments
  pub within :
      (r d : ℕ)
      → lookup r desired ≡ some d
      → (min_deposit ≤ value_at r adjustments) × (value_at r adjustments ≤ max d min_deposit)

module _ (desired adj : Map ℕ) (r d : ℕ) (wants : lookup r desired ≡ some d)
    (w : IsWithin desired adj) (room : sum_values adj + hundred_grt < u128_mod) where
  abbrev raised : Map ℕ
  raised = raise_towards r d adj

  pub raised_value : ℕ
  raised_value =
      if ltb (value_at r adj) d
      then min d (add_u128 (value_at r adj) hundred_grt)
      else value_at r adj

  pub raised_value-bounds :
      (value_at r adj ≤ raised_value)
      × (raised_value ≤ max d (value_at r adj))
      × (raised_value ≤ value_at r adj + hundred_grt)
      × ((value_at r adj < raised_value) ⊎ (d ≤ value_at r adj))
  unfolding raised_value
  raised_value-bounds = ground (arith, lookup-sum_values r adj)

  pub raised-sum : sum_values raised + value_at r adj ≡ sum_values adj + raised_value
  unfolding raised_value raise_towards
  raised-sum = sum_values-insert r raised_value adj

  pub raised-value_at :
      (j : ℕ) → value_at j raised ≡ (if r == j then raised_value else value_at j adj)
  unfolding raised_value raise_towards
  raised-value_at j = ground (arith, lookup-insert r j raised_value adj)

  raised-within :
      (j e : ℕ)
      → lookup j desired ≡ some e
      → (min_deposit ≤ value_at j raised) × (value_at j raised ≤ max e min_deposit)
  raised-within j e h = elim (Bool-cases (r == j)) [
    | inl same ↦
        let is_r : r ≡ j = (==_iff r j).0 same in
        let is_d : e ≡ d = cc (is_r, h, wants) in
        let at_j : value_at j raised ≡ raised_value = rw raised-value_at (rw same) in
        let (low, high) = IsWithin.within w r d wants in
        let (up, cap, _, _) = raised_value-bounds in
        (omega (arith, at_j, low, up), omega (arith, at_j, cap, high, is_d))
    | inr other ↦
        let at_j : value_at j raised ≡ value_at j adj = rw raised-value_at (rw other) in
        rw at_j (IsWithin.within w j e h)
  ]

  pub raised-IsWithin : IsWithin desired raised
  unfolding raised_value raise_towards
  raised-IsWithin =
      let (v, there) = lookup-keys r d adj desired (IsWithin.same_keys w) wants in
      record {
        same_keys = keys-insert r v raised_value adj there ∙ IsWithin.same_keys w;
        unique = insert-HasUniqueKeys r raised_value adj (IsWithin.unique w);
        within = raised-within;
      }
