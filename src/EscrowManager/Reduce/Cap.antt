-- ===== src/EscrowManager/Reduce/Cap.antt =====
-- The reduction returns, and what it returns (crates/bin/escrow_manager/src/main.rs:
-- reduce_adjustments).
use graph_tally.Prelude.{
  ℕ, zero, suc, ◌+◌, ◌*◌, ◌≤◌, ◌<◌, ◌≡◌, refl, ◌∙◌, sym, ap, inl, inr, true, List, [], ◌∷◌, map,
  none, some, Result, ok, ltb, lt→ltb, sum_of, sum_of-map, length, All, arith, Bool-cases,
}
use graph_tally.Prelude.Words.{u128_mod}
use graph_tally.Prelude.Maps.{
  Map, lookup, insert, lookup-map, HasUniqueKeys, insert-HasUniqueKeys, sum_values,
}
use graph_tally.EscrowManager.{min_deposit, max_adjustment}
use graph_tally.EscrowManager.Reduce.{
  total, collected, value_at, hundred_grt, raise_all, raise_loop, Stopped, reduce_adjustments,
}
use graph_tally.EscrowManager.Reduce.Within.{keys, IsWithin}
use graph_tally.EscrowManager.Reduce.Rounds.{IsRaised, raise_all-IsRaised, raise_all-crowded}

collected-HasUniqueKeys :
    (m : Map ℕ) (entries : List (ℕ × ℕ)) → HasUniqueKeys m → HasUniqueKeys (collected m entries)
collected-HasUniqueKeys m [] h = h
collected-HasUniqueKeys m ((k, v) ∷ entries) h =
    collected-HasUniqueKeys (insert k v m) entries (insert-HasUniqueKeys k v m h)

-- With unique keys, every entry is found under its key.
entries-found : (m : Map ℕ) → HasUniqueKeys m → All (λ e. lookup e.0 m ≡ some e.1) m
entries-found [] h = tt
entries-found ((k, v) ∷ m) h = (ground arith, others m h.0 (entries-found m h.1))
  where
    others :
        (n : Map ℕ)
        → lookup k n ≡ none
        → All (λ e. lookup e.0 m ≡ some e.1) n
        → All (λ e. lookup e.0 ((k, v) ∷ m) ≡ some e.1) n
    others [] none_there a = tt
    others ((j, x) ∷ n) none_there a = (ground (arith, a.0), others n (ground arith) a.1)

-- Looked up by its own keys, a map sums to its values.
sum_values-keys : (m : Map ℕ) → HasUniqueKeys m → sum_of (λ e. value_at e.0 m) m ≡ sum_values m
sum_values-keys m h = same_sum m (entries-found m h)
  where
    same_sum :
        (n : Map ℕ)
        → All (λ e. lookup e.0 m ≡ some e.1) n
        → sum_of (λ e. value_at e.0 m) n ≡ sum_values n
    same_sum [] a = refl
    same_sum (e ∷ n) a = rw a.0 (ap (λ x. e.1 + x) (same_sum n a.1))

sum_values-le :
    (adj n : Map ℕ)
    → All (λ e. e.1 ≤ value_at e.0 adj) n
    → sum_values n ≤ sum_of (λ e. value_at e.0 adj) n
sum_values-le adj [] a = omega arith
sum_values-le adj (e ∷ n) a = omega (arith, a.0, sum_values-le adj n a.1)

-- Deposits that reach what is desired sum to at least as much.
satisfied :
    (desired adj : Map ℕ)
    → IsWithin desired adj
    → All (λ e. e.1 ≤ value_at e.0 adj) desired
    → sum_values desired ≤ sum_values adj
satisfied desired adj w a =
    let by_key : ℕ → ℕ = λ k. value_at k adj in
    let as_keys = sum_of-map by_key (λ (e : ℕ × ℕ). e.0) in
    let swapped =
      sym (as_keys desired)
      ∙ ap (sum_of by_key) (sym (IsWithin.same_keys w))
      ∙ as_keys adj
      ∙ sum_values-keys adj (IsWithin.unique w) in
    omega (arith, sum_values-le adj desired a, swapped)

-- What the reduction returns.
pub record IsReduced (desired : Map ℕ) (result : Result (Map ℕ) Stopped) : Type 0 where
  pub deposits : Map ℕ
  pub is_result : result ≡ ok deposits
  pub each_within : IsWithin desired deposits
  pub at_cap : max_adjustment ≤ sum_values deposits
  pub near_cap : length desired < 5000 → sum_values deposits < max_adjustment + hundred_grt
  pub crowded :
      5000 ≤ length desired → sum_values deposits ≤ length desired * min_deposit + hundred_grt

module _ (desired : Map ℕ) (unique : HasUniqueKeys desired)
    (over : max_adjustment < sum_values desired) where
  loop-IsReduced :
      (fuel : ℕ) (adj : Map ℕ)
      → length desired < 5000
      → IsWithin desired adj
      → sum_values adj < max_adjustment
      → max_adjustment ≤ sum_values adj + fuel
      → IsReduced desired (raise_loop fuel desired adj)
  unfolding raise_loop
  loop-IsReduced zero adj few w below enough = absurd (omega arith)
  loop-IsReduced (suc fuel) adj few w below enough =
      let r = raise_all-IsRaised desired desired adj (entries-found desired unique) w below in
      elim (Bool-cases (raise_all desired adj).0) [
        | inl done ↦
            let (cap, near) = IsRaised.returned r done in
            rw (done, raise_loop)
              (record {
                deposits = (raise_all desired adj).1;
                is_result = refl;
                each_within = IsRaised.stays_within r;
                at_cap = cap;
                near_cap = λ _. near;
                crowded = λ many. absurd (omega (arith, many, few));
              })
        | inr more ↦
            let (low, progress) = IsRaised.went_on r more in
            let grew : sum_values adj < sum_values (raise_all desired adj).1 = elim progress [
              | inl g ↦ g
              | inr all_enough ↦ absurd (omega (arith, satisfied desired adj w all_enough))
            ] in
            rw (more, raise_loop)
              (loop-IsReduced fuel (raise_all desired adj).1 few (IsRaised.stays_within r) low
                (omega (arith, grew)))
      ]

start-sum :
    (m : Map ℕ) → sum_values (map (λ (e : ℕ × ℕ). (e.0, min_deposit)) m) ≡ length m * min_deposit
start-sum [] = omega arith
start-sum (e ∷ m) = omega (arith, start-sum m)

start-keys : (m : Map ℕ) → keys (map (λ (e : ℕ × ℕ). (e.0, min_deposit)) m) ≡ keys m
start-keys [] = refl
start-keys (e ∷ m) = ap (λ ks. e.0 ∷ ks) (start-keys m)

start-HasUniqueKeys :
    (m : Map ℕ) → HasUniqueKeys m → HasUniqueKeys (map (λ (e : ℕ × ℕ). (e.0, min_deposit)) m)
start-HasUniqueKeys [] h = tt
start-HasUniqueKeys ((k, v) ∷ m) h =
    (ground (arith, h.0, lookup-map (λ (x : ℕ). min_deposit) k m), start-HasUniqueKeys m h.1)

start-IsWithin :
    (m : Map ℕ) → HasUniqueKeys m → IsWithin m (map (λ (e : ℕ × ℕ). (e.0, min_deposit)) m)
start-IsWithin m h = record {
  same_keys = start-keys m;
  unique = start-HasUniqueKeys m h;
  within = λ r d found. ground (arith, found, lookup-map (λ (x : ℕ). min_deposit) r m);
}

-- The minimal deposits alone reach the cap.
crowded-IsReduced :
    (desired : Map ℕ) (fuel : ℕ)
    → HasUniqueKeys desired
    → 5000 ≤ length desired
    → length desired * min_deposit + hundred_grt < u128_mod
    → IsReduced desired
        (raise_loop (suc fuel) desired (map (λ (e : ℕ × ℕ). (e.0, min_deposit)) desired))
unfolding raise_loop
crowded-IsReduced [] fuel unique many room = absurd (omega (arith, many))
crowded-IsReduced ((r, d) ∷ rest) fuel unique many room =
    let desired : Map ℕ = (r, d) ∷ rest in
    let start : Map ℕ = map (λ (e : ℕ × ℕ). (e.0, min_deposit)) desired in
    let sum = start-sum desired in
    let first : lookup r desired ≡ some d = (entries-found desired unique).0 in
    let (done, stays, low, high) =
      raise_all-crowded desired start r d rest first (start-IsWithin desired unique)
        (omega (arith, sum, room)) (omega (arith, sum, many)) in
    rw (done, raise_loop)
      (record {
        deposits = (raise_all desired start).1;
        is_result = refl;
        each_within = stays;
        at_cap = omega (arith, low, sum, many);
        near_cap = λ few. absurd (omega (arith, many, few));
        crowded = λ _. omega (arith, high, sum);
      })

-- When the desired deposits are too large together, their sum fits in `u128`, and so do the minimal
-- deposits with 100 GRT more, the reduction returns within as many rounds as the cap has wei. It
-- returns a deposit for every receiver, no less than the minimal deposit and no more than the larger
-- of that and what was desired. Together they reach the cap. With fewer than 5000 receivers they
-- exceed it by less than 100 GRT; with 5000 or more, whose minimal deposits reach it alone, they are
-- no more than these and 100 GRT.
pub reduce_adjustments-IsReduced :
    (adjustments : List (ℕ × ℕ)) (fuel : ℕ)
    → max_adjustment ≤ fuel
    → max_adjustment < sum_values (collected [] adjustments)
    → sum_values (collected [] adjustments) < u128_mod
    → length (collected [] adjustments) * min_deposit + hundred_grt < u128_mod
    → IsReduced (collected [] adjustments) (reduce_adjustments fuel adjustments)
unfolding reduce_adjustments
reduce_adjustments-IsReduced adjustments zero enough over fits room = absurd (omega (arith, enough))
reduce_adjustments-IsReduced adjustments (suc fuel) enough over fits room =
    let desired = collected [] adjustments in
    let unique = collected-HasUniqueKeys [] adjustments tt in
    let same : total desired ≡ sum_values desired = omega arith in
    let tested : ltb max_adjustment (total desired) ≡ true = rw same (lt→ltb _ _ over) in
    elim (Bool-cases (ltb (length desired) 5000)) [
      | inl few ↦
          let fewer : length desired < 5000 = ground (arith, few) in
          rw (tested, reduce_adjustments)
            (loop-IsReduced desired unique over (suc fuel)
              (map (λ (e : ℕ × ℕ). (e.0, min_deposit)) desired) fewer
              (start-IsWithin desired unique) (omega (arith, start-sum desired, fewer))
              (omega (arith, enough)))
      | inr many ↦
          rw (tested, reduce_adjustments)
            (crowded-IsReduced desired fuel unique (ground (arith, many)) room)
    ]
