-- ===== src/EscrowManager/Reduce.antt =====
-- The reduction of the deposits of a cycle (crates/bin/escrow_manager/src/main.rs:
-- reduce_adjustments).
pub mod Within
pub mod Rounds
pub mod Cap
use graph_tally.Prelude.{
  ℕ, zero, suc, ◌+◌, ◌%◌, min, Bool, true, false, List, [], ◌∷◌, map, Option, Result, ok, err,
  if◌then◌else◌, ltb, leb, map_or, sum_of,
}
use graph_tally.Prelude.Words.{add_u128, u128_mod}
use graph_tally.Prelude.Maps.{Map, lookup, insert}
use graph_tally.EscrowManager.{grt, min_deposit, max_adjustment}

-- `.values().sum::<u128>()`
abbrev pub total : Map ℕ → ℕ
total m = sum_of (λ e. e.1) m % u128_mod

-- `collect` into a map: a later entry of a key replaces the earlier one.
abbrev pub collected : Map ℕ → List (ℕ × ℕ) → Map ℕ
collected m [] = m
collected m ((k, v) ∷ entries) = collected (insert k v m) entries

abbrev pub value_at : ℕ → Map ℕ → ℕ
value_at k m = map_or (lookup k m) 0 (λ v. v)

abbrev pub hundred_grt : ℕ
hundred_grt = 100000000000000000000

-- The body of the inner loop: up to 100 GRT more, and no more than desired.
unfoldable pub raise_towards : ℕ → ℕ → Map ℕ → Map ℕ
raise_towards receiver desired_value adjustments =
    let value = value_at receiver adjustments in
    insert receiver
      (if ltb value desired_value then min desired_value (add_u128 value hundred_grt) else value)
      adjustments

-- The inner loop, and whether it returned.
unfoldable pub raise_all : Map ℕ → Map ℕ → Bool × Map ℕ
unfolding raise_towards
raise_all [] adjustments = (false, adjustments)
raise_all ((receiver, desired_value) ∷ desired) adjustments =
    let raised = raise_towards receiver desired_value adjustments in
    if leb max_adjustment (total raised) then (true, raised) else raise_all desired raised

pub data Stopped : Type 0 where
  panicked out_of_fuel : Stopped

-- The outer loop, on fuel.
unfoldable pub raise_loop : ℕ → Map ℕ → Map ℕ → Result (Map ℕ) Stopped
unfolding raise_all
raise_loop zero desired adjustments = err out_of_fuel
raise_loop (suc fuel) desired adjustments =
    let (done, raised) = raise_all desired adjustments in
    elim done [ true ↦ ok raised | false ↦ raise_loop fuel desired raised ]

unfoldable pub reduce_adjustments : ℕ → List (ℕ × ℕ) → Result (Map ℕ) Stopped
unfolding raise_loop
reduce_adjustments fuel adjustments =
    let desired = collected [] adjustments in
    elim (ltb max_adjustment (total desired)) [
      | false ↦ err panicked
      | true ↦ raise_loop fuel desired (map (λ e. (e.0, min_deposit)) desired)
    ]
