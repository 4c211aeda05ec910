-- ===== src/EscrowManager/Cycle/Returns.antt =====
-- A cycle comes to an end (crates/bin/escrow_manager/src/main.rs: the plan and the transactions).
use graph_tally.Prelude.{
  ℕ, suc, ◌+◌, ◌*◌, ◌-◌, ◌≤◌, ◌<◌, ◌≡◌, refl, sym, ◌∙◌, Bool, false, ◌&&◌, List, [], ◌∷◌, ◌++◌,
  Option, none, some, Result, ok, ltb, leb, ◌==◌, length, length-append, count_if, count_if-append,
  All, All-append, arith, Bool-cases, inl, inr,
}
use mathlib.Core.List.{append_assoc, append-nil}
use native.Mathlib.Nat.{mul-le-mul_right}
use graph_tally.Prelude.Words.{u32_mod, u128_mod}
use graph_tally.Prelude.Maps.{Map, lookup, insert_new, sum_values}
use graph_tally.Message.{Address}
use graph_tally.EscrowManager.{
  EscrowAccount, Reclaim, Action, nothing, withdraw, deposit, thaw, decide, decide_thaw,
  has_matured, floor_of, grt, max_adjustment,
}
use graph_tally.EscrowManager.Target.{IsTarget, next_balance-fuel}
use graph_tally.EscrowManager.Reduce.{collected, total}
use graph_tally.EscrowManager.Reduce.Cap.{IsReduced, reduce_adjustments-IsReduced}
use graph_tally.EscrowManager.Cycle.{
  Plan, plan_action, make_plan, account_of, debt_of, Call, Sent, carry_out, is_empty,
}

-- No deposit is more than the target.
abbrev IsWithin : ℕ → Action → Type 0
IsWithin target nothing = Unit
IsWithin target withdraw = Unit
IsWithin target (deposit amount) = amount ≤ target
IsWithin target (thaw amount) = Unit

decide_thaw-IsWithin :
    (account : EscrowAccount) (target : ℕ) (reclaim : Option Reclaim)
    → IsWithin target (decide_thaw account target reclaim)
unfolding decide_thaw
decide_thaw-IsWithin account target none = tt
decide_thaw-IsWithin account target (some reclaim) = elim (Bool-cases (ltb 0 account.thawing)) [
  | inl h ↦ rw (decide_thaw, h) tt
  | inr h ↦
      let excess = account.balance - floor_of target reclaim.margin_bps in
      elim (Bool-cases (ltb 0 excess && leb reclaim.min_withdraw excess)) [
        | inl e ↦ rw (decide_thaw, h, e) tt
        | inr e ↦ rw (decide_thaw, h, e) tt
      ]
]

decide-IsWithin :
    (account : EscrowAccount) (target : ℕ) (reclaim : Option Reclaim)
    → IsWithin target (decide account target reclaim)
unfolding decide
decide-IsWithin account target reclaim = elim (Bool-cases (has_matured account reclaim)) [
  | inl h ↦ rw (decide, h) tt
  | inr h ↦ elim (Bool-cases (ltb 0 (target - (account.balance - account.thawing)))) [
    | inl e ↦ rw (decide, h, e) (omega arith)
    | inr e ↦ rw (decide, h, e) (decide_thaw-IsWithin account target reclaim)
  ]
]

-- Deposits of at most a limit each.
abbrev pub IsLimited : ℕ → List (Address × ℕ) → Type 0
IsLimited limit = All (λ (e : Address × ℕ). e.1 ≤ limit)

plan_action-IsLimited :
    (limit : ℕ) (plan : Plan) (receiver : Address) (target : ℕ) (action : Action)
    → target ≤ limit
    → IsWithin target action
    → IsLimited limit plan.adjustments
    → IsLimited limit (plan_action plan receiver target action).adjustments
      × (length (plan_action plan receiver target action).adjustments ≤ length plan.adjustments + 1)
unfolding plan_action
plan_action-IsLimited limit plan receiver target nothing le w k = (k, omega arith)
plan_action-IsLimited limit plan receiver target withdraw le w k = (k, omega arith)
plan_action-IsLimited limit plan receiver target (deposit amount) le w k = (
  All-append (λ (e : Address × ℕ). e.1 ≤ limit) plan.adjustments ((receiver, amount) ∷ []) k
      (omega (arith, le, w), tt),
  omega (arith, length-append plan.adjustments ((receiver, amount) ∷ [])),
)
plan_action-IsLimited limit plan receiver target (thaw amount) le w k = (k, omega arith)

-- From some step on, the debt of a receiver is not reached.
abbrev pub IsBounded : (ℕ → ℕ → Bool) → ℕ → Map ℕ → Map ℕ → Address → Type 0
IsBounded reaches bound debts config_debts r =
    (n : ℕ) → bound ≤ n → reaches (debt_of debts config_debts r) n ≡ false

module _ (reaches : ℕ → ℕ → Bool) (bound fuel : ℕ) (room : bound + 10000 < u32_mod)
    (enough : bound ≤ fuel) (accounts : Map EscrowAccount) (debts config_debts : Map ℕ)
    (reclaim : Option Reclaim) where
  pub make_plan-returns :
      (receivers : List Address) (plan : Plan)
      → All (IsBounded reaches bound debts config_debts) receivers
      → IsLimited ((bound + 10000) * grt) plan.adjustments
      → (out : Plan) × (make_plan reaches
            (suc fuel)
            accounts
            debts
            config_debts
            reclaim
            plan
            receivers
          ≡ some out)
        × IsLimited ((bound + 10000) * grt) out.adjustments
        × (length out.adjustments ≤ length plan.adjustments + length receivers)
  unfolding make_plan
  make_plan-returns [] plan bounded limited = (plan, refl, limited, omega arith)
  make_plan-returns (r ∷ rs) plan bounded limited =
      let found =
        next_balance-fuel (reaches (debt_of debts config_debts r)) bound bounded.0 room fuel
          enough in
      let target = IsTarget.step found * grt in
      let action = decide (account_of r accounts) target reclaim in
      let step =
        plan_action-IsLimited ((bound + 10000) * grt) plan r target action
          (omega (arith, IsTarget.at_most found))
          (decide-IsWithin (account_of r accounts) target reclaim) limited in
      let (out, made, small, few) =
        make_plan-returns rs (plan_action plan r target action) bounded.1 step.0 in
      (out, rw (make_plan, IsTarget.is_step found) made, small, omega (arith, few, step.1))

sum-IsLimited :
    (limit : ℕ) (m : List (Address × ℕ)) → IsLimited limit m → sum_values m ≤ length m * limit
sum-IsLimited limit [] h = omega arith
sum-IsLimited limit (e ∷ m) h =
    let rest = sum-IsLimited limit m h.1 in omega (arith, rest, h.0, step (length m) limit)
  where
    step : (n k : ℕ) → suc n * k ≡ k + n * k
    step n k = omega arith

fits_of : (n limit sum : ℕ) → sum ≤ n * limit → n < 5000 → limit ≤ u32_mod * grt → sum < u128_mod
fits_of n limit sum h few cap =
    let most : n * limit ≤ 5000 * limit = mul-le-mul_right limit (omega (arith, few)) in
    omega (arith, h, most, cap)

-- No receiver stands twice.
abbrev pub IsOnce : List (Address × ℕ) → Type 0
IsOnce m = (a : Address) → count_if (λ (e : Address × ℕ). e.0 == a) m ≤ 1

absent :
    (a : Address) (m : Map ℕ) → count_if (λ (e : Address × ℕ). e.0 == a) m ≡ 0 → lookup a m ≡ none
absent a [] h = refl
absent a ((k, v) ∷ m) h = ground (arith, absent a m, h)

-- Collecting different receivers changes nothing.
collected-same : (m xs : List (Address × ℕ)) → IsOnce (m ++ xs) → collected m xs ≡ m ++ xs
collected-same m [] once = sym (append-nil m)
collected-same m ((k, v) ∷ xs) once =
    let fresh : lookup k m ≡ none =
      absent k m
        (ground (arith, once k, count_if-append (λ (e : Address × ℕ). e.0 == k) m ((k, v) ∷ xs))) in
    let assoc = append_assoc m ((k, v) ∷ []) xs in
    rw (insert_new k v m fresh)
      (collected-same (m ++ (k, v) ∷ []) xs (λ a. rw assoc (once a)) ∙ assoc)

module _ {E : Type 0} (answer : Call → Result ℕ E) (dry_run : Bool) where
  pub carry_out-returns :
      (fuel limit : ℕ) (plan : Plan)
      → max_adjustment ≤ fuel
      → limit ≤ u32_mod * grt
      → IsLimited limit plan.adjustments
      → length plan.adjustments < 5000
      → IsOnce plan.adjustments
      → (sent : Sent) × (carry_out answer dry_run fuel plan ≡ ok sent)
  unfolding carry_out
  carry_out-returns fuel limit plan enough cap limited few once =
      let sum = sum-IsLimited limit plan.adjustments limited in
      let fits : sum_values plan.adjustments < u128_mod =
        fits_of (length plan.adjustments) limit _ sum few cap in
      let same = collected-same [] plan.adjustments once in
      elim (Bool-cases (is_empty plan.adjustments)) [
        | inl h ↦ rw (carry_out, h) (_, refl)
        | inr h ↦ elim (Bool-cases (leb (total plan.adjustments) max_adjustment)) [
          | inl e ↦ rw (carry_out, h, e) (_, refl)
          | inr e ↦
              let over : max_adjustment < sum_values plan.adjustments = ground (arith, fits, e) in
              let reduced =
                reduce_adjustments-IsReduced plan.adjustments fuel enough (rw same over)
                  (rw same fits) (rw same (omega (arith, few))) in
              rw (carry_out, h, e, IsReduced.is_result reduced) (_, refl)
        ]
      ]
