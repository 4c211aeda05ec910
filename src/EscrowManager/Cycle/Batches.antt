-- ===== src/EscrowManager/Cycle/Batches.antt =====
-- The three batches of a cycle (crates/bin/escrow_manager/src/main.rs).
use graph_tally.Prelude.{
  ℕ, ◌+◌, ◌≤◌, ◌≡◌, refl, Bool, List, [], ◌∷◌, Option, some, if◌then◌else◌, ◌==◌, count_if,
  count_if-append, arith, Option-cases, inl, inr, All, All-append,
}
use mathlib.Core.Path.{subst}
use graph_tally.Prelude.Maps.{Map}
use graph_tally.Message.{Address}
use graph_tally.EscrowManager.{
  EscrowAccount, Reclaim, Action, nothing, withdraw, deposit, thaw, decide, next_balance,
}
use graph_tally.EscrowManager.Cycle.{Plan, empty_plan, plan_action, make_plan, account_of, debt_of}

-- How often a receiver stands in the three batches together.
abbrev pub planned : Address → Plan → ℕ
planned a plan =
    count_if (λ (e : Address × ℕ). e.0 == a) plan.adjustments
    + count_if (λ (e : Address × ℕ). e.0 == a) plan.thaws
    + count_if (λ w. w == a) plan.withdrawals

planned-plan_action :
    (a : Address) (plan : Plan) (receiver : Address) (target : ℕ) (action : Action)
    → planned a (plan_action plan receiver target action)
      ≤ planned a plan + (if receiver == a then 1 else 0)
unfolding plan_action
planned-plan_action a plan receiver target nothing = omega arith
planned-plan_action a plan receiver target withdraw =
    omega (arith, count_if-append (λ w. w == a) plan.withdrawals (receiver ∷ []))
planned-plan_action a plan receiver target (deposit amount) = omega (
  arith,
  count_if-append (λ (e : Address × ℕ). e.0 == a) plan.adjustments ((receiver, amount) ∷ []),
)
planned-plan_action a plan receiver target (thaw amount) =
    omega
      (arith, count_if-append (λ (e : Address × ℕ). e.0 == a) plan.thaws ((receiver, amount) ∷ []))

module _ (reaches : ℕ → ℕ → Bool) (fuel : ℕ) (accounts : Map EscrowAccount)
    (debts config_debts : Map ℕ) (reclaim : Option Reclaim) where
  planned-make_plan :
      (a : Address) (receivers : List Address) (plan out : Plan)
      → make_plan reaches fuel accounts debts config_debts reclaim plan receivers ≡ some out
      → planned a out ≤ planned a plan + count_if (λ r. r == a) receivers
  unfolding make_plan
  planned-make_plan a [] plan out h = ground arith
  planned-make_plan a (r ∷ rs) plan out h =
      elim (Option-cases (next_balance (reaches (debt_of debts config_debts r)) fuel)) [
        | inl missing ↦ absurd (cc (rw (missing, make_plan) at h))
        | inr (target, found) ↦
            let action = decide (account_of r accounts) target reclaim in
            let rest =
              planned-make_plan a rs (plan_action plan r target action) out
                (rw (found, make_plan) at h) in
            omega (arith, rest, planned-plan_action a plan r target action)
      ]

  -- No receiver stands in the three batches more often than among the receivers: when these are
  -- different, it stands in one batch at most, once.
  pub make_plan-batches :
      (receivers : List Address) (out : Plan)
      → make_plan reaches fuel accounts debts config_debts reclaim empty_plan receivers ≡ some out
      → (a : Address) → planned a out ≤ count_if (λ r. r == a) receivers
  make_plan-batches receivers out h a =
      omega (arith, planned-make_plan a receivers empty_plan out h)

  -- What an action of the plan is based on.
  abbrev pub IsBacked : Action → Address → Type 0
  IsBacked action receiver =
      (target : ℕ) × (next_balance (reaches (debt_of debts config_debts receiver)) fuel
        ≡ some target)
      × (decide (account_of receiver accounts) target reclaim ≡ action)

  pub record IsBackedPlan (plan : Plan) : Type 0 where
    pub deposits : All (λ e. IsBacked (deposit e.1) e.0) plan.adjustments
    pub thaws_backed : All (λ e. IsBacked (thaw e.1) e.0) plan.thaws
    pub withdraws : All (λ a. IsBacked withdraw a) plan.withdrawals

  backed-plan_action :
      (plan : Plan) (receiver : Address) (target : ℕ) (action : Action)
      → IsBackedPlan plan
      → IsBacked action receiver
      → IsBackedPlan (plan_action plan receiver target action)
  unfolding plan_action
  backed-plan_action plan receiver target nothing b k = record {
    deposits = IsBackedPlan.deposits b;
    thaws_backed = IsBackedPlan.thaws_backed b;
    withdraws = IsBackedPlan.withdraws b;
  }
  backed-plan_action plan receiver target withdraw b k = record {
    deposits = IsBackedPlan.deposits b;
    thaws_backed = IsBackedPlan.thaws_backed b;
    withdraws =
        All-append (λ a. IsBacked withdraw a) plan.withdrawals (receiver ∷ [])
          (IsBackedPlan.withdraws b) (k, tt);
  }
  backed-plan_action plan receiver target (deposit amount) b k = record {
    deposits =
        All-append (λ e. IsBacked (deposit e.1) e.0) plan.adjustments ((receiver, amount) ∷ [])
          (IsBackedPlan.deposits b) (k, tt);
    thaws_backed = IsBackedPlan.thaws_backed b;
    withdraws = IsBackedPlan.withdraws b;
  }
  backed-plan_action plan receiver target (thaw amount) b k = record {
    deposits = IsBackedPlan.deposits b;
    thaws_backed =
        All-append (λ e. IsBacked (thaw e.1) e.0) plan.thaws ((receiver, amount) ∷ [])
          (IsBackedPlan.thaws_backed b) (k, tt);
    withdraws = IsBackedPlan.withdraws b;
  }

  make_plan-backed :
      (receivers : List Address) (plan out : Plan)
      → IsBackedPlan plan
      → make_plan reaches fuel accounts debts config_debts reclaim plan receivers ≡ some out
      → IsBackedPlan out
  unfolding make_plan
  make_plan-backed [] plan out b h = let same : plan ≡ out = cc h in subst IsBackedPlan same b
  make_plan-backed (r ∷ rs) plan out b h =
      elim (Option-cases (next_balance (reaches (debt_of debts config_debts r)) fuel)) [
        | inl missing ↦ absurd (cc (rw (missing, make_plan) at h))
        | inr (target, found) ↦
            let action = decide (account_of r accounts) target reclaim in
            make_plan-backed rs (plan_action plan r target action) out
              (backed-plan_action plan r target action b (target, found, refl))
              (rw (found, make_plan) at h)
      ]

  -- Every deposit, thaw and withdrawal of the plan is what was decided for its receiver, from the
  -- receiver's account and the target that its debt calls for.
  pub make_plan-IsBackedPlan :
      (receivers : List Address) (out : Plan)
      → make_plan reaches fuel accounts debts config_debts reclaim empty_plan receivers ≡ some out
      → IsBackedPlan out
  make_plan-IsBackedPlan receivers out h =
      make_plan-backed receivers empty_plan out
        (record { deposits = tt; thaws_backed = tt; withdraws = tt }) h
