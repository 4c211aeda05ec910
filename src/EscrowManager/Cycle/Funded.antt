-- ===== src/EscrowManager/Cycle/Funded.antt =====
-- What the batches of a cycle do for a receiver (crates/bin/escrow_manager/src/main.rs: the plan).
use graph_tally.Prelude.{
  ℕ, ◌≤◌, ◌<◌, ◌≡◌, ◌≢◌, refl, sym, ap, ◌∙◌, Bool, true, false, List, [], ◌∷◌, ◌++◌, Option, none,
  some, ◌==◌, ==_iff, contains, count_if, arith, Bool-cases, Option-cases, inl, inr,
}
use mathlib.Core.Path.{subst}
use graph_tally.Prelude.Maps.{Map, lookup}
use graph_tally.Message.{Address}
use graph_tally.EscrowManager.{
  EscrowAccount, Reclaim, Action, nothing, withdraw, deposit, thaw, decide, next_balance,
}
use graph_tally.EscrowManager.Decide.{effective, carried_out, HasMargin, half_u128, decide-covers}
use graph_tally.EscrowManager.Cycle.{Plan, empty_plan, plan_action, make_plan, account_of, debt_of}

-- What the three batches have for a receiver.
abbrev pub pick : Bool → Option ℕ → Option ℕ → Action
pick true thawed deposited = withdraw
pick false (some amount) deposited = thaw amount
pick false none (some amount) = deposit amount
pick false none none = nothing

abbrev pub action_of : Address → Plan → Action
action_of r plan =
    pick (contains plan.withdrawals r) (lookup r plan.thaws) (lookup r plan.adjustments)

-- They have nothing yet.
abbrev IsAbsent : Address → Plan → Type 0
IsAbsent r plan =
    (contains plan.withdrawals r ≡ false)
    × (lookup r plan.thaws ≡ none)
    × (lookup r plan.adjustments ≡ none)

lookup-other : (r x v : ℕ) (m : Map ℕ) → (x == r) ≡ false → lookup r (m ++ (x, v) ∷ []) ≡ lookup r m
lookup-other r x v [] h = ground (arith, h)
lookup-other r x v ((k, w) ∷ m) h = ground (arith, lookup-other r x v m h)

lookup-last : (r v : ℕ) (m : Map ℕ) → lookup r m ≡ none → lookup r (m ++ (r, v) ∷ []) ≡ some v
lookup-last r v [] h = ground arith
lookup-last r v ((k, w) ∷ m) h = ground (arith, lookup-last r v m)

contains-other :
    (r x : ℕ) (xs : List ℕ) → (x == r) ≡ false → contains (xs ++ x ∷ []) r ≡ contains xs r
contains-other r x [] h = ground (arith, h)
contains-other r x (y ∷ xs) h = ground (arith, contains-other r x xs h)

contains-last : (r : ℕ) (xs : List ℕ) → contains (xs ++ r ∷ []) r ≡ true
contains-last r [] = ground arith
contains-last r (y ∷ xs) = ground (arith, contains-last r xs)

action-other :
    (r x : Address) (plan : Plan) (target : ℕ) (action : Action)
    → (x == r) ≡ false
    → (action_of r (plan_action plan x target action) ≡ action_of r plan)
      × (IsAbsent r plan → IsAbsent r (plan_action plan x target action))
unfolding plan_action
action-other r x plan target nothing h = (refl, λ k. k)
action-other r x plan target withdraw h =
    let same = contains-other r x plan.withdrawals h in
    (
      ap (λ b. pick b (lookup r plan.thaws) (lookup r plan.adjustments)) same,
      (λ k. (same ∙ k.0, k.1, k.2)),
    )
action-other r x plan target (deposit amount) h =
    let same = lookup-other r x amount plan.adjustments h in
    (
      ap (pick (contains plan.withdrawals r) (lookup r plan.thaws)) same,
      (λ k. (k.0, k.1, same ∙ k.2)),
    )
action-other r x plan target (thaw amount) h =
    let same = lookup-other r x amount plan.thaws h in
    (
      ap (λ o. pick (contains plan.withdrawals r) o (lookup r plan.adjustments)) same,
      (λ k. (k.0, same ∙ k.1, k.2)),
    )

action-own :
    (r : Address) (plan : Plan) (target : ℕ) (action : Action)
    → IsAbsent r plan
    → action_of r (plan_action plan r target action) ≡ action
unfolding plan_action
action-own r plan target nothing k = rw (k.0, k.1, k.2) refl
action-own r plan target withdraw k = rw (contains-last r plan.withdrawals) refl
action-own r plan target (deposit amount) k =
    rw (k.0, k.1, lookup-last r amount plan.adjustments k.2) refl
action-own r plan target (thaw amount) k = rw (k.0, lookup-last r amount plan.thaws k.1) refl

-- An account before and after an action: a withdrawal leaves its effective balance as it was,
-- anything else has it cover the target.
abbrev pub IsFunded : Action → ℕ → EscrowAccount → EscrowAccount → Type 0
IsFunded withdraw target before after = effective after ≡ effective before
IsFunded nothing target before after = target ≤ effective after
IsFunded (deposit n) target before after = target ≤ effective after
IsFunded (thaw n) target before after = target ≤ effective after

funded :
    (action : Action) (target : ℕ) (before after : EscrowAccount)
    → (action ≢ withdraw → target ≤ effective after)
    → (action ≡ withdraw → effective after ≡ effective before)
    → IsFunded action target before after
funded nothing target before after covers keeps = covers (λ e. absurd (cc e))
funded withdraw target before after covers keeps = keeps refl
funded (deposit n) target before after covers keeps = covers (λ e. absurd (cc e))
funded (thaw n) target before after covers keeps = covers (λ e. absurd (cc e))

module _ (reaches : ℕ → ℕ → Bool) (fuel : ℕ) (accounts : Map EscrowAccount)
    (debts config_debts : Map ℕ) (reclaim : Option Reclaim) (r : Address) where
  rest-keeps :
      (receivers : List Address) (plan out : Plan)
      → count_if (λ x. x == r) receivers ≡ 0
      → make_plan reaches fuel accounts debts config_debts reclaim plan receivers ≡ some out
      → action_of r out ≡ action_of r plan
  unfolding make_plan
  rest-keeps [] plan out none_left h =
      let same : plan ≡ out = ground (arith, h) in ap (action_of r) (sym same)
  rest-keeps (x ∷ xs) plan out none_left h =
      elim (Option-cases (next_balance (reaches (debt_of debts config_debts x)) fuel)) [
        | inl missing ↦ absurd (cc (rw (missing, make_plan) at h))
        | inr (target, found) ↦
            let action = decide (account_of x accounts) target reclaim in
            let different : (x == r) ≡ false = ground (arith, none_left) in
            rest-keeps xs (plan_action plan x target action) out (ground (arith, none_left))
              (rw (found, make_plan) at h)
            ∙ (action-other r x plan target action different).0
      ]

  own-action :
      (receivers : List Address) (plan out : Plan) (target : ℕ)
      → IsAbsent r plan
      → count_if (λ x. x == r) receivers ≡ 0
      → next_balance (reaches (debt_of debts config_debts r)) fuel ≡ some target
      → make_plan reaches fuel accounts debts config_debts reclaim plan (r ∷ receivers) ≡ some out
      → action_of r out ≡ decide (account_of r accounts) target reclaim
  unfolding make_plan
  own-action receivers plan out target absent none_left aim h =
      let action = decide (account_of r accounts) target reclaim in
      rest-keeps receivers (plan_action plan r target action) out none_left
        (rw (aim, make_plan) at h)
      ∙ action-own r plan target action absent

  make_plan-action :
      (receivers : List Address) (plan out : Plan) (target : ℕ)
      → IsAbsent r plan
      → count_if (λ x. x == r) receivers ≡ 1
      → next_balance (reaches (debt_of debts config_debts r)) fuel ≡ some target
      → make_plan reaches fuel accounts debts config_debts reclaim plan receivers ≡ some out
      → action_of r out ≡ decide (account_of r accounts) target reclaim
  unfolding make_plan
  make_plan-action [] plan out target absent once aim h = absurd (omega (arith, once))
  make_plan-action (x ∷ xs) plan out target absent once aim h = elim (Bool-cases (x == r)) [
    | inl own ↦
        let at_own =
          subst
            (λ y.
              make_plan reaches fuel accounts debts config_debts reclaim plan (y ∷ xs) ≡ some out)
            ((==_iff x r).0 own) h in
        own-action xs plan out target absent (ground (arith, once, own)) aim at_own
    | inr different ↦
        elim (Option-cases (next_balance (reaches (debt_of debts config_debts x)) fuel)) [
          | inl missing ↦ absurd (cc (rw (missing, make_plan) at h))
          | inr (other, found) ↦
              let action = decide (account_of x accounts) other reclaim in
              make_plan-action xs (plan_action plan x other action) out target
                ((action-other r x plan other action different).1 absent)
                (ground (arith, once, different)) aim (rw (found, make_plan) at h)
        ]
  ]

  -- The three batches of a plan have for each receiver what was decided for it: once they are
  -- carried out, as they are, the effective balance of a receiver that stands once among the
  -- receivers covers its target, or after a withdrawal is as it was.
  pub make_plan-funds :
      (receivers : List Address) (out : Plan) (target end : ℕ)
      → count_if (λ x. x == r) receivers ≡ 1
      → next_balance (reaches (debt_of debts config_debts r)) fuel ≡ some target
      → make_plan reaches fuel accounts debts config_debts reclaim empty_plan receivers ≡ some out
      → (account_of r accounts).thawing ≤ (account_of r accounts).balance
      → target < half_u128
      → HasMargin reclaim
      → (action_of r out ≡ decide (account_of r accounts) target reclaim)
        × IsFunded
            (action_of r out)
            target
            (account_of r accounts)
            (carried_out (action_of r out) end (account_of r accounts))
  make_plan-funds receivers out target end once aim made part small margin =
      let decided =
        make_plan-action receivers empty_plan out target (refl, refl, refl) once aim made in
      let covers = decide-covers (account_of r accounts) target reclaim end part small margin in
      rw decided (
        refl,
        funded (decide (account_of r accounts) target reclaim) target (account_of r accounts)
            (carried_out (decide (account_of r accounts) target reclaim) end
              (account_of r accounts))
            covers.0 covers.1,
      )
