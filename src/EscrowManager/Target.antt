-- ===== src/EscrowManager/Target.antt =====
-- The target balance (crates/bin/escrow_manager/src/main.rs: next_balance).
use graph_tally.Prelude.{
  ℕ, zero, suc, ◌+◌, ◌*◌, ◌≤◌, ◌<◌, ◌≡◌, refl, sym, ltb, ltb→lt, ltb-false, ◌⊎◌, inl, inr, Bool,
  true, false, Option, some, arith, Bool-cases,
}
use graph_tally.Prelude.Words.{u32_mod}
use graph_tally.EscrowManager.{grt, next_round_after, next_balance_loop, next_balance}

module _ (reaches : ℕ → Bool) (bound : ℕ) (unreached : (n : ℕ) → bound ≤ n → reaches n ≡ false)
    (room : bound + 10000 < u32_mod) where
  -- Where the loop ends: at the first step that the debt does not reach.
  pub record IsTarget (from : ℕ) (result : Option ℕ) : Type 0 where
    pub step : ℕ
    pub is_step : result ≡ some (step * grt)
    pub not_reached : reaches step ≡ false
    pub at_least : from ≤ step
    pub at_most : step ≤ bound + 10000
    pub first :
        (step ≡ from)
        ⊎ ((before : ℕ) × (next_round_after before ≡ step)
            × (reaches before ≡ true)
            × (before < step))

  step_up :
      (n : ℕ) → 2 ≤ n → n < bound → (n < next_round_after n) × (next_round_after n ≤ bound + 10000)
  unfolding next_round_after
  step_up n two below = (omega arith, omega arith)

  stops :
      (fuel from : ℕ)
      → from ≤ bound + 10000
      → reaches from ≡ false
      → IsTarget from (next_balance_loop reaches (suc fuel) from)
  unfolding next_balance_loop
  stops fuel from most missed = record {
    step = from;
    is_step = rw missed;
    not_reached = missed;
    at_least = omega arith;
    at_most = most;
    first = inl refl;
  }

  goes_on :
      (fuel from : ℕ)
      → reaches from ≡ true
      → from < next_round_after from
      → IsTarget
          (next_round_after from)
          (next_balance_loop reaches (suc fuel) (next_round_after from))
      → IsTarget from (next_balance_loop reaches (suc (suc fuel)) from)
  unfolding next_balance_loop
  goes_on fuel from reached up r = record {
    step = IsTarget.step r;
    is_step = rw reached (IsTarget.is_step r);
    not_reached = IsTarget.not_reached r;
    at_least = omega (arith, IsTarget.at_least r);
    at_most = IsTarget.at_most r;
    first = elim (IsTarget.first r) [
      | inl e ↦ inr (from, sym e, reached, omega (arith, e, up))
      | inr b ↦ inr b
    ];
  }

  below_bound : (n : ℕ) → reaches n ≡ true → n < bound
  below_bound n h = elim (Bool-cases (ltb n bound)) [
    | inl less ↦ ltb→lt n bound less
    | inr more ↦ absurd (cc (h, unreached n (ltb-false n bound more)))
  ]

  loop-IsTarget :
      (fuel from : ℕ)
      → 2 ≤ from
      → from ≤ bound + 10000
      → bound ≤ from + fuel
      → IsTarget from (next_balance_loop reaches (suc fuel) from)
  loop-IsTarget zero from two most enough = stops zero from most (unreached from (omega arith))
  loop-IsTarget (suc fuel) from two most enough = elim (Bool-cases (reaches from)) [
    | inr missed ↦ stops (suc fuel) from most missed
    | inl reached ↦
        let (up, cap) = step_up from two (below_bound from reached) in
        goes_on fuel from reached up
          (loop-IsTarget fuel (next_round_after from) (omega arith) cap (omega arith))
  ]

  -- Where some step, far enough below the largest `u32`, bounds the steps that the debt reaches,
  -- the loop ends within that many rounds. The target is then the first step that the debt does
  -- not reach, at least the minimal deposit: the step before it was reached.
  pub next_balance-IsTarget : IsTarget 2 (next_balance reaches (suc bound))
  next_balance-IsTarget = loop-IsTarget bound 2 (omega arith) (omega arith) (omega arith)

  -- More rounds do no harm.
  pub next_balance-fuel : (fuel : ℕ) → bound ≤ fuel → IsTarget 2 (next_balance reaches (suc fuel))
  next_balance-fuel fuel enough =
      loop-IsTarget fuel 2 (omega arith) (omega arith) (omega (arith, enough))
