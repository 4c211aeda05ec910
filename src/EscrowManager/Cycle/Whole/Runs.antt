-- ===== src/EscrowManager/Cycle/Whole/Runs.antt =====
-- A whole cycle runs to its end (crates/bin/escrow_manager/src/main.rs: the loop in main).
use graph_tally.Prelude.{
  ℕ, suc, ◌+◌, ◌*◌, ◌≤◌, ◌<◌, ◌≡◌, refl, Bool, List, Option, some, Result, ok, if◌then◌else◌,
  length, All, arith,
}
use graph_tally.Prelude.Words.{u32_mod}
use graph_tally.Prelude.Maps.{Map}
use graph_tally.Message.{Address}
use graph_tally.EscrowManager.{EscrowAccount, grt, max_adjustment}
use graph_tally.EscrowManager.Cycle.{Allocation, Call, empty_plan}
use graph_tally.EscrowManager.Cycle.Batches.{planned, make_plan-batches}
use graph_tally.EscrowManager.Cycle.Returns.{IsBounded, make_plan-returns, carry_out-returns}
use graph_tally.EscrowManager.Cycle.Whole.{
  receivers_of, Inputs, Settings, Ran, debts_in, reclaim_in, run_with, run_cycle,
}
use graph_tally.EscrowManager.Cycle.Whole.Receivers.{
  is_receiver, receivers-once, run_cycle-receivers,
}

module _ {E : Type 0} (reaches : ℕ → ℕ → Bool) (answer : Call → Result ℕ E) (bound fuel : ℕ)
    (settings : Settings) (inputs : Inputs E) (pinned : Option ℕ) where
  run_with-returns :
      (allocations : List Allocation) (accounts : Map EscrowAccount)
      → bound + 10000 < u32_mod
      → bound ≤ fuel
      → max_adjustment ≤ suc fuel
      → length (receivers_of allocations accounts) < 5000
      → All
          (IsBounded reaches bound
            (debts_in reaches answer
              (suc fuel)
              settings
              inputs
              allocations
              (receivers_of allocations accounts))
            settings.debts)
          (receivers_of allocations accounts)
      → (ran : Ran) × (run_with reaches answer
            (suc fuel)
            settings
            inputs
            allocations
            accounts
            pinned
          ≡ ok ran)
  unfolding run_with
  run_with-returns allocations accounts room enough cap few bounded =
      let receivers = receivers_of allocations accounts in
      let debts = debts_in reaches answer (suc fuel) settings inputs allocations receivers in
      let reclaim = reclaim_in reaches answer (suc fuel) settings inputs debts in
      let (plan, made, limited, short) =
        make_plan-returns reaches bound fuel room enough accounts debts settings.debts reclaim
          receivers empty_plan bounded tt in
      let batches =
        make_plan-batches reaches (suc fuel) accounts debts settings.debts reclaim receivers plan
          made in
      let (sent, landed) =
        carry_out-returns answer settings.dry_run (suc fuel) ((bound + 10000) * grt) plan cap
          (omega (arith, room)) limited (omega (arith, short, few))
          (λ a. omega (arith, batches a, receivers-once a allocations accounts)) in
      rw (run_with, made, landed) (_, refl)

  run_cycle-with :
      (allocations : List Allocation) (accounts : Map EscrowAccount) (ran : Ran)
      → inputs.allocations ≡ ok allocations
      → inputs.escrow_accounts ≡ ok accounts
      → run_with reaches answer (suc fuel) settings inputs allocations accounts pinned ≡ ok ran
      → run_cycle reaches answer (suc fuel) settings inputs pinned ≡ ok (some ran)
  unfolding run_cycle
  run_cycle-with allocations accounts ran h k done = ground (arith, h, k, done)

  -- When the subgraph has answered, with fewer than 5000 receivers whose debts no step from a bound
  -- on reaches, and the fuel is as much as the bound and as the cap has wei, a cycle runs to its
  -- end. It takes at most one action for each receiver, and only for the indexers of the
  -- allocations and the receivers that have an account.
  pub run_cycle-runs :
      (allocations : List Allocation) (accounts : Map EscrowAccount)
      → inputs.allocations ≡ ok allocations
      → inputs.escrow_accounts ≡ ok accounts
      → bound + 10000 < u32_mod
      → bound ≤ fuel
      → max_adjustment ≤ suc fuel
      → length (receivers_of allocations accounts) < 5000
      → All
          (IsBounded reaches bound
            (debts_in reaches answer
              (suc fuel)
              settings
              inputs
              allocations
              (receivers_of allocations accounts))
            settings.debts)
          (receivers_of allocations accounts)
      → (ran : Ran) × (run_cycle reaches answer (suc fuel) settings inputs pinned ≡ ok (some ran))
        × ((a : Address)
            → planned a ran.plan ≤ (if is_receiver a allocations accounts then 1 else 0))
  unfolding run_cycle
  run_cycle-runs allocations accounts h k room enough cap few bounded =
      let (ran, done) = run_with-returns allocations accounts room enough cap few bounded in
      let made = run_cycle-with allocations accounts ran h k done in
      (
        ran,
        made,
        (λ a.
            run_cycle-receivers reaches answer (suc fuel) settings inputs pinned allocations
              accounts ran a h k made),
      )
