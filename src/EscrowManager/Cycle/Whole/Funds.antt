-- ===== src/EscrowManager/Cycle/Whole/Funds.antt =====
-- What a whole cycle does for the receivers (crates/bin/escrow_manager/src/main.rs: the loop in
-- main).
use graph_tally.Prelude.{
  ℕ, ◌≤◌, ◌<◌, ◌≡◌, Bool, true, false, List, Option, some, Result, ok, leb, All, arith,
}
use graph_tally.Prelude.Maps.{Map}
use graph_tally.Message.{Address}
use graph_tally.EscrowManager.{EscrowAccount, next_balance, max_adjustment}
use graph_tally.EscrowManager.Reduce.{total}
use graph_tally.EscrowManager.Decide.{HasMargin, half_u128}
use graph_tally.EscrowManager.Cycle.{Allocation, Call, account_of, debt_of}
use graph_tally.EscrowManager.Cycle.Batches.{planned}
use graph_tally.EscrowManager.Cycle.Funded.{action_of, IsFunded, make_plan-funds}
use graph_tally.EscrowManager.Cycle.Landed.{HasLanded, after_calls, carry_out-lands}
use graph_tally.EscrowManager.Cycle.Whole.{
  receivers_of, Inputs, Settings, Ran, debts_in, reclaim_in, run_cycle,
}
use graph_tally.EscrowManager.Cycle.Whole.Receivers.{
  is_receiver, receivers-once, receivers_complete, run_cycle-plan, run_cycle-receivers,
}

module _ {E : Type 0} (reaches : ℕ → ℕ → Bool) (answer : Call → Result ℕ E) (fuel : ℕ)
    (settings : Settings) (inputs : Inputs E) (pinned : Option ℕ) (allocations : List Allocation)
    (accounts : Map EscrowAccount) where
  -- The debt of a receiver in this cycle.
  abbrev pub cycle_debt : Address → ℕ
  cycle_debt a =
      debt_of
        (debts_in reaches answer fuel settings inputs allocations
          (receivers_of allocations accounts))
        settings.debts a

  -- Where a cycle ran, not as a dry run, its deposits were together within the limit, every call
  -- that it made landed, no account thaws more than it has, the target is below half of a u128, and
  -- the margin is a fraction: the calls that it made leave every indexer of an allocation, and every
  -- receiver with an account, with an effective balance that covers the target for its debt, or
  -- after a withdrawal is as it was.
  pub run_cycle-funds :
      (ran : Ran) (a : Address) (target end : ℕ)
      → inputs.allocations ≡ ok allocations
      → inputs.escrow_accounts ≡ ok accounts
      → run_cycle reaches answer fuel settings inputs pinned ≡ ok (some ran)
      → settings.dry_run ≡ false
      → leb (total ran.plan.adjustments) max_adjustment ≡ true
      → All (HasLanded answer) ran.sent.calls
      → is_receiver a allocations accounts ≡ true
      → next_balance (reaches (cycle_debt a)) fuel ≡ some target
      → (account_of a accounts).thawing ≤ (account_of a accounts).balance
      → target < half_u128
      → HasMargin (
          reclaim_in reaches answer fuel settings inputs (
            debts_in reaches answer fuel settings inputs allocations
              (receivers_of allocations accounts)))
      → IsFunded
          (action_of a ran.plan)
          target
          (account_of a accounts)
          (after_calls answer a end ran.sent.calls (account_of a accounts))
  run_cycle-funds ran a target end h k made wet within landed is_one aim part small margin =
      let receivers = receivers_of allocations accounts in
      let debts = debts_in reaches answer fuel settings inputs allocations receivers in
      let reclaim = reclaim_in reaches answer fuel settings inputs debts in
      let (plan, sent) =
        run_cycle-plan reaches answer fuel settings inputs pinned allocations accounts ran h k
          made in
      let most = receivers-once a allocations accounts in
      let least = receivers_complete a allocations accounts is_one in
      let few : planned a ran.plan ≤ 1 = ground (
        arith,
        is_one,
        run_cycle-receivers reaches answer fuel settings inputs pinned allocations accounts ran a h
            k made,
      ) in
      let after =
        carry_out-lands answer fuel ran.plan ran.sent a end (account_of a accounts) few within
          (rw wet at sent) landed in
      let decided =
        make_plan-funds reaches fuel accounts debts settings.debts reclaim a receivers ran.plan
          target end (omega (arith, most, least)) aim plan part small margin in
      rw after (decided.1)
