-- ===== src/EscrowManager/Cycle/Whole.antt =====
-- A whole cycle of the escrow manager, from the answers of the subgraph and of the chain to the
-- block that the next cycle reads (crates/bin/escrow_manager/src/main.rs: the loop in main).
pub mod Funds
pub mod Receivers
pub mod Runs
use graph_tally.Prelude.{
  ℕ, Bool, true, false, not, ◌&&◌, List, [], ◌∷◌, Option, none, some, Result, ok, err, ok_or, ◌>>=◌,
  if◌then◌else◌, ltb, ◌==◌, map_or,
}
use graph_tally.Prelude.Maps.{Map}
use graph_tally.Message.{Address}
use graph_tally.EscrowManager.{EscrowAccount, Reclaim, debt_ready}
use graph_tally.EscrowManager.Reduce.{Stopped, out_of_fuel}
use graph_tally.EscrowManager.Cycle.{
  Allocation, indexer_ravs, debts_of, reclaim_of, Plan, empty_plan, make_plan, Call, Sent,
  carry_out,
}

-- `BTreeSet::insert`, on the addresses in order.
unfoldable pub insert_ordered : Address → List Address → List Address
insert_ordered a [] = a ∷ []
insert_ordered a (b ∷ bs) =
    let rest = insert_ordered a bs in
    if a == b then b ∷ bs else if ltb a b then a ∷ b ∷ bs else b ∷ rest

-- The indexers of the allocations and the receivers of the accounts.
unfoldable pub receivers_of : List Allocation → Map EscrowAccount → List Address
unfolding insert_ordered
receivers_of [] [] = []
receivers_of [] ((receiver, _) ∷ accounts) = insert_ordered receiver (receivers_of [] accounts)
receivers_of (allocation ∷ allocations) accounts =
    insert_ordered allocation.indexer (receivers_of allocations accounts)

-- What a cycle reads: the answers of the subgraph, the snapshots of the consumers, and the chain's
-- clock.
pub record Inputs (E : Type 0) : Type 0 where
  pub allocations : Result (List Allocation) E
  pub escrow_accounts : Result (Map EscrowAccount) E
  pub ravs : Map ℕ
  pub receipts : Map ℕ
  pub latest_block_timestamp : Result ℕ E

-- The part of `Config` that a cycle uses; the debts are in GRT.
pub record Settings : Type 0 where
  pub withdraw_enabled : Bool
  pub dry_run : Bool
  pub withdraw_margin_bps : ℕ
  pub min_withdraw : ℕ
  pub debts : Map ℕ

pub record Ran : Type 0 where
  pub plan : Plan
  pub sent : Sent
  -- the block that the subgraph is pinned to
  pub pinned : Option ℕ

-- The clock is read only where reclamation is enabled; without an answer there is none.
unfoldable pub chain_now_of : {E : Type 0} → Bool → Result ℕ E → Option ℕ
chain_now_of false latest = none
chain_now_of true (ok timestamp) = some timestamp
chain_now_of true (err _) = none

module _ {E : Type 0} (reaches : ℕ → ℕ → Bool) (answer : Call → Result ℕ E) (fuel : ℕ)
    (settings : Settings) where
  abbrev pub debts_in : Inputs E → List Allocation → List Address → Map ℕ
  debts_in inputs allocations receivers =
      debts_of inputs.receipts (indexer_ravs inputs.ravs allocations []) receivers

  abbrev pub reclaim_in : Inputs E → Map ℕ → Option Reclaim
  reclaim_in inputs debts =
      reclaim_of settings.withdraw_enabled debts
        (chain_now_of (settings.withdraw_enabled && debt_ready debts) inputs.latest_block_timestamp)
        settings.withdraw_margin_bps settings.min_withdraw

  abbrev pub plan_in : Inputs E → List Allocation → Map EscrowAccount → Option Plan
  plan_in inputs allocations accounts =
      let receivers = receivers_of allocations accounts in
      let debts = debts_in inputs allocations receivers in
      make_plan reaches fuel accounts debts settings.debts (reclaim_in inputs debts) empty_plan
        receivers

  -- The cycle once the subgraph has answered.
  unfoldable pub run_with :
      Inputs E → List Allocation → Map EscrowAccount → Option ℕ → Result Ran Stopped
  unfolding receivers_of chain_now_of
  run_with inputs allocations accounts pinned = do
    plan ← ok_or (plan_in inputs allocations accounts) out_of_fuel
    sent ← carry_out answer settings.dry_run fuel plan
    ok (record { plan = plan; sent = sent; pinned = map_or sent.latest_tx_block pinned some })

  -- None is a cycle that is skipped since the subgraph did not answer.
  unfoldable pub run_cycle : Inputs E → Option ℕ → Result (Option Ran) Stopped
  unfolding run_with
  run_cycle inputs pinned = elim inputs.allocations [
    | err _ ↦ ok none
    | ok allocations ↦ elim inputs.escrow_accounts [
      | err _ ↦ ok none
      | ok accounts ↦ do ran ← run_with inputs allocations accounts pinned; ok (some ran)
    ]
  ]
