-- ===== src/Tests/Cycle.antt =====
-- A whole cycle, and the older clients.
use graph_tally.Prelude.{
  ℕ, arith, All, if◌then◌else◌, ◌≤◌, ◌≡◌, refl, true, false, List, [], ◌∷◌, none, some, Result, ok,
}
use graph_tally.EscrowManager.Cycle.{account_of, Allocation, Plan, Call, thaw_many, deposit_many}
use graph_tally.EscrowManager.Cycle.Batches.{planned}
use graph_tally.Message.{Address}
use graph_tally.EscrowManager.{grt, next_balance}
use graph_tally.EscrowManager.Decide.{HasMargin}
use graph_tally.EscrowManager.Cycle.Funded.{action_of, IsFunded}
use graph_tally.EscrowManager.Cycle.Landed.{after_calls}
use graph_tally.EscrowManager.Cycle.Whole.Funds.{cycle_debt, run_cycle-funds}
use graph_tally.EscrowManager.Cycle.Returns.{IsBounded}
use graph_tally.EscrowManager.Cycle.Whole.{
  Inputs, Settings, Ran, run_cycle, receivers_of, debts_in, reclaim_in,
}
use graph_tally.EscrowManager.Cycle.Whole.Runs.{run_cycle-runs}
use graph_tally.EscrowManager.Cycle.Whole.Receivers.{is_receiver}
use graph_tally.Aggregator.Grpc.{new_request}
use graph_tally.Aggregator.Grpc.Handler.{serve}
use graph_tally.Aggregator.Grpc.V2.Handler.{serve_v2}
use graph_tally.Aggregator.Grpc.V2.Same.{as_request, as_answer, serve_v2-serve}
use graph_tally.Tests.Base.{
  toy, receipt_sol, rav_sol, domain, registry, first_receipt, second_receipt,
}
use graph_tally.Tests.Escrow.{accounts, step_test, answer, plan}
use graph_tally.Tests.Served.{slices, served}

abbrev allocations : List Allocation
allocations = (record { id = 9; indexer = 2 }) ∷ (record { id = 8; indexer = 1 }) ∷ []

abbrev inputs : Inputs (Unit {0})
inputs = record {
  allocations = ok allocations;
  escrow_accounts = ok accounts;
  ravs = (9, 1000000000000000000) ∷ [];
  receipts = [];
  latest_block_timestamp = ok 50;
}

abbrev settings : Settings
settings = record {
  withdraw_enabled = true;
  dry_run = false;
  withdraw_margin_bps = 2500;
  min_withdraw = 10;
  debts = [];
}

abbrev ran : Ran
ran = record {
  plan = plan;
  sent = record {
    calls =
        thaw_many ((2, 8997500000000000000000) ∷ [])
        ∷ deposit_many ((1, 2000000000000000000) ∷ [])
        ∷ [];
    latest_tx_block = some 7;
  };
  pinned = some 7;
}

-- Every call lands.
abbrev landing : Call → Result ℕ (Unit {0})
landing call = ok 7

runs_landing : run_cycle step_test landing 20 settings inputs none ≡ ok (some ran)
unfolding run_cycle graph_tally.EscrowManager.Cycle.make_plan
    graph_tally.EscrowManager.next_balance_loop graph_tally.EscrowManager.Cycle.debts_of
    graph_tally.EscrowManager.Cycle.indexer_ravs graph_tally.EscrowManager.Cycle.carry_out
    graph_tally.EscrowManager.decide graph_tally.EscrowManager.Cycle.reclaim_of
    graph_tally.EscrowManager.debt_ready graph_tally.EscrowManager.Cycle.send
runs_landing = refl

few_steps : (debt n : ℕ) → debt ≤ grt → 3 ≤ n → step_test debt n ≡ false
few_steps debt n small far = ground (arith, small, far)

receivers_are : receivers_of allocations accounts ≡ 1 ∷ 2 ∷ []
unfolding receivers_of
receivers_are = refl

bounded :
    All
      (IsBounded step_test 3
        (debts_in step_test answer 10000000000000000000001 settings inputs allocations
          (receivers_of allocations accounts))
        settings.debts)
      (receivers_of allocations accounts)
unfolding graph_tally.EscrowManager.Cycle.debts_of graph_tally.EscrowManager.Cycle.indexer_ravs
    receivers_of
bounded = (
  (λ n far. few_steps 0 n (omega arith) far),
  ((λ n far. few_steps 1000000000000000000 n (omega arith) far), tt),
)

run_cycle-runs_example :
    (some_run : Ran) × (run_cycle step_test answer 10000000000000000000001 settings inputs none
      ≡ ok (some some_run))
    × ((a : Address)
        → planned a some_run.plan ≤ (if is_receiver a allocations accounts then 1 else 0))
run_cycle-runs_example =
    run_cycle-runs step_test answer 3 10000000000000000000000 settings inputs none allocations
      accounts refl refl (omega arith) (omega arith) (omega arith) (rw receivers_are (omega arith))
      bounded

aims :
    next_balance
      (step_test (cycle_debt step_test landing 20 settings inputs none allocations accounts 1))
      20
    ≡ some 2000000000000000000
unfolding run_cycle graph_tally.EscrowManager.Cycle.make_plan
    graph_tally.EscrowManager.next_balance_loop graph_tally.EscrowManager.Cycle.debts_of
    graph_tally.EscrowManager.Cycle.indexer_ravs receivers_of
    graph_tally.EscrowManager.Cycle.reclaim_of graph_tally.EscrowManager.debt_ready
aims = refl

margin : HasMargin (
    reclaim_in step_test landing 20 settings inputs (
      debts_in step_test landing 20 settings inputs allocations
        (receivers_of allocations accounts)))
unfolding run_cycle graph_tally.EscrowManager.Cycle.make_plan
    graph_tally.EscrowManager.next_balance_loop graph_tally.EscrowManager.Cycle.debts_of
    graph_tally.EscrowManager.Cycle.indexer_ravs receivers_of
    graph_tally.EscrowManager.Cycle.reclaim_of graph_tally.EscrowManager.debt_ready
margin = omega arith

run_cycle-funds_example :
    IsFunded
      (action_of 1 ran.plan)
      2000000000000000000
      (account_of 1 accounts)
      (after_calls landing 1 0 ran.sent.calls (account_of 1 accounts))
run_cycle-funds_example =
    run_cycle-funds step_test landing 20 settings inputs none allocations accounts ran 1
      2000000000000000000 0 refl refl runs_landing refl refl ((7, refl), ((7, refl), tt)) refl aims
      (omega arith) (omega arith) margin

serve_v2-serve_example :
    let request = new_request slices (first_receipt ∷ second_receipt ∷ []) none in
    let answered = serve toy slices registry domain true request served in
    serve_v2 toy slices registry domain true (as_request request) served
    ≡ (as_answer answered.0, answered.1)
serve_v2-serve_example =
    serve_v2-serve toy slices registry domain true
      (new_request slices (first_receipt ∷ second_receipt ∷ []) none) served
