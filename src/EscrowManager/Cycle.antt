-- ===== src/EscrowManager/Cycle.antt =====
-- One cycle of the escrow manager (crates/bin/escrow_manager/src/main.rs: the body of the loop in
-- main, its metrics and log lines left out).
pub mod Batches
pub mod Calls
pub mod Funded
pub mod Landed
pub mod Returns
pub mod Whole
use graph_tally.Prelude.{
  ℕ, zero, suc, ◌+◌, ◌*◌, max, Bool, true, false, not, ◌&&◌, List, [], ◌∷◌, ◌++◌, map, Option, none,
  some, Result, ok, err, if◌then◌else◌, leb, map_or, sum_of, ◌>>=◌, contains,
}
use graph_tally.Prelude.Words.{add_u128, u128_mod}
use graph_tally.Prelude.Maps.{Map, lookup, insert}
use graph_tally.Message.{Address}
use graph_tally.EscrowManager.{
  EscrowAccount, empty_account, Reclaim, Action, nothing, withdraw, deposit, thaw, decide,
  debt_ready, next_balance, grt, max_adjustment,
}
use graph_tally.EscrowManager.Reduce.{reduce_adjustments, total, value_at, Stopped, out_of_fuel}

pub record Allocation : Type 0 where
  pub id : Address
  pub indexer : Address

-- The values of the vouchers by indexer, from those by allocation.
unfoldable pub indexer_ravs : Map ℕ → List Allocation → Map ℕ → Map ℕ
indexer_ravs allocation_ravs [] acc = acc
indexer_ravs allocation_ravs (allocation ∷ allocations) acc =
    indexer_ravs allocation_ravs allocations (
      map_or (lookup allocation.id allocation_ravs) acc
        (λ value. insert allocation.indexer (add_u128 (value_at allocation.indexer acc) value) acc))

-- The larger of a receiver's receipts and vouchers.
unfoldable pub debts_of : Map ℕ → Map ℕ → List Address → Map ℕ
debts_of receipts ravs [] = []
debts_of receipts ravs (receiver ∷ receivers) =
    (receiver, max (value_at receiver receipts) (value_at receiver ravs))
    ∷ debts_of receipts ravs receivers

-- Reclamation needs the setting and a debt snapshot that can be trusted; the chain's clock is read
-- only then.
unfoldable pub reclaim_of : Bool → Map ℕ → Option ℕ → ℕ → ℕ → Option Reclaim
reclaim_of withdraw_enabled debts chain_now margin_bps min_withdraw =
    if withdraw_enabled && debt_ready debts
    then some
        (record { chain_now = chain_now; margin_bps = margin_bps; min_withdraw = min_withdraw })
    else none

pub record Plan : Type 0 where
  pub total_target : ℕ
  pub adjustments : List (Address × ℕ)
  pub thaws : List (Address × ℕ)
  pub withdrawals : List Address

abbrev pub empty_plan : Plan
empty_plan = record { total_target = 0; adjustments = []; thaws = []; withdrawals = [] }

unfoldable pub plan_action : Plan → Address → ℕ → Action → Plan
plan_action plan receiver target nothing = record plan {
  total_target = add_u128 plan.total_target target;
}
plan_action plan receiver target withdraw = record plan {
  total_target = add_u128 plan.total_target target;
  withdrawals = plan.withdrawals ++ receiver ∷ [];
}
plan_action plan receiver target (deposit amount) = record plan {
  total_target = add_u128 plan.total_target target;
  adjustments = plan.adjustments ++ (receiver, amount) ∷ [];
}
plan_action plan receiver target (thaw amount) = record plan {
  total_target = add_u128 plan.total_target target;
  thaws = plan.thaws ++ (receiver, amount) ∷ [];
}

abbrev pub account_of : Address → Map EscrowAccount → EscrowAccount
account_of receiver accounts = map_or (lookup receiver accounts) empty_account (λ a. a)

-- The debt of a receiver, or the one that the configuration sets for it, when that is larger.
abbrev pub debt_of : Map ℕ → Map ℕ → Address → ℕ
debt_of debts config_debts receiver =
    max (value_at receiver debts) (value_at receiver config_debts * grt)

-- `reaches` is the test of `next_balance` for a debt; a target that the fuel does not find stops
-- the plan.
module _ (reaches : ℕ → ℕ → Bool) (fuel : ℕ) (accounts : Map EscrowAccount)
    (debts config_debts : Map ℕ) (reclaim : Option Reclaim) where
  unfoldable pub make_plan : Plan → List Address → Option Plan
  unfolding plan_action
  make_plan plan [] = some plan
  make_plan plan (receiver ∷ receivers) =
      elim (next_balance (reaches (debt_of debts config_debts receiver)) fuel) [
        | none ↦ none
        | some target ↦
            make_plan
              (plan_action plan receiver target
                (decide (account_of receiver accounts) target reclaim))
              receivers
      ]

-- The transactions. A contract's answer to a call is its block or an error.
pub data Call : Type 0 where
  thaw_many deposit_many : List (Address × ℕ) → Call
  withdraw_many : List Address → Call

-- The calls made so far, and the latest block of one that landed.
pub record Sent : Type 0 where
  pub calls : List Call
  pub latest_tx_block : Option ℕ

abbrev pub nothing_sent : Sent
nothing_sent = record { calls = []; latest_tx_block = none }

abbrev pub is_empty : {A : Type 0} → List A → Bool
is_empty [] = true
is_empty (_ ∷ _) = false

-- `latest_tx_block.max(Some(block))`
abbrev pub later_block : Option ℕ → ℕ → Option ℕ
later_block none block = some block
later_block (some latest) block = some (max latest block)

module _ {E : Type 0} (answer : Call → Result ℕ E) (dry_run : Bool) where
  unfoldable pub send : Call → Sent → Sent
  send call sent = if dry_run then sent else record {
    calls = sent.calls ++ call ∷ [];
    latest_tx_block = elim (answer call) [
      | ok block ↦ later_block sent.latest_tx_block block
      | err _ ↦ sent.latest_tx_block
    ];
  }

  -- Thaws, then deposits, reduced when they are too large together, then withdrawals.
  unfoldable pub carry_out : ℕ → Plan → Result Sent Stopped
  carry_out fuel plan = do
    let thawed =
        if is_empty plan.thaws then nothing_sent else send (thaw_many plan.thaws) nothing_sent
    deposited ← if is_empty plan.adjustments then ok thawed else do
      adjustments ←
          if leb (total plan.adjustments) max_adjustment
          then ok plan.adjustments
          else reduce_adjustments fuel plan.adjustments
      ok (send (deposit_many adjustments) thawed)
    ok (
        if is_empty plan.withdrawals
        then deposited
        else send (withdraw_many plan.withdrawals) deposited)
