-- ===== src/EscrowManager.antt =====
-- The escrow manager (crates/bin/escrow_manager/src): the accounts (subgraphs.rs) and the decision
-- for one receiver (main.rs). The cycle, the reduction of deposits and the debts from Kafka are the
-- modules below.
pub mod Decide
pub mod Target
pub mod Reduce
pub mod Cycle
pub mod Receipts
pub mod Ravs
pub mod Contracts
pub mod Startup
pub mod Subgraphs
use graph_tally.Prelude.{
  ℕ, zero, suc, ◌+◌, ◌-◌, ◌*◌, ◌/◌, ◌%◌, min, Bool, true, false, not, ◌&&◌, List, [], ◌∷◌, Option,
  none, some, if◌then◌else◌, ltb, leb, ◌==◌, map_or, any,
}
use graph_tally.Prelude.Words.{u32_mod, u128_mod}
use graph_tally.Prelude.Maps.{Map}
use graph_tally.Message.{Address}

abbrev pub grt : ℕ
grt = 1000000000000000000

abbrev pub min_deposit : ℕ
min_deposit = 2000000000000000000

abbrev pub max_adjustment : ℕ
max_adjustment = 10000000000000000000000

pub record EscrowAccount : Type 0 where
  pub balance : ℕ
  pub thawing : ℕ
  -- zero when nothing thaws
  pub thaw_end_timestamp : ℕ

-- `EscrowAccount::default()`
abbrev pub empty_account : EscrowAccount
empty_account = record { balance = 0; thawing = 0; thaw_end_timestamp = 0 }

-- The step up, in GRT, on `u32`.
unfoldable pub next_round_after : ℕ → ℕ
next_round_after next_round =
    min (min (next_round * 2) (u32_mod - 1)) ((next_round + 10000) % u32_mod)

-- The comparison of the debt with a step times the fill factor is on floating-point numbers: here
-- it is the test `reaches` of a step, for the given debt and factor. Fuel bounds the loop.
unfoldable pub next_balance_loop : (ℕ → Bool) → ℕ → ℕ → Option ℕ
unfolding next_round_after
next_balance_loop reaches zero next_round = none
next_balance_loop reaches (suc fuel) next_round =
    let rest = next_balance_loop reaches fuel (next_round_after next_round) in
    if reaches next_round then rest else some (next_round * grt)

abbrev pub next_balance : (ℕ → Bool) → ℕ → Option ℕ
next_balance reaches fuel = next_balance_loop reaches fuel 2

pub record Reclaim : Type 0 where
  pub chain_now : Option ℕ
  pub margin_bps : ℕ
  pub min_withdraw : ℕ

pub data Action : Type 0 where
  nothing withdraw : Action
  deposit thaw : ℕ → Action

unfoldable pub debt_ready : Map ℕ → Bool
debt_ready debts = any (λ e. ltb 0 e.1) debts

-- `reclaim.and_then(|reclaim| reclaim.chain_now).is_some_and(|now| now > end)`
abbrev pub has_passed : Option Reclaim → ℕ → Bool
has_passed none end = false
has_passed (some reclaim) end = map_or reclaim.chain_now false (λ now. ltb end now)

abbrev pub has_matured : EscrowAccount → Option Reclaim → Bool
has_matured account reclaim =
    not (account.thaw_end_timestamp == 0)
    && ltb 0 account.thawing
    && has_passed reclaim account.thaw_end_timestamp

-- The floor above which escrow is reclaimed, on `u128`.
abbrev pub floor_of : ℕ → ℕ → ℕ
floor_of target margin_bps = (target + target / 10000 * margin_bps % u128_mod) % u128_mod

-- What `decide` does with enough escrow.
unfoldable pub decide_thaw : EscrowAccount → ℕ → Option Reclaim → Action
decide_thaw account target none = nothing
decide_thaw account target (some reclaim) =
    if ltb 0 account.thawing
    then nothing
    else let excess = account.balance - floor_of target reclaim.margin_bps in
      if ltb 0 excess && leb reclaim.min_withdraw excess then thaw excess else nothing

unfoldable pub decide : EscrowAccount → ℕ → Option Reclaim → Action
unfolding decide_thaw
decide account target reclaim =
    if has_matured account reclaim
    then withdraw
    else let effective_balance = account.balance - account.thawing in
      let short = target - effective_balance in
      if ltb 0 short then deposit short else decide_thaw account target reclaim
