-- ===== src/Tests/Escrow.antt =====
-- The escrow manager, on concrete accounts, deposits and messages.
use graph_tally.Prelude.{
  ℕ, ◌*◌, ◌≡◌, ◌≢◌, ◌≤◌, refl, Bool, false, List, [], ◌∷◌, Option, some, Result, ok, err, arith,
  ltb, leb,
}
use mathlib.Core.List.{Perm, Permᴰ}
use graph_tally.Prelude.Maps.{Map, lookup}
use graph_tally.EscrowManager.{
  EscrowAccount, Reclaim, withdraw, deposit, thaw, decide, grt, next_balance, max_adjustment,
}
use graph_tally.EscrowManager.Decide.{effective, carried_out, decide-covers, decide-settles}
use graph_tally.EscrowManager.Target.{IsTarget, next_balance-IsTarget}
use graph_tally.EscrowManager.Reduce.{reduce_adjustments, collected}
use graph_tally.EscrowManager.Reduce.Cap.{IsReduced, reduce_adjustments-IsReduced}
use graph_tally.EscrowManager.Cycle.{Plan, Call, thaw_many, deposit_many, withdraw_many}
use graph_tally.EscrowManager.Ravs.{ParseResult, ParseError, v2, process_records}
use graph_tally.EscrowManager.Ravs.Highest.{process_records-perm}

abbrev pub account : ℕ → ℕ → EscrowAccount
account balance thawing = record { balance = balance; thawing = thawing; thaw_end_timestamp = 0 }

abbrev reclaim : Option Reclaim
reclaim = some (record { chain_now = some 50; margin_bps = 2500; min_withdraw = 10 })

plenty : decide (account 40000 0) 20000 reclaim ≡ thaw 15000
unfolding decide
plenty = refl

no_withdrawal : decide (account 40000 0) 20000 reclaim ≢ withdraw
no_withdrawal h = cc (plenty, h)

decide-covers_example :
    20000 ≤ effective (carried_out (decide (account 40000 0) 20000 reclaim) 99 (account 40000 0))
decide-covers_example =
    (decide-covers (account 40000 0) 20000 reclaim 99 (omega arith) (omega arith) (omega arith)).0
      no_withdrawal

decide-settles_example :
    decide (carried_out (decide (account 40000 0) 20000 reclaim) 99 (account 40000 0)) 20000 reclaim
    ≢ deposit 1
decide-settles_example =
    decide-settles (account 40000 0) 20000 reclaim 99 (omega arith) (omega arith) (omega arith)
      no_withdrawal reclaim 1

-- A debt that reaches the steps below 9.
abbrev below_nine : ℕ → Bool
below_nine step = ltb step 9

unreached : (n : ℕ) → 9 ≤ n → below_nine n ≡ false
unreached n h = ground arith

next_balance-IsTarget_example :
    IsTarget below_nine 9 unreached (omega arith) 2 (next_balance below_nine 10)
next_balance-IsTarget_example = next_balance-IsTarget below_nine 9 unreached (omega arith)

abbrev wishes : List (ℕ × ℕ)
wishes = (1, 20000000000000000000000) ∷ (2, 3000000000000000000) ∷ []

reduce_adjustments-IsReduced_example :
    IsReduced (collected [] wishes) (reduce_adjustments max_adjustment wishes)
reduce_adjustments-IsReduced_example =
    reduce_adjustments-IsReduced wishes max_adjustment (omega arith) (omega arith) (omega arith)
      (omega arith)

abbrev pub accounts : Map EscrowAccount
accounts = (1, account 0 0) ∷ (2, account 9000000000000000000000 0) ∷ []

abbrev pub step_test : ℕ → ℕ → Bool
step_test debt step = leb (step * grt) debt

abbrev pub plan : Plan
plan = record {
  total_target = 4000000000000000000;
  adjustments = (1, 2000000000000000000) ∷ [];
  thaws = (2, 8997500000000000000000) ∷ [];
  withdrawals = [];
}

-- The thaw fails, the deposit lands in block 7.
abbrev pub answer : Call → Result ℕ (Unit {0})
answer (thaw_many _) = err tt
answer (deposit_many _) = ok 7
answer (withdraw_many _) = ok 8

abbrev message : ℕ → ℕ → Result ParseResult ParseError
message allocation value =
    ok (v2 (record { signer = 1001; allocation = allocation; value = value }))

swapped : Perm (message 6 5 ∷ message 6 3 ∷ []) (message 6 3 ∷ message 6 5 ∷ [])
swapped = ∣ Permᴰ.swap refl refl ∣₁

process_records-perm_example :
    lookup 6 (process_records (1001 ∷ []) (message 6 5 ∷ message 6 3 ∷ []) [])
    ≡ lookup 6 (process_records (1001 ∷ []) (message 6 3 ∷ message 6 5 ∷ []) [])
process_records-perm_example = process_records-perm (1001 ∷ []) [] 6 swapped
