-- ===== src/EscrowManager/Cycle/Calls.antt =====
-- The transactions of a cycle (crates/bin/escrow_manager/src/main.rs).
use graph_tally.Prelude.{
  ℕ, ◌≡◌, refl, true, false, List, [], ◌∷◌, ◌++◌, Result, ok, if◌then◌else◌, leb, arith, Bool-cases,
  inl, inr,
}
use graph_tally.Message.{Address}
use graph_tally.EscrowManager.{max_adjustment}
use graph_tally.EscrowManager.Reduce.{Stopped, reduce_adjustments, total}
use graph_tally.EscrowManager.Cycle.{
  Plan, Call, thaw_many, deposit_many, withdraw_many, Sent, nothing_sent, is_empty, send, carry_out,
}

-- The deposits that are sent.
abbrev pub deposits_of : ℕ → Plan → Result (List (Address × ℕ)) Stopped
deposits_of fuel plan =
    if is_empty plan.adjustments
    then ok []
    else if leb (total plan.adjustments) max_adjustment
    then ok plan.adjustments
    else reduce_adjustments fuel plan.adjustments

abbrev pub calls_of : Plan → List (Address × ℕ) → List Call
calls_of plan deposits =
    (if is_empty plan.thaws then [] else thaw_many plan.thaws ∷ [])
    ++ ((if is_empty plan.adjustments then [] else deposit_many deposits ∷ [])
        ++ (if is_empty plan.withdrawals then [] else withdraw_many plan.withdrawals ∷ []))

module _ {E : Type 0} (answer : Call → Result ℕ E) where
  after_thaws : Plan → Sent
  after_thaws plan =
      if is_empty plan.thaws
      then nothing_sent
      else send answer false (thaw_many plan.thaws) nothing_sent

  after_deposits : Plan → List (Address × ℕ) → Sent
  unfolding after_thaws
  after_deposits plan deposits =
      if is_empty plan.adjustments
      then after_thaws plan
      else send answer false (deposit_many deposits) (after_thaws plan)

  after_all : Plan → List (Address × ℕ) → Sent
  unfolding after_deposits
  after_all plan deposits =
      if is_empty plan.withdrawals
      then after_deposits plan deposits
      else send answer false (withdraw_many plan.withdrawals) (after_deposits plan deposits)

  carry_out-after_all :
      (fuel : ℕ) (plan : Plan) (deposits : List (Address × ℕ))
      → deposits_of fuel plan ≡ ok deposits
      → carry_out answer false fuel plan ≡ ok (after_all plan deposits)
  unfolding carry_out after_all after_deposits after_thaws
  carry_out-after_all fuel plan deposits h = elim (Bool-cases (is_empty plan.adjustments)) [
    | inl e ↦ rw e refl
    | inr e ↦
        let chosen : (if leb (total plan.adjustments) max_adjustment
              then ok plan.adjustments
              else reduce_adjustments fuel plan.adjustments)
            ≡ ok deposits =
          rw e at h in
        rw (e, chosen) refl
  ]

  after_all-calls :
      (plan : Plan) (deposits : List (Address × ℕ))
      → (after_all plan deposits).calls ≡ calls_of plan deposits
  unfolding after_all after_deposits after_thaws send
  after_all-calls plan deposits = ground arith

  -- Whatever the contracts answer, a cycle that is not a dry run makes one call for each batch that
  -- is not empty: the thaws, then the deposits, reduced when they are too large together, then the
  -- withdrawals. A call that fails does not keep the later ones from being made.
  pub carry_out-calls :
      (fuel : ℕ) (plan : Plan) (deposits : List (Address × ℕ))
      → deposits_of fuel plan ≡ ok deposits
      → (sent : Sent) × (carry_out answer false fuel plan ≡ ok sent)
        × (sent.calls ≡ calls_of plan deposits)
  carry_out-calls fuel plan deposits h = (
    after_all plan deposits,
    carry_out-after_all fuel plan deposits h,
    after_all-calls plan deposits,
  )

  -- A dry run makes no call.
  pub carry_out-dry :
      (fuel : ℕ) (plan : Plan) (sent : Sent)
      → carry_out answer true fuel plan ≡ ok sent
      → sent ≡ nothing_sent
  unfolding carry_out send
  carry_out-dry fuel plan sent h = ground arith
