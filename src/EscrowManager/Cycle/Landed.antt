-- ===== src/EscrowManager/Cycle/Landed.antt =====
-- What the calls of a cycle do to an account, once they land (crates/bin/escrow_manager/src/main.rs:
-- the transactions).
use graph_tally.Prelude.{
  ℕ, ◌≤◌, ◌≡◌, refl, ◌∙◌, sym, ap, Bool, true, false, List, [], ◌∷◌, ◌++◌, none, some, Result, ok,
  err, if◌then◌else◌, leb, ◌==◌, All, contains, count_if, map_or, arith, Bool-cases, Option-cases,
  inl, inr,
}
use graph_tally.Prelude.Maps.{Map, lookup}
use graph_tally.Message.{Address}
use graph_tally.EscrowManager.{EscrowAccount, withdraw, deposit, thaw, max_adjustment}
use graph_tally.EscrowManager.Decide.{carried_out}
use graph_tally.EscrowManager.Reduce.{Stopped, total}
use graph_tally.EscrowManager.Cycle.{
  Plan, Call, thaw_many, deposit_many, withdraw_many, Sent, carry_out, is_empty,
}
use graph_tally.EscrowManager.Cycle.Batches.{planned}
use graph_tally.EscrowManager.Cycle.Calls.{calls_of, deposits_of, carry_out-calls}
use graph_tally.EscrowManager.Cycle.Funded.{action_of}

-- A receiver's account after a call that landed: the contract carries out each entry of the batch.
abbrev pub after_call : Address → ℕ → Call → EscrowAccount → EscrowAccount
after_call a end (thaw_many thaws) account =
    map_or (lookup a thaws) account (λ amount. carried_out (thaw amount) end account)
after_call a end (deposit_many deposits) account =
    map_or (lookup a deposits) account (λ amount. carried_out (deposit amount) end account)
after_call a end (withdraw_many receivers) account =
    if contains receivers a then carried_out withdraw end account else account

module _ {E : Type 0} (answer : Call → Result ℕ E) where
  -- A call lands when its answer is a block; one that fails changes nothing.
  abbrev pub HasLanded : Call → Type 0
  HasLanded call = (block : ℕ) × (answer call ≡ ok block)

  abbrev pub after_calls : Address → ℕ → List Call → EscrowAccount → EscrowAccount
  after_calls a end [] account = account
  after_calls a end (call ∷ calls) account =
      after_calls a end calls
        (elim (answer call) [ ok _ ↦ after_call a end call account | err _ ↦ account ])

  -- A batch that is sent only where it is not empty.
  batch-lands :
      (a : Address) (end : ℕ) (skip : Bool) (call : Call) (rest : List Call)
      (account : EscrowAccount)
      → (skip ≡ true → after_call a end call account ≡ account)
      → All HasLanded ((if skip then [] else call ∷ []) ++ rest)
      → (after_calls a end ((if skip then [] else call ∷ []) ++ rest) account
          ≡ after_calls a end rest (after_call a end call account))
        × All HasLanded rest
  batch-lands a end true call rest account same landed =
      (ap (after_calls a end rest) (sym (same refl)), landed)
  batch-lands a end false call rest account same landed = (rw (landed.0.1) refl, landed.1)

  last-lands :
      (a : Address) (end : ℕ) (skip : Bool) (call : Call) (account : EscrowAccount)
      → (skip ≡ true → after_call a end call account ≡ account)
      → All HasLanded (if skip then [] else call ∷ [])
      → after_calls a end (if skip then [] else call ∷ []) account ≡ after_call a end call account
  last-lands a end true call account same landed = sym (same refl)
  last-lands a end false call account same landed = rw (landed.0.1) refl

empty-lookup : (a : Address) (m : Map ℕ) → is_empty m ≡ true → lookup a m ≡ none
empty-lookup a [] h = refl
empty-lookup a (e ∷ m) h = absurd (cc h)

empty-contains : (a : Address) (xs : List ℕ) → is_empty xs ≡ true → contains xs a ≡ false
empty-contains a [] h = refl
empty-contains a (e ∷ m) h = absurd (cc h)

lookup-count :
    (a v : ℕ) (m : Map ℕ) → lookup a m ≡ some v → 1 ≤ count_if (λ (e : Address × ℕ). e.0 == a) m
lookup-count a v [] h = absurd (cc h)
lookup-count a v ((k, w) ∷ m) h = ground (arith, lookup-count a v m)

contains-count : (a : ℕ) (xs : List ℕ) → contains xs a ≡ true → 1 ≤ count_if (λ w. w == a) xs
contains-count a [] h = absurd (cc h)
contains-count a (x ∷ xs) h = ground (arith, contains-count a xs)

-- With at most one action for the account, the three batches together take that one.
after_plan :
    (a : Address) (end : ℕ) (plan : Plan) (account : EscrowAccount)
    → planned a plan ≤ 1
    → after_call a end (withdraw_many plan.withdrawals) (
        after_call a end
          (deposit_many plan.adjustments)
          (after_call a end (thaw_many plan.thaws) account))
      ≡ carried_out (action_of a plan) end account
after_plan a end plan account once = elim (Bool-cases (contains plan.withdrawals a)) [
  | inl out ↦
      let here = contains-count a plan.withdrawals out in
      elim (Option-cases (lookup a plan.thaws)) [
        | inr (v, found) ↦
            let more = lookup-count a v plan.thaws found in absurd (omega (arith, once, here, more))
        | inl no_thaw ↦ elim (Option-cases (lookup a plan.adjustments)) [
          | inr (v, found) ↦
              let more = lookup-count a v plan.adjustments found in
              absurd (omega (arith, once, here, more))
          | inl no_deposit ↦ rw (out, no_thaw, no_deposit) refl
        ]
      ]
  | inr stays ↦ elim (Option-cases (lookup a plan.thaws)) [
    | inl no_thaw ↦ elim (Option-cases (lookup a plan.adjustments)) [
      | inl no_deposit ↦ rw (stays, no_thaw, no_deposit) refl
      | inr (v, found) ↦ rw (stays, no_thaw, found) refl
    ]
    | inr (v, found) ↦
        let here = lookup-count a v plan.thaws found in
        elim (Option-cases (lookup a plan.adjustments)) [
          | inr (w, also) ↦
              let more = lookup-count a w plan.adjustments also in
              absurd (omega (arith, once, here, more))
          | inl no_deposit ↦ rw (stays, found, no_deposit) refl
        ]
  ]
]

whole :
    (deposits : List (Address × ℕ))
    → if◌then◌else◌ {A = Result (List (Address × ℕ)) Stopped}
        (is_empty deposits)
        (ok [])
        (ok deposits)
      ≡ ok deposits
whole [] = refl
whole (_ ∷ _) = refl

unreduced :
    (fuel : ℕ) (plan : Plan)
    → leb (total plan.adjustments) max_adjustment ≡ true
    → deposits_of fuel plan ≡ ok plan.adjustments
unreduced fuel plan within = rw within (whole plan.adjustments)

module _ {E : Type 0} (answer : Call → Result ℕ E) where
  calls-land :
      (a : Address) (end : ℕ) (plan : Plan) (account : EscrowAccount)
      → planned a plan ≤ 1
      → All (HasLanded answer) (calls_of plan plan.adjustments)
      → after_calls answer a end (calls_of plan plan.adjustments) account
        ≡ carried_out (action_of a plan) end account
  calls-land a end plan account once landed =
      let (first, landed₁) =
        batch-lands answer a end (is_empty plan.thaws) (thaw_many plan.thaws) _ account
          (λ e. rw (empty-lookup a plan.thaws e) refl) landed in
      let (second, landed₂) =
        batch-lands answer a end (is_empty plan.adjustments) (deposit_many plan.adjustments) _ _
          (λ e. rw (empty-lookup a plan.adjustments e) refl) landed₁ in
      let third =
        last-lands answer a end (is_empty plan.withdrawals) (withdraw_many plan.withdrawals) _
          (λ e. rw (empty-contains a plan.withdrawals e) refl) landed₂ in
      first ∙ second ∙ third ∙ after_plan a end plan account once

  -- The calls of a cycle whose deposits are together within the limit, once every one has landed.
  pub carry_out-lands :
      (fuel : ℕ) (plan : Plan) (sent : Sent) (a : Address) (end : ℕ) (account : EscrowAccount)
      → planned a plan ≤ 1
      → leb (total plan.adjustments) max_adjustment ≡ true
      → carry_out answer false fuel plan ≡ ok sent
      → All (HasLanded answer) sent.calls
      → after_calls answer a end sent.calls account ≡ carried_out (action_of a plan) end account
  carry_out-lands fuel plan sent a end account once within h landed =
      let (other, made, calls) =
        carry_out-calls answer fuel plan plan.adjustments (unreduced fuel plan within) in
      let agree : ok sent ≡ ok other = sym h ∙ made in
      let one : sent ≡ other = ground (arith, agree) in
      let same : sent.calls ≡ calls_of plan plan.adjustments = ap (λ s. s.calls) one ∙ calls in
      rw same (calls-land a end plan account once (rw same at landed))
