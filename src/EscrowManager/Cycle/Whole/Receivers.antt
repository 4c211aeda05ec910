-- ===== src/EscrowManager/Cycle/Whole/Receivers.antt =====
-- Whom a whole cycle touches (crates/bin/escrow_manager/src/main.rs: the loop in main).
use graph_tally.Prelude.{
  ℕ, ◌+◌, ◌≤◌, ◌<◌, ◌≡◌, refl, sym, ==_iff, ap, ◌∙◌, Bool, true, ◌||◌, List, [], ◌∷◌, Option, none,
  some, Result, ok, ok_or, >>=-eq-ok, if◌then◌else◌, ltb, ◌==◌, any, count_if, All, All-map, arith,
  Bool-cases, inl, inr,
}
use graph_tally.Prelude.Maps.{Map}
use graph_tally.Message.{Address}
use graph_tally.EscrowManager.{EscrowAccount}
use graph_tally.EscrowManager.Reduce.{out_of_fuel}
use graph_tally.EscrowManager.Cycle.{Allocation, Call, carry_out}
use graph_tally.EscrowManager.Cycle.Batches.{planned, make_plan-batches}
use graph_tally.EscrowManager.Cycle.Whole.{
  insert_ordered, receivers_of, Inputs, Settings, Ran, plan_in, run_with, run_cycle,
}

abbrev stands : Address → List Address → ℕ
stands a xs = count_if (λ r. r == a) xs

-- In order, without repetition.
abbrev IsOrdered : List Address → Type 0
IsOrdered [] = Unit
IsOrdered (x ∷ xs) = All (λ y. x < y) xs × IsOrdered xs

insert-above :
    (low a : Address) (xs : List Address)
    → low < a
    → All (λ y. low < y) xs
    → All (λ y. low < y) (insert_ordered a xs)
unfolding insert_ordered
insert-above low a [] h k = (h, tt)
insert-above low a (x ∷ xs) h k = elim (Bool-cases (a == x)) [
  | inl e ↦ rw e k
  | inr e ↦ elim (Bool-cases (ltb a x)) [
    | inl l ↦ rw (e, l) (h, k)
    | inr l ↦ rw (e, l) (k.0, insert-above low a xs h k.1)
  ]
]

insert-IsOrdered :
    (a : Address) (xs : List Address) → IsOrdered xs → IsOrdered (insert_ordered a xs)
unfolding insert_ordered
insert-IsOrdered a [] h = (tt, tt)
insert-IsOrdered a (x ∷ xs) h = elim (Bool-cases (a == x)) [
  | inl e ↦ rw e h
  | inr e ↦ elim (Bool-cases (ltb a x)) [
    | inl l ↦
        let less : a < x = ground arith in
        rw (e, l) ((less, All-map (λ y k. omega (arith, k, less)) xs h.0), h)
    | inr l ↦ rw (e, l) (insert-above x a xs (ground arith) h.0, insert-IsOrdered a xs h.1)
  ]
]

stands_above : (a : Address) (xs : List Address) → All (λ y. a < y) xs → stands a xs ≡ 0
stands_above a [] h = refl
stands_above a (x ∷ xs) h = ground (arith, stands_above a xs h.1)

stands-IsOrdered : (a : Address) (xs : List Address) → IsOrdered xs → stands a xs ≤ 1
stands-IsOrdered a [] h = omega arith
stands-IsOrdered a (x ∷ xs) h = elim (Bool-cases (x == a)) [
  | inl e ↦ ground (arith, e, stands_above x xs h.0)
  | inr e ↦ ground (arith, e, stands-IsOrdered a xs h.1)
]

stands-insert :
    (a b : Address) (xs : List Address)
    → stands a (insert_ordered b xs) ≤ stands a xs + (if b == a then 1 else 0)
unfolding insert_ordered
stands-insert a b [] = ground arith
stands-insert a b (x ∷ xs) = ground (arith, stands-insert a b xs)

receivers-IsOrdered :
    (allocations : List Allocation) (accounts : Map EscrowAccount)
    → IsOrdered (receivers_of allocations accounts)
unfolding receivers_of
receivers-IsOrdered [] [] = tt
receivers-IsOrdered [] ((r, x) ∷ accounts) =
    insert-IsOrdered r (receivers_of [] accounts) (receivers-IsOrdered [] accounts)
receivers-IsOrdered (allocation ∷ allocations) accounts =
    insert-IsOrdered allocation.indexer (receivers_of allocations accounts)
      (receivers-IsOrdered allocations accounts)

pub receivers-once :
    (a : Address) (allocations : List Allocation) (accounts : Map EscrowAccount)
    → count_if (λ r. r == a) (receivers_of allocations accounts) ≤ 1
receivers-once a allocations accounts =
    stands-IsOrdered a _ (receivers-IsOrdered allocations accounts)

-- An indexer of an allocation, or the receiver of an account.
abbrev pub is_receiver : Address → List Allocation → Map EscrowAccount → Bool
is_receiver a allocations accounts =
    any (λ x. x.indexer == a) allocations || any (λ e. e.0 == a) accounts

receivers-known :
    (a : Address) (allocations : List Allocation) (accounts : Map EscrowAccount)
    → 1 ≤ stands a (receivers_of allocations accounts)
    → is_receiver a allocations accounts ≡ true
unfolding receivers_of
receivers-known a [] [] h = absurd (omega (arith, h))
receivers-known a [] ((r, x) ∷ accounts) h =
    ground (arith, receivers-known a [] accounts, stands-insert a r (receivers_of [] accounts))
receivers-known a (allocation ∷ allocations) accounts h = ground (
  arith,
  receivers-known a allocations accounts,
  stands-insert a allocation.indexer (receivers_of allocations accounts),
)

stands-more : (a b : Address) (xs : List Address) → stands a xs ≤ stands a (insert_ordered b xs)
unfolding insert_ordered
stands-more a b [] = omega arith
stands-more a b (x ∷ xs) = ground (arith, stands-more a b xs)

stands-own : (a : Address) (xs : List Address) → 1 ≤ stands a (insert_ordered a xs)
unfolding insert_ordered
stands-own a [] = ground arith
stands-own a (x ∷ xs) = ground (arith, stands-own a xs)

-- All of them are there.
pub receivers_complete :
    (a : Address) (allocations : List Allocation) (accounts : Map EscrowAccount)
    → is_receiver a allocations accounts ≡ true
    → 1 ≤ stands a (receivers_of allocations accounts)
unfolding receivers_of
receivers_complete a [] [] h = absurd (cc h)
receivers_complete a [] ((r, x) ∷ accounts) h = elim (Bool-cases (r == a)) [
  | inl own ↦ rw (sym ((==_iff r a).0 own)) (stands-own r (receivers_of [] accounts))
  | inr other ↦
      let more = stands-more a r (receivers_of [] accounts) in
      let rest = receivers_complete a [] accounts (ground (arith, h, other)) in
      omega (arith, more, rest)
]
receivers_complete a (allocation ∷ allocations) accounts h =
    elim (Bool-cases (allocation.indexer == a)) [
      | inl own ↦
          rw (sym ((==_iff allocation.indexer a).0 own))
            (stands-own allocation.indexer (receivers_of allocations accounts))
      | inr other ↦
          let more = stands-more a allocation.indexer (receivers_of allocations accounts) in
          let rest = receivers_complete a allocations accounts (ground (arith, h, other)) in
          omega (arith, more, rest)
    ]

ok_or-some : {A F : Type 0} (o : Option A) (f : F) {a : A} → ok_or o f ≡ ok a → o ≡ some a
ok_or-some none f h = absurd (cc h)
ok_or-some (some x) f h = ground arith

module _ {E : Type 0} (reaches : ℕ → ℕ → Bool) (answer : Call → Result ℕ E) (fuel : ℕ)
    (settings : Settings) (inputs : Inputs E) (pinned : Option ℕ) where
  run_with-plan :
      (allocations : List Allocation) (accounts : Map EscrowAccount) (ran : Ran)
      → run_with reaches answer fuel settings inputs allocations accounts pinned ≡ ok ran
      → (plan_in reaches answer fuel settings inputs allocations accounts ≡ some ran.plan)
        × (carry_out answer settings.dry_run fuel ran.plan ≡ ok ran.sent)
  unfolding run_with
  run_with-plan allocations accounts ran h =
      let (plan, e, h₁) =
        >>=-eq-ok
          (ok_or (plan_in reaches answer fuel settings inputs allocations accounts) out_of_fuel) _
          h in
      let (sent, f, h₂) = >>=-eq-ok (carry_out answer settings.dry_run fuel plan) _ h₁ in
      let same : plan ≡ ran.plan = ground (arith, h₂) in
      let same_sent : sent ≡ ran.sent = ground (arith, h₂) in
      (
        ok_or-some _ out_of_fuel e ∙ ap some same,
        ap (carry_out answer settings.dry_run fuel) (sym same) ∙ f ∙ ap ok same_sent,
      )

  pub run_cycle-plan :
      (allocations : List Allocation) (accounts : Map EscrowAccount) (ran : Ran)
      → inputs.allocations ≡ ok allocations
      → inputs.escrow_accounts ≡ ok accounts
      → run_cycle reaches answer fuel settings inputs pinned ≡ ok (some ran)
      → (plan_in reaches answer fuel settings inputs allocations accounts ≡ some ran.plan)
        × (carry_out answer settings.dry_run fuel ran.plan ≡ ok ran.sent)
  unfolding run_cycle
  run_cycle-plan allocations accounts ran h k made =
      let (out, w, same) =
        >>=-eq-ok (run_with reaches answer fuel settings inputs allocations accounts pinned) _
          (rw (h, k) at made) in
      let ran_same : out ≡ ran = ground (arith, same) in
      run_with-plan allocations accounts ran (rw (← ran_same) w)

  -- A cycle takes at most one action for each receiver, and only for the indexers of the
  -- allocations and the receivers that have an account.
  pub run_cycle-receivers :
      (allocations : List Allocation) (accounts : Map EscrowAccount) (ran : Ran) (a : Address)
      → inputs.allocations ≡ ok allocations
      → inputs.escrow_accounts ≡ ok accounts
      → run_cycle reaches answer fuel settings inputs pinned ≡ ok (some ran)
      → planned a ran.plan ≤ (if is_receiver a allocations accounts then 1 else 0)
  run_cycle-receivers allocations accounts ran a h k made =
      let (plan, _) = run_cycle-plan allocations accounts ran h k made in
      let few =
        make_plan-batches reaches fuel accounts _ settings.debts _
          (receivers_of allocations accounts) ran.plan plan a in
      let once = receivers-once a allocations accounts in
      let known = receivers-known a allocations accounts in ground (arith, few, once, known)
