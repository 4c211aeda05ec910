-- ===== src/EscrowManager/Reduce/Rounds.antt =====
-- One round over the receivers (crates/bin/escrow_manager/src/main.rs: the inner loop of
-- reduce_adjustments).
use graph_tally.Prelude.{
  ℕ, ◌+◌, ◌≤◌, ◌<◌, ◌≡◌, refl, ◌∙◌, ap, ◌⊎◌, inl, inr, Bool, true, false, List, [], ◌∷◌, some, leb,
  leb→le, leb-false, ◌==◌, All, All-map, arith, Bool-cases, ==_iff,
}
use graph_tally.Prelude.Words.{u128_mod}
use graph_tally.Prelude.Maps.{Map, lookup, sum_values}
use graph_tally.EscrowManager.{max_adjustment}
use graph_tally.EscrowManager.Reduce.{total, value_at, hundred_grt, raise_towards, raise_all}
use graph_tally.EscrowManager.Reduce.Within.{
  IsWithin, raised_value, raised_value-bounds, raised-sum, raised-value_at, raised-IsWithin,
}

-- What a round over some of the receivers leads to.
pub record IsRaised (desired some_of adj : Map ℕ) (outcome : Bool × Map ℕ) : Type 0 where
  pub stays_within : IsWithin desired outcome.1
  pub never_less : sum_values adj ≤ sum_values outcome.1
  pub returned :
      outcome.0 ≡ true
      → (max_adjustment ≤ sum_values outcome.1)
        × (sum_values outcome.1 < max_adjustment + hundred_grt)
  pub went_on :
      outcome.0 ≡ false
      → (sum_values outcome.1 < max_adjustment)
        × ((sum_values adj < sum_values outcome.1) ⊎ All (λ e. e.1 ≤ value_at e.0 adj) some_of)

total-small : (m : Map ℕ) → sum_values m < max_adjustment + hundred_grt → total m ≡ sum_values m
total-small m h = omega arith

module _ (desired adj : Map ℕ) (r d : ℕ) (rest : List (ℕ × ℕ)) (wants : lookup r desired ≡ some d)
    (w : IsWithin desired adj) (below : sum_values adj < max_adjustment) where
  next : Map ℕ
  next = raise_towards r d adj

  room_left : sum_values adj + hundred_grt < u128_mod
  room_left = omega (arith, below)

  grown :
      (sum_values adj ≤ sum_values next)
      × (sum_values next < max_adjustment + hundred_grt)
      × ((sum_values adj < sum_values next)
          ⊎ ((d ≤ value_at r adj) × (sum_values next ≡ sum_values adj)))
  unfolding next
  grown =
      let s = raised-sum desired adj r d wants w room_left in
      let (up, cap, little, more) = raised_value-bounds desired adj r d wants w room_left in
      (
        omega (arith, s, up),
        omega (arith, s, little),
        elim more [
          | inl up ↦ inl (omega (arith, s, up))
          | inr enough ↦ inr (enough, omega (arith, s, up, cap))
        ],
      )

  unchanged : sum_values next ≡ sum_values adj → (j : ℕ) → value_at j next ≡ value_at j adj
  unfolding next
  unchanged h j =
      let s = raised-sum desired adj r d wants w room_left in
      let kept : raised_value desired adj r d wants w room_left ≡ value_at r adj =
        omega (arith, s, h) in
      raised-value_at desired adj r d wants w room_left j ∙ elim (Bool-cases (r == j)) [
        | inl same ↦ rw same (kept ∙ ap (λ x. value_at x adj) ((==_iff r j).0 same))
        | inr other ↦ rw other
      ]

  next-IsWithin : IsWithin desired next
  unfolding next
  next-IsWithin = raised-IsWithin desired adj r d wants w room_left

  next-below : leb max_adjustment (total next) ≡ false → sum_values next < max_adjustment
  next-below h = let (_, small, _) = grown in omega (arith, leb-false _ _ h, total-small next small)

  returns :
      leb max_adjustment (total next) ≡ true → IsRaised desired ((r, d) ∷ rest) adj (true, next)
  returns h =
      let (up, small, _) = grown in
      record {
        stays_within = next-IsWithin;
        never_less = up;
        returned = λ e. (omega (arith, leb→le _ _ h, total-small next small), small);
        went_on = λ e. absurd (cc e);
      }

  goes_on :
      (outcome : Bool × Map ℕ)
      → leb max_adjustment (total next) ≡ false
      → IsRaised desired rest next outcome
      → IsRaised desired ((r, d) ∷ rest) adj outcome
  goes_on outcome h later =
      let (up, small, more) = grown in
      record {
        stays_within = IsRaised.stays_within later;
        never_less = omega (arith, up, IsRaised.never_less later);
        returned = IsRaised.returned later;
        went_on = λ e.
            let (low, progress) = IsRaised.went_on later e in
            (
              low,
              elim more [
                | inl grew ↦ inl (omega (arith, grew, IsRaised.never_less later))
                | inr (enough, same) ↦ elim progress [
                  | inl grew ↦ inl (omega (arith, grew, same))
                  | inr all_enough ↦ inr (
                    enough,
                    All-map (λ x k. omega (arith, k, unchanged same x.0)) rest all_enough,
                  )
                ]
              ],
            );
      }

pub raise_all-IsRaised :
    (desired some_of adj : Map ℕ)
    → All (λ e. lookup e.0 desired ≡ some e.1) some_of
    → IsWithin desired adj
    → sum_values adj < max_adjustment
    → IsRaised desired some_of adj (raise_all some_of adj)
unfolding raise_all next
raise_all-IsRaised desired [] adj wanted w below = record {
  stays_within = w;
  never_less = omega arith;
  returned = λ h. absurd (cc h);
  went_on = λ h. (below, inr tt);
}
raise_all-IsRaised desired ((r, d) ∷ rest) adj wanted w below =
    elim (Bool-cases (leb max_adjustment (total (raise_towards r d adj)))) [
      | inl done ↦ rw done (returns desired adj r d rest wanted.0 w below done)
      | inr more ↦
          let still : sum_values (raise_towards r d adj) < max_adjustment =
            next-below desired adj r d rest wanted.0 w below more in
          rw more (
            goes_on desired adj r d rest wanted.0 w below (raise_all rest (raise_towards r d adj))
              more
              (raise_all-IsRaised desired rest (raise_towards r d adj) wanted.1
                (raised-IsWithin desired adj r d wanted.0 w (omega (arith, below))) still))
    ]

-- Deposits that reach the cap already: the round returns after the first receiver.
pub raise_all-crowded :
    (desired adj : Map ℕ) (r d : ℕ) (rest : List (ℕ × ℕ))
    → lookup r desired ≡ some d
    → IsWithin desired adj
    → sum_values adj + hundred_grt < u128_mod
    → max_adjustment ≤ sum_values adj
    → ((raise_all ((r, d) ∷ rest) adj).0 ≡ true)
      × IsWithin desired (raise_all ((r, d) ∷ rest) adj).1
      × (sum_values adj ≤ sum_values (raise_all ((r, d) ∷ rest) adj).1)
      × (sum_values (raise_all ((r, d) ∷ rest) adj).1 ≤ sum_values adj + hundred_grt)
unfolding raise_all
raise_all-crowded desired adj r d rest wants w room at_cap =
    let s = raised-sum desired adj r d wants w room in
    let (up, cap, little, more) = raised_value-bounds desired adj r d wants w room in
    let low : sum_values adj ≤ sum_values (raise_towards r d adj) = omega (arith, s, up) in
    let high : sum_values (raise_towards r d adj) ≤ sum_values adj + hundred_grt =
      omega (arith, s, little) in
    let done : leb max_adjustment (total (raise_towards r d adj)) ≡ true =
      ground (arith, low, high, room, at_cap) in
    rw (done, raise_all) (refl, raised-IsWithin desired adj r d wants w room, low, high)
