-- ===== src/EscrowManager/Decide.antt =====
-- The decision for one receiver (crates/bin/escrow_manager/src/main.rs: decide).
use graph_tally.Prelude.{
  ap, ltb→lt, ℕ, ◌+◌, ◌-◌, ◌*◌, ◌/◌, ◌%◌, ◌≤◌, ◌<◌, ◌≡◌, ◌≢◌, ◌↔◌, refl, inl, inr, true, false,
  ◌&&◌, Option, none, some, if◌then◌else◌, ltb, leb, arith, Bool-cases,
}
use graph_tally.Prelude.Words.{u128_mod}
use native.Mathlib.Nat.{mul-le-mul_left}
use graph_tally.EscrowManager.{
  EscrowAccount, Reclaim, Action, nothing, withdraw, deposit, thaw, has_matured, floor_of, decide,
  decide_thaw,
}

-- What the escrow contract counts as coverage.
abbrev pub effective : EscrowAccount → ℕ
effective account = account.balance - account.thawing

-- The account once the action is carried out: a deposit adds to the balance, a thaw starts thawing
-- its amount until a time that the contract sets, and a withdrawal takes what thaws.
abbrev pub carried_out : Action → ℕ → EscrowAccount → EscrowAccount
carried_out nothing end account = account
carried_out withdraw end account = record {
  balance = account.balance - account.thawing;
  thawing = 0;
  thaw_end_timestamp = 0;
}
carried_out (deposit amount) end account = record account { balance = account.balance + amount }
carried_out (thaw amount) end account = record account {
  thawing = amount;
  thaw_end_timestamp = end;
}

-- The margin of a reclamation is a fraction, in basis points, as the start of the program ensures.
abbrev pub HasMargin : Option Reclaim → Type 0
HasMargin none = Unit
HasMargin (some reclaim) = reclaim.margin_bps ≤ 10000

abbrev pub half_u128 : ℕ
half_u128 = 170141183460469231731687303715884105728

floor-target :
    (target bps : ℕ)
    → target < half_u128
    → bps ≤ 10000
    → (target ≤ floor_of target bps) × (floor_of target bps ≡ target + target / 10000 * bps)
floor-target target bps small h =
    let part : target / 10000 * bps ≤ target / 10000 * 10000 = mul-le-mul_left (target / 10000) h in
    sums (target / 10000 * bps) (omega (arith, part))
  where
    sums :
        (m : ℕ)
        → m ≤ target
        → (target ≤ (target + m % u128_mod) % u128_mod)
          × ((target + m % u128_mod) % u128_mod ≡ target + m)
    sums m k = (omega arith, omega arith)

module _ (account : EscrowAccount) (target : ℕ) where
  decide_thaw-covers :
      (reclaim : Option Reclaim) (end : ℕ)
      → target < half_u128
      → HasMargin reclaim
      → target ≤ effective account
      → target ≤ effective (carried_out (decide_thaw account target reclaim) end account)
  unfolding decide_thaw
  decide_thaw-covers none end small margin enough = enough
  decide_thaw-covers (some reclaim) end small margin enough =
      let f = floor-target target reclaim.margin_bps small margin in
      let (low, _) = f in kept (floor_of target reclaim.margin_bps) low
    where
      kept :
          (floor : ℕ)
          → target ≤ floor
          → target
            ≤ effective (
                carried_out
                  (if ltb 0 account.thawing
                    then nothing
                    else let excess = account.balance - floor in
                      if ltb 0 excess && leb reclaim.min_withdraw excess
                      then thaw excess
                      else nothing)
                  end
                  account)
      kept floor low = ground arith

  decide_thaw-only :
      (reclaim : Option Reclaim)
      → (decide_thaw account target reclaim ≢ withdraw)
        × ((amount : ℕ) → decide_thaw account target reclaim ≢ deposit amount)
  unfolding decide_thaw
  decide_thaw-only none = ((λ h. cc h), (λ amount h. cc h))
  decide_thaw-only (some reclaim) = ((λ h. ground arith), (λ amount h. ground arith))

  module _ (reclaim : Option Reclaim) where
    -- A withdrawal is made exactly when a thaw has matured against the chain's clock, and a deposit
    -- exactly when otherwise the effective balance is short, by just what it is short of.
    pub decide-funding :
        ((decide account target reclaim ≡ withdraw) ↔ (has_matured account reclaim ≡ true))
        × ((amount : ℕ)
            → (decide account target reclaim ≡ deposit amount) ↔ (
                (has_matured account reclaim ≡ false)
                × (effective account < target)
                × (effective account + amount ≡ target)))
    unfolding decide
    decide-funding =
        let (no_withdraw, no_deposit) = decide_thaw-only reclaim in
        elim (Bool-cases (has_matured account reclaim)) [
          | inl m ↦ (
            ((λ h. m), (λ h. rw m)),
            (λ amount. ((λ h. absurd (cc (rw m at h))), (λ h. absurd (cc (m, h.0))))),
          )
          | inr m ↦ elim (Bool-cases (ltb 0 (target - effective account))) [
            | inl short ↦ (
              ((λ h. absurd (cc (rw (m, short) at h))), (λ h. absurd (cc (m, h)))),
              (λ amount. (
                (λ h.
                    let same : target - effective account ≡ amount = cc (rw (m, short) at h) in
                    let less = ltb→lt 0 (target - effective account) short in
                    (m, omega arith, omega arith)),
                (λ h.
                    let same : target - effective account ≡ amount = omega (arith, h.1) in
                    rw (m, short) (ap deposit same)),
              )),
            )
            | inr enough ↦ (
              ((λ h. absurd (no_withdraw (rw (m, enough) at h))), (λ h. absurd (cc (m, h)))),
              (λ amount. (
                (λ h. absurd (no_deposit amount (rw (m, enough) at h))),
                (λ h. absurd (ground (arith, h.1))),
              )),
            )
          ]
        ]

    -- For an account that thaws no more than it has: however the decision falls, once it is carried
    -- out the effective balance covers the target, except after a withdrawal, which leaves the
    -- effective balance as it was.
    pub decide-covers :
        (end : ℕ)
        → account.thawing ≤ account.balance
        → target < half_u128
        → HasMargin reclaim
        → (decide account target reclaim ≢ withdraw
            → target ≤ effective (carried_out (decide account target reclaim) end account))
          × (decide account target reclaim ≡ withdraw
              → effective (carried_out (decide account target reclaim) end account)
                ≡ effective account)
    unfolding decide
    decide-covers end part small margin =
        let covers = decide_thaw-covers reclaim end small margin in
        let (no_withdraw, _) = decide_thaw-only reclaim in
        elim (Bool-cases (has_matured account reclaim)) [
          | inl m ↦ rw m ((λ h. absurd (h refl)), (λ h. omega arith))
          | inr m ↦ elim (Bool-cases (ltb 0 (target - effective account))) [
            | inl short ↦ rw (m, short) ((λ h. ground arith), (λ h. absurd (cc h)))
            | inr enough ↦
                rw (m, enough) ((λ h. covers (ground arith)), (λ h. absurd (no_withdraw h)))
          ]
        ]

module _ (account : EscrowAccount) (target : ℕ) (reclaim : Option Reclaim) where
  -- Depositing and thawing do not take turns: once anything but a withdrawal is carried out, the
  -- next decision for the same target is not a deposit.
  pub decide-settles :
      (end : ℕ)
      → account.thawing ≤ account.balance
      → target < half_u128
      → HasMargin reclaim
      → decide account target reclaim ≢ withdraw
      → (later : Option Reclaim) (amount : ℕ)
      → decide (carried_out (decide account target reclaim) end account) target later
        ≢ deposit amount
  decide-settles end part small margin other later amount h =
      let covered = (decide-covers account target reclaim end part small margin).0 other in
      let next = carried_out (decide account target reclaim) end account in
      let (_, short, _) = ((decide-funding next target later).1 amount).0 h in
      absurd (omega (arith, covered, short))
