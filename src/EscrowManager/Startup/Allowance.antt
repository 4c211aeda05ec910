-- ===== src/EscrowManager/Startup/Allowance.antt =====
-- The allowance after the start (crates/bin/escrow_manager/src/main.rs and contracts.rs).
use graph_tally.Prelude.{
  ℕ, ◌≤◌, ◌<◌, ◌≡◌, false, ok, ltb, arith, Bool-cases, Result-cases, inl, inr,
}
use graph_tally.Prelude.Words.{u128_mod}
use graph_tally.EscrowManager.Contracts.{saturated}
use graph_tally.EscrowManager.Startup.{Token, read_allowance, approve_and_read, ensure_allowance}

-- What the token's contract does: after an approval of an amount, the allowance is that amount.
abbrev pub Approves : {S E : Type 0} → Token S E → Type 0
Approves {S} {E} token =
    (amount : ℕ) (s after : S)
    → token.approve amount s ≡ (ok tt, after)
    → token.allowance after ≡ ok amount

module _ {S E : Type 0} (token : Token S E) (approves : Approves token) where
  approve_and_read-ok :
      (expected allowance : ℕ) (s after : S)
      → expected < u128_mod
      → approve_and_read token expected s ≡ (ok allowance, after)
      → allowance ≡ expected
  unfolding approve_and_read read_allowance saturated
  approve_and_read-ok expected allowance s after fits h =
      elim (Result-cases (token.approve expected s).0) [
        | inl (_, e) ↦ ground (arith, e, h, fits, approves expected s (token.approve expected s).1)
        | inr (_, e) ↦ absurd (ground (arith, e, h))
      ]

  -- A start that succeeds and is no dry run leaves an allowance of at least what is expected, as it
  -- is then read; the chain is left alone when the allowance was enough, or unlimited.
  pub ensure_allowance-covers :
      (expected allowance : ℕ) (s after : S)
      → expected < u128_mod
      → ensure_allowance token false expected s ≡ (ok allowance, after)
      → (expected ≤ allowance)
        × ((before : ℕ) → token.allowance s ≡ ok before → expected ≤ before → after ≡ s)
  unfolding ensure_allowance read_allowance saturated
  ensure_allowance-covers expected allowance s after fits h =
      elim (Result-cases (token.allowance s)) [
        | inr (_, e) ↦ absurd (ground (arith, e, h))
        | inl (before, e) ↦ elim (Bool-cases (ltb (saturated before) expected)) [
          | inl low ↦
              let exact =
                approve_and_read-ok expected allowance s after fits (ground (arith, e, low, h)) in
              (
                omega (arith, exact),
                λ other k enough. absurd (ground (arith, e, low, k, enough, fits)),
              )
          | inr enough ↦ (ground (arith, e, enough, h), λ other k _. ground (arith, e, enough, h))
        ]
      ]
