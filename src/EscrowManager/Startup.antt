-- ===== src/EscrowManager/Startup.antt =====
-- The start of the escrow manager: the signers to authorize and the allowance
-- (crates/bin/escrow_manager/src/main.rs: main before its loop).
pub mod Allowance
use graph_tally.Prelude.{
  ℕ, Bool, true, false, List, [], ◌∷◌, Option, none, some, Result, ok, err, map_err, if◌then◌else◌,
  ltb, contains, map_or,
}
use graph_tally.Message.{Address, PrivateKeySigner}
use graph_tally.Core.Exec.{Exec, pure, reads, ◌>>=◌, ◌>>◌}
use graph_tally.EscrowManager.Contracts.{saturated}

-- The loop over the signers: which are authorized by a call. One that fails is logged, and the
-- next is tried.
unfoldable pub to_authorize :
    (PrivateKeySigner → Address)
    → Bool
    → List Address
    → List PrivateKeySigner
    → List PrivateKeySigner
to_authorize address dry_run authorized_signers [] = []
to_authorize address dry_run authorized_signers (signer ∷ signers) =
    let rest = to_authorize address dry_run authorized_signers signers in
    if contains authorized_signers (address signer)
    then rest
    else if dry_run
    then rest
    else signer ∷ rest

-- The token's contract over the chain's state `S`: the allowance of the escrow contract, a `U256`,
-- and an approval.
pub record Token (S E : Type 0) : Type 0 where
  pub allowance : S → Result ℕ E
  pub approve : ℕ → Exec S E (Unit {0})

module _ {S E : Type 0} (token : Token S E) where
  -- `Contracts::allowance`
  unfoldable pub read_allowance : S → Result ℕ E
  unfolding saturated
  read_allowance s = elim (token.allowance s) [ ok a ↦ ok (saturated a) | err e ↦ err e ]

  unfoldable pub approve_and_read : ℕ → Exec S E ℕ
  unfolding read_allowance
  approve_and_read expected_allowance = do token.approve expected_allowance; reads read_allowance

  -- The allowance is raised where it is less than expected, and read again.
  unfoldable pub ensure_allowance : Bool → ℕ → Exec S E ℕ
  unfolding approve_and_read
  ensure_allowance dry_run expected_allowance = do
    allowance ← reads read_allowance
    if ltb allowance expected_allowance
        then (if dry_run then pure allowance else approve_and_read expected_allowance)
        else pure allowance
