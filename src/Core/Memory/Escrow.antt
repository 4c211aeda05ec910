-- ===== src/Core/Memory/Escrow.antt =====
-- The escrow of the in-memory context (crates/core/src/manager/context/memory.rs: escrow,
-- increase_escrow, reduce_escrow).
use graph_tally.Prelude.{
  ℕ, ◌+◌, ◌-◌, ◌%◌, ◌≤◌, ◌<◌, ◌≡◌, some, ok, if◌then◌else◌, ◌==◌, map_or, arith,
}
use graph_tally.Prelude.Words.{u128_mod}
use graph_tally.Prelude.Maps.{lookup, lookup-insert}
use graph_tally.Message.{Address}
use graph_tally.Core.Memory.{InMemoryContext, increase_escrow, reduce_escrow}

-- What an address has, zero when it was never given anything.
abbrev pub balance : Address → InMemoryContext → ℕ
balance sender s = map_or (lookup sender s.sender_escrow_storage) 0 (λ v. v)

module _ (sender : Address) (value : ℕ) (s : InMemoryContext) where
  -- An increase that fits in `u128` adds the value to the sender's escrow, and leaves the others'.
  pub increase_escrow-balance :
      balance sender s + value < u128_mod
      → (other : Address)
      → balance other (increase_escrow sender value s)
        ≡ (if sender == other then balance sender s + value else balance other s)
  unfolding increase_escrow
  increase_escrow-balance fits other = ground (
    arith,
    lookup-insert sender other ((balance sender s + value) % u128_mod) s.sender_escrow_storage,
  )

  -- A reduction by more than there is fails and changes nothing; any other one takes the value from
  -- the sender's escrow, when that was ever set up, and leaves the others'.
  pub reduce_escrow-balance :
      (balance sender s < value → (reduce_escrow sender value s).1 ≡ s)
      × ((old : ℕ)
          → lookup sender s.sender_escrow_storage ≡ some old
          → value ≤ old
          → ((reduce_escrow sender value s).0 ≡ ok tt)
            × ((other : Address)
                → balance other (reduce_escrow sender value s).1
                  ≡ (if sender == other then old - value else balance other s)))
  unfolding reduce_escrow
  reduce_escrow-balance = (
    (λ h. ground arith),
    (λ old there enough. (
      ground (arith, there),
      (λ other.
          ground (arith, there, lookup-insert sender other (old - value) s.sender_escrow_storage)),
    )),
  )
