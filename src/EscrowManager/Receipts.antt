-- ===== src/EscrowManager/Receipts.antt =====
-- The receivers' debts from their receipts (crates/bin/escrow_manager/src/kafka.rs: the module
-- receipts).
pub mod Aggregated
pub mod Messages
pub mod Task
pub mod Window
use graph_tally.Prelude.{
  ℕ, ◌+◌, ◌-◌, ◌*◌, ◌/◌, ◌%◌, Bool, true, false, not, ◌&&◌, List, [], ◌∷◌, map, Option, none, some,
  if◌then◌else◌, ltb, leb, retain, map_or, contains, sum_of,
}
use graph_tally.Prelude.Words.{add_u128, u128_mod}
use graph_tally.Prelude.Maps.{Map, lookup, insert}
use graph_tally.Message.{Address}

-- Times are in nanoseconds since the epoch: all of them lie after it, and the window before now
-- does too.
abbrev pub second_ns : ℕ
second_ns = 1000000000

unfoldable pub hourly_timestamp : ℕ → ℕ
hourly_timestamp t = let seconds = t / second_ns in seconds - seconds % 3600

pub record Update : Type 0 where
  pub timestamp : ℕ
  pub indexer : Address
  pub fee : ℕ

-- Fees by indexer and by hour (the field `data` of the source).
pub record Db : Type 0 where
  pub entries : Map (Map ℕ)
  pub window : ℕ

abbrev pub entries_of : Address → Map (Map ℕ) → Map ℕ
entries_of indexer all = map_or (lookup indexer all) [] (λ m. m)

unfoldable pub update : Update → ℕ → Db → Db
unfolding hourly_timestamp
update u now self =
    if ltb u.timestamp (now - self.window)
    then self
    else let hours = entries_of u.indexer self.entries in
      let hour = hourly_timestamp u.timestamp in
      record self {
        entries =
            insert u.indexer
              (insert hour (add_u128 (map_or (lookup hour hours) 0 (λ v. v)) u.fee) hours)
              self.entries;
      }

abbrev pub is_nonempty : {A : Type 0} → List A → Bool
is_nonempty [] = false
is_nonempty (_ ∷ _) = true

unfoldable pub prune : ℕ → Db → Db
unfolding hourly_timestamp
prune now self =
    let min_timestamp = hourly_timestamp (now - self.window) in
    record self {
      entries =
          retain (λ e. is_nonempty e.1)
            (map (λ (e : ℕ × Map ℕ). (e.0, retain (λ h. ltb min_timestamp h.0) e.1)) self.entries);
    }

unfoldable pub snapshot : Db → Map ℕ
snapshot self = map (λ (e : ℕ × Map ℕ). (e.0, sum_of (λ h. h.1) e.1 % u128_mod)) self.entries
