-- ===== src/EscrowManager/Receipts/Task.antt =====
-- The task that keeps the fee table (crates/bin/escrow_manager/src/kafka.rs: DB::spawn).
pub mod Kept
pub mod Shown
use graph_tally.Prelude.{ℕ, ◌+◌, List, [], ◌∷◌, Option, none, some, if◌then◌else◌, leb}
use graph_tally.Prelude.Maps.{Map}
use graph_tally.EscrowManager.Receipts.{second_ns, Update, Db, update, prune, snapshot}

-- The task's variables, and the last snapshot that it sent.
pub record Task : Type 0 where
  pub db : Db
  pub last_snapshot : ℕ
  pub sent : Option (Map ℕ)

abbrev pub spawn : ℕ → ℕ → Task
spawn window now = record {
  db = record { entries = []; window = window };
  last_snapshot = now;
  sent = none;
}

-- The buffer, drained in order.
unfoldable pub update_all : List Update → ℕ → Db → Db
unfolding update
update_all [] now db = db
update_all (u ∷ us) now db = update_all us now (update u now db)

-- One round of the loop: the updates that were received, and the clock after that.
unfoldable pub receive : List Update → ℕ → Task → Task
unfolding update_all prune snapshot
receive buffer now self =
    let db = update_all buffer now self.db in
    let pruned = prune now db in
    if leb (self.last_snapshot + second_ns) now
    then record { db = pruned; last_snapshot = now; sent = some (snapshot pruned) }
    else record { db = db; last_snapshot = self.last_snapshot; sent = self.sent }

-- Rounds one after another.
unfoldable pub receive_all : List (ℕ × List Update) → Task → Task
unfolding receive
receive_all [] self = self
receive_all ((now, buffer) ∷ rounds) self = receive_all rounds (receive buffer now self)
