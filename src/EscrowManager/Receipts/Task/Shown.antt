-- ===== src/EscrowManager/Receipts/Task/Shown.antt =====
-- What a snapshot shows of all the updates that were ever received
-- (crates/bin/escrow_manager/src/kafka.rs: DB::spawn).
use graph_tally.Prelude.{
  ℕ, ◌+◌, ◌-◌, ◌%◌, ◌≤◌, ◌≡◌, refl, ◌∙◌, sym, ap, true, List, [], ◌∷◌, ◌++◌, some, ltb, leb, retain,
  map, arith, Bool-cases, inl, inr,
}
use mathlib.Core.List.{append_assoc, append-nil}
use graph_tally.Prelude.Words.{u128_mod}
use graph_tally.Prelude.Maps.{
  Map, HasUniqueKeys, insert-HasUniqueKeys, retain-HasUniqueKeys, sum_values, lookup-map,
}
use graph_tally.Message.{Address}
use graph_tally.EscrowManager.Receipts.{
  second_ns, Update, Db, entries_of, hourly_timestamp, update, prune, snapshot, is_nonempty,
}
use graph_tally.EscrowManager.Receipts.Window.{shown, shown-owed, prune-hours}
use graph_tally.EscrowManager.Receipts.Task.{Task, spawn, update_all, receive, receive_all}
use graph_tally.EscrowManager.Receipts.Task.Kept.{
  kept, fees_after, window_start, IsKept, hourly-le, update-window, update-IsKept,
}

-- The table is right at a time, and has each indexer once.
abbrev IsGood : ℕ → ℕ → List Update → Db → Type 0
IsGood window now history db =
    (db.window ≡ window) × IsKept now history db × HasUniqueKeys db.entries

update-HasUniqueKeys :
    (u : Update) (now : ℕ) (db : Db)
    → HasUniqueKeys db.entries
    → HasUniqueKeys (update u now db).entries
unfolding update
update-HasUniqueKeys u now db unique = elim (Bool-cases (ltb u.timestamp (now - db.window))) [
  | inl old ↦ rw old unique
  | inr fresh ↦ rw fresh (insert-HasUniqueKeys u.indexer _ db.entries unique)
]

update_all-IsGood :
    (us : List Update) (window now : ℕ) (history : List Update) (db : Db)
    → IsGood window now history db
    → IsGood window now (history ++ us) (update_all us now db)
unfolding update_all
update_all-IsGood [] window now history db good = rw (append-nil history) good
update_all-IsGood (u ∷ us) window now history db good =
    rw (sym (append_assoc history (u ∷ []) us)) (
      update_all-IsGood us window now (history ++ u ∷ []) (update u now db) (
        update-window u now db ∙ good.0,
        update-IsKept u now history db good.1,
        update-HasUniqueKeys u now db good.2,
      ))

retain-later :
    (low cut : ℕ) (m : Map ℕ)
    → low ≤ cut
    → retain (λ (h : ℕ × ℕ). ltb cut h.0) (retain (λ (h : ℕ × ℕ). ltb low h.0) m)
      ≡ retain (λ (h : ℕ × ℕ). ltb cut h.0) m
retain-later low cut [] le = refl
retain-later low cut ((j, w) ∷ m) le = ground (arith, retain-later low cut m le, le)

map-HasUniqueKeys :
    (f : Map ℕ → Map ℕ) (m : Map (Map ℕ))
    → HasUniqueKeys m
    → HasUniqueKeys (map (λ (e : ℕ × Map ℕ). (e.0, f e.1)) m)
map-HasUniqueKeys f [] unique = tt
map-HasUniqueKeys f ((j, hours) ∷ m) unique =
    (rw (lookup-map f j m, unique.0) refl, map-HasUniqueKeys f m unique.1)

prune-window : (now : ℕ) (db : Db) → (prune now db).window ≡ db.window
unfolding prune
prune-window now db = refl

prune-HasUniqueKeys :
    (now : ℕ) (db : Db) → HasUniqueKeys db.entries → HasUniqueKeys (prune now db).entries
unfolding prune
prune-HasUniqueKeys now db unique =
    retain-HasUniqueKeys (λ e. is_nonempty e.1) _
      (map-HasUniqueKeys (retain (λ h. ltb (window_start now db) h.0)) db.entries unique)

kept-prune :
    (now cut : ℕ) (a : Address) (db : Db)
    → HasUniqueKeys db.entries
    → window_start now db ≤ cut
    → kept cut a (prune now db) ≡ kept cut a db
kept-prune now cut a db unique le =
    rw (prune-hours now db a unique)
      (ap sum_values (retain-later (window_start now db) cut (entries_of a db.entries) le))

prune-IsGood :
    (window now : ℕ) (history : List Update) (db : Db)
    → IsGood window now history db
    → IsGood window now history (prune now db)
prune-IsGood window now history db good = (
  prune-window now db ∙ good.0,
  (λ a cut le.
      let le' : window_start now db ≤ cut = rw (sym (prune-window now db)) le in
      rw (kept-prune now cut a db good.2 le') (good.1 a cut le')),
  prune-HasUniqueKeys now db good.2,
)

-- A pruned table shows what is kept after the start of the window.
shown-prune :
    (now : ℕ) (a : Address) (db : Db)
    → HasUniqueKeys db.entries
    → shown a (prune now db) ≡ kept (window_start now db) a db % u128_mod
shown-prune now a db unique =
    shown-owed a (prune now db) ∙ ap (λ m. sum_values m % u128_mod) (prune-hours now db a unique)

-- All the updates of some rounds, and rounds whose clock does not go back.
abbrev pub received : List (ℕ × List Update) → List Update
received [] = []
received ((_, buffer) ∷ rounds) = buffer ++ received rounds

abbrev pub IsOrdered : ℕ → List (ℕ × List Update) → Type 0
IsOrdered start [] = Unit
IsOrdered start ((now, _) ∷ rounds) = (start ≤ now) × IsOrdered now rounds

later-IsGood :
    (window start now : ℕ) (history : List Update) (db : Db)
    → start ≤ now
    → IsGood window start history db
    → IsGood window now history db
later-IsGood window start now history db le good = (
  good.0,
  (λ a cut h.
      let earlier = hourly-le (start - db.window) (now - db.window) (omega (arith, le)) in
      good.1 a cut (omega (arith, earlier, h))),
  good.2,
)

receive-IsGood :
    (buffer : List Update) (window start now : ℕ) (history : List Update) (self : Task)
    → start ≤ now
    → IsGood window start history self.db
    → IsGood window now (history ++ buffer) (receive buffer now self).db
unfolding receive
receive-IsGood buffer window start now history self le good =
    let updated =
      update_all-IsGood buffer window now history self.db
        (later-IsGood window start now history self.db le good) in
    elim (Bool-cases (leb (self.last_snapshot + second_ns) now)) [
      | inl h ↦
          rw h (prune-IsGood window now (history ++ buffer) (update_all buffer now self.db) updated)
      | inr h ↦ rw h updated
    ]

-- The updates of the earlier rounds, then the last one.
last_round :
    (rounds : List (ℕ × List Update)) (window start now : ℕ) (buffer history : List Update)
    (self : Task) (a : Address)
    → IsOrdered start (rounds ++ (now, buffer) ∷ [])
    → IsGood window start history self.db
    → leb ((receive_all rounds self).last_snapshot + second_ns) now ≡ true
    → ((receive buffer now (receive_all rounds self)).sent
        ≡ some (snapshot (receive buffer now (receive_all rounds self)).db))
      × (shown a (receive buffer now (receive_all rounds self)).db
          ≡ fees_after (hourly_timestamp (now - window)) a (history ++ (received rounds ++ buffer))
            % u128_mod)
unfolding receive_all receive
last_round [] window start now buffer history self a order good due =
    let updated =
      update_all-IsGood buffer window now history self.db
        (later-IsGood window start now history self.db order.0 good) in
    rw due (
      refl,
      shown-prune now a (update_all buffer now self.db) updated.2
          ∙ rw updated.0
              (updated.1 a (hourly_timestamp (now - window)) (rw updated.0 (omega arith))),
    )
last_round ((at, first) ∷ rounds) window start now buffer history self a order good due =
    rw
      (
        append_assoc first (received rounds) buffer,
        sym (append_assoc history first (received rounds ++ buffer)),
      )
      (last_round rounds window at now buffer (history ++ first) (receive first at self) a order.1
        (receive-IsGood first window start at history self order.0 good) due)

-- When the task sends a snapshot, a second or more after the one before, it shows for each indexer
-- the sum in `u128` of all the fees ever received for it whose hour is later than the one in which
-- the window starts, whatever the rounds in which they came, as long as the clock does not go back.
pub receive_all-shown :
    (rounds : List (ℕ × List Update)) (window start now : ℕ) (buffer : List Update) (a : Address)
    → IsOrdered start (rounds ++ (now, buffer) ∷ [])
    → leb ((receive_all rounds (spawn window start)).last_snapshot + second_ns) now ≡ true
    → ((receive buffer now (receive_all rounds (spawn window start))).sent
        ≡ some (snapshot (receive buffer now (receive_all rounds (spawn window start))).db))
      × (shown a (receive buffer now (receive_all rounds (spawn window start))).db
          ≡ fees_after (hourly_timestamp (now - window)) a (received rounds ++ buffer) % u128_mod)
receive_all-shown rounds window start now buffer a order due =
    last_round rounds window start now buffer [] (spawn window start) a order
      (refl, (λ b cut h. refl), tt) due
