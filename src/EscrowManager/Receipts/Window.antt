-- ===== src/EscrowManager/Receipts/Window.antt =====
-- The debts that the receipts' snapshot shows (crates/bin/escrow_manager/src/kafka.rs: DB).
use graph_tally.Prelude.{
  ℕ, ◌+◌, ◌-◌, ◌%◌, ◌<◌, ◌≡◌, refl, ◌∙◌, sym, ap, Bool, true, false, [], ◌∷◌, map, if◌then◌else◌,
  ltb, ◌==◌, retain, map_or, arith, ==_iff, Bool-cases, Option-cases, inl, inr,
}
use graph_tally.Prelude.Words.{add_u128, u128_mod}
use graph_tally.Prelude.Maps.{
  Map, lookup, insert, lookup-insert, lookup-map, lookup-retain-none, HasUniqueKeys, sum_values,
  sum_values-insert, lookup-sum_values,
}
use graph_tally.Message.{Address}
use graph_tally.EscrowManager.Receipts.{
  Update, Db, entries_of, hourly_timestamp, is_nonempty, update, prune, snapshot,
}

-- What an indexer is owed, by the hours and by the snapshot.
abbrev pub owed : Address → Db → ℕ
owed a db = sum_values (entries_of a db.entries)

abbrev pub shown : Address → Db → ℕ
shown a db = map_or (lookup a (snapshot db)) 0 (λ v. v)

pub shown-owed : (a : Address) (db : Db) → shown a db ≡ owed a db % u128_mod
unfolding snapshot
shown-owed a db =
    rw (lookup-map (λ hours. sum_values hours % u128_mod) a db.entries)
      (elim (Option-cases (lookup a db.entries)) [
        | inl h ↦ rw h (omega arith)
        | inr (hours, h) ↦ rw h
      ])

add_hour :
    (hour fee : ℕ) (hours : Map ℕ)
    → sum_values hours + fee < u128_mod
    → sum_values (insert hour (add_u128 (map_or (lookup hour hours) 0 (λ v. v)) fee) hours)
      ≡ sum_values hours + fee
add_hour hour fee hours fits =
    let old = map_or (lookup hour hours) 0 (λ v. v) in
    let new = sum_values-insert hour (add_u128 old fee) hours in
    let part = lookup-sum_values hour hours in omega (arith, new, part)

owed-insert :
    (a b : Address) (hours : Map ℕ) (m : Map (Map ℕ))
    → sum_values (entries_of a (insert b hours m))
      ≡ (if b == a then sum_values hours else sum_values (entries_of a m))
owed-insert a b hours m = ground (arith, lookup-insert b a hours m)

owed-update :
    (u : Update) (now : ℕ) (db : Db) (a : Address)
    → ltb u.timestamp (now - db.window) ≡ false
    → owed u.indexer db + u.fee < u128_mod
    → owed a (update u now db) ≡ owed a db + (if u.indexer == a then u.fee else 0)
unfolding update
owed-update u now db a fresh fits =
    let hours = entries_of u.indexer db.entries in
    let hour = hourly_timestamp u.timestamp in
    let added = add_hour hour u.fee hours fits in
    let step =
      owed-insert a u.indexer
        (insert hour (add_u128 (map_or (lookup hour hours) 0 (λ v. v)) u.fee) hours) db.entries in
    rw (fresh, step, added) (by_owner a)
  where
    by_owner :
        (b : Address)
        → (if u.indexer == b then owed u.indexer db + u.fee else owed b db)
          ≡ owed b db + (if u.indexer == b then u.fee else 0)
    by_owner b = elim (Bool-cases (u.indexer == b)) [
      | inl h ↦ let same = (==_iff u.indexer b).0 h in rw (h, same)
      | inr h ↦ rw h (omega arith)
    ]

pub ignored :
    (u : Update) (now : ℕ) (db : Db)
    → ltb u.timestamp (now - db.window) ≡ true
    → update u now db ≡ db
unfolding update
ignored u now db h = rw h

fits_mod :
    (n fee : ℕ) (mine : Bool)
    → n + fee < u128_mod
    → (n + (if mine then fee else 0)) % u128_mod ≡ n % u128_mod + (if mine then fee else 0)
fits_mod n fee true h = omega arith
fits_mod n fee false h = omega arith

-- A fee of the last days adds to what the snapshot shows for its indexer, and to nobody else's; an
-- older one changes nothing.
pub update-shown :
    (u : Update) (now : ℕ) (db : Db) (a : Address)
    → owed u.indexer db + u.fee < u128_mod
    → owed a db + u.fee < u128_mod
    → shown a (update u now db) ≡ (
        if ltb u.timestamp (now - db.window)
        then shown a db
        else shown a db + (if u.indexer == a then u.fee else 0))
update-shown u now db a fits fits_a = elim (Bool-cases (ltb u.timestamp (now - db.window))) [
  | inl old ↦ rw old (ap (shown a) (ignored u now db old))
  | inr fresh ↦ rw fresh (
      shown-owed a (update u now db)
      ∙ ap (λ n. n % u128_mod) (owed-update u now db a fresh fits)
      ∙ fits_mod (owed a db) u.fee (u.indexer == a) fits_a
      ∙ ap (λ n. n + (if u.indexer == a then u.fee else 0)) (sym (shown-owed a db)))
]

prune_entries :
    (p : ℕ × ℕ → Bool) (a : Address) (m : Map (Map ℕ))
    → HasUniqueKeys m
    → entries_of a (retain (λ e. is_nonempty e.1) (map (λ (e : ℕ × Map ℕ). (e.0, retain p e.1)) m))
      ≡ retain p (entries_of a m)
prune_entries p a [] u = refl
prune_entries p a ((j, hours) ∷ m) u =
    let kept : Map (Map ℕ) = map (λ (e : ℕ × Map ℕ). (e.0, retain p e.1)) m in
    ground (
      arith,
      prune_entries p a m u.1,
      lookup-map (λ (h : Map ℕ). retain p h) a m,
      lookup-retain-none (λ e. is_nonempty e.1) a kept,
    )

-- Pruning drops the hours that start at or before the hour in which the window starts, with the
-- indexers that have none left, and keeps every later hour as it was.
pub prune-hours :
    (now : ℕ) (db : Db) (a : Address)
    → HasUniqueKeys db.entries
    → entries_of a (prune now db).entries
      ≡ retain (λ h. ltb (hourly_timestamp (now - db.window)) h.0) (entries_of a db.entries)
unfolding prune
prune-hours now db a unique =
    prune_entries (λ h. ltb (hourly_timestamp (now - db.window)) h.0) a db.entries unique
