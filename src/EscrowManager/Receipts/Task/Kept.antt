-- ===== src/EscrowManager/Receipts/Task/Kept.antt =====
-- What the fee table keeps of the updates that it was given
-- (crates/bin/escrow_manager/src/kafka.rs: DB::update).
use graph_tally.Prelude.{
  ℕ, ◌+◌, ◌-◌, ◌%◌, ◌≤◌, ◌≡◌, refl, sym, Bool, true, false, ◌&&◌, List, [], ◌∷◌, ◌++◌,
  if◌then◌else◌, ltb, ◌==◌, retain, map_or, sum_of, arith, ==_iff, Bool-cases, inl, inr,
}
use graph_tally.Prelude.Words.{add_u128, u128_mod}
use graph_tally.Prelude.Maps.{Map, lookup, insert, lookup-insert, sum_values}
use graph_tally.Message.{Address}
use graph_tally.EscrowManager.Receipts.{Update, Db, entries_of, hourly_timestamp, update}
use graph_tally.EscrowManager.Receipts.Window.{ignored}

-- The hours of an indexer after a cutoff, and the fees of its updates after it.
abbrev pub kept : ℕ → Address → Db → ℕ
kept cut a db = sum_values (retain (λ (h : ℕ × ℕ). ltb cut h.0) (entries_of a db.entries))

abbrev pub fees_after : ℕ → Address → List Update → ℕ
fees_after cut a updates =
    sum_of (λ u. u.fee)
      (retain (λ u. u.indexer == a && ltb cut (hourly_timestamp u.timestamp)) updates)

pub fees_after-append :
    (cut : ℕ) (a : Address) (xs ys : List Update)
    → fees_after cut a (xs ++ ys) ≡ fees_after cut a xs + fees_after cut a ys
fees_after-append cut a [] ys = omega arith
fees_after-append cut a (x ∷ xs) ys = ground (arith, fees_after-append cut a xs ys)

-- The start of the window, in whole hours.
abbrev pub window_start : ℕ → Db → ℕ
window_start now db = hourly_timestamp (now - db.window)

-- At a time, the table has the fees of all hours after the start of the window.
abbrev pub IsKept : ℕ → List Update → Db → Type 0
IsKept now history db =
    (a : Address) (cut : ℕ)
    → window_start now db ≤ cut
    → kept cut a db % u128_mod ≡ fees_after cut a history % u128_mod

pub hourly-le : (s t : ℕ) → s ≤ t → hourly_timestamp s ≤ hourly_timestamp t
unfolding hourly_timestamp
hourly-le s t h = omega arith

-- An insertion changes the hours after the cutoff only where its hour is one.
kept-insert :
    (cut hour v : ℕ) (m : Map ℕ)
    → sum_values (retain (λ (h : ℕ × ℕ). ltb cut h.0) (insert hour v m))
        + (if ltb cut hour then map_or (lookup hour m) 0 (λ w. w) else 0)
      ≡ sum_values (retain (λ (h : ℕ × ℕ). ltb cut h.0) m) + (if ltb cut hour then v else 0)
kept-insert cut hour v [] = ground arith
kept-insert cut hour v ((j, w) ∷ m) = ground (arith, kept-insert cut hour v m)

lookup-kept :
    (cut hour : ℕ) (m : Map ℕ)
    → ltb cut hour ≡ true
    → map_or (lookup hour m) 0 (λ w. w) ≤ sum_values (retain (λ (h : ℕ × ℕ). ltb cut h.0) m)
lookup-kept cut hour [] h = omega arith
lookup-kept cut hour ((j, w) ∷ m) h = ground (arith, lookup-kept cut hour m h)

add_kept :
    (cut hour fee : ℕ) (m : Map ℕ)
    → sum_values (
          retain
            (λ (h : ℕ × ℕ). ltb cut h.0)
            (insert hour (add_u128 (map_or (lookup hour m) 0 (λ w. w)) fee) m))
        % u128_mod
      ≡ (sum_values (retain (λ (h : ℕ × ℕ). ltb cut h.0) m) + (if ltb cut hour then fee else 0))
        % u128_mod
add_kept cut hour fee m =
    let old = map_or (lookup hour m) 0 (λ w. w) in
    sum_mod (ltb cut hour) old fee
      (sum_values (retain (λ (h : ℕ × ℕ). ltb cut h.0) (insert hour (add_u128 old fee) m)))
      (sum_values (retain (λ (h : ℕ × ℕ). ltb cut h.0) m))
      (kept-insert cut hour (add_u128 old fee) m) (lookup-kept cut hour m)
  where
    sum_mod :
        (b : Bool) (old fee x z : ℕ)
        → x + (if b then old else 0) ≡ z + (if b then add_u128 old fee else 0)
        → (b ≡ true → old ≤ z)
        → x % u128_mod ≡ (z + (if b then fee else 0)) % u128_mod
    sum_mod true old fee x z e le = let l = le refl in omega (arith, e, l)
    sum_mod false old fee x z e le = omega (arith, e)

pub update-window : (u : Update) (now : ℕ) (db : Db) → (update u now db).window ≡ db.window
unfolding update
update-window u now db = ground arith

-- What an update counts for.
abbrev part : ℕ → Address → Update → ℕ
part cut a u = if u.indexer == a && ltb cut (hourly_timestamp u.timestamp) then u.fee else 0

kept-update :
    (u : Update) (now : ℕ) (db : Db) (a : Address) (cut : ℕ)
    → ltb u.timestamp (now - db.window) ≡ false
    → kept cut a (update u now db) % u128_mod ≡ (kept cut a db + part cut a u) % u128_mod
unfolding update
kept-update u now db a cut fresh =
    let hours = entries_of u.indexer db.entries in
    let hour = hourly_timestamp u.timestamp in
    let v = add_u128 (map_or (lookup hour hours) 0 (λ w. w)) u.fee in
    elim (Bool-cases (u.indexer == a)) [
      | inl h ↦
          let same = (==_iff u.indexer a).0 h in
          rw (fresh, lookup-insert u.indexer a (insert hour v hours) db.entries, h)
            (rw (sym same) (add_kept cut hour u.fee hours))
      | inr h ↦
          rw (fresh, lookup-insert u.indexer a (insert hour v hours) db.entries, h) (omega arith)
    ]

fees-snoc :
    (cut : ℕ) (a : Address) (history : List Update) (u : Update)
    → fees_after cut a (history ++ u ∷ []) ≡ fees_after cut a history + part cut a u
fees-snoc cut a history u = ground (arith, fees_after-append cut a history (u ∷ []))

stale-part :
    (u : Update) (start : ℕ) (a : Address) (cut : ℕ)
    → ltb u.timestamp start ≡ true
    → hourly_timestamp start ≤ cut
    → part cut a u ≡ 0
stale-part u start a cut old h =
    let late = hourly-le u.timestamp start (ground (arith, old)) in ground (arith, late, h)

pub update-IsKept :
    (u : Update) (now : ℕ) (history : List Update) (db : Db)
    → IsKept now history db
    → IsKept now (history ++ u ∷ []) (update u now db)
update-IsKept u now history db k a cut h = elim (Bool-cases (ltb u.timestamp (now - db.window))) [
  | inl old ↦
      let same = k a cut (rw (sym (update-window u now db)) h) in
      let nothing =
        stale-part u (now - db.window) a cut old (rw (sym (update-window u now db)) h) in
      rw (ignored u now db old, fees-snoc cut a history u, nothing) (omega (arith, same))
  | inr fresh ↦
      let same = k a cut (rw (sym (update-window u now db)) h) in
      rw (kept-update u now db a cut fresh, fees-snoc cut a history u) (omega (arith, same))
]
