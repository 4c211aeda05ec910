-- ===== src/Aggregator/Startup/Pairs.antt =====
-- Pairs that are written read back, with the whitespace around them taken off
-- (crates/bin/aggregator/src/main.rs: pairs).
use graph_tally.Prelude.{
  ℕ, ◌≡◌, refl, ap, sym, ◌∙◌, true, false, not, ◌&&◌, List, [], ◌∷◌, ◌++◌, map, Option, none, some,
  ok, err, ◌>>=◌, if◌then◌else◌, retain, contains, All, arith, Bool-cases, inl, inr,
}
use mathlib.Core.List.{append_assoc, append-nil}
use graph_tally.Aggregator.Startup.{
  Chars, is_whitespace, is_blank, trim_start, trim_end, trim, split, split_once, malformed_entry,
  pair_of, pairs,
}

split-append :
    (c : ℕ) (xs ys : Chars) → contains xs c ≡ false → split c (xs ++ c ∷ ys) ≡ xs ∷ split c ys
unfolding split
split-append c [] ys h = ground arith
split-append c (x ∷ xs) ys h = ground (arith, split-append c xs ys)

split_once-append :
    (c : ℕ) (xs ys : Chars) → contains xs c ≡ false → split_once c (xs ++ c ∷ ys) ≡ some (xs, ys)
unfolding split_once
split_once-append c [] ys h = ground arith
split_once-append c (x ∷ xs) ys h = ground (arith, split_once-append c xs ys)

trim_start-append : (xs ys : Chars) → trim_start (xs ++ b'=' ∷ ys) ≡ trim_start xs ++ b'=' ∷ ys
unfolding trim_start
trim_start-append [] ys = refl
trim_start-append (x ∷ xs) ys = elim (Bool-cases (is_whitespace x)) [
  | inl h ↦ rw h (trim_start-append xs ys)
  | inr h ↦ rw h
]

is_blank-append : (xs ys : Chars) → is_blank (xs ++ b'=' ∷ ys) ≡ false
is_blank-append [] ys = refl
is_blank-append (x ∷ xs) ys = refl

trim_end_keeps :
    (c : ℕ) (rest : Chars)
    → is_blank rest ≡ false
    → (if is_blank rest && is_whitespace c then [] else c ∷ rest) ≡ c ∷ rest
trim_end_keeps c rest h = rw h

trim_end-append : (xs ys : Chars) → trim_end (xs ++ b'=' ∷ ys) ≡ xs ++ b'=' ∷ trim_end ys
unfolding trim_end
trim_end-append [] ys = elim (Bool-cases (is_blank (trim_end ys))) [ inl h ↦ rw h | inr h ↦ rw h ]
trim_end-append (x ∷ xs) ys =
    rw (trim_end-append xs ys)
      (trim_end_keeps x (xs ++ b'=' ∷ trim_end ys) (is_blank-append xs (trim_end ys)))

trim_start_idem : (xs : Chars) → trim_start (trim_start xs) ≡ trim_start xs
unfolding trim_start
trim_start_idem [] = refl
trim_start_idem (x ∷ xs) = elim (Bool-cases (is_whitespace x)) [
  | inl h ↦ rw h (trim_start_idem xs)
  | inr h ↦ rw (h, trim_start) (rw h)
]

trim_end_idem : (xs : Chars) → trim_end (trim_end xs) ≡ trim_end xs
unfolding trim_end
trim_end_idem [] = refl
trim_end_idem (x ∷ xs) = elim (Bool-cases (is_blank (trim_end xs) && is_whitespace x)) [
  | inl h ↦ rw h
  | inr h ↦ rw (h, trim_end) (rw (trim_end_idem xs, h))
]

blank : (xs : Chars) → is_blank xs ≡ true → xs ≡ []
blank [] h = refl
blank (x ∷ xs) h = absurd (cc h)

-- The two ends are trimmed in either order.
trim_comm : (xs : Chars) → trim_start (trim_end xs) ≡ trim_end (trim_start xs)
unfolding trim_start trim_end
trim_comm [] = refl
trim_comm (x ∷ xs) = elim (Bool-cases (is_whitespace x)) [
  | inl h ↦ elim (Bool-cases (is_blank (trim_end xs))) [
    | inl b ↦ rw (h, b) (sym (ap trim_start (blank (trim_end xs) b)) ∙ trim_comm xs)
    | inr b ↦ rw (h, b, trim_start) (rw h (trim_comm xs))
  ]
  | inr h ↦ elim (Bool-cases (is_blank (trim_end xs))) [
    | inl b ↦ rw (h, b, trim_start, trim_end) (rw h)
    | inr b ↦ rw (h, b, trim_start, trim_end) (rw h)
  ]
]

-- An entry `key=value` without a separator in its parts.
abbrev pub IsEntry : Chars × Chars → Type 0
IsEntry (key, value) =
    (contains key b';' ≡ false) × (contains key b'=' ≡ false) × (contains value b';' ≡ false)

abbrev pub trimmed : Chars × Chars → Chars × Chars
trimmed (key, value) = (trim key, trim value)

-- Entries with a semicolon after each.
pub write_pairs : List (Chars × Chars) → Chars
write_pairs [] = []
write_pairs ((key, value) ∷ entries) = (key ++ b'=' ∷ value) ++ b';' ∷ write_pairs entries

contains-append :
    (c : ℕ) (xs ys : Chars)
    → contains xs c ≡ false
    → contains ys c ≡ false
    → contains (xs ++ ys) c ≡ false
contains-append c [] ys h k = k
contains-append c (x ∷ xs) ys h k = ground (arith, contains-append c xs ys)

contains-trim_start :
    (c : ℕ) (xs : Chars) → contains xs c ≡ false → contains (trim_start xs) c ≡ false
unfolding trim_start
contains-trim_start c [] h = refl
contains-trim_start c (x ∷ xs) h = ground (arith, contains-trim_start c xs)

trim-entry :
    (key value : Chars) → trim (key ++ b'=' ∷ value) ≡ trim_start key ++ b'=' ∷ trim_end value
trim-entry key value =
    ap trim_end (trim_start-append key value) ∙ trim_end-append (trim_start key) value

trim-trim_start : (xs : Chars) → trim (trim_start xs) ≡ trim xs
trim-trim_start xs = ap trim_end (trim_start_idem xs)

trim-trim_end : (xs : Chars) → trim (trim_end xs) ≡ trim xs
trim-trim_end xs = ap trim_end (trim_comm xs) ∙ trim_end_idem (trim_start xs)

pair_of-entry :
    (key value : Chars)
    → contains key b'=' ≡ false
    → pair_of (trim (key ++ b'=' ∷ value)) ≡ ok (trimmed (key, value))
unfolding pair_of
pair_of-entry key value h = rw (
  trim-entry key value,
  split_once-append b'=' (trim_start key) (trim_end value) (contains-trim_start b'=' key h),
  trim-trim_start key,
  trim-trim_end value,
)

abbrev entries_in : Chars → List Chars
entries_in raw = retain (λ entry. not (is_blank entry)) (map trim (split b';' raw))

entries_in_entry :
    (key value rest : Chars)
    → IsEntry (key, value)
    → entries_in ((key ++ b'=' ∷ value) ++ b';' ∷ rest)
      ≡ trim (key ++ b'=' ∷ value) ∷ entries_in rest
entries_in_entry key value rest h = rw (
  split-append b';' (key ++ b'=' ∷ value) rest
      (contains-append b';' key (b'=' ∷ value) h.0 (ground (arith, h.2))),
  trim-entry key value,
  is_blank-append (trim_start key) (trim_end value),
)

pairs_entry :
    (key value rest : Chars)
    → IsEntry (key, value)
    → pairs ((key ++ b'=' ∷ value) ++ b';' ∷ rest)
      ≡ (pairs rest >>= λ out. ok (trimmed (key, value) ∷ out))
unfolding pairs
pairs_entry key value rest h = rw (entries_in_entry key value rest h, pair_of-entry key value h.1)

pairs_empty : pairs [] ≡ ok []
unfolding pairs
pairs_empty = refl

-- Entries that are written with a semicolon after each read back in order, with the whitespace
-- around the keys and the values taken off; a value may hold an equals sign.
pub pairs-write_pairs :
    (entries : List (Chars × Chars))
    → All IsEntry entries
    → pairs (write_pairs entries) ≡ ok (map trimmed entries)
unfolding write_pairs
pairs-write_pairs [] h = pairs_empty
pairs-write_pairs ((key, value) ∷ entries) h =
    rw (pairs_entry key value (write_pairs entries) h.0, pairs-write_pairs entries h.1)

split_once-none : (c : ℕ) (xs : Chars) → contains xs c ≡ false → split_once c xs ≡ none
unfolding split_once
split_once-none c [] h = refl
split_once-none c (x ∷ xs) h = ground (arith, split_once-none c xs)

contains-trim_end : (c : ℕ) (xs : Chars) → contains xs c ≡ false → contains (trim_end xs) c ≡ false
unfolding trim_end
contains-trim_end c [] h = refl
contains-trim_end c (x ∷ xs) h = ground (arith, contains-trim_end c xs)

contains-trim : (c : ℕ) (xs : Chars) → contains xs c ≡ false → contains (trim xs) c ≡ false
contains-trim c xs h = contains-trim_end c (trim_start xs) (contains-trim_start c xs h)

pair_of_malformed :
    (entry : Chars) → contains entry b'=' ≡ false → pair_of entry ≡ err (malformed_entry entry)
unfolding pair_of
pair_of_malformed entry h = rw (split_once-none b'=' entry h)

split_whole : (c : ℕ) (xs : Chars) → contains xs c ≡ false → split c xs ≡ xs ∷ []
unfolding split
split_whole c [] h = refl
split_whole c (x ∷ xs) h = ground (arith, split_whole c xs)

-- What stands behind an entry: nothing, or a semicolon with more text.
abbrev pub behind : Option Chars → Chars
behind none = []
behind (some rest) = b';' ∷ rest

pairs_malformed_entry :
    (entry : Chars) (rest : Option Chars)
    → contains entry b';' ≡ false
    → contains entry b'=' ≡ false
    → is_blank (trim entry) ≡ false
    → pairs (entry ++ behind rest) ≡ err (malformed_entry (trim entry))
unfolding pairs
pairs_malformed_entry entry (some rest) semicolon equals blank = rw (
  split-append b';' entry rest semicolon,
  blank,
  pair_of_malformed (trim entry) (contains-trim b'=' entry equals),
)
pairs_malformed_entry entry none semicolon equals blank = rw (
  append-nil entry,
  split_whole b';' entry semicolon,
  blank,
  pair_of_malformed (trim entry) (contains-trim b'=' entry equals),
)

-- Behind entries that are well formed, with a semicolon after each, an entry without an equals sign
-- that is not blank is reported, whether it is the last one, without a semicolon, or more text
-- follows it.
pub pairs-malformed :
    (entries : List (Chars × Chars)) (entry : Chars) (rest : Option Chars)
    → All IsEntry entries
    → contains entry b';' ≡ false
    → contains entry b'=' ≡ false
    → is_blank (trim entry) ≡ false
    → pairs (write_pairs entries ++ (entry ++ behind rest)) ≡ err (malformed_entry (trim entry))
unfolding write_pairs
pairs-malformed [] entry rest h semicolon equals blank =
    pairs_malformed_entry entry rest semicolon equals blank
pairs-malformed ((key, value) ∷ entries) entry rest h semicolon equals blank = rw (
  append_assoc (key ++ b'=' ∷ value) (b';' ∷ write_pairs entries) (entry ++ behind rest),
  pairs_entry key value (write_pairs entries ++ (entry ++ behind rest)) h.0,
  pairs-malformed entries entry rest h.1 semicolon equals blank,
)
