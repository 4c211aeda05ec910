-- ===== src/EscrowManager/Ravs.antt =====
-- The vouchers' values by allocation (crates/bin/escrow_manager/src/kafka.rs: the module ravs).
pub mod Highest
pub mod Parse
use graph_tally.Prelude.{
  ℕ, Bool, true, false, List, [], ◌∷◌, Option, none, some, Result, ok, err, ok_or, ◌>>=◌,
  if◌then◌else◌, ltb, ◌==◌, contains, length,
}
use graph_tally.Prelude.Maps.{Map, lookup, insert}
use graph_tally.Message.{Address}

pub record Record : Type 0 where
  pub signer : Address
  pub allocation : Address
  pub value : ℕ

pub data ParseResult : Type 0 where
  v2 : Record → ParseResult
  v1 : ParseResult

pub data ParseError : Type 0 where
  missing_key missing_payload malformed_key : ParseError
  invalid_id_length : ℕ → ParseError
  unreadable : ParseError

-- The body of `send_if_modified`: the new map, and whether it is sent.
unfoldable pub keep_highest : Record → Map ℕ → Bool × Map ℕ
keep_highest record_ map = elim (lookup record_.allocation map) [
  | none ↦ (true, insert record_.allocation record_.value map)
  | some value ↦
      if ltb value record_.value
      then (true, insert record_.allocation record_.value map)
      else (false, map)
]

-- What one message does to the map: one that does not parse, is of the first version, or has
-- another signer, does nothing.
unfoldable pub process_record : List Address → Result ParseResult ParseError → Map ℕ → Map ℕ
unfolding keep_highest
process_record signers (err e) map = map
process_record signers (ok v1) map = map
process_record signers (ok (v2 record_)) map =
    if contains signers record_.signer then (keep_highest record_ map).1 else map

unfoldable pub process_records : List Address → List (Result ParseResult ParseError) → Map ℕ → Map ℕ
unfolding process_record
process_records signers [] map = map
process_records signers (message ∷ messages) map =
    process_records signers messages (process_record signers message map)
