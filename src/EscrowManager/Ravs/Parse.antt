-- ===== src/EscrowManager/Ravs/Parse.antt =====
-- The vouchers' messages from Kafka (crates/bin/escrow_manager/src/kafka.rs: the module ravs,
-- parse_record and process_messages).
pub mod Produced
use graph_tally.Prelude.{
  ℕ, ◌≡◌, ◌%◌, ◌^◌, ◌<◌, Bool, true, false, not, ◌&&◌, List, [], ◌∷◌, Option, none, some, Result,
  ok, err, ok_or, ◌>>=◌, ◌>>◌, guard, if◌then◌else◌, ltb, leb, ◌==◌, length, map_or, get_elem?,
  drop, contains,
}
use graph_tally.Prelude.Maps.{Map}
use graph_tally.Prelude.Decimal.{parse_unsigned}
use graph_tally.Prelude.Words.{u128_mod}
use graph_tally.Message.{Address, FixedBytes}
use graph_tally.EscrowManager.Ravs.{
  Record, ParseResult, v1, v2, ParseError, missing_key, missing_payload, malformed_key,
  invalid_id_length, unreadable, process_record,
}

-- The UTF-8 bytes of a text.
abbrev pub Text : Type 0
Text = List ℕ

-- The alloy crate's texts: `{:?}` of an address and of a word, and the parser of addresses.
pub record Texts : Type 0 where
  pub print_address : Address → Text
  pub print_word : FixedBytes → Text
  pub parse_address : Text → Option Address

-- The last 20 bytes of a word.
abbrev pub low_address : FixedBytes → Address
low_address word = word % 2 ^ 160

-- What the code relies on: an address is printed without a colon and reads back; a word is printed
-- as 66 hexadecimal characters, of which the last 40 read as its last 20 bytes.
pub record ReadsTexts (texts : Texts) : Type 0 where
  pub address_back : (a : Address) → texts.parse_address (texts.print_address a) ≡ some a
  pub address_plain : (a : Address) → contains (texts.print_address a) b':' ≡ false
  pub word_length : (w : FixedBytes) → length (texts.print_word w) ≡ 66
  pub word_ascii :
      (w : FixedBytes) → map_or (get_elem? (texts.print_word w) 26) false (λ b. ltb b 128) ≡ true
  pub word_back :
      (w : FixedBytes) → texts.parse_address (drop 26 (texts.print_word w)) ≡ some (low_address w)

-- A message's key and payload, as `from_utf8_lossy` gives them.
pub record KafkaMessage : Type 0 where
  pub key : Option Text
  pub payload : Option Text

-- `split_once`
abbrev pub split_once : ℕ → Text → Option (Text × Text)
split_once c [] = none
split_once c (b ∷ bs) =
    let rest = split_once c bs in
    if b == c then some ([], bs) else map_or rest none (λ p. some (b ∷ p.0, p.1))

-- A slice may start at a byte that begins a character, or at the end.
abbrev pub is_char_boundary : ℕ → Text → Bool
is_char_boundary n text =
    map_or (get_elem? text n) (length text == n) (λ b. not (leb 128 b && ltb b 192))

-- The three reads of a record of the second version, with the allocation's text.
unfoldable pub read_record : Texts → Text → Text → Text → Result ParseResult ParseError
read_record texts signer_text allocation_text payload = do
  signer ← ok_or (texts.parse_address signer_text) unreadable
  allocation ← ok_or (texts.parse_address allocation_text) unreadable
  value ← ok_or (parse_unsigned u128_mod payload) unreadable
  ok (v2 (record { signer = signer; allocation = allocation; value = value }))

-- What follows the split of the key; `none` is a slice inside a character, which panics.
unfoldable pub parse_parts : Texts → Text → Text → Text → Option (Result ParseResult ParseError)
unfolding read_record
parse_parts texts signer id payload =
    if length id == 42
    then some (ok v1)
    else if length id == 66
    then (if is_char_boundary 26 id
        then some (read_record texts signer (drop 26 id) payload)
        else none)
    else some (err (invalid_id_length (length id)))

unfoldable pub parse_record : Texts → KafkaMessage → Option (Result ParseResult ParseError)
unfolding parse_parts
parse_record texts msg = elim msg.key [
  | none ↦ some (err missing_key)
  | some key ↦ elim msg.payload [
    | none ↦ some (err missing_payload)
    | some payload ↦ elim (split_once b':' key) [
      | none ↦ some (err malformed_key)
      | some (signer, id) ↦ parse_parts texts signer id payload
    ]
  ]
]

-- The messages one after another; an error of the consumer, which skips to the next message, is
-- left out, and a panic ends the task.
unfoldable pub process_messages : Texts → List Address → List KafkaMessage → Map ℕ → Map ℕ
unfolding process_record parse_record
process_messages texts signers [] map = map
process_messages texts signers (msg ∷ msgs) map = elim (parse_record texts msg) [
  | none ↦ map
  | some outcome ↦ process_messages texts signers msgs (process_record signers outcome map)
]
