-- ===== src/EscrowManager/Ravs/Parse/Produced.antt =====
-- The server's records, as the escrow manager reads them
-- (crates/bin/aggregator/src/server.rs and crates/bin/escrow_manager/src/kafka.rs).
use graph_tally.Prelude.{
  ℕ, ◌≡◌, ◌<◌, refl, ap, ◌∙◌, true, false, not, ◌&&◌, List, [], ◌∷◌, ◌++◌, map, Option, some,
  Result, ok, if◌then◌else◌, ltb, leb, ◌==◌, get_elem?, drop, contains, All, arith, Option-cases,
  inl, inr,
}
use graph_tally.Prelude.Words.{u128_mod}
use graph_tally.Prelude.Maps.{Map, lookup}
use graph_tally.Prelude.Decimal.{to_decimal, parse_unsigned-to_decimal}
use graph_tally.Message.{Address, FixedBytes}
use graph_tally.EscrowManager.Ravs.{
  Record, ParseResult, ParseError, v2, process_record, process_records,
}
use graph_tally.EscrowManager.Ravs.Highest.{higher, highest, process_records-highest}
use graph_tally.EscrowManager.Ravs.Parse.{
  Text, Texts, ReadsTexts, low_address, split_once, is_char_boundary, read_record, parse_parts,
  parse_record, process_messages,
}
use graph_tally.Aggregator.Kafka.{kafka_record}

split_once-append :
    (c : ℕ) (xs ys : Text) → contains xs c ≡ false → split_once c (xs ++ c ∷ ys) ≡ some (xs, ys)
split_once-append c [] ys h = ground arith
split_once-append c (x ∷ xs) ys h = ground (arith, split_once-append c xs ys)

-- A record as the escrow manager sees it.
abbrev pub seen : Address × FixedBytes × ℕ → Record
seen (payer, collection, value) = record {
  signer = payer;
  allocation = low_address collection;
  value = value;
}

module _ (texts : Texts) (reads : ReadsTexts texts) where
  boundary : (w : FixedBytes) → is_char_boundary 26 (texts.print_word w) ≡ true
  boundary w = elim (Option-cases (get_elem? (texts.print_word w) 26)) [
    | inl h ↦ absurd (cc (rw h at (ReadsTexts.word_ascii reads w)))
    | inr (b, h) ↦ rw h (at_byte b (rw h at (ReadsTexts.word_ascii reads w)))
  ]
    where
      at_byte : (b : ℕ) → ltb b 128 ≡ true → not (leb 128 b && ltb b 192) ≡ true
      at_byte b h = ground arith

  read_record-produced :
      (payer : Address) (collection : FixedBytes) (value : ℕ)
      → value < u128_mod
      → read_record texts
          (texts.print_address payer)
          (drop 26 (texts.print_word collection))
          (to_decimal value)
        ≡ ok (v2 (seen (payer, collection, value)))
  unfolding read_record
  read_record-produced payer collection value h = rw (
    ReadsTexts.address_back reads payer,
    ReadsTexts.word_back reads collection,
    parse_unsigned-to_decimal u128_mod value h,
  )

  pub parse_record-kafka_record :
      (payer : Address) (collection : FixedBytes) (value : ℕ)
      → value < u128_mod
      → parse_record texts (kafka_record texts (payer, collection, value))
        ≡ some (ok (v2 (seen (payer, collection, value))))
  unfolding parse_record parse_parts
  parse_record-kafka_record payer collection value h =
      rw
        (
          split_once-append b':' (texts.print_address payer) (texts.print_word collection)
              (ReadsTexts.address_plain reads payer),
          parse_record,
        )
        (ground (
          arith,
          ReadsTexts.word_length reads collection,
          boundary collection,
          read_record-produced payer collection value h,
        ))

  -- The highest value that the records of accepted signers give an allocation, on top of one.
  abbrev pub highest_produced :
      List Address → Address → Option ℕ → List (Address × FixedBytes × ℕ) → Option ℕ
  highest_produced signers a best [] = best
  highest_produced signers a best ((payer, collection, value) ∷ records) =
      highest_produced signers a
        (if contains signers payer && low_address collection == a then higher best value else best)
        records

  parsed : List (Address × FixedBytes × ℕ) → List (Result ParseResult ParseError)
  parsed records = map (λ r. ok (v2 (seen r))) records

  process_messages-parsed :
      (signers : List Address) (records : List (Address × FixedBytes × ℕ)) (m : Map ℕ)
      → All (λ r. r.2 < u128_mod) records
      → process_messages texts signers (map (kafka_record texts) records) m
        ≡ process_records signers (parsed records) m
  unfolding process_messages process_records parsed
  process_messages-parsed signers [] m h = refl
  process_messages-parsed signers ((payer, collection, value) ∷ records) m h =
      rw (parse_record-kafka_record payer collection value h.0, process_messages)
        (process_messages-parsed signers records
          (process_record signers (ok (v2 (seen (payer, collection, value)))) m) h.1)

  highest-parsed :
      (signers : List Address) (a : Address) (best : Option ℕ)
      (records : List (Address × FixedBytes × ℕ))
      → highest signers a best (parsed records) ≡ highest_produced signers a best records
  unfolding parsed
  highest-parsed signers a best [] = refl
  highest-parsed signers a best ((payer, collection, value) ∷ records) =
      highest-parsed signers a
        (if contains signers payer && low_address collection == a then higher best value else best)
        records

  -- The escrow manager on the records that the server produced, with values within `u128`: an
  -- allocation has the highest value of the vouchers for it whose payer is among the signers'
  -- addresses, and the vouchers of all other payers leave nothing.
  pub process_messages-produced :
      (signers : List Address) (records : List (Address × FixedBytes × ℕ)) (m : Map ℕ) (a : Address)
      → All (λ r. r.2 < u128_mod) records
      → lookup a (process_messages texts signers (map (kafka_record texts) records) m)
        ≡ highest_produced signers a (lookup a m) records
  process_messages-produced signers records m a h =
      ap (lookup a) (process_messages-parsed signers records m h)
      ∙ process_records-highest signers (parsed records) m a
      ∙ highest-parsed signers a (lookup a m) records
