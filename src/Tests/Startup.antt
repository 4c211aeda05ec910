-- ===== src/Tests/Startup.antt =====
-- The starts of the two programs, and the records between them.
use graph_tally.Prelude.{
  zero, suc, ℕ, ◌+◌, ◌-◌, ◌%◌, ◌^◌, ◌≤◌, ◌≡◌, refl, ap, false, List, [], ◌∷◌, ◌++◌, map, Option,
  none, some, ok, err, map_err, arith,
}
use graph_tally.Prelude.Maps.{lookup}
use graph_tally.Message.{Address}
use graph_tally.Aggregator.Signers.{build}
use graph_tally.Aggregator.Startup.{
  Chars, trim, malformed_entry, of_build, pairs, signer_registry, trim_start, trim_end,
}
use graph_tally.Aggregator.Startup.Pairs.{
  behind, trimmed, write_pairs, pairs-write_pairs, pairs-malformed,
}
use graph_tally.Aggregator.Startup.Written.{
  KeyTexts, ReadsKeyTexts, written_key, written_signer, signer_registry-write_pairs,
}
use graph_tally.Aggregator.Kafka.{kafka_record}
use graph_tally.EscrowManager.Ravs.Parse.{Text, Texts, ReadsTexts, process_messages}
use graph_tally.EscrowManager.Ravs.Parse.Produced.{highest_produced, process_messages-produced}
use graph_tally.EscrowManager.Contracts.{Contracts, proof_message}
use graph_tally.EscrowManager.Contracts.Proof.{HasAddresses, proof_message-injective}
use graph_tally.EscrowManager.Startup.{Token, ensure_allowance}
use graph_tally.EscrowManager.Startup.Allowance.{Approves, ensure_allowance-covers}
use graph_tally.Tests.Base.{toy, keys, extra}

-- " a=1" and "b=2=3", with a space.
abbrev entries : List (Chars × Chars)
entries = (32 ∷ 97 ∷ [], 49 ∷ []) ∷ (98 ∷ [], 50 ∷ 61 ∷ 51 ∷ []) ∷ []

pairs-write_pairs_example : pairs (write_pairs entries) ≡ ok (map trimmed entries)
pairs-write_pairs_example = pairs-write_pairs entries ((refl, refl, refl), ((refl, refl, refl), tt))

-- "oops" at the end, without a semicolon, is no entry.
pairs-malformed_example :
    pairs (write_pairs entries ++ ((111 ∷ 111 ∷ 112 ∷ 115 ∷ []) ++ behind none))
    ≡ err (malformed_entry (trim (111 ∷ 111 ∷ 112 ∷ 115 ∷ [])))
unfolding trim_start trim_end
pairs-malformed_example =
    pairs-malformed entries (111 ∷ 111 ∷ 112 ∷ 115 ∷ []) none
      ((refl, refl, refl), ((refl, refl, refl), tt)) refl refl refl

-- A text of one character, far above all separators.
abbrev read_char : Chars → Option ℕ
read_char [] = none
read_char (c ∷ []) = some (c - 20000)
read_char (c ∷ d ∷ cs) = none

abbrev one_char : ℕ → Chars
one_char n = (n + 20000) ∷ []

abbrev key_texts : KeyTexts
key_texts = record {
  print_address = one_char;
  parse_address = read_char;
  print_key = one_char;
  parse_key = read_char;
}

one_char_back : (n : ℕ) → read_char (trim (one_char n)) ≡ some n
unfolding trim_start trim_end
one_char_back n = ground arith

reads_key_texts : ReadsKeyTexts key_texts
reads_key_texts = record {
  address_plain = λ a. (ground arith, ground arith);
  address_back = one_char_back;
  key_plain = λ k. ground arith;
  key_back = one_char_back;
}

signer_registry-write_pairs_example :
    signer_registry read_char toy read_char
      (write_pairs (map (written_key key_texts reads_key_texts) keys))
      (some (write_pairs (map (written_signer key_texts reads_key_texts) extra)))
    ≡ map_err of_build (build toy keys extra)
signer_registry-write_pairs_example =
    (signer_registry-write_pairs key_texts reads_key_texts toy keys extra).0

abbrev zeros : ℕ → Text → Text
zeros zero rest = rest
zeros (suc n) rest = 0 ∷ zeros n rest

abbrev read_text : Text → Option Address
read_text [] = none
read_text (c ∷ []) = some (c - 100)
read_text (c ∷ d ∷ cs) = some (d % 2 ^ 160)

abbrev texts : Texts
texts = record {
  print_address = λ a. (a + 100) ∷ [];
  print_word = λ w. zeros 27 (w ∷ zeros 38 []);
  parse_address = read_text;
}

reads_texts : ReadsTexts texts
reads_texts = record {
  address_back = λ a. ap some (omega arith);
  address_plain = λ a. ground arith;
  word_length = λ w. refl;
  word_ascii = λ w. refl;
  word_back = λ w. refl;
}

-- Payer 7 is among the signers, payer 8 is not.
process_messages-produced_example :
    lookup 3
      (process_messages texts (7 ∷ []) (map (kafka_record texts) ((7, 3, 30) ∷ (8, 3, 50) ∷ [])) [])
    ≡ highest_produced texts reads_texts (7 ∷ []) 3 none ((7, 3, 30) ∷ (8, 3, 50) ∷ [])
process_messages-produced_example =
    process_messages-produced texts reads_texts (7 ∷ []) ((7, 3, 30) ∷ (8, 3, 50) ∷ []) [] 3
      (omega arith, (omega arith, tt))

abbrev contracts : Contracts
contracts = record { payments_escrow = 5; graph_tally_collector = 6; payer = 7 }

fits : HasAddresses contracts
fits = record { collector_fits = omega arith; payer_fits = omega arith }

proof_message-injective_example :
    (◌≡◌ {A = ℕ} 42161 42161) × (◌≡◌ {A = ℕ} 6 6) × (◌≡◌ {A = ℕ} 1000 1000) × (◌≡◌ {A = ℕ} 7 7)
proof_message-injective_example =
    proof_message-injective contracts contracts 42161 42161 1000 1000 fits fits (omega arith)
      (omega arith) (omega arith) (omega arith) refl

-- The state is the allowance.
abbrev token : Token ℕ (Unit {0})
token = record { allowance = λ s. ok s; approve = λ amount s. (ok tt, amount) }

approves : Approves token
approves amount s after h = ground arith

raised : ensure_allowance token false 100 30 ≡ (ok 100, 100)
unfolding ensure_allowance graph_tally.EscrowManager.Startup.approve_and_read
    graph_tally.EscrowManager.Startup.read_allowance graph_tally.EscrowManager.Contracts.saturated
raised = refl

ensure_allowance-covers_example : ◌≤◌ 100 100
ensure_allowance-covers_example =
    (ensure_allowance-covers token approves 100 100 30 100 (omega arith) raised).0
