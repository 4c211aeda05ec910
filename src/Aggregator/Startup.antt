-- ===== src/Aggregator/Startup.antt =====
-- The start of the aggregator: the configured signers and the domain
-- (crates/bin/aggregator/src/main.rs: pairs, signer_registry, create_eip712_domain).
pub mod Pairs
pub mod Written
use graph_tally.Prelude.{
  ℕ, Bool, true, false, not, ◌&&◌, ◌||◌, List, [], ◌∷◌, map, Option, none, some, Result, ok, err,
  ok_or, map_err, ◌>>=◌, if◌then◌else◌, leb, ◌==◌, map_or, retain,
}
use graph_tally.Prelude.Words.{u64_mod}
use graph_tally.Prelude.Decimal.{parse_unsigned}
use graph_tally.Message.{Alloy, Address, PrivateKeySigner, Eip712Domain}
use graph_tally.Core.{graph_tally_eip712_domain}
use graph_tally.Aggregator.Signers.{SignerRegistry, BuildError, build}

-- The characters of a text, by their code points.
abbrev pub Chars : Type 0
Chars = List ℕ

-- `char::is_whitespace`
abbrev pub is_whitespace : ℕ → Bool
is_whitespace c =
    (leb 9 c && leb c 13)
    || c == 32
    || c == 133
    || c == 160
    || c == 5760
    || (leb 8192 c && leb c 8202)
    || c == 8232
    || c == 8233
    || c == 8239
    || c == 8287
    || c == 12288

abbrev pub is_blank : Chars → Bool
is_blank [] = true
is_blank (_ ∷ _) = false

unfoldable pub trim_start : Chars → Chars
trim_start [] = []
trim_start (c ∷ cs) = let rest = trim_start cs in if is_whitespace c then rest else c ∷ cs

unfoldable pub trim_end : Chars → Chars
trim_end [] = []
trim_end (c ∷ cs) =
    let rest = trim_end cs in if is_blank rest && is_whitespace c then [] else c ∷ rest

abbrev pub trim : Chars → Chars
trim text = trim_end (trim_start text)

-- A character before the first part.
abbrev pub push_first : ℕ → List Chars → List Chars
push_first c [] = (c ∷ []) ∷ []
push_first c (part ∷ parts) = (c ∷ part) ∷ parts

-- `split`: there is always a part.
unfoldable pub split : ℕ → Chars → List Chars
split at_char [] = [] ∷ []
split at_char (c ∷ cs) =
    let rest = split at_char cs in if c == at_char then [] ∷ rest else push_first c rest

unfoldable pub split_once : ℕ → Chars → Option (Chars × Chars)
split_once at_char [] = none
split_once at_char (c ∷ cs) =
    let rest = split_once at_char cs in
    if c == at_char then some ([], cs) else map_or rest none (λ p. some (c ∷ p.0, p.1))

-- What ends the start: a malformed entry, a text that does not parse, or a registry that cannot
-- be built.
pub data StartupError : Type 0 where
  malformed_entry : Chars → StartupError
  parse_payer_address : Chars → StartupError
  -- of this payer
  parse_signing_key parse_signer_address : Address → StartupError
  parse_chain_id : StartupError
  of_build : BuildError → StartupError

unfoldable pub pair_of : Chars → Result (Chars × Chars) StartupError
unfolding split_once
pair_of entry =
    ok_or (map_or (split_once b'=' entry) none (λ p. some (trim p.0, trim p.1)))
      (malformed_entry entry)

-- `collect` into a result: the first error.
unfoldable pub collect {ℓ κ} :
    {A : Type ℓ} {B : Type κ} → (A → Result B StartupError) → List A → Result (List B) StartupError
collect f [] = ok []
collect f (x ∷ xs) = do y ← f x; ys ← collect f xs; ok (y ∷ ys)

unfoldable pub pairs : Chars → Result (List (Chars × Chars)) StartupError
unfolding split trim_start trim_end pair_of collect
pairs raw = collect pair_of (retain (λ entry. not (is_blank entry)) (map trim (split b';' raw)))

module _ (parse_address : Chars → Option Address) where
  abbrev pub signing_key_of :
      (Chars → Option PrivateKeySigner)
      → Chars × Chars
      → Result (Address × PrivateKeySigner) StartupError
  signing_key_of parse_key (payer_text, key_text) = do
    payer ← ok_or (parse_address payer_text) (parse_payer_address payer_text)
    key ← ok_or (parse_key key_text) (parse_signing_key payer)
    ok (payer, key)

  abbrev pub accepted_of : Chars × Chars → Result (Address × Address) StartupError
  accepted_of (payer_text, signer_text) = do
    payer ← ok_or (parse_address payer_text) (parse_payer_address payer_text)
    signer ← ok_or (parse_address signer_text) (parse_signer_address payer)
    ok (payer, signer)

  unfoldable pub signer_registry :
      Alloy
      → (Chars → Option PrivateKeySigner)
      → Chars
      → Option Chars
      → Result SignerRegistry StartupError
  unfolding pairs collect
  signer_registry alloy parse_key signers accepted_signers = do
    signer_pairs ← pairs signers
    signing_keys ← collect (signing_key_of parse_key) signer_pairs
    accepted_pairs ← map_or accepted_signers (ok []) pairs
    accepted ← collect accepted_of accepted_pairs
    map_err of_build (build alloy signing_keys accepted)

-- `create_eip712_domain`: chain 1 and the zero address unless given.
unfoldable pub create_eip712_domain :
    Option Chars → Option Address → Result Eip712Domain StartupError
create_eip712_domain domain_chain_id domain_verifying_contract = do
  chain_id ←
      map_or domain_chain_id (ok none)
        (λ text. map_or (parse_unsigned u64_mod text) (err parse_chain_id) (λ n. ok (some n)))
  ok (
      graph_tally_eip712_domain (map_or chain_id 1 (λ n. n))
        (map_or domain_verifying_contract 0 (λ a. a)))
