-- ===== src/Aggregator/Startup/Written.antt =====
-- A configuration that is written down starts the registry that is built from it
-- (crates/bin/aggregator/src/main.rs: signer_registry).
use graph_tally.Prelude.{
  ◌≡◌, refl, false, List, [], ◌∷◌, map, Option, none, some, ok, map_err, contains, All,
}
use graph_tally.Message.{Alloy, Address, PrivateKeySigner}
use graph_tally.Aggregator.Signers.{build}
use graph_tally.Aggregator.Startup.{
  Chars, trim, of_build, collect, signing_key_of, accepted_of, signer_registry,
}
use graph_tally.Aggregator.Startup.Pairs.{IsEntry, trimmed, write_pairs, pairs-write_pairs}

-- The alloy crate's texts of addresses and keys: without separators, and read back once trimmed.
pub record KeyTexts : Type 0 where
  pub print_address : Address → Chars
  pub parse_address : Chars → Option Address
  pub print_key : PrivateKeySigner → Chars
  pub parse_key : Chars → Option PrivateKeySigner

pub record ReadsKeyTexts (texts : KeyTexts) : Type 0 where
  pub address_plain :
      (a : Address)
      → (contains (texts.print_address a) b';' ≡ false)
        × (contains (texts.print_address a) b'=' ≡ false)
  pub address_back : (a : Address) → texts.parse_address (trim (texts.print_address a)) ≡ some a
  pub key_plain : (k : PrivateKeySigner) → contains (texts.print_key k) b';' ≡ false
  pub key_back : (k : PrivateKeySigner) → texts.parse_key (trim (texts.print_key k)) ≡ some k

module _ (texts : KeyTexts) (reads : ReadsKeyTexts texts) where
  abbrev pub written_key : Address × PrivateKeySigner → Chars × Chars
  written_key (payer, key) = (texts.print_address payer, texts.print_key key)

  abbrev pub written_signer : Address × Address → Chars × Chars
  written_signer (payer, signer) = (texts.print_address payer, texts.print_address signer)

  keys_are_entries : (keys : List (Address × PrivateKeySigner)) → All IsEntry (map written_key keys)
  keys_are_entries [] = tt
  keys_are_entries ((payer, key) ∷ keys) =
      let plain = ReadsKeyTexts.address_plain reads payer in
      ((plain.0, plain.1, ReadsKeyTexts.key_plain reads key), keys_are_entries keys)

  signers_are_entries :
      (signers : List (Address × Address)) → All IsEntry (map written_signer signers)
  signers_are_entries [] = tt
  signers_are_entries ((payer, signer) ∷ signers) =
      let plain = ReadsKeyTexts.address_plain reads payer in
      (
        (plain.0, plain.1, (ReadsKeyTexts.address_plain reads signer).0),
        signers_are_entries signers,
      )

  collect-keys :
      (keys : List (Address × PrivateKeySigner))
      → collect
          (signing_key_of texts.parse_address texts.parse_key)
          (map trimmed (map written_key keys))
        ≡ ok keys
  unfolding collect
  collect-keys [] = refl
  collect-keys ((payer, key) ∷ keys) =
      rw (
        ReadsKeyTexts.address_back reads payer,
        ReadsKeyTexts.key_back reads key,
        collect-keys keys,
      )

  collect-signers :
      (signers : List (Address × Address))
      → collect (accepted_of texts.parse_address) (map trimmed (map written_signer signers))
        ≡ ok signers
  unfolding collect
  collect-signers [] = refl
  collect-signers ((payer, signer) ∷ signers) = rw (
    ReadsKeyTexts.address_back reads payer,
    ReadsKeyTexts.address_back reads signer,
    collect-signers signers,
  )

  -- The registry of a configuration that is written down is the one that is built from the
  -- configuration, with the build's error where there is one; without accepted signers, from the
  -- keys alone.
  pub signer_registry-write_pairs :
      (alloy : Alloy) (keys : List (Address × PrivateKeySigner))
      (accepted : List (Address × Address))
      → (signer_registry texts.parse_address alloy texts.parse_key
            (write_pairs (map written_key keys))
            (some (write_pairs (map written_signer accepted)))
          ≡ map_err of_build (build alloy keys accepted))
        × (signer_registry texts.parse_address alloy texts.parse_key
              (write_pairs (map written_key keys))
              none
            ≡ map_err of_build (build alloy keys []))
  unfolding signer_registry collect
  signer_registry-write_pairs alloy keys accepted =
      let key_pairs = pairs-write_pairs (map written_key keys) (keys_are_entries keys) in
      let signer_pairs =
        pairs-write_pairs (map written_signer accepted) (signers_are_entries accepted) in
      (
        rw (key_pairs, collect-keys keys, signer_pairs, collect-signers accepted),
        rw (key_pairs, collect-keys keys),
      )
