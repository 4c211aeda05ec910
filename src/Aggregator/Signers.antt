-- ===== src/Aggregator/Signers.antt =====
-- The registry of signing keys (crates/bin/aggregator/src/signers.rs).
pub mod Built
pub mod OwnKey
pub mod Summary
use graph_tally.Prelude.{
  ℕ, Bool, true, false, not, List, [], ◌∷◌, Option, none, some, Result, ok, err, ok_or, ◌>>=◌, ◌>>◌,
  guard, if◌then◌else◌, contains, ◌==◌, map_or, map, leb,
}
use graph_tally.Prelude.Maps.{Map, lookup, insert, has_key}
use graph_tally.Message.{Alloy, Address, PrivateKeySigner}

pub record PayerKeys : Type 0 where
  pub signing_key : PrivateKeySigner
  pub accepted_signers : List Address

-- `HashSet::insert`
abbrev pub insert_address : Address → List Address → List Address
insert_address a set = if contains set a then set else a ∷ set

-- `HashSet::extend`
abbrev pub extend : List Address → List Address → List Address
extend set [] = set
extend set (a ∷ more) = extend (insert_address a set) more

abbrev pub SignerRegistry : Type 0
SignerRegistry = Map PayerKeys

pub data BuildError : Type 0 where
  -- the signing key's address, the payer that has it, the payer that lists it again
  signing_key_listed_twice : Address → Address → Address → BuildError
  duplicate_payer : Address → BuildError
  no_payers : BuildError
  -- the accepted signer, the payer that has no key
  unknown_payer : Address → Address → BuildError
  signer_listed_twice : Address → Address → Address → BuildError

-- The keys by payer, and the payer of every signer seen so far.
pub record Building : Type 0 where
  pub payers : Map PayerKeys
  pub signer_payer : Map Address

module _ (alloy : Alloy) where
  -- `PayerKeys::new`
  new_payer_keys : PrivateKeySigner → List Address → PayerKeys
  new_payer_keys signing_key also_accept = record {
    signing_key = signing_key;
    accepted_signers = extend (alloy.address signing_key ∷ []) also_accept;
  }

  -- One round of the loop over the signing keys.
  add_signing_key : Building → Address × PrivateKeySigner → Result Building BuildError
  unfolding new_payer_keys
  add_signing_key b (payer, signing_key) =
      let signer = alloy.address signing_key in
      elim (lookup signer b.signer_payer) [
        | some other ↦ err (signing_key_listed_twice signer other payer)
        | none ↦
            if has_key payer b.payers
            then err (duplicate_payer payer)
            else ok (record {
              payers = insert payer (new_payer_keys signing_key []) b.payers;
              signer_payer = insert signer payer b.signer_payer;
            })
      ]

  pub add_signing_keys : Building → List (Address × PrivateKeySigner) → Result Building BuildError
  add_signing_keys b [] = ok b
  add_signing_keys b (entry ∷ entries) =
      add_signing_key b entry >>= λ b'. add_signing_keys b' entries

-- One round of the loop over the accepted signers.
add_accepted : Building → Address × Address → Result Building BuildError
add_accepted b (payer, accepted) = do
  keys ← ok_or (lookup payer b.payers) (unknown_payer accepted payer)
  guard (map_or (lookup accepted b.signer_payer) true (λ other. other == payer)) (
      signer_listed_twice accepted (map_or (lookup accepted b.signer_payer) 0 (λ other. other))
        payer)
  ok (record {
    payers =
        insert payer
          (record keys { accepted_signers = insert_address accepted keys.accepted_signers })
          b.payers;
    signer_payer = insert accepted payer b.signer_payer;
  })

pub add_all_accepted : Building → List (Address × Address) → Result Building BuildError
add_all_accepted b [] = ok b
add_all_accepted b (entry ∷ entries) = add_accepted b entry >>= λ b'. add_all_accepted b' entries

abbrev pub nothing_built : Building
nothing_built = record { payers = []; signer_payer = [] }

abbrev is_empty : {V : Type 0} → Map V → Bool
is_empty [] = true
is_empty (_ ∷ _) = false

-- `SignerRegistry::build`
unfoldable pub build :
    Alloy
    → List (Address × PrivateKeySigner)
    → List (Address × Address)
    → Result SignerRegistry BuildError
unfolding add_signing_keys add_signing_key add_all_accepted add_accepted
build alloy signing_keys accepted = do
  b ← add_signing_keys alloy nothing_built signing_keys
  guard (not (is_empty b.payers)) no_payers
  b' ← add_all_accepted b accepted
  ok b'.payers

-- `SignerRegistry::resolve`
unfoldable pub resolve : SignerRegistry → Address → Option (PrivateKeySigner × List Address)
resolve signers payer = elim (lookup payer signers) [
  | none ↦ none
  | some keys ↦ some (keys.signing_key, keys.accepted_signers)
]

-- A stable sort by key.
unfoldable pub insert_by_key {ℓ} : {V : Type ℓ} → ℕ × V → Map V → Map V
insert_by_key entry [] = entry ∷ []
insert_by_key entry (first ∷ rest) =
    let later = insert_by_key entry rest in
    if leb entry.0 first.0 then entry ∷ first ∷ rest else first ∷ later

unfoldable pub sort_by_key {ℓ} : {V : Type ℓ} → Map V → Map V
unfolding insert_by_key
sort_by_key [] = []
sort_by_key (entry ∷ rest) = insert_by_key entry (sort_by_key rest)

-- `sort`, of addresses.
abbrev pub sort_addresses : List Address → List Address
sort_addresses xs =
    map (λ (e : Address × Unit {0}). e.0) (sort_by_key (map (λ (x : Address). (x, tt)) xs))

-- `SignerRegistry::summary`: by payer, the signing address and the accepted signers in order.
unfoldable pub summary : Alloy → SignerRegistry → Map (Address × List Address)
unfolding sort_by_key
summary alloy signers = sort_by_key (
    map
      (λ (e : Address × PayerKeys).
        (e.0, (alloy.address e.1.signing_key, sort_addresses e.1.accepted_signers)))
      signers)
