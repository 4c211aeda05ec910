-- ===== src/Aggregator/Signers/OwnKey.antt =====
-- The key that signs for a payer (crates/bin/aggregator/src/signers.rs).
use graph_tally.Prelude.{
  ◌≡◌, Bool, true, ◌&&◌, List, [], ◌∷◌, some, ok, >>=-eq-ok, contains, ◌==◌, any, arith,
  Option-cases, inl, inr, All, All-map,
}
use mathlib.Core.Path.{subst}
use graph_tally.Prelude.Maps.{Map, lookup, lookup-insert}
use graph_tally.Message.{Alloy, Address, PrivateKeySigner}
use graph_tally.Aggregator.Signers.{
  PayerKeys, insert_address, SignerRegistry, Building, new_payer_keys, add_signing_key,
  add_signing_keys, add_accepted, add_all_accepted, nothing_built, build, resolve,
}
use graph_tally.Aggregator.Signers.Built.{build_stages}

module _ (alloy : Alloy) (config : List (Address × PrivateKeySigner)) where
  -- Whether the configuration gives a payer this key.
  abbrev pub gives : Address → PrivateKeySigner → Bool
  gives p key = any (λ e. e.0 == p && e.1 == key) config

  -- The keys of a payer hold the key that the configuration gives it, whose address is accepted.
  abbrev HoldsOwn : Map PayerKeys → Type 0
  HoldsOwn payers =
      (p : Address) (keys : PayerKeys)
      → lookup p payers ≡ some keys
      → (gives p keys.signing_key ≡ true)
        × (contains keys.accepted_signers (alloy.address keys.signing_key) ≡ true)

  add_signing_key-HoldsOwn :
      (b : Building) (payer : Address) (key : PrivateKeySigner) (b' : Building)
      → gives payer key ≡ true
      → HoldsOwn b.payers
      → add_signing_key alloy b (payer, key) ≡ ok b'
      → HoldsOwn b'.payers
  unfolding add_signing_key
  add_signing_key-HoldsOwn b payer key b' given h e p keys found =
      ground (arith, h p keys, lookup-insert payer p (new_payer_keys alloy key []) b.payers)

  add_accepted-HoldsOwn :
      (b : Building) (payer accepted : Address) (b' : Building)
      → HoldsOwn b.payers
      → add_accepted b (payer, accepted) ≡ ok b'
      → HoldsOwn b'.payers
  unfolding add_accepted
  add_accepted-HoldsOwn b payer accepted b' h e p keys found =
      elim (Option-cases (lookup payer b.payers)) [
        | inl missing ↦ absurd (ground arith)
        | inr (old, there) ↦ ground (
          arith,
          h p keys,
          h payer old there,
          lookup-insert payer p
              (record old { accepted_signers = insert_address accepted old.accepted_signers })
              b.payers,
        )
      ]

  add_all_accepted-HoldsOwn :
      (b : Building) (entries : List (Address × Address)) (b' : Building)
      → HoldsOwn b.payers
      → add_all_accepted b entries ≡ ok b'
      → HoldsOwn b'.payers
  unfolding add_all_accepted
  add_all_accepted-HoldsOwn b [] b' h e =
      let same : b ≡ b' = cc e in subst (λ (x : Building). HoldsOwn x.payers) same h
  add_all_accepted-HoldsOwn b ((payer, accepted) ∷ entries) b' h e =
      let (b₁, e₁, e₂) =
        >>=-eq-ok (add_accepted b (payer, accepted)) (λ x. add_all_accepted x entries) e in
      add_all_accepted-HoldsOwn b₁ entries b' (add_accepted-HoldsOwn b payer accepted b₁ h e₁) e₂

  add_signing_keys-HoldsOwn :
      (b : Building) (entries : List (Address × PrivateKeySigner)) (b' : Building)
      → All (λ e. gives e.0 e.1 ≡ true) entries
      → HoldsOwn b.payers
      → add_signing_keys alloy b entries ≡ ok b'
      → HoldsOwn b'.payers
  unfolding add_signing_keys
  add_signing_keys-HoldsOwn b [] b' g h e =
      let same : b ≡ b' = cc e in subst (λ (x : Building). HoldsOwn x.payers) same h
  add_signing_keys-HoldsOwn b ((payer, key) ∷ entries) b' g h e =
      let (b₁, e₁, e₂) =
        >>=-eq-ok (add_signing_key alloy b (payer, key)) (λ x. add_signing_keys alloy x entries)
          e in
      add_signing_keys-HoldsOwn b₁ entries b' g.1 (add_signing_key-HoldsOwn b payer key b₁ g.0 h e₁)
        e₂

-- Every entry of a configuration is given by it.
gives-All :
    (alloy : Alloy) (config : List (Address × PrivateKeySigner))
    → All (λ e. gives alloy config e.0 e.1 ≡ true) config
gives-All alloy [] = tt
gives-All alloy (x ∷ config) =
    (ground arith, All-map (λ e h. ground arith) config (gives-All alloy config))

-- What a built registry resolves a payer to is the key that the configuration gives that payer,
-- and the key's own address is among the accepted signers.
pub resolve-build :
    (alloy : Alloy) (signing_keys : List (Address × PrivateKeySigner))
    (accepted : List (Address × Address)) (registry : SignerRegistry) (payer : Address)
    (key : PrivateKeySigner) (signers : List Address)
    → build alloy signing_keys accepted ≡ ok registry
    → resolve registry payer ≡ some (key, signers)
    → (gives alloy signing_keys payer key ≡ true) × (contains signers (alloy.address key) ≡ true)
unfolding resolve
resolve-build alloy signing_keys accepted registry payer key signers built found =
    let (b, b', e₁, e₂, same) = build_stages alloy signing_keys accepted registry built in
    let holds =
      add_all_accepted-HoldsOwn alloy signing_keys b accepted b'
        (add_signing_keys-HoldsOwn alloy signing_keys nothing_built signing_keys b
          (gives-All alloy signing_keys) (λ p keys none_there. absurd (cc none_there)) e₁)
        e₂ in
    elim (Option-cases (lookup payer registry)) [
      | inl missing ↦ absurd (ground arith)
      | inr (keys, there) ↦ ground (arith, holds payer keys (rw same there))
    ]
