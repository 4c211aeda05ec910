-- ===== src/Aggregator/Signers/Built.antt =====
-- What a registry that was built accepts (crates/bin/aggregator/src/signers.rs).
use graph_tally.Prelude.{
  ◌≡◌, ◌∙◌, Bool, true, false, not, ◌&&◌, ◌||◌, List, [], ◌∷◌, some, ok, >>=-eq-ok, guard, contains,
  ◌==◌, map_or, any, arith, Option-cases, inl, inr,
}
use mathlib.Core.Path.{subst}
use graph_tally.Prelude.Maps.{lookup, lookup-insert}
use graph_tally.Message.{Alloy, Address, PrivateKeySigner}
use graph_tally.Aggregator.Signers.{
  insert_address, SignerRegistry, BuildError, Building, new_payer_keys, add_signing_key,
  add_signing_keys, add_accepted, add_all_accepted, nothing_built, is_empty, build,
}

-- Whether a registry accepts a signer for a payer.
abbrev pub accepts : SignerRegistry → Address → Address → Bool
accepts r payer signer =
    map_or (lookup payer r) false (λ keys. contains keys.accepted_signers signer)

contains-insert_address :
    (a b : Address) (set : List Address)
    → contains (insert_address a set) b ≡ (b == a || contains set b)
contains-insert_address a b set = ground arith

or_swap : (a b c d : Bool) → c ≡ (b || d) → (a || c) ≡ ((b || a) || d)
or_swap a b c d h = ground arith

or_eq : (x a c k : Bool) → x ≡ (a || c) → c ≡ (k || false) → x ≡ (a || k)
or_eq x a c k h e = ground arith

-- Every accepted signer is recorded under its payer, so it has one payer only.
abbrev OwnersAgree : Building → Type 0
OwnersAgree b =
    (payer signer : Address)
    → accepts b.payers payer signer ≡ true
    → lookup signer b.signer_payer ≡ some payer

module _ (alloy : Alloy) where
  add_signing_key-OwnersAgree :
      (b : Building) (payer : Address) (key : PrivateKeySigner) (b' : Building)
      → OwnersAgree b
      → add_signing_key alloy b (payer, key) ≡ ok b'
      → OwnersAgree b'
  unfolding add_signing_key
  add_signing_key-OwnersAgree b payer key b' h e p s acc = ground (
    arith,
    h p s,
    lookup-insert payer p (new_payer_keys alloy key []) b.payers,
    lookup-insert (alloy.address key) s payer b.signer_payer,
  )

  add_signing_key-accepts :
      (b : Building) (payer : Address) (key : PrivateKeySigner) (b' : Building)
      → add_signing_key alloy b (payer, key) ≡ ok b'
      → (p s : Address)
      → accepts b'.payers p s ≡ ((payer == p && s == alloy.address key) || accepts b.payers p s)
  unfolding add_signing_key
  add_signing_key-accepts b payer key b' e p s =
      ground (arith, lookup-insert payer p (new_payer_keys alloy key []) b.payers)

  -- The registry keeps the key of a payer that it has.
  abbrev pub lists_key : List (Address × PrivateKeySigner) → Address → Address → Bool
  lists_key entries p s = any (λ e. e.0 == p && s == alloy.address e.1) entries

  add_signing_keys-OwnersAgree :
      (b : Building) (entries : List (Address × PrivateKeySigner)) (b' : Building)
      → OwnersAgree b
      → add_signing_keys alloy b entries ≡ ok b'
      → OwnersAgree b'
  unfolding add_signing_keys
  add_signing_keys-OwnersAgree b [] b' h e = subst OwnersAgree (cc e) h
  add_signing_keys-OwnersAgree b ((payer, key) ∷ entries) b' h e =
      let (b₁, e₁, e₂) =
        >>=-eq-ok (add_signing_key alloy b (payer, key)) (λ x. add_signing_keys alloy x entries)
          e in
      add_signing_keys-OwnersAgree b₁ entries b' (add_signing_key-OwnersAgree b payer key b₁ h e₁)
        e₂

  add_signing_keys-accepts :
      (b : Building) (entries : List (Address × PrivateKeySigner)) (b' : Building)
      → add_signing_keys alloy b entries ≡ ok b'
      → (p s : Address) → accepts b'.payers p s ≡ (lists_key entries p s || accepts b.payers p s)
  unfolding add_signing_keys
  add_signing_keys-accepts b [] b' e p s = ground arith
  add_signing_keys-accepts b ((payer, key) ∷ entries) b' e p s =
      let (b₁, e₁, e₂) =
        >>=-eq-ok (add_signing_key alloy b (payer, key)) (λ x. add_signing_keys alloy x entries)
          e in
      let last = add_signing_keys-accepts b₁ entries b' e₂ p s in
      let step = add_signing_key-accepts b payer key b₁ e₁ p s in last ∙ or_swap _ _ _ _ step

add_accepted-OwnersAgree :
    (b : Building) (payer accepted : Address) (b' : Building)
    → OwnersAgree b
    → add_accepted b (payer, accepted) ≡ ok b'
    → OwnersAgree b'
unfolding add_accepted
add_accepted-OwnersAgree b payer accepted b' h e p s acc =
    elim (Option-cases (lookup payer b.payers)) [
      | inl missing ↦ absurd (ground arith)
      | inr (keys, found) ↦ ground (
        arith,
        h p s,
        lookup-insert payer p
            (record keys { accepted_signers = insert_address accepted keys.accepted_signers })
            b.payers,
        lookup-insert accepted s payer b.signer_payer,
      )
    ]

add_accepted-accepts :
    (b : Building) (payer accepted : Address) (b' : Building)
    → add_accepted b (payer, accepted) ≡ ok b'
    → (p s : Address)
    → accepts b'.payers p s ≡ ((payer == p && s == accepted) || accepts b.payers p s)
unfolding add_accepted
add_accepted-accepts b payer accepted b' e p s = elim (Option-cases (lookup payer b.payers)) [
  | inl missing ↦ absurd (ground arith)
  | inr (keys, found) ↦ ground (
    arith,
    lookup-insert payer p
        (record keys { accepted_signers = insert_address accepted keys.accepted_signers }) b.payers,
  )
]

abbrev pub lists_signer : List (Address × Address) → Address → Address → Bool
lists_signer entries p s = any (λ e. e.0 == p && s == e.1) entries

add_all_accepted-OwnersAgree :
    (b : Building) (entries : List (Address × Address)) (b' : Building)
    → OwnersAgree b
    → add_all_accepted b entries ≡ ok b'
    → OwnersAgree b'
unfolding add_all_accepted
add_all_accepted-OwnersAgree b [] b' h e = subst OwnersAgree (cc e) h
add_all_accepted-OwnersAgree b ((payer, accepted) ∷ entries) b' h e =
    let (b₁, e₁, e₂) =
      >>=-eq-ok (add_accepted b (payer, accepted)) (λ x. add_all_accepted x entries) e in
    add_all_accepted-OwnersAgree b₁ entries b' (add_accepted-OwnersAgree b payer accepted b₁ h e₁)
      e₂

add_all_accepted-accepts :
    (b : Building) (entries : List (Address × Address)) (b' : Building)
    → add_all_accepted b entries ≡ ok b'
    → (p s : Address) → accepts b'.payers p s ≡ (lists_signer entries p s || accepts b.payers p s)
unfolding add_all_accepted
add_all_accepted-accepts b [] b' e p s = ground arith
add_all_accepted-accepts b ((payer, accepted) ∷ entries) b' e p s =
    let (b₁, e₁, e₂) =
      >>=-eq-ok (add_accepted b (payer, accepted)) (λ x. add_all_accepted x entries) e in
    add_all_accepted-accepts b₁ entries b' e₂ p s
    ∙ or_swap _ _ _ _ (add_accepted-accepts b payer accepted b₁ e₁ p s)

module _ (alloy : Alloy) (signing_keys : List (Address × PrivateKeySigner))
    (accepted : List (Address × Address)) (registry : SignerRegistry)
    (built : build alloy signing_keys accepted ≡ ok registry) where
  -- The two stages of a build that succeeds.
  pub build_stages :
      (b b' : Building) × (add_signing_keys alloy nothing_built signing_keys ≡ ok b)
      × (add_all_accepted b accepted ≡ ok b')
      × (b'.payers ≡ registry)
  unfolding build
  build_stages =
      let (b, e₁, rest) = >>=-eq-ok (add_signing_keys alloy nothing_built signing_keys) _ built in
      let (_, _, rest₂) = >>=-eq-ok (guard (not (is_empty b.payers)) BuildError.no_payers) _ rest in
      let (b', e₂, rest₃) = >>=-eq-ok (add_all_accepted b accepted) (λ x. ok x.payers) rest₂ in
      (b, b', e₁, e₂, cc rest₃)

  -- A signer is accepted for a payer exactly when the configuration lists it for that payer, as
  -- the address of its signing key or as an accepted signer.
  pub build-accepts :
      (p s : Address)
      → accepts registry p s ≡ (lists_signer accepted p s || lists_key alloy signing_keys p s)
  build-accepts p s =
      let (b, b', e₁, e₂, same) = build_stages in
      rw (← same) (
        or_eq _ _ _ _ (add_all_accepted-accepts b accepted b' e₂ p s)
          (add_signing_keys-accepts alloy nothing_built signing_keys b e₁ p s))

  -- No signer is accepted for two payers.
  pub build-one_payer :
      (p q s : Address) → accepts registry p s ≡ true → accepts registry q s ≡ true → p ≡ q
  build-one_payer p q s hp hq =
      let (b, b', e₁, e₂, same) = build_stages in
      let agree =
        add_all_accepted-OwnersAgree b accepted b'
          (add_signing_keys-OwnersAgree alloy nothing_built signing_keys b
            (λ payer signer acc. absurd (cc acc)) e₁)
          e₂ in
      cc (agree p s (rw same hp), agree q s (rw same hq))
