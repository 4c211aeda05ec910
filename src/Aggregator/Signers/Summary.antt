-- ===== src/Aggregator/Signers/Summary.antt =====
-- The summary of a registry for the log (crates/bin/aggregator/src/signers.rs).
use graph_tally.Prelude.{
  ℕ, ◌≡◌, refl, ◌∙◌, ap, [], ◌∷◌, none, some, if◌then◌else◌, ◌==◌, map_or, arith, Option-cases, inl,
  inr,
}
use graph_tally.Prelude.Maps.{Map, lookup, lookup-map}
use graph_tally.Message.{Alloy, Address}
use graph_tally.Aggregator.Signers.{
  PayerKeys, SignerRegistry, resolve, insert_by_key, sort_by_key, sort_addresses, summary,
}

lookup-insert_by_key :
    {V : Type 0} (k a : ℕ) (v : V) (m : Map V)
    → lookup a (insert_by_key (k, v) m) ≡ (if k == a then some v else lookup a m)
unfolding insert_by_key
lookup-insert_by_key k a v [] = refl
lookup-insert_by_key k a v ((j, w) ∷ m) = ground (arith, lookup-insert_by_key k a v m)

lookup-sort_by_key : {V : Type 0} (a : ℕ) (m : Map V) → lookup a (sort_by_key m) ≡ lookup a m
unfolding sort_by_key
lookup-sort_by_key a [] = refl
lookup-sort_by_key a ((k, v) ∷ m) =
    lookup-insert_by_key k a v (sort_by_key m)
    ∙ ap (λ found. if k == a then some v else found) (lookup-sort_by_key a m)

-- The summary shows for each payer the address of the key that signs for it, and the signers that
-- are accepted for it, and nothing for any other.
pub summary-resolve :
    (alloy : Alloy) (signers : SignerRegistry) (payer : Address)
    → lookup payer (summary alloy signers)
      ≡ map_or
          (resolve signers payer)
          none
          (λ keys. some (alloy.address keys.0, sort_addresses keys.1))
unfolding summary resolve
summary-resolve alloy signers payer =
    lookup-sort_by_key payer _
    ∙ lookup-map
        (λ (keys : PayerKeys).
          (alloy.address keys.signing_key, sort_addresses keys.accepted_signers))
        payer signers
    ∙ elim (Option-cases (lookup payer signers)) [
      | inl h ↦ rw (h, resolve) refl
      | inr (keys, h) ↦ rw (h, resolve) refl
    ]
