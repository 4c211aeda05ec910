-- ===== src/Aggregator/Check.antt =====
-- What each check of a batch decides (crates/bin/aggregator/src/aggregator.rs).
pub mod Exact
pub mod Rounds
use graph_tally.Prelude.{
  ℕ, ◌<◌, ◌≡◌, ◌↔◌, refl, Bool, true, false, List, [], ◌∷◌, map, Option, none, some, Result, ok,
  err, map_err, ◌>>=◌, ◌>>◌, >>=-eq-ok, map_err-eq-ok, guard, guard-true, guard_==, ◌∙◌, contains,
  All, All-map, All-both, arith, Bool-cases, Option-cases, inl, inr, leb, ◌==◌,
}
use graph_tally.Message.{
  Alloy, Address, FixedBytes, SolStruct, Eip712Domain, Eip712SignedMessage, recover_signer,
  get_signature_bytes,
}
use graph_tally.Receipt.Checks.Unique.{IsUnique}
use graph_tally.Graph.{Receipt, ReceiptAggregateVoucher, SignedReceipt, SignedRav}
use graph_tally.Core.{Error}
use graph_tally.Aggregator.{
  Failure, unique_signatures, check_signatures_unique, timestamps_after, check_receipt_timestamps,
  check_collection_id, check_previous_id, check_signature_is_from_one_of_addresses,
  check_all_signatures, check_previous_signature,
}

abbrev pub signature_of : Alloy → SignedReceipt → ℕ
signature_of alloy r = get_signature_bytes alloy r.signature

signatures_from :
    (alloy : Alloy) (seen : List ℕ) (rs : List SignedReceipt)
    → unique_signatures alloy seen rs ≡ ok tt
    → IsUnique (map (signature_of alloy) rs)
      × All (λ r. contains seen (signature_of alloy r) ≡ false) rs
unfolding unique_signatures
signatures_from alloy seen [] h = (tt, tt)
signatures_from alloy seen (r ∷ rs) h = elim (Bool-cases (contains seen (signature_of alloy r))) [
  | inl old ↦ absurd (ground arith)
  | inr new ↦
      let (u, a) = signatures_from alloy (signature_of alloy r ∷ seen) rs (rw new at h) in
      ((not_among (signature_of alloy r) seen rs a, u), (new, All-map (λ x k. ground arith) rs a))
]
  where
    not_among :
        (s : ℕ) (set : List ℕ) (xs : List SignedReceipt)
        → All (λ x. contains (s ∷ set) (signature_of alloy x) ≡ false) xs
        → contains (map (signature_of alloy) xs) s ≡ false
    not_among s set [] k = refl
    not_among s set (x ∷ xs) k = ground (arith, not_among s set xs k.1)

signatures_to :
    (alloy : Alloy) (seen : List ℕ) (rs : List SignedReceipt)
    → IsUnique (map (signature_of alloy) rs)
    → All (λ r. contains seen (signature_of alloy r) ≡ false) rs
    → unique_signatures alloy seen rs ≡ ok tt
unfolding unique_signatures
signatures_to alloy seen [] u a = refl
signatures_to alloy seen (r ∷ rs) u a =
    rw a.0 (signatures_to alloy (signature_of alloy r ∷ seen) rs u.1 (still_new rs u.0 a.1))
  where
    still_new :
        (xs : List SignedReceipt)
        → contains (map (signature_of alloy) xs) (signature_of alloy r) ≡ false
        → All (λ x. contains seen (signature_of alloy x) ≡ false) xs
        → All (λ x. contains (signature_of alloy r ∷ seen) (signature_of alloy x) ≡ false) xs
    still_new [] n k = tt
    still_new (x ∷ xs) n k = (ground arith, still_new xs (ground arith) k.1)

-- The batch passes exactly when no signature, in canonical form, stands twice.
pub check_signatures_unique_iff :
    (alloy : Alloy) (rs : List SignedReceipt)
    → (check_signatures_unique alloy rs ≡ ok tt) ↔ IsUnique (map (signature_of alloy) rs)
unfolding check_signatures_unique
check_signatures_unique_iff alloy rs =
    ((λ h. (signatures_from alloy [] rs h).0), (λ u. signatures_to alloy [] rs u (trivially rs)))
  where
    trivially : (xs : List SignedReceipt) → All (λ x. contains [] (signature_of alloy x) ≡ false) xs
    trivially [] = tt
    trivially (x ∷ xs) = (refl, trivially xs)

-- No receipt of the batch is at or before the previous voucher.
abbrev pub IsAfter : List SignedReceipt → Option SignedRav → Type 0
IsAfter rs none = Unit
IsAfter rs (some rav) = All (λ r. rav.message.timestamp_ns < r.message.timestamp_ns) rs

timestamps_after-from :
    (t : ℕ) (rs : List SignedReceipt)
    → timestamps_after t rs ≡ ok tt
    → All (λ r. t < r.message.timestamp_ns) rs
unfolding timestamps_after
timestamps_after-from t [] h = tt
timestamps_after-from t (r ∷ rs) h = elim (Bool-cases (leb r.message.timestamp_ns t)) [
  | inl old ↦ absurd (ground arith)
  | inr new ↦ (ground arith, timestamps_after-from t rs (rw new at h))
]

timestamps_after-to :
    (t : ℕ) (rs : List SignedReceipt)
    → All (λ r. t < r.message.timestamp_ns) rs
    → timestamps_after t rs ≡ ok tt
unfolding timestamps_after
timestamps_after-to t [] h = refl
timestamps_after-to t (r ∷ rs) h = ground (arith, timestamps_after-to t rs h.1)

pub check_receipt_timestamps_iff :
    (rs : List SignedReceipt) (previous : Option SignedRav)
    → (check_receipt_timestamps rs previous ≡ ok tt) ↔ IsAfter rs previous
unfolding check_receipt_timestamps
check_receipt_timestamps_iff rs none = ((λ h. tt), (λ h. refl))
check_receipt_timestamps_iff rs (some rav) = (
  timestamps_after-from rav.message.timestamp_ns rs,
  timestamps_after-to rav.message.timestamp_ns rs,
)

module _ (collection_id : FixedBytes) (payer data_service service_provider : Address) where
  abbrev pub HasIds : SignedReceipt → Type 0
  HasIds r =
      (r.message.collection_id ≡ collection_id)
      × (r.message.payer ≡ payer)
      × (r.message.data_service ≡ data_service)
      × (r.message.service_provider ≡ service_provider)

  check_collection_id-from :
      (rs : List SignedReceipt)
      → check_collection_id rs collection_id payer data_service service_provider ≡ ok tt
      → All HasIds rs
  unfolding check_collection_id
  check_collection_id-from [] h = tt
  check_collection_id-from (r ∷ rs) h =
      let (_, a, h₁) = >>=-eq-ok (guard (r.message.collection_id == collection_id) _) _ h in
      let (_, b, h₂) = >>=-eq-ok (guard (r.message.payer == payer) _) _ h₁ in
      let (_, c, h₃) = >>=-eq-ok (guard (r.message.data_service == data_service) _) _ h₂ in
      let (_, d, h₄) = >>=-eq-ok (guard (r.message.service_provider == service_provider) _) _ h₃ in
      (
        (guard_== _ _ _ a, guard_== _ _ _ b, guard_== _ _ _ c, guard_== _ _ _ d),
        check_collection_id-from rs h₄,
      )

  check_collection_id-to :
      (rs : List SignedReceipt)
      → All HasIds rs
      → check_collection_id rs collection_id payer data_service service_provider ≡ ok tt
  unfolding check_collection_id
  check_collection_id-to [] h = refl
  check_collection_id-to (r ∷ rs) h = ground (arith, check_collection_id-to rs h.1)

  -- The batch passes exactly when every receipt has the four given identifiers.
  pub check_collection_id_iff :
      (rs : List SignedReceipt)
      → (check_collection_id rs collection_id payer data_service service_provider ≡ ok tt)
        ↔ All HasIds rs
  check_collection_id_iff rs = (check_collection_id-from rs, check_collection_id-to rs)

  abbrev pub PreviousHasIds : Option SignedRav → Type 0
  PreviousHasIds none = Unit
  PreviousHasIds (some rav) =
      (rav.message.collection_id ≡ collection_id)
      × (rav.message.payer ≡ payer)
      × (rav.message.data_service ≡ data_service)
      × (rav.message.service_provider ≡ service_provider)

  pub check_previous_id_iff :
      (previous : Option SignedRav)
      → (check_previous_id previous collection_id payer data_service service_provider ≡ ok tt)
        ↔ PreviousHasIds previous
  unfolding check_previous_id
  check_previous_id_iff none = ((λ h. tt), (λ h. refl))
  check_previous_id_iff (some rav) = ((λ h. previous_from rav h), (λ h. ground arith))
    where
      previous_from :
          (r : SignedRav)
          → check_previous_id (some r) collection_id payer data_service service_provider ≡ ok tt
          → PreviousHasIds (some r)
      previous_from r h =
          let (_, a, h₁) = >>=-eq-ok (guard (r.message.collection_id == collection_id) _) _ h in
          let (_, b, h₂) = >>=-eq-ok (guard (r.message.payer == payer) _) _ h₁ in
          let (_, c, d) = >>=-eq-ok (guard (r.message.data_service == data_service) _) _ h₂ in
          (guard_== _ _ _ a, guard_== _ _ _ b, guard_== _ _ _ c, guard_== _ _ _ d)

module _ (alloy : Alloy) (domain : Eip712Domain) (accepted : List Address) where
  -- The recovered signer is one of the accepted addresses.
  abbrev pub SignedByOne : {M : Type 0} ⦃sol : SolStruct M⦄ → Eip712SignedMessage M → Type 0
  SignedByOne signed =
      (signer : Address) × (recover_signer alloy signed domain ≡ ok signer)
      × (contains accepted signer ≡ true)

  pub signature_iff :
      {M : Type 0} ⦃sol : SolStruct M⦄ (signed : Eip712SignedMessage M)
      → (check_signature_is_from_one_of_addresses alloy signed domain accepted ≡ ok tt)
        ↔ SignedByOne signed
  unfolding check_signature_is_from_one_of_addresses
  signature_iff signed = (
    (λ h.
        let (signer, e, g) =
          >>=-eq-ok (map_err Failure.message (recover_signer alloy signed domain)) _ h in
        (signer, map_err-eq-ok Failure.message _ e, guard-true _ _ g)),
    (λ s. ground (arith, s.1, s.2)),
  )

  module _ ⦃receipt_sol : SolStruct Receipt⦄ ⦃rav_sol : SolStruct ReceiptAggregateVoucher⦄ where
    each_signature-from :
        (rs : List SignedReceipt)
        → check_all_signatures alloy rs domain accepted ≡ ok tt
        → All (λ r. SignedByOne r) rs
    unfolding check_all_signatures
    each_signature-from [] h = tt
    each_signature-from (r ∷ rs) h =
        let (_, e, g) =
          >>=-eq-ok (check_signature_is_from_one_of_addresses alloy r domain accepted) _ h in
        ((signature_iff r).0 (e ∙ refl), each_signature-from rs g)

    each_signature-to :
        (rs : List SignedReceipt)
        → All (λ r. SignedByOne r) rs
        → check_all_signatures alloy rs domain accepted ≡ ok tt
    unfolding check_all_signatures
    each_signature-to [] h = refl
    each_signature-to (r ∷ rs) h = rw ((signature_iff r).1 h.0) (each_signature-to rs h.1)

    pub check_all_signatures_iff :
        (rs : List SignedReceipt)
        → (check_all_signatures alloy rs domain accepted ≡ ok tt) ↔ All (λ r. SignedByOne r) rs
    check_all_signatures_iff rs = (each_signature-from rs, each_signature-to rs)

    abbrev pub PreviousSigned : Option SignedRav → Type 0
    PreviousSigned none = Unit
    PreviousSigned (some rav) = SignedByOne rav

    pub check_previous_signature_iff :
        (previous : Option SignedRav)
        → (check_previous_signature alloy previous domain accepted ≡ ok tt)
          ↔ PreviousSigned previous
    unfolding check_previous_signature
    check_previous_signature_iff none = ((λ h. tt), (λ h. refl))
    check_previous_signature_iff (some rav) = signature_iff rav
