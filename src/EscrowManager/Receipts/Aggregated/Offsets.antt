-- ===== src/EscrowManager/Receipts/Aggregated/Offsets.antt =====
-- What the steps of loading do to the offsets that are still to come
-- (crates/bin/escrow_manager/src/kafka.rs: receipts::receipts).
use graph_tally.Prelude.{
  ℕ, ◌/◌, ◌≡◌, refl, ◌∙◌, sym, ap, Bool, false, ◌&&◌, List, [], ◌∷◌, Option, some, ◌==◌, contains,
  arith, ==_iff, Bool-cases, Option-cases, inl, inr, ◌⊎◌,
}
use graph_tally.Prelude.Maps.{Map, lookup, remove, lookup-remove}
use graph_tally.Message.{Address, Bytes}
use graph_tally.EscrowManager.Receipts.Aggregated.{
  IndexerFees, IndexerFeesHourly, AggregatedMessage, Loader, Progress, loading, finished, panicked,
  failed, LoadError, progress_of, strike_off, send_fees, send_all_fees, load_hour,
}

-- A finished loader has struck off every partition.
abbrev pub IsConsistent : Loader → Type 0
IsConsistent self = self.progress ≡ finished → self.latest_offsets ≡ []

pub finished-loading : {A : Type 0} → loading ≡ finished → A
finished-loading h = absurd (cc h)

progress_of-finished : (m : Map ℕ) → progress_of m ≡ finished → m ≡ []
progress_of-finished [] h = refl
progress_of-finished (_ ∷ _) h = absurd (cc h)

pub progress_kind :
    (p : Progress)
    → (p ≡ loading) ⊎ ((p ≡ finished) ⊎ ((p ≡ panicked) ⊎ ((e : LoadError) × (p ≡ failed e))))
progress_kind loading = inl refl
progress_kind finished = inr (inl refl)
progress_kind panicked = inr (inr (inl refl))
progress_kind (failed e) = inr (inr (inr (e, refl)))

-- The message of a partition at an offset.
abbrev pub is_at : ℕ → ℕ → AggregatedMessage → Bool
is_at partition offset msg = msg.partition == partition && msg.offset == offset

strike_off-IsConsistent :
    (partition offset : ℕ) (self : Loader)
    → self.progress ≡ loading
    → IsConsistent (strike_off partition offset self)
unfolding strike_off
strike_off-IsConsistent partition offset self busy =
    elim (Option-cases (lookup partition self.latest_offsets)) [
      | inl h ↦ rw (strike_off, h) (λ e. absurd (cc e))
      | inr (latest, h) ↦ elim (Bool-cases (latest == offset)) [
        | inl e ↦
            rw (strike_off, h, e) (progress_of-finished (remove partition self.latest_offsets))
        | inr e ↦ rw (strike_off, h, e, busy) finished-loading
      ]
    ]

-- A partition stays until its own message comes.
strike_off-stays :
    (msg : AggregatedMessage) (self : Loader) (partition offset : ℕ)
    → lookup partition self.latest_offsets ≡ some offset
    → is_at partition offset msg ≡ false
    → lookup partition (strike_off msg.partition msg.offset self).latest_offsets ≡ some offset
unfolding strike_off
strike_off-stays msg self partition offset h other =
    elim (Option-cases (lookup msg.partition self.latest_offsets)) [
      | inl e ↦ rw (strike_off, e) h
      | inr (latest, e) ↦ elim (Bool-cases (latest == msg.offset)) [
        | inl f ↦
            rw (strike_off, e, f, lookup-remove msg.partition partition self.latest_offsets)
              (elim (Bool-cases (msg.partition == partition)) [
                | inl g ↦
                    let same = (==_iff msg.partition partition).0 g in
                    let kept : some latest ≡ some offset =
                      sym e ∙ ap (λ p. lookup p self.latest_offsets) same ∙ h in
                    absurd (ground (arith, other, f, g, kept))
                | inr g ↦ rw g h
              ])
        | inr f ↦ rw (strike_off, e, f) h
      ]
    ]

module _ {F : Type 0} (from_slice : Bytes → Option Address) (wei_of : F → ℕ) (in_range : ℕ → Bool)
    (signers : List Address) where
  -- Sending fees strikes off nothing, and never finishes.
  send_fees-offsets :
      (timestamp : ℕ) (fees : IndexerFees F) (self : Loader)
      → self.progress ≡ loading
      → ((send_fees from_slice wei_of in_range signers timestamp fees self).latest_offsets
          ≡ self.latest_offsets)
        × ((send_fees from_slice wei_of in_range signers timestamp fees self).progress ≡ finished
            → ⊥)
  unfolding send_fees
  send_fees-offsets timestamp fees self busy = elim (Option-cases (from_slice fees.signer)) [
    | inl h ↦ rw (send_fees, h) (refl, λ e. absurd (cc e))
    | inr (signer, h) ↦ elim (Bool-cases (contains signers signer)) [
      | inl e ↦ elim (Bool-cases (in_range (timestamp / 1000))) [
        | inl f ↦ elim (Option-cases (from_slice fees.receiver)) [
          | inl g ↦ rw (send_fees, h, e, f, g) (refl, λ k. absurd (cc k))
          | inr (receiver, g) ↦ rw (send_fees, h, e, f, g) (refl, λ k. absurd (cc (k, busy)))
        ]
        | inr f ↦ rw (send_fees, h, e, f) (refl, λ k. absurd (cc k))
      ]
      | inr e ↦ rw (send_fees, h, e) (refl, λ k. absurd (cc (k, busy)))
    ]
  ]

  send_all_fees-offsets :
      (timestamp : ℕ) (fees : List (IndexerFees F)) (self : Loader)
      → self.progress ≡ loading
      → ((send_all_fees from_slice wei_of in_range signers timestamp fees self).latest_offsets
          ≡ self.latest_offsets)
        × ((send_all_fees from_slice wei_of in_range signers timestamp fees self).progress
              ≡ finished
            → ⊥)
  unfolding send_all_fees
  send_all_fees-offsets timestamp [] self busy = (refl, λ k. absurd (cc (k, busy)))
  send_all_fees-offsets timestamp (one ∷ rest) self busy =
      let after = send_fees from_slice wei_of in_range signers timestamp one self in
      let step = send_fees-offsets timestamp one self busy in
      elim (progress_kind after.progress) [
        | inl h ↦
            let more = send_all_fees-offsets timestamp rest after h in
            rw (send_all_fees, h) (more.0 ∙ step.0, more.1)
        | inr (inl h) ↦ absurd (step.1 h)
        | inr (inr (inl h)) ↦ rw (send_all_fees, h) step
        | inr (inr (inr (e, h))) ↦ rw (send_all_fees, h) step
      ]

  pub load_hour-IsConsistent :
      (msg : AggregatedMessage) (hourly : IndexerFeesHourly F) (self : Loader)
      → self.progress ≡ loading
      → IsConsistent (load_hour from_slice wei_of in_range signers msg hourly self)
  load_hour-IsConsistent msg hourly self busy =
      let sent =
        send_all_fees from_slice wei_of in_range signers hourly.timestamp hourly.aggregations
          self in
      elim (progress_kind sent.progress) [
        | inl h ↦ rw (load_hour, h) (strike_off-IsConsistent msg.partition msg.offset sent h)
        | inr (inl h) ↦
            absurd ((send_all_fees-offsets hourly.timestamp hourly.aggregations self busy).1 h)
        | inr (inr (inl h)) ↦ rw (load_hour, h) (λ k. absurd (cc (k, h)))
        | inr (inr (inr (e, h))) ↦ rw (load_hour, h) (λ k. absurd (cc (k, h)))
      ]

  pub load_hour-stays :
      (msg : AggregatedMessage) (hourly : IndexerFeesHourly F) (self : Loader)
      (partition offset : ℕ)
      → self.progress ≡ loading
      → lookup partition self.latest_offsets ≡ some offset
      → is_at partition offset msg ≡ false
      → lookup partition
          (load_hour from_slice wei_of in_range signers msg hourly self).latest_offsets
        ≡ some offset
  load_hour-stays msg hourly self partition offset busy found other =
      let sent =
        send_all_fees from_slice wei_of in_range signers hourly.timestamp hourly.aggregations
          self in
      let step = send_all_fees-offsets hourly.timestamp hourly.aggregations self busy in
      let still : lookup partition sent.latest_offsets ≡ some offset = rw step.0 found in
      elim (progress_kind sent.progress) [
        | inl h ↦ rw (load_hour, h) (strike_off-stays msg sent partition offset still other)
        | inr (inl h) ↦ absurd (step.1 h)
        | inr (inr (inl h)) ↦ rw (load_hour, h) still
        | inr (inr (inr (e, h))) ↦ rw (load_hour, h) still
      ]
