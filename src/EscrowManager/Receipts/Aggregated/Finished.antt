-- ===== src/EscrowManager/Receipts/Aggregated/Finished.antt =====
-- When loading is finished (crates/bin/escrow_manager/src/kafka.rs: receipts::receipts).
use graph_tally.Prelude.{
  ℕ, max, ◌≡◌, ◌∙◌, sym, ap, Bool, true, false, not, ◌&&◌, List, [], ◌∷◌, Option, none, some, ltb,
  any, map_or, arith, Bool-cases, Option-cases, inl, inr,
}
use graph_tally.Prelude.Maps.{Map, lookup}
use graph_tally.Message.{Address, Bytes}
use graph_tally.EscrowManager.Receipts.Aggregated.{
  IndexerFeesHourly, AggregatedMessage, Loader, new_loader, loading, finished, load_message,
  load_all,
}
use graph_tally.EscrowManager.Receipts.Aggregated.Offsets.{
  IsConsistent, finished-loading, progress_kind, is_at, load_hour-IsConsistent, load_hour-stays,
}

module _ {F : Type 0} (decode : Bytes → Option (IndexerFeesHourly F))
    (from_slice : Bytes → Option Address) (wei_of : F → ℕ) (in_range : ℕ → Bool)
    (signers : List Address) (cutoff : Option ℕ) where
  -- A message that is not skipped by the cutoff.
  abbrev pub is_counted : AggregatedMessage → Bool
  is_counted msg = map_or msg.payload false (λ payload.
      map_or (decode payload) false (λ hourly. not (map_or cutoff false (ltb hourly.timestamp))))

  load_message-IsConsistent :
      (msg : AggregatedMessage) (self : Loader)
      → self.progress ≡ loading
      → IsConsistent (load_message decode from_slice wei_of in_range signers cutoff msg self)
  unfolding load_message
  load_message-IsConsistent msg self busy = elim (Option-cases msg.payload) [
    | inl h ↦ rw (load_message, h) (λ k. absurd (cc k))
    | inr (payload, h) ↦ elim (Option-cases (decode payload)) [
      | inl e ↦ rw (load_message, h, e) (λ k. absurd (cc k))
      | inr (hourly, e) ↦
          let seen = record self {
            latest_timestamp = max self.latest_timestamp hourly.timestamp;
          } in
          elim (Bool-cases (map_or cutoff false (ltb hourly.timestamp))) [
            | inl f ↦ rw (load_message, h, e, f) (λ k. absurd (cc (k, busy)))
            | inr f ↦
                rw (load_message, h, e, f)
                  (load_hour-IsConsistent from_slice wei_of in_range signers msg hourly seen busy)
          ]
    ]
  ]

  load_message-stays :
      (msg : AggregatedMessage) (self : Loader) (partition offset : ℕ)
      → self.progress ≡ loading
      → lookup partition self.latest_offsets ≡ some offset
      → (is_at partition offset msg && is_counted msg) ≡ false
      → lookup partition
          (load_message decode from_slice wei_of in_range signers cutoff msg self).latest_offsets
        ≡ some offset
  unfolding load_message
  load_message-stays msg self partition offset busy found other = elim (Option-cases msg.payload) [
    | inl h ↦ rw (load_message, h) found
    | inr (payload, h) ↦ elim (Option-cases (decode payload)) [
      | inl e ↦ rw (load_message, h, e) found
      | inr (hourly, e) ↦
          let seen = record self {
            latest_timestamp = max self.latest_timestamp hourly.timestamp;
          } in
          elim (Bool-cases (map_or cutoff false (ltb hourly.timestamp))) [
            | inl f ↦ rw (load_message, h, e, f) found
            | inr f ↦
                rw (load_message, h, e, f)
                  (load_hour-stays from_slice wei_of in_range signers msg hourly seen partition
                    offset busy found (ground (arith, other, h, e, f)))
          ]
    ]
  ]

  load_all-waits :
      (msgs : List AggregatedMessage) (self : Loader) (partition offset : ℕ)
      → IsConsistent self
      → lookup partition self.latest_offsets ≡ some offset
      → any (λ msg. is_at partition offset msg && is_counted msg) msgs ≡ false
      → (load_all decode from_slice wei_of in_range signers cutoff msgs self).progress ≡ finished
      → ⊥
  unfolding load_all
  load_all-waits [] self partition offset right found other = λ done.
      let empty : some offset ≡ none = sym found ∙ ap (λ m. lookup partition m) (right done) in
      absurd (cc empty)
  load_all-waits (msg ∷ msgs) self partition offset right found other =
      let empty : self.progress ≡ finished → some offset ≡ none =
        λ h. sym found ∙ ap (λ m. lookup partition m) (right h) in
      elim (progress_kind self.progress) [
        | inl h ↦
            rw (load_all, h)
              (load_all-waits msgs
                (load_message decode from_slice wei_of in_range signers cutoff msg self) partition
                offset (load_message-IsConsistent msg self h)
                (load_message-stays msg self partition offset h found (ground (arith, other)))
                (ground (arith, other)))
        | inr (inl h) ↦ absurd (cc (empty h))
        | inr (inr (inl h)) ↦ rw (load_all, h) (λ k. absurd (cc (k, h)))
        | inr (inr (inr (e, h))) ↦ rw (load_all, h) (λ k. absurd (cc (k, h)))
      ]

  -- Loading is finished only after the latest message of every partition, as it was at the start,
  -- has come, has a payload that decodes, and is not before the cutoff: a partition whose latest
  -- message is before the cutoff keeps the start waiting, whatever comes.
  pub load_all-finished :
      (latest_offsets : Map ℕ) (msgs : List AggregatedMessage) (partition offset : ℕ)
      → lookup partition latest_offsets ≡ some offset
      → (load_all decode from_slice wei_of in_range signers cutoff msgs
          (new_loader latest_offsets)).progress
        ≡ finished
      → any (λ msg. is_at partition offset msg && is_counted msg) msgs ≡ true
  load_all-finished latest_offsets msgs partition offset found done =
      elim (Bool-cases (any (λ msg. is_at partition offset msg && is_counted msg) msgs)) [
        | inl h ↦ h
        | inr h ↦ absurd (
            load_all-waits msgs (new_loader latest_offsets) partition offset finished-loading found
              h done)
      ]
