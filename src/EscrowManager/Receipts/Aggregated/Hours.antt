-- ===== src/EscrowManager/Receipts/Aggregated/Hours.antt =====
-- The hours of the aggregated fees (crates/bin/escrow_manager/src/kafka.rs: receipts::receipts).
use graph_tally.Prelude.{
  ℕ, ◌+◌, ◌-◌, ◌*◌, ◌/◌, ◌%◌, ◌≤◌, max, ◌≡◌, Bool, false, List, [], ◌∷◌, Option, none, some, ltb,
  ◌==◌, All, All-append, All-map, map_or, contains, arith, Bool-cases, Option-cases, inl, inr,
}
use graph_tally.Prelude.Maps.{Map, lookup}
use graph_tally.Message.{Address, Bytes}
use graph_tally.EscrowManager.Receipts.{Update, hourly_timestamp}
use graph_tally.EscrowManager.Receipts.Aggregated.{
  IndexerFees, IndexerFeesHourly, AggregatedMessage, Loader, new_loader, strike_off, send_fees,
  send_all_fees, load_hour, load_message, load_all, realtime_start,
}
use graph_tally.EscrowManager.Receipts.Aggregated.Offsets.{progress_kind}

-- From a time on, and up to the latest timestamp seen.
abbrev IsWithin : ℕ → Loader → Type 0
IsWithin low self =
    All (λ u. (low ≤ u.timestamp) × (u.timestamp ≤ self.latest_timestamp * 1000000)) self.updates

strike_off-IsWithin :
    (low partition offset : ℕ) (self : Loader)
    → IsWithin low self
    → IsWithin low (strike_off partition offset self)
unfolding strike_off
strike_off-IsWithin low partition offset self within =
    elim (Option-cases (lookup partition self.latest_offsets)) [
      | inl h ↦ rw (strike_off, h) within
      | inr (latest, h) ↦ elim (Bool-cases (latest == offset)) [
        | inl e ↦ rw (strike_off, h, e) within
        | inr e ↦ rw (strike_off, h, e) within
      ]
    ]

module _ {F : Type 0} (from_slice : Bytes → Option Address) (wei_of : F → ℕ) (in_range : ℕ → Bool)
    (signers : List Address) where
  send_fees-IsWithin :
      (low timestamp : ℕ) (fees : IndexerFees F) (self : Loader)
      → low ≤ timestamp * 1000000
      → timestamp ≤ self.latest_timestamp
      → IsWithin low self
      → IsWithin low (send_fees from_slice wei_of in_range signers timestamp fees self)
        × (timestamp
            ≤ (send_fees from_slice wei_of in_range signers timestamp fees self).latest_timestamp)
  unfolding send_fees
  send_fees-IsWithin low timestamp fees self above below within =
      elim (Option-cases (from_slice fees.signer)) [
        | inl h ↦ rw (send_fees, h) (within, below)
        | inr (signer, h) ↦ elim (Bool-cases (contains signers signer)) [
          | inl e ↦ elim (Bool-cases (in_range (timestamp / 1000))) [
            | inl f ↦ elim (Option-cases (from_slice fees.receiver)) [
              | inl g ↦ rw (send_fees, h, e, f, g) (within, below)
              | inr (receiver, g) ↦
                  rw (send_fees, h, e, f, g)
                    (
                      All-append
                          (λ (u : Update).
                            (low ≤ u.timestamp) × (u.timestamp ≤ self.latest_timestamp * 1000000))
                          self.updates _ within ((above, omega (arith, below)), tt),
                      below,
                    )
            ]
            | inr f ↦ rw (send_fees, h, e, f) (within, below)
          ]
          | inr e ↦ rw (send_fees, h, e) (within, below)
        ]
      ]

  send_all_fees-IsWithin :
      (low timestamp : ℕ) (fees : List (IndexerFees F)) (self : Loader)
      → low ≤ timestamp * 1000000
      → timestamp ≤ self.latest_timestamp
      → IsWithin low self
      → IsWithin low (send_all_fees from_slice wei_of in_range signers timestamp fees self)
  unfolding send_all_fees
  send_all_fees-IsWithin low timestamp [] self above below within = within
  send_all_fees-IsWithin low timestamp (one ∷ rest) self above below within =
      let after = send_fees from_slice wei_of in_range signers timestamp one self in
      let step = send_fees-IsWithin low timestamp one self above below within in
      elim (progress_kind after.progress) [
        | inl h ↦
            rw (send_all_fees, h)
              (send_all_fees-IsWithin low timestamp rest after above step.1 step.0)
        | inr (inl h) ↦ rw (send_all_fees, h) step.0
        | inr (inr (inl h)) ↦ rw (send_all_fees, h) step.0
        | inr (inr (inr (e, h))) ↦ rw (send_all_fees, h) step.0
      ]

  load_hour-IsWithin :
      (low : ℕ) (msg : AggregatedMessage) (hourly : IndexerFeesHourly F) (self : Loader)
      → low ≤ hourly.timestamp * 1000000
      → hourly.timestamp ≤ self.latest_timestamp
      → IsWithin low self
      → IsWithin low (load_hour from_slice wei_of in_range signers msg hourly self)
  load_hour-IsWithin low msg hourly self above below within =
      let sent =
        send_all_fees from_slice wei_of in_range signers hourly.timestamp hourly.aggregations
          self in
      let step =
        send_all_fees-IsWithin low hourly.timestamp hourly.aggregations self above below within in
      elim (progress_kind sent.progress) [
        | inl h ↦ rw (load_hour, h) (strike_off-IsWithin low msg.partition msg.offset sent step)
        | inr (inl h) ↦ rw (load_hour, h) step
        | inr (inr (inl h)) ↦ rw (load_hour, h) step
        | inr (inr (inr (e, h))) ↦ rw (load_hour, h) step
      ]

module _ {F : Type 0} (decode : Bytes → Option (IndexerFeesHourly F))
    (from_slice : Bytes → Option Address) (wei_of : F → ℕ) (in_range : ℕ → Bool)
    (signers : List Address) (cutoff : Option ℕ) where
  -- The cutoff in nanoseconds.
  abbrev pub cutoff_ns : ℕ
  cutoff_ns = map_or cutoff 0 (λ c. c * 1000000)

  load_message-IsWithin :
      (msg : AggregatedMessage) (self : Loader)
      → IsWithin cutoff_ns self
      → IsWithin cutoff_ns (load_message decode from_slice wei_of in_range signers cutoff msg self)
  unfolding load_message
  load_message-IsWithin msg self within = elim (Option-cases msg.payload) [
    | inl h ↦ rw (load_message, h) within
    | inr (payload, h) ↦ elim (Option-cases (decode payload)) [
      | inl e ↦ rw (load_message, h, e) within
      | inr (hourly, e) ↦
          let seen = record self {
            latest_timestamp = max self.latest_timestamp hourly.timestamp;
          } in
          let still : IsWithin cutoff_ns seen =
            All-map (λ (u : Update) w. (w.0, omega (arith, w.1))) self.updates within in
          elim (Bool-cases (map_or cutoff false (ltb hourly.timestamp))) [
            | inl f ↦ rw (load_message, h, e, f) still
            | inr f ↦
                rw (load_message, h, e, f)
                  (load_hour-IsWithin from_slice wei_of in_range signers cutoff_ns msg hourly seen
                    (reached cutoff hourly.timestamp f) (omega arith) still)
          ]
    ]
  ]
    where
      reached :
          (c : Option ℕ) (t : ℕ)
          → map_or c false (ltb t) ≡ false
          → map_or c 0 (λ n. n * 1000000) ≤ t * 1000000
      reached none t h = omega arith
      reached (some n) t h = ground (arith, h)

  load_all-IsWithin :
      (msgs : List AggregatedMessage) (self : Loader)
      → IsWithin cutoff_ns self
      → IsWithin cutoff_ns (load_all decode from_slice wei_of in_range signers cutoff msgs self)
  unfolding load_all
  load_all-IsWithin [] self within = within
  load_all-IsWithin (msg ∷ msgs) self within = elim (progress_kind self.progress) [
    | inl h ↦
        rw (load_all, h)
          (load_all-IsWithin msgs
            (load_message decode from_slice wei_of in_range signers cutoff msg self)
            (load_message-IsWithin msg self within))
    | inr (inl h) ↦ rw (load_all, h) within
    | inr (inr (inl h)) ↦ rw (load_all, h) within
    | inr (inr (inr (e, h))) ↦ rw (load_all, h) within
  ]

  -- However the loading ends, its updates are not before the cutoff, and their hours end before
  -- the hour of any message that the realtime topic is read for: no hour is counted from both.
  pub load_all-hours :
      (latest_offsets : Map ℕ) (msgs : List AggregatedMessage) (t : ℕ)
      → realtime_start (
          load_all decode from_slice wei_of in_range signers cutoff msgs
            (new_loader latest_offsets))
        ≤ t
      → All
          (λ u.
            (cutoff_ns ≤ u.timestamp)
            × (hourly_timestamp u.timestamp + 3600 ≤ t / 1000 - t / 1000 % 3600))
          (load_all decode from_slice wei_of in_range signers cutoff msgs
            (new_loader latest_offsets)).updates
  unfolding hourly_timestamp
  load_all-hours latest_offsets msgs t start =
      let loaded =
        load_all decode from_slice wei_of in_range signers cutoff msgs
          (new_loader latest_offsets) in
      All-map (λ (u : Update) w. (w.0, earlier u.timestamp loaded.latest_timestamp w.1 start))
        loaded.updates (load_all-IsWithin msgs (new_loader latest_offsets) tt)
    where
      earlier :
          (s latest : ℕ)
          → s ≤ latest * 1000000
          → latest + 3600000 ≤ t
          → hourly_timestamp s + 3600 ≤ t / 1000 - t / 1000 % 3600
      earlier s latest below start = omega arith
