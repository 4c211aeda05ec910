-- ===== src/EscrowManager/Receipts/Messages/Counted.antt =====
-- The fees that a run of messages adds for an indexer
-- (crates/bin/escrow_manager/src/kafka.rs: receipts::process_messages).
use graph_tally.Prelude.{
  ℕ, ◌-◌, ◌/◌, ◌%◌, ◌≡◌, refl, sym, Bool, false, List, [], ◌∷◌, Option, if◌then◌else◌, ltb, ◌==◌,
  contains, map_or, sum_of, arith, Bool-cases, Option-cases, inl, inr,
}
use graph_tally.Message.{Address, Bytes}
use graph_tally.EscrowManager.Receipts.{hourly_timestamp}
use graph_tally.EscrowManager.Receipts.Task.Kept.{fees_after, fees_after-append}
use graph_tally.EscrowManager.Receipts.Messages.{
  IndexerQuery, ClientQuery, QueryMessage, timestamp_of, send_queries, process_message, consume,
}

-- The hour that a message counts for, in seconds.
abbrev pub hour_of : (ℕ → Bool) → QueryMessage → ℕ
hour_of in_range msg =
    map_or msg.timestamp (hourly_timestamp msg.clock)
      (λ t. if in_range (t / 1000) then t / 1000 - t / 1000 % 3600 else hourly_timestamp msg.clock)

hourly-timestamp_of :
    (in_range : ℕ → Bool) (msg : QueryMessage)
    → hourly_timestamp (timestamp_of in_range msg) ≡ hour_of in_range msg
unfolding hourly_timestamp
hourly-timestamp_of in_range msg = elim (Option-cases msg.timestamp) [
  | inl h ↦ rw h refl
  | inr (t, h) ↦ elim (Bool-cases (in_range (t / 1000))) [
    | inl e ↦ rw (h, e) (omega arith)
    | inr e ↦ rw (h, e) refl
  ]
]

module _ {F : Type 0} (from_slice : Bytes → Option Address) (wei_of : F → ℕ) where
  -- The fees of some queries for an indexer.
  abbrev pub query_fees : Address → List (IndexerQuery F) → ℕ
  query_fees a queries =
      sum_of
        (λ q. if map_or (from_slice q.indexer) false (λ b. b == a) then wei_of q.fee_grt else 0)
        queries

  queries-counted :
      (timestamp cut : ℕ) (a : Address) (queries : List (IndexerQuery F))
      → (send_queries from_slice wei_of timestamp queries).panicked ≡ false
      → fees_after cut a (send_queries from_slice wei_of timestamp queries).updates
        ≡ (if ltb cut (hourly_timestamp timestamp) then query_fees a queries else 0)
  unfolding send_queries
  queries-counted timestamp cut a [] h = ground arith
  queries-counted timestamp cut a (query ∷ queries) h =
      ground (arith, h, queries-counted timestamp cut a queries)

module _ {F : Type 0} (decode : Bytes → Option (ClientQuery F))
    (from_slice : Bytes → Option Address) (wei_of : F → ℕ) (signers : List Address)
    (a : Address) where
  -- What a payload adds: its fees, where it decodes and its signer is accepted.
  abbrev pub payload_fees : Option Bytes → ℕ
  payload_fees payload = map_or payload 0 (λ bytes. map_or (decode bytes) 0 (λ query.
      if map_or (from_slice query.receipt_signer) false (contains signers)
      then query_fees from_slice wei_of a query.indexer_queries
      else 0))

  abbrev pub message_fees : (ℕ → Bool) → ℕ → List QueryMessage → ℕ
  message_fees in_range cut =
      sum_of (λ msg. if ltb cut (hour_of in_range msg) then payload_fees msg.payload else 0)

  message-counted :
      (in_range : ℕ → Bool) (cut : ℕ) (msg : QueryMessage)
      → (process_message decode from_slice wei_of in_range signers msg).panicked ≡ false
      → fees_after cut a (process_message decode from_slice wei_of in_range signers msg).updates
        ≡ (if ltb cut (hour_of in_range msg) then payload_fees msg.payload else 0)
  unfolding process_message
  message-counted in_range cut msg = elim (Option-cases msg.payload) [
    | inl h ↦ rw h (λ _. ground arith)
    | inr (payload, h) ↦ elim (Option-cases (decode payload)) [
      | inl e ↦ rw (h, process_message, e) (λ _. ground arith)
      | inr (query, e) ↦ elim (Option-cases (from_slice query.receipt_signer)) [
        | inl f ↦ rw (h, process_message, e, f) (λ panics. absurd (cc panics))
        | inr (signer, f) ↦ elim (Bool-cases (contains signers signer)) [
          | inl accepted ↦
              rw (h, process_message, e, f, accepted, sym (hourly-timestamp_of in_range msg))
                (queries-counted from_slice wei_of (timestamp_of in_range msg) cut a
                  query.indexer_queries)
          | inr other ↦ rw (h, process_message, e, f, other) (λ _. ground arith)
        ]
      ]
    ]
  ]

  pub consume-counted :
      (in_range : ℕ → Bool) (cut : ℕ) (msgs : List QueryMessage)
      → (consume decode from_slice wei_of in_range signers msgs).panicked ≡ false
      → fees_after cut a (consume decode from_slice wei_of in_range signers msgs).updates
        ≡ message_fees in_range cut msgs
  unfolding consume
  consume-counted in_range cut [] = λ _. refl
  consume-counted in_range cut (msg ∷ msgs) =
      let first = process_message decode from_slice wei_of in_range signers msg in
      let rest = consume decode from_slice wei_of in_range signers msgs in
      elim (Bool-cases first.panicked) [
        | inl h ↦ rw h (λ same. absurd (cc (same, h)))
        | inr h ↦ rw h (λ fine.
            rw
              (
                fees_after-append cut a first.updates rest.updates,
                message-counted in_range cut msg h,
                consume-counted in_range cut msgs fine,
              )
              refl)
      ]
