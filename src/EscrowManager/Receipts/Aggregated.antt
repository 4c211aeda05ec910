-- ===== src/EscrowManager/Receipts/Aggregated.antt =====
-- Loading the aggregated fees at the start (crates/bin/escrow_manager/src/kafka.rs:
-- receipts::receipts). The decoder, the addresses of 20 bytes, and the conversion of a fee to wei
-- are parameters; offsets and times are those from 0 on.
pub mod Finished
pub mod Hours
pub mod Offsets
use graph_tally.Prelude.{
  ℕ, ◌+◌, ◌*◌, ◌/◌, ◌%◌, max, Bool, true, false, List, [], ◌∷◌, ◌++◌, Option, none, some,
  if◌then◌else◌, ltb, ◌==◌, contains, map_or,
}
use graph_tally.Prelude.Maps.{Map, lookup, remove}
use graph_tally.Message.{Address, Bytes}
use graph_tally.EscrowManager.Receipts.{Update}

-- `IndexerFeesProtobuf` and `IndexerFeesHourlyProtobuf`; fees are of type `F`.
pub record IndexerFees (F : Type 0) : Type 0 where
  pub signer : Bytes
  pub receiver : Bytes
  pub fee_grt : F

pub record IndexerFeesHourly (F : Type 0) : Type 0 where
  pub timestamp : ℕ
  pub aggregations : List (IndexerFees F)

-- A message of the stream, its partition named by a number.
pub record AggregatedMessage : Type 0 where
  pub partition : ℕ
  pub offset : ℕ
  pub payload : Option Bytes

-- What ends the loading.
pub data LoadError : Type 0 where
  missing_payload undecodable out_of_range : LoadError

pub data Progress : Type 0 where
  loading finished panicked : Progress
  failed : LoadError → Progress

-- The variables of the loop, with the updates that were sent to the fee table.
pub record Loader : Type 0 where
  pub latest_offsets : Map ℕ
  pub latest_timestamp : ℕ
  pub updates : List Update
  pub progress : Progress

abbrev pub new_loader : Map ℕ → Loader
new_loader latest_offsets = record {
  latest_offsets = latest_offsets;
  latest_timestamp = 0;
  updates = [];
  progress = loading;
}

-- The loop is left once every partition's latest message has been read.
abbrev pub progress_of : Map ℕ → Progress
progress_of [] = finished
progress_of (_ ∷ _) = loading

-- The last test of the loop's body: `unwrap` panics on a partition that is not, or no longer, in
-- the map.
unfoldable pub strike_off : ℕ → ℕ → Loader → Loader
strike_off partition offset self = elim (lookup partition self.latest_offsets) [
  | none ↦ record self { progress = panicked }
  | some latest ↦
      if latest == offset
      then (let rest = remove partition self.latest_offsets in
          record self { latest_offsets = rest; progress = progress_of rest })
      else self
]

module _ {F : Type 0} (from_slice : Bytes → Option Address) (wei_of : F → ℕ) (in_range : ℕ → Bool)
    (signers : List Address) where
  -- One aggregation.
  unfoldable pub send_fees : ℕ → IndexerFees F → Loader → Loader
  send_fees timestamp fees self = elim (from_slice fees.signer) [
    | none ↦ record self { progress = panicked }
    | some signer ↦
        if contains signers signer
        then if in_range (timestamp / 1000)
          then elim (from_slice fees.receiver) [
            | none ↦ record self { progress = panicked }
            | some receiver ↦ record self {
              updates =
                  self.updates
                  ++ record {
                    timestamp = timestamp * 1000000;
                    indexer = receiver;
                    fee = wei_of fees.fee_grt;
                  }
                    ∷ [];
            }
          ]
          else record self { progress = failed out_of_range }
        else self
  ]

  -- The loop over the aggregations, which a failure ends.
  unfoldable pub send_all_fees : ℕ → List (IndexerFees F) → Loader → Loader
  unfolding send_fees
  send_all_fees timestamp [] self = self
  send_all_fees timestamp (fees ∷ rest) self = elim (send_fees timestamp fees self).progress [
    | loading ↦ send_all_fees timestamp rest (send_fees timestamp fees self)
    | finished ↦ send_fees timestamp fees self
    | panicked ↦ send_fees timestamp fees self
    | failed _ ↦ send_fees timestamp fees self
  ]

  -- What follows the cutoff.
  abbrev pub load_hour : AggregatedMessage → IndexerFeesHourly F → Loader → Loader
  load_hour msg hourly self =
      let sent = send_all_fees hourly.timestamp hourly.aggregations self in
      elim sent.progress [
        | loading ↦ strike_off msg.partition msg.offset sent
        | finished ↦ sent
        | panicked ↦ sent
        | failed _ ↦ sent
      ]

module _ {F : Type 0} (decode : Bytes → Option (IndexerFeesHourly F))
    (from_slice : Bytes → Option Address) (wei_of : F → ℕ) (in_range : ℕ → Bool)
    (signers : List Address) (cutoff : Option ℕ) where
  -- The loop's body; before the cutoff the next message is read at once.
  unfoldable pub load_message : AggregatedMessage → Loader → Loader
  unfolding send_all_fees strike_off
  load_message msg self = elim msg.payload [
    | none ↦ record self { progress = failed missing_payload }
    | some payload ↦ elim (decode payload) [
      | none ↦ record self { progress = failed undecodable }
      | some hourly ↦
          let seen = record self {
            latest_timestamp = max self.latest_timestamp hourly.timestamp;
          } in
          if map_or cutoff false (ltb hourly.timestamp)
          then seen
          else load_hour from_slice wei_of in_range signers msg hourly seen
    ]
  ]

  -- The messages that have come so far.
  unfoldable pub load_all : List AggregatedMessage → Loader → Loader
  unfolding load_message
  load_all [] self = self
  load_all (msg ∷ msgs) self = elim self.progress [
    | loading ↦ load_all msgs (load_message msg self)
    | finished ↦ self
    | panicked ↦ self
    | failed _ ↦ self
  ]

-- From where the realtime topic is read, in milliseconds. The source adds on `i64`: a time within
-- an hour of its end would wrap there, and times before 0 are left out.
abbrev pub realtime_start : Loader → ℕ
realtime_start self = self.latest_timestamp + 3600000
