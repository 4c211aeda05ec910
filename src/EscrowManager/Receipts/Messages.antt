-- ===== src/EscrowManager/Receipts/Messages.antt =====
-- The messages of the queries (crates/bin/escrow_manager/src/kafka.rs: receipts::process_messages).
-- The decoder, the addresses of 20 bytes, and the conversion of a fee in GRT, a floating-point
-- number, to wei are parameters.
pub mod Counted
pub mod Debts
use graph_tally.Prelude.{
  ℕ, ◌+◌, ◌*◌, ◌/◌, ◌%◌, Bool, true, false, List, [], ◌∷◌, ◌++◌, Option, none, some, if◌then◌else◌,
  contains, map_or,
}
use graph_tally.Message.{Address, Bytes}
use graph_tally.EscrowManager.Receipts.{second_ns, Update}

-- `IndexerQueryProtobuf` and `ClientQueryProtobuf`; fees are of type `F`.
pub record IndexerQuery (F : Type 0) : Type 0 where
  pub indexer : Bytes
  pub fee_grt : F

pub record ClientQuery (F : Type 0) : Type 0 where
  pub receipt_signer : Bytes
  pub indexer_queries : List (IndexerQuery F)

-- A message that was received, with its timestamp in milliseconds where it has one, and the clock
-- when it is processed.
pub record QueryMessage : Type 0 where
  pub payload : Option Bytes
  pub timestamp : Option ℕ
  pub clock : ℕ

-- The updates that were sent to the fee table, and whether the task has panicked since.
pub record Consumed : Type 0 where
  pub updates : List Update
  pub panicked : Bool

-- `in_range` is of the seconds that `DateTime` can hold. The milliseconds below a second are
-- multiplied as in the source.
abbrev pub timestamp_of : (ℕ → Bool) → QueryMessage → ℕ
timestamp_of in_range msg =
    map_or msg.timestamp msg.clock
      (λ t. if in_range (t / 1000) then t / 1000 * second_ns + t % 1000 * 1000 else msg.clock)

module _ {F : Type 0} (from_slice : Bytes → Option Address) (wei_of : F → ℕ) where
  -- The queries of a message, one update each.
  unfoldable pub send_queries : ℕ → List (IndexerQuery F) → Consumed
  send_queries timestamp [] = record { updates = []; panicked = false }
  send_queries timestamp (query ∷ queries) =
      let rest = send_queries timestamp queries in
      elim (from_slice query.indexer) [
        | none ↦ record { updates = []; panicked = true }
        | some indexer ↦ record {
          updates =
              (record { timestamp = timestamp; indexer = indexer; fee = wei_of query.fee_grt })
              ∷ rest.updates;
          panicked = rest.panicked;
        }
      ]

module _ {F : Type 0} (decode : Bytes → Option (ClientQuery F))
    (from_slice : Bytes → Option Address) (wei_of : F → ℕ) (in_range : ℕ → Bool)
    (signers : List Address) where
  unfoldable pub process_message : QueryMessage → Consumed
  unfolding send_queries
  process_message msg = elim msg.payload [
    | none ↦ record { updates = []; panicked = false }
    | some payload ↦ elim (decode payload) [
      | none ↦ record { updates = []; panicked = false }
      | some query ↦ elim (from_slice query.receipt_signer) [
        | none ↦ record { updates = []; panicked = true }
        | some signer ↦
            if contains signers signer
            then send_queries from_slice wei_of (timestamp_of in_range msg) query.indexer_queries
            else record { updates = []; panicked = false }
      ]
    ]
  ]

  -- The messages one after another, up to a panic; errors of the consumer are left out.
  unfoldable pub consume : List QueryMessage → Consumed
  unfolding process_message
  consume [] = record { updates = []; panicked = false }
  consume (msg ∷ msgs) =
      let first = process_message msg in
      let rest = consume msgs in
      if first.panicked
      then first
      else record { updates = first.updates ++ rest.updates; panicked = rest.panicked }
