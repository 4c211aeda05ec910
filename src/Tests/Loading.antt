-- ===== src/Tests/Loading.antt =====
-- The fees of the queries, of both topics.
use graph_tally.Prelude.{
  ℕ, ◌+◌, ◌-◌, ◌*◌, ◌/◌, ◌%◌, ◌≤◌, ◌≡◌, refl, Bool, true, false, ◌&&◌, List, [], ◌∷◌, ◌++◌, Option,
  none, some, All, any, leb, arith,
}
use mathlib.Core.List.{Perm, Permᴰ}
use graph_tally.Prelude.Words.{u128_mod}
use graph_tally.Message.{Address, Bytes}
use graph_tally.EscrowManager.Receipts.{second_ns, Update, hourly_timestamp}
use graph_tally.EscrowManager.Receipts.Window.{shown}
use graph_tally.EscrowManager.Receipts.Task.{spawn, receive, receive_all}
use graph_tally.EscrowManager.Receipts.Task.Kept.{fees_after}
use graph_tally.EscrowManager.Receipts.Task.Shown.{received, receive_all-shown}
use graph_tally.EscrowManager.Receipts.Messages.{ClientQuery, QueryMessage, consume}
use graph_tally.EscrowManager.Receipts.Messages.Counted.{message_fees}
use graph_tally.EscrowManager.Receipts.Messages.Debts.{consume-shown}
use graph_tally.EscrowManager.Receipts.Aggregated.{
  IndexerFeesHourly, AggregatedMessage, new_loader, finished, load_all, realtime_start,
}
use graph_tally.EscrowManager.Receipts.Aggregated.Offsets.{is_at}
use graph_tally.EscrowManager.Receipts.Aggregated.Finished.{is_counted, load_all-finished}
use graph_tally.EscrowManager.Receipts.Aggregated.Hours.{cutoff_ns, load_all-hours}

abbrev one_byte : Bytes → Option Address
one_byte [] = none
one_byte (a ∷ []) = some a
one_byte (_ ∷ _ ∷ _) = none

abbrev decode_query : Bytes → Option (ClientQuery ℕ)
decode_query (signer ∷ indexer ∷ fee ∷ []) = some (record {
  receipt_signer = signer ∷ [];
  indexer_queries = (record { indexer = indexer ∷ []; fee_grt = fee }) ∷ [];
})
decode_query _ = none

abbrev always : ℕ → Bool
always _ = true

abbrev in_wei : ℕ → ℕ
in_wei fee = fee * 1000000000000000000

abbrev accepted_signers : List Address
accepted_signers = 1 ∷ []

abbrev query_messages : List QueryMessage
query_messages =
    (record { payload = some (1 ∷ 4 ∷ 50 ∷ []); timestamp = some 7201500; clock = 7202000000000 })
    ∷ (record { payload = some (1 ∷ 4 ∷ 7 ∷ []); timestamp = none; clock = 7202000000000 })
    ∷ (record { payload = some (2 ∷ 4 ∷ 9 ∷ []); timestamp = some 7201500; clock = 7202000000000 })
    ∷ []

abbrev first_update : Update
first_update = record { timestamp = 7201000500000; indexer = 4; fee = 50000000000000000000 }

abbrev second_update : Update
second_update = record { timestamp = 7202000000000; indexer = 4; fee = 7000000000000000000 }

abbrev rounds : List (ℕ × List Update)
rounds = (7200500000000, second_update ∷ []) ∷ []

abbrev buffer : List Update
buffer = first_update ∷ []

consumed :
    (consume decode_query one_byte in_wei always accepted_signers query_messages).panicked ≡ false
unfolding consume
consumed = refl

swapped :
    Perm
      (received rounds ++ buffer)
      (consume decode_query one_byte in_wei always accepted_signers query_messages).updates
unfolding consume
swapped = ∣ Permᴰ.swap refl refl ∣₁

due :
    leb
      ((receive_all rounds (spawn 3600000000000 7200000000000)).last_snapshot + second_ns)
      7203000000000
    ≡ true
unfolding receive_all
due = refl

receive_all-shown_example :
    shown 4
      (receive buffer 7203000000000 (receive_all rounds (spawn 3600000000000 7200000000000))).db
    ≡ fees_after (hourly_timestamp 3603000000000) 4 (received rounds ++ buffer) % u128_mod
receive_all-shown_example =
    (receive_all-shown rounds 3600000000000 7200000000000 7203000000000 buffer 4
      (omega arith, (omega arith, tt)) due).1

consume-shown_example :
    shown 4
      (receive buffer 7203000000000 (receive_all rounds (spawn 3600000000000 7200000000000))).db
    ≡ message_fees decode_query one_byte in_wei accepted_signers 4 always
        (hourly_timestamp 3603000000000)
        query_messages
      % u128_mod
consume-shown_example =
    (consume-shown decode_query one_byte in_wei always accepted_signers query_messages rounds
      3600000000000 7200000000000 7203000000000 buffer 4 consumed swapped
      (omega arith, (omega arith, tt)) due).1

-- The value that it shows: 57 GRT.
shows :
    message_fees decode_query one_byte in_wei accepted_signers 4 always
      (hourly_timestamp 3603000000000)
      query_messages
    ≡ 57000000000000000000
unfolding hourly_timestamp
shows = refl

abbrev decode_hourly : Bytes → Option (IndexerFeesHourly ℕ)
decode_hourly (hour ∷ signer ∷ receiver ∷ fee ∷ []) = some (record {
  timestamp = hour * 3600000;
  aggregations = (record { signer = signer ∷ []; receiver = receiver ∷ []; fee_grt = fee }) ∷ [];
})
decode_hourly _ = none

abbrev hours : List AggregatedMessage
hours =
    (record { partition = 0; offset = 5; payload = some (2 ∷ 1 ∷ 4 ∷ 3 ∷ []) })
    ∷ (record { partition = 1; offset = 8; payload = some (3 ∷ 1 ∷ 6 ∷ 2 ∷ []) })
    ∷ []

abbrev latest_offsets : List (ℕ × ℕ)
latest_offsets = (0, 5) ∷ (1, 8) ∷ []

loaded :
    (load_all decode_hourly one_byte in_wei always accepted_signers
      (some 7200000)
      hours
      (new_loader latest_offsets)).progress
    ≡ finished
unfolding load_all
loaded = refl

load_all-finished_example :
    any
      (λ msg.
        is_at 1 8 msg
        && is_counted decode_hourly one_byte in_wei always accepted_signers (some 7200000) msg)
      hours
    ≡ true
load_all-finished_example =
    load_all-finished decode_hourly one_byte in_wei always accepted_signers (some 7200000)
      latest_offsets hours 1 8 refl loaded

started :
    realtime_start (
      load_all decode_hourly one_byte in_wei always accepted_signers
        (some 7200000)
        hours
        (new_loader latest_offsets))
    ≤ 14400000
unfolding load_all
started = omega arith

load_all-hours_example :
    All
      (λ u.
        (cutoff_ns decode_hourly one_byte in_wei always accepted_signers (some 7200000)
          ≤ u.timestamp)
        × (hourly_timestamp u.timestamp + 3600 ≤ 14400000 / 1000 - 14400000 / 1000 % 3600))
      (load_all decode_hourly one_byte in_wei always accepted_signers
        (some 7200000)
        hours
        (new_loader latest_offsets)).updates
load_all-hours_example =
    load_all-hours decode_hourly one_byte in_wei always accepted_signers (some 7200000)
      latest_offsets hours 14400000 started
