-- ===== src/Aggregator/Kafka.antt =====
-- The records that the server produces to Kafka (crates/bin/aggregator/src/server.rs:
-- produce_kafka_records).
use graph_tally.Prelude.{ℕ, Bool, List, [], ◌∷◌, ◌++◌, some, if◌then◌else◌}
use graph_tally.Prelude.Words.{add_u64}
use graph_tally.Prelude.Decimal.{to_decimal}
use graph_tally.Message.{Address, FixedBytes}
use graph_tally.EscrowManager.Ravs.Parse.{Texts, KafkaMessage}

abbrev pub kafka_record : Texts → Address × FixedBytes × ℕ → KafkaMessage
kafka_record texts (sender, key_fragment, aggregated_value) = record {
  key = some (texts.print_address sender ++ b':' ∷ texts.print_word key_fragment);
  payload = some (to_decimal aggregated_value);
}

-- The topic gateway_ravs, and the counters of publications.
pub record Published : Type 0 where
  pub gateway_ravs : List KafkaMessage
  pub kafka_publish_success_total : ℕ
  pub kafka_publish_failure_total : ℕ

-- `accepted` is the producer's answer.
unfoldable pub produce_kafka_records :
    Texts → Bool → Address × FixedBytes × ℕ → Published → Published
produce_kafka_records texts accepted voucher self =
    if accepted
    then record self {
      gateway_ravs = self.gateway_ravs ++ kafka_record texts voucher ∷ [];
      kafka_publish_success_total = add_u64 self.kafka_publish_success_total 1;
    }
    else record self { kafka_publish_failure_total = add_u64 self.kafka_publish_failure_total 1 }
