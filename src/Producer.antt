-- ===== src/Producer.antt =====
-- api/src/producer.py: the partition of an agency, and the events sent to Kafka. The broker is the
-- list of the messages that it has taken, the newest first.
pub mod Partitions
mod Tests
use Prim.Native.Nat.{bit_and}
use highthroughputingestion.Base.{
  ℕ, ℤ, negsuc, abs, ◌%◌, Bool, true, false, Option, none, some, String, List, [], ◌∷◌,
}
use highthroughputingestion.Base.{
  Exec, Error, broker_error, attribute_error, returned, raised, if◌then◌else◌,
}
use highthroughputingestion.Runtime.{Runtime}

-- Settings.KAFKA_NUM_PARTITIONS
abbrev pub num_partitions : ℕ
num_partitions = 16

abbrev pub topic_ingest : String
topic_ingest = "audit-reports-ingest"

-- The first definition if `mmh3` can be imported, and the second one if not.
unfoldable pub hash_key_to_partition : Runtime → String → ℕ → ℕ
hash_key_to_partition rt key n = elim rt.mmh3 [
  | some hash ↦ abs (hash key) % n
  | none ↦ bit_and (rt.crc32 (rt.encode key)) 0xFFFFFFFF % n
]

pub record Sharding : Type 0 where
  pub routing_key : String
  pub partition : ℕ
  pub total_partitions : ℕ

-- The dict of an audit event; `sharding` is added when it is sent.
pub record EventPayload : Type 0 where
  pub job_id : String
  pub agency_id : String
  pub audit_type : String
  pub report_year : ℤ
  pub auditor_org : String
  pub sha256_checksum : String
  pub storage_path : String
  pub file_size_bytes : ℕ
  pub object_key : String
  pub sequence_number : ℕ
  pub ingested_at : ℕ
  pub sharding : Option Sharding

pub record Message : Type 0 where
  pub topic : String
  pub partition : ℕ
  pub key : List ℕ
  pub value : EventPayload
  pub offset : ℤ

pub data BrokerStatus : Type 0 where
  buffered mock_produced : BrokerStatus

pub record BrokerMeta : Type 0 where
  pub topic : String
  pub partition : ℕ
  pub offset : ℤ
  pub status : BrokerStatus

-- The connection, and the messages that the broker has taken.
pub record EventProducer : Type 0 where
  pub connected : Bool
  pub log : List Message

-- What `await self.producer.send(...)` does: it raises; or it hands the message over and returns a
-- value with the fields of `RecordMetadata`; or it returns a future, which has no such fields.
pub data Answer : Type 0 where
  refused : Answer
  metadata : ℤ → Answer
  future : ℤ → Answer

-- `start`: the connection succeeds or not.
unfoldable pub start : Bool → EventProducer → EventProducer
start reached p = record p { connected = reached }

-- `stop`: closing the connection succeeds, or raises and leaves the flag.
unfoldable pub stop : Bool → Exec EventProducer (Unit {0})
stop closed p =
    if p.connected
    then (if closed
        then (returned tt, record p { connected = false })
        else (raised broker_error, p))
    else (returned tt, p)

unfoldable pub deliver : Message → Answer → Exec EventProducer BrokerMeta
deliver m refused p = (raised broker_error, p)
deliver m (future offset) p =
    (raised attribute_error, record p { log = record m { offset = offset } ∷ p.log })
deliver m (metadata offset) p = (
  returned
      (record { topic = m.topic; partition = m.partition; offset = offset; status = buffered }),
  record p { log = record m { offset = offset } ∷ p.log },
)

unfoldable pub send_audit_event :
    Runtime → String → EventPayload → String → Answer → Exec EventProducer BrokerMeta
unfolding deliver
send_audit_event rt agency_id payload topic answer p =
    let partition = hash_key_to_partition rt agency_id num_partitions in
    let sharding : Sharding = record {
      routing_key = agency_id;
      partition = partition;
      total_partitions = num_partitions;
    } in
    if p.connected
    then deliver
        (record {
          topic = topic;
          partition = partition;
          key = rt.encode agency_id;
          value = record payload { sharding = some sharding };
          offset = negsuc 0;
        })
        answer p
    else (
      returned (record {
        topic = topic;
        partition = partition;
        offset = negsuc 0;
        status = mock_produced;
      }),
      p,
    )
