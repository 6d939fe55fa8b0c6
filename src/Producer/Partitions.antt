-- ===== src/Producer/Partitions.antt =====
-- Every event of an agency goes to the same partition, which exists.
use native.Mathlib.Nat.{mod-lt}
use highthroughputingestion.Base.{ℕ, ◌<◌, ◌≡◌, String, All, arith}
use highthroughputingestion.Base.{Option-cases, inl, inr, returned}
use highthroughputingestion.Runtime.{Runtime}
use highthroughputingestion.Producer.{
  hash_key_to_partition, EventPayload, Message, EventProducer, Answer, refused, metadata, future,
  send_audit_event, deliver, num_partitions, BrokerMeta,
}

-- With at least one partition, the assigned number is one of them, whichever hash is installed.
pub hash_key_to_partition-lt :
    (rt : Runtime) (key : String) (n : ℕ) → 0 < n → hash_key_to_partition rt key n < n
unfolding hash_key_to_partition
hash_key_to_partition-lt rt key n h = elim (Option-cases rt.mmh3) [
  | inl absent ↦ rw absent (mod-lt _ h)
  | inr (hash, present) ↦ rw present (mod-lt _ h)
]

-- A message lies in the partition of the agency that its body names, and its key is that agency.
abbrev pub IsRouted : Runtime → Message → Type 0
IsRouted rt m =
    (m.partition ≡ hash_key_to_partition rt m.value.agency_id num_partitions)
    × (m.key ≡ rt.encode m.value.agency_id)

-- Sending an event whose body names its agency keeps every message of the log routed, and the
-- caller is told the partition of the agency.
pub send_audit_event-IsRouted :
    (rt : Runtime) (payload : EventPayload) (topic : String) (answer : Answer) (p : EventProducer)
    → All (IsRouted rt) p.log
    → All (IsRouted rt) (send_audit_event rt payload.agency_id payload topic answer p).1.log
unfolding send_audit_event deliver
send_audit_event-IsRouted rt payload topic refused p routed = ground arith
send_audit_event-IsRouted rt payload topic (metadata offset) p routed = ground arith
send_audit_event-IsRouted rt payload topic (future offset) p routed = ground arith

-- The caller is told the partition of the agency, connected or not, unless the broker raises.
pub send_audit_event-partition :
    (rt : Runtime) (agency : String) (payload : EventPayload) (topic : String) (answer : Answer)
    (p p' : EventProducer) (told : BrokerMeta)
    → send_audit_event rt agency payload topic answer p ≡ (returned told, p')
    → told.partition ≡ hash_key_to_partition rt agency num_partitions
unfolding send_audit_event deliver
send_audit_event-partition rt agency payload topic refused p p' told e = ground arith
send_audit_event-partition rt agency payload topic (metadata offset) p p' told e = ground arith
send_audit_event-partition rt agency payload topic (future offset) p p' told e = ground arith
