-- ===== src/Producer/Tests.antt =====
-- A concrete run of the producer.
use highthroughputingestion.Base.{◌≡◌, refl, pos, true, none, [], returned}
use highthroughputingestion.Producer.{
  hash_key_to_partition, EventPayload, EventProducer, BrokerMeta, send_audit_event, deliver,
  num_partitions, buffered, metadata,
}
use highthroughputingestion.Samples.{sample_runtime}

abbrev payload : EventPayload
payload = record {
  job_id = "id-1";
  agency_id = "agency";
  audit_type = "ISO_27001";
  report_year = pos 2026;
  auditor_org = "org";
  sha256_checksum = "9f86";
  storage_path = "documents/9f86.bin";
  file_size_bytes = 3;
  object_key = "documents/9f86.bin";
  sequence_number = 1;
  ingested_at = 10;
  sharding = none;
}

abbrev producer : EventProducer
producer = record { connected = true; log = [] }

abbrev told : BrokerMeta
told = record {
  topic = "audit-reports-ingest";
  partition = hash_key_to_partition sample_runtime "agency" num_partitions;
  offset = pos 5;
  status = buffered;
}

abbrev sent : EventProducer
sent =
    (send_audit_event sample_runtime "agency" payload "audit-reports-ingest" (metadata (pos 5))
      producer).1

sends :
    send_audit_event sample_runtime "agency" payload "audit-reports-ingest"
      (metadata (pos 5))
      producer
    ≡ (returned told, sent)
unfolding send_audit_event deliver
sends = refl
