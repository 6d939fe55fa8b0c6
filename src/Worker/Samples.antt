-- ===== src/Worker/Samples.antt =====
-- Concrete values for the tests of the worker: a message, a consumer, and what a record meets.
use highthroughputingestion.Base.{pos, true, false, none, some}
use highthroughputingestion.Float.Fixed.{fixed}
use highthroughputingestion.Worker.Processor.{Payload, Processor, Conditions}
use highthroughputingestion.Worker.Consumer.{Consumer, Visit, Record, dict, idle}
use highthroughputingestion.Samples.{sample_repository}

abbrev pub good : Conditions
good = record {
  worker_id = "worker-01";
  topic_ingest = "audit-reports-ingest";
  started_at = 5000;
  completed_at = 55000;
  now = 55000;
  describe = λ e. "failed";
  completed_ok = true;
  started_ok = true;
  started_event_ok = true;
  saved_ok = true;
  saved_event_ok = true;
  retry_ok = true;
  retry_event_ok = true;
  failed_ok = true;
  failed_event_ok = true;
}

-- The transaction of the result fails.
abbrev pub bad : Conditions
bad = record good { saved_ok = false }

abbrev pub message : Payload
message = record {
  document_id = none;
  job_id = some "id-1";
  agency_id = some "agency";
  sequence_number = some 1;
  retry_count = none;
  kafka_topic = none;
  kafka_partition = none;
  kafka_offset = none;
}

abbrev pub processor : Processor
processor = record {
  repository = sample_repository;
  processed_total = 0;
  failed_total = 0;
  retry_total = 0;
}

abbrev pub consumer : Consumer fixed
consumer = record {
  processor = processor;
  current_state = idle;
  current_document_id = none;
  processing_rate = 0;
  failed_jobs = 0;
  processed_jobs = 0;
  active_jobs = 0;
  observed = 0;
}

abbrev pub delivery : Record
delivery = record {
  value = some (dict message);
  topic = "audit-reports-ingest";
  partition = 3;
  offset = pos 7;
}

abbrev pub visit : Conditions → Visit fixed
visit c = record { conditions = c; elapsed = 2000000; consumed_ok = true; failure_ok = true }
