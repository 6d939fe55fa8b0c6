-- ===== src/Api/Samples.antt =====
-- Concrete values for the tests of the API: a service, a request and its surroundings.
use highthroughputingestion.Base.{pos, true, false, none, some, [], ◌∷◌}
use highthroughputingestion.Float.Fixed.{fixed}
use highthroughputingestion.Limiter.{new_limiter, new_rate_limiter}
use highthroughputingestion.Producer.{metadata}
use highthroughputingestion.Api.{Api}
use highthroughputingestion.Api.Request.{Request}
use highthroughputingestion.Api.Ingest.{Surroundings}
use highthroughputingestion.Samples.{empty_repository}

abbrev pub surroundings : Surroundings fixed
surroundings = record {
  bucket_time = 5000000;
  rtt_ms = 20000000;
  now = 10;
  job_suffix = "0123456789ab";
  document_id = "id-1";
  storage = record { write_ok = true; put_ok = true };
  broker = metadata (pos 0);
  throttle_event_ok = true;
  create_ok = true;
  update_ok = true;
  published_event_ok = true;
  accepted_event_ok = true;
}

abbrev pub api : Api fixed
api = record {
  limiter = new_limiter fixed 25 500 35000000 4000000 850000;
  rate_limiter = new_rate_limiter fixed 2 1000000;
  storage = record { base_dir = "/data"; blobs = []; remote_available = true; objects = [] };
  repository = empty_repository;
  producer = record { connected = true; log = [] };
  job_cache = [];
  idemp_cache = [];
  metrics = record { requests = []; rejections = []; active_pipelines = pos 0; ingested_bytes = 0 };
}

abbrev pub request : Request
request = record {
  content_type = "text/plain";
  json = none;
  form = some (record {
    agency_id = none;
    audit_type = none;
    report_year = none;
    auditor_org = none;
    idempotency_key = none;
    file = none;
    described = [];
  });
  body = 1 ∷ 2 ∷ 3 ∷ [];
  query_agency = some "agency";
}

-- No database.
abbrev pub offline : Api fixed
offline = record api { repository = record empty_repository { pool = false } }
