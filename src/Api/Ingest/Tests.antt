-- ===== src/Api/Ingest/Tests.antt =====
-- Concrete requests, in the fixed-point arithmetic.
use highthroughputingestion.Base.{◌≡◌, refl, false, none, some, [], ◌∷◌, All, returned}
use highthroughputingestion.Base.Dict.{insert}
use highthroughputingestion.Float.Fixed.{fixed}
use highthroughputingestion.Limiter.{
  new_limiter, new_rate_limiter, acquire, check_agency_limit, answer_for, first_bucket,
}
use highthroughputingestion.Storage.{save_document, file_path}
use highthroughputingestion.Producer.Partitions.{IsRouted}
use highthroughputingestion.Api.{Api}
use highthroughputingestion.Api.Request.{defaults, parse_request, raw_content}
use highthroughputingestion.Api.Ingest.{
  Stored, Job, serve, answer_exception, ingest_audit_report, enter, process, check_bucket, submit,
  store_document, settle, answer_duplicate, leave, register, register_locally, known_locally,
  idempotency_id,
}
use highthroughputingestion.Api.Ingest.Slots.{serve_releases, limiter_after}
use highthroughputingestion.Api.Ingest.Publishing.{serve-IsRouted}
use highthroughputingestion.Api.Ingest.Duplicates.{serve_duplicate_silent, IsDuplicate}
use highthroughputingestion.Api.Ingest.Fallback.{register_twice_offline, known_job}
use highthroughputingestion.Api.Ingest.Collisions.{bad_years_collide}
use highthroughputingestion.Api.Request.{JsonBody, parse_json, json_year}
use highthroughputingestion.Storage.{object_key}
use highthroughputingestion.Samples.{sample_runtime}
use highthroughputingestion.Api.Samples.{surroundings, api, request, offline}

serve_releases_example :
    ((serve fixed sample_runtime surroundings request api).1.limiter
      ≡ limiter_after fixed sample_runtime surroundings api.limiter)
    × ((serve fixed sample_runtime surroundings request api).1.limiter.in_flight
        ≡ api.limiter.in_flight)
    × ((serve fixed sample_runtime surroundings request api).1.metrics.active_pipelines
        ≡ api.metrics.active_pipelines)
serve_releases_example = serve_releases fixed sample_runtime surroundings request api

serve-IsRouted_example :
    All
      (IsRouted sample_runtime)
      (serve fixed sample_runtime surroundings request api).1.producer.log
serve-IsRouted_example = serve-IsRouted fixed sample_runtime surroundings request api tt

abbrev document : Stored
document = record {
  parsed = defaults;
  sha256 = "9f86";
  file_size = 3;
  storage_path = "documents/9f86.bin";
}

abbrev kept : Api fixed
kept = (register fixed sample_runtime surroundings document offline).1

abbrev job : Job
job = record { job_id = "job-0123456789ab"; is_duplicate = false; sequence_number = none }

registers : register fixed sample_runtime surroundings document offline ≡ (returned job, kept)
unfolding register register_locally known_locally idempotency_id
registers = refl

register_twice_offline_example :
    register fixed sample_runtime (record surroundings { job_suffix = "ffff" }) document kept
    ≡ (returned (known_job "job-0123456789ab"), kept)
unfolding idempotency_id
register_twice_offline_example =
    register_twice_offline fixed sample_runtime surroundings
      (record surroundings { job_suffix = "ffff" }) document document offline kept job refl
      registers refl

-- Without a database, the request's content is known already.
abbrev knowing : Api fixed
knowing = record offline { idemp_cache = insert "9f86" "job-0123456789ab" [] }

answered-IsDuplicate :
    IsDuplicate {F = fixed} (serve fixed sample_runtime surroundings request knowing).0
unfolding serve answer_exception ingest_audit_report enter acquire new_limiter process parse_request
    raw_content check_bucket check_agency_limit answer_for first_bucket new_rate_limiter submit
    store_document save_document file_path settle register register_locally known_locally
    idempotency_id answer_duplicate leave
answered-IsDuplicate = tt

serve_duplicate_silent_example :
    (serve fixed sample_runtime surroundings request knowing).1.producer ≡ knowing.producer
serve_duplicate_silent_example =
    serve_duplicate_silent fixed sample_runtime surroundings request knowing answered-IsDuplicate

-- Two bodies with a year that is no number.
abbrev bad_body : JsonBody
bad_body = record {
  agency_id = some "agency";
  audit_type = none;
  report_year = some none;
  auditor_org = none;
  idempotency_key = some "key-1";
  content_raw = some (some (1 ∷ []));
  dumped = [];
}

abbrev other_body : JsonBody
other_body = record bad_body {
  agency_id = some "other";
  idempotency_key = some "key-2";
  content_raw = some (some (2 ∷ 3 ∷ []));
}

abbrev stored_of : JsonBody → Stored
stored_of b = record {
  parsed = parse_json (some b);
  sha256 = "9f86";
  file_size = 2;
  storage_path = "documents/9f86.bin";
}

abbrev api_after : JsonBody → Api fixed
api_after b = (store_document fixed sample_runtime surroundings (parse_json (some b)) api).1

stores_bad :
    store_document fixed sample_runtime surroundings (parse_json (some bad_body)) api
    ≡ (returned (stored_of bad_body), api_after bad_body)
unfolding store_document parse_json json_year save_document file_path object_key
stores_bad = refl

stores_other :
    store_document fixed sample_runtime surroundings (parse_json (some other_body)) api
    ≡ (returned (stored_of other_body), api_after other_body)
unfolding store_document parse_json json_year save_document file_path object_key
stores_other = refl

bad_years_collide_example :
    idempotency_id fixed sample_runtime surroundings (stored_of bad_body)
    ≡ idempotency_id fixed sample_runtime surroundings (stored_of other_body)
bad_years_collide_example =
    bad_years_collide fixed sample_runtime surroundings surroundings bad_body other_body api api
      (api_after bad_body) (api_after other_body) (stored_of bad_body) (stored_of other_body) refl
      refl stores_bad stores_other
