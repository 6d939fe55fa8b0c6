-- ===== src/Api/Status/Tests.antt =====
-- Concrete reads of a job.
use highthroughputingestion.Base.{◌≡◌, refl, false, some, [], ◌∷◌, returned, String}
use highthroughputingestion.Float.Fixed.{fixed}
use highthroughputingestion.Limiter.{
  new_limiter, new_rate_limiter, acquire, check_agency_limit, answer_for, first_bucket,
}
use highthroughputingestion.Storage.{save_document, file_path}
use highthroughputingestion.Producer.{send_audit_event}
use highthroughputingestion.Api.Request.{parse_request, raw_content}
use highthroughputingestion.Api.Ingest.{
  serve, answer_exception, ingest_audit_report, enter, process, check_bucket, submit,
  store_document, settle, leave, register, register_locally, known_locally, idempotency_id, publish,
  send, conclude, record_publication,
}
use highthroughputingestion.Api.Status.{FoundJob, get_job_status, health_check, degraded}
use highthroughputingestion.Api.Status.Tracking.{IsAbout, named_job_found, serve_all}
use highthroughputingestion.Api.Status.Told.{named}
use highthroughputingestion.Samples.{sample_runtime}
use highthroughputingestion.Api.Samples.{surroundings, request, offline}

abbrev job_id : String
job_id = "job-0123456789ab"

-- A service with no database names its own job.
names_job :
    named
      (serve fixed sample_runtime surroundings request
        (serve_all fixed sample_runtime [] offline)).0
    ≡ some job_id
unfolding serve answer_exception ingest_audit_report enter acquire new_limiter process parse_request
    raw_content check_bucket check_agency_limit answer_for first_bucket new_rate_limiter submit
    store_document save_document file_path settle register register_locally known_locally
    idempotency_id leave publish send conclude record_publication serve_all send_audit_event
names_job = refl

named_job_found_example :
    (job : FoundJob) × ((get_job_status sample_runtime job_id false (
        serve_all fixed sample_runtime
          ((surroundings, request) ∷ [])
          (serve fixed sample_runtime surroundings request
            (serve_all fixed sample_runtime [] offline)).1)).0
      ≡ returned job)
    × IsAbout sample_runtime job_id job
named_job_found_example =
    named_job_found fixed sample_runtime [] ((surroundings, request) ∷ []) surroundings request
      offline job_id false refl refl names_job

health_run : (health_check offline).status ≡ degraded
unfolding health_check
health_run = refl
