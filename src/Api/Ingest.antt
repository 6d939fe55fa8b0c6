-- ===== src/Api/Ingest.antt =====
-- `ingest_audit_report` of api/src/main.py, step by step, with the exception handler around it.
pub mod Slots
pub mod Publishing
pub mod Duplicates
pub mod Fallback
pub mod Collisions
mod Tests
use highthroughputingestion.Base.{
  ℕ, ◌+◌, ℤ, pos, String, ◌<>◌, Bool, true, false, not, ◌&&◌, Option, none, some, List, [], ◌∷◌,
  ltb, length,
}
use highthroughputingestion.Base.{
  Exec, Result, returned, raised, Error, payload_too_large, not_found, bad_request, catch, finally,
  on, pure, raise, gets, modify, when, ◌>>=◌, ◌>>◌, or_default, branch, str_eq, if◌then◌else◌,
}
use highthroughputingestion.Base.Dict
use highthroughputingestion.Float.{Float, of_ℕ}
use highthroughputingestion.Limiter.{Limiter, acquire, release, check_agency_limit}
use highthroughputingestion.Database.{
  Document, Event, EventType, queued, http_429_backpressure, kafka_published, http_202_accepted,
  Severity, info, warning,
}
use highthroughputingestion.Repository.{
  Repository, Submission, Metadata, create_or_get, update_document_metadata, append_event,
}
use highthroughputingestion.Runtime.{Runtime}
use highthroughputingestion.Producer.{
  EventProducer, EventPayload, BrokerMeta, BrokerStatus, Answer, send_audit_event,
  hash_key_to_partition, num_partitions, topic_ingest,
}
use highthroughputingestion.Storage.{Storage, Outcomes, max_payload_bytes, save_document}
use highthroughputingestion.Api.{
  Api, JobState, Metrics, concurrency_limit_exceeded, rate_limit_exceeded, count_request,
  count_rejection, pipeline_started, pipeline_ended, count_bytes,
}
use highthroughputingestion.Api.Request.{Request, Parsed, parse_request}

-- What the surroundings answer during one request: clocks, fresh identifiers, and whether each
-- call of a service succeeds.
pub record Surroundings (F : Float) : Type 0 where
  -- `time.time()` of the bucket check, in seconds
  pub bucket_time : F.Carrier
  -- the duration of the request in milliseconds
  pub rtt_ms : F.Carrier
  pub now : ℕ
  -- `uuid.uuid4().hex[:12]`
  pub job_suffix : String
  -- the `uuid.uuid4()` of a new row
  pub document_id : String
  pub storage : Outcomes
  pub broker : Answer
  pub throttle_event_ok : Bool
  pub create_ok : Bool
  pub update_ok : Bool
  pub published_event_ok : Bool
  pub accepted_event_ok : Bool

-- The responses that the handler returns.
pub data Response (F : Float) : Type 0 where
  saturated : F.Carrier → F.Carrier → ℕ → Response F
  throttled : String → F.Carrier → Response F
  -- job, agency, checksum
  duplicate : String → String → String → Response F
  -- job, agency, audit type, checksum, partition, status at the broker
  accepted : String → String → String → String → ℕ → BrokerStatus → Response F

-- What is known of a document once it is stored.
pub record Stored : Type 0 where
  pub parsed : Parsed
  pub sha256 : String
  pub file_size : ℕ
  pub storage_path : String

-- The job that stands for a request.
pub record Job : Type 0 where
  pub job_id : String
  pub is_duplicate : Bool
  pub sequence_number : Option ℕ

module _ (F : Float) (rt : Runtime) (o : Surroundings F) where
  abbrev State : Type 0
  State = Api F

  abbrev pub on_metrics : (Metrics → Metrics) → Exec State (Unit {0})
  on_metrics f = modify (λ a. record a { metrics = f a.metrics })

  abbrev pub on_repository : {A : Type 0} → Exec Repository A → Exec State A
  on_repository = on (λ a. a.repository) (λ r a. record a { repository = r })

  -- `x or 1.0`
  unfoldable pub or_one : Option F.Carrier → F.Carrier
  or_one none = F.decimal 10 1
  or_one (some x) = if F.le x (of_ℕ F 0) && F.le (of_ℕ F 0) x then F.decimal 10 1 else x

  -- `client_idemp_key or sha256_hash`
  unfoldable pub idempotency_id : Stored → String
  idempotency_id d = elim d.parsed.idempotency_key [
    | none ↦ d.sha256
    | some key ↦ if str_eq key "" then d.sha256 else key
  ]

  abbrev pub new_job_id : String
  new_job_id = "job-" <> o.job_suffix

  unfoldable pub job_state : Stored → String → Option ℕ → JobState
  job_state d job_id sequence = record {
    job_id = job_id;
    agency_id = d.parsed.agency_id;
    audit_type = d.parsed.audit_type;
    report_year = d.parsed.report_year;
    auditor_org = d.parsed.auditor_org;
    sha256_checksum = d.sha256;
    partition = hash_key_to_partition rt d.parsed.agency_id num_partitions;
    file_size_bytes = d.file_size;
    ingested_at = o.now;
    sequence_number = sequence;
  }

  -- An event of the API about a document.
  abbrev api_event : Option String → String → Option ℕ → EventType → Severity → String → Event
  api_event document_id agency_id sequence event_type severity message = record {
    document_id = document_id;
    agency_id = some agency_id;
    sequence_number = sequence;
    event_type = event_type;
    worker_id = none;
    kafka_partition = none;
    kafka_offset = none;
    severity = severity;
    message = message;
  }

  -- The branch of a request that the bucket of its agency does not allow.
  unfoldable pub refuse_agency : Parsed → F.Carrier → Exec State (Response F)
  refuse_agency p wait = do
    on_metrics (count_rejection rate_limit_exceeded)
    on_metrics (count_request 429)
    pool ← gets (λ a. a.repository.pool)
    when pool (
        on_repository (
          append_event rt
            (api_event none p.agency_id none http_429_backpressure warning
              "Agency submission burst threshold exceeded.")
            o.throttle_event_ok))
    pure (throttled p.agency_id wait)

  -- Size check and storage.
  unfoldable pub store_document : Parsed → Exec State Stored
  store_document p =
      branch (ltb max_payload_bytes (length p.content))
        (do on_metrics (count_request 413); raise payload_too_large)
        do
          on_metrics (count_bytes (length p.content))
          saved ←
              on (λ a. a.storage) (λ s a. record a { storage = s })
                (save_document rt o.storage p.content)
          pure
              (record { parsed = p; sha256 = saved.0; file_size = saved.1; storage_path = saved.2 })

  -- The arguments of `create_or_get`.
  unfoldable pub submission : Stored → Submission
  submission d = record {
    idempotency_key = idempotency_id d;
    agency_id = d.parsed.agency_id;
    filename = "upload";
    object_key = d.storage_path;
    sha256 = d.sha256;
    file_size = d.file_size;
    audit_type = d.parsed.audit_type;
    report_year = d.parsed.report_year;
    auditor_org = d.parsed.auditor_org;
  }

  unfoldable pub enter_job : Stored → Document × Bool → Exec State Job
  unfolding job_state
  enter_job d found = do
    modify (λ a. record a {
      job_cache =
          Dict.insert found.0.document_id
            (job_state d found.0.document_id (some found.0.sequence_number)) a.job_cache;
    })
    pure (record {
      job_id = found.0.document_id;
      is_duplicate = found.1;
      sequence_number = some found.0.sequence_number;
    })

  -- The `try` block around the database.
  unfoldable pub register_durably : Stored → Exec State Job
  unfolding enter_job
  register_durably d = do
    found ← on_repository (create_or_get (submission d) o.document_id o.now o.create_ok)
    enter_job d found

  unfoldable pub known_locally : Stored → Option String → Exec State Job
  known_locally d (some job_id) a =
      (returned (record { job_id = job_id; is_duplicate = true; sequence_number = none }), a)
  known_locally d none a = (
    returned (record { job_id = new_job_id; is_duplicate = false; sequence_number = none }),
    record a {
      idemp_cache = Dict.insert (idempotency_id d) new_job_id a.idemp_cache;
      job_cache = Dict.insert new_job_id (job_state d new_job_id none) a.job_cache;
    },
  )

  -- The in-memory caches, which the code uses twice.
  unfoldable pub register_locally : Stored → Exec State Job
  unfolding known_locally job_state
  register_locally d a = known_locally d (Dict.lookup (idempotency_id d) a.idemp_cache) a

  unfoldable pub register : Stored → Exec State Job
  register d = do
    pool ← gets (λ a. a.repository.pool)
    branch pool (catch (register_durably d) (λ _. register_locally d)) (register_locally d)

  unfoldable pub answer_duplicate : Stored → Job → Exec State (Response F)
  answer_duplicate d j = do
    on_metrics (count_request 200)
    pure (duplicate j.job_id d.parsed.agency_id d.sha256)

  unfoldable pub event_payload : Stored → Job → EventPayload
  event_payload d j = record {
    job_id = j.job_id;
    agency_id = d.parsed.agency_id;
    audit_type = d.parsed.audit_type;
    report_year = d.parsed.report_year;
    auditor_org = d.parsed.auditor_org;
    sha256_checksum = d.sha256;
    storage_path = d.storage_path;
    file_size_bytes = d.file_size;
    object_key = d.storage_path;
    sequence_number = or_default j.sequence_number 0;
    ingested_at = o.now;
    sharding = none;
  }

  -- The columns that a publication sets.
  abbrev pub published : BrokerMeta → Metadata
  published m = record {
    kafka_topic = some m.topic;
    kafka_partition = some m.partition;
    kafka_offset = some m.offset;
    worker_id = none;
    status = some queued;
    processing_started_at = none;
    processing_completed_at = none;
    processing_duration_ms = none;
    retry_count = none;
    error_code = none;
  }

  -- The two calls after the publication.
  unfoldable pub record_publication : Stored → Job → BrokerMeta → Exec State (Unit {0})
  record_publication d j m = do
    on_repository (update_document_metadata rt j.job_id (published m) o.now o.update_ok)
    on_repository (
        append_event rt
          (record (api_event (some j.job_id) d.parsed.agency_id
            (some (or_default j.sequence_number 0)) kafka_published info
            "Document published to Kafka for asynchronous processing.") {
              kafka_partition = some m.partition;
              kafka_offset = some m.offset;
            })
          o.published_event_ok)

  unfoldable pub send : Stored → Job → Exec State BrokerMeta
  send d j =
      on (λ a. a.producer) (λ p a. record a { producer = p })
        (send_audit_event rt d.parsed.agency_id (event_payload d j) topic_ingest o.broker)

  -- From the answer of the broker to the response.
  unfoldable pub conclude : Stored → Job → BrokerMeta → Exec State (Response F)
  conclude d j meta = do
    pool ← gets (λ a. a.repository.pool)
    when pool (record_publication d j meta)
    on_metrics (count_request 202)
    when pool (
        on_repository (
          append_event rt
            (api_event (some j.job_id) d.parsed.agency_id (some (or_default j.sequence_number 0))
              http_202_accepted info "Request accepted for asynchronous processing.")
            o.accepted_event_ok))
    pure (
        accepted j.job_id d.parsed.agency_id d.parsed.audit_type d.sha256
          (hash_key_to_partition rt d.parsed.agency_id num_partitions) meta.status)

  unfoldable pub publish : Stored → Job → Exec State (Response F)
  publish d j = do meta ← send d j; conclude d j meta

  -- From the stored document to the response.
  unfoldable pub settle : Stored → Exec State (Response F)
  settle d = do j ← register d; branch j.is_duplicate (answer_duplicate d j) (publish d j)

  unfoldable pub submit : Parsed → Exec State (Response F)
  submit p = do d ← store_document p; settle d

  unfoldable pub check_bucket : String → Exec State (Bool × Option F.Carrier)
  check_bucket agency_id =
      on (λ a. a.rate_limiter) (λ r a. record a { rate_limiter = r })
        (check_agency_limit F agency_id o.bucket_time)

  -- The `try` block of the handler.
  unfoldable pub process : Request → Exec State (Response F)
  process q = do
    p ← λ a. (parse_request q, a)
    allowed ← check_bucket p.agency_id
    branch allowed.0 (submit p) (refuse_agency p (or_one allowed.1))

  -- The `finally` block.
  unfoldable pub leave : State → State
  leave a = record a { metrics = pipeline_ended a.metrics; limiter = release F o.rtt_ms a.limiter }

  unfoldable pub refuse_saturated : Option F.Carrier → Exec State (Response F)
  refuse_saturated wait = do
    on_metrics (count_rejection concurrency_limit_exceeded)
    on_metrics (count_request 429)
    current ← gets (λ a. F.round a.limiter.current_limit 2)
    in_flight ← gets (λ a. a.limiter.in_flight)
    pure (saturated (or_one wait) current in_flight)

  unfoldable pub enter : Exec State (Bool × Option F.Carrier)
  enter a = let (answer, l) = acquire F a.limiter in (returned answer, record a { limiter = l })

  unfoldable pub ingest_audit_report : Request → Exec State (Response F)
  unfolding enter refuse_saturated
  ingest_audit_report q = do
    admitted ← enter
    branch admitted.0 (do on_metrics pipeline_started; finally (process q) leave)
        (refuse_saturated admitted.1)

  -- The status code that a client sees: an `HTTPException` has its own, and every other exception
  -- goes to `global_exception_handler`.
  unfoldable pub status_code : Result (Response F) → ℕ
  status_code (returned (saturated _ _ _)) = 429
  status_code (returned (throttled _ _)) = 429
  status_code (returned (duplicate _ _ _)) = 200
  status_code (returned (accepted _ _ _ _ _ _)) = 202
  status_code (raised payload_too_large) = 413
  status_code (raised not_found) = 404
  status_code (raised bad_request) = 400
  status_code (raised _) = 429

  -- The handler behind its exception handlers.
  unfoldable pub answer_exception : Result (Response F) × State → Result (Response F) × State
  answer_exception (returned response, a) = (returned response, a)
  answer_exception (raised payload_too_large, a) = (raised payload_too_large, a)
  answer_exception (raised not_found, a) = (raised not_found, a)
  answer_exception (raised bad_request, a) = (raised bad_request, a)
  answer_exception (raised e, a) = (raised e, record a { metrics = count_request 429 a.metrics })

  unfoldable pub serve : Request → Exec State (Response F)
  unfolding answer_exception
  serve q a = answer_exception (ingest_audit_report q a)
