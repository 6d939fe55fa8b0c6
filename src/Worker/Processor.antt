-- ===== src/Worker/Processor.antt =====
-- `MinimalProcessingHandler` of worker/src/processor.py. A call takes what comes from outside: the
-- clock, and which of its database calls fail.
use highthroughputingestion.Base.{
  ℕ, ◌+◌, ◌-◌, ◌/◌, ℤ, pos, ltb, Bool, true, false, Option, none, some, String, str_eq,
  if◌then◌else◌, or_default,
}
use highthroughputingestion.Base.{
  Exec, pure, raise, raised, returned, modify, raise_if, branch, catch, on, ◌>>=◌, ◌>>◌, Error,
  value_error, database_error,
}
use highthroughputingestion.Runtime.{Runtime}
use highthroughputingestion.Database.{
  Document, Event, processing_begun, document_completed, document_failed, info, error, failed,
  update_document,
}
use highthroughputingestion.Repository.{Repository, connect}
use highthroughputingestion.Worker.Results.{
  Position, completed_document, save_result, mark_processing_started, record_retry, append_event,
}

-- `PROCESSING_MAX_RETRIES` of worker/src/config.py
abbrev pub processing_max_retries : ℕ
processing_max_retries = 3

-- The entries of a message that the worker reads, each `none` where it is absent. An entry that is
-- null is not represented.
pub record Payload : Type 0 where
  pub document_id : Option String
  pub job_id : Option String
  pub agency_id : Option String
  pub sequence_number : Option ℕ
  pub retry_count : Option ℕ
  pub kafka_topic : Option String
  pub kafka_partition : Option ℕ
  pub kafka_offset : Option ℤ

-- The repository that the worker's modules share, and the processor's metrics.
pub record Processor : Type 0 where
  pub repository : Repository
  pub processed_total : ℕ
  pub failed_total : ℕ
  pub retry_total : ℕ

-- What one run of `process_event` meets. Times are in microseconds.
pub record Conditions : Type 0 where
  pub worker_id : String
  pub topic_ingest : String
  pub started_at : ℕ
  pub completed_at : ℕ
  pub now : ℕ
  -- `str(exc)`
  pub describe : Error → String
  -- whether each database call is answered, in the order of the code
  pub completed_ok : Bool
  pub started_ok : Bool
  pub started_event_ok : Bool
  pub saved_ok : Bool
  pub saved_event_ok : Bool
  pub retry_ok : Bool
  pub retry_event_ok : Bool
  pub failed_ok : Bool
  pub failed_event_ok : Bool

-- `a or b` on texts
abbrev pub or_text : Option String → Option String → Option String
or_text none other = other
or_text (some text) other = if str_eq text "" then other else some text

-- `str(payload.get("document_id") or payload.get("job_id") or "")`
unfoldable pub document_of : Payload → String
document_of p = or_default (or_text p.document_id p.job_id) ""

-- The arguments `kafka_topic or TOPIC`, `kafka_partition or 0`, `kafka_offset or 0`.
unfoldable pub position_of : Conditions → Payload → Position
position_of c p = record {
  topic = or_default (or_text p.kafka_topic none) c.topic_ingest;
  partition = or_default p.kafka_partition 0;
  offset = or_default p.kafka_offset (pos 0);
}

abbrev pub in_repository : {A : Type 0} → Exec Repository A → Exec Processor A
in_repository = on (λ s. s.repository) (λ r s. record s { repository = r })

module _ (rt : Runtime) (c : Conditions) where
  -- `if not repository.pool: return`
  abbrev pub with_pool : Exec Repository (Unit {0}) → Exec Repository (Unit {0})
  with_pool m r = branch r.pool m (pure tt) r

  unfoldable pub has_completed : String → Exec Repository Bool
  has_completed document_id r =
      branch r.pool (completed_document rt document_id c.completed_ok) (pure false) r

  -- The events that the processor writes itself.
  abbrev pub processing_event : String → Payload → Event
  processing_event document_id p = record {
    document_id = some document_id;
    agency_id = p.agency_id;
    sequence_number = p.sequence_number;
    event_type = processing_begun;
    worker_id = some c.worker_id;
    kafka_partition = p.kafka_partition;
    kafka_offset = p.kafka_offset;
    severity = info;
    message = "Document transitioned to PROCESSING.";
  }

  abbrev pub completed_event : String → Payload → Event
  completed_event document_id p = record {
    document_id = some document_id;
    agency_id = none;
    sequence_number = none;
    event_type = document_completed;
    worker_id = some c.worker_id;
    kafka_partition = p.kafka_partition;
    kafka_offset = p.kafka_offset;
    severity = info;
    message = "Document completed by minimal worker processing step.";
  }

  abbrev pub failed_event : String → Payload → Error → Event
  failed_event document_id p exc = record {
    document_id = some document_id;
    agency_id = none;
    sequence_number = none;
    event_type = document_failed;
    worker_id = some c.worker_id;
    kafka_partition = p.kafka_partition;
    kafka_offset = p.kafka_offset;
    severity = error;
    message = c.describe exc;
  }

  unfoldable pub mark_processing : String → Payload → Exec Repository (Unit {0})
  mark_processing document_id p = with_pool (
      mark_processing_started rt document_id (position_of c p) c.worker_id c.started_at c.now
        c.started_ok
      >> append_event rt (processing_event document_id p) c.started_event_ok)

  -- `max(0, int((completed - started).total_seconds() * 1000))`
  unfoldable pub duration_ms : ℕ
  duration_ms = (c.completed_at - c.started_at) / 1000

  unfoldable pub mark_completed : String → Payload → Exec Repository (Unit {0})
  mark_completed document_id p = with_pool (
      save_result rt document_id (position_of c p) c.worker_id c.started_at c.completed_at
        duration_ms c.now c.saved_ok
      >> append_event rt (completed_event document_id p) c.saved_event_ok)

  unfoldable pub mark_retry : String → Payload → ℕ → Exec Repository (Unit {0})
  mark_retry document_id p retry_count = with_pool (
      record_retry rt document_id c.worker_id retry_count (or_default p.kafka_partition 0)
        (or_default p.kafka_offset (pos 0)) c.now c.retry_ok c.retry_event_ok)

  unfoldable pub set_failed : ℕ → Document → Document
  set_failed retry_count d = record d {
    status = failed;
    retry_count = retry_count;
    error_code = some "WORKER_PROCESSING_FAILED";
    updated_at = c.now;
  }

  -- The identifier is passed to the driver as text, which refuses a malformed one.
  abbrev pub update_failed : Option String → ℕ → Exec Repository (Unit {0})
  update_failed none retry_count r = (raised database_error, r)
  update_failed (some id) retry_count r =
      (returned tt, record r { db = update_document id (set_failed retry_count) r.db })

  unfoldable pub mark_failed : String → Payload → Error → ℕ → Exec Repository (Unit {0})
  mark_failed document_id p exc retry_count = with_pool (
      connect c.failed_ok
      >> update_failed (rt.uuid document_id) retry_count
      >> append_event rt (failed_event document_id p exc) c.failed_event_ok)

  -- The body of the `try` of `process_event`.
  unfoldable pub attempt : String → Payload → Exec Processor Bool
  attempt document_id p = do
    in_repository (mark_processing document_id p)
    in_repository (mark_completed document_id p)
    modify (λ s. record s { processed_total = s.processed_total + 1 })
    pure true

  -- Its `except` clause, which raises the exception again.
  unfoldable pub give_up : String → Payload → Error → Exec Processor Bool
  give_up document_id p exc =
      let retry_count = or_default p.retry_count 0 + 1 in
      branch (ltb retry_count processing_max_retries)
        (in_repository (mark_retry document_id p retry_count)
          >> modify (λ s. record s { retry_total = s.retry_total + 1 })
          >> raise exc)
        (in_repository (mark_failed document_id p exc retry_count)
          >> modify (λ s. record s { failed_total = s.failed_total + 1 })
          >> raise exc)

  unfoldable pub process_event : Payload → Exec Processor Bool
  process_event p = do
    raise_if (str_eq (document_of p) "") value_error
    done ← in_repository (has_completed (document_of p))
    branch done (pure true) (catch (attempt (document_of p) p) (give_up (document_of p) p))
