-- ===== src/Worker/Results.antt =====
-- `ResultRepository` of worker/src/repository.py, over the tables that the API writes too. It has
-- the same state as the API's repository: a pool, and the database behind it. The table
-- `worker_status` is not modelled.
use highthroughputingestion.Base.{ℕ, ℤ, Bool, not, Option, none, some, String}
use highthroughputingestion.Base.{
  Exec, pure, raised, returned, gets, modify, raise_if, branch, ◌>>=◌, ◌>>◌, assertion_error,
  database_error,
}
use highthroughputingestion.Runtime.{Runtime}
use highthroughputingestion.Database.{
  Database, Document, Event, EventType, Severity, ProcessingResult, processing, retrying, completed,
  processing_started, processing_completed, document_retrying, info, warning, insert_result,
  insert_event_of, result_exists, update_document,
}
use highthroughputingestion.Repository
use highthroughputingestion.Repository.{Repository, connect, parse_uuid}

-- `SELECT EXISTS(...)`; the argument is parsed before a connection is taken.
unfoldable pub completed_document : Runtime → String → Bool → Exec Repository Bool
completed_document rt document_id reachable = do
  r ← gets (λ r. r)
  raise_if (not r.pool) assertion_error
  id ← parse_uuid rt document_id
  connect reachable
  gets (λ r. result_exists id r.db)

-- The event that `INSERT ... SELECT` makes of a document's row.
abbrev pub event_of :
    EventType
    → Severity
    → String
    → String
    → (Document → Option ℕ)
    → (Document → Option ℤ)
    → Document
    → Event
event_of type severity message worker_id partition offset d = record {
  document_id = some d.document_id;
  agency_id = some d.agency_id;
  sequence_number = some d.sequence_number;
  event_type = type;
  worker_id = some worker_id;
  kafka_partition = partition d;
  kafka_offset = offset d;
  severity = severity;
  message = message;
}

-- Where a message was read.
pub record Position : Type 0 where
  pub topic : String
  pub partition : ℕ
  pub offset : ℤ

unfoldable pub set_completed : Position → String → ℕ → ℕ → ℕ → ℕ → Document → Document
set_completed at worker_id started done duration now d = record d {
  status = completed;
  kafka_topic = some at.topic;
  kafka_partition = some at.partition;
  kafka_offset = some at.offset;
  worker_id = some worker_id;
  processing_started_at = some started;
  processing_completed_at = some done;
  processing_duration_ms = some duration;
  updated_at = now;
}

abbrev pub result_row : String → String → ℕ → ℕ → ℕ → ProcessingResult
result_row id worker_id started done duration = record {
  document_id = id;
  processing_started_at = started;
  processing_completed_at = done;
  processing_duration_ms = duration;
  worker_id = worker_id;
}

abbrev pub completion_event : String → Document → Event
completion_event worker_id =
    event_of processing_completed info "Worker processed and completed Kafka message" worker_id
      (λ d. d.kafka_partition) (λ d. d.kafka_offset)

-- The update and the event that follow the insertion.
abbrev pub marked : String → (Document → Document) → (Document → Event) → Database → Database
marked id f event db = insert_event_of id event (update_document id f db)

-- The three statements of `save_result`, in one transaction.
unfoldable pub saved : String → Position → String → ℕ → ℕ → ℕ → ℕ → Database → Option Database
saved id at worker_id started done duration now db =
    elim (insert_result (result_row id worker_id started done duration) db) [
      | none ↦ none
      | some db' ↦ some (
          marked id (set_completed at worker_id started done duration now)
            (completion_event worker_id) db')
    ]

abbrev pub store : Option Database → Exec Repository (Unit {0})
store none r = (raised database_error, r)
store (some db) r = (returned tt, record r { db = db })

unfoldable pub save_result :
    Runtime → String → Position → String → ℕ → ℕ → ℕ → ℕ → Bool → Exec Repository (Unit {0})
save_result rt document_id at worker_id started done duration now reachable = do
  connect reachable
  id ← parse_uuid rt document_id
  db ← gets (λ r. saved id at worker_id started done duration now r.db)
  store db

unfoldable pub set_processing : Position → String → ℕ → ℕ → Document → Document
set_processing at worker_id started now d = record d {
  status = processing;
  kafka_topic = some at.topic;
  kafka_partition = some at.partition;
  kafka_offset = some at.offset;
  worker_id = some worker_id;
  processing_started_at = some started;
  updated_at = now;
}

unfoldable pub mark_processing_started :
    Runtime → String → Position → String → ℕ → ℕ → Bool → Exec Repository (Unit {0})
mark_processing_started rt document_id at worker_id started now reachable = do
  connect reachable
  id ← parse_uuid rt document_id
  modify (λ r. record r {
    db =
        marked id (set_processing at worker_id started now)
          (event_of processing_started info "Worker started processing Kafka message" worker_id
            (λ d. d.kafka_partition) (λ d. d.kafka_offset))
          r.db;
  })

unfoldable pub set_retrying : ℕ → ℕ → Document → Document
set_retrying retry_count now d = record d {
  retry_count = retry_count;
  status = retrying;
  updated_at = now;
}

-- The two statements of `record_retry`.
unfoldable pub set_retry : Runtime → String → ℕ → ℕ → Bool → Exec Repository String
set_retry rt document_id retry_count now reachable = do
  connect reachable
  id ← parse_uuid rt document_id
  modify (λ r. record r { db = update_document id (set_retrying retry_count now) r.db })
  pure id

unfoldable pub log_retry : String → String → ℕ → ℤ → Bool → Exec Repository (Unit {0})
log_retry id worker_id partition offset logged = do
  connect logged
  modify (λ r. record r {
    db =
        insert_event_of id
          (event_of document_retrying warning "Worker retry scheduled due to processing failure"
            worker_id (λ d. some partition) (λ d. some offset))
          r.db;
  })

-- Two statements outside a transaction: the second may fail after the first.
unfoldable pub record_retry :
    Runtime → String → String → ℕ → ℕ → ℤ → ℕ → Bool → Bool → Exec Repository (Unit {0})
record_retry rt document_id worker_id retry_count partition offset now reachable logged = do
  connect reachable
  id ← parse_uuid rt document_id
  modify (λ r. record r { db = update_document id (set_retrying retry_count now) r.db })
  connect logged
  modify (λ r. record r {
    db =
        insert_event_of id
          (event_of document_retrying warning "Worker retry scheduled due to processing failure"
            worker_id (λ d. some partition) (λ d. some offset))
          r.db;
  })

-- `append_event` returns at once without a pool.
unfoldable pub append_event : Runtime → Event → Bool → Exec Repository (Unit {0})
append_event rt e reachable r = branch r.pool (Repository.append_event rt e reachable) (pure tt) r
