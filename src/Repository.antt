-- ===== src/Repository.antt =====
-- `DocumentRepository` of api/src/repository.py, over the shared tables. A call takes a flag
-- `reachable`: if it is false the database fails, the transaction is rolled back, and the driver
-- raises. `register_worker` and `heartbeat_worker` are in Worker.Heartbeats; `ensure_schema` and the
-- listings of `console_snapshot` are not modelled.
pub mod Idempotency
pub mod History
pub mod Registry
mod Tests
use highthroughputingestion.Base.{
  ◌≡◌, refl, ◌⊎◌, inl, inr, Bool-cases, ℕ, ◌+◌, ℤ, Bool, true, false, not, Option, none, some,
  String, str_eq, List, [], ◌∷◌,
}
use highthroughputingestion.Base.{
  find, count, update_where, is_some, if◌then◌else◌, Result, returned, raised,
}
use highthroughputingestion.Base.{
  Error, value_error, assertion_error, database_error, Exec, pure, raise, gets, raise_if, modify,
  ◌>>=◌, ◌>>◌,
}
use highthroughputingestion.Runtime.{Runtime}
use highthroughputingestion.Database.{
  Database, Document, ProcessingResult, Event, EventType, Severity, Status, queued, processing,
  retrying, completed, failed, document_submitted, info, has_key, has_id, for_document,
  max_sequence, insert_document, insert_event, update_document,
}

-- `self.pool is not None`, and what the connections lead to.
pub record Repository : Type 0 where
  pub pool : Bool
  pub db : Database

-- `assert self.pool`, and a connection to a database that answers.
unfoldable pub connect : Bool → Exec Repository (Unit {0})
connect reachable r =
    if r.pool
    then (if reachable then (returned tt, r) else (raised database_error, r))
    else (raised assertion_error, r)

-- A failed connection changes nothing.
pub connect-cases :
    (reachable : Bool) (r : Repository)
    → (connect reachable r ≡ (returned tt, r))
      ⊎ ((e : Error) × (connect reachable r ≡ (raised e, r)))
unfolding connect
connect-cases reachable r = elim (Bool-cases r.pool) [
  | inr closed ↦ rw closed (inr (assertion_error, refl))
  | inl opened ↦ elim (Bool-cases reachable) [
    | inr down ↦ rw (opened, down) (inr (database_error, refl))
    | inl up ↦ rw (opened, up) (inl refl)
  ]
]

pub connect_open : (r : Repository) → r.pool ≡ true → connect true r ≡ (returned tt, r)
unfolding connect
connect_open r opened = rw opened

-- The keyword arguments of `create_or_get`.
pub record Submission : Type 0 where
  pub idempotency_key : String
  pub agency_id : String
  pub filename : String
  pub object_key : String
  pub sha256 : String
  pub file_size : ℕ
  pub audit_type : String
  pub report_year : ℤ
  pub auditor_org : String

-- The row of the INSERT statement; the other columns have their defaults.
unfoldable pub new_row : Submission → String → ℕ → ℕ → Document
new_row s document_id sequence now = record {
  document_id = document_id;
  idempotency_key = s.idempotency_key;
  agency_id = s.agency_id;
  filename = s.filename;
  object_key = s.object_key;
  sha256 = s.sha256;
  file_size = s.file_size;
  status = queued;
  sequence_number = sequence;
  kafka_topic = none;
  kafka_partition = none;
  kafka_offset = none;
  worker_id = none;
  processing_started_at = none;
  processing_completed_at = none;
  processing_duration_ms = none;
  audit_type = s.audit_type;
  report_year = s.report_year;
  auditor_org = s.auditor_org;
  retry_count = 0;
  error_code = none;
  updated_at = now;
}

unfoldable pub submitted_event : Document → Event
submitted_event d = record {
  document_id = some d.document_id;
  agency_id = some d.agency_id;
  sequence_number = some d.sequence_number;
  event_type = document_submitted;
  worker_id = none;
  kafka_partition = none;
  kafka_offset = none;
  severity = info;
  message = "Document accepted and queued for Kafka publish";
}

-- The rest of the transaction, for a key that the first SELECT did not find.
unfoldable pub insert_new : Submission → String → ℕ → Database → Option (Document × Database)
unfolding submitted_event
insert_new s document_id now db =
    let row = new_row s document_id (max_sequence s.agency_id db.documents + 1) now in
    elim (insert_document row db) [
      | none ↦ none
      | some db' ↦ elim (insert_event (submitted_event row) db') [
        | none ↦ none
        | some db'' ↦ some (row, db'')
      ]
    ]

-- The new state of a transaction, or the exception of the driver.
abbrev pub commit : {A : Type 0} → Option (A × Database) → Exec Repository A
commit none r = (raised database_error, r)
commit (some (a, db)) r = (returned a, record r { db = db })

-- `document_id` is the value of `uuid.uuid4()`, and `now` that of `now()`.
unfoldable pub found_or_new :
    Submission → String → ℕ → Option Document → Exec Repository (Document × Bool)
found_or_new s document_id now (some row) r = (returned (row, true), r)
found_or_new s document_id now none r =
    (commit (insert_new s document_id now r.db) >>= λ row. pure (row, false)) r

unfoldable pub create_or_get : Submission → String → ℕ → Bool → Exec Repository (Document × Bool)
unfolding found_or_new
create_or_get s document_id now reachable = do
  connect reachable
  existing ← gets (λ r. find (has_key s.idempotency_key) r.db.documents)
  found_or_new s document_id now existing

-- `uuid.UUID(text)`
abbrev pub parse_uuid : Runtime → String → Exec Repository String
parse_uuid rt text r = elim (rt.uuid text) [
  | none ↦ (raised value_error, r)
  | some id ↦ (returned id, r)
]

-- The joined row, if there is one.
unfoldable pub joined : String → Database → Option (Document × Option ProcessingResult)
joined id db = elim (find (has_id id) db.documents) [
  | none ↦ none
  | some d ↦ some (d, find (for_document id) db.results)
]

unfoldable pub get :
    Runtime → String → Bool → Exec Repository (Option (Document × Option ProcessingResult))
get rt document_id reachable = do
  connect reachable
  id ← parse_uuid rt document_id
  gets (λ r. joined id r.db)

-- The optional arguments of `update_document_metadata`.
pub record Metadata : Type 0 where
  pub kafka_topic : Option String
  pub kafka_partition : Option ℕ
  pub kafka_offset : Option ℤ
  pub worker_id : Option String
  pub status : Option Status
  pub processing_started_at : Option ℕ
  pub processing_completed_at : Option ℕ
  pub processing_duration_ms : Option ℕ
  pub retry_count : Option ℕ
  pub error_code : Option String

-- `SET column = value` for an argument that is not None.
abbrev set_column : {A : Type 0} → Option A → A → A
set_column none old = old
set_column (some v) old = v

-- The same for a column that may be NULL.
abbrev set_nullable : {A : Type 0} → Option A → Option A → Option A
set_nullable none old = old
set_nullable (some v) old = some v

unfoldable pub apply_metadata : Metadata → ℕ → Document → Document
apply_metadata m now d = record d {
  kafka_topic = set_nullable m.kafka_topic d.kafka_topic;
  kafka_partition = set_nullable m.kafka_partition d.kafka_partition;
  kafka_offset = set_nullable m.kafka_offset d.kafka_offset;
  worker_id = set_nullable m.worker_id d.worker_id;
  status = set_column m.status d.status;
  processing_started_at = set_nullable m.processing_started_at d.processing_started_at;
  processing_completed_at = set_nullable m.processing_completed_at d.processing_completed_at;
  processing_duration_ms = set_nullable m.processing_duration_ms d.processing_duration_ms;
  retry_count = set_column m.retry_count d.retry_count;
  error_code = set_nullable m.error_code d.error_code;
  updated_at = now;
}

unfoldable pub update_document_metadata :
    Runtime → String → Metadata → ℕ → Bool → Exec Repository (Unit {0})
update_document_metadata rt document_id m now reachable = do
  connect reachable
  id ← parse_uuid rt document_id
  modify (λ r. record r { db = update_document id (apply_metadata m now) r.db })

-- `uuid.UUID(document_id) if document_id else None`
abbrev pub parse_optional_uuid : Runtime → Option String → Exec Repository (Option String)
parse_optional_uuid rt none r = (returned none, r)
parse_optional_uuid rt (some text) r =
    if str_eq text "" then (returned none, r) else (parse_uuid rt text >>= λ id. pure (some id)) r

abbrev pub store_event : Option Database → Exec Repository (Unit {0})
store_event none r = (raised database_error, r)
store_event (some db) r = (returned tt, record r { db = db })

unfoldable pub append_event : Runtime → Event → Bool → Exec Repository (Unit {0})
append_event rt e reachable = do
  connect reachable
  id ← parse_optional_uuid rt e.document_id
  db ← gets (λ r. insert_event (record e { document_id = id }) r.db)
  store_event db

-- `SELECT status, count(*) FROM documents GROUP BY status`
abbrev pub same_status : Status → Status → Bool
same_status queued queued = true
same_status processing processing = true
same_status retrying retrying = true
same_status completed completed = true
same_status failed failed = true
same_status _ _ = false

unfoldable pub status_count : Status → List Document → ℕ
status_count s ds = count (λ d. same_status d.status s) ds
