-- ===== src/Worker/Heartbeats.antt =====
-- The table `worker_status` and its calls: `register_worker` and `heartbeat_worker`, which
-- worker/src/repository.py and api/src/repository.py both have, and the calls of them in
-- worker/src/consumer.py. A call takes a flag whether the database answers.
pub mod Registration
mod Tests
use highthroughputingestion.Base.{
  ℕ, ◌+◌, ◌≤◌, ◌≡◌, refl, ◌∙◌, Bool, true, false, Option, none, some, String, str_eq, eq_iff, List,
  [], ◌∷◌, find, count, update_where, is_some, if◌then◌else◌, arith, Option-cases, inl, inr,
  Bool-cases,
}
use highthroughputingestion.Base.{
  Exec, Result, returned, raised, Error, value_error, assertion_error, database_error, pure, modify,
  when, catch, ◌>>=◌, ◌>>◌,
}
use highthroughputingestion.Runtime.{Runtime}
use highthroughputingestion.Float.{Float, of_ℕ}
use highthroughputingestion.Worker.Consumer.{Consumer, WorkerState, idle}

pub data WorkerStatus : Type 0 where
  registered active draining : WorkerStatus

module _ (F : Float) where
  -- The keyword arguments of both calls.
  pub record Beat : Type 0 where
    pub status : WorkerStatus
    pub current_state : WorkerState
    pub current_document_id : Option String
    pub cpu_usage_pct : F.Carrier
    pub memory_usage_pct : F.Carrier
    pub processing_rate : F.Carrier
    pub failed_jobs : ℕ
    pub retry_count : ℕ

  -- A row of `worker_status`.
  pub record WorkerRow : Type 0 where
    pub worker_id : String
    pub hostname : String
    pub process_id : ℕ
    pub beat : Beat
    pub last_heartbeat : ℕ
    pub registered_at : ℕ

  pub record Fleet : Type 0 where
    pub pool : Bool
    pub workers : List WorkerRow

  abbrev pub is_worker : String → WorkerRow → Bool
  is_worker id w = str_eq w.worker_id id

  unfoldable pub connect_fleet : Bool → Exec Fleet (Unit {0})
  connect_fleet reachable s =
      if s.pool
      then (if reachable then (returned tt, s) else (raised database_error, s))
      else (raised assertion_error, s)

  -- `uuid.UUID(current_document_id) if current_document_id else None`
  unfoldable pub parse_current : Runtime → Option String → Exec Fleet (Option String)
  parse_current rt none s = (returned none, s)
  parse_current rt (some text) s =
      if str_eq text "" then (returned none, s) else elim (rt.uuid text) [
        | none ↦ (raised value_error, s)
        | some id ↦ (returned (some id), s)
      ]

  -- `ON CONFLICT (worker_id) DO UPDATE SET ...`
  abbrev pub upsert : WorkerRow → List WorkerRow → List WorkerRow
  upsert row ws =
      if is_some (find (is_worker row.worker_id) ws)
      then update_where (is_worker row.worker_id)
          (λ w. record w {
            hostname = row.hostname;
            process_id = row.process_id;
            beat = row.beat;
            last_heartbeat = row.last_heartbeat;
          })
          ws
      else row ∷ ws

  -- The row of a worker that starts.
  abbrev pub registration : String → String → ℕ → Beat → ℕ → Option String → WorkerRow
  registration worker_id hostname process_id b now document = record {
    worker_id = worker_id;
    hostname = hostname;
    process_id = process_id;
    beat = record b { current_document_id = document };
    last_heartbeat = now;
    registered_at = now;
  }

  abbrev pub refreshed : Beat → ℕ → Option String → WorkerRow → WorkerRow
  refreshed b now document w = record w {
    beat = record b { current_document_id = document };
    last_heartbeat = now;
  }

  unfoldable pub register_worker :
      Runtime → String → String → ℕ → Beat → ℕ → Bool → Exec Fleet (Unit {0})
  register_worker rt worker_id hostname process_id b now reachable = do
    connect_fleet reachable
    document ← parse_current rt b.current_document_id
    modify (λ s. record s {
      workers = upsert (registration worker_id hostname process_id b now document) s.workers;
    })

  -- `UPDATE worker_status SET ... WHERE worker_id = $1`
  unfoldable pub heartbeat_worker : Runtime → String → Beat → ℕ → Bool → Exec Fleet (Unit {0})
  heartbeat_worker rt worker_id b now reachable = do
    connect_fleet reachable
    document ← parse_current rt b.current_document_id
    modify (λ s. record s {
      workers = update_where (is_worker worker_id) (refreshed b now document) s.workers;
    })

  -- What a consumer reports of itself.
  unfoldable pub beat_of : Consumer F → ℕ → Beat
  beat_of c retry_count = record {
    status = active;
    current_state = c.current_state;
    current_document_id = c.current_document_id;
    cpu_usage_pct = F.decimal 0 1;
    memory_usage_pct = F.decimal 0 1;
    processing_rate = c.processing_rate;
    failed_jobs = c.failed_jobs;
    retry_count = retry_count;
  }

  abbrev pub first_beat : WorkerStatus → ℕ → ℕ → Beat
  first_beat status failed_jobs retry_count = record {
    status = status;
    current_state = idle;
    current_document_id = none;
    cpu_usage_pct = F.decimal 0 1;
    memory_usage_pct = F.decimal 0 1;
    processing_rate = F.decimal 0 1;
    failed_jobs = failed_jobs;
    retry_count = retry_count;
  }

  -- The calls of the table that a worker makes: at its start and in each round of the heartbeat loop
  -- the exceptions are logged, at its end they are not caught.
  pub data Call : Type 0 where
    starts : String → String → ℕ → Call
    beats : String → Consumer F → ℕ → Call
    stops : String → Consumer F → ℕ → Call

  abbrev pub caller : Call → String
  caller (starts id host process) = id
  caller (beats id c retries) = id
  caller (stops id c retries) = id

  unfoldable pub call : Runtime → Call → ℕ → Bool → Exec Fleet (Unit {0})
  call rt (starts id host process) now ok s =
      when s.pool
        (catch (register_worker rt id host process (first_beat active 0 0) now ok) (λ _. pure tt)) s
  call rt (beats id c retries) now ok s =
      when s.pool (catch (heartbeat_worker rt id (beat_of c retries) now ok) (λ _. pure tt)) s
  call rt (stops id c retries) now ok s =
      when s.pool (heartbeat_worker rt id (first_beat draining c.failed_jobs retries) now ok) s

  unfoldable pub calls : Runtime → List (Call × ℕ × Bool) → Fleet → Fleet
  calls rt [] s = s
  calls rt ((c, now, ok) ∷ rest) s = calls rt rest (call rt c now ok s).1
