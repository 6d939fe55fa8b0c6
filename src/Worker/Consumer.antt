-- ===== src/Worker/Consumer.antt =====
-- `handle_record` of `WorkerBatchConsumer` (worker/src/consumer.py), with no other task in between;
-- Worker.Tasks lets the tasks of a batch alternate. The heartbeats are in Worker.Heartbeats. How the
-- loop waits for the tasks (`gather`), its commit and the clients' start-up are not modelled.
use highthroughputingestion.Base.{ℕ, ◌+◌, ◌-◌, ℤ, Bool, false, Option, none, some, String, str_eq}
use highthroughputingestion.Base.{
  Exec, pure, raised, returned, modify, raise_if, branch, catch, finally, on, ◌>>=◌, ◌>>◌, Error,
  value_error, attribute_error, ◌&&◌, runtime_error, not,
}
use highthroughputingestion.Runtime.{Runtime}
use highthroughputingestion.Float.{Float, max, of_ℕ}
use highthroughputingestion.Database.{Event, kafka_consumed, processing_failed, info, error}
use highthroughputingestion.Repository.{Repository}
use highthroughputingestion.Worker.Results.{append_event}
use highthroughputingestion.Worker.Processor.{
  Payload, Processor, Conditions, or_text, process_event,
}

pub data WorkerState : Type 0 where
  idle processing : WorkerState

-- What `json.loads` makes of a record: a dict, or another value, with its truth value.
pub data Value : Type 0 where
  dict : Payload → Value
  other : Bool → Value

-- A record of a partition: its value, and `none` where `json.loads` raises.
pub record Record : Type 0 where
  pub value : Option Value
  pub topic : String
  pub partition : ℕ
  pub offset : ℤ

module _ (F : Float) where
  -- The fields of the consumer, the processor it calls, and how many durations were observed.
  pub record Consumer : Type 0 where
    pub processor : Processor
    pub current_state : WorkerState
    pub current_document_id : Option String
    pub processing_rate : F.Carrier
    pub failed_jobs : ℕ
    pub processed_jobs : ℕ
    pub active_jobs : ℕ
    pub observed : ℕ

  -- What the handling of one record meets.
  pub record Visit : Type 0 where
    pub conditions : Conditions
    -- `time.monotonic() - started_at`
    pub elapsed : F.Carrier
    pub consumed_ok : Bool
    pub failure_ok : Bool

-- `payload.setdefault(...)` for the three entries about the broker
unfoldable pub with_position : Record → Payload → Payload
with_position m p = record p {
  kafka_topic = elim p.kafka_topic [ none ↦ some m.topic | some t ↦ some t ];
  kafka_partition = elim p.kafka_partition [ none ↦ some m.partition | some n ↦ some n ];
  kafka_offset = elim p.kafka_offset [ none ↦ some m.offset | some i ↦ some i ];
}

-- The payload of a record, once it is parsed and has its position.
abbrev positioned : Record → Value → Value
positioned m (dict p) = dict (with_position m p)
positioned m (other truthy) = other truthy

abbrev pub payload_of : Record → Option Value
payload_of m = elim m.value [ none ↦ none | some x ↦ some (positioned m x) ]

-- `payload.get("document_id") or payload.get("job_id")`
abbrev pub document_id_of : Payload → Option String
document_id_of p = or_text p.document_id p.job_id

abbrev named : Option String → Bool
named none = false
named (some text) = not (str_eq text "")

-- `payload and (payload.get("document_id") or payload.get("job_id"))`, of a dict
abbrev pub has_name : Payload → Bool
has_name p = named (document_id_of p)

module _ (F : Float) (rt : Runtime) (v : Visit F) (m : Record) where
  abbrev pub in_repository : {A : Type 0} → Exec Repository A → Exec (Consumer F) A
  in_repository =
      on (λ s. s.processor.repository)
        (λ r s. record s { processor = record (s.processor) { repository = r } })

  abbrev pub in_processor : {A : Type 0} → Exec Processor A → Exec (Consumer F) A
  in_processor = on (λ s. s.processor) (λ p s. record s { processor = p })

  unfoldable pub consumed_event : Payload → Event
  consumed_event p = record {
    document_id = document_id_of p;
    agency_id = p.agency_id;
    sequence_number = p.sequence_number;
    event_type = kafka_consumed;
    worker_id = some v.conditions.worker_id;
    kafka_partition = some m.partition;
    kafka_offset = some m.offset;
    severity = info;
    message = "Kafka message consumed and queued for processing.";
  }

  unfoldable pub failure_event : Payload → Error → Event
  failure_event p err = record {
    document_id = document_id_of p;
    agency_id = p.agency_id;
    sequence_number = p.sequence_number;
    event_type = processing_failed;
    worker_id = some v.conditions.worker_id;
    kafka_partition = some m.partition;
    kafka_offset = some m.offset;
    severity = error;
    message = v.conditions.describe err;
  }

  -- Only a dict has the method `setdefault`.
  abbrev pub parsed : Option Value → Exec (Consumer F) Payload
  parsed none s = (raised value_error, s)
  parsed (some (other truthy)) s = (raised attribute_error, s)
  parsed (some (dict p)) s = (returned p, s)

  -- `self.processed_jobs += 1`, and the new rate
  unfoldable pub count_success : Consumer F → Consumer F
  count_success s = record s {
    processed_jobs = s.processed_jobs + 1;
    processing_rate =
        max F (of_ℕ F 0) (F.div (of_ℕ F (s.processed_jobs + 1)) (max F (of_ℕ F 1) v.elapsed));
  }

  -- The body of the `try` of `handle_record`.
  unfoldable pub body : Exec (Consumer F) (Unit {0})
  body = do
    p ← parsed (payload_of m)
    modify (λ s. record s { current_document_id = document_id_of p })
    in_repository (append_event rt (consumed_event p) v.consumed_ok)
    succeeded ← in_processor (process_event rt v.conditions p)
    raise_if (not succeeded) runtime_error
    modify count_success

  -- Only a dict has the method `get`, which is called where there is a pool and a true value.
  abbrev pub report : Option Value → Error → Exec (Consumer F) (Unit {0})
  report none err s = (returned tt, s)
  report (some (other truthy)) err s =
      raise_if (s.processor.repository.pool && truthy) attribute_error s
  report (some (dict p)) err s =
      branch (has_name p) (in_repository (append_event rt (failure_event p err) v.failure_ok))
        (pure tt) s

  -- Its `except` clause.
  unfoldable pub on_error : Error → Exec (Consumer F) (Unit {0})
  on_error err = do
    modify (λ s. record s { failed_jobs = s.failed_jobs + 1 })
    report (payload_of m) err

  -- Its `finally` clause; subtraction stops at 0, which is `max(0, ...)`.
  unfoldable pub leave : Consumer F → Consumer F
  leave s = record s {
    observed = s.observed + 1;
    active_jobs = s.active_jobs - 1;
    current_state = idle;
    current_document_id = none;
  }

  unfoldable pub enter : Consumer F → Consumer F
  enter s = record s { current_state = processing; active_jobs = s.active_jobs + 1 }

  unfoldable pub handle_record : Exec (Consumer F) (Unit {0})
  handle_record s = finally (catch body on_error) leave (enter s)
