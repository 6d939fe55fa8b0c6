-- ===== src/Worker/Tasks.antt =====
-- The tasks of worker/src/consumer.py as an event loop runs them: a task is cut at every statement
-- or transaction of the database, and other tasks of the batch may run between two of its pieces.
-- An assignment between two calls is a piece of its own here.
pub mod Alone
pub mod Schedule
mod Steady
pub mod Safety
mod Tests
use highthroughputingestion.Base.{
  ℕ, ◌+◌, ltb, Bool, true, false, not, Option, none, some, String, str_eq, or_default, pos,
}
use highthroughputingestion.Base.{
  Exec, Result, returned, raised, raise, raise_if, modify, Error, value_error, attribute_error,
  runtime_error, ◌&&◌,
}
use highthroughputingestion.Base
use highthroughputingestion.Runtime.{Runtime}
use highthroughputingestion.Float.{Float}
use highthroughputingestion.Repository.{Repository, connect}
use highthroughputingestion.Worker.Results.{
  append_event, mark_processing_started, save_result, set_retry, log_retry,
}
use highthroughputingestion.Worker.Processor.{
  Payload, Processor, Conditions, document_of, position_of, has_completed, duration_ms,
  update_failed, processing_max_retries, processing_event, completed_event, failed_event,
}
use highthroughputingestion.Worker.Consumer.{
  Consumer, Visit, Record, Value, dict, other, parsed, payload_of, document_id_of, consumed_event,
  failure_event, has_name, count_success,
}

-- A coroutine: it has ended, or its next piece changes the state, and what follows depends on what
-- the piece read.
pub data Task (S A : Type 0) : Type 0 where
  finished : Result A → Task S A
  pause : (S → S) → (S → Task S A) → Task S A

module _ {S : Type 0} where
  -- A call that no other task can interrupt.
  abbrev pub atomically : {A : Type 0} → Exec S A → Task S A
  atomically m = pause (λ s. (m s).1) (λ s. finished (m s).0)

  abbrev pub resume : {A B : Type 0} → Result A → (A → Task S B) → Task S B
  resume (returned a) k = k a
  resume (raised e) k = finished (raised e)

  abbrev pub bind_task : {A B : Type 0} → Task S A → (A → Task S B) → Task S B
  bind_task (finished r) k = resume r k
  bind_task (pause f next) k = pause f (λ s. bind_task (next s) k)

  abbrev pub rescue : {A : Type 0} → Result A → (Error → Task S A) → Task S A
  rescue (returned a) h = finished (returned a)
  rescue (raised e) h = h e

  -- `try: t` with `except Exception: h`
  abbrev pub catch_task : {A : Type 0} → Task S A → (Error → Task S A) → Task S A
  catch_task (finished r) h = rescue r h
  catch_task (pause f next) h = pause f (λ s. catch_task (next s) h)

  abbrev pub branch_task : {A : Type 0} → Bool → Task S A → Task S A → Task S A
  branch_task true t u = t
  branch_task false t u = u

-- A task on a part of the state.
abbrev pub on_task : {S T A : Type 0} → (S → T) → (T → S → S) → Task T A → Task S A
on_task get put (finished r) = finished r
on_task get put (pause f next) =
    pause (λ s. put (f (get s)) s) (λ s. on_task get put (next (get s)))

infixl 10 ◌>>=◌ ◌>>◌
abbrev pub ◌>>=◌ : {S A B : Type 0} → Task S A → (A → Task S B) → Task S B
◌>>=◌ = bind_task

abbrev pub ◌>>◌ : {S A B : Type 0} → Task S A → Task S B → Task S B
t >> u = bind_task t (λ _. u)

module _ (rt : Runtime) (c : Conditions) where
  -- `if not repository.pool: return`
  abbrev pub with_pool_task : Task Repository (Unit {0}) → Task Repository (Unit {0})
  with_pool_task t = pause (λ r. r) (λ r. branch_task r.pool t (finished (returned tt)))

  unfoldable pub mark_processing_task : String → Payload → Task Repository (Unit {0})
  mark_processing_task document_id p = with_pool_task (
      atomically (
        mark_processing_started rt document_id (position_of c p) c.worker_id c.started_at c.now
          c.started_ok)
      >> atomically (append_event rt (processing_event rt c document_id p) c.started_event_ok))

  unfoldable pub mark_completed_task : String → Payload → Task Repository (Unit {0})
  mark_completed_task document_id p = with_pool_task (
      atomically (
        save_result rt document_id (position_of c p) c.worker_id c.started_at c.completed_at
          (duration_ms rt c) c.now c.saved_ok)
      >> atomically (append_event rt (completed_event rt c document_id p) c.saved_event_ok))

  unfoldable pub mark_retry_task : String → Payload → ℕ → Task Repository (Unit {0})
  mark_retry_task document_id p retry_count = with_pool_task (
      atomically (set_retry rt document_id retry_count c.now c.retry_ok) >>= λ id. atomically (
        log_retry id c.worker_id (or_default p.kafka_partition 0)
          (or_default p.kafka_offset (pos 0)) c.retry_event_ok))

  unfoldable pub mark_failed_task : String → Payload → Error → ℕ → Task Repository (Unit {0})
  mark_failed_task document_id p exc retry_count = with_pool_task (
      atomically
        (Base.◌>>◌ (connect c.failed_ok) (update_failed rt c (rt.uuid document_id) retry_count))
      >> atomically (append_event rt (failed_event rt c document_id p exc) c.failed_event_ok))

  abbrev pub repository_task : {A : Type 0} → Task Repository A → Task Processor A
  repository_task = on_task (λ s. s.repository) (λ r s. record s { repository = r })

  unfoldable pub attempt_task : String → Payload → Task Processor Bool
  attempt_task document_id p = do
    repository_task (mark_processing_task document_id p)
    repository_task (mark_completed_task document_id p)
    atomically (modify (λ s. record s { processed_total = s.processed_total + 1 }))
    finished (returned true)

  unfoldable pub give_up_task : String → Payload → Error → Task Processor Bool
  give_up_task document_id p exc =
      let retry_count = or_default p.retry_count 0 + 1 in
      branch_task (ltb retry_count processing_max_retries)
        (repository_task (mark_retry_task document_id p retry_count)
          >> atomically (modify (λ s. record s { retry_total = s.retry_total + 1 }))
          >> finished (raised exc))
        (repository_task (mark_failed_task document_id p exc retry_count)
          >> atomically (modify (λ s. record s { failed_total = s.failed_total + 1 }))
          >> finished (raised exc))

  unfoldable pub process_task : Payload → Task Processor Bool
  process_task p = do
    atomically (raise_if (str_eq (document_of p) "") value_error)
    done ← repository_task (atomically (has_completed rt c (document_of p)))
    branch_task done (finished (returned true))
        (catch_task (attempt_task (document_of p) p) (give_up_task (document_of p) p))

module _ (F : Float) (rt : Runtime) (v : Visit F) (m : Record) where
  abbrev pub consumer_task : {A : Type 0} → Task Repository A → Task (Consumer F) A
  consumer_task =
      on_task (λ s. s.processor.repository)
        (λ r s. record s { processor = record (s.processor) { repository = r } })

  abbrev pub processor_task : {A : Type 0} → Task Processor A → Task (Consumer F) A
  processor_task = on_task (λ s. s.processor) (λ p s. record s { processor = p })

  unfoldable pub body_task : Task (Consumer F) (Unit {0})
  body_task = do
    p ← atomically (parsed F rt v m (payload_of m))
    atomically (modify (λ s. record s { current_document_id = document_id_of p }))
    consumer_task (atomically (append_event rt (consumed_event F rt v m p) v.consumed_ok))
    succeeded ← processor_task (process_task rt v.conditions p)
    atomically (raise_if (not succeeded) runtime_error)
    atomically (modify (count_success F rt v m))

  abbrev pub report_task : Option Value → Error → Task (Consumer F) (Unit {0})
  report_task none err = finished (returned tt)
  report_task (some (other truthy)) err =
      atomically (λ s. raise_if (s.processor.repository.pool && truthy) attribute_error s)
  report_task (some (dict p)) err =
      branch_task (has_name p)
        (consumer_task (atomically (append_event rt (failure_event F rt v m p err) v.failure_ok)))
        (finished (returned tt))

  unfoldable pub on_error_task : Error → Task (Consumer F) (Unit {0})
  on_error_task err = do
    atomically (modify (λ s. record s { failed_jobs = s.failed_jobs + 1 }))
    report_task (payload_of m) err

  -- What `handle_record` does between the entry and the `finally` clause.
  unfoldable pub record_task : Task (Consumer F) (Unit {0})
  record_task = catch_task body_task on_error_task
