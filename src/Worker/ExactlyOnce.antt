-- ===== src/Worker/ExactlyOnce.antt =====
-- A message that is delivered again: the document keeps its one result.
use highthroughputingestion.Base.{
  ℕ, ◌≡◌, refl, ◌∙◌, subst, Bool, true, false, Option, none, some, String, str_eq, arith,
  Bool-cases, inl, inr, eq_iff,
}
use highthroughputingestion.Base.{
  Exec, Result, returned, raised, Error, Keeps, keeps_rules, Keeps-branch, Keeps-pure, ◌>>◌, raise,
  put_back, database_error, Leads-trivial,
}
use highthroughputingestion.Base.{
  Led, Leads, Leads-raise, Leads-branch, Leads-catch, Leads-keep, Leads-bind,
}
use highthroughputingestion.Runtime.{Runtime}
use highthroughputingestion.Database.{
  Database, Document, Event, result_exists, insert_event, update_document, insert_event_of,
  insert_result,
}
use highthroughputingestion.Repository
use highthroughputingestion.Repository.{
  Repository, connect, connect-cases, connect_open, parse_uuid, parse_optional_uuid, store_event,
}
use highthroughputingestion.Worker.Results.{
  Position, completed_document, saved, marked, store, save_result, mark_processing_started,
  append_event,
}
use highthroughputingestion.Worker.Processor.{
  Payload, Processor, Conditions, document_of, has_completed, mark_processing, mark_completed,
  attempt, give_up, process_event, in_repository, with_pool,
}

pub parse_uuid_ok :
    (rt : Runtime) (text id : String) (r : Repository)
    → rt.uuid text ≡ some id
    → parse_uuid rt text r ≡ (returned id, r)
parse_uuid_ok rt text id r e = ground (arith, e)

pub has_completed_lem :
    (rt : Runtime) (c : Conditions) (text id : String) (r : Repository)
    → rt.uuid text ≡ some id
    → r.pool ≡ true
    → c.completed_ok ≡ true
    → has_completed rt c text r ≡ (returned (result_exists id r.db), r)
unfolding has_completed completed_document connect
has_completed_lem rt c text id r parsed opened up =
    rw (opened, up, parse_uuid_ok rt text id (record { pool = true; db = r.db }) parsed)

-- A document with a result is skipped: the call returns True and changes nothing.
pub process_event_skips :
    (rt : Runtime) (c : Conditions) (p : Payload) (s : Processor) (id : String)
    → str_eq (document_of p) "" ≡ false
    → rt.uuid (document_of p) ≡ some id
    → s.repository.pool ≡ true
    → c.completed_ok ≡ true
    → result_exists id s.repository.db ≡ true
    → process_event rt c p s ≡ (returned true, s)
unfolding process_event
process_event_skips rt c p s id named parsed opened up done =
    rw (named, has_completed_lem rt c (document_of p) id s.repository parsed opened up, done)

then_raise :
    (m : Exec Processor (Unit {0})) (e : Error) (Q : Processor → Type 0)
    → Leads {A = Bool} (λ s. Unit {0}) Q (m >> raise e)
then_raise m e Q = Leads-bind m (λ _. raise e) (Leads-trivial m) (λ _. Leads-raise e)

-- The connection is open, and the document has its result.
HasResult : String → Repository → Type 0
HasResult id r = (r.pool ≡ true) × (result_exists id r.db ≡ true)

IsOpen : Repository → Type 0
IsOpen r = r.pool ≡ true

pub saved-result :
    (id : String) (at : Position) (worker_id : String) (started done duration now : ℕ)
    (db db' : Database)
    → saved id at worker_id started done duration now db ≡ some db'
    → result_exists id db' ≡ true
unfolding saved insert_result result_exists insert_event_of update_document
saved-result id at worker_id started done duration now db db' e = ground (arith, eq_iff id id)

-- A property that only the pool and the results matter for.
module _ (P : Repository → Type 0)
    (same : (r r' : Repository)
      → r'.pool ≡ r.pool
      → r'.db.results ≡ r.db.results
      → P r
      → P r') where
  connect-Quiet : (reachable : Bool) → Keeps P (connect reachable)
  unfolding connect
  connect-Quiet reachable = record { at = λ r h. same r _ (ground arith) (ground arith) h }

  parse_uuid-Quiet : (rt : Runtime) (text : String) → Keeps P (parse_uuid rt text)
  parse_uuid-Quiet rt text = record { at = λ r h. same r _ (ground arith) (ground arith) h }

  append_event-Quiet :
      (rt : Runtime) (e : Event) (reachable : Bool) → Keeps P (append_event rt e reachable)
  unfolding append_event Repository.append_event connect insert_event
  append_event-Quiet rt e reachable = record {
    at = λ r h. same r _ (ground arith) (ground arith) h;
  }

  marked-results :
      (id : String) (f : Document → Document) (event : Document → Event) (db : Database)
      → (marked id f event db).results ≡ db.results
  unfolding insert_event_of update_document
  marked-results id f event db = ground arith

  mark_processing-Quiet :
      (rt : Runtime) (c : Conditions) (id : String) (p : Payload)
      → Keeps P (mark_processing rt c id p)
  unfolding mark_processing mark_processing_started
  mark_processing-Quiet rt c id p = record {
    at = λ r h.
        (Keeps-branch {P = P} r.pool _ _
            (search
              (keeps_rules, connect-Quiet, parse_uuid-Quiet, append_event-Quiet, marked-results)
              depth 14)
            (Keeps-pure tt)).at
          r h;
  }

module _ (rt : Runtime) (c : Conditions) (text id : String) (parsed : rt.uuid text ≡ some id) where
  save_result-HasResult :
      (at : Position) (worker_id : String) (started done duration now : ℕ) (reachable : Bool)
      → Leads IsOpen
          (HasResult id)
          (save_result rt text at worker_id started done duration now reachable)
  unfolding save_result IsOpen HasResult
  save_result-HasResult at worker_id started done duration now reachable = record {
    at = λ r opened. elim (connect-cases reachable r) [
      | inr (e, down) ↦ rw down tt
      | inl up ↦
          rw (up, parse_uuid_ok rt text id r parsed)
            (go r opened (saved id at worker_id started done duration now r.db) refl)
    ];
  }
    where
      go :
          (r : Repository)
          → r.pool ≡ true
          → (o : Option Database) → saved id at worker_id started done duration now r.db ≡ o
          → Led (HasResult id) (store o r)
      go r opened none e = tt
      go r opened (some db) e =
          (opened, saved-result id at worker_id started done duration now r.db db e)

  HasResult-quiet :
      (r r' : Repository)
      → r'.pool ≡ r.pool
      → r'.db.results ≡ r.db.results
      → HasResult id r
      → HasResult id r'
  unfolding HasResult result_exists
  HasResult-quiet r r' pools results h = (pools ∙ h.0, rw results h.1)

  IsOpen-quiet :
      (r r' : Repository) → r'.pool ≡ r.pool → r'.db.results ≡ r.db.results → IsOpen r → IsOpen r'
  unfolding IsOpen
  IsOpen-quiet r r' pools results h = pools ∙ h

  guarded :
      (m : Exec Repository (Unit {0}))
      → Leads IsOpen (HasResult id) m
      → Leads IsOpen (HasResult id) (with_pool rt c m)
  unfolding IsOpen
  guarded m l = record { at = λ r opened. rw opened (rw (← opened) (l.at r opened)) }

  mark_completed-HasResult :
      (p : Payload) → Leads IsOpen (HasResult id) (mark_completed rt c text p)
  unfolding mark_completed
  mark_completed-HasResult p = guarded _ (
      Leads-bind _ _ (save_result-HasResult _ _ _ _ _ _ _)
        (λ _. Leads-keep _ (append_event-Quiet (HasResult id) HasResult-quiet rt _ _)))

  -- The same of the processor's state.
  in_repository-Leads :
      {A : Type 0} (P Q : Repository → Type 0) (m : Exec Repository A)
      → Leads P Q m
      → Leads (λ s. P s.repository) (λ s. Q s.repository) (in_repository m)
  in_repository-Leads {A} P Q m l = record {
    at = λ s h. go s (m s.repository) (l.at s.repository h);
  }
    where
      go :
          (s : Processor) (r : Result A × Repository)
          → Led Q r
          → Led
              (λ (s : Processor). Q s.repository)
              (put_back (λ r s. record s { repository = r }) r s)
      go s (returned a, r) q = q
      go s (raised e, r) q = tt

  attempt-HasResult :
      (p : Payload)
      → Leads (λ s. IsOpen s.repository) (λ s. HasResult id s.repository) (attempt rt c text p)
  unfolding attempt
  attempt-HasResult p =
      Leads-bind _ _
        (in_repository-Leads IsOpen IsOpen _
          (Leads-keep _ (mark_processing-Quiet IsOpen IsOpen-quiet rt c text p)))
        (λ _.
          Leads-bind _ _ (in_repository-Leads IsOpen (HasResult id) _ (mark_completed-HasResult p))
            (λ _. record { at = λ s h. h }))

  give_up-raises :
      (p : Payload) (e : Error) (Q : Processor → Type 0)
      → Leads (λ s. Unit {0}) Q (give_up rt c text p e)
  unfolding give_up
  give_up-raises p e Q = search (Leads-branch, then_raise)

  has_completed_down :
      (r : Repository)
      → r.pool ≡ true
      → c.completed_ok ≡ false
      → has_completed rt c text r ≡ (raised database_error, r)
  unfolding has_completed completed_document connect
  has_completed_down r opened down =
      rw (opened, down, parse_uuid_ok rt text id (record { pool = true; db = r.db }) parsed)

process_event-Led :
    (rt : Runtime) (c : Conditions) (p : Payload) (s : Processor) (id : String)
    → str_eq (document_of p) "" ≡ false
    → rt.uuid (document_of p) ≡ some id
    → s.repository.pool ≡ true
    → Led (λ s'. HasResult id s'.repository) (process_event rt c p s)
unfolding process_event HasResult IsOpen
process_event-Led rt c p s id named parsed opened = elim (Bool-cases c.completed_ok) [
  | inr down ↦
      rw (named, has_completed_down rt c (document_of p) id parsed s.repository opened down) tt
  | inl up ↦
      rw (named, has_completed_lem rt c (document_of p) id s.repository parsed opened up)
        (elim (Bool-cases (result_exists id s.repository.db)) [
          | inl done ↦ rw done (opened, done)
          | inr new ↦ rw new (
              (Leads-catch _ _ (attempt-HasResult rt c (document_of p) id parsed p)
                  (λ e. give_up-raises rt c (document_of p) id parsed p e _)).at
                s opened)
        ])
]

-- A message with a valid document identifier whose processing returned, with a connection, is
-- processed once: whatever message for that document comes next, if its first query is answered, the
-- call returns True and changes nothing, in the tables and in the metrics.
pub process_event_once :
    (rt : Runtime) (c c' : Conditions) (p p' : Payload) (s s' : Processor) (b : Bool) (id : String)
    → str_eq (document_of p) "" ≡ false
    → rt.uuid (document_of p) ≡ some id
    → document_of p' ≡ document_of p
    → s.repository.pool ≡ true
    → process_event rt c p s ≡ (returned b, s')
    → c'.completed_ok ≡ true
    → process_event rt c' p' s' ≡ (returned true, s')
unfolding HasResult
process_event_once rt c c' p p' s s' b id named parsed same opened e up =
    let (opened', done) =
      subst (Led (λ s'. HasResult id s'.repository)) e
        (process_event-Led rt c p s id named parsed opened) in
    process_event_skips rt c' p' s' id (rw same named) (rw same parsed) opened' up done
