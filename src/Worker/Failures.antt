-- ===== src/Worker/Failures.antt =====
-- What becomes of a message whose processing fails.
use highthroughputingestion.Base.{
  ℕ, ◌+◌, ◌≡◌, refl, Bool, true, false, none, some, String, List, [], ◌∷◌, All, arith, update_where,
  Option-cases, inl, inr, ltb, or_default,
}
use highthroughputingestion.Base.{
  Exec, Error, Keeps, keeps_rules, Keeps-bind, Keeps-branch, Keeps-pure, branch, modify, ◌>>◌,
  raise,
}
use highthroughputingestion.Runtime.{Runtime}
use highthroughputingestion.Database.{
  Database, Document, Event, ProcessingResult, Status, queued, processing, retrying, completed,
  failed, has_id, update_document, insert_event_of, insert_event, insert_result,
}
use highthroughputingestion.Repository
use highthroughputingestion.Repository.{Repository, connect, parse_uuid}
use highthroughputingestion.Worker.Results.{
  Position, completed_document, saved, marked, result_row, set_completed, set_processing,
  set_retrying, store, save_result, mark_processing_started, record_retry, append_event,
}
use highthroughputingestion.Worker.Processor.{
  Payload, Processor, Conditions, has_completed, mark_processing, mark_completed, mark_retry,
  processing_max_retries, attempt, give_up, process_event, in_repository,
}

abbrev pub is_failed : Status → Bool
is_failed queued = false
is_failed processing = false
is_failed retrying = false
is_failed completed = false
is_failed failed = true

-- No document has the status FAILED.
abbrev pub NoneFailed : List Document → Type 0
NoneFailed ds = All (λ d. is_failed d.status ≡ false) ds

abbrev Holding : Repository → Type 0
Holding r = NoneFailed r.db.documents

update_where-NoneFailed :
    (p : Document → Bool) (f : Document → Document) (ds : List Document)
    → ((d : Document) → is_failed (f d).status ≡ false)
    → NoneFailed ds
    → NoneFailed (update_where p f ds)
update_where-NoneFailed p f [] k h = tt
update_where-NoneFailed p f (d ∷ ds) k h =
    (ground (arith, k d, h.0), update_where-NoneFailed p f ds k h.1)

connect-Holding : (reachable : Bool) → Keeps Holding (connect reachable)
unfolding connect
connect-Holding reachable = record { at = λ r h. ground arith }

parse_uuid-Holding : (rt : Runtime) (text : String) → Keeps Holding (parse_uuid rt text)
parse_uuid-Holding rt text = record { at = λ r h. ground arith }

append_event-Holding :
    (rt : Runtime) (e : Event) (reachable : Bool) → Keeps Holding (append_event rt e reachable)
unfolding append_event Repository.append_event connect insert_event
append_event-Holding rt e reachable = record { at = λ r h. ground arith }

insert_event_of-documents :
    (id : String) (event : Document → Event) (db : Database)
    → (insert_event_of id event db).documents ≡ db.documents
unfolding insert_event_of
insert_event_of-documents id event db = ground arith

marked-NoneFailed :
    (id : String) (f : Document → Document) (event : Document → Event) (db : Database)
    → ((d : Document) → is_failed (f d).status ≡ false)
    → NoneFailed db.documents
    → NoneFailed (marked id f event db).documents
unfolding update_document
marked-NoneFailed id f event db k h =
    rw (insert_event_of-documents id event (update_document id f db))
      (update_where-NoneFailed (has_id id) f db.documents k h)

insert_result-documents :
    (row : ProcessingResult) (db mid : Database)
    → insert_result row db ≡ some mid
    → NoneFailed db.documents
    → NoneFailed mid.documents
unfolding insert_result
insert_result-documents row db mid e h = ground arith

saved-NoneFailed :
    (id : String) (at : Position) (worker_id : String) (started done duration now : ℕ)
    (r : Repository)
    → Holding r
    → Holding (store (saved id at worker_id started done duration now r.db) r).1
unfolding set_completed saved
saved-NoneFailed id at worker_id started done duration now r h =
    elim (Option-cases (insert_result (result_row id worker_id started done duration) r.db)) [
      | inl refused ↦ rw (saved, refused) h
      | inr (mid, inserted) ↦
          rw (saved, inserted)
            (marked-NoneFailed id (set_completed at worker_id started done duration now) _ mid
              (λ d. refl)
              (insert_result-documents (result_row id worker_id started done duration) r.db mid
                inserted h))
    ]

guard-Holding :
    {A : Type 0} (m n : Exec Repository A)
    → Keeps Holding m
    → Keeps Holding n
    → Keeps Holding (λ r. branch r.pool m n r)
guard-Holding m n km kn = record {
  at = λ r h. (Keeps-branch {P = Holding} r.pool m n km kn).at r h;
}

module _ (rt : Runtime) (c : Conditions) where
  save_result-Holding :
      (text : String) (at : Position) (worker_id : String) (started done duration now : ℕ)
      (reachable : Bool)
      → Keeps Holding (save_result rt text at worker_id started done duration now reachable)
  unfolding save_result
  save_result-Holding text at worker_id started done duration now reachable =
      Keeps-bind _ _ (connect-Holding reachable) (λ _.
        Keeps-bind _ _ (parse_uuid-Holding rt text) (λ id. record {
          at = λ r h. saved-NoneFailed id at worker_id started done duration now r h;
        }))

  mark_processing-Holding : (id : String) (p : Payload) → Keeps Holding (mark_processing rt c id p)
  unfolding mark_processing mark_processing_started set_processing
  mark_processing-Holding id p =
      guard-Holding _ _
        (search
          (
            keeps_rules, connect-Holding, parse_uuid-Holding, append_event-Holding,
            marked-NoneFailed,
          )
          depth 14)
        (Keeps-pure tt)

  mark_completed-Holding : (id : String) (p : Payload) → Keeps Holding (mark_completed rt c id p)
  unfolding mark_completed
  mark_completed-Holding id p =
      guard-Holding _ _ (search (keeps_rules, save_result-Holding, append_event-Holding) depth 14)
        (Keeps-pure tt)

  set_retrying-NoneFailed :
      (id : String) (n now : ℕ) (db : Database)
      → NoneFailed db.documents
      → NoneFailed (update_document id (set_retrying n now) db).documents
  unfolding update_document set_retrying
  set_retrying-NoneFailed id n now db h =
      update_where-NoneFailed (has_id id) (set_retrying n now) db.documents (λ d. refl) h

  event_of-NoneFailed :
      (id : String) (event : Document → Event) (db : Database)
      → NoneFailed db.documents
      → NoneFailed (insert_event_of id event db).documents
  event_of-NoneFailed id event db h = rw (insert_event_of-documents id event db) h

  mark_retry-Holding : (id : String) (p : Payload) (n : ℕ) → Keeps Holding (mark_retry rt c id p n)
  unfolding mark_retry record_retry
  mark_retry-Holding id p n =
      guard-Holding _ _
        (search
          (
            keeps_rules, connect-Holding, parse_uuid-Holding, set_retrying-NoneFailed,
            event_of-NoneFailed,
          )
          depth 14)
        (Keeps-pure tt)

  has_completed-Holding : (id : String) → Keeps Holding (has_completed rt c id)
  unfolding has_completed completed_document
  has_completed-Holding id =
      guard-Holding _ _ (search (keeps_rules, connect-Holding, parse_uuid-Holding) depth 14)
        (Keeps-pure false)

-- No document has failed, and the metric of failures stands at `n`.
abbrev Spared : ℕ → Processor → Type 0
Spared n s = NoneFailed s.repository.db.documents × (s.failed_total ≡ n)

module _ (rt : Runtime) (c : Conditions) (n : ℕ) where
  in_repository-Spared :
      {A : Type 0} (m : Exec Repository A) → Keeps Holding m → Keeps (Spared n) (in_repository m)
  in_repository-Spared m k = record { at = λ s h. (k.at s.repository h.0, h.1) }

  modify-Spared :
      (f : Processor → Processor)
      → ((s : Processor) → (f s).repository ≡ s.repository)
      → ((s : Processor) → (f s).failed_total ≡ s.failed_total)
      → Keeps (Spared n) (modify f)
  modify-Spared f same total = record { at = λ s h. (rw (same s) h.0, rw (total s) h.1) }

  attempt-Spared : (id : String) (p : Payload) → Keeps (Spared n) (attempt rt c id p)
  unfolding attempt
  attempt-Spared id p =
      search
        (
          keeps_rules, in_repository-Spared, modify-Spared, mark_processing-Holding,
          mark_completed-Holding,
        )
        depth 12

  retry-Spared :
      (id : String) (p : Payload) (e : Error) (m : ℕ)
      → Keeps {A = Bool} (Spared n) (
          in_repository (mark_retry rt c id p m)
          >> modify (λ s. record s { retry_total = s.retry_total + 1 })
          >> raise e)
  retry-Spared id p e m =
      search (keeps_rules, in_repository-Spared, modify-Spared, mark_retry-Holding) depth 12

  give_up-Spared :
      (id : String) (p : Payload) (e : Error)
      → ltb (or_default p.retry_count 0 + 1) processing_max_retries ≡ true
      → Keeps (Spared n) (give_up rt c id p e)
  unfolding give_up
  give_up-Spared id p e few = record {
    at = λ s h. rw few ((retry-Spared id p e (or_default p.retry_count 0 + 1)).at s h);
  }

  process_event-Spared :
      (p : Payload)
      → ltb (or_default p.retry_count 0 + 1) processing_max_retries ≡ true
      → Keeps (Spared n) (process_event rt c p)
  unfolding process_event
  process_event-Spared p few =
      search
        (keeps_rules, in_repository-Spared, has_completed-Holding, attempt-Spared, give_up-Spared)
        depth 12

-- A message of the API, which has no retry count, never makes a document FAILED where none was, and
-- is never counted as failed, whatever goes wrong.
pub never_failed :
    (rt : Runtime) (c : Conditions) (p : Payload) (s : Processor)
    → p.retry_count ≡ none
    → NoneFailed s.repository.db.documents
    → let s' = (process_event rt c p s).1 in
      NoneFailed s'.repository.db.documents × (s'.failed_total ≡ s.failed_total)
never_failed rt c p s first h =
    (process_event-Spared rt c s.failed_total p (ground (arith, first))).at s (h, refl)
