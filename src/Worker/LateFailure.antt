-- ===== src/Worker/LateFailure.antt =====
-- A message whose result is saved, but not the event behind it (worker/src/processor.py).
use highthroughputingestion.Base.{
  ◌≡◌, refl, Bool, true, false, Option, none, some, String, str_eq, List, [], ◌∷◌, find, is_some,
  update_where, arith, Bool-cases, inl, inr, ltb, ◌+◌, ℕ, or_default,
}
use highthroughputingestion.Base.{
  Exec, Result, returned, raised, Error, database_error, continue, ℤ,
}
use highthroughputingestion.Base.{put_back, modify, pure, ◌>>◌, raise, handle}
use highthroughputingestion.Runtime.{Runtime}
use highthroughputingestion.Database.{
  Database, Document, Event, retrying, has_id, result_exists, insert_event, references,
  update_document, insert_event_of, insert_result, for_document,
}
use highthroughputingestion.Repository
use highthroughputingestion.Repository.{Repository, connect, connect_open}
use highthroughputingestion.Worker.Results.{
  Position, store, saved, marked, save_result, mark_processing_started, record_retry, append_event,
  set_processing, set_completed, set_retrying,
}
use highthroughputingestion.Worker.Processor.{
  Payload, Processor, Conditions, processing_max_retries, document_of, mark_processing,
  mark_completed, in_repository, mark_retry, attempt, give_up, process_event,
}
use highthroughputingestion.Worker.ExactlyOnce.{
  parse_uuid_ok, has_completed_lem, saved-result, process_event_skips,
}

-- The connection is open, and the document is there.
record Known (id : String) (r : Repository) : Type 0 where
  opened : r.pool ≡ true
  row : Document
  found : find (has_id id) r.db.documents ≡ some row

find-update_where :
    (id : String) (f : Document → Document) (ds : List Document) {d : Document}
    → ((x : Document) → (f x).document_id ≡ x.document_id)
    → find (has_id id) ds ≡ some d
    → find (has_id id) (update_where (has_id id) f ds) ≡ some (f d)
find-update_where id f [] same h = cc
find-update_where id f (x ∷ ds) {d} same h =
    ground (arith, same x, find-update_where id f ds {d = d} same)

find-marked :
    (id : String) (f : Document → Document) (event : Document → Event) (db : Database)
    {d : Document}
    → ((x : Document) → (f x).document_id ≡ x.document_id)
    → find (has_id id) db.documents ≡ some d
    → find (has_id id) (marked id f event db).documents ≡ some (f d)
unfolding insert_event_of update_document
find-marked id f event db {d} same h =
    let e = find-update_where id f db.documents {d = d} same h in ground (arith, e)

module _ (rt : Runtime) (text id : String) (named : str_eq text "" ≡ false)
    (parsed : rt.uuid text ≡ some id) where
  -- A call that returned, with the connection and the document there.
  abbrev Ran : Result (Unit {0}) × Repository → Type 0
  Ran x = (x.0 ≡ returned tt) × Known id x.1

  started-Ran :
      (at : Position) (worker_id : String) (started now : ℕ) (r : Repository)
      → Known id r
      → Ran (mark_processing_started rt text at worker_id started now true r)
  unfolding mark_processing_started set_processing
  started-Ran at worker_id started now r k =
      rw (connect_open r k.opened, parse_uuid_ok rt text id r parsed)
        (
          refl,
          record {
            opened = k.opened;
            row = set_processing at worker_id started now k.row;
            found =
                find-marked id (set_processing at worker_id started now) _ r.db (λ x. refl) k.found;
          },
        )

  append_event-Ran :
      (e : Event) (r : Repository)
      → e.document_id ≡ some text
      → Known id r
      → Ran (append_event rt e true r)
  unfolding append_event Repository.append_event insert_event references
  append_event-Ran e r about k =
      rw
        (
          k.opened,
          connect_open (record r { pool = true }) refl,
          about,
          named,
          parse_uuid_ok rt text id (record r { pool = true }) parsed,
          k.found,
        )
        (refl, record { opened = refl; row = k.row; found = k.found })

  Ran-then :
      (x : Result (Unit {0}) × Repository) (n : Exec Repository (Unit {0}))
      → Ran x
      → ((r : Repository) → Known id r → Ran (n r))
      → Ran (continue x (λ _. n))
  Ran-then (returned tt, r) n ran next = next r ran.1
  Ran-then (raised e, r) n ran next = cc (ran.0)

  mark_processing-Ran :
      (c : Conditions) (p : Payload) (r : Repository)
      → c.started_ok ≡ true
      → c.started_event_ok ≡ true
      → Known id r
      → Ran (mark_processing rt c text p r)
  unfolding mark_processing
  mark_processing-Ran c p r first second k =
      let k' : Known id (record r { pool = true }) = record {
        opened = refl;
        row = k.row;
        found = k.found;
      } in
      rw (k.opened, first, second)
        (Ran-then _ _ (started-Ran _ _ _ _ (record r { pool = true }) k')
          (λ r k. append_event-Ran _ r refl k))

  -- The rows that the transaction of a result leaves.
  IsStored : Option Database → Type 0
  IsStored none = ⊥
  IsStored (some db) = (d : Document) × (find (has_id id) db.documents ≡ some d)

  saved-IsStored :
      (at : Position) (worker_id : String) (started done duration now : ℕ) (r : Repository)
      → Known id r
      → IsStored (saved id at worker_id started done duration now r.db)
  unfolding saved insert_result set_completed IsStored
  saved-IsStored at worker_id started done duration now r k =
      let f = set_completed at worker_id started done duration now in
      elim (Bool-cases (is_some (find (for_document id) r.db.results))) [
        | inl old ↦
            rw (IsStored, saved, insert_result, old)
              (f k.row, find-marked id f _ r.db (λ x. refl) k.found)
        | inr new ↦
            rw (IsStored, saved, insert_result, new, k.found)
              (f k.row, find-marked id f _ (record r.db { results = _ }) (λ x. refl) k.found)
      ]

  save_result-Ran :
      (at : Position) (worker_id : String) (started done duration now : ℕ) (r : Repository)
      → Known id r
      → let x = save_result rt text at worker_id started done duration now true r in
        Ran x × (result_exists id x.1.db ≡ true)
  unfolding save_result IsStored
  save_result-Ran at worker_id started done duration now r k =
      rw (connect_open r k.opened, parse_uuid_ok rt text id r parsed)
        (go (saved id at worker_id started done duration now r.db) refl
          (saved-IsStored at worker_id started done duration now r k))
    where
      go :
          (o : Option Database)
          → saved id at worker_id started done duration now r.db ≡ o
          → IsStored o
          → Ran (store o r) × (result_exists id (store o r).1.db ≡ true)
      go none e h = absurd h
      go (some db) e h = (
        (refl, record { opened = k.opened; row = h.0; found = h.1 }),
        saved-result id at worker_id started done duration now r.db db e,
      )

  -- The status of the document is RETRYING, and it has a result.
  IsStuck : Repository → Type 0
  IsStuck r =
      (r.pool ≡ true)
      × (result_exists id r.db ≡ true)
      × (d : Document) × (find (has_id id) r.db.documents ≡ some d)
      × (d.status ≡ retrying)

  record_retry-IsStuck :
      (worker_id : String) (n partition now : ℕ) (offset : ℤ) (logged : Bool) (r : Repository)
      → Known id r
      → result_exists id r.db ≡ true
      → IsStuck (record_retry rt text worker_id n partition offset now true logged r).1
  unfolding record_retry set_retrying IsStuck update_document connect result_exists insert_event_of
  record_retry-IsStuck worker_id n partition now offset logged r k has =
      let kept =
        find-update_where id (set_retrying n now) r.db.documents {d = k.row} (λ x. refl) k.found in
      elim (Bool-cases logged) [
        | inl up ↦
            rw
              (
                connect_open r k.opened,
                parse_uuid_ok rt text id r parsed,
                up,
                k.opened,
                insert_event_of,
                update_document,
                kept,
              )
              (refl, has, set_retrying n now k.row, kept, refl)
        | inr down ↦
            rw (connect_open r k.opened, parse_uuid_ok rt text id r parsed, down, k.opened)
              (refl, has, set_retrying n now k.row, kept, refl)
      ]

  -- A call that raised the driver's exception, after the result was stored.
  abbrev RaisedLate : {A : Type 0} → Result A × Repository → Type 0
  RaisedLate x = (x.0 ≡ raised database_error) × Known id x.1 × (result_exists id x.1.db ≡ true)

  append_event-RaisedLate :
      (e : Event) (r : Repository)
      → Known id r
      → result_exists id r.db ≡ true
      → RaisedLate (append_event rt e false r)
  unfolding append_event Repository.append_event connect
  append_event-RaisedLate e r k has =
      rw k.opened (refl, record { opened = refl; row = k.row; found = k.found }, has)

  mark_completed-RaisedLate :
      (c : Conditions) (p : Payload) (r : Repository)
      → c.saved_ok ≡ true
      → c.saved_event_ok ≡ false
      → Known id r
      → RaisedLate (mark_completed rt c text p r)
  unfolding mark_completed
  mark_completed-RaisedLate c p r up down k =
      let k' : Known id (record r { pool = true }) = record {
        opened = refl;
        row = k.row;
        found = k.found;
      } in
      rw (k.opened, up, down) (go _ (save_result-Ran _ _ _ _ _ _ (record r { pool = true }) k') _)
    where
      go :
          (x : Result (Unit {0}) × Repository)
          → (Ran x × (result_exists id x.1.db ≡ true))
          → (e : Event) → RaisedLate (continue x (λ _. append_event rt e false))
      go (returned tt, r) h e = append_event-RaisedLate e r h.0.1 h.1
      go (raised x, r) h e = cc (h.0.0)

  attempt-RaisedLate :
      (c : Conditions) (p : Payload) (s : Processor)
      → c.started_ok ≡ true
      → c.started_event_ok ≡ true
      → c.saved_ok ≡ true
      → c.saved_event_ok ≡ false
      → Known id s.repository
      → let x = attempt rt c text p s in RaisedLate (x.0, x.1.repository)
  unfolding attempt
  attempt-RaisedLate c p s first second up down k =
      go (mark_processing rt c text p s.repository)
        (mark_processing-Ran c p s.repository first second k)
    where
      then_completed :
          (s : Processor) (y : Result (Unit {0}) × Repository)
          → RaisedLate y
          → let x = continue (put_back (λ r (s : Processor). record s { repository = r }) y s) (λ _.
            modify (λ s. record s { processed_total = s.processed_total + 1 }) >> pure true) in
            RaisedLate (x.0, x.1.repository)
      then_completed s (returned tt, r) h = cc (h.0)
      then_completed s (raised e, r) h = (cc (h.0), h.1, h.2)

      go :
          (x : Result (Unit {0}) × Repository)
          → Ran x
          → let y = continue (put_back (λ r (s : Processor). record s { repository = r }) x s) (λ _.
            in_repository (mark_completed rt c text p)
            >> (modify (λ s. record s { processed_total = s.processed_total + 1 }) >> pure true)) in
            RaisedLate (y.0, y.1.repository)
      go (returned tt, r) h =
          then_completed (record s { repository = r }) (mark_completed rt c text p r)
            (mark_completed-RaisedLate c p r up down h.1)
      go (raised e, r) h = cc (h.0)

  mark_retry-IsStuck :
      (c : Conditions) (p : Payload) (n : ℕ) (r : Repository)
      → c.retry_ok ≡ true
      → Known id r
      → result_exists id r.db ≡ true
      → IsStuck (mark_retry rt c text p n r).1
  unfolding mark_retry
  mark_retry-IsStuck c p n r up k has =
      let k' : Known id (record r { pool = true }) = record {
        opened = refl;
        row = k.row;
        found = k.found;
      } in
      rw (k.opened, up) (record_retry-IsStuck _ _ _ _ _ _ (record r { pool = true }) k' has)

  give_up-IsStuck :
      (c : Conditions) (p : Payload) (e : Error) (s : Processor)
      → ltb (or_default p.retry_count 0 + 1) processing_max_retries ≡ true
      → c.retry_ok ≡ true
      → Known id s.repository
      → result_exists id s.repository.db ≡ true
      → IsStuck (give_up rt c text p e s).1.repository
  unfolding give_up
  give_up-IsStuck c p e s few up k has = rw few (
      go (mark_retry rt c text p (or_default p.retry_count 0 + 1) s.repository)
        (mark_retry-IsStuck c p _ s.repository up k has))
    where
      go :
          (x : Result (Unit {0}) × Repository)
          → IsStuck x.1
          → IsStuck
              (continue {B = Bool}
                (continue
                  (put_back (λ r (s : Processor). record s { repository = r }) x s)
                  (λ _. modify (λ s. record s { retry_total = s.retry_total + 1 })))
                (λ _. raise e)).1.repository
      go (returned tt, r) h = h
      go (raised x, r) h = h

  caught-IsStuck :
      (c : Conditions) (p : Payload) (x : Result Bool × Processor)
      → ltb (or_default p.retry_count 0 + 1) processing_max_retries ≡ true
      → c.retry_ok ≡ true
      → RaisedLate (x.0, x.1.repository)
      → IsStuck (handle x (give_up rt c text p)).1.repository
  caught-IsStuck c p (returned b, s) few up h = cc (h.0)
  caught-IsStuck c p (raised e, s) few up h = give_up-IsStuck c p e s few up h.1 h.2

-- The first delivery of a message of the API, for a document that is there and has no result, with a
-- connection: if PROCESSING is recorded and the result is saved, but the event behind it is not, and
-- the retry is recorded, then the document is RETRYING although it has its result; and every later
-- message for it whose first query is answered is skipped as done, so that none of them changes
-- that.
pub late_failure_stays :
    (rt : Runtime) (c c' : Conditions) (p p' : Payload) (s : Processor) (id : String) (d : Document)
    → str_eq (document_of p) "" ≡ false
    → rt.uuid (document_of p) ≡ some id
    → document_of p' ≡ document_of p
    → p.retry_count ≡ none
    → s.repository.pool ≡ true
    → find (has_id id) s.repository.db.documents ≡ some d
    → result_exists id s.repository.db ≡ false
    → c.completed_ok ≡ true
    → c.started_ok ≡ true
    → c.started_event_ok ≡ true
    → c.saved_ok ≡ true
    → c.saved_event_ok ≡ false
    → c.retry_ok ≡ true
    → c'.completed_ok ≡ true
    → let s' = (process_event rt c p s).1 in
      (result_exists id s'.repository.db ≡ true)
      × (row : Document) × (find (has_id id) s'.repository.db.documents ≡ some row)
      × (row.status ≡ retrying)
      × (process_event rt c' p' s' ≡ (returned true, s'))
unfolding process_event IsStuck
late_failure_stays rt c c' p p' s id d named parsed same first opened found new asked begun noted
      stored lost again up =
    let T = document_of p in
    let k : Known id s.repository = record { opened = opened; row = d; found = found } in
    let few : ltb (or_default p.retry_count 0 + 1) processing_max_retries ≡ true = rw first refl in
    let late = attempt-RaisedLate rt T id named parsed c p s begun noted stored lost k in
    let stuck : IsStuck rt T id named parsed (process_event rt c p s).1.repository =
      rw (named, has_completed_lem rt c T id s.repository parsed opened asked, new)
        (caught-IsStuck rt T id named parsed c p (attempt rt c T p s) few again late) in
    let has = stuck.1 in
    (
      has,
      stuck.2,
      stuck.3,
      stuck.4,
      process_event_skips rt c' p' (process_event rt c p s).1 id (rw same named) (rw same parsed)
          stuck.0 up has,
    )
