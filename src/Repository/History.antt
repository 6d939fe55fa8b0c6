-- ===== src/Repository/History.antt =====
-- Any sequence of writes of the API to its tables.
use highthroughputingestion.Base.{
  ℕ, ◌≡◌, refl, Bool, true, none, some, String, List, [], ◌∷◌, find, update_where,
}
use highthroughputingestion.Base.{
  arith, ◌⊎◌, inl, inr, Bool-cases, Option-cases, returned, eq_iff, if◌then◌else◌,
}
use highthroughputingestion.Runtime.{Runtime}
use highthroughputingestion.Database.{
  Database, Document, Event, has_key, has_id, insert_document, insert_event, update_document,
  admits,
}
use highthroughputingestion.Database.Validity.{IsValid, KeepsIdentity, update_where-IsValid}
use highthroughputingestion.Repository.{
  Repository, Submission, Metadata, create_or_get, update_document_metadata, append_event,
  apply_metadata, connect-cases, parse_uuid, found_or_new, insert_new, new_row,
}
use highthroughputingestion.Repository.Idempotency.{create_or_get-IsValid, create_or_get_known}

pub data Write : Type 0 where
  create : Submission → String → ℕ → Bool → Write
  set_metadata : String → Metadata → ℕ → Bool → Write
  log : Event → Bool → Write

unfoldable pub perform : Runtime → Write → Repository → Repository
perform rt (create s id now reachable) r = (create_or_get s id now reachable r).1
perform rt (set_metadata id m now reachable) r =
    (update_document_metadata rt id m now reachable r).1
perform rt (log e reachable) r = (append_event rt e reachable r).1

unfoldable pub history : Runtime → List Write → Repository → Repository
history rt [] r = r
history rt (w ∷ ws) r = history rt ws (perform rt w r)

-- The metadata update does not touch what identifies a document.
pub apply_metadata-KeepsIdentity : (m : Metadata) (now : ℕ) → KeepsIdentity (apply_metadata m now)
unfolding apply_metadata
apply_metadata-KeepsIdentity m now = record {
  document_id = λ d. refl;
  idempotency_key = λ d. refl;
  agency_id = λ d. refl;
  sequence_number = λ d. refl;
}

parse_uuid-documents :
    (rt : Runtime) (text : String) (r : Repository) → (parse_uuid rt text r).1 ≡ r
parse_uuid-documents rt text r = ground arith

pub update_document_metadata-documents :
    (rt : Runtime) (id : String) (m : Metadata) (now : ℕ) (reachable : Bool) (r : Repository)
    → ((update_document_metadata rt id m now reachable r).1.db.documents ≡ r.db.documents)
      ⊎ ((key : String) × ((update_document_metadata rt id m now reachable r).1.db.documents
            ≡ update_where (has_id key) (apply_metadata m now) r.db.documents))
unfolding update_document_metadata update_document
update_document_metadata-documents rt id m now reachable r = elim (connect-cases reachable r) [
  | inr (e, down) ↦ rw down (inl refl)
  | inl up ↦ rw up (elim (Option-cases (rt.uuid id)) [
    | inl bad ↦ inl (ground arith)
    | inr (key, parsed) ↦ inr (key, ground arith)
  ])
]

pub append_event-documents :
    (rt : Runtime) (e : Event) (reachable : Bool) (r : Repository)
    → (append_event rt e reachable r).1.db.documents ≡ r.db.documents
unfolding append_event insert_event
append_event-documents rt e reachable r = elim (connect-cases reachable r) [
  | inr (x, down) ↦ rw down
  | inl up ↦ rw up (ground arith)
]

pub insert_new-documents :
    (s : Submission) (id : String) (now : ℕ) (db : Database) {row : Document} {db' : Database}
    → insert_new s id now db ≡ some (row, db')
    → (db'.documents ≡ row ∷ db.documents) × (admits row db.documents ≡ true)
unfolding insert_new insert_document insert_event
insert_new-documents s id now db e = ground arith

-- A call adds nothing, or one row that the constraints admit.
abbrev Adds : List Document → List Document → Type 0
Adds ds ds' = (ds' ≡ ds) ⊎ ((row : Document) × (ds' ≡ row ∷ ds) × (admits row ds ≡ true))

commit-Adds :
    (s : Submission) (id : String) (now : ℕ) (r : Repository)
    → Adds r.db.documents (found_or_new s id now none r).1.db.documents
unfolding found_or_new
commit-Adds s id now r = elim (Option-cases (insert_new s id now r.db)) [
  | inl refused ↦ rw refused (inl refl)
  | inr ((row, db'), done) ↦
      let (grown, ok) = insert_new-documents s id now r.db done in rw done (inr (row, grown, ok))
]

create_or_get-Adds :
    (s : Submission) (id : String) (now : ℕ) (reachable : Bool) (r : Repository)
    → Adds r.db.documents (create_or_get s id now reachable r).1.db.documents
unfolding create_or_get
create_or_get-Adds s id now reachable r = elim (connect-cases reachable r) [
  | inr (e, down) ↦ rw down (inl refl)
  | inl up ↦ elim (Option-cases (find (has_key s.idempotency_key) r.db.documents)) [
    | inr (row, known) ↦ rw (up, known, found_or_new) (inl refl)
    | inl new ↦ rw (up, new) (commit-Adds s id now r)
  ]
]

-- The row of a key stays, with its identifier.
abbrev pub Holds : String → String → List Document → Type 0
Holds key id ds = (row : Document) × (find (has_key key) ds ≡ some row) × (row.document_id ≡ id)

Adds-Holds :
    (key id : String) (ds ds' : List Document) → Adds ds ds' → Holds key id ds → Holds key id ds'
unfolding admits
Adds-Holds key id ds ds' (inl same) h = rw same h
Adds-Holds key id ds ds' (inr (new, grown, ok)) (row, found, named) =
    (row, ground (arith, eq_iff new.idempotency_key key), named)

update_where-Holds :
    (f : Document → Document) (p : Document → Bool) (key id : String) (ds : List Document)
    → KeepsIdentity f
    → Holds key id ds
    → Holds key id (update_where p f ds)
update_where-Holds f p key id [] k (row, found, named) = cc
update_where-Holds f p key id (d ∷ ds) k (row, found, named) = elim (Bool-cases (has_key key d)) [
  | inl here ↦ (
    (if p d then f d else d),
    ground (arith, k.idempotency_key d),
    ground (arith, k.document_id d),
  )
  | inr other ↦
      let (row', found', named') = update_where-Holds f p key id ds k (row, ground arith, named) in
      (row', ground (arith, k.idempotency_key d), named')
]

module _ (rt : Runtime) where
  perform-IsValid :
      (w : Write) (r : Repository) → IsValid r.db.documents → IsValid (perform rt w r).db.documents
  unfolding perform
  perform-IsValid (create s id now up) r v = create_or_get-IsValid s id now up r v
  perform-IsValid (set_metadata id m now up) r v =
      elim (update_document_metadata-documents rt id m now up r) [
        | inl same ↦ rw same v
        | inr (key, e) ↦ rw e (update_where-IsValid _ (apply_metadata-KeepsIdentity m now) _ _ v)
      ]
  perform-IsValid (log e up) r v = rw (append_event-documents rt e up r) v

  perform-Holds :
      (key id : String) (w : Write) (r : Repository)
      → Holds key id r.db.documents
      → Holds key id (perform rt w r).db.documents
  unfolding perform
  perform-Holds key id (create s new now up) r h =
      Adds-Holds key id _ _ (create_or_get-Adds s new now up r) h
  perform-Holds key id (set_metadata doc m now up) r h =
      elim (update_document_metadata-documents rt doc m now up r) [
        | inl same ↦ rw same h
        | inr (k, e) ↦ rw e (update_where-Holds _ _ key id _ (apply_metadata-KeepsIdentity m now) h)
      ]
  perform-Holds key id (log e up) r h = rw (append_event-documents rt e up r) h

  -- Any writes keep the table valid: keys and identifiers unique, the numbers of each agency
  -- without gaps.
  pub history-IsValid :
      (ws : List Write) (r : Repository)
      → IsValid r.db.documents
      → IsValid (history rt ws r).db.documents
  unfolding history
  history-IsValid [] r v = v
  history-IsValid (w ∷ ws) r v = history-IsValid ws (perform rt w r) (perform-IsValid w r v)

  history-Holds :
      (key id : String) (ws : List Write) (r : Repository)
      → Holds key id r.db.documents
      → Holds key id (history rt ws r).db.documents
  unfolding history
  history-Holds key id [] r h = h
  history-Holds key id (w ∷ ws) r h =
      history-Holds key id ws (perform rt w r) (perform-Holds key id w r h)

pub insert_new-key :
    (s : Submission) (id : String) (now : ℕ) (db : Database) {row : Document} {db' : Database}
    → insert_new s id now db ≡ some (row, db')
    → row.idempotency_key ≡ s.idempotency_key
unfolding insert_new insert_document insert_event new_row
insert_new-key s id now db e = ground arith

commit-Holds :
    (s : Submission) (id : String) (now : ℕ) (r r' : Repository) (row : Document) (dup : Bool)
    → found_or_new s id now none r ≡ (returned (row, dup), r')
    → Holds s.idempotency_key row.document_id r'.db.documents
unfolding found_or_new
commit-Holds s id now r r' row dup e = elim (Option-cases (insert_new s id now r.db)) [
  | inl refused ↦ cc (rw refused at e)
  | inr ((new, db'), done) ↦
      let (grown, ok) = insert_new-documents s id now r.db done in
      (
        new,
        ground (
          arith,
          rw done at e,
          insert_new-key s id now r.db done,
          eq_iff new.idempotency_key s.idempotency_key,
        ),
        ground (arith, rw done at e),
      )
]

-- What a call returns for its key is stored under that key.
returned-Holds :
    (s : Submission) (id : String) (now : ℕ) (reachable : Bool) (r r' : Repository) (row : Document)
    (dup : Bool)
    → create_or_get s id now reachable r ≡ (returned (row, dup), r')
    → Holds s.idempotency_key row.document_id r'.db.documents
unfolding create_or_get
returned-Holds s id now reachable r r' row dup e = elim (connect-cases reachable r) [
  | inr (x, down) ↦ cc (rw down at e)
  | inl up ↦ elim (Option-cases (find (has_key s.idempotency_key) r.db.documents)) [
    | inr (old, known) ↦ (
      old,
      ground (arith, rw (up, known, found_or_new) at e),
      ground (arith, rw (up, known, found_or_new) at e),
    )
    | inl new ↦ commit-Holds s id now r r' row dup (rw (up, new) at e)
  ]
]

module _ (rt : Runtime) where
  -- Once a submission has returned a document, a later submission with its key that has a connection
  -- to a database that answers returns a document with the same identifier as a duplicate, and
  -- changes nothing, whatever submissions, metadata updates and events the API's repository wrote
  -- between.
  pub resubmission :
      (s again : Submission) (id id' : String) (now now' : ℕ) (reachable : Bool) (r r' : Repository)
      (row : Document) (dup : Bool) (ws : List Write)
      → create_or_get s id now reachable r ≡ (returned (row, dup), r')
      → again.idempotency_key ≡ s.idempotency_key
      → (history rt ws r').pool ≡ true
      → (row' : Document) × (create_or_get again id' now' true (history rt ws r')
          ≡ (returned (row', true), history rt ws r'))
        × (row'.document_id ≡ row.document_id)
  resubmission s again id id' now now' reachable r r' row dup ws e same opened =
      let (row', found, named) =
        history-Holds rt s.idempotency_key row.document_id ws r'
          (returned-Holds s id now reachable r r' row dup e) in
      (row', create_or_get_known again id' now' (history rt ws r') opened (rw same found), named)
