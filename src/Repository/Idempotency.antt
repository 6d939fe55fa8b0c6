-- ===== src/Repository/Idempotency.antt =====
-- `create_or_get`: one document for each idempotency key.
use highthroughputingestion.Base.{
  ℕ, ◌+◌, ◌≡◌, refl, Bool, true, false, Option, none, some, String, List, ◌∷◌, find, count,
}
use highthroughputingestion.Base.{
  arith, Keeps, Keeps-bind, Keeps-gets, ◌>>=◌, pure, returned, eq_iff,
}
use highthroughputingestion.Database.{
  Database, Document, has_key, has_id, of_agency, max_sequence, insert_document, insert_event,
  admits, references, fits_integer,
}
use highthroughputingestion.Database.Validity.{IsValid, max_sequence-eq-count, next_sequence_free}
use highthroughputingestion.Repository.{
  Repository, Submission, new_row, insert_new, create_or_get, submitted_event, found_or_new,
  connect, connect_open, commit,
}

-- A key that is stored already is answered by its row, as a duplicate, and nothing changes.
pub create_or_get_known :
    (s : Submission) (id : String) (now : ℕ) (r : Repository) {row : Document}
    → r.pool ≡ true
    → find (has_key s.idempotency_key) r.db.documents ≡ some row
    → create_or_get s id now true r ≡ (returned (row, true), r)
unfolding create_or_get
create_or_get_known s id now r open_pool known = rw (connect_open r open_pool, known, found_or_new)

-- The row that a new key gets in a valid table.
abbrev pub numbered_row : Submission → String → ℕ → Repository → Document
numbered_row s id now r = new_row s id (count (of_agency s.agency_id) r.db.documents + 1) now

-- The constraints hold of a fresh identifier and a new key.
admits_new :
    (s : Submission) (id : String) (now : ℕ) (ds : List Document)
    → IsValid ds
    → find (has_id id) ds ≡ none
    → find (has_key s.idempotency_key) ds ≡ none
    → admits (new_row s id (max_sequence s.agency_id ds + 1) now) ds ≡ true
unfolding admits new_row
admits_new s id now ds v fresh new =
    rw (
      fresh,
      new,
      next_sequence_free s.agency_id (max_sequence s.agency_id ds + 1) ds (omega arith),
    )

insert_new_lem :
    (s : Submission) (id : String) (now : ℕ) (db : Database)
    → IsValid db.documents
    → find (has_id id) db.documents ≡ none
    → find (has_key s.idempotency_key) db.documents ≡ none
    → fits_integer s.report_year ≡ true
    → let row = new_row s id (count (of_agency s.agency_id) db.documents + 1) now in
      insert_new s id now db
      ≡ some (
        row,
        record db { documents = row ∷ db.documents; events = submitted_event row ∷ db.events },
      )
unfolding insert_new insert_document insert_event references submitted_event new_row
insert_new_lem s id now db v fresh new year =
    rw (← max_sequence-eq-count s.agency_id db.documents v)
      (ground (arith, admits_new s id now db.documents v fresh new, eq_iff id id))

-- With an open connection to a database that answers and a valid table, a new key with a fresh
-- identifier and a year in the range of INTEGER gets a row, which has the next number of its agency,
-- and the event of its submission.
pub create_or_get_new :
    (s : Submission) (id : String) (now : ℕ) (r : Repository)
    → r.pool ≡ true
    → IsValid r.db.documents
    → find (has_id id) r.db.documents ≡ none
    → find (has_key s.idempotency_key) r.db.documents ≡ none
    → fits_integer s.report_year ≡ true
    → create_or_get s id now true r ≡ (
      returned (numbered_row s id now r, false),
      record r {
        db = record (r.db) {
          documents = numbered_row s id now r ∷ r.db.documents;
          events = submitted_event (numbered_row s id now r) ∷ r.db.events;
        };
      },
    )
unfolding create_or_get
create_or_get_new s id now r open_pool v fresh new year =
    rw (connect_open r open_pool, new, found_or_new, insert_new_lem s id now r.db v fresh new year)

insert_document-IsValid :
    (s : Submission) (id : String) (now : ℕ) (ds : List Document)
    → IsValid ds
    → let row = new_row s id (max_sequence s.agency_id ds + 1) now in
      admits row ds ≡ true → IsValid (row ∷ ds)
unfolding admits new_row
insert_document-IsValid s id now ds v ok = ground (arith, max_sequence-eq-count s.agency_id ds v)

insert_new-IsValid :
    (s : Submission) (id : String) (now : ℕ) (db : Database) {row : Document} {db' : Database}
    → IsValid db.documents
    → insert_new s id now db ≡ some (row, db')
    → IsValid db'.documents
unfolding insert_new insert_document insert_event
insert_new-IsValid s id now db v e = ground (arith, insert_document-IsValid s id now db.documents v)

abbrev pub IsSound : Repository → Type 0
IsSound r = IsValid r.db.documents

pub connect-IsSound : (reachable : Bool) → Keeps IsSound (connect reachable)
unfolding connect
connect-IsSound reachable = record { at = λ r v. ground arith }

commit-IsSound :
    (o : Option (Document × Database)) (r : Repository)
    → IsSound r
    → ((row : Document) (db' : Database) → o ≡ some (row, db') → IsValid db'.documents)
    → IsSound ((commit o >>= λ (row : Document). pure {A = Document × Bool} (row, false)) r).1
commit-IsSound none r v h = v
commit-IsSound (some (row, db')) r v h = h row db' refl

found_or_new-IsSound :
    (s : Submission) (id : String) (now : ℕ) (existing : Option Document)
    → Keeps IsSound (found_or_new s id now existing)
unfolding found_or_new
found_or_new-IsSound s id now (some row) = record { at = λ r v. v }
found_or_new-IsSound s id now none = record {
  at = λ r v.
      commit-IsSound (insert_new s id now r.db) r v
        (λ row db' e. insert_new-IsValid s id now r.db v e);
}

-- Whatever it returns or raises, `create_or_get` keeps the table valid.
pub create_or_get-IsValid :
    (s : Submission) (id : String) (now : ℕ) (reachable : Bool) (r : Repository)
    → IsValid r.db.documents
    → IsValid (create_or_get s id now reachable r).1.db.documents
unfolding create_or_get
create_or_get-IsValid s id now reachable r v =
    (Keeps-bind _ _ (connect-IsSound reachable) (λ _.
        Keeps-bind _ _ (Keeps-gets λ r. find (has_key s.idempotency_key) r.db.documents)
          (found_or_new-IsSound s id now))).at
      r v
