-- ===== src/Database.antt =====
-- The PostgreSQL tables of database/init.sql that the API and the workers share, and the SQL
-- statements of api/src/repository.py and worker/src/repository.py as operations on them. A table
-- is the list of its rows, the newest first. A violated constraint is `none`, and the driver
-- raises. Event metadata is not kept.
pub mod Rows
pub mod Validity
pub use Rows.*
use Prim.Native.Nat.{max}
use highthroughputingestion.Base.{
  ℕ, suc, ◌+◌, Bool, true, false, ◌&&◌, not, Option, none, some, String, str_eq, ◌==◌,
}
use highthroughputingestion.Base.{
  ℤ, pos, negsuc, ltb, ◌^◌, List, [], ◌∷◌, is_some, find, update_where, if◌then◌else◌,
}

pub record Database : Type 0 where
  pub documents : List Document
  pub results : List ProcessingResult
  pub events : List Event

abbrev pub empty_database : Database
empty_database = record { documents = []; results = []; events = [] }

abbrev pub has_id : String → Document → Bool
has_id id d = str_eq d.document_id id

abbrev pub has_key : String → Document → Bool
has_key key d = str_eq d.idempotency_key key

abbrev pub of_agency : String → Document → Bool
of_agency agency d = str_eq d.agency_id agency

abbrev pub for_document : String → ProcessingResult → Bool
for_document id r = str_eq r.document_id id

abbrev pub has_sequence : String → ℕ → Document → Bool
has_sequence agency n d = of_agency agency d && d.sequence_number == n

-- `SELECT COALESCE(MAX(sequence_number), 0) FROM documents WHERE agency_id=$1`
unfoldable pub max_sequence : String → List Document → ℕ
max_sequence agency [] = 0
max_sequence agency (d ∷ ds) =
    max (if of_agency agency d then d.sequence_number else 0) (max_sequence agency ds)

-- The primary key and the two UNIQUE constraints of `documents`.
unfoldable pub admits : Document → List Document → Bool
admits d ds =
    not (is_some (find (has_id d.document_id) ds))
    && not (is_some (find (has_key d.idempotency_key) ds))
    && not (is_some (find (has_sequence d.agency_id d.sequence_number) ds))

-- The range of the type INTEGER.
unfoldable pub fits_integer : ℤ → Bool
fits_integer (pos n) = ltb n (2 ^ 31)
fits_integer (negsuc n) = ltb n (2 ^ 31)

-- `INSERT INTO documents`: the driver refuses a year that its column cannot hold.
unfoldable pub insert_document : Document → Database → Option Database
insert_document d db =
    if fits_integer d.report_year && admits d db.documents
    then some (record db { documents = d ∷ db.documents })
    else none

-- `REFERENCES documents(document_id)` holds of a column that may be NULL.
unfoldable pub references : Option String → List Document → Bool
references none ds = true
references (some id) ds = is_some (find (has_id id) ds)

-- `INSERT INTO processing_events`
unfoldable pub insert_event : Event → Database → Option Database
insert_event e db =
    if references e.document_id db.documents
    then some (record db { events = e ∷ db.events })
    else none

-- `INSERT INTO processing_results ... ON CONFLICT (document_id) DO NOTHING`
unfoldable pub insert_result : ProcessingResult → Database → Option Database
insert_result r db =
    if is_some (find (for_document r.document_id) db.results)
    then some db
    else if is_some (find (has_id r.document_id) db.documents)
    then some (record db { results = r ∷ db.results })
    else none

-- `UPDATE documents SET ... WHERE document_id=$1`
unfoldable pub update_document : String → (Document → Document) → Database → Database
update_document id f db = record db { documents = update_where (has_id id) f db.documents }

-- `SELECT EXISTS(SELECT 1 FROM processing_results WHERE document_id=$1)`
unfoldable pub result_exists : String → Database → Bool
result_exists id db = is_some (find (for_document id) db.results)

-- An event about a document, with that row's agency, sequence number and broker position
-- (`INSERT INTO processing_events ... SELECT ... FROM documents d WHERE d.document_id=$1`).
unfoldable pub insert_event_of : String → (Document → Event) → Database → Database
insert_event_of id f db = elim (find (has_id id) db.documents) [
  | none ↦ db
  | some d ↦ record db { events = f d ∷ db.events }
]
