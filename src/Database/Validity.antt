-- ===== src/Database/Validity.antt =====
-- The invariant of the table `documents`, and how its statements keep it.
use highthroughputingestion.Base.{ℕ, ◌+◌, ◌<◌, ◌≡◌, refl, Bool, none, String, eq_iff}
use highthroughputingestion.Base.{List, [], ◌∷◌, find, count, update_where, arith}
use highthroughputingestion.Database.{
  Document, has_id, has_key, of_agency, has_sequence, max_sequence,
}

-- Identifiers and idempotency keys are unique, and the documents of each agency are numbered
-- 1, 2, 3, … in the order of insertion, with no gap.
abbrev pub IsValid : List Document → Type 0
IsValid [] = Unit {0}
IsValid (d ∷ ds) =
    (find (has_id d.document_id) ds ≡ none)
    × (find (has_key d.idempotency_key) ds ≡ none)
    × (d.sequence_number ≡ count (of_agency d.agency_id) ds + 1)
    × IsValid ds

-- In a valid table the largest number of an agency is the number of its documents.
pub max_sequence-eq-count :
    (agency : String) (ds : List Document)
    → IsValid ds
    → max_sequence agency ds ≡ count (of_agency agency) ds
unfolding max_sequence
max_sequence-eq-count agency [] v = refl
max_sequence-eq-count agency (d ∷ ds) v =
    ground (arith, max_sequence-eq-count agency ds v.3, eq_iff d.agency_id agency)

-- The next number is free.
pub next_sequence_free :
    (agency : String) (n : ℕ) (ds : List Document)
    → max_sequence agency ds < n
    → find (has_sequence agency n) ds ≡ none
unfolding max_sequence
next_sequence_free agency n [] h = refl
next_sequence_free agency n (d ∷ ds) h = ground (arith, next_sequence_free agency n ds)

-- An update that leaves the identifying columns alone.
pub record KeepsIdentity (f : Document → Document) : Type 0 where
  pub document_id : (d : Document) → (f d).document_id ≡ d.document_id
  pub idempotency_key : (d : Document) → (f d).idempotency_key ≡ d.idempotency_key
  pub agency_id : (d : Document) → (f d).agency_id ≡ d.agency_id
  pub sequence_number : (d : Document) → (f d).sequence_number ≡ d.sequence_number

module _ (f : Document → Document) (k : KeepsIdentity f) (p : Document → Bool) where
  pub count-update_where :
      (agency : String) (ds : List Document)
      → count (of_agency agency) (update_where p f ds) ≡ count (of_agency agency) ds
  count-update_where agency [] = refl
  count-update_where agency (d ∷ ds) = ground (arith, count-update_where agency ds, k.agency_id d)

  pub find-has_id-update_where :
      (id : String) (ds : List Document)
      → find (has_id id) ds ≡ none
      → find (has_id id) (update_where p f ds) ≡ none
  find-has_id-update_where id [] h = refl
  find-has_id-update_where id (d ∷ ds) h =
      ground (arith, find-has_id-update_where id ds, k.document_id d)

  pub find-has_key-update_where :
      (key : String) (ds : List Document)
      → find (has_key key) ds ≡ none
      → find (has_key key) (update_where p f ds) ≡ none
  find-has_key-update_where key [] h = refl
  find-has_key-update_where key (d ∷ ds) h =
      ground (arith, find-has_key-update_where key ds, k.idempotency_key d)

  pub update_where-IsValid : (ds : List Document) → IsValid ds → IsValid (update_where p f ds)
  update_where-IsValid [] v = tt
  update_where-IsValid (d ∷ ds) v = ground (
    arith,
    update_where-IsValid ds v.3,
    find-has_id-update_where d.document_id ds v.0,
    find-has_key-update_where d.idempotency_key ds v.1,
    count-update_where d.agency_id ds,
    k.document_id d,
    k.idempotency_key d,
    k.agency_id d,
    k.sequence_number d,
  )
