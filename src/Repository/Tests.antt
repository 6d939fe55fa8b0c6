-- ===== src/Repository/Tests.antt =====
-- Concrete runs of the repository.
use highthroughputingestion.Base.{◌≡◌, refl, true, false, List, [], ◌∷◌, returned}
use highthroughputingestion.Database.{
  Document, fits_integer, admits, insert_document, insert_event, references, max_sequence,
}
use highthroughputingestion.Database.Validity.{IsValid}
use highthroughputingestion.Repository.{
  Repository, Submission, create_or_get, connect, found_or_new, insert_new, new_row,
  submitted_event,
}
use highthroughputingestion.Repository.Idempotency.{create_or_get_new, numbered_row}
use highthroughputingestion.Repository.Registry.{
  history-claims, claims, claimed, answers, answer, registry,
}
use highthroughputingestion.Repository.History.{
  Write, create, perform, history, history-IsValid, resubmission,
}
use highthroughputingestion.Samples.{
  sample_runtime, sample_submission, sample_repository, empty_repository,
}

-- Another document of the same agency.
abbrev other_submission : Submission
other_submission = record sample_submission { idempotency_key = "key-2" }

create_or_get_new_example : create_or_get other_submission "id-2" 20 true sample_repository ≡ (
  returned (numbered_row other_submission "id-2" 20 sample_repository, false),
  record sample_repository {
    db = record (sample_repository.db) {
      documents =
          numbered_row other_submission "id-2" 20 sample_repository
          ∷ sample_repository.db.documents;
      events =
          submitted_event (numbered_row other_submission "id-2" 20 sample_repository)
          ∷ sample_repository.db.events;
    };
  },
)
unfolding new_row fits_integer
create_or_get_new_example =
    create_or_get_new other_submission "id-2" 20 sample_repository refl (refl, refl, refl, tt) refl
      refl refl

abbrev writes : List Write
writes = create other_submission "id-2" 20 true ∷ create other_submission "id-2" 21 false ∷ []

history-IsValid_example : IsValid (history sample_runtime writes empty_repository).db.documents
history-IsValid_example = history-IsValid sample_runtime writes empty_repository tt

abbrev stored : Repository
stored = (create_or_get sample_submission "id-1" 10 true empty_repository).1

stores :
    create_or_get sample_submission "id-1" 10 true empty_repository
    ≡ (returned (new_row sample_submission "id-1" 1 10, false), stored)
unfolding create_or_get connect found_or_new insert_new insert_document fits_integer insert_event
    references admits max_sequence new_row submitted_event
stores = refl

still_open : (history sample_runtime writes stored).pool ≡ true
unfolding history perform create_or_get connect found_or_new insert_new insert_document fits_integer
    insert_event references admits max_sequence new_row submitted_event
still_open = refl

resubmission_example :
    (row' : Document) × (create_or_get sample_submission "id-9" 30 true
        (history sample_runtime writes stored)
      ≡ (returned (row', true), history sample_runtime writes stored))
    × (row'.document_id ≡ (new_row sample_submission "id-1" 1 10).document_id)
resubmission_example =
    resubmission sample_runtime sample_submission sample_submission "id-1" "id-9" 10 30 true
      empty_repository stored (new_row sample_submission "id-1" 1 10) false writes stores refl
      still_open

-- Two submissions of a key, the second with another fresh identifier.
abbrev twice : List Write
twice = create sample_submission "id-1" 5 true ∷ create sample_submission "id-2" 6 true ∷ []

history-claims_example : claims (claimed sample_runtime twice empty_repository) (registry []) ≡ (
  answers sample_runtime twice empty_repository,
  registry (history sample_runtime twice empty_repository).db.documents,
)
history-claims_example = history-claims sample_runtime twice empty_repository

answers_run : answers sample_runtime twice empty_repository ≡ ("id-1", false) ∷ ("id-1", true) ∷ []
unfolding answers answer perform create_or_get connect found_or_new insert_new submitted_event
    insert_document fits_integer insert_event admits references new_row
answers_run = refl
