-- ===== src/Worker/Tests.antt =====
-- Concrete runs of the worker.
use highthroughputingestion.Base.{
  ◌≡◌, refl, true, false, find, some, raised, attribute_error, returned, ◌+◌,
}
use highthroughputingestion.Float.Fixed.{fixed}
use highthroughputingestion.Database.{
  has_id, result_exists, insert_event, references, insert_event_of, update_document, insert_result,
  Document, retrying,
}
use highthroughputingestion.Repository.{new_row}
use highthroughputingestion.Worker.Processor.{
  Processor, Conditions, process_event, document_of, has_completed, attempt, mark_processing,
  mark_completed, duration_ms, position_of,
}
use highthroughputingestion.Worker.Results.{
  completed_document, mark_processing_started, append_event, set_processing, save_result, saved,
  set_completed,
}
use highthroughputingestion.Repository
use highthroughputingestion.Repository.{connect}
use highthroughputingestion.Worker.Consumer.{
  Record, other, handle_record, body, on_error, enter, leave,
}
use highthroughputingestion.Worker.ExactlyOnce.{process_event_once}
use highthroughputingestion.Worker.Counters.{handle_record_counted}
use highthroughputingestion.Worker.LateFailure.{late_failure_stays}
use highthroughputingestion.Worker.Failures.{never_failed, NoneFailed}
use highthroughputingestion.Samples.{sample_runtime, sample_repository, sample_submission}
use highthroughputingestion.Worker.Samples.{
  good, bad, message, processor, consumer, delivery, visit,
}

abbrev processed : Processor
processed = (process_event sample_runtime good message processor).1

processes : process_event sample_runtime good message processor ≡ (returned true, processed)
unfolding process_event document_of has_completed completed_document connect result_exists attempt
    mark_processing mark_processing_started append_event Repository.append_event insert_event
    references insert_event_of update_document new_row set_processing mark_completed insert_result
    duration_ms position_of save_result saved set_completed
processes = refl

process_event_once_example :
    process_event sample_runtime good message processed ≡ (returned true, processed)
unfolding document_of
process_event_once_example =
    process_event_once sample_runtime good good message message processor processed true "id-1" refl
      refl refl refl processes refl

-- A record that is no dict: the exception leaves the handler.
abbrev rubbish : Record
rubbish = record delivery { value = some (other true) }

escapes :
    (handle_record fixed sample_runtime (visit good) rubbish consumer).0 ≡ raised attribute_error
unfolding handle_record body on_error enter leave
escapes = refl

handle_record_counted_example :
    let s' = (handle_record fixed sample_runtime (visit good) rubbish consumer).1 in
    (s'.processed_jobs + s'.failed_jobs ≡ 1) × (s'.observed ≡ 1) × (s'.active_jobs ≡ 0)
handle_record_counted_example =
    handle_record_counted fixed sample_runtime (visit good) rubbish consumer

none_failed : NoneFailed sample_repository.db.documents
unfolding new_row
none_failed = (refl, tt)

never_failed_example :
    let s' = (process_event sample_runtime bad message processor).1 in
    NoneFailed s'.repository.db.documents × (s'.failed_total ≡ 0)
never_failed_example = never_failed sample_runtime bad message processor refl none_failed

-- The result is saved, and the event behind it is not: the document is left RETRYING with a result.
abbrev late : Conditions
late = record good { saved_event_ok = false }

abbrev row : Document
row = new_row sample_submission "id-1" 1 10

late_failure_stays_example :
    let s' = (process_event sample_runtime late message processor).1 in
    (result_exists "id-1" s'.repository.db ≡ true)
    × (row : Document) × (find (has_id "id-1") s'.repository.db.documents ≡ some row)
    × (row.status ≡ retrying)
    × (process_event sample_runtime good message s' ≡ (returned true, s'))
unfolding document_of new_row result_exists
late_failure_stays_example =
    late_failure_stays sample_runtime late good message message processor "id-1" row refl refl refl
      refl refl refl refl refl refl refl refl refl refl refl
