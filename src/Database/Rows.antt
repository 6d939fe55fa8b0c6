-- ===== src/Database/Rows.antt =====
-- The rows of the tables `documents`, `processing_results` and `processing_events`.
use highthroughputingestion.Base.{ℕ, ℤ, Option, String}

-- The texts that the code writes into `documents.status`.
pub data Status : Type 0 where
  queued processing retrying completed failed : Status

-- The texts that the code writes into `processing_events.event_type`.
pub data EventType : Type 0 where
  document_submitted http_429_backpressure kafka_published http_202_accepted : EventType
  worker_registered worker_stopped kafka_consumed processing_begun processing_started : EventType
  processing_completed document_completed document_retrying document_failed processing_failed :
      EventType

pub data Severity : Type 0 where
  info warning error : Severity

pub record Document : Type 0 where
  pub document_id : String
  pub idempotency_key : String
  pub agency_id : String
  pub filename : String
  pub object_key : String
  pub sha256 : String
  pub file_size : ℕ
  pub status : Status
  pub sequence_number : ℕ
  pub kafka_topic : Option String
  pub kafka_partition : Option ℕ
  pub kafka_offset : Option ℤ
  pub worker_id : Option String
  pub processing_started_at : Option ℕ
  pub processing_completed_at : Option ℕ
  pub processing_duration_ms : Option ℕ
  pub audit_type : String
  pub report_year : ℤ
  pub auditor_org : String
  pub retry_count : ℕ
  pub error_code : Option String
  pub updated_at : ℕ

pub record ProcessingResult : Type 0 where
  pub document_id : String
  pub processing_started_at : ℕ
  pub processing_completed_at : ℕ
  pub processing_duration_ms : ℕ
  pub worker_id : String

pub record Event : Type 0 where
  pub document_id : Option String
  pub agency_id : Option String
  pub sequence_number : Option ℕ
  pub event_type : EventType
  pub worker_id : Option String
  pub kafka_partition : Option ℕ
  pub kafka_offset : Option ℤ
  pub severity : Severity
  pub message : String
