-- ===== src/Api.antt =====
-- The state of the API service (api/src/main.py): its two limiters, the three clients, the
-- in-memory caches and the metrics.
pub mod Request
pub mod Ingest
pub mod Status
pub mod Startup
mod Samples
use highthroughputingestion.Base.{ℕ, ℤ, inc, dec, ◌+◌, String, Option, List, ◌∷◌}
use highthroughputingestion.Base.Dict.{Dict}
use highthroughputingestion.Float.{Float}
use highthroughputingestion.Limiter.{Limiter, RateLimiter}
use highthroughputingestion.Repository.{Repository}
use highthroughputingestion.Producer.{EventProducer}
use highthroughputingestion.Storage.{Storage}

-- `job_state`; numbers are kept as numbers, where the code writes their texts.
pub record JobState : Type 0 where
  pub job_id : String
  pub agency_id : String
  pub audit_type : String
  pub report_year : ℤ
  pub auditor_org : String
  pub sha256_checksum : String
  pub partition : ℕ
  pub file_size_bytes : ℕ
  pub ingested_at : ℕ
  pub sequence_number : Option ℕ

pub data Reason : Type 0 where
  concurrency_limit_exceeded rate_limit_exceeded : Reason

-- The counters of api/src/metrics.py: the status codes counted for the ingestion endpoint, the
-- rejections, the gauge of active pipelines and the ingested bytes.
pub record Metrics : Type 0 where
  pub requests : List ℕ
  pub rejections : List Reason
  pub active_pipelines : ℤ
  pub ingested_bytes : ℕ

pub record Api (F : Float) : Type 0 where
  pub limiter : Limiter F
  pub rate_limiter : RateLimiter F
  pub storage : Storage
  pub repository : Repository
  pub producer : EventProducer
  pub job_cache : Dict JobState
  pub idemp_cache : Dict String
  pub metrics : Metrics

abbrev pub count_request : ℕ → Metrics → Metrics
count_request code m = record m { requests = code ∷ m.requests }

abbrev pub count_rejection : Reason → Metrics → Metrics
count_rejection reason m = record m { rejections = reason ∷ m.rejections }

abbrev pub pipeline_started : Metrics → Metrics
pipeline_started m = record m { active_pipelines = inc m.active_pipelines }

abbrev pub pipeline_ended : Metrics → Metrics
pipeline_ended m = record m { active_pipelines = dec m.active_pipelines }

abbrev pub count_bytes : ℕ → Metrics → Metrics
count_bytes n m = record m { ingested_bytes = m.ingested_bytes + n }
