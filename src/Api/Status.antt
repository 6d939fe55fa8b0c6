-- ===== src/Api/Status.antt =====
-- The read-only routes of api/src/main.py: `health_check` and `get_job_status`. A read of a job
-- that is in the database can still be answered from the cache, if the database fails.
pub mod Caches
pub mod Told
pub mod Tracking
mod Tests
use highthroughputingestion.Base.{
  ℕ, Bool, true, false, ◌&&◌, ◌||◌, String, Option, none, some, if◌then◌else◌, Exec, pure, raise,
  gets, catch, branch, on, not_found, ◌>>=◌, ◌>>◌,
}
use highthroughputingestion.Base.Dict
use highthroughputingestion.Float.{Float}
use highthroughputingestion.Database.{Document, ProcessingResult}
use highthroughputingestion.Repository.{get}
use highthroughputingestion.Runtime.{Runtime}
use highthroughputingestion.Api.{Api, JobState}

pub data ServiceStatus : Type 0 where
  healthy degraded unhealthy : ServiceStatus

pub record HealthReport : Type 0 where
  pub status : ServiceStatus
  pub broker_connected : Bool
  pub database_connected : Bool
  pub object_storage_connected : Bool

unfoldable pub health_check : {F : Float} → Api F → HealthReport
health_check a =
    let broker = a.producer.connected in
    let database = a.repository.pool in
    let object_storage = a.storage.remote_available in
    record {
      status =
          if broker && database && object_storage
          then healthy
          else if broker || database || object_storage
          then degraded
          else unhealthy;
      broker_connected = broker;
      database_connected = database;
      object_storage_connected = object_storage;
    }

-- The `job` of an answer: a row of the database, or an entry of the cache.
pub data FoundJob : Type 0 where
  stored_job : Document → Option ProcessingResult → FoundJob
  cached_job : JobState → FoundJob

module _ {F : Float} where
  abbrev cached : Option JobState → Exec (Api F) FoundJob
  cached none = raise not_found
  cached (some job) = pure (cached_job job)

  unfoldable pub from_cache : String → Exec (Api F) FoundJob
  from_cache job_id a = cached (Dict.lookup job_id a.job_cache) a

  abbrev answer_row : String → Option (Document × Option ProcessingResult) → Exec (Api F) FoundJob
  answer_row job_id none = from_cache job_id
  answer_row job_id (some (document, result)) = pure (stored_job document result)

  -- The `try` block around the database; an exception is logged.
  unfoldable pub read_row :
      Runtime → String → Bool → Exec (Api F) (Option (Document × Option ProcessingResult))
  read_row rt job_id reachable =
      catch (on (λ a. a.repository) (λ r a. record a { repository = r }) (get rt job_id reachable))
        (λ _. pure none)

  unfoldable pub get_job_status : Runtime → String → Bool → Exec (Api F) FoundJob
  unfolding read_row from_cache
  get_job_status rt job_id reachable = do
    pool ← gets (λ a. a.repository.pool)
    row ← branch pool (read_row rt job_id reachable) (pure none)
    answer_row job_id row
