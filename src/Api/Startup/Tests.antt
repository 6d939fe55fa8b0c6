-- ===== src/Api/Startup/Tests.antt =====
-- Concrete starts and ends of the service.
use highthroughputingestion.Base.{◌≡◌, refl, true, false, some, returned, raised, broker_error}
use highthroughputingestion.Float.Fixed.{fixed}
use highthroughputingestion.Api.{Api}
use highthroughputingestion.Api.Samples.{offline}
use highthroughputingestion.Api.Status.{health_check}
use highthroughputingestion.Api.Startup.{ServiceAnswers, start_up, shut_down, start_up_reported}

-- The tables cannot be upgraded, the bucket is made, and the broker does not let go.
abbrev services : ServiceAnswers
services = record {
  asyncpg_installed = true;
  pool_created = true;
  schema_ensured = false;
  pool_closed = true;
  minio_installed = true;
  bucket_exists = some false;
  bucket_made = true;
  broker_reached = true;
  broker_closed = false;
}

abbrev fresh : Api fixed
fresh = record offline { storage = record offline.storage { remote_available = false } }

start_up_reported_example :
    let up = start_up services fresh in
    let report = health_check up.1 in
    let down = shut_down services up.1 in
    (up.0 ≡ returned tt)
    × (report.database_connected ≡ true)
    × (report.object_storage_connected ≡ true)
    × (report.broker_connected ≡ true)
    × (down.0 ≡ raised broker_error)
    × ((health_check down.1).database_connected ≡ true)
    × ((health_check down.1).broker_connected ≡ true)
start_up_reported_example = start_up_reported services fresh refl refl refl
