-- ===== src/Worker/Heartbeats/Tests.antt =====
-- Concrete heartbeats.
use highthroughputingestion.Base.{ℕ, Bool, ◌≡◌, refl, true, false, none, List, [], ◌∷◌}
use highthroughputingestion.Float.Fixed.{fixed}
use highthroughputingestion.Worker.Heartbeats.{
  Fleet, Call, starts, beats, stops, call, calls, register_worker, heartbeat_worker, connect_fleet,
  parse_current, registration, first_beat, beat_of, active,
}
use highthroughputingestion.Worker.Heartbeats.Registration.{IsRegistered, calls-IsRegistered}
use highthroughputingestion.Samples.{sample_runtime}
use highthroughputingestion.Worker.Samples.{consumer}

abbrev fleet : Fleet fixed
fleet = record {
  pool = true;
  workers = registration fixed "worker-01" "host" 7 (first_beat fixed active 0 0) 3 none ∷ [];
}

-- A second worker starts, the first one restarts while the database is down, and stops.
abbrev some_calls : List (Call fixed × ℕ × Bool)
some_calls =
    (starts "worker-02" "host" 8, 5, true)
    ∷ (starts "worker-01" "host" 9, 6, false)
    ∷ (beats "worker-01" consumer 0, 7, true)
    ∷ (stops "worker-01" consumer 0, 8, true)
    ∷ []

calls-IsRegistered_example :
    IsRegistered fixed sample_runtime "worker-01" 3
      (calls fixed sample_runtime some_calls fleet).workers
calls-IsRegistered_example =
    calls-IsRegistered fixed sample_runtime "worker-01" 3 some_calls fleet (
      registration fixed "worker-01" "host" 7 (first_beat fixed active 0 0) 3 none,
      refl,
      refl,
      refl,
    )

-- A worker whose registration fails is not in the table after its heartbeats either.
unregistered_run :
    (calls fixed sample_runtime
      ((starts "worker-01" "host" 9, 6, false) ∷ (beats "worker-01" consumer 0, 7, true) ∷ [])
      (record { pool = true; workers = [] })).workers
    ≡ []
unfolding calls call register_worker heartbeat_worker connect_fleet parse_current beat_of
unregistered_run = refl
