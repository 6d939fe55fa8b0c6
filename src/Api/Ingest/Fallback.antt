-- ===== src/Api/Ingest/Fallback.antt =====
-- The in-memory fallback of the handler: what it keeps without a database.
use highthroughputingestion.Base.{◌≡◌, ◌∙◌, String, true, false, none, some, arith}
use highthroughputingestion.Base.{returned, Option-cases, inl, inr}
use highthroughputingestion.Base.Dict.{lookup, lookup-insert_self}
use highthroughputingestion.Float.{Float}
use highthroughputingestion.Runtime.{Runtime}
use highthroughputingestion.Api.{Api}
use highthroughputingestion.Api.Ingest.{
  Surroundings, Stored, Job, new_job_id, idempotency_id, register, register_locally, known_locally,
}

-- The job of a key that is known.
abbrev pub known_job : String → Job
known_job job_id = record { job_id = job_id; is_duplicate = true; sequence_number = none }

module _ (F : Float) (rt : Runtime) where
  register_locally-lookup :
      (o : Surroundings F) (d : Stored) (a a' : Api F) (j : Job)
      → register_locally F rt o d a ≡ (returned j, a')
      → (lookup (idempotency_id F rt o d) a'.idemp_cache ≡ some j.job_id)
        × (a'.repository ≡ a.repository)
  unfolding register_locally known_locally
  register_locally-lookup o d a a' j e =
      elim (Option-cases (lookup (idempotency_id F rt o d) a.idemp_cache)) [
        | inr (job, known) ↦ ground (arith, rw (known, known_locally) at e)
        | inl new ↦ ground (
          arith,
          rw (new, known_locally) at e,
          lookup-insert_self (idempotency_id F rt o d) (new_job_id F rt o) a.idemp_cache,
        )
      ]

  register_known :
      (o : Surroundings F) (d : Stored) (a : Api F) (job : String)
      → lookup (idempotency_id F rt o d) a.idemp_cache ≡ some job
      → register_locally F rt o d a ≡ (returned (known_job job), a)
  unfolding register_locally
  register_known o d a job known = rw (known, known_locally)

  register_offline :
      (o : Surroundings F) (d : Stored) (a : Api F)
      → a.repository.pool ≡ false
      → register F rt o d a ≡ register_locally F rt o d a
  unfolding register
  register_offline o d a closed = rw closed

  -- Without a database, a second document with the same key, in another request, is answered with
  -- the job of the first one as a duplicate, and changes nothing.
  pub register_twice_offline :
      (o o' : Surroundings F) (d d' : Stored) (a a' : Api F) (j : Job)
      → a.repository.pool ≡ false
      → register F rt o d a ≡ (returned j, a')
      → idempotency_id F rt o' d' ≡ idempotency_id F rt o d
      → register F rt o' d' a' ≡ (returned (known_job j.job_id), a')
  register_twice_offline o o' d d' a a' j closed first same =
      let kept = register_locally-lookup o d a a' j (rw (register_offline o d a closed) at first) in
      register_offline o' d' a' (rw kept.1 closed)
      ∙ register_known o' d' a' j.job_id (rw same kept.0)
