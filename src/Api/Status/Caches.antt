-- ===== src/Api/Status/Caches.antt =====
-- The in-memory caches of the API through a request: jobs are only added.
use highthroughputingestion.Base.{String, Option, none, some, Bool, ◌≡◌, refl}
use highthroughputingestion.Database.{Document}
use highthroughputingestion.Base.{
  Exec, Result, returned, raised, payload_too_large, not_found, bad_request, Keeps, keeps_rules,
  Keeps-bind, Keeps-branch, Bool-cases, inl, inr, on,
}
use highthroughputingestion.Base.Dict
use highthroughputingestion.Base.Dict.{Dict}
use highthroughputingestion.Float.{Float}
use highthroughputingestion.Limiter.{acquire}
use highthroughputingestion.Runtime.{Runtime}
use highthroughputingestion.Api.{Api, JobState}
use highthroughputingestion.Api.Request.{Request, Parsed}
use highthroughputingestion.Api.Ingest.{
  Surroundings, Response, Stored, Job, ingest_audit_report, process, submit, settle, refuse_agency,
  store_document, register, register_durably, register_locally, known_locally, answer_duplicate,
  publish, send, conclude, record_publication, check_bucket, serve, answer_exception, enter,
  refuse_saturated, leave, enter_job, job_state,
}

-- A property of the caches that the insertions of `register` keep: a job is entered under its
-- identifier.
pub record IsGrowing (P : Dict JobState → Dict String → Type 0) : Type 0 where
  pub job_added :
      (id : String) (job : JobState) (jobs : Dict JobState) (keys : Dict String)
      → job.job_id ≡ id
      → P jobs keys
      → P (Dict.insert id job jobs) keys
  pub key_added :
      (key id : String) (job : JobState) (jobs : Dict JobState) (keys : Dict String)
      → job.job_id ≡ id
      → P jobs keys
      → P (Dict.insert id job jobs) (Dict.insert key id keys)

module _ (F : Float) (rt : Runtime) (o : Surroundings F)
    (P : Dict JobState → Dict String → Type 0) where
  abbrev pub Cached : Api F → Type 0
  Cached a = P a.job_cache a.idemp_cache

  on-Cached :
      {A T : Type 0} (get : Api F → T) (put : T → Api F → Api F) (m : Exec T A)
      → ((t : T) (a : Api F) → Cached a → Cached (put t a))
      → Keeps Cached (on get put m)
  on-Cached get put m same = record { at = λ a h. same (m (get a)).1 a h }

  modify-Cached :
      (f : Api F → Api F)
      → ((a : Api F) → Cached a → Cached (f a))
      → Keeps {A = Unit {0}} Cached (λ a. (returned tt, f a))
  modify-Cached f same = record { at = same }

  ruleset cached_rules = (keeps_rules, on-Cached, modify-Cached)

  pub refuse_agency-Cached :
      (p : Parsed) (wait : F.Carrier) → Keeps Cached (refuse_agency F rt o p wait)
  unfolding refuse_agency
  refuse_agency-Cached p wait = search cached_rules depth 12

  pub store_document-Cached : (p : Parsed) → Keeps Cached (store_document F rt o p)
  unfolding store_document
  store_document-Cached p = search cached_rules

  pub answer_duplicate-Cached : (d : Stored) (j : Job) → Keeps Cached (answer_duplicate F rt o d j)
  unfolding answer_duplicate
  answer_duplicate-Cached d j = search cached_rules

  pub publish-Cached : (d : Stored) (j : Job) → Keeps Cached (publish F rt o d j)
  unfolding publish send conclude record_publication
  publish-Cached d j = search cached_rules depth 14

  pub check_bucket-Cached : (agency : String) → Keeps Cached (check_bucket F rt o agency)
  unfolding check_bucket
  check_bucket-Cached agency = record { at = λ a h. h }

  module _ (grows : IsGrowing P) where
    enter_job-Cached :
        (d : Stored) (found : Document × Bool) → Keeps Cached (enter_job F rt o d found)
    unfolding enter_job job_state
    enter_job-Cached d found = record { at = λ a h. grows.job_added _ _ _ _ refl h }

    known_locally-Cached :
        (d : Stored) (found : Option String) → Keeps Cached (known_locally F rt o d found)
    unfolding known_locally job_state
    known_locally-Cached d none = record { at = λ a h. grows.key_added _ _ _ _ _ refl h }
    known_locally-Cached d (some job) = record { at = λ a h. h }

    register_locally-Cached : (d : Stored) → Keeps Cached (register_locally F rt o d)
    unfolding register_locally
    register_locally-Cached d = record { at = λ a h. (known_locally-Cached d _).at a h }

    register_durably-Cached : (d : Stored) → Keeps Cached (register_durably F rt o d)
    unfolding register_durably
    register_durably-Cached d = search (cached_rules, enter_job-Cached) depth 10

    pub register-Cached : (d : Stored) → Keeps Cached (register F rt o d)
    unfolding register
    register-Cached d =
        search (cached_rules, register_locally-Cached, register_durably-Cached) depth 8

    submit-Cached : (p : Parsed) → Keeps Cached (submit F rt o p)
    unfolding submit settle
    submit-Cached p = search (
      keeps_rules, store_document-Cached, register-Cached, answer_duplicate-Cached, publish-Cached,
    )

    process-Cached : (q : Request) → Keeps Cached (process F rt o q)
    unfolding process
    process-Cached q =
        Keeps-bind _ _ (record { at = λ a h. h })
          λ p.
            Keeps-bind _ _ (check_bucket-Cached p.agency_id)
              λ allowed. Keeps-branch _ _ _ (submit-Cached p) (refuse_agency-Cached p _)

    ingest-Cached : (q : Request) → Keeps Cached (ingest_audit_report F rt o q)
    unfolding ingest_audit_report enter leave refuse_saturated
    ingest-Cached q = record {
      at = λ a h. elim (Bool-cases (acquire F a.limiter).0.0) [
        | inr full ↦ rw full h
        | inl room ↦ rw room ((process-Cached q).at _ h)
      ];
    }

  pub answer_exception-Cached :
      (r : Result (Response F) × Api F) → Cached r.1 → Cached (answer_exception F rt o r).1
  unfolding answer_exception
  answer_exception-Cached (returned response, a) h = h
  answer_exception-Cached (raised payload_too_large, a) h = h
  answer_exception-Cached (raised not_found, a) h = h
  answer_exception-Cached (raised bad_request, a) h = h
  answer_exception-Cached (raised _, a) h = h

  -- A request keeps every such property of the caches.
  pub serve-Cached : IsGrowing P → (q : Request) → Keeps Cached (serve F rt o q)
  unfolding serve
  serve-Cached grows q = record {
    at = λ a h.
        answer_exception-Cached (ingest_audit_report F rt o q a) ((ingest-Cached grows q).at a h);
  }
