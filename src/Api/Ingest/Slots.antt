-- ===== src/Api/Ingest/Slots.antt =====
-- The slot of a request: whatever the handler returns or raises, an admitted request gives its
-- slot back once, and a refused one never had it.
use highthroughputingestion.Base.{
  ℤ, ◌≡◌, refl, ap, ◌∙◌, String, Option, none, some, inc, dec, dec-inc, arith,
}
use highthroughputingestion.Base.{
  Exec, Result, returned, raised, payload_too_large, not_found, bad_request, Keeps, keeps_rules,
  Keeps-bind, Keeps-branch, Bool-cases, inl, inr, on, if◌then◌else◌,
}
use highthroughputingestion.Float.{Float}
use highthroughputingestion.Limiter.{Limiter, acquire, release}
use highthroughputingestion.Runtime.{Runtime}
use highthroughputingestion.Api.{Api}
use highthroughputingestion.Api.Request.{Request, Parsed}
use highthroughputingestion.Api.Ingest.{
  Surroundings, Response, Stored, Job, ingest_audit_report, process, submit, settle, refuse_agency,
  store_document, register, register_durably, register_locally, known_locally, answer_duplicate,
  publish, send, conclude, record_publication, check_bucket, serve, answer_exception, enter,
  refuse_saturated, leave,
}

-- The limiter and the gauge are as given.
abbrev Holding : {F : Float} → Limiter F → ℤ → Api F → Type 0
Holding l g a = (a.limiter ≡ l) × (a.metrics.active_pipelines ≡ g)

module _ (F : Float) (rt : Runtime) (o : Surroundings F) (l : Limiter F) (g : ℤ) where
  abbrev Quiet : {A : Type 0} → Exec (Api F) A → Type 0
  Quiet m = Keeps (Holding l g) m

  on-Quiet :
      {A T : Type 0} (get : Api F → T) (put : T → Api F → Api F) (m : Exec T A)
      → ((t : T) (a : Api F) → Holding l g a → Holding l g (put t a))
      → Quiet (on get put m)
  on-Quiet get put m same = record { at = λ a h. same (m (get a)).1 a h }

  modify-Quiet :
      (f : Api F → Api F)
      → ((a : Api F) → Holding l g a → Holding l g (f a))
      → Quiet (λ a. (returned tt, f a))
  modify-Quiet f same = record { at = same }

  ruleset quiet_rules = (keeps_rules, on-Quiet, modify-Quiet)

  refuse_agency-Quiet : (p : Parsed) (wait : F.Carrier) → Quiet (refuse_agency F rt o p wait)
  unfolding refuse_agency
  refuse_agency-Quiet p wait = search quiet_rules depth 12

  store_document-Quiet : (p : Parsed) → Quiet (store_document F rt o p)
  unfolding store_document
  store_document-Quiet p = search quiet_rules

  known_locally-Quiet : (d : Stored) (found : Option String) → Quiet (known_locally F rt o d found)
  unfolding known_locally
  known_locally-Quiet d none = record { at = λ a h. h }
  known_locally-Quiet d (some job) = record { at = λ a h. h }

  register_locally-Quiet : (d : Stored) → Quiet (register_locally F rt o d)
  unfolding register_locally
  register_locally-Quiet d = record { at = λ a h. (known_locally-Quiet d _).at a h }

  register_durably-Quiet : (d : Stored) → Quiet (register_durably F rt o d)
  unfolding register_durably
  register_durably-Quiet d = search quiet_rules depth 8

  register-Quiet : (d : Stored) → Quiet (register F rt o d)
  unfolding register
  register-Quiet d = search (quiet_rules, register_locally-Quiet, register_durably-Quiet) depth 8

  answer_duplicate-Quiet : (d : Stored) (j : Job) → Quiet (answer_duplicate F rt o d j)
  unfolding answer_duplicate
  answer_duplicate-Quiet d j = search quiet_rules

  publish-Quiet : (d : Stored) (j : Job) → Quiet (publish F rt o d j)
  unfolding publish send conclude record_publication
  publish-Quiet d j = search quiet_rules depth 14

  submit-Quiet : (p : Parsed) → Quiet (submit F rt o p)
  unfolding submit settle
  submit-Quiet p =
      search
        (quiet_rules, store_document-Quiet, register-Quiet, answer_duplicate-Quiet, publish-Quiet)
        depth 8

  check_bucket-Quiet : (agency : String) → Quiet (check_bucket F rt o agency)
  unfolding check_bucket
  check_bucket-Quiet agency = record { at = λ a h. h }

  process-Quiet : (q : Request) → Quiet (process F rt o q)
  unfolding process
  process-Quiet q =
      Keeps-bind _ _ (record { at = λ a h. h })
        λ p.
          Keeps-bind _ _ (check_bucket-Quiet p.agency_id)
            λ allowed. Keeps-branch _ _ _ (submit-Quiet p) (refuse_agency-Quiet p _)

module _ (F : Float) (rt : Runtime) (o : Surroundings F) where
  -- The exception handler touches only the request counter.
  answer_exception-limiter :
      (r : Result (Response F) × Api F)
      → ((answer_exception F rt o r).1.limiter ≡ r.1.limiter)
        × ((answer_exception F rt o r).1.metrics.active_pipelines ≡ r.1.metrics.active_pipelines)
  unfolding answer_exception
  answer_exception-limiter (returned response, a) = (refl, refl)
  answer_exception-limiter (raised payload_too_large, a) = (refl, refl)
  answer_exception-limiter (raised not_found, a) = (refl, refl)
  answer_exception-limiter (raised bad_request, a) = (refl, refl)
  answer_exception-limiter (raised _, a) = (refl, refl)

  -- The limiter after a request.
  abbrev pub limiter_after : Limiter F → Limiter F
  limiter_after l =
      if (acquire F l).0.0 then release F o.rtt_ms (acquire F l).1 else (acquire F l).1

  ingest-limiter :
      (q : Request) (a : Api F)
      → ((ingest_audit_report F rt o q a).1.limiter ≡ limiter_after a.limiter)
        × ((ingest_audit_report F rt o q a).1.metrics.active_pipelines ≡ a.metrics.active_pipelines)
  unfolding ingest_audit_report leave enter refuse_saturated
  ingest-limiter q a = elim (Bool-cases (acquire F a.limiter).0.0) [
    | inr full ↦ rw full (refl, refl)
    | inl room ↦ rw room (
        let kept =
          (process-Quiet F rt o (acquire F a.limiter).1 (inc a.metrics.active_pipelines) q).at _
            (refl, refl) in
        (ap (release F o.rtt_ms) kept.0, ap dec kept.1 ∙ dec-inc a.metrics.active_pipelines))
  ]

  limiter_after-in_flight : (l : Limiter F) → (limiter_after l).in_flight ≡ l.in_flight
  unfolding acquire release
  limiter_after-in_flight l = ground arith

  -- After any request, whatever it returns or raises, the number of requests in flight and the
  -- gauge of active pipelines are as before it; and the limiter is that of the one admission, and of
  -- one release if the request was admitted.
  pub serve_releases :
      (q : Request) (a : Api F)
      → ((serve F rt o q a).1.limiter ≡ limiter_after a.limiter)
        × ((serve F rt o q a).1.limiter.in_flight ≡ a.limiter.in_flight)
        × ((serve F rt o q a).1.metrics.active_pipelines ≡ a.metrics.active_pipelines)
  unfolding serve
  serve_releases q a =
      let answered = answer_exception-limiter (ingest_audit_report F rt o q a) in
      let ingested = ingest-limiter q a in
      let same = answered.0 ∙ ingested.0 in
      (
        same,
        ap (λ (l : Limiter F). l.in_flight) same ∙ limiter_after-in_flight a.limiter,
        answered.1 ∙ ingested.1,
      )
