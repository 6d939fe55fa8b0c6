-- ===== src/Api/Ingest/Duplicates.antt =====
-- A request that is answered as a duplicate sends nothing to Kafka.
use highthroughputingestion.Base.{◌≡◌, refl, ◌∙◌, Bool, true, false}
use highthroughputingestion.Base.{
  Exec, Result, returned, raised, payload_too_large, not_found, bad_request, Keeps, Bool-cases, inl,
  inr, continue, branch, when, ◌>>=◌,
}
use highthroughputingestion.Float.{Float}
use highthroughputingestion.Limiter.{acquire}
use highthroughputingestion.Runtime.{Runtime}
use highthroughputingestion.Producer.{EventProducer, BrokerMeta}
use highthroughputingestion.Api.{Api}
use highthroughputingestion.Api.Request.{Request, Parsed}
use highthroughputingestion.Api.Ingest.{
  Surroundings, Response, duplicate, Stored, Job, ingest_audit_report, process, submit, settle,
  publish, send, conclude, serve, answer_exception, enter, refuse_saturated, leave,
}
use highthroughputingestion.Api.Ingest.Publishing.{
  refuse_agency-Producing, store_document-Producing, register-Producing, answer_duplicate-Producing,
  check_bucket-Producing, answer_exception-producer,
}

abbrev pub IsDuplicate : {F : Float} → Result (Response F) → Type 0
IsDuplicate (returned (duplicate _ _ _)) = Unit {0}
IsDuplicate _ = ⊥

module _ (F : Float) (rt : Runtime) (o : Surroundings F) (p : EventProducer) where
  abbrev Same : Api F → Type 0
  Same a = a.producer ≡ p

  -- If the answer is that of a duplicate, the producer is as it was.
  record Silent (m : Exec (Api F) (Response F)) : Type 0 where
    at : (a : Api F) → Same a → IsDuplicate (m a).0 → Same (m a).1

  of_Keeps : (m : Exec (Api F) (Response F)) → Keeps Same m → Silent m
  of_Keeps m k = record { at = λ a h _. k.at a h }

  continue-Silent :
      {A : Type 0} (r : Result A × Api F) (f : A → Exec (Api F) (Response F))
      → Same r.1
      → ((x : A) → Silent (f x))
      → IsDuplicate (continue r f).0
      → Same (continue r f).1
  continue-Silent (returned x, a) f h s d = (s x).at a h d
  continue-Silent (raised e, a) f h s d = h

  bind-Silent :
      {A : Type 0} (m : Exec (Api F) A) (f : A → Exec (Api F) (Response F))
      → Keeps Same m
      → ((x : A) → Silent (f x))
      → Silent (m >>= f)
  bind-Silent m f k s = record { at = λ a h d. continue-Silent (m a) f (k.at a h) s d }

  branch-Silent :
      (b : Bool) (m n : Exec (Api F) (Response F)) → Silent m → Silent n → Silent (branch b m n)
  branch-Silent true m n sm sn = record { at = sm.at }
  branch-Silent false m n sm sn = record { at = sn.at }

  -- An exception or the given response.
  unless_raised :
      {A : Type 0} (r : Result A × Api F) (f : A → Exec (Api F) (Response F))
      → ((x : A) (a : Api F) → IsDuplicate (f x a).0 → ⊥)
      → IsDuplicate (continue r f).0
      → ⊥
  unless_raised (returned x, a) f never d = never x a d
  unless_raised (raised e, a) f never d = d

  not-conclude :
      (d : Stored) (j : Job) (m : BrokerMeta) (a : Api F)
      → IsDuplicate (conclude F rt o d j m a).0
      → ⊥
  unfolding conclude
  not-conclude d j m a =
      unless_raised (when a.repository.pool _ a) _
        λ _ b. unless_raised (when a.repository.pool _ _) _ λ _ c is. is

  publish-Silent : (d : Stored) (j : Job) → Silent (publish F rt o d j)
  unfolding publish
  publish-Silent d j = record {
    at = λ a h is. absurd (unless_raised (send F rt o d j a) _ (not-conclude d j) is);
  }

  submit-Silent : (q : Parsed) → Silent (submit F rt o q)
  unfolding submit settle
  submit-Silent q = bind-Silent _ _ (store_document-Producing F rt o (λ x. x ≡ p) q) λ d.
      bind-Silent _ _ (register-Producing F rt o (λ x. x ≡ p) d) λ j.
        branch-Silent _ _ _ (of_Keeps _ (answer_duplicate-Producing F rt o (λ x. x ≡ p) d j))
          (publish-Silent d j)

  process-Silent : (q : Request) → Silent (process F rt o q)
  unfolding process
  process-Silent q =
      bind-Silent _ _ (record { at = λ a h. h })
        λ x. bind-Silent _ _ (check_bucket-Producing F rt o (λ x. x ≡ p) x.agency_id) λ allowed.
          branch-Silent _ _ _ (submit-Silent x)
            (of_Keeps _ (refuse_agency-Producing F rt o (λ x. x ≡ p) x _))

  ingest-Silent : (q : Request) → Silent (ingest_audit_report F rt o q)
  unfolding ingest_audit_report enter leave refuse_saturated
  ingest-Silent q = record {
    at = λ a h is. elim (Bool-cases (acquire F a.limiter).0.0) [
      | inr full ↦ rw full h
      | inl room ↦ rw room ((process-Silent q).at _ h (rw room at is))
    ];
  }

  answer_exception-IsDuplicate :
      (r : Result (Response F) × Api F)
      → IsDuplicate (answer_exception F rt o r).0
      → IsDuplicate r.0
  unfolding answer_exception
  answer_exception-IsDuplicate (returned response, a) d = d
  answer_exception-IsDuplicate (raised payload_too_large, a) d = d
  answer_exception-IsDuplicate (raised not_found, a) d = d
  answer_exception-IsDuplicate (raised bad_request, a) d = d
  answer_exception-IsDuplicate (raised _, a) d = d

-- A request that is answered as a duplicate leaves the producer and the broker's messages as they
-- were.
pub serve_duplicate_silent :
    (F : Float) (rt : Runtime) (o : Surroundings F) (q : Request) (a : Api F)
    → IsDuplicate (serve F rt o q a).0
    → (serve F rt o q a).1.producer ≡ a.producer
unfolding serve
serve_duplicate_silent F rt o q a d =
    answer_exception-producer F rt o (ingest_audit_report F rt o q a)
    ∙ (ingest-Silent F rt o a.producer q).at a refl
        (answer_exception-IsDuplicate F rt o a.producer (ingest_audit_report F rt o q a) d)
