-- ===== src/Api/Ingest/Publishing.antt =====
-- What a request sends to Kafka.
use highthroughputingestion.Base.{◌≡◌, refl, String, All, arith}
use highthroughputingestion.Base.{
  Exec, Result, returned, raised, payload_too_large, not_found, bad_request, Keeps, keeps_rules,
  Keeps-bind, Keeps-branch, Bool-cases, inl, inr, on,
}
use highthroughputingestion.Float.{Float}
use highthroughputingestion.Limiter.{acquire}
use highthroughputingestion.Runtime.{Runtime}
use highthroughputingestion.Producer.{EventProducer, BrokerMeta}
use highthroughputingestion.Producer.Partitions.{IsRouted, send_audit_event-IsRouted}
use highthroughputingestion.Api.{Api}
use highthroughputingestion.Api.Request.{Request, Parsed}
use highthroughputingestion.Api.Ingest.{
  Surroundings, Response, Stored, Job, ingest_audit_report, process, submit, settle, refuse_agency,
  store_document, register, register_durably, register_locally, known_locally, answer_duplicate,
  publish, send, conclude, record_publication, check_bucket, serve, answer_exception, enter,
  refuse_saturated, leave, event_payload,
}

-- A property of the producer alone.
module _ (F : Float) (rt : Runtime) (o : Surroundings F) (P : EventProducer → Type 0) where
  abbrev pub Producing : Api F → Type 0
  Producing a = P a.producer

  pub on-Producing :
      {A T : Type 0} (get : Api F → T) (put : T → Api F → Api F) (m : Exec T A)
      → ((t : T) (a : Api F) → Producing a → Producing (put t a))
      → Keeps Producing (on get put m)
  on-Producing get put m same = record { at = λ a h. same (m (get a)).1 a h }

  modify-Producing :
      (f : Api F → Api F)
      → ((a : Api F) → Producing a → Producing (f a))
      → Keeps {A = Unit {0}} Producing (λ a. (returned tt, f a))
  modify-Producing f same = record { at = same }

  ruleset producing_rules = (keeps_rules, on-Producing, modify-Producing)

  pub refuse_agency-Producing :
      (p : Parsed) (wait : F.Carrier) → Keeps Producing (refuse_agency F rt o p wait)
  unfolding refuse_agency
  refuse_agency-Producing p wait = search producing_rules depth 12

  pub store_document-Producing : (p : Parsed) → Keeps Producing (store_document F rt o p)
  unfolding store_document
  store_document-Producing p = search producing_rules

  register_locally-Producing : (d : Stored) → Keeps Producing (register_locally F rt o d)
  unfolding register_locally known_locally
  register_locally-Producing d = record { at = λ a h. ground arith }

  register_durably-Producing : (d : Stored) → Keeps Producing (register_durably F rt o d)
  unfolding register_durably
  register_durably-Producing d = search producing_rules depth 8

  pub register-Producing : (d : Stored) → Keeps Producing (register F rt o d)
  unfolding register
  register-Producing d =
      search (producing_rules, register_locally-Producing, register_durably-Producing) depth 8

  pub answer_duplicate-Producing :
      (d : Stored) (j : Job) → Keeps Producing (answer_duplicate F rt o d j)
  unfolding answer_duplicate
  answer_duplicate-Producing d j = search producing_rules

  pub conclude-Producing :
      (d : Stored) (j : Job) (m : BrokerMeta) → Keeps Producing (conclude F rt o d j m)
  unfolding conclude record_publication
  conclude-Producing d j m = search producing_rules depth 14

module _ (F : Float) (rt : Runtime) (o : Surroundings F) where
  abbrev Routed : EventProducer → Type 0
  Routed p = All (IsRouted rt) p.log

  send-Routed : (d : Stored) (j : Job) → Keeps (Producing F rt o Routed) (send F rt o d j)
  unfolding send event_payload
  send-Routed d j = record {
    at = λ a h. send_audit_event-IsRouted rt (event_payload F rt o d j) _ o.broker a.producer h;
  }

  publish-Routed : (d : Stored) (j : Job) → Keeps (Producing F rt o Routed) (publish F rt o d j)
  unfolding publish
  publish-Routed d j = search (keeps_rules, send-Routed, conclude-Producing F rt o Routed)

  submit-Routed : (p : Parsed) → Keeps (Producing F rt o Routed) (submit F rt o p)
  unfolding submit settle
  submit-Routed p = search (
    keeps_rules,
    store_document-Producing F rt o Routed,
    register-Producing F rt o Routed,
    answer_duplicate-Producing F rt o Routed,
    publish-Routed,
  )

  pub check_bucket-Producing :
      (P : EventProducer → Type 0) (agency : String)
      → Keeps (Producing F rt o P) (check_bucket F rt o agency)
  unfolding check_bucket
  check_bucket-Producing P agency = record { at = λ a h. h }

  process-Producing :
      (P : EventProducer → Type 0)
      → ((p : Parsed) → Keeps (Producing F rt o P) (submit F rt o p))
      → (q : Request) → Keeps (Producing F rt o P) (process F rt o q)
  unfolding process
  process-Producing P kept q =
      Keeps-bind _ _ (record { at = λ a h. h })
        λ p.
          Keeps-bind _ _ (check_bucket-Producing P p.agency_id)
            λ allowed. Keeps-branch _ _ _ (kept p) (refuse_agency-Producing F rt o P p _)

  pub answer_exception-producer :
      (r : Result (Response F) × Api F) → (answer_exception F rt o r).1.producer ≡ r.1.producer
  unfolding answer_exception
  answer_exception-producer (returned response, a) = refl
  answer_exception-producer (raised payload_too_large, a) = refl
  answer_exception-producer (raised not_found, a) = refl
  answer_exception-producer (raised bad_request, a) = refl
  answer_exception-producer (raised _, a) = refl

  -- The rest of the handler leaves the producer alone.
  ingest-Producing :
      (P : EventProducer → Type 0) (q : Request) (a : Api F)
      → Keeps (Producing F rt o P) (process F rt o q)
      → P a.producer
      → P (ingest_audit_report F rt o q a).1.producer
  unfolding ingest_audit_report enter leave refuse_saturated
  ingest-Producing P q a kept h = elim (Bool-cases (acquire F a.limiter).0.0) [
    | inr full ↦ rw full h
    | inl room ↦ rw room (kept.at _ h)
  ]

  -- If every message at the broker lies in the partition of the agency that its body names and has
  -- that agency for its key, the same holds after a request, whatever it returns or raises.
  pub serve-IsRouted :
      (q : Request) (a : Api F)
      → All (IsRouted rt) a.producer.log
      → All (IsRouted rt) (serve F rt o q a).1.producer.log
  unfolding serve
  serve-IsRouted q a h =
      rw (answer_exception-producer (ingest_audit_report F rt o q a))
        (ingest-Producing Routed q a (process-Producing Routed submit-Routed q) h)
