-- ===== src/Api/Ingest/Collisions.antt =====
-- The idempotency keys of requests that name none.
use highthroughputingestion.Base.{
  ℕ, ◌≡◌, refl, sym, ap, ◌∙◌, String, none, some, arith, ltb, length, Bool-cases, inl, inr,
}
use highthroughputingestion.Base.{Result, returned, raised, continue, put_back}
use highthroughputingestion.Float.{Float}
use highthroughputingestion.Runtime.{Runtime}
use highthroughputingestion.Storage.{Storage, save_document, max_payload_bytes}
use highthroughputingestion.Storage.Contents.{save_document-sha256}
use highthroughputingestion.Api.{Api, count_bytes}
use highthroughputingestion.Api.Request.{JsonBody, Parsed, parse_json, json_year, empty_object}
use highthroughputingestion.Api.Ingest.{Surroundings, Stored, store_document, idempotency_id}

-- A body whose year is no number is read as the empty object.
bad_year_parsed :
    (b : JsonBody)
    → b.report_year ≡ some none
    → ((parse_json (some b)).idempotency_key ≡ none)
      × ((parse_json (some b)).content ≡ empty_object)
unfolding parse_json json_year
bad_year_parsed b bad = rw bad (refl, refl)

module _ (F : Float) (rt : Runtime) where
  -- A stored document without a key of its own is known by the checksum of its content.
  unnamed-idempotency_id :
      (o : Surroundings F) (p : Parsed) (a s : Api F) (d : Stored)
      → p.idempotency_key ≡ none
      → store_document F rt o p a ≡ (returned d, s)
      → idempotency_id F rt o d ≡ rt.sha256 p.content
  unfolding store_document idempotency_id
  unnamed-idempotency_id o p a s d unnamed e =
      elim (Bool-cases (ltb max_payload_bytes (length p.content))) [
        | inl big ↦ cc (rw big at e)
        | inr small ↦ go (save_document rt o.storage p.content a.storage) refl (rw small at e)
      ]
    where
      go :
          (r : Result (String × ℕ × String) × Storage)
          → save_document rt o.storage p.content a.storage ≡ r
          → continue
              (put_back
                (λ (t : Storage) (x : Api F). record x { storage = t })
                r
                (record a { metrics = count_bytes (length p.content) a.metrics }))
              (λ saved x. (
                returned (record {
                  parsed = p;
                  sha256 = saved.0;
                  file_size = saved.1;
                  storage_path = saved.2;
                }),
                x,
              ))
            ≡ (returned d, s)
          → idempotency_id F rt o d ≡ rt.sha256 p.content
      go (returned saved, t) done e' = ground (
        arith,
        e',
        unnamed,
        save_document-sha256 rt o.storage p.content a.storage saved (ap (λ x. x.0) done),
      )
      go (raised x, t) done e' = cc

  -- All JSON requests whose year is no number count as one document once they are stored, whoever
  -- sends them and whatever else they hold: they have the same idempotency key.
  pub bad_years_collide :
      (o o' : Surroundings F) (b b' : JsonBody) (a a' s s' : Api F) (d d' : Stored)
      → b.report_year ≡ some none
      → b'.report_year ≡ some none
      → store_document F rt o (parse_json (some b)) a ≡ (returned d, s)
      → store_document F rt o' (parse_json (some b')) a' ≡ (returned d', s')
      → idempotency_id F rt o d ≡ idempotency_id F rt o' d'
  bad_years_collide o o' b b' a a' s s' d d' bad bad' e e' =
      let (unnamed, emptied) = bad_year_parsed b bad in
      let (unnamed', emptied') = bad_year_parsed b' bad' in
      unnamed-idempotency_id o (parse_json (some b)) a s d unnamed e
      ∙ ap rt.sha256 (emptied ∙ sym emptied')
      ∙ sym (unnamed-idempotency_id o' (parse_json (some b')) a' s' d' unnamed' e')
