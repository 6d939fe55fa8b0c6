-- ===== src/Api/Status/Told.antt =====
-- What a response names: a job that is in the cache of the API.
use highthroughputingestion.Base.{
  ◌≡◌, refl, sym, subst, String, Bool, true, false, Option, none, some, arith, eq_iff, inl, inr,
}
use highthroughputingestion.Base.{
  Exec, Result, returned, raised, payload_too_large, not_found, bad_request, Keeps, Bool-cases,
  continue, handle, put_back, branch, when, ◌>>=◌,
}
use highthroughputingestion.Base.Dict
use highthroughputingestion.Base.Dict.{Dict}
use highthroughputingestion.Float.{Float}
use highthroughputingestion.Limiter.{acquire}
use highthroughputingestion.Runtime.{Runtime}
use highthroughputingestion.Database.{Document}
use highthroughputingestion.Repository.{Repository, create_or_get}
use highthroughputingestion.Api.{Api, JobState}
use highthroughputingestion.Api.Request.{Request, Parsed}
use highthroughputingestion.Api.Ingest.{
  Surroundings, Response, saturated, throttled, duplicate, accepted, Stored, Job,
  ingest_audit_report, process, submit, settle, refuse_agency, register, register_durably,
  register_locally, known_locally, answer_duplicate, publish, send, conclude, serve,
  answer_exception, enter, refuse_saturated, leave, submission, enter_job,
}
use highthroughputingestion.Api.Status.Caches.{
  IsGrowing, store_document-Cached, publish-Cached, check_bucket-Cached,
}

-- Every job that a key stands for has an entry.
abbrev pub Tracked : Dict JobState → Dict String → Type 0
Tracked jobs keys =
    (key id : String) → Dict.lookup key keys ≡ some id → Dict.contains id jobs ≡ true

-- The job has an entry.
abbrev pub Holds : String → Dict JobState → Dict String → Type 0
Holds id jobs keys = Dict.contains id jobs ≡ true

-- Every entry is that of its job.
abbrev pub Labelled : Dict JobState → Dict String → Type 0
Labelled jobs keys =
    (id : String) (job : JobState) → Dict.lookup id jobs ≡ some job → job.job_id ≡ id

pub Labelled-IsGrowing : IsGrowing Labelled
Labelled-IsGrowing = record {
  job_added = λ new job jobs keys e h. labelled new job jobs e h;
  key_added = λ key new job jobs keys e h. labelled new job jobs e h;
}
  where
    labelled :
        (new : String) (job : JobState) (jobs : Dict JobState)
        → job.job_id ≡ new
        → ((id : String) (old : JobState) → Dict.lookup id jobs ≡ some old → old.job_id ≡ id)
        → (id : String) (x : JobState) → Dict.lookup id (Dict.insert new job jobs) ≡ some x
        → x.job_id ≡ id
    labelled new job jobs e h id x found =
        ground (arith, Dict.lookup-insert new id job jobs, eq_iff new id, h id x)

contains-insert :
    (id new : String) (job : JobState) (jobs : Dict JobState)
    → Dict.contains id jobs ≡ true
    → Dict.contains id (Dict.insert new job jobs) ≡ true
contains-insert id new job jobs h = ground (arith, Dict.lookup-insert new id job jobs)

contains-insert_self :
    (id : String) (job : JobState) (jobs : Dict JobState)
    → Dict.contains id (Dict.insert id job jobs) ≡ true
contains-insert_self id job jobs = rw (Dict.lookup-insert_self id job jobs)

pub Holds-IsGrowing : (id : String) → IsGrowing (Holds id)
Holds-IsGrowing id = record {
  job_added = λ new job jobs keys e h. contains-insert id new job jobs h;
  key_added = λ key new job jobs keys e h. contains-insert id new job jobs h;
}

pub Tracked-IsGrowing : IsGrowing Tracked
Tracked-IsGrowing = record {
  job_added =
      λ new job jobs keys e h key id found. contains-insert id new job jobs (h key id found);
  key_added = λ key new job jobs keys e h.
      Dict.insert-all (λ id. Dict.contains id (Dict.insert new job jobs) ≡ true) key new keys
        (contains-insert_self new job jobs)
        (λ k id found. contains-insert id new job jobs (h k id found));
}

-- The job that a response names.
abbrev pub named : {F : Float} → Result (Response F) → Option String
named (returned (saturated _ _ _)) = none
named (returned (throttled _ _)) = none
named (returned (duplicate job _ _)) = some job
named (returned (accepted job _ _ _ _ _)) = some job
named (raised _) = none

module _ (F : Float) (rt : Runtime) (o : Surroundings F) where
  abbrev Told : Result (Response F) × Api F → Type 0
  Told (r, a) = (id : String) → named r ≡ some id → Dict.contains id a.job_cache ≡ true

  -- Where every key has its job, a call keeps it so and names a job that is there.
  record Tells (m : Exec (Api F) (Response F)) : Type 0 where
    at : (a : Api F) → Tracked a.job_cache a.idemp_cache → Told (m a)

  abbrev Kept : {A : Type 0} → Exec (Api F) A → Type 0
  Kept m = Keeps (λ a. Tracked a.job_cache a.idemp_cache) m

  bind-Tells :
      {A : Type 0} (m : Exec (Api F) A) (f : A → Exec (Api F) (Response F))
      → Kept m
      → ((x : A) → Tells (f x))
      → Tells (m >>= f)
  bind-Tells {A} m f k t = record { at = λ a h. go (m a) (k.at a h) }
    where
      go : (r : Result A × Api F) → Tracked r.1.job_cache r.1.idemp_cache → Told (continue r f)
      go (returned x, a) h = (t x).at a h
      go (raised e, a) h = λ id never. cc

  -- At most the given job is named.
  abbrev Only : String → Result (Response F) → Type 0
  Only id r = (other : String) → named r ≡ some other → other ≡ id

  Only-continue :
      {A : Type 0} (id : String) (r : Result A × Api F) (f : A → Exec (Api F) (Response F))
      → ((x : A) (a : Api F) → Only id (f x a).0)
      → Only id (continue r f).0
  Only-continue id (returned x, a) f h = h x a
  Only-continue id (raised e, a) f h = λ other never. cc

  conclude-Only : (d : Stored) (j : Job) (a : Api F) → Only j.job_id (publish F rt o d j a).0
  unfolding publish conclude
  conclude-Only d j a = Only-continue j.job_id (send F rt o d j a) _ λ meta b.
      Only-continue j.job_id (when b.repository.pool _ b) _
        λ _ c. Only-continue j.job_id (when b.repository.pool _ _) _ λ _ e other h. cc

  refuse_agency-unnamed :
      (p : Parsed) (wait : F.Carrier) (a : Api F) → named (refuse_agency F rt o p wait a).0 ≡ none
  unfolding refuse_agency
  refuse_agency-unnamed p wait a = go (when a.repository.pool _ _) p.agency_id
    where
      go :
          (r : Result (Unit {0}) × Api F) (agency : String)
          → named (continue {B = Response F} r (λ _ b. (returned (throttled agency wait), b))).0
            ≡ none
      go (returned x, b) agency = refl
      go (raised e, b) agency = refl

  -- What `register` returns has an entry.
  abbrev Entered : Result Job × Api F → Type 0
  Entered (returned j, a) = Dict.contains j.job_id a.job_cache ≡ true
  Entered (raised e, a) = Unit {0}

  known_locally-Entered :
      (d : Stored) (a : Api F) (found : Option String)
      → Tracked a.job_cache a.idemp_cache
      → ((id : String) → found ≡ some id → Dict.contains id a.job_cache ≡ true)
      → Entered (known_locally F rt o d found a)
  unfolding known_locally
  known_locally-Entered d a none h k = contains-insert_self _ _ a.job_cache
  known_locally-Entered d a (some id) h k = k id refl

  register_locally-Entered :
      (d : Stored) (a : Api F)
      → Tracked a.job_cache a.idemp_cache
      → Entered (register_locally F rt o d a)
  unfolding register_locally
  register_locally-Entered d a h = known_locally-Entered d a _ h (λ id found. h _ id found)

  -- What the database answered is entered; if it failed, the cache takes over.
  durably-Entered :
      (d : Stored) (a : Api F) (r : Result (Document × Bool) × Repository)
      → Tracked a.job_cache a.idemp_cache
      → Entered (
          handle
            (continue (put_back (λ r a. record a { repository = r }) r a) (enter_job F rt o d))
            (λ _. register_locally F rt o d))
  unfolding enter_job
  durably-Entered d a (returned found, r) h = contains-insert_self _ _ a.job_cache
  durably-Entered d a (raised e, r) h = register_locally-Entered d (record a { repository = r }) h

  Entered-branch :
      (b : Bool) (m n : Exec (Api F) Job) (a : Api F)
      → Entered (m a)
      → Entered (n a)
      → Entered (branch b m n a)
  Entered-branch true m n a hm hn = hm
  Entered-branch false m n a hm hn = hn

  register-Entered :
      (d : Stored) (a : Api F) → Tracked a.job_cache a.idemp_cache → Entered (register F rt o d a)
  unfolding register register_durably enter_job
  register-Entered d a h =
      Entered-branch a.repository.pool _ _ a
        (durably-Entered d a
          (create_or_get (submission F rt o d) o.document_id o.now o.create_ok a.repository) h)
        (register_locally-Entered d a h)

  answer_duplicate-Told :
      (d : Stored) (j : Job) (a : Api F)
      → Dict.contains j.job_id a.job_cache ≡ true
      → Told (answer_duplicate F rt o d j a)
  unfolding answer_duplicate
  answer_duplicate-Told d j a h id found =
      let e : j.job_id ≡ id = cc in subst (λ x. Dict.contains x a.job_cache ≡ true) e h

  publish-Told :
      (d : Stored) (j : Job) (a : Api F)
      → Dict.contains j.job_id a.job_cache ≡ true
      → Told (publish F rt o d j a)
  publish-Told d j a h id found =
      subst (λ x. Dict.contains x (publish F rt o d j a).1.job_cache ≡ true)
        (sym (conclude-Only d j a id found)) ((publish-Cached F rt o (Holds j.job_id) d j).at a h)

  Told-branch :
      (b : Bool) (m n : Exec (Api F) (Response F)) (a : Api F)
      → Told (m a)
      → Told (n a)
      → Told (branch b m n a)
  Told-branch true m n a hm hn = hm
  Told-branch false m n a hm hn = hn

  settled :
      (d : Stored) (r : Result Job × Api F)
      → Entered r
      → Told (
          continue r
            (λ j. branch j.is_duplicate (answer_duplicate F rt o d j) (publish F rt o d j)))
  settled d (returned j, a) e =
      Told-branch j.is_duplicate _ _ a (answer_duplicate-Told d j a e) (publish-Told d j a e)
  settled d (raised e, a) u = λ id never. cc

  settle-Tells : (d : Stored) → Tells (settle F rt o d)
  unfolding settle
  settle-Tells d = record { at = λ a h. settled d (register F rt o d a) (register-Entered d a h) }

  refuse_agency-Tells : (p : Parsed) (wait : F.Carrier) → Tells (refuse_agency F rt o p wait)
  refuse_agency-Tells p wait = record { at = λ a h id found. cc (refuse_agency-unnamed p wait a) }

  process-Tells : (q : Request) → Tells (process F rt o q)
  unfolding process submit
  process-Tells q =
      bind-Tells _ _ (record { at = λ a h. h })
        λ p. bind-Tells _ _ (check_bucket-Cached F rt o Tracked p.agency_id) λ allowed. record {
          at = λ a h.
              Told-branch allowed.0 _ _ a
                ((bind-Tells _ _ (store_document-Cached F rt o Tracked p) (λ d. settle-Tells d)).at
                  a h)
                ((refuse_agency-Tells p _).at a h);
        }

  answer_exception-Told :
      (r : Result (Response F) × Api F) → Told r → Told (answer_exception F rt o r)
  unfolding answer_exception
  answer_exception-Told (returned response, a) h = h
  answer_exception-Told (raised payload_too_large, a) h = h
  answer_exception-Told (raised not_found, a) h = h
  answer_exception-Told (raised bad_request, a) h = h
  answer_exception-Told (raised _, a) h = λ id never. cc

  ingest-Told :
      (q : Request) (a : Api F)
      → Tracked a.job_cache a.idemp_cache
      → Told (ingest_audit_report F rt o q a)
  unfolding ingest_audit_report enter leave refuse_saturated
  ingest-Told q a h = elim (Bool-cases (acquire F a.limiter).0.0) [
    | inr full ↦ rw full (λ id never. cc)
    | inl room ↦ rw room ((process-Tells q).at _ h)
  ]

  pub serve-Told :
      (q : Request) (a : Api F) → Tracked a.job_cache a.idemp_cache → Told (serve F rt o q a)
  unfolding serve
  serve-Told q a h = answer_exception-Told (ingest_audit_report F rt o q a) (ingest-Told q a h)
