-- ===== src/Api/Status/Tracking.antt =====
-- Every job that the API names to a client is found by its status route from then on.
use highthroughputingestion.Base.{find, eq_iff, Bool-cases, Option-cases, inl, inr}
use highthroughputingestion.Database.{Database, has_id}
use highthroughputingestion.Repository.{parse_uuid, joined, connect-cases}
use highthroughputingestion.Base.{
  ◌≡◌, refl, sym, subst, String, Bool, true, false, Option, none, some, List, [], ◌∷◌, is_some,
}
use highthroughputingestion.Base.{
  Exec, Result, returned, raised, pure, continue, handle, put_back, branch,
}
use highthroughputingestion.Base.Dict
use highthroughputingestion.Base.Dict.{Dict}
use highthroughputingestion.Float.{Float}
use highthroughputingestion.Runtime.{Runtime}
use highthroughputingestion.Database.{Document, ProcessingResult}
use highthroughputingestion.Repository.{Repository, get}
use highthroughputingestion.Api.{Api, JobState}
use highthroughputingestion.Api.Request.{Request}
use highthroughputingestion.Api.Ingest.{Surroundings, serve}
use highthroughputingestion.Api.Status.{
  FoundJob, stored_job, cached_job, get_job_status, read_row, from_cache, answer_row, cached,
}
use highthroughputingestion.Api.Status.Caches.{IsGrowing, serve-Cached}
use highthroughputingestion.Api.Status.Told.{
  Tracked, Holds, Labelled, Holds-IsGrowing, Labelled-IsGrowing, Tracked-IsGrowing, named,
  serve-Told,
}

-- The state after requests, each with its surroundings.
unfoldable pub serve_all : (F : Float) → Runtime → List (Surroundings F × Request) → Api F → Api F
serve_all F rt [] a = a
serve_all F rt ((o, q) ∷ rest) a = serve_all F rt rest (serve F rt o q a).1

serve_all-Cached :
    (F : Float) (rt : Runtime) (P : Dict JobState → Dict String → Type 0)
    → IsGrowing P
    → (qs : List (Surroundings F × Request)) (a : Api F) → P a.job_cache a.idemp_cache
    → P (serve_all F rt qs a).job_cache (serve_all F rt qs a).idemp_cache
unfolding serve_all
serve_all-Cached F rt P grows [] a h = h
serve_all-Cached F rt P grows ((o, q) ∷ rest) a h =
    serve_all-Cached F rt P grows rest (serve F rt o q a).1 ((serve-Cached F rt o P grows q).at a h)

abbrev Row : Type 0
Row = Option (Document × Option ProcessingResult)

-- The answer is about this job: the row whose identifier the text stands for, or the entry with it.
abbrev pub IsAbout : Runtime → String → FoundJob → Type 0
IsAbout rt id (stored_job document result) = rt.uuid id ≡ some document.document_id
IsAbout rt id (cached_job job) = job.job_id ≡ id

find_holds : {A : Type 0} (p : A → Bool) (xs : List A) {x : A} → find p xs ≡ some x → p x ≡ true
find_holds p [] h = cc
find_holds p (y ∷ xs) {x} h = elim (Bool-cases (p y)) [
  | inl yes_y ↦ let same : y ≡ x = cc (rw yes_y at h) in subst (λ z. p z ≡ true) same yes_y
  | inr no_y ↦ find_holds p xs (rw no_y at h)
]

module _ (rt : Runtime) (id : String) where
  -- A row is that of the job.
  abbrev RowOf : Row → Type 0
  RowOf none = Unit {0}
  RowOf (some (document, result)) = rt.uuid id ≡ some document.document_id

  abbrev Reads : Result Row × Repository → Type 0
  Reads (returned row, r) = RowOf row
  Reads (raised e, r) = Unit {0}

  joined-RowOf : (key : String) (db : Database) → rt.uuid id ≡ some key → RowOf (joined key db)
  unfolding joined
  joined-RowOf key db parsed = elim (Option-cases (find (has_id key) db.documents)) [
    | inl missing ↦ rw (joined, missing) tt
    | inr (d, found) ↦
        let same = (eq_iff d.document_id key).0 (find_holds (has_id key) db.documents found) in
        rw (joined, found) (rw same parsed)
  ]

  get-Reads : (reachable : Bool) (r : Repository) → Reads (get rt id reachable r)
  unfolding get
  get-Reads reachable r = elim (connect-cases reachable r) [
    | inr (e, down) ↦ rw down tt
    | inl up ↦ elim (Option-cases (rt.uuid id)) [
      | inl malformed ↦ rw (up, parse_uuid, malformed) tt
      | inr (key, parsed) ↦ rw (up, parse_uuid, parsed) (joined-RowOf key r.db parsed)
    ]
  ]

module _ {F : Float} (rt : Runtime) (id : String) where
  abbrev Answers : Result FoundJob × Api F → Type 0
  Answers r = (job : FoundJob) × (r.0 ≡ returned job) × IsAbout rt id job

  -- A row of the job or none, and the job still in the cache.
  abbrev Kept : Api F → Type 0
  Kept a = Holds id a.job_cache a.idemp_cache × Labelled a.job_cache a.idemp_cache

  abbrev ReadSafely : Result Row × Api F → Type 0
  ReadSafely (returned row, a) = Kept a × RowOf rt id row
  ReadSafely (raised e, a) = ⊥

  cached-Answers :
      (o : Option JobState) (a : Api F)
      → is_some o ≡ true
      → ((job : JobState) → o ≡ some job → job.job_id ≡ id)
      → Answers (cached o a)
  cached-Answers none a h l = cc
  cached-Answers (some job) a h l = (cached_job job, refl, l job refl)

  answer_row-Answers :
      (r : Result Row × Api F) → ReadSafely r → Answers (continue r (answer_row id))
  unfolding from_cache
  answer_row-Answers (returned none, a) h =
      cached-Answers (Dict.lookup id a.job_cache) a h.0.0 (h.0.1 id)
  answer_row-Answers (returned (some (document, result)), a) h =
      (stored_job document result, refl, h.1)
  answer_row-Answers (raised e, a) h = absurd h

  ReadSafely-branch :
      (b : Bool) (m n : Exec (Api F) Row) (a : Api F)
      → ReadSafely (m a)
      → ReadSafely (n a)
      → ReadSafely (branch b m n a)
  ReadSafely-branch true m n a hm hn = hm
  ReadSafely-branch false m n a hm hn = hn

  handled :
      (r : Result Row × Repository) (a : Api F)
      → Kept a
      → Reads rt id r
      → ReadSafely (handle (put_back (λ r a. record a { repository = r }) r a) (λ _. pure none))
  handled (returned row, r) a h k = (h, k)
  handled (raised e, r) a h k = (h, tt)

  -- The status route finds every job of the cache, whatever the database does.
  get_job_status-Answers :
      (reachable : Bool) (a : Api F) → Kept a → Answers (get_job_status rt id reachable a)
  unfolding get_job_status read_row
  get_job_status-Answers reachable a h =
      answer_row-Answers (branch a.repository.pool (read_row rt id reachable) (pure none) a) (
        ReadSafely-branch a.repository.pool _ _ a
          (handled (get rt id reachable a.repository) a h (get-Reads rt id reachable a.repository))
          (h, tt))

-- A service that starts with empty caches serves any requests and names a job in a response, with
-- 200 or 202. Whatever it serves from then on and whether the database answers or not, its status
-- route answers with that job: with the row whose identifier the text of the job's identifier stands
-- for, or with the cache's entry that has this identifier.
pub named_job_found :
    (F : Float) (rt : Runtime) (earlier later : List (Surroundings F × Request))
    (o : Surroundings F) (q : Request) (a : Api F) (id : String) (reachable : Bool)
    → a.job_cache ≡ []
    → a.idemp_cache ≡ []
    → named (serve F rt o q (serve_all F rt earlier a)).0 ≡ some id
    → (job : FoundJob) × ((get_job_status rt id reachable
          (serve_all F rt later (serve F rt o q (serve_all F rt earlier a)).1)).0
        ≡ returned job)
      × IsAbout rt id job
named_job_found F rt earlier later o q a id reachable jobs keys told =
    let start : Tracked a.job_cache a.idemp_cache =
      subst (Tracked a.job_cache) (sym keys) (λ key other never. cc) in
    let empty : Labelled a.job_cache a.idemp_cache = λ key job found. cc (rw jobs at found) in
    let before = serve_all-Cached F rt Tracked Tracked-IsGrowing earlier a start in
    let entered = serve-Told F rt o q (serve_all F rt earlier a) before id told in
    let labels =
      (serve-Cached F rt o Labelled Labelled-IsGrowing q).at (serve_all F rt earlier a)
        (serve_all-Cached F rt Labelled Labelled-IsGrowing earlier a empty) in
    get_job_status-Answers rt id reachable _ (
      serve_all-Cached F rt (Holds id) (Holds-IsGrowing id) later _ entered,
      serve_all-Cached F rt Labelled Labelled-IsGrowing later _ labels,
    )
