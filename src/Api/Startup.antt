-- ===== src/Api/Startup.antt =====
-- `lifespan` of api/src/main.py: the start of the three clients (`start` of api/src/repository.py,
-- api/src/storage.py and api/src/producer.py) and their end. The upgrade of the tables in
-- `ensure_schema` is a flag whether it succeeds.
mod Tests
use highthroughputingestion.Base.{
  ◌≡◌, refl, ap, Bool, true, false, ◌&&◌, ◌||◌, not, Option, none, some, String, Exec, Result,
  returned, raised, Error, runtime_error, database_error, broker_error, pure, raise, raise_if,
  modify, catch, when, on, if◌then◌else◌, ◌>>=◌, ◌>>◌, arith, Bool-cases, inl, inr,
}
use highthroughputingestion.Base.{handle, continue, put_back, ◌∙◌}
use highthroughputingestion.Float.{Float}
use highthroughputingestion.Repository.{Repository}
use highthroughputingestion.Storage.{Storage}
use highthroughputingestion.Producer.{EventProducer, start, stop}
use highthroughputingestion.Api.{Api}
use highthroughputingestion.Api.Status.{health_check, HealthReport}

-- What the services answer.
pub record ServiceAnswers : Type 0 where
  -- whether the package asyncpg is installed
  pub asyncpg_installed : Bool
  pub pool_created : Bool
  pub schema_ensured : Bool
  pub pool_closed : Bool
  -- whether the package minio is installed
  pub minio_installed : Bool
  -- `bucket_exists`, and `none` where it raises
  pub bucket_exists : Option Bool
  pub bucket_made : Bool
  pub broker_reached : Bool
  pub broker_closed : Bool

module _ (v : ServiceAnswers) where
  -- `DocumentRepository.start`
  unfoldable pub start_repository : Exec Repository (Unit {0})
  start_repository = do
    raise_if (not v.asyncpg_installed) runtime_error
    raise_if (not v.pool_created) database_error
    modify (λ r. record r { pool = true })
    raise_if (not v.schema_ensured) database_error

  -- `DocumentRepository.stop`
  unfoldable pub stop_repository : Exec Repository (Unit {0})
  stop_repository r =
      when r.pool
        (raise_if (not v.pool_closed) database_error >> modify (λ r. record r { pool = false })) r

  abbrev with_bucket : Option Bool → Storage → Storage
  with_bucket none s = record s { remote_available = false }
  with_bucket (some true) s = record s { remote_available = true }
  with_bucket (some false) s = record s { remote_available = v.bucket_made }

  -- `ContentAddressableStorage.start`
  unfoldable pub start_storage : Storage → Storage
  start_storage s = if v.minio_installed then with_bucket v.bucket_exists s else s

  module _ {F : Float} where
    -- Up to the `yield`.
    unfoldable pub start_up : Exec (Api F) (Unit {0})
    start_up = do
      catch (on (λ a. a.repository) (λ r a. record a { repository = r }) start_repository)
          (λ _. pure tt)
      modify (λ a. record a { storage = start_storage a.storage })
      modify (λ a. record a { producer = start v.broker_reached a.producer })

    -- After it.
    unfoldable pub shut_down : Exec (Api F) (Unit {0})
    shut_down = do
      on (λ a. a.producer) (λ p a. record a { producer = p }) (stop v.broker_closed)
      on (λ a. a.repository) (λ r a. record a { repository = r }) stop_repository

  -- The bucket is there, or it could be made.
  abbrev pub has_bucket : Option Bool → Bool
  has_bucket none = false
  has_bucket (some there) = there || v.bucket_made

-- The state behind the start, with the pool open or not.
abbrev started : {F : Float} → ServiceAnswers → Bool → Api F → Api F
started v opened a = record a {
  repository = record a.repository { pool = opened };
  storage = start_storage v a.storage;
  producer = start v.broker_reached a.producer;
}

start_repository_outcome :
    (v : ServiceAnswers) (r : Repository)
    → r.pool ≡ false
    → (start_repository v r).1 ≡ record r { pool = v.asyncpg_installed && v.pool_created }
unfolding start_repository
start_repository_outcome v r closed =
    let unopened : r ≡ record r { pool = false } = ap (λ p. record r { pool = p }) closed in
    elim (Bool-cases v.asyncpg_installed) [
      | inr missing ↦ rw missing unopened
      | inl installed ↦ elim (Bool-cases v.pool_created) [
        | inr refused ↦ rw (installed, refused) unopened
        | inl created ↦ elim (Bool-cases v.schema_ensured) [
          | inr failed ↦ rw (installed, created, failed) refl
          | inl ensured ↦ rw (installed, created, ensured) refl
        ]
      ]
    ]

-- The `try` block around the start of the repository.
tried :
    {F : Float} (x : Result (Unit {0}) × Repository) (a : Api F)
    → handle (put_back (λ r a. record a { repository = r }) x a) (λ _. pure tt)
      ≡ (returned tt, record a { repository = x.1 })
tried (returned tt, r) a = refl
tried (raised e, r) a = refl

start_up_outcome :
    {F : Float} (v : ServiceAnswers) (a : Api F)
    → a.repository.pool ≡ false
    → start_up v a ≡ (returned tt, started v (v.asyncpg_installed && v.pool_created) a)
unfolding start_up
start_up_outcome {F} v a closed =
    ap
      (λ y. continue y (λ _ b. (
        returned tt,
        record b {
          storage = start_storage v b.storage;
          producer = start v.broker_reached b.producer;
        },
      )))
      (tried (start_repository v a.repository) a)
    ∙ ap
        (λ r. (
          returned tt,
          record a {
            repository = r;
            storage = start_storage v a.storage;
            producer = start v.broker_reached a.producer;
          },
        ))
        (start_repository_outcome v a.repository closed)

with_bucket-available :
    (v : ServiceAnswers) (b : Option Bool) (s : Storage)
    → (with_bucket v b s).remote_available ≡ has_bucket v b
with_bucket-available v none s = refl
with_bucket-available v (some true) s = refl
with_bucket-available v (some false) s = refl

start_storage_outcome :
    (v : ServiceAnswers) (s : Storage)
    → s.remote_available ≡ false
    → (start_storage v s).remote_available ≡ v.minio_installed && has_bucket v v.bucket_exists
unfolding start_storage
start_storage_outcome v s local = elim (Bool-cases v.minio_installed) [
  | inr missing ↦ rw missing local
  | inl installed ↦ rw installed (with_bucket-available v v.bucket_exists s)
]

-- The end of the repository, behind that of the producer.
closed_pool :
    {F : Float} (v : ServiceAnswers) (opened : Bool) (a : Api F)
    → v.pool_closed ≡ true
    → let down =
        on
          (λ (a : Api F). a.repository)
          (λ r a. record a { repository = r })
          (stop_repository v)
          (record a {
            repository = record a.repository { pool = opened };
            storage = start_storage v a.storage;
            producer = record a.producer { connected = false };
          }) in
      (down.0 ≡ returned tt)
      × (down.1.repository.pool ≡ false)
      × (down.1.producer.connected ≡ false)
unfolding stop_repository
closed_pool v false a ends = (refl, refl, refl)
closed_pool v true a ends = rw ends (refl, refl, refl)

-- The connection to the broker cannot be closed.
abbrev pub is_stuck : ServiceAnswers → Bool
is_stuck v = v.broker_reached && not v.broker_closed

shut_down_outcome :
    {F : Float} (v : ServiceAnswers) (opened : Bool) (a : Api F)
    → v.pool_closed ≡ true
    → let down = shut_down v (started v opened a) in
      (down.0 ≡ (if is_stuck v then raised broker_error else returned tt))
      × (down.1.repository.pool ≡ is_stuck v && opened)
      × (down.1.producer.connected ≡ is_stuck v)
unfolding shut_down stop_repository start stop
shut_down_outcome v opened a ends = elim (Bool-cases v.broker_reached) [
  | inl reached ↦ elim (Bool-cases v.broker_closed) [
    | inl closes ↦ rw (reached, closes) (closed_pool v opened a ends)
    | inr sticks ↦ rw (reached, sticks) (refl, refl, refl)
  ]
  | inr missed ↦ rw missed (closed_pool v opened a ends)
]

-- Without open connections at first, the start raises no exception, whatever the services answer.
-- The health report then says of each service whether it was reached, and of the database whether
-- the pool could be created, even if the upgrade of its tables failed. At the end, if closing the
-- pool succeeds once it is tried: where the connection to the broker was open and cannot be closed,
-- the exception leaves `lifespan`, and the broker and the pool stay open; otherwise nothing is
-- raised, and neither is open.
pub start_up_reported :
    {F : Float} (v : ServiceAnswers) (a : Api F)
    → a.repository.pool ≡ false
    → a.storage.remote_available ≡ false
    → v.pool_closed ≡ true
    → let up = start_up v a in
      let report = health_check up.1 in
      let down = shut_down v up.1 in
      let opened = v.asyncpg_installed && v.pool_created in
      (up.0 ≡ returned tt)
      × (report.database_connected ≡ opened)
      × (report.object_storage_connected ≡ v.minio_installed && has_bucket v v.bucket_exists)
      × (report.broker_connected ≡ v.broker_reached)
      × (down.0 ≡ (if is_stuck v then raised broker_error else returned tt))
      × ((health_check down.1).database_connected ≡ is_stuck v && opened)
      × ((health_check down.1).broker_connected ≡ is_stuck v)
unfolding health_check start
start_up_reported v a closed local ends =
    let opened = v.asyncpg_installed && v.pool_created in
    let down = shut_down_outcome v opened a ends in
    rw (start_up_outcome v a closed)
      (refl, refl, start_storage_outcome v a.storage local, refl, down.0, down.1, down.2)
