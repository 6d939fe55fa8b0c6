-- ===== src/Dashboard/Lifecycle.antt =====
-- `reconcile_document_lifecycle` and `evaluate_pipeline_health`, and the rows of the query
-- `SELECT status, COUNT(*) FROM documents GROUP BY status` that the former is given.
use highthroughputingestion.Base.{
  ℕ, suc, ◌+◌, ◌≡◌, refl, ◌∙◌, String, Bool, false, ◌&&◌, ◌||◌, Option, none, some, List, [], ◌∷◌,
  length, if◌then◌else◌, or_default, arith, ltb, str_eq,
}
use highthroughputingestion.Base.Dict.{Dict, lookup, insert, lookup-insert, lookup-insert_self}
use highthroughputingestion.Database.{
  Document, Status, queued, processing, retrying, completed, failed,
}
use highthroughputingestion.Repository.{status_count, same_status}

pub record Lifecycle : Type 0 where
  pub submitted : ℕ
  pub processing : ℕ
  pub completed : ℕ
  pub failed : ℕ

-- `sum(d.values())`
pub sum_values : Dict ℕ → ℕ
sum_values [] = 0
sum_values ((k, n) ∷ rest) = n + sum_values rest

-- `{str(key).upper(): int(value or 0) for key, value in counts.items()}`, for counts that are not
-- negative; `upper` is `str.upper`.
pub normalize : (String → String) → List (String × Option ℕ) → Dict ℕ → Dict ℕ
normalize upper [] done = done
normalize upper ((key, value) ∷ rest) done =
    normalize upper rest (insert (upper key) (or_default value 0) done)

abbrev pub get_or_zero : String → Dict ℕ → ℕ
get_or_zero key d = or_default (lookup key d) 0

-- `None` stands for anything that is no dict.
unfoldable pub reconcile_document_lifecycle :
    (String → String) → Option (List (String × Option ℕ)) → Lifecycle
unfolding normalize sum_values
reconcile_document_lifecycle upper none = record {
  submitted = 0;
  processing = 0;
  completed = 0;
  failed = 0;
}
reconcile_document_lifecycle upper (some counts) =
    let normalized = normalize upper counts [] in
    record {
      submitted = sum_values normalized;
      processing =
          get_or_zero "QUEUED" normalized
          + get_or_zero "PROCESSING" normalized
          + get_or_zero "RETRYING" normalized;
      completed = get_or_zero "COMPLETED" normalized;
      failed = get_or_zero "FAILED" normalized + get_or_zero "REJECTED" normalized;
    }

pub data Health : Type 0 where
  healthy degraded unhealthy : Health

-- The services that the health depends on, with `False` for one that is not given.
pub record Services : Type 0 where
  pub api : Bool
  pub database : Bool
  pub broker : Bool
  pub workers : Bool

unfoldable pub evaluate_pipeline_health : Services → Health
evaluate_pipeline_health s =
    if s.api && s.database && s.broker && s.workers
    then healthy
    else if s.api || s.database || s.broker || s.workers
    then degraded
    else unhealthy

-- A group of the query, which has none for a status that no document has.
abbrev row_of : String → ℕ → List (String × Option ℕ) → List (String × Option ℕ)
row_of name n rest = if ltb 0 n then (name, some n) ∷ rest else rest

unfoldable pub status_rows : List Document → List (String × Option ℕ)
status_rows ds = row_of "QUEUED" (status_count queued ds) (
    row_of "PROCESSING" (status_count processing ds) (
      row_of "RETRYING" (status_count retrying ds) (
        row_of "COMPLETED" (status_count completed ds)
          (row_of "FAILED" (status_count failed ds) []))))

cover_cons :
    (s : Status) (q p r c f n : ℕ)
    → q + p + r + c + f ≡ n
    → (if same_status s queued then suc q else q)
        + (if same_status s processing then suc p else p)
        + (if same_status s retrying then suc r else r)
        + (if same_status s completed then suc c else c)
        + (if same_status s failed then suc f else f)
      ≡ suc n
cover_cons queued q p r c f n h = omega (arith, h)
cover_cons processing q p r c f n h = omega (arith, h)
cover_cons retrying q p r c f n h = omega (arith, h)
cover_cons completed q p r c f n h = omega (arith, h)
cover_cons failed q p r c f n h = omega (arith, h)

-- Each document has one of the five statuses.
statuses_cover :
    (ds : List Document)
    → status_count queued ds
        + status_count processing ds
        + status_count retrying ds
        + status_count completed ds
        + status_count failed ds
      ≡ length ds
unfolding status_count
statuses_cover [] = refl
statuses_cover (d ∷ ds) = cover_cons d.status _ _ _ _ _ _ (statuses_cover ds)

-- `str.upper` leaves the names of the statuses as they are.
pub record KeepsNames (upper : String → String) : Type 0 where
  pub queued_name : upper "QUEUED" ≡ "QUEUED"
  pub processing_name : upper "PROCESSING" ≡ "PROCESSING"
  pub retrying_name : upper "RETRYING" ≡ "RETRYING"
  pub completed_name : upper "COMPLETED" ≡ "COMPLETED"
  pub failed_name : upper "FAILED" ≡ "FAILED"

sum_values_nil : sum_values [] ≡ 0
unfolding sum_values
sum_values_nil = refl

-- A count that is kept unless it is zero.
unfoldable put : String → ℕ → Dict ℕ → Dict ℕ
put k n d = if ltb 0 n then insert k n d else d

sum_values-insert :
    (k : String) (n : ℕ) (d : Dict ℕ)
    → lookup k d ≡ none
    → sum_values (insert k n d) ≡ n + sum_values d
unfolding sum_values
sum_values-insert k n [] new = omega arith
sum_values-insert k n ((j, m) ∷ d) new = ground (arith, sum_values-insert k n d)

sum_values-put :
    (k : String) (n : ℕ) (d : Dict ℕ)
    → lookup k d ≡ none
    → sum_values (put k n d) ≡ n + sum_values d
unfolding put
sum_values-put k n d new = ground (arith, sum_values-insert k n d new)

lookup-put_self :
    (k : String) (n : ℕ) (d : Dict ℕ) → lookup k d ≡ none → get_or_zero k (put k n d) ≡ n
unfolding put
lookup-put_self k n d new = ground (arith, lookup-insert_self k n d, new)

lookup-put_other :
    (j k : String) (n : ℕ) (d : Dict ℕ) → str_eq k j ≡ false → lookup j (put k n d) ≡ lookup j d
unfolding put
lookup-put_other j k n d other = ground (arith, lookup-insert k j n d)

module _ (upper : String → String) where
  normalize_row :
      (name : String) (n : ℕ) (rest : List (String × Option ℕ)) (done : Dict ℕ)
      → upper name ≡ name
      → normalize upper (row_of name n rest) done ≡ normalize upper rest (put name n done)
  unfolding normalize put
  normalize_row name n rest done same = ground (arith, same)

  normalize_end : (done : Dict ℕ) → normalize upper [] done ≡ done
  unfolding normalize
  normalize_end done = refl

  -- The totals of counts for the five statuses.
  reconcile_rows :
      (q p r c f : ℕ)
      → KeepsNames upper
      → reconcile_document_lifecycle upper (
          some (
            row_of "QUEUED" q (
              row_of "PROCESSING" p
                (row_of "RETRYING" r (row_of "COMPLETED" c (row_of "FAILED" f []))))))
        ≡ record {
          submitted = q + p + r + c + f;
          processing = q + p + r;
          completed = c;
          failed = f;
        }
  unfolding reconcile_document_lifecycle
  reconcile_rows q p r c f k =
      let d1 = put "QUEUED" q [] in
      let d2 = put "PROCESSING" p d1 in
      let d3 = put "RETRYING" r d2 in
      let d4 = put "COMPLETED" c d3 in
      let d5 = put "FAILED" f d4 in
      let e : normalize upper
            (row_of "QUEUED" q (
              row_of "PROCESSING" p
                (row_of "RETRYING" r (row_of "COMPLETED" c (row_of "FAILED" f [])))))
            []
          ≡ d5 =
        normalize_row "QUEUED" q _ [] k.queued_name
        ∙ normalize_row "PROCESSING" p _ d1 k.processing_name
        ∙ normalize_row "RETRYING" r _ d2 k.retrying_name
        ∙ normalize_row "COMPLETED" c _ d3 k.completed_name
        ∙ normalize_row "FAILED" f [] d4 k.failed_name
        ∙ normalize_end d5 in
      rw e
        (simp (lookup-put_other, lookup-put_self, sum_values-put) (ground (arith, sum_values_nil)))

-- The totals that the dashboard shows of the counts in the table of documents: each document is
-- counted once as submitted, and once as processing, completed or failed.
pub reconcile_partition :
    (upper : String → String) (ds : List Document)
    → KeepsNames upper
    → let l = reconcile_document_lifecycle upper (some (status_rows ds)) in
      (l.submitted ≡ length ds)
      × (l.processing + l.completed + l.failed ≡ length ds)
      × (l.completed ≡ status_count completed ds)
      × (l.failed ≡ status_count failed ds)
unfolding status_rows
reconcile_partition upper ds k =
    rw
      (reconcile_rows upper (status_count queued ds) (status_count processing ds)
        (status_count retrying ds) (status_count completed ds) (status_count failed ds) k)
      (statuses_cover ds, statuses_cover ds, refl, refl)
