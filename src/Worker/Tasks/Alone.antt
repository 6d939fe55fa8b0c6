-- ===== src/Worker/Tasks/Alone.antt =====
-- A task that no other task interrupts does what the code does when it is read from top to bottom.
use highthroughputingestion.Base.{
  ◌≡◌, refl, sym, ap, ◌∙◌, ℕ, ℤ, Bool, true, false, Option, none, some, String, arith, inl, inr,
  Option-cases,
}
use highthroughputingestion.Base.{
  Exec, Result, returned, raised, pure, raise, branch, catch, continue, handle, on, put_back, Error,
  ◌>>=◌,
}
use highthroughputingestion.Runtime.{Runtime}
use highthroughputingestion.Float.{Float}
use highthroughputingestion.Repository.{Repository, connect-cases}
use highthroughputingestion.Worker.Results.{set_retry, log_retry, record_retry}
use highthroughputingestion.Worker.Processor.{
  Payload, Processor, Conditions, with_pool, mark_processing, mark_completed, mark_retry,
  mark_failed, attempt, give_up, process_event, in_repository,
}
use highthroughputingestion.Worker.Consumer.{
  Consumer, Visit, Record, Value, dict, other, has_name, body, on_error, report, enter, leave,
  handle_record,
}
use highthroughputingestion.Worker.Consumer
use highthroughputingestion.Worker.Tasks.{
  Task, finished, pause, atomically, bind_task, catch_task, branch_task, on_task, with_pool_task,
  mark_processing_task, mark_completed_task, mark_retry_task, mark_failed_task, attempt_task,
  give_up_task, process_task, repository_task, consumer_task, processor_task, body_task,
  report_task, on_error_task, record_task,
}

-- The pieces of a task, one after the other.
unfoldable pub alone : {S A : Type 0} → Task S A → Exec S A
alone (finished r) s = (r, s)
alone (pause f next) s = alone (next s) (f s)

-- Run alone, the task does what the call does.
record Does {S A : Type 0} (t : Task S A) (m : Exec S A) : Type 0 where
  at : (s : S) → alone t s ≡ m s

module _ {S A : Type 0} where
  Does-pure : (a : A) → Does (finished (returned a)) (pure {S = S} a)
  unfolding alone
  Does-pure a = record { at = λ s. refl }

  Does-raise : (e : Error) → Does {A = A} (finished (raised e)) (raise {S = S} e)
  unfolding alone
  Does-raise e = record { at = λ s. refl }

  Does-atomically : (m : Exec S A) → Does (atomically m) m
  unfolding alone
  Does-atomically m = record { at = λ s. refl }

  Does-branch :
      (b : Bool) (t u : Task S A) (m n : Exec S A)
      → Does t m
      → Does u n
      → Does (branch_task b t u) (branch b m n)
  Does-branch true t u m n dt du = record { at = dt.at }
  Does-branch false t u m n dt du = record { at = du.at }

  alone-catch :
      (t : Task S A) (h : Error → Task S A) (s : S)
      → alone (catch_task t h) s ≡ handle (alone t s) (λ e. alone (h e))
  unfolding alone
  alone-catch (finished (returned a)) h s = refl
  alone-catch (finished (raised e)) h s = refl
  alone-catch (pause f next) h s = alone-catch (next s) h (f s)

  handle-eq :
      (r : Result A × S) (h k : Error → Exec S A)
      → ((e : Error) (s : S) → h e s ≡ k e s)
      → handle r h ≡ handle r k
  handle-eq (returned a, s) h k same = refl
  handle-eq (raised e, s) h k same = same e s

  Does-catch :
      (t : Task S A) (h : Error → Task S A) (m : Exec S A) (k : Error → Exec S A)
      → Does t m
      → ((e : Error) → Does (h e) (k e))
      → Does (catch_task t h) (catch m k)
  Does-catch t h m k dt dh = record {
    at = λ s.
        alone-catch t h s
        ∙ ap (λ r. handle r (λ e. alone (h e))) (dt.at s)
        ∙ handle-eq (m s) _ k (λ e s'. (dh e).at s');
  }

module _ {S A B : Type 0} where
  alone-bind :
      (t : Task S A) (k : A → Task S B) (s : S)
      → alone (bind_task t k) s ≡ continue (alone t s) (λ a. alone (k a))
  unfolding alone
  alone-bind (finished (returned a)) k s = refl
  alone-bind (finished (raised e)) k s = refl
  alone-bind (pause f next) k s = alone-bind (next s) k (f s)

  continue-eq :
      (r : Result A × S) (f g : A → Exec S B)
      → ((a : A) (s : S) → f a s ≡ g a s)
      → continue r f ≡ continue r g
  continue-eq (returned a, s) f g same = same a s
  continue-eq (raised e, s) f g same = refl

  Does-bind :
      (t : Task S A) (k : A → Task S B) (m : Exec S A) (f : A → Exec S B)
      → Does t m
      → ((a : A) → Does (k a) (f a))
      → Does (bind_task t k) (m >>= f)
  Does-bind t k m f dt dk = record {
    at = λ s.
        alone-bind t k s
        ∙ ap (λ r. continue r (λ a. alone (k a))) (dt.at s)
        ∙ continue-eq (m s) _ f (λ a s'. (dk a).at s');
  }

-- Reading and writing a part of the state.
record IsLens {S T : Type 0} (get : S → T) (put : T → S → S) : Type 0 where
  get_put : (t : T) (s : S) → get (put t s) ≡ t
  put_put : (t u : T) (s : S) → put t (put u s) ≡ put t s
  put_get : (s : S) → put (get s) s ≡ s

module _ {S T A : Type 0} (get : S → T) (put : T → S → S) (lens : IsLens get put) where
  put_back_again : (r : Result A × T) (u : T) (s : S) → put_back put r (put u s) ≡ put_back put r s
  put_back_again (r, t) u s = ap (λ x. (r, x)) (lens.put_put t u s)

  alone-on : (t : Task T A) (s : S) → alone (on_task get put t) s ≡ put_back put (alone t (get s)) s
  unfolding alone
  alone-on (finished r) s = ap (λ x. (r, x)) (sym (lens.put_get s))
  alone-on (pause f next) s =
      alone-on (next (get s)) (put (f (get s)) s)
      ∙ ap (λ x. put_back put (alone (next (get s)) x) (put (f (get s)) s))
          (lens.get_put (f (get s)) s)
      ∙ put_back_again (alone (next (get s)) (f (get s))) (f (get s)) s

  Does-on : (t : Task T A) (m : Exec T A) → Does t m → Does (on_task get put t) (on get put m)
  Does-on t m d = record { at = λ s. alone-on t s ∙ ap (λ r. put_back put r s) (d.at (get s)) }

ruleset does_rules = (Does-pure, Does-raise, Does-atomically, Does-branch, Does-catch, Does-bind)

module _ (rt : Runtime) (c : Conditions) where
  Does-with_pool :
      (t : Task Repository (Unit {0})) (m : Exec Repository (Unit {0}))
      → Does t m
      → Does (with_pool_task rt c t) (with_pool rt c m)
  unfolding alone
  Does-with_pool t m d = record { at = λ r. (Does-branch r.pool t _ m _ d (Does-pure tt)).at r }

  mark_processing-Does :
      (id : String) (p : Payload)
      → Does (mark_processing_task rt c id p) (mark_processing rt c id p)
  unfolding mark_processing_task mark_processing
  mark_processing-Does id p = Does-with_pool _ _ (search does_rules)

  mark_completed-Does :
      (id : String) (p : Payload) → Does (mark_completed_task rt c id p) (mark_completed rt c id p)
  unfolding mark_completed_task mark_completed
  mark_completed-Does id p = Does-with_pool _ _ (search does_rules)

  mark_failed-Does :
      (id : String) (p : Payload) (e : Error) (n : ℕ)
      → Does (mark_failed_task rt c id p e n) (mark_failed rt c id p e n)
  unfolding mark_failed_task mark_failed
  mark_failed-Does id p e n = Does-with_pool _ _ (search does_rules)

  -- The two statements of `record_retry`.
  record_retry-split :
      (id worker_id : String) (n partition : ℕ) (offset : ℤ) (now : ℕ) (reachable logged : Bool)
      (r : Repository)
      → (set_retry rt id n now reachable >>= λ row. log_retry row worker_id partition offset logged)
          r
        ≡ record_retry rt id worker_id n partition offset now reachable logged r
  unfolding set_retry log_retry record_retry
  record_retry-split id worker_id n partition offset now reachable logged r =
      elim (connect-cases reachable r) [
        | inr (e, down) ↦ rw down refl
        | inl up ↦ rw up (elim (Option-cases (rt.uuid id)) [
          | inl bad ↦ ground arith
          | inr (row, good) ↦ ground arith
        ])
      ]

  mark_retry-Does :
      (id : String) (p : Payload) (n : ℕ)
      → Does (mark_retry_task rt c id p n) (mark_retry rt c id p n)
  unfolding mark_retry_task mark_retry
  mark_retry-Does id p n = Does-with_pool _ _ (record {
    at = λ r.
        (Does-bind _ _ _ _ (Does-atomically _) (λ row. Does-atomically _)).at r
        ∙ record_retry-split id c.worker_id n _ _ c.now c.retry_ok c.retry_event_ok r;
  })

  repository-IsLens :
      IsLens {S = Processor} {T = Repository}
        (λ s. s.repository)
        (λ r s. record s { repository = r })
  repository-IsLens = record { get_put = λ t s. refl; put_put = λ t u s. refl; put_get = λ s. refl }

  Does-repository :
      {A : Type 0} (t : Task Repository A) (m : Exec Repository A)
      → Does t m
      → Does (repository_task rt c t) (in_repository m)
  Does-repository t m d = Does-on _ _ repository-IsLens t m d

  attempt-Does : (id : String) (p : Payload) → Does (attempt_task rt c id p) (attempt rt c id p)
  unfolding attempt_task attempt
  attempt-Does id p =
      search (does_rules, Does-repository, mark_processing-Does, mark_completed-Does) depth 12

  give_up-Does :
      (id : String) (p : Payload) (e : Error)
      → Does (give_up_task rt c id p e) (give_up rt c id p e)
  unfolding give_up_task give_up
  give_up-Does id p e =
      search (does_rules, Does-repository, mark_retry-Does, mark_failed-Does) depth 12

  process_event-Does : (p : Payload) → Does (process_task rt c p) (process_event rt c p)
  unfolding process_task process_event
  process_event-Does p = search (does_rules, attempt-Does, give_up-Does) depth 12

module _ (F : Float) (rt : Runtime) (v : Visit F) (m : Record) where
  Does-consumer :
      {A : Type 0} (t : Task Repository A) (n : Exec Repository A)
      → Does t n
      → Does (consumer_task F rt v m t) (Consumer.in_repository F rt v m n)
  Does-consumer t n d =
      Does-on (λ s. s.processor.repository)
        (λ r s. record s { processor = record (s.processor) { repository = r } })
        (record { get_put = λ t s. refl; put_put = λ t u s. refl; put_get = λ s. refl }) t n d

  Does-processor :
      {A : Type 0} (t : Task Processor A) (n : Exec Processor A)
      → Does t n
      → Does (processor_task F rt v m t) (Consumer.in_processor F rt v m n)
  Does-processor t n d =
      Does-on (λ s. s.processor) (λ p s. record s { processor = p })
        (record { get_put = λ t s. refl; put_put = λ t u s. refl; put_get = λ s. refl }) t n d

  body-Does : Does (body_task F rt v m) (body F rt v m)
  unfolding body_task body
  body-Does = search (does_rules, Does-processor, process_event-Does rt v.conditions) depth 16

  report-Does :
      (p : Option Value) (e : Error) → Does (report_task F rt v m p e) (report F rt v m p e)
  unfolding alone
  report-Does none e = record { at = λ s. refl }
  report-Does (some (other b)) e = record { at = λ s. refl }
  report-Does (some (dict p)) e = record {
    at = λ s.
        (Does-branch (has_name p) _ _ _ _ (Does-consumer _ _ (Does-atomically _)) (Does-pure tt)).at
          s;
  }

  on_error-Does : (e : Error) → Does (on_error_task F rt v m e) (on_error F rt v m e)
  unfolding on_error_task on_error
  on_error-Does e = search (does_rules, report-Does)

  -- A record that is handled with no other task in between is handled as `handle_record` says.
  pub record_task-alone :
      (s : Consumer F)
      → (let (r, s') = alone (record_task F rt v m) (enter F rt v m s) in (r, leave F rt v m s'))
        ≡ handle_record F rt v m s
  unfolding record_task handle_record
  record_task-alone s =
      ap (λ (r : Result (Unit {0}) × Consumer F). (r.0, leave F rt v m r.1))
        ((Does-catch _ _ _ _ body-Does on_error-Does).at (enter F rt v m s))
