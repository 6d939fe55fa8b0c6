-- ===== src/Worker/Counters.antt =====
-- The counters of the consumer.
use highthroughputingestion.Base.{ℕ, ◌+◌, ◌-◌, ◌≡◌, refl, ap, ◌∙◌, Option, none, some, arith}
use highthroughputingestion.Base.{
  Exec, Result, returned, raised, Error, Keeps, Keeps-branch, Keeps-pure, Keeps-raise_if, on,
  modify, continue, handle, attribute_error, ◌&&◌, ◌>>=◌,
}
use highthroughputingestion.Runtime.{Runtime}
use highthroughputingestion.Float.{Float}
use highthroughputingestion.Worker.Consumer.{
  Consumer, Visit, Record, Value, dict, other, body, on_error, leave, enter, handle_record,
  payload_of, report, parsed, count_success, has_name,
}

-- How many records have ended, how many are in hand, and how many durations were observed.
pub record Tally : Type 0 where
  pub ended : ℕ
  pub active : ℕ
  pub observed : ℕ

module _ (F : Float) where
  abbrev pub tally : Consumer F → Tally
  tally s = record {
    ended = s.processed_jobs + s.failed_jobs;
    active = s.active_jobs;
    observed = s.observed;
  }

abbrev one_more : Tally → Tally
one_more t = record t { ended = t.ended + 1 }

module _ {F : Float} where
  At : Tally → Consumer F → Type 0
  At t s = tally F s ≡ t

  Ended : Tally → Result (Unit {0}) × Consumer F → Type 0
  Ended t (returned a, s) = At (one_more t) s
  Ended t (raised e, s) = At t s

-- A call that returns has ended a record, and one that raises has not.
record Ends {F : Float} (t : Tally) (m : Exec (Consumer F) (Unit {0})) : Type 0 where
  at : (s : Consumer F) → At t s → Ended t (m s)

module _ {F : Float} (t : Tally) where
  Ends-bind :
      {A : Type 0} (m : Exec (Consumer F) A) (f : A → Exec (Consumer F) (Unit {0}))
      → Keeps (At t) m
      → ((a : A) → Ends t (f a))
      → Ends t (m >>= f)
  unfolding At Ended
  Ends-bind {A} m f k g = record { at = λ s h. go (m s) (k.at s h) }
    where
      go : (r : Result A × Consumer F) → At t r.1 → Ended t (continue r f)
      go (returned a, s') h' = (g a).at s' h'
      go (raised e, s') h' = h'

  Ends-catch :
      (r : Result (Unit {0}) × Consumer F) (h : Error → Exec (Consumer F) (Unit {0}))
      → Ended t r
      → ((e : Error) (s : Consumer F) → At t s → At (one_more t) (h e s).1)
      → At (one_more t) (handle r h).1
  unfolding Ended
  Ends-catch (returned a, s) h e k = e
  Ends-catch (raised x, s) h e k = k x s e

module _ (F : Float) (rt : Runtime) (v : Visit F) (m : Record) (t : Tally) where
  parsed-At : (p : Option Value) → Keeps (At t) (parsed F rt v m p)
  parsed-At none = record { at = λ s h. h }
  parsed-At (some (other b)) = record { at = λ s h. h }
  parsed-At (some (dict p)) = record { at = λ s h. h }

  on-At :
      {A T : Type 0} (get : Consumer F → T) (put : T → Consumer F → Consumer F) (n : Exec T A)
      → ((x : T) (s : Consumer F) → tally F (put x s) ≡ tally F s)
      → Keeps (At t) (on get put n)
  unfolding At
  on-At get put n same = record { at = λ s h. rw (same (n (get s)).1 s) h }

  modify-At :
      (f : Consumer F → Consumer F)
      → ((s : Consumer F) → tally F (f s) ≡ tally F s)
      → Keeps (At t) (modify f)
  unfolding At
  modify-At f same = record { at = λ s h. rw (same s) h }

  count_success-Ends : Ends t (modify (count_success F rt v m))
  unfolding At Ended count_success
  count_success-Ends = record { at = λ s h. ground (arith, h) }

  body-Ends : Ends t (body F rt v m)
  unfolding body
  body-Ends =
      search (Ends-bind, parsed-At, on-At, modify-At, Keeps-raise_if, count_success-Ends) depth 14

  report-At : (t : Tally) (p : Option Value) (e : Error) → Keeps (At t) (report F rt v m p e)
  unfolding At
  report-At t none e = record { at = λ s h. h }
  report-At t (some (other b)) e = record {
    at = λ s h.
        (Keeps-raise_if {P = At t} (s.processor.repository.pool && b) attribute_error).at s h;
  }
  report-At t (some (dict p)) e = record {
    at = λ s h.
        (Keeps-branch {P = At t} (has_name p) _ _ (record { at = λ s' h'. h' }) (Keeps-pure tt)).at
          s h;
  }

  on_error-At : (e : Error) (s : Consumer F) → At t s → At (one_more t) (on_error F rt v m e s).1
  unfolding on_error At
  on_error-At e s h = (report-At (one_more t) (payload_of m) e).at _ (ground (arith, h))

abbrev left : Tally → Tally
left t = record t { active = t.active - 1; observed = t.observed + 1 }

abbrev entered : Tally → Tally
entered t = record t { active = t.active + 1 }

-- `n` records more have ended.
abbrev ended_by : ℕ → Tally → Tally
ended_by n t = record t { ended = t.ended + n; observed = t.observed + n }

module _ (F : Float) (rt : Runtime) where
  handle_record-tally :
      (v : Visit F) (m : Record) (s : Consumer F)
      → tally F (handle_record F rt v m s).1 ≡ ended_by 1 (tally F s)
  unfolding handle_record leave enter At
  handle_record-tally v m s =
      let t = entered (tally F s) in
      let done =
        Ends-catch t (body F rt v m (enter F rt v m s)) (on_error F rt v m)
          ((body-Ends F rt v m t).at (enter F rt v m s) refl) (on_error-At F rt v m t) in
      ap left done ∙ ground arith

  -- A record that is handled with no other task in between, whatever it holds and whatever fails,
  -- even if the failure cannot be reported and the exception leaves the handler: it is counted
  -- exactly once, as processed or as failed, its duration is observed once, and the gauge of active
  -- jobs is back where it was.
  pub handle_record_counted :
      (v : Visit F) (m : Record) (s : Consumer F)
      → let s' = (handle_record F rt v m s).1 in
        (s'.processed_jobs + s'.failed_jobs ≡ s.processed_jobs + s.failed_jobs + 1)
        × (s'.observed ≡ s.observed + 1)
        × (s'.active_jobs ≡ s.active_jobs)
  handle_record_counted v m s =
      let t = handle_record-tally v m s in
      (
        ap (λ (t : Tally). t.ended) t,
        ap (λ (t : Tally). t.observed) t,
        ap (λ (t : Tally). t.active) t,
      )
