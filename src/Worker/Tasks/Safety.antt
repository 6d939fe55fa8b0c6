-- ===== src/Worker/Tasks/Safety.antt =====
-- What holds whatever turns the tasks of a batch get.
use highthroughputingestion.Base.{
  ℕ, zero, suc, ◌+◌, ◌≤◌, ◌≡◌, refl, sym, ◌∙◌, subst, Bool, true, false, Option, none, some, List,
  [], ◌∷◌, ltb, if◌then◌else◌, Error, attribute_error, raise_if, ◌&&◌, arith, inl, inr, All,
  Option-cases, Keeps, Keeps-raise_if, modify,
}
use highthroughputingestion.Runtime.{Runtime}
use highthroughputingestion.Float.{Float}
use highthroughputingestion.Repository.{Repository}
use highthroughputingestion.Worker.Processor.{Processor}
use highthroughputingestion.Worker.Consumer.{
  Consumer, Visit, Record, Value, dict, other, enter, leave, parsed, count_success,
}
use highthroughputingestion.Worker.Tasks.{
  Task, finished, pause, consumer_task, processor_task, body_task, report_task, on_error_task,
  record_task,
}
use highthroughputingestion.Worker.Tasks.Steady.{
  Steady, at_end, Steady-catch, Steady-unseen, Steady-next, Steady-keeps, steady_rules,
}
use highthroughputingestion.Worker.Tasks.Schedule.{
  Slot, queued, running, ended, permits_of, count_running, tasks, turn_slot, turn_at, turn, turns,
  or_stay,
}

module _ (F : Float) (rt : Runtime) (v : Visit F) (m : Record) (n : ℕ) where
  -- The number of jobs in hand.
  abbrev InHand : Consumer F → Type 0
  InHand s = s.active_jobs ≡ n

  consumer-InHand : {A : Type 0} (t : Task Repository A) → Steady InHand (consumer_task F rt v m t)
  consumer-InHand t =
      Steady-unseen (λ s. s.processor.repository)
        (λ r s. record s { processor = record (s.processor) { repository = r } }) t (λ r s h. h)

  processor-InHand : {A : Type 0} (t : Task Processor A) → Steady InHand (processor_task F rt v m t)
  processor-InHand t =
      Steady-unseen (λ s. s.processor) (λ p s. record s { processor = p }) t (λ r s h. h)

  parsed-InHand : (p : Option Value) → Keeps InHand (parsed F rt v m p)
  parsed-InHand none = record { at = λ s h. h }
  parsed-InHand (some (other b)) = record { at = λ s h. h }
  parsed-InHand (some (dict p)) = record { at = λ s h. h }

  fields-InHand :
      (f : Consumer F → Consumer F)
      → ((s : Consumer F) → (f s).active_jobs ≡ s.active_jobs)
      → Keeps InHand (modify f)
  fields-InHand f same = record { at = λ s h. same s ∙ h }

  body-InHand : Steady InHand (body_task F rt v m)
  unfolding body_task count_success
  body-InHand =
      search
        (
          steady_rules, consumer-InHand, processor-InHand, parsed-InHand, fields-InHand,
          Keeps-raise_if,
        )
        depth 14

  refused-InHand :
      (b : Bool) → Keeps InHand (λ s. raise_if (s.processor.repository.pool && b) attribute_error s)
  refused-InHand b = record {
    at = λ s h.
        (Keeps-raise_if {P = InHand} (s.processor.repository.pool && b) attribute_error).at s h;
  }

  report-InHand : (p : Option Value) (e : Error) → Steady InHand (report_task F rt v m p e)
  report-InHand none e = at_end _
  report-InHand (some (other b)) e = search (steady_rules, refused-InHand)
  report-InHand (some (dict p)) e = search (steady_rules, consumer-InHand)

  on_error-InHand : (e : Error) → Steady InHand (on_error_task F rt v m e)
  unfolding on_error_task
  on_error-InHand e = search (steady_rules, fields-InHand, report-InHand) depth 8

  record-InHand : Steady InHand (record_task F rt v m)
  unfolding record_task
  record-InHand = Steady-catch _ _ body-InHand on_error-InHand

module _ (F : Float) (rt : Runtime) where
  Slots : Type 0
  Slots = List (Slot F)

  -- Every task that holds a permit keeps the number of jobs in hand.
  HoldsSteady : Slot F → Type 0
  HoldsSteady (running v m t) = (n : ℕ) → Steady (λ s. s.active_jobs ≡ n) t
  HoldsSteady x = Unit {0}

  -- What a turn does to the permits and the jobs in hand.
  record Turned (room : Bool) (before after : ℕ) (s s' : Consumer F) : Type 0 where
    balance : s'.active_jobs + before ≡ s.active_jobs + after
    free : after ≤ before + (if room then 1 else 0)

  turn_slot-Turned :
      (x : Slot F) (room : Bool) (y : Slot F) (s s' : Consumer F)
      → turn_slot F rt x room s ≡ some (y, s')
      → HoldsSteady x
      → permits_of x ≤ s.active_jobs
      → HoldsSteady y × Turned room (permits_of x) (permits_of y) s s'
  unfolding HoldsSteady turn_slot enter leave
  turn_slot-Turned (queued v m) true y s s' e st h =
      let same : running v m (record_task F rt v m) ≡ y = cc in
      (subst HoldsSteady same (record-InHand F rt v m), ground arith)
  turn_slot-Turned (queued v m) false y s s' e st h = cc
  turn_slot-Turned (running v m (finished r)) room y s s' e st h =
      let same : ended r ≡ y = cc in (subst HoldsSteady same tt, ground arith)
  turn_slot-Turned (running v m (pause f next)) room y s s' e st h =
      let same : running v m (next s) ≡ y = cc in
      let kept = Steady-keeps (st s.active_jobs) s refl in
      (subst HoldsSteady same (λ n. Steady-next (st n) s), ground arith)
  turn_slot-Turned (ended r) room y s s' e st h = cc

  turn_at-Turned :
      (room : Bool) (i : ℕ) (xs ys : List (Slot F)) (s s' : Consumer F)
      → turn_at F rt room i xs s ≡ some (ys, s')
      → All HoldsSteady xs
      → count_running xs ≤ s.active_jobs
      → All HoldsSteady ys × Turned room (count_running xs) (count_running ys) s s'
  unfolding turn_at
  turn_at-Turned room i [] ys s s' e st h = cc
  turn_at-Turned room zero (x ∷ xs) ys s s' e st h = elim (Option-cases (turn_slot F rt x room s)) [
    | inl blocked ↦ cc (rw blocked at e)
    | inr ((y, s''), went) ↦
        let (steady, t) = turn_slot-Turned x room y s s'' went st.0 (omega arith) in
        let same : y ∷ xs ≡ ys = cc (rw went at e) in
        let ends : s'' ≡ s' = cc (rw went at e) in
        subst
          (λ ys. All HoldsSteady ys × Turned room (count_running (x ∷ xs)) (count_running ys) s s')
          same
          (rw (← ends) (
            (steady, st.1),
            record { balance = omega (arith, t.balance); free = omega (arith, t.free) },
          ))
  ]
  turn_at-Turned room (suc i) (x ∷ xs) ys s s' e st h =
      elim (Option-cases (turn_at F rt room i xs s)) [
        | inl blocked ↦ cc (rw blocked at e)
        | inr ((xs', s''), went) ↦
            let (steady, t) = turn_at-Turned room i xs xs' s s'' went st.1 (omega arith) in
            let same : x ∷ xs' ≡ ys = cc (rw went at e) in
            let ends : s'' ≡ s' = cc (rw went at e) in
            subst
              (λ ys.
                All HoldsSteady ys × Turned room (count_running (x ∷ xs)) (count_running ys) s s')
              same
              (rw (← ends) (
                (st.0, steady),
                record { balance = omega (arith, t.balance); free = omega (arith, t.free) },
              ))
      ]

  -- Each permit that is taken is a job in hand, and there are not too many.
  record IsTallied (permits : ℕ) (p : List (Slot F) × Consumer F) : Type 0 where
    steady : All HoldsSteady p.0
    counted : p.1.active_jobs ≡ count_running p.0
    bounded : count_running p.0 ≤ permits

  turn-IsTallied :
      (permits i : ℕ) (p : List (Slot F) × Consumer F)
      → IsTallied permits p
      → IsTallied permits (or_stay F rt (turn F rt permits i p) p)
  unfolding turn
  turn-IsTallied permits i (xs, s) h =
      elim (Option-cases (turn_at F rt (ltb (count_running xs) permits) i xs s)) [
        | inl blocked ↦ rw blocked h
        | inr ((ys, s'), went) ↦
            let (steady, t) =
              turn_at-Turned (ltb (count_running xs) permits) i xs ys s s' went h.steady
                (omega (arith, h.counted)) in
            rw went (record {
              steady = steady;
              counted = omega (arith, t.balance, h.counted);
              bounded = ground (arith, t.free, h.bounded);
            })
      ]

  turns-IsTallied :
      (permits : ℕ) (order : List ℕ) (p : List (Slot F) × Consumer F)
      → IsTallied permits p
      → IsTallied permits (turns F rt permits order p)
  unfolding turns
  turns-IsTallied permits [] p h = h
  turns-IsTallied permits (i ∷ order) p h =
      turns-IsTallied permits order (or_stay F rt (turn F rt permits i p) p)
        (turn-IsTallied permits i p h)

  queued_tasks :
      (batch : List (Visit F × Record))
      → All HoldsSteady (tasks F rt batch) × (count_running (tasks F rt batch) ≡ 0)
  unfolding HoldsSteady
  queued_tasks [] = (tt, refl)
  queued_tasks (x ∷ rest) =
      let (steady, none_runs) = queued_tasks rest in ((tt, steady), omega (arith, none_runs))

  -- Whatever turns the tasks of a batch get, the consumer's count of active jobs is the number of
  -- tasks that hold a permit, and it is at most the number of permits, if no job was active before.
  pub turns_bounded :
      (permits : ℕ) (batch : List (Visit F × Record)) (s : Consumer F) (order : List ℕ)
      → s.active_jobs ≡ 0
      → let p = turns F rt permits order (tasks F rt batch, s) in
        (p.1.active_jobs ≡ count_running p.0) × (p.1.active_jobs ≤ permits)
  turns_bounded permits batch s order idle =
      let (steady, none_runs) = queued_tasks batch in
      let t =
        turns-IsTallied permits order (tasks F rt batch, s)
          (record {
            steady = steady;
            counted = idle ∙ sym none_runs;
            bounded = omega (arith, none_runs);
          }) in
      (t.counted, omega (arith, t.counted, t.bounded))
