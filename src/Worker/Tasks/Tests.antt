-- ===== src/Worker/Tasks/Tests.antt =====
-- A batch of two tasks.
use highthroughputingestion.Base.{ℕ, ◌≡◌, ◌≤◌, refl, List, [], ◌∷◌, none}
use highthroughputingestion.Float.Fixed.{fixed}
use highthroughputingestion.Worker.Consumer.{Visit, Record, enter, leave, idle}
use highthroughputingestion.Worker.Tasks.{record_task, body_task, on_error_task}
use highthroughputingestion.Worker.Tasks.Schedule.{
  tasks, turns, turn, turn_at, turn_slot, count_running,
}
use highthroughputingestion.Worker.Tasks.Safety.{turns_bounded}
use highthroughputingestion.Samples.{sample_runtime}
use highthroughputingestion.Worker.Samples.{good, bad, consumer, delivery, visit}

abbrev batch : List (Visit fixed × Record)
batch = (visit good, delivery) ∷ (visit bad, delivery) ∷ []

-- Two tasks at a time, then one, then a turn that is not possible.
abbrev order : List ℕ
order = 0 ∷ 1 ∷ 0 ∷ 1 ∷ 1 ∷ 0 ∷ 7 ∷ []

turns_bounded_example :
    let p = turns fixed sample_runtime 8 order (tasks fixed sample_runtime batch, consumer) in
    (p.1.active_jobs ≡ count_running p.0) × (p.1.active_jobs ≤ 8)
turns_bounded_example = turns_bounded fixed sample_runtime 8 batch consumer order refl

-- A record that is no JSON ends while another task holds a permit: the consumer calls itself idle
-- with a job in hand.
abbrev mixed : List (Visit fixed × Record)
mixed = (visit good, delivery) ∷ (visit good, record delivery { value = none }) ∷ []

idle_with_a_job :
    let p =
      turns fixed sample_runtime 8
        (0 ∷ 1 ∷ 1 ∷ 1 ∷ 1 ∷ [])
        (tasks fixed sample_runtime mixed, consumer) in
    (p.1.active_jobs ≡ 1) × (p.1.current_state ≡ idle)
unfolding turns turn turn_at turn_slot enter leave record_task body_task on_error_task
idle_with_a_job = (refl, refl)
