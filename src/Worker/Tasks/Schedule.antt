-- ===== src/Worker/Tasks/Schedule.antt =====
-- The tasks of one batch under the semaphore of `_consume_loop`, and the turns that the event loop
-- gives them, in any order.
use highthroughputingestion.Base.{
  ℕ, zero, suc, ◌+◌, Bool, true, false, Option, none, some, List, [], ◌∷◌, ltb, Result,
}
use highthroughputingestion.Runtime.{Runtime}
use highthroughputingestion.Float.{Float}
use highthroughputingestion.Worker.Consumer.{Consumer, Visit, Record, enter, leave}
use highthroughputingestion.Worker.Tasks.{Task, finished, pause, record_task}

-- `WORKER_CONCURRENCY` of worker/src/config.py
abbrev pub worker_concurrency : ℕ
worker_concurrency = 8

-- A task that waits for the semaphore, one that holds it, and one that has ended.
pub data Slot (F : Float) : Type 0 where
  queued : Visit F → Record → Slot F
  running : Visit F → Record → Task (Consumer F) (Unit {0}) → Slot F
  ended : Result (Unit {0}) → Slot F

abbrev pub permits_of : {F : Float} → Slot F → ℕ
permits_of (queued v m) = 0
permits_of (running v m t) = 1
permits_of (ended r) = 0

abbrev pub count_running : {F : Float} → List (Slot F) → ℕ
count_running [] = 0
count_running (x ∷ xs) = permits_of x + count_running xs

module _ (F : Float) (rt : Runtime) where
  abbrev pub tasks : List (Visit F × Record) → List (Slot F)
  tasks [] = []
  tasks ((v, m) ∷ rest) = queued v m ∷ tasks rest

  -- The next piece of a task; `none` where it has none or waits. Taking the semaphore, the entry
  -- and, at the end, the `finally` clause and the release happen with no other task in between.
  unfoldable pub turn_slot : Slot F → Bool → Consumer F → Option (Slot F × Consumer F)
  turn_slot (queued v m) true s = some (running v m (record_task F rt v m), enter F rt v m s)
  turn_slot (queued v m) false s = none
  turn_slot (running v m (finished r)) room s = some (ended r, leave F rt v m s)
  turn_slot (running v m (pause f next)) room s = some (running v m (next s), f s)
  turn_slot (ended r) room s = none

  abbrev pub first :
      List (Slot F) → Option (Slot F × Consumer F) → Option (List (Slot F) × Consumer F)
  first xs none = none
  first xs (some (x, s)) = some (x ∷ xs, s)

  abbrev pub behind :
      Slot F → Option (List (Slot F) × Consumer F) → Option (List (Slot F) × Consumer F)
  behind x none = none
  behind x (some (xs, s)) = some (x ∷ xs, s)

  unfoldable pub turn_at :
      Bool → ℕ → List (Slot F) → Consumer F → Option (List (Slot F) × Consumer F)
  unfolding turn_slot
  turn_at room i [] s = none
  turn_at room zero (x ∷ xs) s = first xs (turn_slot x room s)
  turn_at room (suc i) (x ∷ xs) s = behind x (turn_at room i xs s)

  -- A turn of the task `i`, with a semaphore of `permits` permits.
  unfoldable pub turn : ℕ → ℕ → List (Slot F) × Consumer F → Option (List (Slot F) × Consumer F)
  unfolding turn_at
  turn permits i (xs, s) = turn_at (ltb (count_running xs) permits) i xs s

  -- Turns in a given order; one that is not possible changes nothing.
  abbrev pub or_stay :
      Option (List (Slot F) × Consumer F) → List (Slot F) × Consumer F → List (Slot F) × Consumer F
  or_stay none p = p
  or_stay (some q) p = q

  unfoldable pub turns : ℕ → List ℕ → List (Slot F) × Consumer F → List (Slot F) × Consumer F
  unfolding turn
  turns permits [] p = p
  turns permits (i ∷ order) p = turns permits order (or_stay (turn permits i p) p)
