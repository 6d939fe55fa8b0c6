-- ===== src/Worker/Heartbeats/Registration.antt =====
-- The rows of `worker_status` through any calls of any workers.
use highthroughputingestion.Base.{
  ℕ, ◌≡◌, refl, ◌∙◌, sym, subst, Bool, true, false, Option, none, some, String, eq_iff, List, [],
  ◌∷◌, find, count, update_where, if◌then◌else◌, arith, Option-cases, inl, inr, ◌⊎◌, Bool-cases,
}
use highthroughputingestion.Base.{
  Exec, Result, returned, raised, continue, handle, when, catch, pure, modify, ◌>>=◌, ◌>>◌,
}
use highthroughputingestion.Runtime.{Runtime}
use highthroughputingestion.Float.{Float}
use highthroughputingestion.Worker.Heartbeats.{
  Beat, WorkerRow, Fleet, is_worker, connect_fleet, parse_current, upsert, registration, refreshed,
  register_worker, heartbeat_worker, Call, starts, beats, stops, caller, call, calls, beat_of,
  first_beat, active, draining,
}

module _ (F : Float) (rt : Runtime) where
  abbrev Rows : Type 0
  Rows = List (WorkerRow F)

  -- Both calls check the connection, parse the identifier and change the rows.
  abbrev write : Option String → Bool → (Option String → Rows → Rows) → Exec (Fleet F) (Unit {0})
  write id reachable g =
      connect_fleet F reachable
      >> (parse_current F rt id >>= λ document.
          modify (λ s. record s { workers = g document s.workers }))

  connect_fleet-state : (reachable : Bool) (s : Fleet F) → (connect_fleet F reachable s).1 ≡ s
  unfolding connect_fleet
  connect_fleet-state reachable s = ground arith

  parse_current-state : (id : Option String) (s : Fleet F) → (parse_current F rt id s).1 ≡ s
  unfolding parse_current
  parse_current-state none s = refl
  parse_current-state (some text) s = ground arith

  -- A call that only reads, before another.
  reading :
      {A : Type 0} (Q : Fleet F → Type 0) (r : Result A × Fleet F)
      (f : A → Exec (Fleet F) (Unit {0})) (s : Fleet F)
      → r.1 ≡ s
      → Q s
      → ((a : A) → Q (f a s).1)
      → Q (continue r f).1
  reading Q (returned a, s') f s e base next = subst (λ x. Q (f a x).1) (sym e) (next a)
  reading Q (raised x, s') f s e base next = subst Q (sym e) base

  -- The rows after a call: as they were, or changed by `g`.
  abbrev Written : (Option String → Rows → Rows) → Fleet F → Fleet F → Type 0
  Written g s s' =
      (s'.workers ≡ s.workers) ⊎ ((document : Option String) × (s'.workers ≡ g document s.workers))

  write-Written :
      (id : Option String) (reachable : Bool) (g : Option String → Rows → Rows) (s : Fleet F)
      → Written g s (write id reachable g s).1
  write-Written id reachable g s =
      reading (Written g s) (connect_fleet F reachable s) _ s (connect_fleet-state reachable s)
        (inl refl)
        (λ u.
          reading (Written g s) (parse_current F rt id s) _ s (parse_current-state id s) (inl refl)
            (λ document. inr (document, refl)))

  handle-state : (r : Result (Unit {0}) × Fleet F) → (handle r (λ e. pure tt)).1 ≡ r.1
  handle-state (returned u, s) = refl
  handle-state (raised e, s) = refl

  -- The rows change by one of these.
  pub data Changed (id : String) : Rows → Rows → Type 0 where
    same : (ws : Rows) → Changed id ws ws
    updated :
        (f : WorkerRow F → WorkerRow F) (ws : Rows)
        → ((w : WorkerRow F) → (f w).worker_id ≡ w.worker_id)
        → ((w : WorkerRow F) → (f w).registered_at ≡ w.registered_at)
        → Changed id ws (update_where (is_worker F id) f ws)
    added :
        (row : WorkerRow F) (ws : Rows)
        → row.worker_id ≡ id
        → find (is_worker F id) ws ≡ none
        → Changed id ws (row ∷ ws)

  upsert-Changed : (row : WorkerRow F) (ws : Rows) → Changed row.worker_id ws (upsert F row ws)
  upsert-Changed row ws = elim (Option-cases (find (is_worker F row.worker_id) ws)) [
    | inl new ↦ rw new (added row ws refl new)
    | inr (old, known) ↦ rw known (updated _ ws (λ w. refl) (λ w. refl))
  ]

  of_Written :
      (id : String) (g : Option String → Rows → Rows) (s s' : Fleet F)
      → ((document : Option String) → Changed id s.workers (g document s.workers))
      → Written g s s'
      → Changed id s.workers s'.workers
  of_Written id g s s' h (inl e) = rw e (same s.workers)
  of_Written id g s s' h (inr (document, e)) = rw e (h document)

  when-Changed :
      (id : String) (open_pool : Bool) (m : Exec (Fleet F) (Unit {0})) (s : Fleet F)
      → Changed id s.workers (m s).1.workers
      → Changed id s.workers (when open_pool m s).1.workers
  when-Changed id true m s h = h
  when-Changed id false m s h = same s.workers

  register_worker-Changed :
      (id host : String) (process : ℕ) (b : Beat F) (now : ℕ) (ok : Bool) (s : Fleet F)
      → Changed id s.workers (register_worker F rt id host process b now ok s).1.workers
  unfolding register_worker
  register_worker-Changed id host process b now ok s =
      let g =
        λ (document : Option String). upsert F (registration F id host process b now document) in
      of_Written id g s (register_worker F rt id host process b now ok s).1
        (λ document. upsert-Changed (registration F id host process b now document) s.workers)
        (write-Written b.current_document_id ok g s)

  heartbeat_worker-Changed :
      (id : String) (b : Beat F) (now : ℕ) (ok : Bool) (s : Fleet F)
      → Changed id s.workers (heartbeat_worker F rt id b now ok s).1.workers
  unfolding heartbeat_worker
  heartbeat_worker-Changed id b now ok s =
      let g =
        λ (document : Option String). update_where (is_worker F id) (refreshed F b now document) in
      of_Written id g s (heartbeat_worker F rt id b now ok s).1
        (λ document. updated (refreshed F b now document) s.workers (λ w. refl) (λ w. refl))
        (write-Written b.current_document_id ok g s)

  caught-Changed :
      (id : String) (m : Exec (Fleet F) (Unit {0})) (s : Fleet F)
      → Changed id s.workers (m s).1.workers
      → Changed id s.workers (catch m (λ e. pure tt) s).1.workers
  caught-Changed id m s h = rw (handle-state (m s)) h

  call-Changed :
      (c : Call F) (now : ℕ) (ok : Bool) (s : Fleet F)
      → Changed (caller F c) s.workers (call F rt c now ok s).1.workers
  unfolding call
  call-Changed (starts id host process) now ok s =
      when-Changed id s.pool
        (catch (register_worker F rt id host process (first_beat F active 0 0) now ok)
          (λ e. pure tt))
        s
        (caught-Changed id (register_worker F rt id host process (first_beat F active 0 0) now ok) s
          (register_worker-Changed id host process (first_beat F active 0 0) now ok s))
  call-Changed (beats id c retries) now ok s =
      when-Changed id s.pool
        (catch (heartbeat_worker F rt id (beat_of F c retries) now ok) (λ e. pure tt)) s
        (caught-Changed id (heartbeat_worker F rt id (beat_of F c retries) now ok) s
          (heartbeat_worker-Changed id (beat_of F c retries) now ok s))
  call-Changed (stops id c retries) now ok s =
      when-Changed id s.pool
        (heartbeat_worker F rt id (first_beat F draining c.failed_jobs retries) now ok) s
        (heartbeat_worker-Changed id (first_beat F draining c.failed_jobs retries) now ok s)

  -- A worker that is registered: one row, with the time of its registration.
  abbrev pub IsRegistered : String → ℕ → Rows → Type 0
  IsRegistered id time ws =
      (w : WorkerRow F) × (find (is_worker F id) ws ≡ some w)
      × (w.registered_at ≡ time)
      × (count (is_worker F id) ws ≡ 1)

  none-count : (p : WorkerRow F → Bool) (ws : Rows) → find p ws ≡ none → count p ws ≡ 0
  none-count p [] h = refl
  none-count p (w ∷ ws) h = ground (arith, none-count p ws)

  update_where-row :
      (id other : String) (f : WorkerRow F → WorkerRow F) (ws : Rows)
      → ((w : WorkerRow F) → (f w).worker_id ≡ w.worker_id)
      → (count (is_worker F id) (update_where (is_worker F other) f ws) ≡ count (is_worker F id) ws)
  update_where-row id other f [] named = refl
  update_where-row id other f (w ∷ ws) named =
      ground (arith, named w, update_where-row id other f ws named)

  update_where-found :
      (id other : String) (f : WorkerRow F → WorkerRow F) (ws : Rows) (w : WorkerRow F)
      → ((w : WorkerRow F) → (f w).worker_id ≡ w.worker_id)
      → ((w : WorkerRow F) → (f w).registered_at ≡ w.registered_at)
      → find (is_worker F id) ws ≡ some w
      → (w' : WorkerRow F) × (find (is_worker F id) (update_where (is_worker F other) f ws)
          ≡ some w')
        × (w'.registered_at ≡ w.registered_at)
  update_where-found id other f [] w named timed h = cc
  update_where-found id other f (x ∷ ws) w named timed h = elim (Bool-cases (is_worker F id x)) [
    | inl here ↦
        ((if is_worker F other x then f x else x), ground (arith, named x), ground (arith, timed x))
    | inr elsewhere ↦
        let (w', found, time) = update_where-found id other f ws w named timed (ground arith) in
        (w', ground (arith, named x), time)
  ]

  Changed-IsRegistered :
      (other id : String) (time : ℕ) (ws ws' : Rows)
      → Changed other ws ws'
      → IsRegistered id time ws
      → IsRegistered id time ws'
  Changed-IsRegistered other id time ws ws' (same _) h = h
  Changed-IsRegistered other id time ws ws' (updated f _ named timed) (w, found, at, once) =
      let (w', found', at') = update_where-found id other f ws w named timed found in
      (w', found', at' ∙ at, update_where-row id other f ws named ∙ once)
  Changed-IsRegistered other id time ws ws' (added row _ named new) (w, found, at, once) = (
    w,
    ground (arith, eq_iff row.worker_id id, eq_iff row.worker_id other),
    at,
    ground (
      arith,
      eq_iff row.worker_id id,
      eq_iff row.worker_id other,
      none-count (is_worker F id) ws,
    ),
  )

  -- Once a worker is registered, it has exactly one row, with the time of its first registration,
  -- through any starts, heartbeats and stops of any workers, whether the database answers or not.
  pub calls-IsRegistered :
      (id : String) (time : ℕ) (cs : List (Call F × ℕ × Bool)) (s : Fleet F)
      → IsRegistered id time s.workers
      → IsRegistered id time (calls F rt cs s).workers
  unfolding calls
  calls-IsRegistered id time [] s h = h
  calls-IsRegistered id time ((c, now, ok) ∷ rest) s h =
      calls-IsRegistered id time rest (call F rt c now ok s).1
        (Changed-IsRegistered (caller F c) id time _ _ (call-Changed c now ok s) h)
