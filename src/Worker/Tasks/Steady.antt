-- ===== src/Worker/Tasks/Steady.antt =====
-- What every piece of a task keeps, whatever runs between them.
use highthroughputingestion.Base.{
  ◌≡◌, sym, subst, Bool, true, false, Result, returned, raised, Error, Exec, Keeps,
}
use highthroughputingestion.Worker.Tasks.{
  Task, finished, pause, atomically, bind_task, catch_task, branch_task, on_task,
}

-- Every piece of the task keeps `P`.
pub data Steady {S A : Type 0} (P : S → Type 0) : Task S A → Type 0 where
  at_end : (r : Result A) → Steady P (finished r)
  piece :
      (f : S → S) (next : S → Task S A)
      → ((s : S) → P s → P (f s))
      → ((s : S) → Steady P (next s))
      → Steady P (pause f next)

module _ {S A : Type 0} {P : S → Type 0} {f : S → S} {next : S → Task S A} where
  pub Steady-next : Steady P (pause f next) → (s : S) → Steady P (next s)
  Steady-next (piece _ _ keeps later) = later

  pub Steady-keeps : Steady P (pause f next) → (s : S) → P s → P (f s)
  Steady-keeps (piece _ _ keeps later) = keeps

module _ {S : Type 0} {P : S → Type 0} where
  pub Steady-atomically : {A : Type 0} (m : Exec S A) → Keeps P m → Steady P (atomically m)
  Steady-atomically m k = piece _ _ k.at (λ s. at_end _)

  pub Steady-branch :
      {A : Type 0} (b : Bool) (t u : Task S A)
      → Steady P t
      → Steady P u
      → Steady P (branch_task b t u)
  Steady-branch true t u st su = st
  Steady-branch false t u st su = su

  pub Steady-bind :
      {A B : Type 0} (t : Task S A) (k : A → Task S B)
      → Steady P t
      → ((a : A) → Steady P (k a))
      → Steady P (bind_task t k)
  Steady-bind (finished (returned a)) k st sk = sk a
  Steady-bind (finished (raised e)) k st sk = at_end _
  Steady-bind (pause f next) k (piece _ _ keeps later) sk =
      piece f _ keeps (λ s. Steady-bind (next s) k (later s) sk)

  pub Steady-catch :
      {A : Type 0} (t : Task S A) (h : Error → Task S A)
      → Steady P t
      → ((e : Error) → Steady P (h e))
      → Steady P (catch_task t h)
  Steady-catch (finished (returned a)) h st sh = at_end _
  Steady-catch (finished (raised e)) h st sh = sh e
  Steady-catch (pause f next) h (piece _ _ keeps later) sh =
      piece f _ keeps (λ s. Steady-catch (next s) h (later s) sh)

-- A property that does not see the part that a task works on.
pub Steady-unseen :
    {S T A : Type 0} {P : S → Type 0} (get : S → T) (put : T → S → S) (t : Task T A)
    → ((u : T) (s : S) → P s → P (put u s))
    → Steady P (on_task get put t)
Steady-unseen get put (finished r) same = at_end r
Steady-unseen get put (pause f next) same =
    piece _ _ (λ s. same (f (get s)) s) (λ s. Steady-unseen get put (next (get s)) same)

-- A property of the part.
pub Steady-on :
    {S T A : Type 0} {P : T → Type 0} (get : S → T) (put : T → S → S) (t : Task T A)
    → ((u : T) (s : S) → get (put u s) ≡ u)
    → Steady P t
    → Steady (λ s. P (get s)) (on_task get put t)
Steady-on get put (finished r) back st = at_end r
Steady-on {P = P} get put (pause f next) back (piece _ _ keeps later) =
    piece _ _ (λ s h. subst P (sym (back (f (get s)) s)) (keeps (get s) h))
      (λ s. Steady-on get put (next (get s)) back (later (get s)))

pub ruleset steady_rules = (at_end, Steady-atomically, Steady-branch, Steady-bind, Steady-catch)
