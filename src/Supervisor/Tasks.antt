-- ===== src/Supervisor/Tasks.antt =====
-- src/supervisor.rs: `start_worker`, `stop_worker` and `restart_worker` as tasks that interleave.
-- A task's step is what it does between two points at which others may run: it takes and drops the
-- lock of the map, or that of the set of identifiers, in each.
pub mod Alone
pub mod Exclusion
pub mod Race
use mymuxer.Base.{ℕ, ◌≡◌, List, [], ◌∷◌, Bool, true, false, Option, none, some, ◌==◌, if◌then◌else◌}
use mymuxer.Base.Maps.{contains_key, contains, insert, lookup, remove}
use mymuxer.Workers.{Worker}
use mymuxer.Supervisor.{Supervisor, Done, Result, ok, err, worker_not_found, start, lock, unlock}

-- Where a task stands, with the local variables that are live there.
pub data Pc : Type 0 where
  finished : Done → Pc
  start_entry : (id : ℕ) → Pc  -- before the map is read
  start_lock : (id : ℕ) → Pc
  start_work : (id : ℕ) → Pc  -- before `workers::start`
  insert_worker : (id : ℕ) → Worker → Pc
  leave : (id : ℕ) → Done → Pc  -- before the guard is dropped
  stop_entry : (id : ℕ) → Pc
  stop_lock : (id : ℕ) → Pc
  stop_take : (id : ℕ) → Pc
  stop_wait : (id : ℕ) → Worker → Pc  -- before `worker.stop()`
  restart_lock : (id : ℕ) → Pc
  restart_take : (id : ℕ) → Pc
  restart_wait : (id : ℕ) → Worker → Pc

unfoldable pub started : ℕ → Result Worker → Pc
started id (err e) = leave id (err e)
started id (ok w) = insert_worker id w

unfoldable pub taken : (Worker → Pc) → ℕ → Option Worker → Pc
taken next id none = leave id (err (worker_not_found id))
taken next id (some w) = next w

-- One step of a task, and the supervisor behind it.
unfoldable pub advance : Pc → Supervisor → Pc × Supervisor
unfolding started taken
advance (finished r) s = (finished r, s)
advance (start_entry id) s =
    if contains_key id s.workers then (finished (ok tt), s) else (start_lock id, s)
advance (start_lock id) s =
    if contains id s.workers_lock then (finished (ok tt), s) else (start_work id, lock id s)
advance (start_work id) s = (started id (start s id), s)
advance (insert_worker id w) s = (leave id (ok tt), record s { workers = insert id w s.workers })
advance (leave id r) s = (finished r, unlock id s)
advance (stop_entry id) s =
    if contains_key id s.workers then (stop_lock id, s) else (finished (ok tt), s)
advance (stop_lock id) s =
    if contains id s.workers_lock then (finished (ok tt), s) else (stop_take id, lock id s)
advance (stop_take id) s =
    (taken (stop_wait id) id (lookup id s.workers), record s { workers = remove id s.workers })
advance (stop_wait id w) s = (leave id (ok tt), s)
advance (restart_lock id) s =
    if contains id s.workers_lock then (finished (ok tt), s) else (restart_take id, lock id s)
advance (restart_take id) s =
    (taken (restart_wait id) id (lookup id s.workers), record s { workers = remove id s.workers })
advance (restart_wait id w) s = (start_work id, s)

-- The workers spawned and stopped, latest first.
pub data Event : Type 0 where
  spawned : (id : ℕ) → Event
  stopped : (id : ℕ) → Event

unfoldable pub emits : Pc → Supervisor → List Event → List Event
emits (start_work id) s trace = elim (start s id) [ err e ↦ trace | ok w ↦ spawned id ∷ trace ]
emits (stop_wait id w) s trace = stopped id ∷ trace
emits (restart_wait id w) s trace = stopped id ∷ trace
emits p s trace = trace

-- The identifier that a task has in the set, if it has one there.
unfoldable pub holds : Pc → Option ℕ
holds (start_work id) = some id
holds (insert_worker id w) = some id
holds (leave id r) = some id
holds (stop_take id) = some id
holds (stop_wait id w) = some id
holds (restart_take id) = some id
holds (restart_wait id w) = some id
holds p = none

-- A number is a task; those that were never called have finished.
pub record System : Type 0 where
  pub sup : Supervisor
  pub pc : ℕ → Pc
  pub trace : List Event

abbrev pub update : (ℕ → Pc) → ℕ → Pc → ℕ → Pc
update f i p j = if i == j then p else f j

abbrev pub act : ℕ → System → System
act i s =
    let (p, sup) = advance (s.pc i) s.sup in
    record { sup = sup; pc = update s.pc i p; trace = emits (s.pc i) s.sup s.trace }

-- A request is the start of a task that is not under way. `others` is all else that runs: the
-- monitor's rounds, new configurations, tasks that end; it does not touch the set of identifiers.
pub data Step (s : System) : System → Type 0 where
  acts : (i : ℕ) → Step s (act i s)
  called :
      (i : ℕ) (p : Pc)
      → holds (s.pc i) ≡ none
      → holds p ≡ none
      → Step s (record s { pc = update s.pc i p })
  others :
      (sup : Supervisor) → sup.workers_lock ≡ s.sup.workers_lock → Step s (record s { sup = sup })

pub data Reach (s : System) : System → Type 0 where
  here : Reach s s
  next : {t u : System} → Reach s t → Step t u → Reach s u
