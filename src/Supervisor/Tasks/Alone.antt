-- ===== src/Supervisor/Tasks/Alone.antt =====
-- A task that runs alone does what the operation of its name does.
use mymuxer.Base.{ℕ, ◌≡◌, refl, Bool-cases, inl, inr, Option-cases, ◌⊎◌}
use mymuxer.Base.Maps.{is_some, contains, lookup}
use mymuxer.Supervisor.{
  Supervisor, Done, Result, Error, ok, err, start, insert_started, start_worker, stop_worker,
  restart_worker, take_worker, stop_taken, restart_taken, lock, unlock,
}
use mymuxer.Supervisor.Tasks.{
  Pc, finished, start_entry, start_work, stop_entry, restart_lock, advance, started, taken,
}

-- A task that runs alone, to the end `e`.
data Runs (e : Pc × Supervisor) : Pc → Supervisor → Type 0 where
  there : {p : Pc} {s : Supervisor} → (p, s) ≡ e → Runs e p s
  go : {p : Pc} {s : Supervisor} → Runs e (advance p s).0 (advance p s).1 → Runs e p s

-- The end of a task, from what the operation gives.
abbrev end : Supervisor × Done → Pc × Supervisor
end (s, r) = (finished r, s)

Result-cases : {A : Type 0} (r : Result A) → ((a : A) × (r ≡ ok a)) ⊎ ((e : Error) × (r ≡ err e))
Result-cases (ok a) = inl (a, refl)
Result-cases (err e) = inr (e, refl)

-- From `workers::start` on, with the identifier in the set.
work_alone :
    (id : ℕ) (s : Supervisor)
    → Runs
        (
          finished (insert_started id (start s id) s).1,
          unlock id (insert_started id (start s id) s).0,
        )
        (start_work id)
        s
unfolding advance started insert_started
work_alone id s = elim (Result-cases (start s id)) [
  | inl (w, e) ↦ rw e (go (rw (e, started) (go (go (there refl)))))
  | inr (x, e) ↦ rw e (go (rw (e, started) (go (there refl))))
]

start_alone : (id : ℕ) (s : Supervisor) → Runs (end (start_worker id s)) (start_entry id) s
unfolding advance start_worker start
start_alone id s = elim (Bool-cases (is_some (lookup id s.workers))) [
  | inl here ↦ rw here (go (rw here (there refl)))
  | inr absent ↦ elim (Bool-cases (contains id s.workers_lock)) [
    | inl busy ↦ rw (absent, busy) (go (rw absent (go (rw busy (there refl)))))
    | inr free ↦ rw (absent, free) (go (rw absent (go (rw free (work_alone id (lock id s))))))
  ]
]

stop_alone : (id : ℕ) (s : Supervisor) → Runs (end (stop_worker id s)) (stop_entry id) s
unfolding advance taken stop_worker take_worker stop_taken
stop_alone id s = elim (Option-cases (lookup id s.workers)) [
  | inl absent ↦ rw absent (go (rw absent (there refl)))
  | inr (w, here) ↦ elim (Bool-cases (contains id s.workers_lock)) [
    | inl busy ↦ rw (here, busy) (go (rw here (go (rw busy (there refl)))))
    | inr free ↦ rw (here, free) (go (rw here (go (rw free (go (rw here (go (go (there refl)))))))))
  ]
]

restart_alone : (id : ℕ) (s : Supervisor) → Runs (end (restart_worker id s)) (restart_lock id) s
unfolding advance taken restart_worker take_worker restart_taken
restart_alone id s = elim (Bool-cases (contains id s.workers_lock)) [
  | inl busy ↦ rw busy (go (rw busy (there refl)))
  | inr free ↦ elim (Option-cases (lookup id s.workers)) [
    | inl absent ↦ rw (free, absent) (go (rw free (go (rw absent (go (there refl))))))
    | inr (w, here) ↦ rw (free, here) (go (rw free (go (rw here (go (work_alone id _))))))
  ]
]

-- Alone, the steps of each of the three tasks come to an end, and to what the operation of that
-- name leaves and answers.
alone-Runs :
    (id : ℕ) (s : Supervisor)
    → Runs (end (start_worker id s)) (start_entry id) s
      × Runs (end (stop_worker id s)) (stop_entry id) s
      × Runs (end (restart_worker id s)) (restart_lock id) s
alone-Runs id s = (start_alone id s, stop_alone id s, restart_alone id s)
