-- ===== src/Workers/Monitoring.antt =====
-- What `monitor` leaves of a worker whose remote runs.
use mymuxer.Base.{
  ℕ, ◌≡◌, refl, ap, ◌∙◌, arith, List, [], ◌∷◌, false, not, ◌&&◌, Bool-cases, inl, inr, Option, none,
  some, ◌==◌, if◌then◌else◌,
}
use mymuxer.Base.Maps.{
  is_some, lookup, insert, retain, kept, Distinct, lookup-insert, lookup-retain, insert-Distinct,
  retain-Distinct,
}
use mymuxer.Config.{Output, is_task_type_allowed}
use mymuxer.Workers.{Worker, Task, Sink, spawn_output, restart_outputs, monitor}

-- The first output of the identifier among those of an allowed type.
abbrev pub configured : ℕ → List Output → Option Output
configured id [] = none
configured id (o ∷ os) =
    if is_task_type_allowed o.task_type && (o.id == id) then some o else configured id os

-- A task that is there, or one for the output.
abbrev pub or_spawned : Option (Task Sink) → Option Output → Option (Task Sink)
or_spawned (some t) o = some t
or_spawned none none = none
or_spawned none (some o) = some (spawn_output o)

abbrev pub running : Option (Task Sink) → Option (Task Sink)
running none = none
running (some t) = if t.finished then none else some t

step_lem :
    (id : ℕ) (o : Output) (os : List Output) (m : List (ℕ × Task Sink))
    → or_spawned
        (lookup id (
          if is_some (lookup o.id m)
          then m
          else if is_task_type_allowed o.task_type
          then insert o.id (spawn_output o) m
          else m))
        (configured id os)
      ≡ or_spawned (lookup id m) (configured id (o ∷ os))
step_lem id o os m = ground (arith, lookup-insert o.id id (spawn_output o) m)

lookup-restart_outputs :
    (id : ℕ) (os : List Output) (m : List (ℕ × Task Sink))
    → lookup id (restart_outputs os m) ≡ or_spawned (lookup id m) (configured id os)
unfolding restart_outputs
lookup-restart_outputs id [] m = ground arith
lookup-restart_outputs id (o ∷ os) m = lookup-restart_outputs id os _ ∙ step_lem id o os m

kept-eq-running : (id : ℕ) (t : Option (Task Sink)) → kept (λ _ t. not t.finished) id t ≡ running t
kept-eq-running id none = refl
kept-eq-running id (some t) = ground arith

-- While the remote of a worker runs, `monitor` says so, leaves the tasks that run, and spawns a
-- task for the first output of an allowed type under each identifier that has none or whose task
-- has finished; other identifiers have none. A map has each of its keys once.
pub monitor-lookup :
    (w : Worker)
    → w.remote.finished ≡ false
    → Distinct w.outputs
    → ((monitor w).1 ≡ false)
      × ((id : ℕ)
          → lookup id (monitor w).0.outputs
            ≡ or_spawned (running (lookup id w.outputs)) (configured id w.config.outputs))
unfolding monitor
monitor-lookup w run d = rw run (
  refl,
  λ id.
      lookup-restart_outputs id w.config.outputs (retain (λ _ t. not t.finished) w.outputs)
      ∙ ap (λ t. or_spawned t (configured id w.config.outputs))
          (lookup-retain (λ _ t. not t.finished) id w.outputs d
            ∙ kept-eq-running id (lookup id w.outputs)),
)

-- The map of a worker's outputs keeps each key once.
restart_outputs-Distinct :
    (os : List Output) (m : List (ℕ × Task Sink)) → Distinct m → Distinct (restart_outputs os m)
unfolding restart_outputs
restart_outputs-Distinct [] m d = d
restart_outputs-Distinct (o ∷ os) m d =
    restart_outputs-Distinct os _ (ground (arith, insert-Distinct o.id (spawn_output o) m d))

pub monitor-Distinct : (w : Worker) → Distinct w.outputs → Distinct (monitor w).0.outputs
unfolding monitor
monitor-Distinct w d = elim (Bool-cases w.remote.finished) [
  | inl gone ↦ rw gone tt
  | inr runs ↦ rw runs (restart_outputs-Distinct w.config.outputs _ (retain-Distinct _ w.outputs d))
]
