-- ===== src/Supervisor/Restarts.antt =====
-- What becomes of the workers and EPGs whose tasks have finished.
use mymuxer.Base.{
  ℕ, ◌≡◌, refl, ap₂, ◌∙◌, arith, List, [], ◌∷◌, Bool, true, false, not, inl, inr, Option, none,
  some, Option-cases, ◌==◌, if◌then◌else◌,
}
use mymuxer.Base.Maps.{
  lookup, remove, retain, contains, discard, kept, Distinct, lookup-insert, lookup-retain,
}
use mymuxer.Config.{Config, EpgConfig, find_epg}
use mymuxer.Workers as Workers
use mymuxer.Workers.{Worker}
use mymuxer.Supervisor.{
  Supervisor, worker_not_found, err, monitor_workers, monitor_round, take_worker, EpgTask,
  epg_start, epg_round, each, finished_epgs, restart_taken, restart_worker,
}

-- A worker whose remote still runs, as `monitor` leaves it.
abbrev pub surviving : Option Worker → Option Worker
surviving none = none
surviving (some w) = if w.remote.finished then none else some (Workers.monitor w).0

abbrev pub ended : Option Worker → Bool
ended none = false
ended (some w) = w.remote.finished

monitor-finished : (w : Worker) → (Workers.monitor w).1 ≡ w.remote.finished
unfolding Workers.monitor
monitor-finished w = ground arith

lookup-monitor_workers :
    (id : ℕ) (m : List (ℕ × Worker))
    → Distinct m
    → (lookup id (monitor_workers m).0 ≡ surviving (lookup id m))
      × (contains id (monitor_workers m).1 ≡ ended (lookup id m))
unfolding monitor_workers lookup contains
lookup-monitor_workers id [] d = (refl, refl)
lookup-monitor_workers id ((j, w) ∷ m) d =
    ground (arith, monitor-finished w, lookup-monitor_workers id m d.1)

discard-absent : (id : ℕ) (s : List ℕ) → contains id s ≡ false → discard id s ≡ s
unfolding contains discard
discard-absent id [] h = refl
discard-absent id (j ∷ s) h = ground (arith, discard-absent id s)

pub discard-cons : (id : ℕ) (s : List ℕ) → contains id s ≡ false → discard id (id ∷ s) ≡ s
unfolding discard
discard-cons id s h = ground (arith, discard-absent id s h)

remove-absent {ℓ} : {V : Type ℓ} (id : ℕ) (m : List (ℕ × V)) → lookup id m ≡ none → remove id m ≡ m
unfolding lookup remove
remove-absent id [] h = refl
remove-absent id ((j, w) ∷ m) h = ground (arith, remove-absent id m)

restart_worker-absent :
    (id : ℕ) (s : Supervisor)
    → lookup id s.workers ≡ none
    → contains id s.workers_lock ≡ false
    → restart_worker id s ≡ (s, err (worker_not_found id))
unfolding restart_worker take_worker restart_taken
restart_worker-absent id s absent free =
    rw (free, restart_worker)
      (ground (arith, discard-cons id s.workers_lock free, remove-absent id s.workers absent))

-- A worker whose remote has finished is taken off the supervisor's map by a round of `monitor`, and
-- is among those to restart; but `restart_worker`, for which the map has to hold it, fails and
-- changes nothing, so the worker stays down. The map has each key once, and no other operation on
-- the worker is under way.
pub monitor_round-StaysDown :
    (id : ℕ) (s : Supervisor) (w : Worker)
    → Distinct s.workers
    → contains id s.workers_lock ≡ false
    → lookup id s.workers ≡ some w
    → w.remote.finished ≡ true
    → (contains id (monitor_round s).1 ≡ true)
      × (restart_worker id (monitor_round s).0 ≡ ((monitor_round s).0, err (worker_not_found id)))
      × (lookup id (monitor_round s).0.workers ≡ none)
unfolding monitor_round
monitor_round-StaysDown id s w d free here gone =
    let both = lookup-monitor_workers id s.workers d in
    let absent : lookup id (monitor_workers s.workers).0 ≡ none = ground arith in
    (ground arith, restart_worker-absent id _ absent free, absent)

-- The task that `epg_start` would spawn.
abbrev pub spawned : Option EpgConfig → Option EpgTask
spawned none = none
spawned (some c) = some (record { config = c; finished = false })

abbrev pub or_else : Option EpgTask → Option EpgTask → Option EpgTask
or_else (some t) f = some t
or_else none f = f

epg_start-config : (id : ℕ) (s : Supervisor) → (epg_start id s).0.config ≡ s.config
unfolding epg_start
epg_start-config id s = ground arith

lookup-epg_start :
    (id j : ℕ) (s : Supervisor) (config : Config)
    → s.config ≡ some config
    → lookup j (epg_start id s).0.epg
      ≡ or_else (lookup j s.epg) (if id == j then spawned (find_epg j config.epg_configs) else none)
unfolding epg_start
lookup-epg_start id j s config loaded = elim (Option-cases (find_epg id config.epg_configs)) [
  | inl unknown ↦ ground arith
  | inr (c, known) ↦
      ground (arith, lookup-insert id j (record { config = c; finished = false }) s.epg)
]

lookup-each-epg_start :
    (ids : List ℕ) (j : ℕ) (s : Supervisor) (config : Config)
    → s.config ≡ some config
    → lookup j (each epg_start ids s).epg
      ≡ or_else
          (lookup j s.epg)
          (if contains j ids then spawned (find_epg j config.epg_configs) else none)
unfolding each contains
lookup-each-epg_start [] j s config loaded = ground arith
lookup-each-epg_start (id ∷ ids) j s config loaded = ground (
  arith,
  lookup-epg_start id j s config loaded,
  lookup-each-epg_start ids j (epg_start id s).0 config (epg_start-config id s ∙ loaded),
)

abbrev pub epg_running_at : Option EpgTask → Option EpgTask
epg_running_at none = none
epg_running_at (some t) = if t.finished then none else some t

abbrev pub epg_ended : Option EpgTask → Bool
epg_ended none = false
epg_ended (some t) = t.finished

contains-finished_epgs :
    (id : ℕ) (m : List (ℕ × EpgTask))
    → Distinct m
    → contains id (finished_epgs m) ≡ epg_ended (lookup id m)
unfolding contains lookup
contains-finished_epgs id [] d = refl
contains-finished_epgs id ((j, t) ∷ m) d = ground (arith, contains-finished_epgs id m d.1)

kept-running : (id : ℕ) (t : Option EpgTask) → kept (λ _ t. not t.finished) id t ≡ epg_running_at t
kept-running id none = refl
kept-running id (some t) = ground arith

-- A round of `monitor` with a configuration starts each EPG again whose task has finished, unless
-- the configuration does not know it any more: then it is gone. The EPGs that run stay. The map has
-- each key once.
pub epg_round-Restarted :
    (id : ℕ) (s : Supervisor) (config : Config)
    → Distinct s.epg
    → s.config ≡ some config
    → lookup id (epg_round s).epg
      ≡ or_else
          (epg_running_at (lookup id s.epg))
          (if epg_ended (lookup id s.epg) then spawned (find_epg id config.epg_configs) else none)
unfolding epg_round
epg_round-Restarted id s config d loaded =
    lookup-each-epg_start (finished_epgs s.epg) id
      (record s { epg = retain (λ _ t. not t.finished) s.epg }) config loaded
    ∙ ap₂ (λ t b. or_else t (if b then spawned (find_epg id config.epg_configs) else none))
        (lookup-retain (λ _ t. not t.finished) id s.epg d ∙ kept-running id (lookup id s.epg))
        (contains-finished_epgs id s.epg d)
