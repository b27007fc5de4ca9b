-- ===== src/Supervisor.antt =====
-- src/supervisor.rs: the supervisor's state and its operations, each as it runs alone. What happens
-- when they interleave is in Supervisor/Tasks.antt. Logs and the events sent to the administration
-- are left out, and so is the router of HTTP requests to sockets.
pub mod Restarts
pub mod Tasks
use Prim.Native.String.{String, ◌++◌}
use text.Mathlib.Text.{◌==◌ as str_eq}
use mymuxer.Base.{
  ℕ, ◌-◌, List, [], ◌∷◌, Bool, true, false, not, ◌&&◌, Option, none, some, ltb, ◌==◌, if◌then◌else◌,
}
use mymuxer.Base.Maps.{lookup, contains_key, insert, remove, retain, contains, discard, keys}
use mymuxer.Config.{
  Config, Stream, Output, EpgConfig, Refusal, get_stream, find_epg, validate_config,
}
use mymuxer.Workers as Workers
use mymuxer.Workers.{Worker, Task, Remote, Ending, spawn_remote, cancel, wait_and_abort}

pub data Error : Type 0 where
  config_not_loaded lock_contention not_written epg_not_running : Error
  not_parsed : Error
  refused : Refusal → Error
  stream_not_found worker_not_found probe_in_process output_not_found dump_not_found : ℕ → Error
  epg_running epg_not_found : ℕ → Error

pub data Result (A : Type 0) : Type 0 where
  ok : A → Result A
  err : Error → Result A

abbrev pub Done : Type 0
Done = Result (Unit {0})

-- The task of an EPG; `config` is what `run` was started with.
pub record EpgTask : Type 0 where
  pub config : EpgConfig
  pub finished : Bool

pub record Supervisor : Type 0 where
  pub src_config : Option String
  pub config : Option Config
  pub dirty : Bool
  pub last_update : ℕ
  pub workers : List (ℕ × Worker)
  pub workers_lock : List ℕ
  pub probe_lock : List ℕ
  pub dumps : List (ℕ × Task Remote)
  pub epg : List (ℕ × EpgTask)

unfoldable pub new : Supervisor
new = record {
  src_config = none;
  config = none;
  dirty = false;
  last_update = 0;
  workers = [];
  workers_lock = [];
  probe_lock = [];
  dumps = [];
  epg = [];
}

unfoldable pub get_config : Supervisor → String
get_config s = elim s.src_config [ none ↦ "" | some text ↦ text ]

-- `parse` is `config::parse_config`, and `in_time` says that both locks were had within 50 ms.
unfoldable pub load :
    (parse : String → Option Config) → (in_time : Bool) → String → Supervisor → Supervisor × Done
load parse in_time cfg_json s = elim (parse cfg_json) [
  | none ↦ (s, err not_parsed)
  | some cfg ↦ elim (validate_config cfg) [
    | some r ↦ (s, err (refused r))
    | none ↦
        if in_time
        then (record s { src_config = some cfg_json; config = some cfg }, ok tt)
        else (s, err lock_contention)
  ]
]

unfoldable pub mark_dirty : (now : ℕ) → Supervisor → Supervisor
mark_dirty now s = record s { dirty = true; last_update = now }

-- `written` is whether `config::write_config` succeeds on the text.
unfoldable pub save : (written : String → Bool) → Supervisor → Supervisor × Done
save written s = elim s.src_config [
  | none ↦ (s, err config_not_loaded)
  | some text ↦ if written text then (record s { dirty = false }, ok tt) else (s, err not_written)
]

-- `SAVE_PERIOD_SEC`
abbrev pub save_period_sec : ℕ
save_period_sec = 900

-- The first part of a round of `monitor`.
unfoldable pub autosave : (written : String → Bool) → (now : ℕ) → Supervisor → Supervisor
unfolding save
autosave written now s =
    if s.dirty && ltb save_period_sec (now - s.last_update) then (save written s).0 else s

-- `workers::start` of src/workers/mod.rs
unfoldable pub start : Supervisor → ℕ → Result Worker
unfolding Workers.new get_stream
start s id = elim s.config [
  | none ↦ err config_not_loaded
  | some config ↦ elim (get_stream config id) [
    | none ↦ err (stream_not_found id)
    | some stream ↦ ok (Workers.new stream)
  ]
]

abbrev pub lock : ℕ → Supervisor → Supervisor
lock id s = record s { workers_lock = id ∷ s.workers_lock }

-- What the guard does when it is dropped.
abbrev pub unlock : ℕ → Supervisor → Supervisor
unlock id s = record s { workers_lock = discard id s.workers_lock }

unfoldable pub insert_started : ℕ → Result Worker → Supervisor → Supervisor × Done
insert_started id (err e) s = (s, err e)
insert_started id (ok w) s = (record s { workers = insert id w s.workers }, ok tt)

unfoldable pub start_worker : ℕ → Supervisor → Supervisor × Done
unfolding start insert_started
start_worker id s =
    if contains_key id s.workers
    then (s, ok tt)
    else if contains id s.workers_lock
    then (s, ok tt)
    else let (s', r) = insert_started id (start (lock id s) id) (lock id s) in (unlock id s', r)

-- `guard_workers.remove(id)`, with what it removed.
unfoldable pub take_worker : ℕ → Supervisor → Supervisor × Option Worker
take_worker id s = (record s { workers = remove id s.workers }, lookup id s.workers)

-- `worker.stop()` never fails, and is done with the worker.
unfoldable pub stop_taken : ℕ → Supervisor × Option Worker → Supervisor × Done
stop_taken id (s, none) = (s, err (worker_not_found id))
stop_taken id (s, some w) = (s, ok tt)

unfoldable pub stop_worker : ℕ → Supervisor → Supervisor × Done
unfolding take_worker stop_taken
stop_worker id s =
    if not (contains_key id s.workers)
    then (s, ok tt)
    else if contains id s.workers_lock
    then (s, ok tt)
    else let (s', r) = stop_taken id (take_worker id (lock id s)) in (unlock id s', r)

unfoldable pub restart_taken : ℕ → Supervisor × Option Worker → Supervisor × Done
unfolding start insert_started
restart_taken id (s, none) = (s, err (worker_not_found id))
restart_taken id (s, some w) = insert_started id (start s id) s

unfoldable pub restart_worker : ℕ → Supervisor → Supervisor × Done
unfolding take_worker restart_taken
restart_worker id s =
    if contains id s.workers_lock
    then (s, ok tt)
    else let (s', r) = restart_taken id (take_worker id (lock id s)) in (unlock id s', r)

abbrev pub stream_ids : List Stream → List ℕ
stream_ids [] = []
stream_ids (st ∷ ss) = st.id ∷ stream_ids ss

-- Errors are only logged.
unfoldable pub each : (ℕ → Supervisor → Supervisor × Done) → List ℕ → Supervisor → Supervisor
each op [] s = s
each op (id ∷ ids) s = each op ids (op id s).0

unfoldable pub startall_worker : Supervisor → Supervisor
unfolding each start_worker
startall_worker s = elim s.config [
  | none ↦ s
  | some config ↦ each start_worker (stream_ids config.streams) s
]

unfoldable pub stopall_worker : Supervisor → Supervisor
unfolding each stop_worker
stopall_worker s = elim s.config [
  | none ↦ s
  | some config ↦ each stop_worker (stream_ids config.streams) s
]

-- `workers.retain(...)` of `monitor`: the workers left, and the identifiers to restart.
unfoldable pub monitor_workers : List (ℕ × Worker) → List (ℕ × Worker) × List ℕ
monitor_workers [] = ([], [])
monitor_workers ((id, w) ∷ m) =
    let (left, ids) = monitor_workers m in
    let (w', finished) = Workers.monitor w in
    if finished then (left, id ∷ ids) else ((id, w') ∷ left, ids)

-- The middle part of a round of `monitor`: what it leaves, and the identifiers for which
-- `restart_worker` is spawned.
unfoldable pub monitor_round : Supervisor → Supervisor × List ℕ
unfolding monitor_workers
monitor_round s = let (left, ids) = monitor_workers s.workers in (record s { workers = left }, ids)

unfoldable pub epg_start : ℕ → Supervisor → Supervisor × Done
epg_start id s = if contains_key id s.epg then (s, err (epg_running id)) else elim s.config [
  | none ↦ (s, err config_not_loaded)
  | some config ↦ elim (find_epg id config.epg_configs) [
    | none ↦ (s, err (epg_not_found id))
    | some c ↦ (record s { epg = insert id (record { config = c; finished = false }) s.epg }, ok tt)
  ]
]

unfoldable pub epg_stop : ℕ → Supervisor → Supervisor × Done
epg_stop id s = elim (lookup id s.epg) [
  | none ↦ (s, err epg_not_running)
  | some t ↦ (record s { epg = remove id s.epg }, ok tt)
]

abbrev pub finished_epgs : List (ℕ × EpgTask) → List ℕ
finished_epgs [] = []
finished_epgs ((id, t) ∷ m) = if t.finished then id ∷ finished_epgs m else finished_epgs m

-- The last part of a round of `monitor`, with the calls of `epg_start` that it spawns.
unfoldable pub epg_round : Supervisor → Supervisor
unfolding epg_start each
epg_round s =
    each epg_start (finished_epgs s.epg) (record s { epg = retain (λ id t. not t.finished) s.epg })

-- `probe` up to the probing itself: the stream that is probed.
unfoldable pub probe : ℕ → Supervisor → Result ℕ
probe id s =
    if contains id s.probe_lock
    then err (probe_in_process id)
    else elim (lookup id s.workers) [ none ↦ err (worker_not_found id) | some w ↦ ok w.config.id ]

abbrev pub find_output : ℕ → List Output → Option Output
find_output id [] = none
find_output id (o ∷ os) = if o.id == id then some o else find_output id os

-- The address at which an output can be read back, for the types that have one.
unfoldable pub dump_url : Output → Option String
dump_url o =
    if str_eq o.task_type "http"
    then some ("http://" ++ o.output_url)
    else if str_eq o.task_type "udp"
    then some ("udp://" ++ o.output_url)
    else if str_eq o.task_type "rtp"
    then some ("rtp://" ++ o.output_url)
    else if str_eq o.task_type "unix"
    then some o.output_url
    else none

unfoldable pub dump_stream : Worker → Output → String → Stream
dump_stream w o url = record {
  id = w.config.id;
  remote_url = url;
  biss_key = o.biss_key;
  name = o.name ++ "_dump";
  task_type = o.task_type;
  outputs = [];
  err_count = 0;
}

-- The body of `find_map` on one worker.
unfoldable pub dump_of : ℕ → Worker → Option Stream
unfolding dump_url dump_stream
dump_of id w = elim (lookup id w.outputs) [
  | none ↦ none
  | some _ ↦ elim (find_output id w.config.outputs) [
    | none ↦ none
    | some o ↦ elim (dump_url o) [ none ↦ none | some url ↦ some (dump_stream w o url) ]
  ]
]

unfoldable pub find_dump : ℕ → List (ℕ × Worker) → Option Stream
unfolding dump_of
find_dump id [] = none
find_dump id ((_, w) ∷ m) = elim (dump_of id w) [ none ↦ find_dump id m | some c ↦ some c ]

unfoldable pub start_dump : ℕ → Supervisor → Supervisor × Result ℕ
unfolding find_dump
start_dump id s = elim (find_dump id s.workers) [
  | none ↦ (s, err (output_not_found id))
  | some config ↦ (record s { dumps = insert id (spawn_remote config) s.dumps }, ok id)
]

-- `ending` is how the dump's task ends.
unfoldable pub stop_dump : Ending → ℕ → Supervisor → Supervisor × Done
stop_dump ending id s = elim (lookup id s.dumps) [
  | none ↦ (s, err (dump_not_found id))
  | some t ↦ (record s { dumps = remove id s.dumps }, ok tt)
]
