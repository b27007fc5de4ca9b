-- ===== src/Tests/Control.antt =====
-- Configurations, workers and the supervisor.
use Prim.Native.String.{String}
use mymuxer.Base.{
  ℕ, ◌≡◌, refl, List, [], ◌∷◌, All, Bool, true, false, ◌⊎◌, ◌↔◌, Option, none, some, if◌then◌else◌,
}
use mymuxer.Base.Maps.{lookup, contains}
use mymuxer.Config.{Config, Stream, Output, validate_config, is_forbidden, get_stream, find_epg}
use mymuxer.Config.Validation.{StreamAllowed, validate_config-AllAllowed}
use mymuxer.Config.Networks.{Covered, Answers, is_forbidden-Covered}
use mymuxer.Workers as Workers
use mymuxer.Workers.{Worker, Task, Remote, Sink, spawn_output, monitor, send_broadcast_chunks}
use mymuxer.Workers.Monitoring.{or_spawned, running, configured, monitor-lookup}
use mymuxer.Workers.Status as Status
use mymuxer.Workers.Status.Alternation.{
  mark, mark_only, restored, check, IsReported, run, run-IsReported,
}
use mymuxer.Supervisor.{
  Supervisor, ok, err, worker_not_found, start, monitor_round, restart_worker, epg_round,
  restart_worker,
}
use mymuxer.Supervisor.Restarts.{
  monitor_round-StaysDown, or_else, epg_running_at, epg_ended, spawned, epg_round-Restarted,
}
use mymuxer.Supervisor.Tasks.{
  System, start_entry, finished, holds, acts, called, Reach, here, next, act, update,
}
use mymuxer.Supervisor.Tasks.Exclusion.{IsExclusive, Reach-IsExclusive}
use mymuxer.Supervisor.Tasks.Race.{BothSpawned, start_worker-Race}

abbrev udp_output : Output
udp_output = record {
  id = 5;
  name = "out";
  output_url = "239.0.0.1:1234";
  task_type = "udp";
  biss_key = "";
  ca_flag = 0;
  pkt_size = 1316;
  cbr = 0;
  proxy = true;
  allow = [];
  programs = [];
  err_count = 0;
}

abbrev udp_stream : Stream
udp_stream = record {
  id = 1;
  remote_url = "239.0.0.2:1234";
  biss_key = "";
  name = "in";
  task_type = "udp";
  outputs = udp_output ∷ [];
  err_count = 0;
}

abbrev config : Config
config = record {
  mgnt = record { hash = ""; last_update = "0"; admin_url = ""; allow = [] };
  epg_configs = record { id = 3; url = "udp://239.0.0.3:1234" } ∷ [];
  streams = udp_stream ∷ [];
  http_routers = [];
}

validate_config-AllAllowed_example :
    (validate_config config ≡ none) ↔ All StreamAllowed config.streams
validate_config-AllAllowed_example = validate_config-AllAllowed config

-- Addresses and networks that are the same text.
abbrev read : String → Option String
read text = some text

abbrev everybody : String → String → Bool
everybody net ip = true

abbrev lan : List String
lan = "lan" ∷ []

is_forbidden-Covered_example :
    Answers read everybody
      ((lan ≡ []) ⊎ Covered read everybody "10.0.0.1" lan)
      (is_forbidden read read everybody "10.0.0.1" lan)
is_forbidden-Covered_example =
    is_forbidden-Covered read everybody read "10.0.0.1" "10.0.0.1" lan refl (("lan", refl), tt)

-- A worker whose output has ended.
abbrev worker : Worker
worker = record {
  config = udp_stream;
  remote = record { function = some Remote.udp; cancelled = false; finished = false };
  outputs = (5, record { function = some Sink.udp; cancelled = false; finished = true }) ∷ [];
}

monitor-lookup_example :
    ((monitor worker).1 ≡ false)
    × ((id : ℕ)
        → lookup id (monitor worker).0.outputs
          ≡ or_spawned (running (lookup id worker.outputs)) (configured id worker.config.outputs))
unfolding lookup
monitor-lookup_example = monitor-lookup worker refl (refl, tt)

run-IsReported_example : IsReported 1 (
    run
      (mark_only ∷ mark 5 "Buffer empty" ∷ restored "back" ∷ check 60_000_000_000 ∷ [])
      (Status.set_api_config (Status.new 1)))
run-IsReported_example =
    run-IsReported 1
      (mark_only ∷ mark 5 "Buffer empty" ∷ restored "back" ∷ check 60_000_000_000 ∷ [])

-- A supervisor with a worker whose remote has ended, and an EPG that has.
abbrev ended_worker : Worker
ended_worker = record worker {
  remote = record { function = some Remote.udp; cancelled = false; finished = true };
}

abbrev ended : Supervisor
ended = record {
  src_config = some "{}";
  config = some config;
  dirty = false;
  last_update = 0;
  workers = (1, ended_worker) ∷ [];
  workers_lock = [];
  probe_lock = [];
  dumps = [];
  epg = (3, record { config = record { id = 3; url = "" }; finished = true }) ∷ [];
}

monitor_round-StaysDown_example :
    (contains 1 (monitor_round ended).1 ≡ true)
    × (restart_worker 1 (monitor_round ended).0
        ≡ ((monitor_round ended).0, err (worker_not_found 1)))
    × (lookup 1 (monitor_round ended).0.workers ≡ none)
unfolding contains lookup
monitor_round-StaysDown_example =
    monitor_round-StaysDown 1 ended ended_worker (refl, tt) refl refl refl

epg_round-Restarted_example :
    lookup 3 (epg_round ended).epg
    ≡ or_else
        (epg_running_at (lookup 3 ended.epg))
        (if epg_ended (lookup 3 ended.epg) then spawned (find_epg 3 config.epg_configs) else none)
unfolding lookup
epg_round-Restarted_example = epg_round-Restarted 3 ended config (refl, tt) refl

-- A supervisor with a configuration and no worker, before any request.
abbrev loaded : Supervisor
loaded = record ended { workers = []; epg = [] }

abbrev idle : System
idle = record { sup = loaded; pc = λ i. finished (ok tt); trace = [] }

abbrev asked : System
asked = record idle { pc = update idle.pc 0 (start_entry 1) }

idle_holds : (i : ℕ) → holds (idle.pc i) ≡ none
unfolding holds
idle_holds i = refl

asked-Reach : Reach idle (act 0 asked)
unfolding holds
asked-Reach = next (next here (called 0 (start_entry 1) refl refl)) (acts 0)

Reach-IsExclusive_example : IsExclusive (act 0 asked)
Reach-IsExclusive_example =
    Reach-IsExclusive {s = idle} {t = act 0 asked} refl idle_holds asked-Reach

abbrev asked_twice : System
asked_twice = record idle { pc = update (update idle.pc 0 (start_entry 1)) 1 (start_entry 1) }

start_known : start loaded 1 ≡ ok (Workers.new udp_stream)
unfolding start get_stream
start_known = refl

nobody : lookup 1 loaded.workers ≡ none
unfolding lookup
nobody = refl

unlocked : contains 1 loaded.workers_lock ≡ false
unfolding contains
unlocked = refl

start_worker-Race_example :
    BothSpawned asked_twice 0 1 1 (Workers.new udp_stream) refl nobody unlocked start_known
start_worker-Race_example =
    start_worker-Race asked_twice 0 1 1 (Workers.new udp_stream) refl nobody unlocked start_known
      refl refl
