-- ===== src/Workers.antt =====
-- src/workers/mod.rs: a worker with its remote and its outputs, the chunks it broadcasts, and its
-- status. The tasks behind a worker (sockets, processes) are seen by their handles alone: which
-- function a task runs, whether it was cancelled, and whether it has finished. Logs are left out.
pub mod Status
pub mod Chunks
pub mod Monitoring
use Prim.Native.String.{String}
use text.Mathlib.Text.{◌==◌ as str_eq}
use mymuxer.Base.{
  ℕ, zero, suc, ◌*◌, List, [], ◌∷◌, Bool, true, false, not, ◌||◌, Option, none, some, leb,
  if◌then◌else◌, length, take, drop, map,
}
use mymuxer.Base.Maps.{contains_key, insert, retain, lookup, remove}
use mymuxer.Config.{Output, Stream, is_task_type_allowed}
use mymuxer.Packet.{ts_packet_size}

abbrev pub broadcast_chunk_size : ℕ
broadcast_chunk_size = 64 * ts_packet_size

-- `chunk.chunks(BROADCAST_CHUNK_SIZE)`, on fuel: a piece takes a byte or more.
unfoldable pub chunks : ℕ → List ℕ → List (List ℕ)
chunks zero bytes = []
chunks (suc fuel) [] = []
chunks (suc fuel) (b ∷ bytes) =
    take broadcast_chunk_size (b ∷ bytes) ∷ chunks fuel (drop broadcast_chunk_size (b ∷ bytes))

-- What is sent, in order, and the length returned.
unfoldable pub send_broadcast_chunks : List ℕ → List (List ℕ) × ℕ
unfolding chunks
send_broadcast_chunks chunk =
    if leb (length chunk) broadcast_chunk_size
    then (chunk ∷ [], length chunk)
    else (chunks (length chunk) chunk, length chunk)

-- The functions that `spawn_remote` and `spawn_output` choose from.
pub data Remote : Type 0 where
  http udp rtp hls ffmpeg unix : Remote

pub data Sink : Type 0 where
  http udp rtp unix : Sink

-- `function` is none where the match on the task's type has no case: such a task does nothing.
pub record Task (F : Type 0) : Type 0 where
  pub function : Option F
  pub cancelled : Bool
  pub finished : Bool

unfoldable pub remote_function : String → Option Remote
remote_function t =
    if str_eq t "http"
    then some Remote.http
    else if str_eq t "udp"
    then some Remote.udp
    else if str_eq t "rtp"
    then some Remote.rtp
    else if str_eq t "hls"
    then some Remote.hls
    else if str_eq t "ffmpeg"
    then some Remote.ffmpeg
    else if str_eq t "unix"
    then some Remote.unix
    else none

unfoldable pub output_function : String → Option Sink
output_function t =
    if str_eq t "http"
    then some Sink.http
    else if str_eq t "udp"
    then some Sink.udp
    else if str_eq t "rtp"
    then some Sink.rtp
    else if str_eq t "unix"
    then some Sink.unix
    else none

unfoldable pub spawn_remote : Stream → Task Remote
unfolding remote_function
spawn_remote config = record {
  function = remote_function config.task_type;
  cancelled = false;
  finished = false;
}

unfoldable pub spawn_output : Output → Task Sink
unfolding output_function
spawn_output output = record {
  function = output_function output.task_type;
  cancelled = false;
  finished = false;
}

pub record Worker : Type 0 where
  pub config : Stream
  pub remote : Task Remote
  pub outputs : List (ℕ × Task Sink)

-- The loop of `new`: an output of a type that is not allowed is skipped.
unfoldable pub start_outputs : List Output → List (ℕ × Task Sink) → List (ℕ × Task Sink)
unfolding spawn_output
start_outputs [] m = m
start_outputs (o ∷ os) m =
    start_outputs os
      (if is_task_type_allowed o.task_type then insert o.id (spawn_output o) m else m)

unfoldable pub new : Stream → Worker
unfolding spawn_remote start_outputs
new config = record {
  config = config;
  remote = spawn_remote config;
  outputs = start_outputs config.outputs [];
}

-- The loop of `monitor` over the configured outputs: those without a task are spawned again.
unfoldable pub restart_outputs : List Output → List (ℕ × Task Sink) → List (ℕ × Task Sink)
unfolding spawn_output
restart_outputs [] m = m
restart_outputs (o ∷ os) m = restart_outputs os (
    if contains_key o.id m
    then m
    else if is_task_type_allowed o.task_type
    then insert o.id (spawn_output o) m
    else m)

-- `true` says that the remote has finished; then the outputs are cancelled and given up.
unfoldable pub monitor : Worker → Worker × Bool
unfolding restart_outputs
monitor w = if w.remote.finished then (record w { outputs = [] }, true) else (
  record w {
    outputs = restart_outputs w.config.outputs (retain (λ id t. not t.finished) w.outputs);
  },
  false,
)

-- How a task that was told to stop ends: in time, by a panic, or not within `STOP_GRACE_TIMEOUT`.
pub data Ending : Type 0 where
  in_time panicked late : Ending

-- `wait_and_abort` of src/misc.rs: the task, finished in every case, and the result, where none is
-- an error. A task that is late is aborted.
unfoldable pub wait_and_abort : {F : Type 0} → Ending → Task F → Task F × Option Bool
wait_and_abort e t = if t.finished then (t, some false) else elim e [
  | Ending.in_time ↦ (record t { finished = true }, some false)
  | Ending.panicked ↦ (record t { finished = true }, none)
  | Ending.late ↦ (record t { finished = true }, some true)
]

abbrev pub cancel : {F : Type 0} → Task F → Task F
cancel t = record t { cancelled = true }

-- `stop`: every task is cancelled, then each is waited for. How each ends is up to the tasks. The
-- worker is used up: the tasks as they end.
unfoldable pub stop : (ℕ → Ending) → Ending → Worker → List (ℕ × Task Sink) × Task Remote
unfolding wait_and_abort
stop ending remote_ending w = (
  map (λ (id, t). (id, (wait_and_abort (ending id) (cancel t)).0)) w.outputs,
  (wait_and_abort remote_ending (cancel w.remote)).0,
)

unfoldable pub stop_output : ℕ → Worker → Worker
stop_output id w = record w { outputs = remove id w.outputs }
