-- ===== src/Workers/Status.antt =====
-- The status of a worker, and the commands that report it to the administration.
pub mod Alternation
use Prim.Native.String.{String}
use mymuxer.Base.{
  ℕ, ◌-◌, ◌*◌, ◌^◌, List, [], ◌∷◌, ◌++◌, Bool, true, false, not, Option, none, some, ltb,
  if◌then◌else◌,
}

-- `Instant` in nanoseconds.
pub record WorkerStatus : Type 0 where
  pub dirty : Bool
  pub last_dirty_time : Option ℕ
  pub unmark_message : Option String

pub data LogLevels : Type 0 where
  info warn pause play : LogLevels

pub data Cmd : Type 0 where
  mark un_mark : Cmd

pub data ApiMessage : Type 0 where
  log : (worker_id output_id : ℕ) → String → LogLevels → ApiMessage
  cmd : (worker_id output_id : ℕ) → Cmd → ApiMessage

-- `sent` is what went to the sender of messages, if there is one, latest first.
pub record Helper : Type 0 where
  pub worker_id : ℕ
  pub output_id : ℕ
  pub has_api : Bool
  pub worker_status : WorkerStatus
  pub sent : List ApiMessage

unfoldable pub new : ℕ → Helper
new worker_id = record {
  worker_id = worker_id;
  output_id = 0;
  has_api = false;
  worker_status = record { dirty = false; last_dirty_time = none; unmark_message = none };
  sent = [];
}

unfoldable pub set_output_id : ℕ → Helper → Helper
set_output_id output_id h = record h { output_id = output_id }

unfoldable pub set_api_config : Helper → Helper
set_api_config h = record h { has_api = true }

unfoldable pub send_api_message : ApiMessage → Helper → Helper
send_api_message m h = if h.has_api then record h { sent = m ∷ h.sent } else h

unfoldable pub send_log : String → LogLevels → Helper → Helper
unfolding send_api_message
send_log message level h = send_api_message (ApiMessage.log h.worker_id h.output_id message level) h

unfoldable pub log_info : String → Helper → Helper
unfolding send_log
log_info message h = send_log message LogLevels.info h

unfoldable pub log_warn : String → Helper → Helper
unfolding send_log
log_warn message h = send_log message LogLevels.warn h

unfoldable pub log_pause : String → Helper → Helper
unfolding send_log
log_pause message h = send_log message LogLevels.pause h

unfoldable pub log_play : String → Helper → Helper
unfolding send_log
log_play message h = send_log message LogLevels.play h

unfoldable pub send_cmd : Cmd → Helper → Helper
unfolding send_api_message
send_cmd c h = send_api_message (ApiMessage.cmd h.worker_id h.output_id c) h

unfoldable pub set_dirty : Bool → Helper → Helper
set_dirty dirty h = record h { worker_status = record h.worker_status { dirty = dirty } }

unfoldable pub set_last_dirty_time : Option ℕ → Helper → Helper
set_last_dirty_time time h = record h {
  worker_status = record h.worker_status { last_dirty_time = time };
}

unfoldable pub set_unmark_message : Option String → Helper → Helper
set_unmark_message message h = record h {
  worker_status = record h.worker_status { unmark_message = message };
}

unfoldable pub cmd_mark_dirty : Helper → Helper
unfolding set_dirty send_cmd
cmd_mark_dirty h = send_cmd Cmd.mark (set_dirty true h)

unfoldable pub mark_dirty : (now : ℕ) → String → Helper → Helper
unfolding cmd_mark_dirty set_last_dirty_time log_warn
mark_dirty now message h =
    let h' = set_last_dirty_time (some now) h in
    if h'.worker_status.dirty then h' else log_warn message (cmd_mark_dirty h')

unfoldable pub unmark_dirty : String → Helper → Helper
unfolding set_unmark_message
unmark_dirty message h = set_unmark_message (some message) h

-- The message left by `unmark_dirty` is logged once.
unfoldable pub tell_unmark : Option String → Helper → Helper
unfolding log_info set_unmark_message
tell_unmark none h = h
tell_unmark (some message) h = set_unmark_message none (log_info message h)

unfoldable pub cmd_unmark_dirty_now : Helper → Helper
unfolding set_dirty set_last_dirty_time send_cmd tell_unmark
cmd_unmark_dirty_now h =
    let h' = send_cmd Cmd.un_mark (set_last_dirty_time none (set_dirty false h)) in
    tell_unmark h'.worker_status.unmark_message h'

-- `DIRTY_TIMEOUT_SEC`
abbrev pub dirty_timeout_ns : ℕ
dirty_timeout_ns = 30 * 10 ^ 9

-- `get_last_dirty_time().is_some_and(|t| t.elapsed() > ...)`
unfoldable pub is_over : (now : ℕ) → Option ℕ → Bool
is_over now none = false
is_over now (some t) = ltb dirty_timeout_ns (now - t)

unfoldable pub cmd_unmark_dirty : (now : ℕ) → Helper → Helper
unfolding is_over cmd_unmark_dirty_now
cmd_unmark_dirty now h =
    if is_over now h.worker_status.last_dirty_time then cmd_unmark_dirty_now h else h
