-- ===== src/Workers/Status/Alternation.antt =====
-- The commands that a worker's status sends, over any history of calls.
use Prim.Native.String.{String}
use mymuxer.Base.{
  ℕ, suc, ◌+◌, ◌≤◌, ◌≡◌, refl, arith, List, [], ◌∷◌, Bool, true, false, Bool-cases, Option, none,
  some, inl, inr,
}
use mymuxer.Base.Maps.{is_some}
use mymuxer.Workers.Status.{
  Helper, Cmd, ApiMessage, new, set_api_config, mark_dirty, unmark_dirty, cmd_mark_dirty,
  cmd_unmark_dirty, cmd_unmark_dirty_now, tell_unmark, is_over, send_cmd, set_dirty,
  set_last_dirty_time,
}

-- The calls that the inputs, the outputs, packet handlers and the supervisor make, each at its time;
-- `mark_only` is `cmd_mark_dirty`, which only the server of the unix output calls by itself.
pub data Call : Type 0 where
  mark : (now : ℕ) → String → Call
  mark_only : Call
  restored : String → Call
  check : (now : ℕ) → Call
  unmark : Call

abbrev pub call : Call → Helper → Helper
call (mark now message) h = mark_dirty now message h
call mark_only h = cmd_mark_dirty h
call (restored message) h = unmark_dirty message h
call (check now) h = cmd_unmark_dirty now h
call unmark h = cmd_unmark_dirty_now h

abbrev pub run : List Call → Helper → Helper
run [] h = h
run (c ∷ cs) h = run cs (call c h)

-- How many of the calls are `cmd_mark_dirty` by itself.
abbrev pub marks_only : List Call → ℕ
marks_only [] = 0
marks_only (mark_only ∷ cs) = suc (marks_only cs)
marks_only (mark now message ∷ cs) = marks_only cs
marks_only (restored message ∷ cs) = marks_only cs
marks_only (check now ∷ cs) = marks_only cs
marks_only (unmark ∷ cs) = marks_only cs

-- What the commands among the messages, latest first, leave who reads them with.
abbrev pub told : List ApiMessage → Bool
told [] = false
told (ApiMessage.log w o m l ∷ ms) = told ms
told (ApiMessage.cmd w o Cmd.mark ∷ ms) = true
told (ApiMessage.cmd w o Cmd.un_mark ∷ ms) = false

abbrev pub marks : List ApiMessage → ℕ
marks [] = 0
marks (ApiMessage.log w o m l ∷ ms) = marks ms
marks (ApiMessage.cmd w o Cmd.mark ∷ ms) = suc (marks ms)
marks (ApiMessage.cmd w o Cmd.un_mark ∷ ms) = marks ms

abbrev pub releases : List ApiMessage → ℕ
releases [] = 0
releases (ApiMessage.log w o m l ∷ ms) = releases ms
releases (ApiMessage.cmd w o Cmd.mark ∷ ms) = releases ms
releases (ApiMessage.cmd w o Cmd.un_mark ∷ ms) = suc (releases ms)

abbrev pub one_if : Bool → ℕ
one_if true = 1
one_if false = 0

one_if_le : (b : Bool) → one_if b ≤ 1
one_if_le true = omega arith
one_if_le false = omega arith

-- `extra` counts the calls of `cmd_mark_dirty` by itself.
pub record IsReported (extra : ℕ) (h : Helper) : Type 0 where
  pub api : h.has_api ≡ true
  pub last_told : told h.sent ≡ h.worker_status.dirty
  pub timed : is_some h.worker_status.last_dirty_time ≡ true → h.worker_status.dirty ≡ true
  pub balanced : marks h.sent ≤ releases h.sent + extra + one_if h.worker_status.dirty

mark_dirty-IsReported :
    (extra now : ℕ) (message : String) (h : Helper)
    → IsReported extra h
    → IsReported extra (mark_dirty now message h)
unfolding mark_dirty
mark_dirty-IsReported extra now message h v = record {
  api = ground arith;
  last_told = ground arith;
  timed = ground arith;
  balanced = ground arith;
}

cmd_mark_dirty-IsReported :
    (extra : ℕ) (h : Helper) → IsReported extra h → IsReported (suc extra) (cmd_mark_dirty h)
unfolding cmd_mark_dirty
cmd_mark_dirty-IsReported extra h v = record {
  api = ground arith;
  last_told = ground arith;
  timed = ground arith;
  balanced = ground (arith, one_if_le h.worker_status.dirty);
}

tell_unmark-IsReported :
    (extra : ℕ) (m : Option String) (h : Helper)
    → IsReported extra h
    → IsReported extra (tell_unmark m h)
unfolding tell_unmark
tell_unmark-IsReported extra none h v = v
tell_unmark-IsReported extra (some m) h v = record {
  api = ground arith;
  last_told = ground arith;
  timed = ground arith;
  balanced = ground arith;
}

sent_unmark-IsReported :
    (extra : ℕ) (h : Helper)
    → IsReported extra h
    → IsReported extra (send_cmd Cmd.un_mark (set_last_dirty_time none (set_dirty false h)))
unfolding send_cmd set_last_dirty_time set_dirty
sent_unmark-IsReported extra h v = record {
  api = ground arith;
  last_told = rw v.api refl;
  timed = λ e. cc;
  balanced = rw v.api (omega (arith, v.balanced, one_if_le h.worker_status.dirty));
}

cmd_unmark_dirty_now-IsReported :
    (extra : ℕ) (h : Helper) → IsReported extra h → IsReported extra (cmd_unmark_dirty_now h)
unfolding cmd_unmark_dirty_now
cmd_unmark_dirty_now-IsReported extra h v =
    tell_unmark-IsReported extra _ _ (sent_unmark-IsReported extra h v)

check-IsReported :
    (extra now : ℕ) (h : Helper) → IsReported extra h → IsReported extra (cmd_unmark_dirty now h)
unfolding cmd_unmark_dirty
check-IsReported extra now h v = elim (Bool-cases (is_over now h.worker_status.last_dirty_time)) [
  | inl over ↦ rw over (cmd_unmark_dirty_now-IsReported extra h v)
  | inr early ↦ rw early v
]

restored-IsReported :
    (extra : ℕ) (message : String) (h : Helper)
    → IsReported extra h
    → IsReported extra (unmark_dirty message h)
unfolding unmark_dirty
restored-IsReported extra message h v = record {
  api = v.api;
  last_told = v.last_told;
  timed = v.timed;
  balanced = v.balanced;
}

more : {a b : ℕ} {h : Helper} → IsReported a h → a ≡ b → IsReported b h
more v e = rw (← e) v

run-keeps :
    (extra : ℕ) (cs : List Call) (h : Helper)
    → IsReported extra h
    → IsReported (extra + marks_only cs) (run cs h)
run-keeps extra [] h v = more v (omega arith)
run-keeps extra (mark now message ∷ cs) h v =
    run-keeps extra cs _ (mark_dirty-IsReported extra now message h v)
run-keeps extra (mark_only ∷ cs) h v =
    more (run-keeps (suc extra) cs _ (cmd_mark_dirty-IsReported extra h v)) (omega arith)
run-keeps extra (restored message ∷ cs) h v =
    run-keeps extra cs _ (restored-IsReported extra message h v)
run-keeps extra (check now ∷ cs) h v = run-keeps extra cs _ (check-IsReported extra now h v)
run-keeps extra (unmark ∷ cs) h v = run-keeps extra cs _ (cmd_unmark_dirty_now-IsReported extra h v)

-- Whatever calls follow on a new helper with a sender: the last command sent leaves who reads it with
-- the worker's status; a time is kept only while the worker is dirty; and no more marks are sent than
-- releases, calls of `cmd_mark_dirty` by itself, and one if the worker is dirty.
pub run-IsReported :
    (worker_id : ℕ) (cs : List Call)
    → IsReported (marks_only cs) (run cs (set_api_config (new worker_id)))
unfolding set_api_config new
run-IsReported worker_id cs =
    more
      (run-keeps 0 cs (set_api_config (new worker_id))
        (record { api = refl; last_told = refl; timed = λ e. cc; balanced = omega arith }))
      (omega arith)
