-- ===== src/Supervisor/Tasks/Race.antt =====
-- Two requests to start the same stream, one behind the other's back.
use mymuxer.Base.{ℕ, ◌≡◌, refl, ap, ap₂, ◌∙◌, arith, List, ◌∷◌, false, none, ◌==◌}
use mymuxer.Base.Maps.{contains, lookup, insert}
use mymuxer.Workers.{Worker}
use mymuxer.Supervisor.{Supervisor, ok, start, lock}
use mymuxer.Supervisor.Restarts.{discard-cons}
use mymuxer.Supervisor.Tasks.{
  Pc, finished, start_entry, start_lock, start_work, insert_worker, advance, started, Event,
  spawned, emits, System, act, acts, Reach, here, next,
}

-- From `s`, with task `i` at `p` and all other tasks as in `s`.
record Ran (s : System) (i : ℕ) (p : Pc) (sup : Supervisor) (trace : List Event) : Type 0 where
  last : System
  reach : Reach s last
  sup_is : last.sup ≡ sup
  trace_is : last.trace ≡ trace
  at_i : last.pc i ≡ p
  rest : (k : ℕ) → (i == k) ≡ false → last.pc k ≡ s.pc k

turn :
    {s : System} {i : ℕ} {p : Pc} {sup : Supervisor} {trace : List Event}
    → Ran s i p sup trace
    → Ran s i (advance p sup).0 (advance p sup).1 (emits p sup trace)
turn {s} {i} {p} {sup} {trace} r = record {
  last = act i r.last;
  reach = next r.reach (acts i);
  sup_is = ap₂ (λ q u. (advance q u).1) r.at_i r.sup_is;
  trace_is = ap₂ (λ q u. emits q u r.last.trace) r.at_i r.sup_is ∙ ap (emits p sup) r.trace_is;
  at_i = ground (arith, ap₂ (λ q u. (advance q u).0) r.at_i r.sup_is);
  rest = λ k ne. ground (arith, r.rest k ne);
}

stay : (s : System) (i : ℕ) → Ran s i (s.pc i) s.sup s.trace
stay s i = record {
  last = s;
  reach = here;
  sup_is = refl;
  trace_is = refl;
  at_i = refl;
  rest = λ k ne. refl;
}

Reach-trans : {s t u : System} → Reach s t → Reach t u → Reach s u
Reach-trans r here = r
Reach-trans r (next q st) = next (Reach-trans r q) st

start-lock : (id : ℕ) (sup : Supervisor) → start (lock id sup) id ≡ start sup id
unfolding start
start-lock id sup = refl

start-insert :
    (id : ℕ) (w : Worker) (sup : Supervisor)
    → start (record sup { workers = insert id w sup.workers }) id ≡ start sup id
unfolding start
start-insert id w sup = refl

-- A start that found no worker, where nothing works on it: it spawns one.
start_turns :
    {s : System} {i : ℕ} {sup : Supervisor} {trace : List Event} (id : ℕ) (w : Worker)
    → contains id sup.workers_lock ≡ false
    → start sup id ≡ ok w
    → Ran s i (start_lock id) sup trace
    → Ran s i
        (finished (ok tt))
        (record sup { workers = insert id w sup.workers })
        (spawned id ∷ trace)
unfolding advance emits
start_turns {s} {i} {sup} {trace} id w free known r =
    let locked : Ran s i (start_work id) (lock id sup) trace = rw free at (turn r) in
    let e : start (lock id sup) id ≡ ok w = start-lock id sup ∙ known in
    let made : Ran s i (insert_worker id w) (lock id sup) (spawned id ∷ trace) =
      rw (e, started, emits) at (turn locked) in
    rw (discard-cons id sup.workers_lock free) at (turn (turn made))

module _ (s : System) (i j id : ℕ) (w : Worker) (other : (i == j) ≡ false)
    (absent : lookup id s.sup.workers ≡ none) (free : contains id s.sup.workers_lock ≡ false)
    (known : start s.sup id ≡ ok w) where
  -- Both requests succeed, with two workers spawned and one of them in the map.
  abbrev pub BothSpawned : Type 0
  BothSpawned =
      (t : System) × Reach s t
      × (t.pc i ≡ finished (ok tt))
      × (t.pc j ≡ finished (ok tt))
      × (t.trace ≡ spawned id ∷ spawned id ∷ s.trace)
      × (t.sup.workers ≡ insert id w (insert id w s.sup.workers))

  abbrev after_one : Supervisor
  after_one = record s.sup { workers = insert id w s.sup.workers }

  second_start :
      (u : System)
      → Reach s u
      → u.pc i ≡ finished (ok tt)
      → u.pc j ≡ start_lock id
      → u.sup ≡ after_one
      → u.trace ≡ spawned id ∷ s.trace
      → BothSpawned
  second_start u r at_i at_j sup_is trace_is =
      let k : start after_one id ≡ ok w = start-insert id w s.sup ∙ known in
      let two : Ran u j (finished (ok tt))
          (record after_one { workers = insert id w after_one.workers })
          (spawned id ∷ spawned id ∷ s.trace) =
        start_turns {i = j} {sup = after_one} {trace = spawned id ∷ s.trace} id w free k (record {
          last = u;
          reach = here;
          sup_is = sup_is;
          trace_is = trace_is;
          at_i = at_j;
          rest = λ k ne. refl;
        }) in
      (
        two.last,
        Reach-trans r two.reach,
        two.rest i (ground arith) ∙ at_i,
        two.at_i,
        two.trace_is,
        ap (λ u. u.workers) two.sup_is,
      )

  first_start :
      (u : System)
      → Reach s u
      → u.pc i ≡ start_lock id
      → u.pc j ≡ start_lock id
      → u.sup ≡ s.sup
      → u.trace ≡ s.trace
      → BothSpawned
  first_start u r at_i at_j sup_is trace_is =
      let one : Ran u i (finished (ok tt)) after_one (spawned id ∷ s.trace) =
        start_turns {i = i} {sup = s.sup} {trace = s.trace} id w free known (record {
          last = u;
          reach = here;
          sup_is = sup_is;
          trace_is = trace_is;
          at_i = at_i;
          rest = λ k ne. refl;
        }) in
      second_start one.last (Reach-trans r one.reach) one.at_i (one.rest j other ∙ at_j) one.sup_is
        one.trace_is

  second_entry :
      (u : System)
      → Reach s u
      → u.pc i ≡ start_lock id
      → u.pc j ≡ start_entry id
      → u.sup ≡ s.sup
      → u.trace ≡ s.trace
      → BothSpawned
  unfolding advance emits
  second_entry u r at_i at_j sup_is trace_is =
      let begun : Ran u j (start_entry id) s.sup s.trace = record {
        last = u;
        reach = here;
        sup_is = sup_is;
        trace_is = trace_is;
        at_i = at_j;
        rest = λ k ne. refl;
      } in
      let read : Ran u j (start_lock id) s.sup s.trace = rw absent at (turn begun) in
      first_start read.last (Reach-trans r read.reach) (read.rest i (ground arith) ∙ at_i) read.at_i
        read.sup_is read.trace_is

  -- Two requests to start a stream of the configuration that has no worker, and that nothing works
  -- on, can both find it without one: then each spawns a worker, neither is stopped, both requests
  -- succeed, and the map holds one of the two workers, which leaves nobody to stop the other.
  pub start_worker-Race : s.pc i ≡ start_entry id → s.pc j ≡ start_entry id → BothSpawned
  unfolding advance emits
  start_worker-Race at_i at_j =
      let begun : Ran s i (start_entry id) s.sup s.trace = rw at_i at (stay s i) in
      let read : Ran s i (start_lock id) s.sup s.trace = rw absent at (turn begun) in
      second_entry read.last read.reach read.at_i (read.rest j other ∙ at_j) read.sup_is
        read.trace_is
