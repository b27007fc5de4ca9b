-- ===== src/Supervisor/Tasks/Exclusion.antt =====
-- At most one of the tasks works on a worker, and the set of identifiers tells which are worked on.
use mymuxer.Base.{
  ℕ, ◌≡◌, refl, sym, ◌∙◌, arith, List, [], ◌∷◌, true, false, Bool-cases, inl, inr, none, some,
  Option-cases, ◌==◌,
}
use mymuxer.Base.Maps.{is_some, contains, discard, contains-discard, lookup}
use mymuxer.Workers.{Worker}
use mymuxer.Supervisor.{Supervisor, Result, ok, err, start}
use mymuxer.Supervisor.Tasks.{
  Pc, Event, advance, holds, started, System, update, Step, acts, called, others, Reach, here, next,
}

-- What a step does to the set and to what its task has in it.
pub data Change (before after : List ℕ) (p q : Pc) : Type 0 where
  keeps : after ≡ before → holds q ≡ holds p → Change before after p q
  takes :
      (id : ℕ)
      → contains id before ≡ false
      → after ≡ id ∷ before
      → holds p ≡ none
      → holds q ≡ some id
      → Change before after p q
  drops :
      (id : ℕ)
      → after ≡ discard id before
      → holds p ≡ some id
      → holds q ≡ none
      → Change before after p q

holds-started : (id : ℕ) (r : Result Worker) → holds (started id r) ≡ some id
unfolding holds started
holds-started id (ok w) = refl
holds-started id (err e) = refl

advance-Change :
    (p : Pc) (s : Supervisor) → Change s.workers_lock (advance p s).1.workers_lock p (advance p s).0
unfolding advance holds
advance-Change (Pc.finished r) s = keeps refl refl
advance-Change (Pc.start_entry id) s = elim (Bool-cases (is_some (lookup id s.workers))) [
  | inl e ↦ rw e (keeps refl refl)
  | inr e ↦ rw e (keeps refl refl)
]
advance-Change (Pc.start_lock id) s = elim (Bool-cases (contains id s.workers_lock)) [
  | inl e ↦ rw e (keeps refl refl)
  | inr e ↦ rw e (takes id e refl refl refl)
]
advance-Change (Pc.start_work id) s = keeps refl (holds-started id (start s id))
advance-Change (Pc.insert_worker id w) s = keeps refl refl
advance-Change (Pc.leave id r) s = drops id refl refl refl
advance-Change (Pc.stop_entry id) s = elim (Bool-cases (is_some (lookup id s.workers))) [
  | inl e ↦ rw e (keeps refl refl)
  | inr e ↦ rw e (keeps refl refl)
]
advance-Change (Pc.stop_lock id) s = elim (Bool-cases (contains id s.workers_lock)) [
  | inl e ↦ rw e (keeps refl refl)
  | inr e ↦ rw e (takes id e refl refl refl)
]
advance-Change (Pc.stop_take id) s = elim (Option-cases (lookup id s.workers)) [
  | inl e ↦ rw e (keeps refl refl)
  | inr (w, e) ↦ rw e (keeps refl refl)
]
advance-Change (Pc.stop_wait id w) s = keeps refl refl
advance-Change (Pc.restart_lock id) s = elim (Bool-cases (contains id s.workers_lock)) [
  | inl e ↦ rw e (keeps refl refl)
  | inr e ↦ rw e (takes id e refl refl refl)
]
advance-Change (Pc.restart_take id) s = elim (Option-cases (lookup id s.workers)) [
  | inl e ↦ rw e (keeps refl refl)
  | inr (w, e) ↦ rw e (keeps refl refl)
]
advance-Change (Pc.restart_wait id w) s = keeps refl refl

pub record IsExclusive (s : System) : Type 0 where
  pub unique : (i j id : ℕ) → holds (s.pc i) ≡ some id → holds (s.pc j) ≡ some id → (i == j) ≡ true
  pub held : (i id : ℕ) → holds (s.pc i) ≡ some id → contains id s.sup.workers_lock ≡ true
  pub owned :
      (id : ℕ) → contains id s.sup.workers_lock ≡ true → (i : ℕ) × (holds (s.pc i) ≡ some id)

-- A task that changes its place but not what it has in the set.
module _ (s : System) (i : ℕ) (p : Pc) (sup : Supervisor) (trace : List Event)
    (v : IsExclusive s) where
  kept_IsExclusive :
      sup.workers_lock ≡ s.sup.workers_lock
      → holds p ≡ holds (s.pc i)
      → IsExclusive (record { sup = sup; pc = update s.pc i p; trace = trace })
  kept_IsExclusive same_set same = record {
    unique = λ j k id hj hk.
        ground (arith, v.unique j k id, v.unique i k id, v.unique j i id, v.unique i i id);
    held = λ j id h. ground (arith, v.held j id, v.held i id);
    owned = λ id c. let (j, e) = v.owned id (ground arith) in (j, ground arith);
  }

  taken_IsExclusive :
      (id : ℕ)
      → contains id s.sup.workers_lock ≡ false
      → sup.workers_lock ≡ id ∷ s.sup.workers_lock
      → holds p ≡ some id
      → holds (s.pc i) ≡ none
      → IsExclusive (record { sup = sup; pc = update s.pc i p; trace = trace })
  unfolding contains
  taken_IsExclusive id free more now before = record {
    unique = λ j k id' hj hk. ground (arith, v.unique j k id', v.held j id', v.held k id');
    held = λ j id' h. ground (arith, v.held j id');
    owned = λ id' c. elim (Bool-cases (id == id')) [
      | inl e ↦ (i, ground arith)
      | inr e ↦ let (j, e') = v.owned id' (ground arith) in (j, ground arith)
    ];
  }

  dropped_IsExclusive :
      (id : ℕ)
      → sup.workers_lock ≡ discard id s.sup.workers_lock
      → holds (s.pc i) ≡ some id
      → holds p ≡ none
      → IsExclusive (record { sup = sup; pc = update s.pc i p; trace = trace })
  dropped_IsExclusive id less before now = record {
    unique = λ j k id' hj hk. ground (arith, v.unique j k id');
    held = λ j id' h.
        ground (arith, v.held j id', v.unique i j id, contains-discard id id' s.sup.workers_lock);
    owned = λ id' c.
        let (j, e) = v.owned id' (ground (arith, contains-discard id id' s.sup.workers_lock)) in
        (j, ground (arith, contains-discard id id' s.sup.workers_lock));
  }

  move-IsExclusive :
      Change s.sup.workers_lock sup.workers_lock (s.pc i) p
      → IsExclusive (record { sup = sup; pc = update s.pc i p; trace = trace })
  move-IsExclusive (keeps same_set same) = kept_IsExclusive same_set same
  move-IsExclusive (takes id free more before now) = taken_IsExclusive id free more now before
  move-IsExclusive (drops id less before now) = dropped_IsExclusive id less before now

Step-IsExclusive : {s t : System} → Step s t → IsExclusive s → IsExclusive t
Step-IsExclusive {s} (acts i) v =
    move-IsExclusive s i (advance (s.pc i) s.sup).0 (advance (s.pc i) s.sup).1 _ v
      (advance-Change (s.pc i) s.sup)
Step-IsExclusive {s} (called i p idle fresh) v =
    kept_IsExclusive s i p s.sup s.trace v refl (fresh ∙ sym idle)
Step-IsExclusive (others sup same) v = record {
  unique = v.unique;
  held = λ i id h. ground (arith, v.held i id);
  owned = λ id c. v.owned id (ground arith);
}

-- From a supervisor that nothing works on, whatever is called and however the tasks and all else
-- interleave: an identifier is in the set exactly if some task works on its worker, and never two
-- tasks work on the same worker.
pub Reach-IsExclusive :
    {s t : System}
    → s.sup.workers_lock ≡ []
    → ((i : ℕ) → holds (s.pc i) ≡ none)
    → Reach s t
    → IsExclusive t
unfolding contains
Reach-IsExclusive {s} empty idle here = record {
  unique = λ i j id h k. absurd (cc (idle i));
  held = λ i id h. absurd (cc (idle i));
  owned = λ id c. absurd (ground arith);
}
Reach-IsExclusive {s} empty idle (next {t} r st) =
    Step-IsExclusive st (Reach-IsExclusive {s = s} {t = t} empty idle r)
