-- ===== src/Epg/Choice.antt =====
-- Which events are present and following.
use mathlib.Core.Path.{subst}
use mymuxer.Base.{
  ℕ, zero, suc, ◌+◌, ◌≤◌, ◌<◌, ◌≡◌, ◌≢◌, refl, arith, List, [], ◌∷◌, ◌++◌, ap, All, true, false,
  Bool-cases, ◌⊎◌, inl, inr, Option, none, some, Option-cases, ltb, ltb→lt, get_elem?,
}
use mymuxer.Epg.{
  EpgEvent, seconds, is_on_air, position, upcoming, first_two, present_following_events,
}

-- In the order of their starts.
abbrev pub Sorted : List EpgEvent → Type 0
Sorted [] = Unit
Sorted (e ∷ events) = All (λ f. e.start_time_utc ≤ f.start_time_utc) events × Sorted events

-- The second event does not start before the first.
abbrev pub InOrder : EpgEvent × Option EpgEvent → Type 0
InOrder (present, none) = Unit
InOrder (present, some following) = present.start_time_utc ≤ following.start_time_utc

-- What follows an event stands right behind it; nothing follows only the last.
pub record Follows (events : List EpgEvent) (p : EpgEvent) (f : Option EpgEvent) : Type 0 where
  pub before : List EpgEvent
  pub behind : List EpgEvent
  pub split : events ≡ before ++ p ∷ behind
  pub next : f ≡ get_elem? behind 0

abbrev pub IsOver : ℕ → EpgEvent → Type 0
IsOver now e = e.start_time_utc + seconds e.duration_seconds ≤ now

abbrev pub IsNotBefore : ℕ → EpgEvent → EpgEvent → Type 0
IsNotBefore now p f = now < f.start_time_utc → p.start_time_utc ≤ f.start_time_utc

-- The event is on the air; or none is, and of those to come none starts earlier; or all are over and
-- it is the first.
abbrev pub IsPresent : ℕ → List EpgEvent → EpgEvent → Type 0
IsPresent now events p =
    (is_on_air now p ≡ true)
    ⊎ (All (λ f. is_on_air now f ≡ false) events
        × (now < p.start_time_utc)
        × All (λ f. IsNotBefore now p f) events)
    ⊎ (All (λ f. IsOver now f) events × (get_elem? events 0 ≡ some p))

position-some :
    (now : ℕ) (events : List EpgEvent) (i : ℕ)
    → position now events ≡ some i
    → (p : EpgEvent) × (get_elem? events i ≡ some p) × (is_on_air now p ≡ true)
unfolding position
position-some now [] i h = cc
position-some now (e ∷ events) i h = elim (Bool-cases (is_on_air now e)) [
  | inl on ↦ (e, ground (arith, on), on)
  | inr off ↦ elim (Option-cases (position now events)) [
    | inl nowhere ↦ ground arith
    | inr (k, found) ↦ let (p, here, on) = position-some now events k found in (p, ground arith, on)
  ]
]

position-none :
    (now : ℕ) (events : List EpgEvent)
    → position now events ≡ none
    → All (λ f. is_on_air now f ≡ false) events
unfolding position
position-none now [] h = tt
position-none now (e ∷ events) h = ground (arith, position-none now events)

All-le :
    (n : ℕ) (events : List EpgEvent) (i : ℕ) (f : EpgEvent)
    → All (λ f. n ≤ f.start_time_utc) events
    → get_elem? events i ≡ some f
    → n ≤ f.start_time_utc
All-le n [] i f h e = cc
All-le n (g ∷ events) zero f h e = ground arith
All-le n (g ∷ events) (suc i) f h e = All-le n events i f h.1 e

-- The event behind another, if there is one, does not start earlier.
get_elem?-InOrder :
    (events : List EpgEvent) (i : ℕ) (p : EpgEvent)
    → Sorted events
    → get_elem? events i ≡ some p
    → InOrder (p, get_elem? events (suc i))
get_elem?-InOrder [] i p s e = cc
get_elem?-InOrder (g ∷ []) i p s e = tt
get_elem?-InOrder (g ∷ f ∷ events) zero p s e = ground arith
get_elem?-InOrder (g ∷ f ∷ events) (suc i) p s e = get_elem?-InOrder (f ∷ events) i p s.1 e

upcoming-All :
    (P : EpgEvent → Type 0) (now : ℕ) (events : List EpgEvent)
    → All P events
    → All P (upcoming now events)
unfolding upcoming
upcoming-All P now [] h = tt
upcoming-All P now (e ∷ events) h = elim (Bool-cases (ltb now e.start_time_utc)) [
  | inl to_come ↦ rw to_come (h.0, upcoming-All P now events h.1)
  | inr begun ↦ rw begun (upcoming-All P now events h.1)
]

upcoming-Sorted : (now : ℕ) (events : List EpgEvent) → Sorted events → Sorted (upcoming now events)
unfolding upcoming
upcoming-Sorted now [] s = tt
upcoming-Sorted now (e ∷ events) s = elim (Bool-cases (ltb now e.start_time_utc)) [
  | inl to_come ↦ rw to_come (upcoming-All _ now events s.0, upcoming-Sorted now events s.1)
  | inr begun ↦ rw begun (upcoming-Sorted now events s.1)
]

All-IsNotBefore :
    (now : ℕ) (p : EpgEvent) (events : List EpgEvent)
    → All (λ f. p.start_time_utc ≤ f.start_time_utc) events
    → All (λ f. IsNotBefore now p f) events
All-IsNotBefore now p [] h = tt
All-IsNotBefore now p (e ∷ events) h = ((λ _. h.0), All-IsNotBefore now p events h.1)

upcoming-first :
    (now : ℕ) (events : List EpgEvent) (p : EpgEvent) (rest : List EpgEvent)
    → Sorted events
    → upcoming now events ≡ p ∷ rest
    → (now < p.start_time_utc) × All (λ f. IsNotBefore now p f) events
unfolding upcoming
upcoming-first now [] p rest s h = cc
upcoming-first now (e ∷ events) p rest s h = elim (Bool-cases (ltb now e.start_time_utc)) [
  | inl to_come ↦
      let same : e ≡ p = ground arith in
      subst (λ q. (now < q.start_time_utc) × All (λ f. IsNotBefore now q f) (e ∷ events)) same
        (ltb→lt _ _ to_come, ((λ _. omega arith), All-IsNotBefore now e events s.0))
  | inr begun ↦
      let (after, least) = upcoming-first now events p rest s.1 (ground arith) in
      (after, ((λ k. absurd (ground arith)), least))
]

upcoming-nil :
    (now : ℕ) (events : List EpgEvent)
    → upcoming now events ≡ []
    → All (λ f. is_on_air now f ≡ false) events
    → All (λ f. IsOver now f) events
unfolding upcoming is_on_air
upcoming-nil now [] h k = tt
upcoming-nil now (e ∷ events) h k = ground (arith, upcoming-nil now events)

get_elem?-Follows :
    (events : List EpgEvent) (i : ℕ) (p : EpgEvent)
    → get_elem? events i ≡ some p
    → Follows events p (get_elem? events (suc i))
get_elem?-Follows [] i p e = cc
get_elem?-Follows (g ∷ events) zero p e = record {
  before = [];
  behind = events;
  split = let same : g ≡ p = cc in rw same refl;
  next = refl;
}
get_elem?-Follows (g ∷ events) (suc i) p e =
    let f = get_elem?-Follows events i p e in
    record {
      before = g ∷ f.before;
      behind = f.behind;
      split = ap (λ t. g ∷ t) f.split;
      next = f.next;
    }

upcoming-after :
    (now : ℕ) (events : List EpgEvent)
    → All (λ f. now < f.start_time_utc) events
    → upcoming now events ≡ events
unfolding upcoming
upcoming-after now [] h = refl
upcoming-after now (e ∷ events) h = ground (arith, upcoming-after now events)

All-after :
    (now n : ℕ) (events : List EpgEvent)
    → now < n
    → All (λ f. n ≤ f.start_time_utc) events
    → All (λ f. now < f.start_time_utc) events
All-after now n [] h k = tt
All-after now n (e ∷ events) h k = (omega (arith, k.0), All-after now n events h k.1)

-- Those to come stand at the end.
upcoming-suffix :
    (now : ℕ) (events : List EpgEvent)
    → Sorted events
    → (begun : List EpgEvent) × (events ≡ begun ++ upcoming now events)
unfolding upcoming
upcoming-suffix now [] s = ([], refl)
upcoming-suffix now (e ∷ events) s = elim (Bool-cases (ltb now e.start_time_utc)) [
  | inl to_come ↦
      let after = All-after now e.start_time_utc events (ltb→lt _ _ to_come) s.0 in
      ([], rw to_come (rw (upcoming-after now events after) refl))
  | inr begun ↦
      let (front, eq) = upcoming-suffix now events s.1 in (e ∷ front, rw begun (ap (λ t. e ∷ t) eq))
]

first_two-InOrder :
    (p : EpgEvent) (rest : List EpgEvent) → Sorted (p ∷ rest) → InOrder (p, get_elem? rest 0)
first_two-InOrder p [] s = tt
first_two-InOrder p (f ∷ rest) s = s.0.0

-- What is chosen for events that none is on the air of.
chosen_later :
    (events : List EpgEvent) (now : ℕ) (rest : List EpgEvent)
    → Sorted events
    → events ≢ []
    → All (λ f. is_on_air now f ≡ false) events
    → upcoming now events ≡ rest
    → (p : EpgEvent) × (f : Option EpgEvent) × ((elim (first_two rest) [
      | some chosen ↦ some chosen
      | none ↦ first_two events
    ])
        ≡ some (p, f))
      × IsPresent now events p
      × InOrder (p, f)
      × Follows events p f
unfolding first_two
chosen_later [] now rest s ne off h = absurd (ne refl)
chosen_later (e ∷ events) now [] s ne off h = (
  e,
  get_elem? events 0,
  refl,
  inr (inr (upcoming-nil now (e ∷ events) h off, refl)),
  first_two-InOrder e events s,
  record { before = []; behind = events; split = refl; next = refl },
)
chosen_later (e ∷ events) now (p ∷ rest) s ne off h =
    let (after, least) = upcoming-first now (e ∷ events) p rest s h in
    let sorted : Sorted (p ∷ rest) = rw h at (upcoming-Sorted now (e ∷ events) s) in
    let (begun, split) = upcoming-suffix now (e ∷ events) s in
    (
      p,
      get_elem? rest 0,
      refl,
      inr (inl (off, after, least)),
      first_two-InOrder p rest sorted,
      record { before = begun; behind = rest; split = rw h at split; next = refl },
    )

-- Of events in the order of their starts, one or more, `present_following_events` chooses one that
-- is on the air if there is one; else one of those to come that starts first; else all are over and
-- it chooses the first of all. What follows is the event right behind it, which does not start before
-- it, and nothing only if it is the last.
pub present_following_events-IsPresent :
    (events : List EpgEvent) (now : ℕ)
    → Sorted events
    → events ≢ []
    → (p : EpgEvent) × (f : Option EpgEvent) × (present_following_events events now ≡ some (p, f))
      × IsPresent now events p
      × InOrder (p, f)
      × Follows events p f
unfolding present_following_events
present_following_events-IsPresent events now s ne = elim (Option-cases (position now events)) [
  | inl nowhere ↦
      rw (nowhere, present_following_events)
        (chosen_later events now _ s ne (position-none now events nowhere) refl)
  | inr (i, found) ↦
      let (p, here, on) = position-some now events i found in
      (
        p,
        get_elem? events (suc i),
        rw (found, present_following_events) (rw here refl),
        inl on,
        get_elem?-InOrder events i p s here,
        get_elem?-Follows events i p here,
      )
]
