-- ===== src/Epg/Grouping.antt =====
-- What `group_events_by_service` holds under each key.
use mathlib.Core.Path.{subst}
use mymuxer.Base.{
  ℕ, ◌≤◌, ◌≡◌, refl, sym, ap, ◌∙◌, arith, List, [], ◌∷◌, ◌++◌, append-nil, append_assoc, All, true,
  false, Bool-cases, inl, inr, leb, leb→le, leb_false→lt, if◌then◌else◌,
}
use mymuxer.Epg.{
  EpgEvent, Key, key_of, same_key, key_lt, push_event, push_events, sort_groups, insert_by_start,
  sort_by_start, group_events_by_service,
}
use mymuxer.Epg.Choice.{Sorted}

same_key_refl : (k : Key) → same_key k k ≡ true
unfolding same_key
same_key_refl (a, b, c) = ground arith

same_key_trans : (i j k : Key) → same_key i j ≡ true → same_key i k ≡ same_key j k
unfolding same_key
same_key_trans (a, b, c) (x, y, z) (u, v, w) h = ground arith

key_lt_trans : (i j k : Key) → key_lt i j ≡ true → key_lt j k ≡ true → key_lt i k ≡ true
unfolding key_lt
key_lt_trans (a, b, c) (x, y, z) (u, v, w) h g = ground arith

key_lt-other : (i j : Key) → key_lt i j ≡ true → same_key j i ≡ false
unfolding key_lt same_key
key_lt-other (a, b, c) (x, y, z) h = ground arith

key_lt_total : (i j : Key) → key_lt i j ≡ false → same_key i j ≡ false → key_lt j i ≡ true
unfolding key_lt same_key
key_lt_total (a, b, c) (x, y, z) h g = ground arith

same_key_comm : (i j : Key) → same_key i j ≡ same_key j i
unfolding same_key
same_key_comm (a, b, c) (x, y, z) = ground arith

-- The events under a key; none if the map does not have it.
unfoldable pub events_of : Key → List (Key × List EpgEvent) → List EpgEvent
events_of k [] = []
events_of k ((j, events) ∷ m) = if same_key j k then events else events_of k m

abbrev pub Above : Key → List (Key × List EpgEvent) → Type 0
Above i [] = Unit
Above i ((j, events) ∷ m) = (key_lt i j ≡ true) × Above i m

-- The keys of the map, in their order.
abbrev pub Ordered : List (Key × List EpgEvent) → Type 0
Ordered [] = Unit
Ordered ((j, events) ∷ m) = Above j m × Ordered m

events_of-Above : (k : Key) (m : List (Key × List EpgEvent)) → Above k m → events_of k m ≡ []
unfolding events_of
events_of-Above k [] h = refl
events_of-Above k ((j, events) ∷ m) h = rw (key_lt-other k j h.0) (events_of-Above k m h.1)

Above-trans :
    (i j : Key) (m : List (Key × List EpgEvent)) → key_lt i j ≡ true → Above j m → Above i m
Above-trans i j [] h g = tt
Above-trans i j ((k, events) ∷ m) h g = (key_lt_trans i j k h g.0, Above-trans i j m h g.1)

push_event-Above :
    (i k : Key) (e : EpgEvent) (m : List (Key × List EpgEvent))
    → key_lt i k ≡ true
    → Above i m
    → Above i (push_event k e m)
unfolding push_event
push_event-Above i k e [] h g = (h, tt)
push_event-Above i k e ((j, events) ∷ m) h g = ground (arith, push_event-Above i k e m h g.1)

push_event-Ordered :
    (k : Key) (e : EpgEvent) (m : List (Key × List EpgEvent))
    → Ordered m
    → Ordered (push_event k e m)
unfolding push_event
push_event-Ordered k e [] o = (tt, tt)
push_event-Ordered k e ((j, events) ∷ m) o = elim (Bool-cases (key_lt k j)) [
  | inl before ↦ rw before ((before, Above-trans k j m before o.0), o)
  | inr not_before ↦ elim (Bool-cases (same_key k j)) [
    | inl same ↦ rw (not_before, same) o
    | inr other ↦
        rw (not_before, other)
          (
            push_event-Above j k e m (key_lt_total k j not_before other) o.0,
            push_event-Ordered k e m o.1,
          )
  ]
]

same_key-eq : (k i : Key) → same_key k i ≡ true → k ≡ i
unfolding same_key
same_key-eq (a, b, c) (x, y, z) h = ground arith

events_of-push_event_self :
    (k : Key) (e : EpgEvent) (m : List (Key × List EpgEvent))
    → Ordered m
    → events_of k (push_event k e m) ≡ events_of k m ++ e ∷ []
unfolding push_event events_of
events_of-push_event_self k e [] o = rw (same_key_refl k)
events_of-push_event_self k e ((j, events) ∷ m) o = elim (Bool-cases (key_lt k j)) [
  | inl before ↦ rw (
    before,
    same_key_refl k,
    key_lt-other k j before,
    events_of-Above k m (Above-trans k j m before o.0),
  )
  | inr not_before ↦
      ground (arith, events_of-push_event_self k e m o.1, same_key_comm k j, same_key_refl k)
]

-- An event goes behind the others of its key, and leaves the other keys as they were.
events_of-push_event :
    (k i : Key) (e : EpgEvent) (m : List (Key × List EpgEvent))
    → Ordered m
    → events_of i (push_event k e m)
      ≡ (if same_key k i then events_of i m ++ e ∷ [] else events_of i m)
unfolding push_event events_of
events_of-push_event k i e [] o = ground arith
events_of-push_event k i e ((j, events) ∷ m) o = elim (Bool-cases (same_key k i)) [
  | inl hit ↦
      let eq : k ≡ i = same_key-eq k i hit in
      rw hit (
        subst
          (λ q.
            events_of q (push_event k e ((j, events) ∷ m))
            ≡ events_of q ((j, events) ∷ m) ++ e ∷ [])
          eq (events_of-push_event_self k e ((j, events) ∷ m) o))
  | inr miss ↦ ground (arith, events_of-push_event k i e m o.1, same_key_trans k j i)
]

-- The events of a key, in their order.
unfoldable pub of_key : Key → List EpgEvent → List EpgEvent
of_key k [] = []
of_key k (e ∷ events) =
    let rest = of_key k events in if same_key (key_of e) k then e ∷ rest else rest

events_of-push_events :
    (k : Key) (events : List EpgEvent) (m : List (Key × List EpgEvent))
    → Ordered m
    → events_of k (push_events events m) ≡ events_of k m ++ of_key k events
unfolding push_events of_key
events_of-push_events k [] m o = sym (append-nil (events_of k m))
events_of-push_events k (e ∷ events) m o =
    events_of-push_events k events (push_event (key_of e) e m) (push_event-Ordered (key_of e) e m o)
    ∙ ap (λ t. t ++ of_key k events) (events_of-push_event (key_of e) k e m o)
    ∙ ground (arith, append_assoc (events_of k m) (e ∷ []) (of_key k events))

events_of-sort_groups :
    (k : Key) (m : List (Key × List EpgEvent))
    → events_of k (sort_groups m) ≡ sort_by_start (events_of k m)
unfolding sort_groups events_of sort_by_start
events_of-sort_groups k [] = refl
events_of-sort_groups k ((j, events) ∷ m) = ground (arith, events_of-sort_groups k m)

All-insert :
    (n : ℕ) (e : EpgEvent) (events : List EpgEvent)
    → n ≤ e.start_time_utc
    → All (λ f. n ≤ f.start_time_utc) events
    → All (λ f. n ≤ f.start_time_utc) (insert_by_start e events)
unfolding insert_by_start
All-insert n e [] h g = (h, tt)
All-insert n e (f ∷ events) h g = elim (Bool-cases (leb e.start_time_utc f.start_time_utc)) [
  | inl first ↦ rw first (h, g)
  | inr later ↦ rw later (g.0, All-insert n e events h g.1)
]

All-weaken :
    (n k : ℕ) (events : List EpgEvent)
    → n ≤ k
    → All (λ f. k ≤ f.start_time_utc) events
    → All (λ f. n ≤ f.start_time_utc) events
All-weaken n k [] h g = tt
All-weaken n k (f ∷ events) h g = (omega arith, All-weaken n k events h g.1)

insert_by_start-Sorted :
    (e : EpgEvent) (events : List EpgEvent) → Sorted events → Sorted (insert_by_start e events)
unfolding insert_by_start
insert_by_start-Sorted e [] s = (tt, tt)
insert_by_start-Sorted e (f ∷ events) s =
    elim (Bool-cases (leb e.start_time_utc f.start_time_utc)) [
      | inl first ↦ let le = leb→le _ _ first in rw first ((le, All-weaken _ _ events le s.0), s)
      | inr later ↦ rw later (
        All-insert _ e events (omega (arith, leb_false→lt _ _ later)) s.0,
        insert_by_start-Sorted e events s.1,
      )
    ]

sort_by_start-Sorted : (events : List EpgEvent) → Sorted (sort_by_start events)
unfolding sort_by_start
sort_by_start-Sorted [] = tt
sort_by_start-Sorted (e ∷ events) = insert_by_start-Sorted e _ (sort_by_start-Sorted events)

-- Under each key the groups hold what `sort_by_start` makes of the events of that key, and these are
-- in the order of their starts.
pub group_events_by_service-OfKey :
    (k : Key) (events : List EpgEvent)
    → (events_of k (group_events_by_service events) ≡ sort_by_start (of_key k events))
      × Sorted (events_of k (group_events_by_service events))
unfolding group_events_by_service events_of
group_events_by_service-OfKey k events =
    let eq : events_of k (group_events_by_service events) ≡ sort_by_start (of_key k events) =
      events_of-sort_groups k (push_events events [])
      ∙ ap sort_by_start (events_of-push_events k events [] tt) in
    (eq, rw eq (sort_by_start-Sorted (of_key k events)))
