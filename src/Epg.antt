-- ===== src/Epg.antt =====
-- src/epg/epg.rs: the events of services, which of them are present and following, and the packets
-- that announce them. Texts are the lists of their UTF-8 bytes, and points of time are nanoseconds.
-- The download, the socket and the watch over both are left out.
pub mod Choice
pub mod Grouping
pub mod Generator
use mymuxer.Base.{
  ℕ, suc, ◌+◌, ◌*◌, ◌^◌, List, [], ◌∷◌, ◌++◌, Bool, true, false, ◌&&◌, ◌||◌, Option, none, some,
  ltb, leb, ◌==◌, if◌then◌else◌, length, get_elem?,
}

pub record EpgNetwork : Type 0 where
  pub country_code : List ℕ
  pub timezone : List ℕ

pub record EpgEvent : Type 0 where
  pub original_network_id : ℕ
  pub transport_stream_id : ℕ
  pub service_id : ℕ
  pub event_id : ℕ
  pub start_time_utc : ℕ
  pub duration_seconds : ℕ
  pub title : List ℕ
  pub subtitle : Option (List ℕ)
  pub description : Option (List ℕ)
  pub language : List ℕ

pub record EpgEvents : Type 0 where
  pub version : ℕ
  pub generated_at_utc : ℕ
  pub network : EpgNetwork
  pub events : List EpgEvent

pub record EpgState : Type 0 where
  pub current_version : ℕ
  pub generated_at_utc : ℕ
  pub last_hash : ℕ

-- `events.sort_by_key(|event| event.start_time_utc)`, which is stable.
unfoldable pub insert_by_start : EpgEvent → List EpgEvent → List EpgEvent
insert_by_start e [] = e ∷ []
insert_by_start e (f ∷ events) =
    if leb e.start_time_utc f.start_time_utc then e ∷ f ∷ events else f ∷ insert_by_start e events

unfoldable pub sort_by_start : List EpgEvent → List EpgEvent
unfolding insert_by_start
sort_by_start [] = []
sort_by_start (e ∷ events) = insert_by_start e (sort_by_start events)

-- The original network, the transport stream and the service.
abbrev pub Key : Type 0
Key = ℕ × ℕ × ℕ

unfoldable pub key_of : EpgEvent → Key
key_of e = (e.original_network_id, e.transport_stream_id, e.service_id)

unfoldable pub same_key : Key → Key → Bool
same_key (a, b, c) (x, y, z) = a == x && (b == y && c == z)

-- The order of the keys of the `BTreeMap`.
unfoldable pub key_lt : Key → Key → Bool
key_lt (a, b, c) (x, y, z) = ltb a x || (a == x && (ltb b y || (b == y && ltb c z)))

-- `entry(key).or_insert_with(Vec::new).push(event)`
unfoldable pub push_event : Key → EpgEvent → List (Key × List EpgEvent) → List (Key × List EpgEvent)
unfolding same_key key_lt
push_event k e [] = (k, e ∷ []) ∷ []
push_event k e ((j, events) ∷ m) =
    if key_lt k j
    then (k, e ∷ []) ∷ (j, events) ∷ m
    else if same_key k j
    then (j, events ++ e ∷ []) ∷ m
    else (j, events) ∷ push_event k e m

unfoldable pub push_events : List EpgEvent → List (Key × List EpgEvent) → List (Key × List EpgEvent)
unfolding push_event key_of
push_events [] m = m
push_events (e ∷ events) m = push_events events (push_event (key_of e) e m)

-- `for events in grouped.values_mut()`
unfoldable pub sort_groups : List (Key × List EpgEvent) → List (Key × List EpgEvent)
unfolding sort_by_start
sort_groups [] = []
sort_groups ((k, events) ∷ m) = (k, sort_by_start events) ∷ sort_groups m

unfoldable pub group_events_by_service : List EpgEvent → List (Key × List EpgEvent)
unfolding push_events sort_groups
group_events_by_service events = sort_groups (push_events events [])

-- `Duration::seconds`
abbrev pub seconds : ℕ → ℕ
seconds n = n * 10 ^ 9

unfoldable pub is_on_air : ℕ → EpgEvent → Bool
is_on_air now e =
    leb e.start_time_utc now && ltb now (e.start_time_utc + seconds e.duration_seconds)

-- `events.iter().position(...)`
unfoldable pub position : ℕ → List EpgEvent → Option ℕ
unfolding is_on_air
position now [] = none
position now (e ∷ events) =
    if is_on_air now e
    then some 0
    else elim (position now events) [ none ↦ none | some i ↦ some (suc i) ]

-- `events.iter().filter(|event| event.start_time_utc > now)`
unfoldable pub upcoming : ℕ → List EpgEvent → List EpgEvent
upcoming now [] = []
upcoming now (e ∷ events) =
    let rest = upcoming now events in if ltb now e.start_time_utc then e ∷ rest else rest

-- The first of the events and the one behind it.
unfoldable pub first_two : List EpgEvent → Option (EpgEvent × Option EpgEvent)
first_two [] = none
first_two (e ∷ events) = some (e, get_elem? events 0)

unfoldable pub present_following_events : List EpgEvent → ℕ → Option (EpgEvent × Option EpgEvent)
unfolding position upcoming first_two
present_following_events events now = elim (position now events) [
  | some index ↦ elim (get_elem? events index) [
    | none ↦ none
    | some present ↦ some (present, get_elem? events (suc index))
  ]
  | none ↦ elim (first_two (upcoming now events)) [
    | some chosen ↦ some chosen
    | none ↦ first_two events
  ]
]

-- A text that is there and not empty.
unfoldable pub non_empty : Option (List ℕ) → Option (List ℕ)
non_empty none = none
non_empty (some []) = none
non_empty (some (c ∷ text)) = some (c ∷ text)

unfoldable pub event_description : EpgEvent → List ℕ
unfolding non_empty
event_description e = elim (non_empty e.description) [
  | some text ↦ text
  | none ↦ elim (non_empty e.subtitle) [ some text ↦ text | none ↦ [] ]
]

-- `load_epg_events` from the text on: `parse` is serde's, `hash` is `DefaultHasher` over the events.
unfoldable pub load_epg_events :
    {Text : Type 0} (parse : Text → Option EpgEvents) (hash : List EpgEvent → ℕ)
    → Text
    → Option (EpgState × EpgNetwork × List EpgEvent)
unfolding sort_by_start
load_epg_events parse hash epg_json = elim (parse epg_json) [
  | none ↦ none
  | some epg ↦
      let events = sort_by_start epg.events in
      if length epg.network.country_code == 3
      then some (
        record {
          current_version = epg.version;
          generated_at_utc = epg.generated_at_utc;
          last_hash = hash events;
        },
        epg.network,
        events,
      )
      else none
]
