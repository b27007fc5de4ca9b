-- ===== src/Epg/Generator.antt =====
-- `run` of src/epg/epg.rs: a round makes the packets of the tables, and sends them seven at a time.
pub mod Sending
use mymuxer.Base.{
  ℕ, zero, suc, ◌+◌, ◌-◌, ◌*◌, ◌/◌, ◌%◌, ◌^◌, bit_and, max, List, [], ◌∷◌, ◌++◌, Bool, true, false,
  not, Option, none, some, ltb, leb, ◌==◌, if◌then◌else◌, length, take, drop, Outcome, ret, panic,
  ◌>>=◌,
}
use mymuxer.Epg.{EpgNetwork, EpgEvent, EpgState, Key, present_following_events, event_description}
use mymuxer.Psi.Encode.{Section}
use mymuxer.Psi.Time.{DateTime}
use mymuxer.Psi.Tdt as Tdt
use mymuxer.Psi.Tot as Tot
use mymuxer.Psi.Eit.{present_following_section, empty_present_following_section, concat}
use mymuxer.Psi.Pack.{pack_multi}

-- `date_of` is chrono's calendar, `offset` the two decimal bytes of a time zone's offset at a time.
pub record Env : Type 0 where
  pub crc32 : List ℕ → ℕ
  pub date_of : ℕ → DateTime
  pub offset : ℕ → List ℕ → List ℕ

pub record Generator : Type 0 where
  pub state : EpgState
  pub last_tdt : ℕ
  pub eit_cc : ℕ
  pub tdt_tot_cc : ℕ
  pub packets : List (List ℕ)

-- A new hash of the events is a new version, of five bits.
unfoldable pub update_state : EpgState → EpgState → EpgState
update_state new_state current =
    if new_state.last_hash == current.last_hash
    then record current { generated_at_utc = new_state.generated_at_utc }
    else record {
      current_version = bit_and ((current.current_version + 1) % 256) 0x1F;
      generated_at_utc = new_state.generated_at_utc;
      last_hash = new_state.last_hash;
    }

-- The packets of sections, behind those that wait. `pack_multi` is on fuel, of which it has enough;
-- the model answers `panic` without.
unfoldable pub pack_sections : List Section → (cc : ℕ) → List (List ℕ) → Outcome (List (List ℕ) × ℕ)
pack_sections [] cc packets = ret (packets, cc)
pack_sections (section ∷ sections) cc packets = elim (pack_multi section.bytes section.pid cc) [
  | none ↦ panic
  | some (more, cc') ↦ pack_sections sections cc' (packets ++ more)
]

-- `TDT_PERIOD_MS`, in nanoseconds like all times here.
abbrev pub tdt_period : ℕ
tdt_period = 10_000 * 10 ^ 6

unfoldable pub push_time : Env → (now instant_now : ℕ) → EpgNetwork → Generator → Outcome Generator
unfolding pack_sections
push_time env now instant_now network g =
    if ltb (instant_now - g.last_tdt) tdt_period then ret g else do
      tot ←
          Tot.section env.crc32 (env.date_of now) network.country_code
            (env.offset now network.timezone)
      sent ← pack_sections (Tdt.section (env.date_of now) ∷ tot ∷ []) g.tdt_tot_cc g.packets
      ret (record g { packets = sent.0; tdt_tot_cc = sent.1; last_tdt = instant_now })

-- The section of one event; `language` is that of the present event for both.
unfoldable pub section_of :
    Env
    → (version : ℕ) → Key
    → (section_number : ℕ) → EpgEvent
    → (language : List ℕ) → Outcome Section
section_of env version (original_network_id, transport_stream_id, service_id) section_number event
      language =
    present_following_section env.crc32 service_id version transport_stream_id original_network_id
      section_number event.event_id (env.date_of event.start_time_utc) event.duration_seconds
      event.title (event_description event) language

unfoldable pub following_of :
    Env → (version : ℕ) → Key → (language : List ℕ) → Option EpgEvent → Outcome Section
unfolding section_of
following_of env version key language (some following) =
    section_of env version key 1 following language
following_of env version (original_network_id, transport_stream_id, service_id) language none =
    empty_present_following_section env.crc32 service_id version transport_stream_id
      original_network_id 1

-- Two sections for each service that has events.
unfoldable pub service_sections :
    Env → (version now : ℕ) → List (Key × List EpgEvent) → Outcome (List Section)
unfolding section_of following_of
service_sections env version now [] = ret []
service_sections env version now ((key, events) ∷ m) =
    let rest = service_sections env version now m in
    elim (present_following_events events now) [
      | none ↦ rest
      | some (present, following) ↦ do
        first ← section_of env version key 0 present present.language
        second ← following_of env version key present.language following
        more ← rest
        ret (first ∷ second ∷ more)
    ]

-- A round up to the sending.
unfoldable pub fill :
    Env
    → (now instant_now : ℕ) → (loaded : EpgState × EpgNetwork × List (Key × List EpgEvent))
    → Generator
    → Outcome Generator
unfolding update_state push_time service_sections pack_sections
fill env now instant_now (new_state, network, groups) g = do
  let state = update_state new_state g.state
  g1 ← push_time env now instant_now network (record g { state = state })
  sections ← service_sections env state.current_version now groups
  sent ← pack_sections sections g1.eit_cc g1.packets
  ret (record g1 { packets = sent.0; eit_cc = sent.1 })

abbrev pub eit_ts_packet_count : ℕ
eit_ts_packet_count = 7

-- The time between two datagrams, in nanoseconds, for packets to be sent; none are not sent at all.
unfoldable pub tick_ns : ℕ → ℕ
tick_ns count = max (1_000 * 1_000_000 * eit_ts_packet_count / count) 1_000_000

-- The datagrams that the ticks send while there are packets enough for one, and the packets left
-- for the next round; on fuel, of which a datagram takes more than one. `sends` counts those that the
-- socket takes before an error or a timeout ends the round.
unfoldable pub send_loop : (fuel sends : ℕ) → List (List ℕ) → List (List ℕ) × List (List ℕ)
send_loop zero sends packets = ([], packets)
send_loop (suc fuel) sends packets =
    let rest = send_loop fuel (sends - 1) (drop eit_ts_packet_count packets) in
    if ltb (length packets) eit_ts_packet_count
    then ([], packets)
    else if sends == 0
    then ([], drop eit_ts_packet_count packets)
    else (concat (take eit_ts_packet_count packets) ∷ rest.0, rest.1)

unfoldable pub send : (sends : ℕ) → Generator → List (List ℕ) × Generator
unfolding send_loop
send sends g =
    let (datagrams, left) = send_loop (length g.packets + 1) sends g.packets in
    (datagrams, record g { packets = left })
