-- ===== src/Tests/Epg.antt =====
-- The schedule of one service.
use mymuxer.Base.{ℕ, ◌≡◌, refl, arith, List, [], ◌∷◌, Option, none, some, replicate}
use mymuxer.Epg.{EpgEvent, group_events_by_service, sort_by_start, present_following_events}
use mymuxer.Epg.Choice.{Sorted, IsPresent, InOrder, Follows, present_following_events-IsPresent}
use mymuxer.Epg.Grouping.{events_of, of_key, group_events_by_service-OfKey}
use mymuxer.Epg.Generator.{Generator, send}
use mymuxer.Epg.Generator.Sending.{IsSent, send-IsSent}

abbrev show : ℕ → ℕ → EpgEvent
show event_id start = record {
  original_network_id = 1;
  transport_stream_id = 2;
  service_id = 3;
  event_id = event_id;
  start_time_utc = start;
  duration_seconds = 1;
  title = [];
  subtitle = none;
  description = none;
  language = [];
}

abbrev schedule : List EpgEvent
schedule = show 1 0 ∷ show 2 2_000_000_000 ∷ []

present_following_events-IsPresent_example :
    (p : EpgEvent) × (f : Option EpgEvent) × (present_following_events schedule 1_500_000_000
      ≡ some (p, f))
    × IsPresent 1_500_000_000 schedule p
    × InOrder (p, f)
    × Follows schedule p f
present_following_events-IsPresent_example =
    present_following_events-IsPresent schedule 1_500_000_000 (((omega arith), tt), (tt, tt))
      (λ e. cc)

group_events_by_service-OfKey_example :
    (events_of (1, 2, 3) (group_events_by_service schedule)
      ≡ sort_by_start (of_key (1, 2, 3) schedule))
    × Sorted (events_of (1, 2, 3) (group_events_by_service schedule))
group_events_by_service-OfKey_example = group_events_by_service-OfKey (1, 2, 3) schedule

abbrev packet : List ℕ
packet = replicate 188 0xFF

abbrev waiting : Generator
waiting = record {
  state = record { current_version = 0; generated_at_utc = 0; last_hash = 0 };
  last_tdt = 0;
  eit_cc = 0;
  tdt_tot_cc = 0;
  packets = packet ∷ packet ∷ [];
}

send-IsSent_example : IsSent waiting.packets ((send 9 waiting).0, (send 9 waiting).1.packets)
send-IsSent_example = send-IsSent 9 waiting (refl, (refl, tt)) (omega arith)
