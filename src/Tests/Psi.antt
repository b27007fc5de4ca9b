-- ===== src/Tests/Psi.antt =====
-- Sections and tables, sent and read.
use mymuxer.Psi.Changes.{diff_of, is_pmt_changed}
use mymuxer.Psi.Changes.Order.{Reordered, is_pmt_changed-Reordered}
use mymuxer.Psi.Time.Days.{Day, IsDay, days_in, next_day, mjd_day, mjd-next_day}
use mymuxer.Base.{
  ℕ, none, false, map, suc, ◌↔◌, ◌+◌, ◌-◌, ◌≤◌, min, take, ◌%◌, ◌^◌, ◌≡◌, refl, arith, List, [],
  ◌∷◌, replicate, length, true, some, ret, ◌>>=◌,
}
use mymuxer.Psi.Section.{new, total_len}
use mymuxer.Psi.Pack.{pack_multi}
use mymuxer.Psi.RoundTrip.{push_all-pack_multi}
use mymuxer.Psi.Reassembly.{IsSection, push_all}
use mymuxer.Psi.Pat.{analyze_pat, patch_pat_section}
use mymuxer.Psi.Pat.Entries.{programs}
use mymuxer.Psi.Pat.RoundTrip.{analyze_pat-patch_pat_section}
use mymuxer.Psi.Pmt.{StreamInfo, PmtInfo, patch_descriptors}
use mymuxer.Psi.Pmt.Strip.{encoded, without_ca, patch_descriptors-encoded}
use mymuxer.Psi.Text.{dvb_text, boundary_below, is_char_boundary}
use mymuxer.Psi.Text.Fit.{LastBoundary, dvb_text-LastBoundary}
use mymuxer.Tests.{are_bytes_lem}

-- A section of 403 bytes, which takes three packets.
abbrev long_section : List ℕ
long_section = 0x02 ∷ 0xB1 ∷ 0x90 ∷ replicate 400 7

long_section-IsSection : IsSection long_section
unfolding total_len
long_section-IsSection = record {
  bytes = are_bytes_lem long_section refl;
  header = omega arith;
  announced = refl;
}

push_all-pack_multi_example :
    (ps : List (List ℕ)) × (cc' : ℕ) × (pack_multi long_section 0x100 15 ≡ some (ps, cc'))
    × (push_all (new 0x100) ps ≡ ret (new 0x100, long_section ∷ []))
push_all-pack_multi_example =
    push_all-pack_multi long_section 0x100 15 (new 0x100) long_section-IsSection (omega arith)
      new_pid
  where
    new_pid : (new 0x100).pid ≡ 0x100
    new_pid = unfold new in refl

abbrev mappings : List (ℕ × ℕ)
mappings = (0, 16) ∷ (1, 0x1000) ∷ (2, 0x1001) ∷ []

analyze_pat-patch_pat_section_example :
    (patch_pat_section (λ bytes. length bytes) (replicate 16 7) mappings >>= analyze_pat)
    ≡ ret (programs mappings)
analyze_pat-patch_pat_section_example =
    analyze_pat-patch_pat_section (λ bytes. length bytes) (replicate 16 7) mappings (omega arith)
      ((omega arith, omega arith), ((omega arith, omega arith), ((omega arith, omega arith), tt)))
      (omega arith)

abbrev descriptors : List (ℕ × List ℕ)
descriptors = (0x0A, 101 ∷ 110 ∷ 103 ∷ 0 ∷ []) ∷ (0x09, 1 ∷ 2 ∷ []) ∷ (0x52, 5 ∷ []) ∷ []

patch_descriptors-encoded_example :
    patch_descriptors (encoded descriptors) true ≡ encoded (without_ca descriptors)
patch_descriptors-encoded_example = patch_descriptors-encoded descriptors

abbrev video_stream : StreamInfo
video_stream = record {
  stream_type = 27;
  pid = 0x100;
  descriptors = record { lang = none; ca = false };
}

abbrev audio_stream : StreamInfo
audio_stream = record {
  stream_type = 4;
  pid = 0x101;
  descriptors = record { lang = none; ca = false };
}

abbrev two_streams : PmtInfo
two_streams = record { pcr_pid = 0x100; streams = video_stream ∷ audio_stream ∷ [] }

abbrev swapped_streams : PmtInfo
swapped_streams = record { pcr_pid = 0x100; streams = audio_stream ∷ video_stream ∷ [] }

is_pmt_changed-Reordered_example : (is_pmt_changed two_streams swapped_streams ≡ false) ↔ (
    (two_streams.pcr_pid ≡ swapped_streams.pcr_pid)
    × Reordered (map diff_of two_streams.streams) (map diff_of swapped_streams.streams))
is_pmt_changed-Reordered_example = is_pmt_changed-Reordered two_streams swapped_streams

abbrev leap_day : Day
leap_day = record { year = 2024; month = 2; day = 29 }

leap_day-IsDay : IsDay leap_day
unfolding days_in
leap_day-IsDay = record {
  year_there = omega arith;
  month_there = (omega arith, omega arith);
  day_there = (omega arith, omega arith);
}

mjd-next_day_example : mjd_day (next_day leap_day) ≡ (mjd_day leap_day + 1) % 2 ^ 16
mjd-next_day_example = mjd-next_day leap_day leap_day-IsDay

-- A letter and one of two bytes, of which two bytes of room hold the first only.
abbrev cafe : List ℕ
cafe = 0x61 ∷ 0xC3 ∷ 0xA9 ∷ []

dvb_text-LastBoundary_example :
    (n : ℕ) × (dvb_text cafe 3 ≡ 0x15 ∷ take n cafe)
    × (length (dvb_text cafe 3) ≡ suc n)
    × LastBoundary cafe (min (length cafe) (3 - 1)) n
    × (length (dvb_text cafe 3) ≤ 3)
dvb_text-LastBoundary_example = dvb_text-LastBoundary cafe 3 (omega arith)

-- The second letter is left out.
cut_text : dvb_text cafe 3 ≡ 0x15 ∷ 0x61 ∷ []
unfolding dvb_text boundary_below is_char_boundary
cut_text = refl
