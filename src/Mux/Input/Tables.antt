-- ===== src/Mux/Input/Tables.antt =====
-- src/mux.rs: `process_pat`, `process_pmt` and `process_sdt` keep the tables that are sent.
use mymuxer.Base.{
  ℕ, ◌+◌, ◌*◌, ◌%◌, ◌^◌, List, [], ◌∷◌, true, not, Option, none, some, ◌==◌, if◌then◌else◌, map,
  ◌++◌, Outcome, ret, ◌>>=◌, byte_at,
}
use mymuxer.Packet.{pkt_pid}
use mymuxer.Psi.Section.{push_map}
use mymuxer.Psi.Pack.{pack}
use mymuxer.Psi.Text.{cached_cc}
use mymuxer.Psi.Pat.{analyze_pat, patch_pat_section, is_pat_changed}
use mymuxer.Psi.Pmt.{analyze_pmt, patch_pmt_section}
use mymuxer.Psi.Changes.{is_pmt_changed}
use mymuxer.Psi.Sdt.{SdtInfo, analyze_sdt, prepare_sdt}
use mymuxer.Mux.Handler.{Program, PacketHandler, get_program}
use mymuxer.Mux.Input.{Env, InputHandler, of_option}

-- A PAT is taken over with the program's own number and PID, or compared with the one taken over.
-- The code reads the patched section again, to log it.
unfoldable pub take_pat : Env → InputHandler → ℕ → List ℕ → Outcome InputHandler
take_pat env h pid section = do
  pat_info ← analyze_pat section
  if h.out.pat_ready
      then ret (record h { out = record h.out { dirty_pat = is_pat_changed h.pat_info pat_info } })
      else do
        program ← get_program h.out
        patched ← patch_pat_section env.crc32 section ((program.program_id, program.pmt_pid) ∷ [])
        logged ← analyze_pat patched
        packet ← of_option (pack patched pid (cached_cc h.out.pat))
        ret (record h {
          pat_info = pat_info;
          out = record h.out { pat = packet; pat_ready = true };
        })

unfoldable pub process_pat : Env → InputHandler → List ℕ → Outcome InputHandler
process_pat env h pkt_data = do
  pid ← pkt_pid pkt_data
  (reasm, complete) ← push_map h.psi_reasm pkt_data
  let h' = record h { psi_reasm = reasm }
  elim complete [ none ↦ ret h' | some section ↦ take_pat env h' pid section ]

-- The streams keep their PIDs.
abbrev pub es_mapping : Program → List (ℕ × ℕ)
es_mapping program = map (λ pid. (pid, pid)) (program.video_pids ++ program.audio_pids)

unfoldable pub take_pmt : Env → InputHandler → ℕ → List ℕ → Outcome InputHandler
take_pmt env h pid section = do
  pmt_info ← analyze_pmt section
  if not h.out.pmt_ready
      then (do
        program ← get_program h.out
        patched ←
            patch_pmt_section env.crc32 section pmt_info.pcr_pid (es_mapping program) h.strip_ca
        logged ← analyze_pmt patched
        packet ← of_option (pack patched pid (cached_cc h.out.pmt))
        ret (record h {
          pmt_info = some pmt_info;
          out = record h.out { pmt = packet; pmt_ready = true };
        }))
      else elim h.pmt_info [
        | none ↦ ret h
        | some current ↦
            ret (record h { out = record h.out { dirty_pmt = is_pmt_changed current pmt_info } })
      ]

unfoldable pub process_pmt : Env → InputHandler → List ℕ → Outcome InputHandler
process_pmt env h pkt_data = do
  pid ← pkt_pid pkt_data
  (reasm, complete) ← push_map h.psi_reasm pkt_data
  let h' = record h { psi_reasm = reasm }
  elim complete [ none ↦ ret h' | some section ↦ take_pmt env h' pid section ]

-- `u16::from_be_bytes([self.pat[8], self.pat[9]])`
unfoldable pub pat_transport_stream_id : PacketHandler → Outcome ℕ
pat_transport_stream_id h = do b8 ← byte_at h.pat 8; b9 ← byte_at h.pat 9; ret (b8 * 2 ^ 8 + b9)

-- The service of the program, if the table describes it.
unfoldable pub find_service : List SdtInfo → ℕ → Option SdtInfo
find_service [] id = none
find_service (s ∷ more) id = if s.service_id == id then some s else find_service more id

abbrev pub or_else : List ℕ → List ℕ → List ℕ
or_else [] other = other
or_else (b ∷ name) other = b ∷ name

-- The configuration's type, or the table's, or 1.
unfoldable pub service_type_of : ℕ → ℕ → ℕ
service_type_of configured found =
    if configured == 0 then (if found == 0 then 0x01 else found) else configured % 2 ^ 8

unfoldable pub set_sdt : Env → InputHandler → ℕ → List ℕ → List ℕ → Program → Outcome InputHandler
set_sdt env h service_type provider_name service_name program = do
  id ← pat_transport_stream_id h.out
  made ← prepare_sdt env.crc32 id program.program_id service_type provider_name service_name
  sdt ← of_option made
  ret (record h { out = record h.out { sdt = sdt; sdt_ready = true } })

unfoldable pub take_sdt : Env → InputHandler → List SdtInfo → Outcome InputHandler
take_sdt env h [] = ret h
take_sdt env h (s ∷ more) = do
  program ← get_program h.out
  elim (find_service (s ∷ more) program.program_id) [
    | none ↦ ret h
    | some sdt ↦
        set_sdt env h (service_type_of program.service_type sdt.service_type)
          (or_else (env.trim program.service_provider_name) (env.trim sdt.provider_name))
          (or_else (env.trim program.service_name) (env.trim sdt.service_name)) program
  ]

unfoldable pub process_sdt : Env → InputHandler → List ℕ → Outcome InputHandler
process_sdt env h pkt_data = do
  (reasm, complete) ← push_map h.psi_reasm pkt_data
  let h' = record h { psi_reasm = reasm }
  elim complete [
    | none ↦ ret h'
    | some section ↦ do
      sdts ← analyze_sdt env.iso_8859_5 env.utf_16be env.utf8_lossy section
      take_sdt env h' sdts
  ]
