-- ===== src/Mux/Input/TablesFit.antt =====
-- The tables leave the buffers of the input side as they are.
use mymuxer.Base.{ℕ, ◌≡◌, refl, List, [], ◌∷◌, not, Keeps, kept, Keeps-any, Keeps-if, Keeps-option}
use mymuxer.Packet.{pkt_pid}
use mymuxer.Psi.Section.{push_map}
use mymuxer.Psi.Pack.{pack}
use mymuxer.Psi.Text.{cached_cc}
use mymuxer.Psi.Pat.{analyze_pat, patch_pat_section}
use mymuxer.Psi.Pmt.{analyze_pmt, patch_pmt_section}
use mymuxer.Psi.Sdt.{SdtInfo, analyze_sdt, prepare_sdt}
use mymuxer.Mux.Handler.{Program, get_program}
use mymuxer.Mux.Input.{Env, InputHandler, of_option}
use mymuxer.Mux.Input.Tables.{
  es_mapping, pat_transport_stream_id, take_pat, process_pat, take_pmt, process_pmt, set_sdt,
  find_service, take_sdt, process_sdt,
}
use mymuxer.Mux.Input.Fit.{IsFit, same-OutFit}

-- New tables, and nothing else.
same_media :
    (h g : InputHandler)
    → g.out.out_buff_a ≡ h.out.out_buff_a
    → g.out.out_buff_v ≡ h.out.out_buff_v
    → g.out.programs ≡ h.out.programs
    → g.last_pts_dts ≡ h.last_pts_dts
    → g.in_buff ≡ h.in_buff
    → IsFit h
    → IsFit g
same_media h g a v p r i f = record {
  out_fit = same-OutFit h.out g.out a v p f.out_fit;
  remembered = rw r f.remembered;
  received = rw i f.received;
}

module _ (env : Env) where
  take_pat-IsFit :
      (h : InputHandler) (pid : ℕ) (section : List ℕ)
      → IsFit h
      → Keeps IsFit (take_pat env h pid section)
  unfolding take_pat
  take_pat-IsFit h pid section f = Keeps-any (analyze_pat section) _ λ info.
      Keeps-if h.out.pat_ready (λ _. kept (same_media h _ refl refl refl refl refl f))
        λ _. Keeps-any (get_program h.out) _ λ program.
          Keeps-any
            (patch_pat_section env.crc32 section ((program.program_id, program.pmt_pid) ∷ [])) _
            λ patched. Keeps-any (analyze_pat patched) _ λ logged.
              Keeps-any (of_option (pack patched pid (cached_cc h.out.pat))) _
                λ packet. kept (same_media h _ refl refl refl refl refl f)

  pub process_pat-IsFit :
      (h : InputHandler) (p : List ℕ) → IsFit h → Keeps IsFit (process_pat env h p)
  unfolding process_pat
  process_pat-IsFit h p f = Keeps-any (pkt_pid p) _ λ pid.
      Keeps-any (push_map h.psi_reasm p) _ λ (reasm, complete).
        Keeps-option complete _ _ (kept (same_media h _ refl refl refl refl refl f))
          λ section. take_pat-IsFit _ pid section (same_media h _ refl refl refl refl refl f)

  take_pmt-IsFit :
      (h : InputHandler) (pid : ℕ) (section : List ℕ)
      → IsFit h
      → Keeps IsFit (take_pmt env h pid section)
  unfolding take_pmt
  take_pmt-IsFit h pid section f = Keeps-any (analyze_pmt section) _ λ info.
      Keeps-if (not h.out.pmt_ready)
        (λ _. Keeps-any (get_program h.out) _ λ program.
          Keeps-any
            (patch_pmt_section env.crc32 section info.pcr_pid (es_mapping program) h.strip_ca) _
            λ patched. Keeps-any (analyze_pmt patched) _ λ logged.
              Keeps-any (of_option (pack patched pid (cached_cc h.out.pmt))) _
                λ packet. kept (same_media h _ refl refl refl refl refl f))
        (λ _.
          Keeps-option h.pmt_info _ _ (kept f)
            λ current. kept (same_media h _ refl refl refl refl refl f))

  pub process_pmt-IsFit :
      (h : InputHandler) (p : List ℕ) → IsFit h → Keeps IsFit (process_pmt env h p)
  unfolding process_pmt
  process_pmt-IsFit h p f = Keeps-any (pkt_pid p) _ λ pid.
      Keeps-any (push_map h.psi_reasm p) _ λ (reasm, complete).
        Keeps-option complete _ _ (kept (same_media h _ refl refl refl refl refl f))
          λ section. take_pmt-IsFit _ pid section (same_media h _ refl refl refl refl refl f)

  pub set_sdt-IsFit :
      (h : InputHandler) (service_type : ℕ) (provider service : List ℕ) (program : Program)
      → IsFit h
      → Keeps IsFit (set_sdt env h service_type provider service program)
  unfolding set_sdt
  set_sdt-IsFit h service_type provider service program f =
      Keeps-any (pat_transport_stream_id h.out) _ λ id.
        Keeps-any (prepare_sdt env.crc32 id program.program_id service_type provider service) _
          λ made.
            Keeps-any (of_option made) _ λ sdt. kept (same_media h _ refl refl refl refl refl f)

  take_sdt-IsFit :
      (h : InputHandler) (sdts : List SdtInfo) → IsFit h → Keeps IsFit (take_sdt env h sdts)
  unfolding take_sdt
  take_sdt-IsFit h [] f = kept f
  take_sdt-IsFit h (s ∷ more) f = Keeps-any (get_program h.out) _ λ program.
      Keeps-option (find_service (s ∷ more) program.program_id) _ _ (kept f)
        λ sdt. set_sdt-IsFit h _ _ _ program f

  pub process_sdt-IsFit :
      (h : InputHandler) (p : List ℕ) → IsFit h → Keeps IsFit (process_sdt env h p)
  unfolding process_sdt
  process_sdt-IsFit h p f = Keeps-any (push_map h.psi_reasm p) _ λ (reasm, complete).
      Keeps-option complete _ _ (kept (same_media h _ refl refl refl refl refl f)) λ section.
        Keeps-any (analyze_sdt env.iso_8859_5 env.utf_16be env.utf8_lossy section) _
          λ sdts. take_sdt-IsFit _ sdts (same_media h _ refl refl refl refl refl f)
