-- ===== src/Mux/Input/Start.antt =====
-- When the input side gets ready, and that it stays fit.
use mymuxer.Base.{
  ℕ, ◌+◌, ◌-◌, ◌*◌, ◌%◌, ◌^◌, ◌≤◌, ◌<◌, ◌≡◌, refl, ◌∙◌, arith, List, [], ◌∷◌, Bool, true, false,
  not, ◌||◌, Option, none, some, ltb, ge→ltb_false, leb, ◌==◌, if◌then◌else◌, length, All, bit_and,
  Outcome, ret, Keeps, kept, Keeps-if, Keeps-bind, Keeps-elim, panic, panics, Returns, returns,
  Returns-if, Ends, runs, stops, Ends-if, Ends-Returns, Outcome-cases, Option-cases, inl, inr,
}
use mymuxer.Base.Bits.{bit_and_low}
use mymuxer.Mux.Timing.{dts_after, wrapping_sub, dts_mask}
use mymuxer.Mux.Buffer
use mymuxer.Mux.Buffer.{TsPacket, OutBuffer}
use mymuxer.Mux.Restamper.{PcrRestamper}
use mymuxer.Mux.Restamper.Stamps.{get_pcr-resync}
use mymuxer.Mux.Handler.{PacketHandler, Program, get_program, is_dirty, resync, current_pcr}
use mymuxer.Mux.Input.{Env, InputHandler}
use mymuxer.Mux.Input.Ready.{
  generate_sdt, target_bitrate, set_bitrate, probe_bitrate, start, make_ready, try_ready,
  check_order, finish,
}
use mymuxer.Mux.Input.Fit.{IsFit, HasStamp, OutFit, same-OutFit, buffers_clear-IsFit}
use mymuxer.Mux.Input.TablesFit.{set_sdt-IsFit}
use mymuxer.Mux.Input.Adjust.{buffer_adjust-Adjusted}

resync-OutFit :
    (h : PacketHandler) (dts : ℕ) → OutFit h → OutFit (record (resync h dts) { is_ready = true })
unfolding resync
resync-OutFit h dts f = elim (Option-cases h.pcr_restamper) [
  | inl e ↦ rw (e, resync) (same-OutFit h (record h { is_ready = true }) refl refl refl f)
  | inr (r, e) ↦ rw (e, resync) (same-OutFit h _ refl refl refl f)
]

start-IsFit : (h : InputHandler) (p : Option TsPacket) → IsFit h → IsFit (start h p)
unfolding start
start-IsFit h none f = f
start-IsFit h (some p) f = record {
  out_fit = resync-OutFit h.out p.dts f.out_fit;
  remembered = f.remembered;
  received = f.received;
}

set_bitrate-OutFit : (h : PacketHandler) (bitrate : ℕ) → OutFit h → OutFit (set_bitrate h bitrate)
unfolding set_bitrate
set_bitrate-OutFit h bitrate f = elim (Option-cases h.pcr_restamper) [
  | inl e ↦ rw (e, set_bitrate) f
  | inr (r, e) ↦ rw (e, set_bitrate) (either r (r.target_bitrate_bps == 0))
]
  where
    either :
        (r : PcrRestamper) (b : Bool)
        → OutFit (
            if b
            then record h { pcr_restamper = some (record r { target_bitrate_bps = bitrate }) }
            else h)
    either r true = same-OutFit h _ refl refl refl f
    either r false = f

module _ (env : Env) where
  probe_bitrate-OutFit : (h : PacketHandler) → OutFit h → OutFit (probe_bitrate env h).0
  unfolding probe_bitrate
  probe_bitrate-OutFit h f =
      either (not (target_bitrate h.pcr_restamper == 0))
        (leb 5000 (Buffer.duration_ms h.out_buff_v)) _ _
    where
      either :
          (b c : Bool) (set rate : ℕ)
          → let r : PacketHandler × ℕ =
              if b then (h, rate) else if c then (set_bitrate h set, set) else (h, 0) in
            OutFit r.0
      either true c set rate = f
      either false true set rate = set_bitrate-OutFit h set f
      either false false set rate = f

  make_ready-IsFit :
      (h : InputHandler) (bitrate : ℕ) → IsFit h → Returns IsFit (make_ready env h bitrate)
  unfolding make_ready
  make_ready-IsFit h bitrate f =
      let (g, e, a) = buffer_adjust-Adjusted h.out f.out_fit in
      rw e (
        returns (
          start-IsFit _ (Buffer.front g.out_buff_v) (record {
            out_fit = same-OutFit g _ refl refl refl a.fit;
            remembered = f.remembered;
            received = f.received;
          })))

  try_ready-IsFit : (h : InputHandler) → IsFit h → Returns IsFit (try_ready env h)
  unfolding try_ready
  try_ready-IsFit h f =
      let fit : IsFit (record h { out = (probe_bitrate env h.out).0 }) = record {
        out_fit = probe_bitrate-OutFit h.out f.out_fit;
        remembered = f.remembered;
        received = f.received;
      } in
      let (out, bitrate) = probe_bitrate env h.out in
      Returns-if ((bitrate == 0) || ltb (Buffer.duration_ms out.out_buff_v) out.buffer_duration_ms)
        (λ _. returns fit) (λ _. make_ready-IsFit (record h { out = out }) bitrate fit)

  check_order-IsFit :
      (h : InputHandler) (first last : Option TsPacket)
      → IsFit h
      → Returns IsFit (check_order env h first last)
  unfolding check_order
  check_order-IsFit h none last f = returns f
  check_order-IsFit h (some first) none f = returns f
  check_order-IsFit h (some first) (some last) f =
      Returns-if (dts_after first.dts last.dts) (λ _. returns (buffers_clear-IsFit h f))
        (λ _. try_ready-IsFit h f)

  generate_sdt-IsFit : (h : InputHandler) → IsFit h → Keeps IsFit (generate_sdt env h)
  unfolding generate_sdt
  generate_sdt-IsFit h f =
      Keeps-if h.out.sdt_ready (λ _. kept f)
        λ _. Keeps-bind (any (get_program h.out)) λ program _. set_sdt-IsFit env h _ _ _ program f
    where
      any : (m : Outcome Program) → Keeps (λ _. Unit {0}) m
      any (ret a) = kept tt
      any panic = panics

  -- Only the table of services that it makes can stop it.
  pub finish-Ends :
      (h : InputHandler) → IsFit h → Ends IsFit (generate_sdt env h ≡ panic) (finish env h)
  unfolding finish
  finish-Ends h f =
      Ends-if (is_dirty h.out || h.out.is_ready) (λ _. runs f)
        λ _.
          Ends-if (not h.out.pat_ready || not h.out.pmt_ready) (λ _. runs f)
            λ _. elim (Outcome-cases (generate_sdt env h)) [
              | inl e ↦ rw e (stops refl)
              | inr (h', e) ↦ rw e (
                  Ends-Returns
                    (check_order-IsFit h' _ _ (Keeps-elim (generate_sdt-IsFit h f) h' e)))
            ]

-- The video waits long enough, in order, and all tables are there, at a known bit rate.
pub record IsDueToStart (h : InputHandler) : Type 0 where
  pub clean : is_dirty h.out ≡ false
  pub waiting : h.out.is_ready ≡ false
  pub pat_there : h.out.pat_ready ≡ true
  pub pmt_there : h.out.pmt_ready ≡ true
  pub sdt_there : h.out.sdt_ready ≡ true
  pub restamper : PcrRestamper
  pub has_restamper : h.out.pcr_restamper ≡ some restamper
  pub has_rate : (restamper.target_bitrate_bps == 0) ≡ false
  pub first : TsPacket
  pub last : TsPacket
  pub has_first : Buffer.front h.out.out_buff_v ≡ some first
  pub has_last : Buffer.back h.out.out_buff_v ≡ some last
  pub in_order : dts_after first.dts last.dts ≡ false
  pub long_enough : h.out.buffer_duration_ms ≤ Buffer.duration_ms h.out.out_buff_v

-- Started: ready, with video, and with a clock 300 ms before its first packet.
pub record Started (h : InputHandler) : Type 0 where
  pub ready : h.out.is_ready ≡ true
  pub fit : IsFit h
  pub next : TsPacket
  pub has_next : Buffer.front h.out.out_buff_v ≡ some next
  pub clock : current_pcr h.out ≡ some ((next.dts + 2 ^ 64 - 27000) % 2 ^ 33 * 300)
  pub within : Buffer.duration_ms h.out.out_buff_v ≤ h.out.buffer_duration_ms

-- `finish` on a handler due to start goes on to start it.
finish-eq :
    (env : Env) (h : InputHandler) (d : IsDueToStart h)
    → finish env h ≡ make_ready env h d.restamper.target_bitrate_bps
unfolding finish generate_sdt check_order try_ready probe_bitrate
finish-eq env h d =
    let long : ltb (Buffer.duration_ms h.out.out_buff_v) h.out.buffer_duration_ms ≡ false =
      ge→ltb_false _ _ d.long_enough in
    rw
      (
        d.clean, d.waiting, d.pat_there, d.pmt_there, d.sdt_there, d.has_first, d.has_last,
        d.in_order, d.has_restamper, d.has_rate, long,
      )
      (rw d.has_rate)

resync-clock :
    (h : PacketHandler) (r : PcrRestamper) (dts : ℕ)
    → h.pcr_restamper ≡ some r
    → dts < 2 ^ 33
    → current_pcr (resync h dts) ≡ some ((dts + 2 ^ 64 - 27000) % 2 ^ 33 * 300)
unfolding resync current_pcr
resync-clock h r dts e lt =
    let back = bit_and (wrapping_sub dts 27000) dts_mask in
    let f : back ≡ (dts + 2 ^ 64 - 27000) % 2 ^ 33 =
      bit_and_low 33 (wrapping_sub dts 27000) ∙ omega arith in
    rw e (rw f (get_pcr-resync r ((dts + 2 ^ 64 - 27000) % 2 ^ 33) (omega arith)))

front-cons :
    (ps : List TsPacket) (u c : ℕ)
    → 1 ≤ length ps
    → All HasStamp ps
    → (p : TsPacket) × (Buffer.front (record { inner = ps; unique_frames_count = u; pcr_count = c })
        ≡ some p)
      × HasStamp p
unfolding Buffer.front
front-cons [] u c h s = elim h [ ]
front-cons (p ∷ ps) u c h s = (p, refl, s.0)

length-front : (b : OutBuffer) (p : TsPacket) → Buffer.front b ≡ some p → 1 ≤ length b.inner
unfolding Buffer.front
length-front b p e = ground (arith, e)

resync-same :
    (h : PacketHandler) (dts : ℕ)
    → ((resync h dts).out_buff_v ≡ h.out_buff_v)
      × ((resync h dts).buffer_duration_ms ≡ h.buffer_duration_ms)
unfolding resync
resync-same h dts = elim (Option-cases h.pcr_restamper) [
  | inl e ↦ rw (e, resync) (refl, refl)
  | inr (r, e) ↦ rw (e, resync) (refl, refl)
]

start-Started :
    (h : InputHandler) (r : PcrRestamper) (p : TsPacket)
    → IsFit h
    → h.out.pcr_restamper ≡ some r
    → Buffer.front h.out.out_buff_v ≡ some p
    → HasStamp p
    → Buffer.duration_ms h.out.out_buff_v ≤ h.out.buffer_duration_ms
    → Started (start h (some p))
unfolding start current_pcr
start-Started h r p f e e' s within =
    let (video, limit) = resync-same h.out p.dts in
    record {
      ready = refl;
      fit = start-IsFit h (some p) f;
      next = p;
      has_next = rw video e';
      clock = resync-clock h.out r p.dts e s;
      within = rw (video, limit) within;
    }

-- A fit handler that is due to start (clean, with its tables, a bit rate, and video in order that
-- lasts the configured duration) gets ready in `finish`, with video left to send and a clock that
-- shows 300 ms before it.
pub finish-Started :
    (env : Env) (h : InputHandler) → IsFit h → IsDueToStart h → Returns Started (finish env h)
unfolding make_ready
finish-Started env h f d =
    let (g, e, a) = buffer_adjust-Adjusted h.out f.out_fit in
    let b = g.out_buff_v in
    let (p, front, s) =
      front-cons b.inner b.unique_frames_count b.pcr_count
        (a.video_left (length-front h.out.out_buff_v d.first d.has_first)) a.fit.video.stamped in
    rw (finish-eq env h d) (
      rw e (
        rw front (
          returns (
            start-Started _ d.restamper p
              (record {
                out_fit = same-OutFit g _ refl refl refl a.fit;
                remembered = f.remembered;
                received = f.received;
              })
              (a.same_clock ∙ d.has_restamper) front s (rw a.same_limit a.within)))))
