-- ===== src/Mux/Handler/Valid.antt =====
-- A handler that is fit to send: its buffers and tables hold whole packets, and it has a program.
use mymuxer.Base.{
  ℕ, ◌≡◌, refl, List, [], ◌∷◌, Bool, true, false, not, ◌&&◌, ◌||◌, Option, none, some, All,
  if◌then◌else◌, ret, Returns, returns, Returns-if, Returns-bind, Returns-eq_ret, Option-cases, inl,
  inr, ◌==◌, ◌>>=◌,
}
use mymuxer.Packet.{IsPacket}
use mymuxer.Packet.Fields.{pkt_set_discontinuity_lem}
use mymuxer.Packet.Clock.{pkt_is_pcr_present-total}
use mymuxer.Mux.Buffer
use mymuxer.Mux.Buffer.{TsPacket, OutBuffer}
use mymuxer.Mux.Timing.{dts_after}
use mymuxer.Mux.Restamper
use mymuxer.Mux.Restamper.{PcrRestamper, get_pcr}
use mymuxer.Mux.Restamper.Stamps.{process_packet-Stamped, process_packet-passes}
use mymuxer.Mux.Handler.{
  PacketHandler, Program, pop_v, pop_a, choose, choose_ready, choose_drain, get_a_or_v,
  get_a_or_v_ready, get_a_or_v_drain, ready_send, drain_send, get_program, resync, restamp,
  process_packet, drift_in_range, dts_drift,
}

abbrev pub IsWhole : TsPacket → Type 0
IsWhole p = IsPacket p.data'

pub record IsValid (h : PacketHandler) : Type 0 where
  pub audio_whole : All IsWhole h.out_buff_a.inner
  pub video_whole : All IsWhole h.out_buff_v.inner
  pub pat_whole : IsPacket h.pat
  pub pmt_whole : IsPacket h.pmt
  pub sdt_whole : IsPacket h.sdt
  pub program : Program
  pub first_program : get_program h ≡ ret program

-- A taken packet, if there is one, is whole.
abbrev pub WholeIfAny : Option TsPacket → Type 0
WholeIfAny none = Unit {0}
WholeIfAny (some p) = IsWhole p

abbrev pub TakesValid : PacketHandler × Option TsPacket → Type 0
TakesValid (h, taken) = IsValid h × WholeIfAny taken

pop_front-All :
    (ps : List TsPacket) (u c : ℕ)
    → All IsWhole ps
    → let b : OutBuffer = record { inner = ps; unique_frames_count = u; pcr_count = c } in
      All IsWhole (Buffer.pop_front b).0.inner × WholeIfAny (Buffer.pop_front b).1
unfolding Buffer.pop_front Buffer.popped
pop_front-All [] u c h = (tt, tt)
pop_front-All (p ∷ ps) u c h = (h.1, h.0)

pop_a-IsValid : (h : PacketHandler) → IsValid h → TakesValid (pop_a h)
unfolding pop_a get_program
pop_a-IsValid h v =
    let (rest, taken) =
      pop_front-All h.out_buff_a.inner h.out_buff_a.unique_frames_count h.out_buff_a.pcr_count
        v.audio_whole in
    (
      record {
        audio_whole = rest;
        video_whole = v.video_whole;
        pat_whole = v.pat_whole;
        pmt_whole = v.pmt_whole;
        sdt_whole = v.sdt_whole;
        program = v.program;
        first_program = v.first_program;
      },
      taken,
    )

pop_v-IsValid : (h : PacketHandler) → IsValid h → TakesValid (pop_v h)
unfolding pop_v get_program
pop_v-IsValid h v =
    let (rest, taken) =
      pop_front-All h.out_buff_v.inner h.out_buff_v.unique_frames_count h.out_buff_v.pcr_count
        v.video_whole in
    (
      record {
        audio_whole = v.audio_whole;
        video_whole = rest;
        pat_whole = v.pat_whole;
        pmt_whole = v.pmt_whole;
        sdt_whole = v.sdt_whole;
        program = v.program;
        first_program = v.first_program;
      },
      taken,
    )

pub takes_if :
    (b : Bool) (x y : PacketHandler × Option TsPacket)
    → TakesValid x
    → TakesValid y
    → TakesValid (if b then x else y)
takes_if true x y f g = f
takes_if false x y f g = g

module _ (h : PacketHandler) (v : IsValid h) where
  choose-IsValid : (a w : Option TsPacket) → TakesValid (choose a w h)
  unfolding choose
  choose-IsValid (some a) (some w) =
      takes_if (dts_after a.dts w.dts) (pop_v h) (pop_a h) (pop_v-IsValid h v) (pop_a-IsValid h v)
  choose-IsValid (some a) none = pop_a-IsValid h v
  choose-IsValid none (some w) = pop_v-IsValid h v
  choose-IsValid none none = (v, tt)

  -- The front of one buffer is taken or not, on some test.
  or_nothing-IsValid :
      (b : Bool) (x : PacketHandler × Option TsPacket)
      → TakesValid x
      → TakesValid (if b then x else (h, none))
  or_nothing-IsValid b x t = takes_if b x (h, none) t (v, tt)

  choose_ready-IsValid : (a w : Option TsPacket) → TakesValid (choose_ready a w h)
  unfolding choose_ready
  choose_ready-IsValid (some a) (some w) =
      takes_if (dts_after a.dts w.dts && (ready_send h w.dts || w.discontinuity)) (pop_v h)
        (if ready_send h a.dts || a.discontinuity then pop_a h else (h, none)) (pop_v-IsValid h v)
        (or_nothing-IsValid (ready_send h a.dts || a.discontinuity) (pop_a h) (pop_a-IsValid h v))
  choose_ready-IsValid (some a) none =
      or_nothing-IsValid (ready_send h a.dts || a.discontinuity) (pop_a h) (pop_a-IsValid h v)
  choose_ready-IsValid none (some w) =
      or_nothing-IsValid (ready_send h w.dts || w.discontinuity) (pop_v h) (pop_v-IsValid h v)
  choose_ready-IsValid none none = (v, tt)

  choose_drain-IsValid : (a w : Option TsPacket) → TakesValid (choose_drain a w h)
  unfolding choose_drain
  choose_drain-IsValid (some a) (some w) =
      takes_if (dts_after a.dts w.dts && drain_send h w.dts) (pop_v h)
        (if drain_send h a.dts then pop_a h else (h, none)) (pop_v-IsValid h v)
        (or_nothing-IsValid (drain_send h a.dts) (pop_a h) (pop_a-IsValid h v))
  choose_drain-IsValid (some a) none =
      or_nothing-IsValid (drain_send h a.dts) (pop_a h) (pop_a-IsValid h v)
  choose_drain-IsValid none (some w) =
      or_nothing-IsValid (drain_send h w.dts) (pop_v h) (pop_v-IsValid h v)
  choose_drain-IsValid none none = (v, tt)

  pub get_a_or_v-IsValid : TakesValid (get_a_or_v h)
  unfolding get_a_or_v
  get_a_or_v-IsValid = choose-IsValid (Buffer.front h.out_buff_a) (Buffer.front h.out_buff_v)

  pub get_a_or_v_ready-IsValid : TakesValid (get_a_or_v_ready h)
  unfolding get_a_or_v_ready
  get_a_or_v_ready-IsValid =
      choose_ready-IsValid (Buffer.front h.out_buff_a) (Buffer.front h.out_buff_v)

  pub get_a_or_v_drain-IsValid : TakesValid (get_a_or_v_drain h)
  unfolding get_a_or_v_drain
  get_a_or_v_drain-IsValid =
      choose_drain-IsValid (Buffer.front h.out_buff_a) (Buffer.front h.out_buff_v)

-- What a step sends: a whole packet, from a handler that stays fit.
abbrev pub SendsValid : PacketHandler × List ℕ → Type 0
SendsValid (h, sent) = IsValid h × IsPacket sent

-- The restamper is no part of what makes a handler fit.
pub restamper-IsValid :
    (h : PacketHandler) (r : PcrRestamper)
    → IsValid h
    → IsValid (record h { pcr_restamper = some r })
unfolding get_program
restamper-IsValid h r v = record {
  audio_whole = v.audio_whole;
  video_whole = v.video_whole;
  pat_whole = v.pat_whole;
  pmt_whole = v.pmt_whole;
  sdt_whole = v.sdt_whole;
  program = v.program;
  first_program = v.first_program;
}

restamper_whole :
    (r : PcrRestamper) (p : List ℕ)
    → IsPacket p
    → Returns
        (λ (s : PcrRestamper × List ℕ × Option ℕ). IsPacket s.1)
        (Restamper.process_packet r p)
restamper_whole r p v = elim (pkt_is_pcr_present-total p v) [
  | inr e ↦ rw (process_packet-passes r p false e (inl refl)) (returns v)
  | inl e ↦ elim (Option-cases (get_pcr r)) [
    | inl n ↦ rw (process_packet-passes r p true e (inr n)) (returns v)
    | inr (c, f) ↦
        let (r', q, g, s) = process_packet-Stamped r p c v e f in rw g (returns s.packet.packet)
  ]
]

restamp-IsValid :
    (h : PacketHandler) (pid : ℕ) (p : List ℕ)
    → IsValid h
    → IsPacket p
    → Returns SendsValid (restamp h pid p)
unfolding restamp
restamp-IsValid h pid p v w =
    Returns-eq_ret _ v.first_program (
      Returns-if (not (pid == v.program.pcr_pid)) (λ _. returns (v, w))
        (λ _. stamp h.pcr_restamper))
  where
    stamp :
        (o : Option PcrRestamper)
        → Returns SendsValid (elim o [
          | none ↦ ret (h, p)
          | some r ↦ do
            (r', data'', new_pcr) ← Restamper.process_packet r p
            ret (record h { pcr_restamper = some r' }, data'')
        ])
    stamp none = returns (v, w)
    stamp (some r) =
        Returns-bind (restamper_whole r p w) (λ s k. returns (restamper-IsValid h s.0 v, k))

resync-IsValid : (h : PacketHandler) (dts : ℕ) → IsValid h → IsValid (resync h dts)
unfolding resync
resync-IsValid h dts v = elim (Option-cases h.pcr_restamper) [
  | inl e ↦ rw (e, resync) v
  | inr (r, e) ↦ rw (e, resync) (restamper-IsValid h _ v)
]

-- On a handler with whole packets in its buffers and tables and a program, `process_packet` of a
-- whole packet does not panic, sends 188 bytes and leaves such a handler, whatever it stamps or flags.
pub process_packet-IsValid :
    (h : PacketHandler) (p : TsPacket)
    → IsValid h
    → IsWhole p
    → Returns SendsValid (process_packet h p)
unfolding process_packet
process_packet-IsValid h p v w =
    let (q, done, e, whole, _, _) = pkt_set_discontinuity_lem p.data' w in
    Returns-if (not (p.discontinuity || not (drift_in_range (dts_drift h p.dts))))
      (λ _. restamp-IsValid h p.pid p.data' v w)
      (λ _.
        Returns-eq_ret _ e
          (restamp-IsValid (resync h p.dts) p.pid q (resync-IsValid h p.dts v) whole))
