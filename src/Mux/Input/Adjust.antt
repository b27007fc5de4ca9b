-- ===== src/Mux/Input/Adjust.antt =====
-- `buffer_adjust` ends, and leaves video that lasts as long as it should at most.
use mymuxer.Base.{
  ℕ, zero, suc, ◌+◌, ◌≤◌, ◌<◌, ◌≡◌, refl, ◌∙◌, arith, List, [], ◌∷◌, Bool, true, false, Option,
  none, some, ltb, if◌then◌else◌, length, All, Bool-cases, inl, inr, ltb→lt, ltb_false→le,
}
use mymuxer.Mux.Timing.{dts_after, dts_forward_delta_ms}
use mymuxer.Mux.Timing.Order.{diff_lem}
use mymuxer.Mux.Buffer
use mymuxer.Mux.Buffer.{TsPacket, OutBuffer}
use mymuxer.Mux.Buffer.Counts.{pop_front-IsCounted}
use mymuxer.Mux.Handler.{PacketHandler, pop_a, pop_v, choose, get_a_or_v, get_program}
use mymuxer.Mux.Handler.Valid.{IsWhole}
use mymuxer.Mux.Input.Ready.{adjust_loop, buffer_adjust}
use mymuxer.Mux.Input.Fit.{OutFit, BufferFit, HasStamp}

-- A buffer without its first packet.
pop-BufferFit : (b : OutBuffer) → BufferFit b → BufferFit (Buffer.pop_front b).0
unfolding Buffer.pop_front Buffer.popped
pop-BufferFit b f = record {
  whole = tail IsWhole b.inner b.unique_frames_count b.pcr_count f.whole;
  stamped = tail HasStamp b.inner b.unique_frames_count b.pcr_count f.stamped;
  counted = (pop_front-IsCounted b f.counted).0;
}
  where
    tail :
        (P : TsPacket → Type 0) (ps : List TsPacket) (u c : ℕ)
        → All P ps
        → All P
            (Buffer.pop_front
              (record { inner = ps; unique_frames_count = u; pcr_count = c })).0.inner
    tail P [] u c h = tt
    tail P (p ∷ ps) u c h = h.1

-- Video that lasts for some time has two packets or more.
duration-two :
    (b : OutBuffer)
    → BufferFit b
    → 0 < Buffer.duration_ms b
    → (p q : TsPacket) × (rest : List TsPacket) × (b.inner ≡ p ∷ q ∷ rest)
unfolding Buffer.duration_ms dts_forward_delta_ms
duration-two b f h = two b.inner b.unique_frames_count b.pcr_count f.stamped h
  where
    two :
        (ps : List TsPacket) (u c : ℕ)
        → All HasStamp ps
        → 0 < Buffer.duration_ms (record { inner = ps; unique_frames_count = u; pcr_count = c })
        → (p q : TsPacket) × (rest : List TsPacket) × (ps ≡ p ∷ q ∷ rest)
    two [] u c s h = elim h [ ]
    two (p ∷ []) u c s h = absurd (ground (arith, diff_lem p.dts p.dts s.0 s.0))
    two (p ∷ q ∷ rest) u c s h = (p, q, rest, refl)

length-pop :
    (b : OutBuffer) (p : TsPacket)
    → Buffer.front b ≡ some p
    → length (Buffer.pop_front b).0.inner + 1 ≡ length b.inner
unfolding Buffer.front Buffer.pop_front Buffer.popped
length-pop b p e = shorter b.inner b.unique_frames_count b.pcr_count p e
  where
    shorter :
        (ps : List TsPacket) (u c : ℕ) (p : TsPacket)
        → Buffer.front (record { inner = ps; unique_frames_count = u; pcr_count = c }) ≡ some p
        → length
              (Buffer.pop_front
                (record { inner = ps; unique_frames_count = u; pcr_count = c })).0.inner
            + 1
          ≡ length ps
    shorter [] u c p e = cc
    shorter (q ∷ ps) u c p e = omega arith

front_of :
    (b : OutBuffer) (p : TsPacket) (rest : List TsPacket)
    → b.inner ≡ p ∷ rest
    → Buffer.front b ≡ some p
unfolding Buffer.front
front_of b p rest e = rw e refl

-- One packet leaves, and nothing else changes.
pub record Shrinks (h g : PacketHandler) : Type 0 where
  pub fit : OutFit g
  pub one_less :
      length g.out_buff_a.inner + length g.out_buff_v.inner + 1
      ≡ length h.out_buff_a.inner + length h.out_buff_v.inner
  pub video_left : 2 ≤ length h.out_buff_v.inner → 1 ≤ length g.out_buff_v.inner
  pub same_clock : g.pcr_restamper ≡ h.pcr_restamper
  pub same_limit : g.buffer_duration_ms ≡ h.buffer_duration_ms

pop_a-Shrinks :
    (h : PacketHandler) (p : TsPacket)
    → OutFit h
    → Buffer.front h.out_buff_a ≡ some p
    → Shrinks h (pop_a h).0
unfolding pop_a get_program
pop_a-Shrinks h p f e = record {
  fit = record {
    audio = pop-BufferFit h.out_buff_a f.audio;
    video = f.video;
    program = f.program;
    first_program = f.first_program;
  };
  one_less = omega (arith, length-pop h.out_buff_a p e);
  video_left = λ some_left. omega arith;
  same_clock = refl;
  same_limit = refl;
}

pop_v-Shrinks :
    (h : PacketHandler) (p : TsPacket)
    → OutFit h
    → Buffer.front h.out_buff_v ≡ some p
    → Shrinks h (pop_v h).0
unfolding pop_v get_program
pop_v-Shrinks h p f e = record {
  fit = record {
    audio = f.audio;
    video = pop-BufferFit h.out_buff_v f.video;
    program = f.program;
    first_program = f.first_program;
  };
  one_less = omega (arith, length-pop h.out_buff_v p e);
  video_left = λ some_left. omega (arith, length-pop h.out_buff_v p e);
  same_clock = refl;
  same_limit = refl;
}

choose-Shrinks :
    (a : Option TsPacket) (w : TsPacket) (h : PacketHandler)
    → OutFit h
    → Buffer.front h.out_buff_a ≡ a
    → Buffer.front h.out_buff_v ≡ some w
    → Shrinks h (choose a (some w) h).0
unfolding choose
choose-Shrinks none w h f ea ew = pop_v-Shrinks h w f ew
choose-Shrinks (some a) w h f ea ew = either (dts_after a.dts w.dts)
  where
    either : (b : Bool) → Shrinks h (if b then pop_v h else pop_a h).0
    either true = pop_v-Shrinks h w f ew
    either false = pop_a-Shrinks h a f ea

get_a_or_v-Shrinks :
    (h : PacketHandler) (w : TsPacket)
    → OutFit h
    → Buffer.front h.out_buff_v ≡ some w
    → Shrinks h (get_a_or_v h).0
unfolding get_a_or_v
get_a_or_v-Shrinks h w f e = rw e (choose-Shrinks (Buffer.front h.out_buff_a) w h f refl e)

-- What `buffer_adjust` leaves.
pub record Adjusted (h g : PacketHandler) : Type 0 where
  pub fit : OutFit g
  pub within : Buffer.duration_ms g.out_buff_v ≤ h.buffer_duration_ms
  pub video_left : 1 ≤ length h.out_buff_v.inner → 1 ≤ length g.out_buff_v.inner
  pub same_clock : g.pcr_restamper ≡ h.pcr_restamper
  pub same_limit : g.buffer_duration_ms ≡ h.buffer_duration_ms

adjust_loop-Adjusted :
    (fuel : ℕ) (h : PacketHandler)
    → OutFit h
    → length h.out_buff_a.inner + length h.out_buff_v.inner < fuel
    → (g : PacketHandler) × (adjust_loop fuel h ≡ some g) × Adjusted h g
unfolding adjust_loop
adjust_loop-Adjusted zero h f enough = elim enough [ ]
adjust_loop-Adjusted (suc fuel) h f enough =
    elim (Bool-cases (ltb h.buffer_duration_ms (Buffer.duration_ms h.out_buff_v))) [
      | inr short ↦ (
        h,
        rw (short, adjust_loop) refl,
        record {
          fit = f;
          within = ltb_false→le _ _ short;
          video_left = λ k. k;
          same_clock = refl;
          same_limit = refl;
        },
      )
      | inl long ↦
          let (p, q, rest, e) =
            duration-two h.out_buff_v f.video (omega (arith, ltb→lt _ _ long)) in
          let s = get_a_or_v-Shrinks h p f (front_of h.out_buff_v p (q ∷ rest) e) in
          let (g, done, a) =
            adjust_loop-Adjusted fuel ((get_a_or_v h).0) s.fit (omega (arith, s.one_less)) in
          (
            g,
            rw (long, adjust_loop) done,
            record {
              fit = a.fit;
              within = rw s.same_limit at a.within;
              video_left = λ k. a.video_left (s.video_left (rw e (omega arith)));
              same_clock = a.same_clock ∙ s.same_clock;
              same_limit = a.same_limit ∙ s.same_limit;
            },
          )
    ]

-- On fit buffers `buffer_adjust` ends with video that lasts at most the configured duration, and
-- with some video if there was any; the clock stays, and so does what makes the buffers fit.
pub buffer_adjust-Adjusted :
    (h : PacketHandler) → OutFit h → (g : PacketHandler) × (buffer_adjust h ≡ some g) × Adjusted h g
unfolding buffer_adjust
buffer_adjust-Adjusted h f = adjust_loop-Adjusted _ h f (omega arith)
