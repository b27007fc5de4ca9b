-- ===== src/Mux/Buffer/Counts.antt =====
-- The counts of an `OutBuffer` are those of the packets that it holds, and it is a queue of them.
use mymuxer.Base.{ℕ, ◌+◌, ◌≡◌, refl, arith, List, [], ◌∷◌, ◌++◌, Option, none, some, if◌then◌else◌}
use mymuxer.Mux.Buffer.{TsPacket, OutBuffer, new, clear, is_some, push_back, popped, pop_front}

-- How many packets start a frame, and how many carry a clock.
unfoldable pub frames : List TsPacket → ℕ
frames [] = 0
frames (p ∷ ps) = (if p.pusi then 1 else 0) + frames ps

unfoldable pub clocks : List TsPacket → ℕ
clocks [] = 0
clocks (p ∷ ps) = (if is_some p.pcr then 1 else 0) + clocks ps

frames-append : (ps qs : List TsPacket) → frames (ps ++ qs) ≡ frames ps + frames qs
unfolding frames
frames-append [] qs = omega arith
frames-append (p ∷ ps) qs = omega (arith, frames-append ps qs)

clocks-append : (ps qs : List TsPacket) → clocks (ps ++ qs) ≡ clocks ps + clocks qs
unfolding clocks
clocks-append [] qs = omega arith
clocks-append (p ∷ ps) qs = omega (arith, clocks-append ps qs)

pub record IsCounted (b : OutBuffer) : Type 0 where
  pub frames_counted : b.unique_frames_count ≡ frames b.inner
  pub clocks_counted : b.pcr_count ≡ clocks b.inner

-- A new buffer and a cleared one are counted.
pub new-IsCounted : (b : OutBuffer) → IsCounted new × IsCounted (clear b)
unfolding new clear frames clocks
new-IsCounted b = (
  record { frames_counted = refl; clocks_counted = refl },
  record { frames_counted = refl; clocks_counted = refl },
)

-- Where the counts of a buffer are exact, `push_back` puts the packet at the end and they stay so.
pub push_back-IsCounted :
    (b : OutBuffer) (p : TsPacket)
    → IsCounted b
    → IsCounted (push_back b p) × ((push_back b p).inner ≡ b.inner ++ (p ∷ []))
unfolding push_back frames clocks
push_back-IsCounted b p v = (
  record {
    frames_counted = ground (arith, v.frames_counted, frames-append b.inner (p ∷ []));
    clocks_counted = ground (arith, v.clocks_counted, clocks-append b.inner (p ∷ []));
  },
  refl,
)

-- What `pop_front` takes from a queue of packets.
abbrev pub Popped : List TsPacket → Option TsPacket → List TsPacket → Type 0
Popped ps none rest = (ps ≡ []) × (rest ≡ [])
Popped ps (some p) rest = ps ≡ p ∷ rest

pop_parts :
    (ps : List TsPacket) (u c : ℕ)
    → u ≡ frames ps
    → c ≡ clocks ps
    → let b : OutBuffer = record { inner = ps; unique_frames_count = u; pcr_count = c } in
      IsCounted (pop_front b).0 × Popped ps (pop_front b).1 (pop_front b).0.inner
unfolding pop_front popped frames clocks
pop_parts [] u c e f = (record { frames_counted = e; clocks_counted = f }, (refl, refl))
pop_parts (p ∷ ps) u c e f =
    (record { frames_counted = ground arith; clocks_counted = ground arith }, refl)

-- Where the counts of a buffer are exact, `pop_front` takes the oldest packet, if there is one, and
-- the counts stay exact.
pub pop_front-IsCounted :
    (b : OutBuffer)
    → IsCounted b
    → IsCounted (pop_front b).0 × Popped b.inner (pop_front b).1 (pop_front b).0.inner
pop_front-IsCounted b v =
    pop_parts b.inner b.unique_frames_count b.pcr_count v.frames_counted v.clocks_counted
