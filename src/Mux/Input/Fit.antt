-- ===== src/Mux/Input/Fit.antt =====
-- What holds of the input side between two chunks: whole packets with time stamps of 33 bits wait in
-- counted buffers, and the handler has a program.
use mymuxer.Base.{
  ℕ, ◌^◌, ◌<◌, ◌≡◌, List, [], ◌∷◌, Bool, true, false, some, ◌==◌, if◌then◌else◌, All, All-append,
  ret,
}
use mymuxer.Packet.{IsByte}
use mymuxer.Mux.Buffer
use mymuxer.Mux.Buffer.{TsPacket, OutBuffer, push_back}
use mymuxer.Mux.Buffer.Counts.{IsCounted, new-IsCounted, push_back-IsCounted}
use mymuxer.Mux.Handler.{Program, PacketHandler, get_program}
use mymuxer.Mux.Handler.Valid.{IsWhole}
use mymuxer.Mux.Input.{InputHandler, lookup, put, buffers_clear}

abbrev pub HasStamp : TsPacket → Type 0
HasStamp p = p.dts < 2 ^ 33

pub record BufferFit (b : OutBuffer) : Type 0 where
  pub whole : All IsWhole b.inner
  pub stamped : All HasStamp b.inner
  pub counted : IsCounted b

pub record OutFit (h : PacketHandler) : Type 0 where
  pub audio : BufferFit h.out_buff_a
  pub video : BufferFit h.out_buff_v
  pub program : Program
  pub first_program : get_program h ≡ ret program

-- Time stamps remembered, of 33 bits.
abbrev pub StampFits : ℕ × (ℕ × ℕ) → Type 0
StampFits (pid, stamps) = stamps.1 < 2 ^ 33

pub record IsFit (h : InputHandler) : Type 0 where
  pub out_fit : OutFit h.out
  pub remembered : All StampFits h.last_pts_dts
  pub received : All IsByte h.in_buff

pub push_back-BufferFit :
    (b : OutBuffer) (p : TsPacket)
    → BufferFit b
    → IsWhole p
    → HasStamp p
    → BufferFit (push_back b p)
push_back-BufferFit b p v w s =
    let (counted, e) = push_back-IsCounted b p v.counted in
    record {
      whole = rw e (All-append IsWhole b.inner (p ∷ []) v.whole (w, tt));
      stamped = rw e (All-append HasStamp b.inner (p ∷ []) v.stamped (s, tt));
      counted = counted;
    }

clear-BufferFit : (b : OutBuffer) → BufferFit (Buffer.clear b)
unfolding Buffer.clear
clear-BufferFit b = record { whole = tt; stamped = tt; counted = (new-IsCounted b).1 }

-- Only the buffers and the programs matter.
pub same-OutFit :
    (h g : PacketHandler)
    → g.out_buff_a ≡ h.out_buff_a
    → g.out_buff_v ≡ h.out_buff_v
    → g.programs ≡ h.programs
    → OutFit h
    → OutFit g
unfolding get_program
same-OutFit h g a v p f = record {
  audio = rw a f.audio;
  video = rw v f.video;
  program = f.program;
  first_program = rw p f.first_program;
}

pub buffers_clear-IsFit : (h : InputHandler) → IsFit h → IsFit (buffers_clear h)
unfolding buffers_clear get_program
buffers_clear-IsFit h f = record {
  out_fit = record {
    audio = clear-BufferFit h.out.out_buff_a;
    video = clear-BufferFit h.out.out_buff_v;
    program = f.out_fit.program;
    first_program = f.out_fit.first_program;
  };
  remembered = tt;
  received = f.received;
}

-- A map keeps to a predicate when a pair of it is added, and what it gives satisfies it.
pub put-All {ℓ κ} :
    {A : Type ℓ} (P : ℕ × A → Type κ) (m : List (ℕ × A)) (key : ℕ) (a : A)
    → All P m
    → P (key, a)
    → All P (put m key a)
put-All P [] key a h k = (k, tt)
put-All P ((j, b) ∷ m) key a h k = here (j == key) (put-All P m key a h.1 k)
  where
    here :
        (c : Bool) → All P (put m key a) → All P (if c then (key, a) ∷ m else (j, b) ∷ put m key a)
    here true rest = (k, h.1)
    here false rest = (h.0, rest)

pub lookup-StampFits :
    (m : List (ℕ × (ℕ × ℕ))) (key : ℕ)
    → All StampFits m
    → (s : ℕ × ℕ) → lookup m key ≡ some s
    → s.1 < 2 ^ 33
lookup-StampFits [] key h s e = cc
lookup-StampFits ((k, a) ∷ m) key h s e = here (k == key) e (lookup-StampFits m key h.1 s)
  where
    here :
        (c : Bool)
        → (if c then some a else lookup m key) ≡ some s
        → (lookup m key ≡ some s → s.1 < 2 ^ 33)
        → s.1 < 2 ^ 33
    here true f rest = let g : a ≡ s = cc in rw g at h.0
    here false f rest = rest f
