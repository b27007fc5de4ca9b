-- ===== src/Mux/Output/Tables.antt =====
-- src/mux.rs: `flush_psi_packets` sends one table or none, and keeps the handler fit.
use mymuxer.Base.{
  ℕ, ◌+◌, ◌*◌, ◌≤◌, ◌≡◌, refl, arith, List, [], Bool, false, not, ◌||◌, length, length-append, ltb,
  Returns, returns, Returns-if, Returns-bind, Returns-eq_ret, Returns-option,
}
use mymuxer.Packet.Fields.{pkt_next_lem}
use mymuxer.Mux.Handler.{PacketHandler, get_program, current_pcr}
use mymuxer.Mux.Handler.Valid.{IsValid}
use mymuxer.Mux.Output.{is_due, flush_pat, flush_pmt, flush_sdt, flush_psi_packets}

-- A step of the tables after `k` packets: a fit handler, and a byte count that goes with the count
-- of packets, which is at most one.
abbrev pub Flushed : PacketHandler × List ℕ × ℕ → Type 0
Flushed (h, out, n) = IsValid h × (length out ≡ n * 188) × (n ≤ 1)

-- Counters and timers are no part of what makes a handler fit.
abbrev pub SameParts : PacketHandler → PacketHandler → Type 0
SameParts h g =
    (g.out_buff_a ≡ h.out_buff_a)
    × (g.out_buff_v ≡ h.out_buff_v)
    × (g.pat ≡ h.pat)
    × (g.pmt ≡ h.pmt)
    × (g.sdt ≡ h.sdt)
    × (g.programs ≡ h.programs)

pub SameParts-IsValid : (h g : PacketHandler) → SameParts h g → IsValid h → IsValid g
unfolding get_program
SameParts-IsValid h g (a, w, pat, pmt, sdt, programs) v = record {
  audio_whole = rw a v.audio_whole;
  video_whole = rw w v.video_whole;
  pat_whole = rw pat v.pat_whole;
  pmt_whole = rw pmt v.pmt_whole;
  sdt_whole = rw sdt v.sdt_whole;
  program = v.program;
  first_program = rw (programs, get_program) v.first_program;
}

pub flush_pat-Flushed : (h : PacketHandler) → IsValid h → Returns Flushed (flush_pat h [] 0)
unfolding flush_pat get_program
flush_pat-Flushed h v =
    Returns-if (not h.pat_ready) (λ _. returns (v, refl, omega arith))
      λ _. Returns-option (current_pcr h) _ _ (returns (v, refl, omega arith)) λ pcr.
        Returns-if (not (is_due pcr h.insert_pat 100)) (λ _. returns (v, refl, omega arith))
          λ _.
            let (q, e, w, _, _, _, _) = pkt_next_lem h.pat v.pat_whole in
            Returns-eq_ret _ e (
              returns (
                record {
                  audio_whole = v.audio_whole;
                  video_whole = v.video_whole;
                  pat_whole = w;
                  pmt_whole = v.pmt_whole;
                  sdt_whole = v.sdt_whole;
                  program = v.program;
                  first_program = v.first_program;
                },
                w.size,
                omega arith,
              ))

pub none_yet : (b : Bool) (n : ℕ) → (not b || not (ltb n 1)) ≡ false → n + 1 ≤ 1
none_yet b n h = ground arith

pub flush_pmt-Flushed :
    (h : PacketHandler) (out : List ℕ) (n : ℕ)
    → Flushed (h, out, n)
    → Returns Flushed (flush_pmt h out n)
unfolding flush_pmt get_program
flush_pmt-Flushed h out n (v, size, few) =
    Returns-if (not h.pmt_ready || not (ltb n 1)) (λ _. returns (v, size, few))
      λ waits. Returns-option (current_pcr h) _ _ (returns (v, size, few)) λ pcr.
        Returns-if (not (is_due pcr h.insert_pmt 100)) (λ _. returns (v, size, few))
          λ _.
            let (q, e, w, _, _, _, _) = pkt_next_lem h.pmt v.pmt_whole in
            Returns-eq_ret _ e (
              returns (
                record {
                  audio_whole = v.audio_whole;
                  video_whole = v.video_whole;
                  pat_whole = v.pat_whole;
                  pmt_whole = w;
                  sdt_whole = v.sdt_whole;
                  program = v.program;
                  first_program = v.first_program;
                },
                omega (arith, size, length-append out q, w.size),
                none_yet h.pmt_ready n waits,
              ))

pub flush_sdt-Flushed :
    (h : PacketHandler) (out : List ℕ) (n : ℕ)
    → Flushed (h, out, n)
    → Returns Flushed (flush_sdt h out n)
unfolding flush_sdt get_program
flush_sdt-Flushed h out n (v, size, few) =
    Returns-if (not h.sdt_ready || not (ltb n 1)) (λ _. returns (v, size, few))
      λ waits. Returns-option (current_pcr h) _ _ (returns (v, size, few)) λ pcr.
        Returns-if (not (is_due pcr h.insert_sdt 1_000)) (λ _. returns (v, size, few))
          λ _.
            let (q, e, w, _, _, _, _) = pkt_next_lem h.sdt v.sdt_whole in
            Returns-eq_ret _ e (
              returns (
                record {
                  audio_whole = v.audio_whole;
                  video_whole = v.video_whole;
                  pat_whole = v.pat_whole;
                  pmt_whole = v.pmt_whole;
                  sdt_whole = w;
                  program = v.program;
                  first_program = v.first_program;
                },
                omega (arith, size, length-append out q, w.size),
                none_yet h.sdt_ready n waits,
              ))

-- The tables add whole packets, at most one in each call.
pub flush_psi_packets-Flushed :
    (h : PacketHandler) → IsValid h → Returns Flushed (flush_psi_packets h [])
unfolding flush_psi_packets
flush_psi_packets-Flushed h v = Returns-bind (flush_pat-Flushed h v) λ (h1, out1, n1) f1.
    Returns-bind (flush_pmt-Flushed h1 out1 n1 f1)
      λ (h2, out2, n2) f2. flush_sdt-Flushed h2 out2 n2 f2
