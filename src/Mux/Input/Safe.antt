-- ===== src/Mux/Input/Safe.antt =====
-- Whatever bytes arrive, the input side stays fit.
use mymuxer.Base.{
  ℕ, ◌+◌, ◌*◌, ◌%◌, ◌≤◌, ◌≡◌, refl, ◌∙◌, arith, List, ◌++◌, Bool, true, false, not, ◌&&◌, ◌||◌,
  Option, none, some, ◌==◌, ltb, ltb_false→le, Returns-option, if◌then◌else◌, length, get_or, set,
  take, drop, All, bit_and, take-All, drop-All, All-append, set-All, get_or-All, length-take,
  length-drop, length-set, length-append, ret, ◌>>=◌, Keeps, kept, Keeps-if, Keeps-bind,
  Keeps-Returns, Returns, returns, Returns-if, Returns-bind,
}
use mathlib.Core.Path.{subst}
use mymuxer.Base.Bits.{bit_and_low}
use mymuxer.Packet.{IsByte, IsPacket, ts_packet_size, pkt_pid, pkt_scrambling_control}
use mymuxer.Packet.Total.{pkt_scrambling_control-Returns}
use mymuxer.Packet.Fields.{pkt_pid_lem}
use mymuxer.Biss.{payload_offset, descramble_ts_packet}
use mymuxer.Mux.Handler.{Program, get_program, is_dirty}
use mymuxer.Mux.Input.{Env, InputHandler, elem}
use mymuxer.Mux.Input.Receive.{dispatch, clear_packet, process_one}
use mymuxer.Mux.Input.Fit.{IsFit, same-OutFit}
use mymuxer.Mux.Input.MediaFit.{process_media-IsFit}
use mymuxer.Mux.Input.TablesFit.{process_pat-IsFit, process_pmt-IsFit, process_sdt-IsFit}

-- The cipher maps payloads to payloads of the same length.
abbrev pub IsCipher : (List ℕ → List ℕ → List ℕ) → Type 0
IsCipher decrypt =
    (key xs : List ℕ)
    → All IsByte xs
    → All IsByte (decrypt key xs) × (length (decrypt key xs) ≡ length xs)

low_byte : (b : ℕ) → IsByte b → IsByte (bit_and b 0x3F)
low_byte b h = omega (arith, bit_and_low 6 b)

-- A test between two packets, each of them with a flag.
if-IsPacket :
    (b : Bool) (x y : List ℕ × Bool)
    → IsPacket (x.0)
    → (b ≡ false → IsPacket (y.0))
    → IsPacket ((if b then x else y).0)
if-IsPacket true x y h k = h
if-IsPacket false x y h k = k refl

set-IsPacket : (p : List ℕ) (v : ℕ) → IsPacket p → IsByte v → IsPacket (set p 3 v)
set-IsPacket p v h k = record {
  size = length-set p 3 v ∙ h.size;
  bytes = set-All IsByte p 3 v h.bytes k;
}

decrypted-IsPacket :
    (decrypt : List ℕ → List ℕ → List ℕ) (key p : List ℕ) (offset : ℕ)
    → IsCipher decrypt
    → IsPacket p
    → offset ≤ ts_packet_size
    → IsPacket (take offset p ++ decrypt key (drop offset p))
decrypted-IsPacket decrypt key p offset c v h =
    let (bytes, size) = c key (drop offset p) (drop-All IsByte offset p v.bytes) in
    let l1 = length-append (take offset p) (decrypt key (drop offset p)) in
    let l2 = length-take offset p in
    let l3 = length-drop offset p in
    let l4 = v.size in
    record {
      size = omega arith;
      bytes =
          All-append IsByte (take offset p) (decrypt key (drop offset p))
            (take-All IsByte offset p v.bytes) bytes;
    }

descramble_ts_packet-IsPacket :
    (decrypt : List ℕ → List ℕ → List ℕ) (key p : List ℕ)
    → IsCipher decrypt
    → IsPacket p
    → IsPacket ((descramble_ts_packet decrypt key key p).0)
unfolding descramble_ts_packet
descramble_ts_packet-IsPacket decrypt key p c v =
    let offset : ℕ = payload_offset p in
    let b3 : ℕ = get_or p 3 0 in
    let b = low_byte b3 (get_or-All IsByte p 3 0 v.bytes (omega (arith, v.size))) in
    if-IsPacket (not (get_or p 0 0 == 0x47)) _ _ v λ _.
      if-IsPacket (bit_and b3 0xC0 == 0 || bit_and b3 0xC0 == 0x40) _ _ v λ _.
        if-IsPacket (ltb ts_packet_size (offset + 8)) _ _ (set-IsPacket p (bit_and b3 0x3F) v b)
          λ few.
            let key' : List ℕ = if bit_and b3 0xC0 == 0x80 then key else key in
            set-IsPacket (take offset p ++ decrypt key' (drop offset p)) (bit_and b3 0x3F)
              (decrypted-IsPacket decrypt key' p offset c v (omega (arith, ltb_false→le _ _ few))) b

module _ (env : Env) (cipher : IsCipher env.decrypt) where
  -- What is left of a packet in the clear.
  Clear : InputHandler × Option (List ℕ) → Type 0
  Clear (h, clear) = IsFit h × ((p : List ℕ) → clear ≡ some p → IsPacket p)

  clear_packet-Clear :
      (h : InputHandler) (is_media : Bool) (p : List ℕ)
      → IsFit h
      → IsPacket p
      → Returns Clear (clear_packet env h is_media p)
  unfolding clear_packet Clear
  clear_packet-Clear h is_media p f v = Returns-option h.biss _ _ there λ key.
      Returns-if is_media
        (λ _. returns (
          f,
          λ q e.
              let g : (descramble_ts_packet env.decrypt key key p).0 ≡ q = cc in
              subst IsPacket g (descramble_ts_packet-IsPacket env.decrypt key p cipher v),
        ))
        (λ _. there)
    where
      marked : (b : Bool) → IsFit (record h { out = record h.out { dirty_ca = b } })
      marked b = record {
        out_fit = same-OutFit h.out (record h.out { dirty_ca = b }) refl refl refl f.out_fit;
        remembered = f.remembered;
        received = f.received;
      }

      there : Returns Clear (do
        ca ← pkt_scrambling_control p
        if not (ca == 0)
            then ret (record h { out = record h.out { dirty_ca = true } }, none)
            else ret (record h { out = record h.out { dirty_ca = false } }, some p))
      there = Returns-bind (pkt_scrambling_control-Returns p v) λ ca _.
          Returns-if (not (ca == 0)) (λ _. returns (marked true, λ q e. cc))
            λ _. returns (marked false, λ q e. let g : p ≡ q = cc in subst IsPacket g v)

  dispatch-IsFit :
      (h : InputHandler) (program : Program) (pid : ℕ) (p : List ℕ)
      → IsFit h
      → IsPacket p
      → Keeps IsFit (dispatch env h program pid p)
  unfolding dispatch
  dispatch-IsFit h program pid p f v =
      Keeps-if (pid == 0x1FFF) (λ _. kept f)
        λ _.
          Keeps-if (pid == 0x0000)
            (λ _.
              Keeps-if (not h.out.pat_ready || not h.out.is_ready)
                (λ _. process_pat-IsFit env h p f) (λ _. kept f))
            λ _.
              Keeps-if ((pid == program.pmt_pid) && (not h.out.pmt_ready || not h.out.is_ready))
                (λ _. process_pmt-IsFit env h p f)
                λ _.
                  Keeps-if (is_dirty h.out) (λ _. kept f)
                    λ _.
                      Keeps-if (pid == 0x0011)
                        (λ _.
                          Keeps-if (h.out.pat_ready && not h.out.sdt_ready)
                            (λ _. process_sdt-IsFit env h p f) (λ _. kept f))
                        λ _.
                          Keeps-if (elem pid program.audio_pids || elem pid program.video_pids)
                            (λ _. Keeps-Returns (process_media-IsFit h program pid p f v))
                            (λ _. kept f)

  -- A packet of a table's PID may hold a section that stops the code.
  dispatch-Returns :
      (h : InputHandler) (program : Program) (pid : ℕ) (p : List ℕ)
      → IsFit h
      → IsPacket p
      → (pid == 0x0000) ≡ false
      → (pid == program.pmt_pid) ≡ false
      → (pid == 0x0011) ≡ false
      → Returns IsFit (dispatch env h program pid p)
  unfolding dispatch
  dispatch-Returns h program pid p f v pat pmt sdt =
      rw (pat, pmt, sdt)
        (Returns-if (pid == 0x1FFF) (λ _. returns f)
          λ _.
            Returns-if (is_dirty h.out) (λ _. returns f)
              λ _.
                Returns-if (elem pid program.audio_pids || elem pid program.video_pids)
                  (λ _. process_media-IsFit h program pid p f v) (λ _. returns f))

  -- What a handler and its program keep between packets.
  pub process_one-IsFit :
      (h : InputHandler) (p : List ℕ) → IsFit h → IsPacket p → Keeps IsFit (process_one env h p)
  unfolding process_one Clear
  process_one-IsFit h p f v =
      rw (pkt_pid_lem p (omega (arith, v.size)) v.bytes, f.out_fit.first_program)
        (Keeps-bind (Keeps-Returns (clear_packet-Clear h _ p f v)) λ s c. here s.0 s.1 c)
    where
      pid : ℕ
      pid = get_or p 1 0 % 32 * 256 + get_or p 2 0

      here :
          (h' : InputHandler) (clear : Option (List ℕ))
          → Clear (h', clear)
          → Keeps IsFit (elim clear [
            | none ↦ ret h'
            | some pkt_data ↦ dispatch env h' f.out_fit.program pid pkt_data
          ])
      here h' none c = kept (c.0)
      here h' (some q) c = dispatch-IsFit h' f.out_fit.program pid q (c.0) (c.1 q refl)

  -- On a fit input side and with a cipher that maps bytes to as many bytes, `process_one` handles a
  -- packet of 188 bytes without a panic, and leaves the input side fit, if the PID of the packet is
  -- none of 0 (PAT), 0x11 (SDT) and the PID of the program's PMT.
  pub process_one-Returns :
      (h : InputHandler) (program : Program) (p : List ℕ) (pid : ℕ)
      → IsFit h
      → IsPacket p
      → get_program h.out ≡ ret program
      → pkt_pid p ≡ ret pid
      → (pid == 0x0000) ≡ false
      → (pid == program.pmt_pid) ≡ false
      → (pid == 0x0011) ≡ false
      → Returns IsFit (process_one env h p)
  unfolding process_one Clear
  process_one-Returns h program p pid f v first e pat pmt sdt =
      rw (e, first) (Returns-bind (clear_packet-Clear h _ p f v) λ s c. here s.0 s.1 c)
    where
      here :
          (h' : InputHandler) (clear : Option (List ℕ))
          → Clear (h', clear)
          → Returns IsFit
              (elim clear [ none ↦ ret h' | some pkt_data ↦ dispatch env h' program pid pkt_data ])
      here h' none c = returns (c.0)
      here h' (some q) c = dispatch-Returns h' program pid q (c.0) (c.1 q refl) pat pmt sdt
