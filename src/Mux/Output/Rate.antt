-- ===== src/Mux/Output/Rate.antt =====
-- src/mux.rs: `flush_packet_for_cbr` fills every slot of the packet that it sends.
use mymuxer.Base.{
  ℕ, zero, suc, ◌+◌, ◌-◌, ◌*◌, ◌/◌, ◌≤◌, ◌≡◌, refl, ◌∙◌, arith, List, ◌++◌, Bool, true, false, not,
  ◌||◌, Option, none, some, if◌then◌else◌, length, length-append, ltb, ◌==◌, ret, Returns, returns,
  Returns-eq, Returns-if, Returns-bind, Option-cases, inl, inr,
}
use mymuxer.Packet.{IsPacket, ts_null_packet}
use mymuxer.Mux.Buffer
use mymuxer.Mux.Buffer.{TsPacket}
use mymuxer.Mux.Handler.{
  PacketHandler, get_pkt_size, is_dirty, get_a_or_v, get_a_or_v_ready, get_a_or_v_drain,
  is_buffer_overflow, process_packet,
}
use mymuxer.Mux.Handler.Valid.{
  IsValid, TakesValid, SendsValid, takes_if, get_a_or_v-IsValid, get_a_or_v_ready-IsValid,
  get_a_or_v_drain-IsValid, restamper-IsValid, process_packet-IsValid,
}
use mymuxer.Mux.Output.{
  count_sent, is_starved, take_early, send_null, send_adjusted, cbr_slot, cbr_loop,
  flush_packet_for_cbr,
}
use mymuxer.Mux.Output.Tables.{SameParts-IsValid, flush_psi_packets-Flushed}

count_sent-IsValid : (h : PacketHandler) (n : ℕ) → IsValid h → IsValid (count_sent h n)
unfolding count_sent
count_sent-IsValid h n v = elim (Option-cases h.pcr_restamper) [
  | inl e ↦ rw (e, count_sent) v
  | inr (r, e) ↦ rw (e, count_sent) (restamper-IsValid h _ v)
]

null_IsPacket : IsPacket ts_null_packet
null_IsPacket = record { size = refl; bytes = omega arith }

module _ (min_limit max_limit : ℕ → ℕ → ℕ) where
  send_null-SendsValid :
      (h : PacketHandler) → IsValid h → Returns SendsValid (send_null min_limit max_limit h)
  unfolding send_null
  send_null-SendsValid h v =
      returns (SameParts-IsValid h _ (refl, refl, refl, refl, refl, refl) v, null_IsPacket)

  take_early-TakesValid :
      (h : PacketHandler) → IsValid h → TakesValid (take_early min_limit max_limit h)
  unfolding take_early
  take_early-TakesValid h v =
      takes_if (is_dirty h || (Buffer.is_dirty h.out_buff_v || is_buffer_overflow h 1))
        (get_a_or_v h)
        (if ltb (max_limit h.buffer_duration_ms h.adjust_buf) (Buffer.duration_ms h.out_buff_v)
          then get_a_or_v_drain h
          else (h, none))
        (get_a_or_v-IsValid h v)
        (takes_if
          (ltb (max_limit h.buffer_duration_ms h.adjust_buf) (Buffer.duration_ms h.out_buff_v))
          (get_a_or_v_drain h) (h, none) (get_a_or_v_drain-IsValid h v) (v, tt))

  -- A taken packet is sent, with one counter advanced.
  send_adjusted-SendsValid :
      (h : PacketHandler) → IsValid h → Returns SendsValid (send_adjusted min_limit max_limit h)
  unfolding send_adjusted
  send_adjusted-SendsValid h v =
      Returns-if (h.adjust_buf == 0) (λ _. send_null-SendsValid h v)
        λ _. sent (take_early min_limit max_limit h) (take_early-TakesValid h v)
    where
      sent :
          (t : PacketHandler × Option TsPacket)
          → TakesValid t
          → Returns SendsValid (elim t.1 [
            | none ↦ send_null min_limit max_limit t.0
            | some pkt ↦
                process_packet
                  (record (t.0) {
                    count_adjust_packets_payload = t.0.count_adjust_packets_payload + 1;
                  })
                  pkt
          ])
      sent (h', none) (w, _) = send_null-SendsValid h' w
      sent (h', some pkt) (w, whole) =
          process_packet-IsValid _ pkt
            (SameParts-IsValid h' _ (refl, refl, refl, refl, refl, refl) w) whole

  cbr_slot-SendsValid :
      (h : PacketHandler) → IsValid h → Returns SendsValid (cbr_slot min_limit max_limit h)
  unfolding cbr_slot
  cbr_slot-SendsValid h v =
      Returns-if (is_starved min_limit max_limit (count_sent h 1))
        (λ _. returns (
          SameParts-IsValid (count_sent h 1) _ (refl, refl, refl, refl, refl, refl)
              (count_sent-IsValid h 1 v),
          null_IsPacket,
        ))
        (λ _.
          sent (get_a_or_v_ready (count_sent h 1))
            (get_a_or_v_ready-IsValid (count_sent h 1) (count_sent-IsValid h 1 v)))
    where
      sent :
          (t : PacketHandler × Option TsPacket)
          → TakesValid t
          → Returns SendsValid (elim t.1 [
            | none ↦ send_adjusted min_limit max_limit t.0
            | some pkt ↦
                process_packet
                  (record (t.0) { count_payload_packets = t.0.count_payload_packets + 1 })
                  pkt
          ])
      sent (h', none) (w, _) = send_adjusted-SendsValid h' w
      sent (h', some pkt) (w, whole) =
          process_packet-IsValid _ pkt
            (SameParts-IsValid h' _ (refl, refl, refl, refl, refl, refl) w) whole

  -- So many slots add so many packets.
  abbrev Fills : ℕ → PacketHandler × List ℕ → Type 0
  Fills n (h, out) = IsValid h × (length out ≡ n)

  cbr_loop-Fills :
      (slots n : ℕ) (h : PacketHandler) (out : List ℕ)
      → IsValid h
      → length out ≡ n
      → Returns (Fills (n + slots * 188)) (cbr_loop min_limit max_limit slots h out)
  unfolding cbr_loop
  cbr_loop-Fills zero n h out v e = returns (v, omega (arith, e))
  cbr_loop-Fills (suc slots) n h out v e =
      Returns-bind (cbr_slot-SendsValid h v) λ (h', sent) (v', whole).
        let e' : n + suc slots * 188 ≡ n + 188 + slots * 188 = omega arith in
        rw e' (
          cbr_loop-Fills slots (n + 188) h' (out ++ sent) v'
            (omega (arith, e, length-append out sent, whole.size)))

  -- An answer with `n` bytes.
  abbrev Answers : ℕ → PacketHandler × Option (List ℕ) → Type 0
  Answers n (h, none) = ⊥
  Answers n (h, some out) = IsValid h × (length out ≡ n)

  fills :
      (h : PacketHandler)
      → IsValid h
      → is_dirty h ≡ false
      → h.is_ready ≡ true
      → 188 ≤ get_pkt_size h
      → Returns (Answers (get_pkt_size h / 188 * 188)) (flush_packet_for_cbr min_limit max_limit h)
  unfolding flush_packet_for_cbr
  fills h v clean ready room =
      Returns-if (is_dirty h || not h.is_ready) (λ stopped. absurd (never stopped))
        λ _. Returns-bind (flush_psi_packets-Flushed h v) λ (h1, out, n) (v1, size, few).
          let e : n * 188 + (get_pkt_size h / 188 - n) * 188 ≡ get_pkt_size h / 188 * 188 =
            omega (arith, few, room) in
          Returns-bind
            (cbr_loop-Fills (get_pkt_size h / 188 - n) (n * 188) _ out
              (SameParts-IsValid (if ltb 0 n then count_sent h1 n else h1) _
                (refl, refl, refl, refl, refl, refl) (counted h1 n v1))
              size)
            λ (h4, out') (v4, size'). returns (v4, size' ∙ e)
    where
      never : (is_dirty h || not h.is_ready) ≡ true → ⊥
      never stopped = ground arith

      counted :
          (h1 : PacketHandler) (n : ℕ)
          → IsValid h1
          → IsValid (if ltb 0 n then count_sent h1 n else h1)
      counted h1 n v1 = either (ltb 0 n)
        where
          either : (b : Bool) → IsValid (if b then count_sent h1 n else h1)
          either true = count_sent-IsValid h1 n v1
          either false = v1

  -- A handler that is ready and not dirty, with whole packets in its buffers and tables and room for
  -- one packet or more, always sends exactly the packets of 188 bytes that fit its packet size, and
  -- stays fit: tables, payload and null packets together fill every slot.
  pub flush_packet_for_cbr-Fills :
      (h : PacketHandler)
      → IsValid h
      → is_dirty h ≡ false
      → h.is_ready ≡ true
      → 188 ≤ get_pkt_size h
      → (h' : PacketHandler) × (out : List ℕ) × (flush_packet_for_cbr min_limit max_limit h
          ≡ ret (h', some out))
        × IsValid h'
        × (length out ≡ get_pkt_size h / 188 * 188)
  flush_packet_for_cbr-Fills h v clean ready room =
      let (r, e, ok) = Returns-eq (fills h v clean ready room) in whole_answer r e ok
    where
      whole_answer :
          (r : PacketHandler × Option (List ℕ))
          → flush_packet_for_cbr min_limit max_limit h ≡ ret r
          → Answers (get_pkt_size h / 188 * 188) r
          → (h' : PacketHandler) × (out : List ℕ) × (flush_packet_for_cbr min_limit max_limit h
              ≡ ret (h', some out))
            × IsValid h'
            × (length out ≡ get_pkt_size h / 188 * 188)
      whole_answer (h', some out) e (w, size) = (h', out, e, w, size)
      whole_answer (h', none) e ok = absurd ok
