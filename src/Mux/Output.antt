-- ===== src/Mux/Output.antt =====
-- src/mux.rs: `flush_psi_packets`, `flush_packet_for_vbr` and `flush_packet_for_cbr`, which fill one
-- packet of the output.
pub mod Tables
pub mod Rate
use mymuxer.Base.{
  ℕ, zero, suc, ◌+◌, ◌-◌, ◌*◌, ◌/◌, ◌%◌, ◌^◌, List, [], ◌∷◌, ◌++◌, Bool, true, false, not, ◌&&◌,
  ◌||◌, Option, none, some, ltb, ◌==◌, if◌then◌else◌, Outcome, ret, ◌>>=◌,
}
use mymuxer.Packet.{ts_packet_size, ts_null_packet, pkt_next}
use mymuxer.Mux.Timing.{pcr_after, pcr_add}
use mymuxer.Mux.Buffer
use mymuxer.Mux.Buffer.{TsPacket}
use mymuxer.Mux.Restamper.{PcrRestamper}
use mymuxer.Mux.Handler.{
  PacketHandler, get_pkt_size, is_dirty, current_pcr, get_a_or_v, get_a_or_v_ready,
  get_a_or_v_drain, is_buffer_overflow, process_packet,
}

-- The handler, the bytes sent so far and a count of packets.
abbrev pub Flush : Type 0
Flush = Outcome (PacketHandler × List ℕ × ℕ)

-- A table is due at once, and then after each period.
unfoldable pub is_due : ℕ → Option ℕ → ℕ → Bool
is_due pcr none period_ms = true
is_due pcr (some inserted) period_ms = pcr_after pcr (pcr_add inserted (period_ms * 27_000))

-- The three tables: `pkt_count` is 1, so a table waits while another has been sent.
unfoldable pub flush_pat : PacketHandler → List ℕ → ℕ → Flush
flush_pat h out flush_count =
    if not h.pat_ready then ret (h, out, flush_count) else elim (current_pcr h) [
      | none ↦ ret (h, out, flush_count)
      | some pcr ↦ if not (is_due pcr h.insert_pat 100) then ret (h, out, flush_count) else do
        pat ← pkt_next h.pat
        ret (record h { pat = pat; insert_pat = some pcr }, out ++ pat, flush_count + 1)
    ]

unfoldable pub flush_pmt : PacketHandler → List ℕ → ℕ → Flush
flush_pmt h out flush_count =
    if not h.pmt_ready || not (ltb flush_count 1)
    then ret (h, out, flush_count)
    else elim (current_pcr h) [
      | none ↦ ret (h, out, flush_count)
      | some pcr ↦ if not (is_due pcr h.insert_pmt 100) then ret (h, out, flush_count) else do
        pmt ← pkt_next h.pmt
        ret (record h { pmt = pmt; insert_pmt = some pcr }, out ++ pmt, flush_count + 1)
    ]

unfoldable pub flush_sdt : PacketHandler → List ℕ → ℕ → Flush
flush_sdt h out flush_count =
    if not h.sdt_ready || not (ltb flush_count 1)
    then ret (h, out, flush_count)
    else elim (current_pcr h) [
      | none ↦ ret (h, out, flush_count)
      | some pcr ↦ if not (is_due pcr h.insert_sdt 1_000) then ret (h, out, flush_count) else do
        sdt ← pkt_next h.sdt
        ret (record h { sdt = sdt; insert_sdt = some pcr }, out ++ sdt, flush_count + 1)
    ]

unfoldable pub flush_psi_packets : PacketHandler → List ℕ → Flush
flush_psi_packets h out = do
  (h1, out1, n1) ← flush_pat h out 0
  (h2, out2, n2) ← flush_pmt h1 out1 n1
  flush_sdt h2 out2 n2

-- The loop of `flush_packet_for_vbr`, with the first PCR met.
unfoldable pub vbr_loop : ℕ → PacketHandler → List ℕ → Option ℕ → PacketHandler × List ℕ × Option ℕ
vbr_loop zero h out first_pcr = (h, out, first_pcr)
vbr_loop (suc slots) h out first_pcr =
    let (h', taken) = get_a_or_v h in
    elim taken [
      | none ↦ (h', out, first_pcr)
      | some pkt ↦
          vbr_loop slots (record h' { count_payload_packets = h'.count_payload_packets + 1 })
            (out ++ pkt.data') (elim first_pcr [ none ↦ pkt.pcr | some pcr ↦ some pcr ])
    ]

-- The clock follows the packets sent.
unfoldable pub set_first_pcr : PacketHandler → Option ℕ → PacketHandler
set_first_pcr h none = h
set_first_pcr h (some pcr) = elim h.pcr_restamper [
  | none ↦ h
  | some r ↦ record h { pcr_restamper = some (record r { first_pcr_value = some pcr }) }
]

unfoldable pub flush_packet_for_vbr : PacketHandler → Outcome (PacketHandler × Option (List ℕ))
flush_packet_for_vbr h = if is_dirty h || not h.is_ready then ret (h, none) else do
  (h1, out, flush_count) ← flush_psi_packets h []
  let h2 = record h1 { count_psi_packets = h1.count_psi_packets + flush_count }
  let (h3, out', first_pcr) = vbr_loop (get_pkt_size h / ts_packet_size - flush_count) h2 out none
  ret (set_first_pcr h3 first_pcr, elim out' [ [] ↦ none | b ∷ bs ↦ some (b ∷ bs) ])

-- `total_packets_sent` is a `u64`.
unfoldable pub count_sent : PacketHandler → ℕ → PacketHandler
count_sent h n = elim h.pcr_restamper [
  | none ↦ h
  | some r ↦ record h {
    pcr_restamper = some (record r { total_packets_sent = (r.total_packets_sent + n) % 2 ^ 64 });
  }
]

-- The limits of the buffer's duration are computed in floating point from `buffer_duration_ms` and
-- `adjust_buf`: `buffer_duration_ms * (1.00 -/+ adjust_buf / 100.00)`, cut to a `u64`.
module _ (min_limit max_limit : ℕ → ℕ → ℕ) where
  unfoldable pub is_starved : PacketHandler → Bool
  is_starved h =
      not (h.adjust_buf == 0)
      && (not (Buffer.is_dirty h.out_buff_v)
          && ltb (Buffer.duration_ms h.out_buff_v) (min_limit h.buffer_duration_ms h.adjust_buf))

  -- The packet sent early where the buffer is too long.
  unfoldable pub take_early : PacketHandler → PacketHandler × Option TsPacket
  take_early h =
      if is_dirty h || (Buffer.is_dirty h.out_buff_v || is_buffer_overflow h 1)
      then get_a_or_v h
      else if ltb (max_limit h.buffer_duration_ms h.adjust_buf) (Buffer.duration_ms h.out_buff_v)
      then get_a_or_v_drain h
      else (h, none)

  unfoldable pub send_null : PacketHandler → Outcome (PacketHandler × List ℕ)
  send_null h = ret (record h { count_null_packets = h.count_null_packets + 1 }, ts_null_packet)

  -- The packet of a slot for which none is due.
  unfoldable pub send_adjusted : PacketHandler → Outcome (PacketHandler × List ℕ)
  send_adjusted h =
      if h.adjust_buf == 0
      then send_null h
      else let (h', taken) = take_early h in
        elim taken [
          | none ↦ send_null h'
          | some pkt ↦
              process_packet
                (record h' { count_adjust_packets_payload = h'.count_adjust_packets_payload + 1 })
                pkt
        ]

  -- One slot of `flush_packet_for_cbr`.
  unfoldable pub cbr_slot : PacketHandler → Outcome (PacketHandler × List ℕ)
  cbr_slot h =
      let h1 = count_sent h 1 in
      if is_starved h1
      then ret (
        record h1 { count_adjust_packets_null = h1.count_adjust_packets_null + 1 },
        ts_null_packet,
      )
      else let (h2, taken) = get_a_or_v_ready h1 in
        elim taken [
          | none ↦ send_adjusted h2
          | some pkt ↦
              process_packet (record h2 { count_payload_packets = h2.count_payload_packets + 1 })
                pkt
        ]

  unfoldable pub cbr_loop : ℕ → PacketHandler → List ℕ → Outcome (PacketHandler × List ℕ)
  cbr_loop zero h out = ret (h, out)
  cbr_loop (suc slots) h out = do (h', sent) ← cbr_slot h; cbr_loop slots h' (out ++ sent)

  unfoldable pub flush_packet_for_cbr : PacketHandler → Outcome (PacketHandler × Option (List ℕ))
  flush_packet_for_cbr h = if is_dirty h || not h.is_ready then ret (h, none) else do
    (h1, out, flush_count) ← flush_psi_packets h []
    let h2 = if ltb 0 flush_count then count_sent h1 flush_count else h1
    let h3 = record h2 { count_psi_packets = h2.count_psi_packets + flush_count }
    (h4, out') ← cbr_loop (get_pkt_size h / ts_packet_size - flush_count) h3 out
    ret (h4, some out')
