-- ===== src/Mux/Input/Stops.antt =====
-- What a chunk of bytes does to a fit input side, and where it may stop the code.
use mymuxer.Base.{
  ℕ, zero, suc, ◌+◌, ◌*◌, ◌/◌, ◌≤◌, ◌≡◌, arith, List, [], ◌++◌, Bool, true, false, not, leb, ◌==◌,
  if◌then◌else◌, length, get_or, take, drop, All, take-All, drop-All, All-append, length-take,
  length-drop, Outcome, ret, panic, ◌>>=◌, Keeps-elim, Outcome-cases, Ends, runs, stops, Ends-if,
  Ends-map, Ends-if-bind, ap, sym, ◌∙◌, drop-drop, drop-append_left, Returns-not_panic, ◌⊎◌, ◌||◌,
  ◌%◌, inl, inr, refl,
}
use mymuxer.Packet.Fields.{pkt_pid_lem}
use mymuxer.Packet.{IsByte, IsPacket, pkt_pid, ts_packet_size, ts_sync_byte}
use mymuxer.Mux.Sync.Search.{sync_buffer-Found}
use mymuxer.Mux.Handler.{Program, get_program, is_buffer_overflow}
use mymuxer.Mux.Input.{Env, InputHandler, buffers_clear, max_buffer_size}
use mymuxer.Mux.Input.Receive.{process_one, packet_loop, process_synced, process, write}
use mymuxer.Mux.Input.Fit.{IsFit, buffers_clear-IsFit}
use mymuxer.Mux.Input.Ready.{generate_sdt, finish}
use mymuxer.Mux.Input.Start.{finish-Ends}
use mymuxer.Mux.Input.Safe.{IsCipher, process_one-IsFit, process_one-Returns}

stored-IsFit :
    (h : InputHandler) (bytes : List ℕ)
    → IsFit h
    → All IsByte bytes
    → IsFit (record h { in_buff = bytes })
stored-IsFit h bytes f b = record { out_fit = f.out_fit; remembered = f.remembered; received = b }

synced-IsFit :
    (h : InputHandler) (sync : Bool) (bytes : List ℕ)
    → IsFit h
    → All IsByte bytes
    → IsFit (record h { is_sync = sync; in_buff = bytes })
synced-IsFit h sync bytes f b = record {
  out_fit = f.out_fit;
  remembered = f.remembered;
  received = b;
}

some_or_none : (a b c : Bool) → ((a || (b || c)) ≡ true) ⊎ (a ≡ false) × (b ≡ false) × (c ≡ false)
some_or_none true b c = inl refl
some_or_none false true c = inl refl
some_or_none false false true = inl refl
some_or_none false false false = inr (refl, refl, refl)

-- A packet of the PAT, of the program's PMT or of the SDT.
pub record IsOfTable (h : InputHandler) (packet : List ℕ) : Type 0 where
  pub program : Program
  pub pid : ℕ
  pub first : get_program h.out ≡ ret program
  pub read : pkt_pid packet ≡ ret pid
  pub table : (pid == 0x0000 || (pid == program.pmt_pid || pid == 0x0011)) ≡ true

-- How the packets of a synced buffer stop the code: at a packet of a table, which holds a section
-- that stops it, behind packets that are handled, or at the end, as the table of services is made.
pub data Stopped (env : Env) : InputHandler → List ℕ → Type 0 where
  at_table :
      {h : InputHandler} {bytes : List ℕ}
      → IsOfTable h (take ts_packet_size bytes)
      → process_one env h (take ts_packet_size bytes) ≡ panic
      → Stopped env h bytes
  at_services :
      {h : InputHandler} {bytes : List ℕ}
      → generate_sdt env (record h { in_buff = bytes }) ≡ panic
      → Stopped env h bytes
  behind :
      {h h' : InputHandler} {bytes : List ℕ}
      → process_one env h (take ts_packet_size bytes) ≡ ret h'
      → Stopped env h' (drop ts_packet_size bytes)
      → Stopped env h bytes

-- The handler before the packets of a chunk: bytes in front may be dropped, and the buffers cleared.
pub data Begins (h : InputHandler) (chunk : List ℕ) : InputHandler → Type 0 where
  begins :
      (sync : Bool) (bytes : List ℕ) (k : ℕ)
      → bytes ≡ drop k (h.in_buff ++ chunk)
      → Begins h chunk (record h { is_sync = sync; in_buff = bytes })
  clears :
      (sync : Bool) (bytes : List ℕ) (k : ℕ)
      → bytes ≡ drop k (h.in_buff ++ chunk)
      → Begins h chunk (buffers_clear (record h { is_sync = sync; in_buff = bytes }))

module _ (env : Env) (cipher : IsCipher env.decrypt) where
  panic-IsOfTable :
      (h : InputHandler) (packet : List ℕ)
      → IsFit h
      → IsPacket packet
      → process_one env h packet ≡ panic
      → IsOfTable h packet
  panic-IsOfTable h packet f v stop =
      let id : ℕ = get_or packet 1 0 % 32 * 256 + get_or packet 2 0 in
      let read : pkt_pid packet ≡ ret id = pkt_pid_lem packet (omega (arith, v.size)) v.bytes in
      let program : Program = f.out_fit.program in
      elim (some_or_none (id == 0x0000) (id == program.pmt_pid) (id == 0x0011)) [
        | inl e ↦ record {
          program = program;
          pid = id;
          first = f.out_fit.first_program;
          read = read;
          table = e;
        }
        | inr (pat, pmt, sdt) ↦
            Returns-not_panic
              (process_one-Returns env cipher h program packet id f v f.out_fit.first_program read
                pat pmt sdt)
              stop
      ]

  packet_loop-Ends :
      (n : ℕ) (h : InputHandler) (bytes : List ℕ)
      → IsFit h
      → All IsByte bytes
      → n * ts_packet_size ≤ length bytes
      → Ends IsFit
          (Stopped env h bytes)
          (packet_loop n env h bytes >>= λ s. if s.1 then finish env (s.0) else ret (s.0))
  unfolding packet_loop
  packet_loop-Ends zero h bytes f b e =
      Ends-map (finish-Ends env (record h { in_buff = bytes }) (stored-IsFit h bytes f b))
        λ s. at_services s
  packet_loop-Ends (suc n) h bytes f b e =
      Ends-if-bind (not (get_or bytes 0 0 == ts_sync_byte)) _ _ _
        (runs (buffers_clear-IsFit _ (synced-IsFit h false bytes f b)))
        (elim (Outcome-cases (process_one env h packet)) [
          | inl stop ↦ rw stop (stops (at_table (panic-IsOfTable h packet f v stop) stop))
          | inr (h', r) ↦ rw r (
              Ends-map
                (packet_loop-Ends n h' (drop ts_packet_size bytes)
                  (Keeps-elim (process_one-IsFit env cipher h packet f v) h' r)
                  (drop-All IsByte ts_packet_size bytes b)
                  (omega (arith, length-drop ts_packet_size bytes)))
                λ s. behind r s)
        ])
    where
      packet : List ℕ
      packet = take ts_packet_size bytes

      v : IsPacket packet
      v = record {
        size = omega (arith, length-take ts_packet_size bytes);
        bytes = take-All IsByte ts_packet_size bytes b;
      }

  -- The packets of the buffer, and what follows them.
  abbrev packets : InputHandler → Outcome InputHandler
  packets h =
      if length h.in_buff / ts_packet_size == 0
      then ret h
      else packet_loop (length h.in_buff / ts_packet_size) env h h.in_buff >>= λ s.
          if s.1 then finish env (s.0) else ret (s.0)

  packets-Ends : (h : InputHandler) → IsFit h → Ends IsFit (Stopped env h h.in_buff) (packets h)
  packets-Ends h f =
      Ends-if (length h.in_buff / ts_packet_size == 0) (λ _. runs f)
        λ _.
          packet_loop-Ends (length h.in_buff / ts_packet_size) h h.in_buff f f.received
            (omega arith)

  -- The packets of a synced buffer; how they stop is told of both handlers that they start from.
  process_synced-Ends :
      {S : Type 0} (h : InputHandler)
      → IsFit h
      → (Stopped env h h.in_buff → S)
      → (Stopped env (buffers_clear h) (buffers_clear h).in_buff → S)
      → Ends IsFit S (process_synced env h)
  unfolding process_synced
  process_synced-Ends {S} h f keep clear = cleared (is_buffer_overflow h.out 2)
    where
      cleared : (b : Bool) → Ends IsFit S (packets (if b then buffers_clear h else h))
      cleared true = Ends-map (packets-Ends (buffers_clear h) (buffers_clear-IsFit h f)) clear
      cleared false = Ends-map (packets-Ends h f) keep

  module _ {S : Type 0} (h : InputHandler) (chunk : List ℕ) (f : IsFit h) (b : All IsByte chunk)
      (stop : (h1 : InputHandler) → Begins h chunk h1 → Stopped env h1 h1.in_buff → S) where
    received : (bytes : List ℕ) (k : ℕ) → bytes ≡ drop k (h.in_buff ++ chunk) → All IsByte bytes
    received bytes k e = rw e (drop-All IsByte k _ (All-append IsByte h.in_buff chunk f.received b))

    begun :
        (sync : Bool) (bytes : List ℕ) (k : ℕ)
        → bytes ≡ drop k (h.in_buff ++ chunk)
        → Ends IsFit S (process_synced env (record h { is_sync = sync; in_buff = bytes }))
    begun sync bytes k e =
        process_synced-Ends _ (synced-IsFit h sync bytes f (received bytes k e))
          (stop _ (begins sync bytes k e)) (stop _ (clears sync bytes k e))

    process-Ends :
        (sync : Bool) (bytes : List ℕ) (k : ℕ)
        → bytes ≡ drop k (h.in_buff ++ chunk)
        → Ends IsFit S (process env (record h { is_sync = sync; in_buff = bytes }))
    unfolding process
    process-Ends true bytes k e = begun true bytes k e
    process-Ends false bytes k e =
        let (ok, rest, e2, found) = sync_buffer-Found bytes in
        let there : rest ≡ drop (k + found.dropped) (h.in_buff ++ chunk) =
          found.suffix ∙ ap (drop found.dropped) e ∙ drop-drop k found.dropped _ in
        rw e2 (
          Ends-if ok (λ _. begun true rest _ there)
            (λ _. runs (synced-IsFit h false rest f (received rest _ there))))

    pub write-Ends : Ends IsFit S (write env h chunk)
    unfolding write
    write-Ends = full (leb max_buffer_size (length h.in_buff + length chunk))
      where
        full :
            (full : Bool)
            → let h' = if full then record h { in_buff = []; is_sync = false } else h in
              Ends IsFit S (process env (record h' { in_buff = h'.in_buff ++ chunk }))
        full true =
            process-Ends false chunk (length h.in_buff)
              (sym (drop-append_left _ h.in_buff chunk refl))
        full false = process-Ends h.is_sync (h.in_buff ++ chunk) 0 refl
