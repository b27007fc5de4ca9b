-- ===== src/Epg/Generator/Sending.antt =====
-- The datagrams of a round.
use mymuxer.Base.{
  ℕ, zero, suc, ◌+◌, ◌-◌, ◌*◌, ◌≤◌, ◌<◌, ◌≡◌, refl, sym, ap, ◌∙◌, arith, List, [], ◌∷◌, ◌++◌,
  append_assoc, All, false, Bool-cases, inl, inr, ltb, ltb→lt, ltb_false→le, ◌==◌, length, take,
  drop, length-append, length-take, length-drop, take-append-drop, take-All, drop-All,
}
use mymuxer.Psi.Eit.{concat}
use mymuxer.Packet.{ts_packet_size}
use mymuxer.Epg.Generator.{Generator, eit_ts_packet_count, send_loop, send}

abbrev pub IsWhole : List ℕ → Type 0
IsWhole p = length p ≡ ts_packet_size

concat-append : (xs ys : List (List ℕ)) → concat (xs ++ ys) ≡ concat xs ++ concat ys
concat-append [] ys = refl
concat-append (x ∷ xs) ys =
    ap (λ t. x ++ t) (concat-append xs ys) ∙ sym (append_assoc x (concat xs) (concat ys))

length-concat :
    (ps : List (List ℕ)) → All IsWhole ps → length (concat ps) ≡ length ps * ts_packet_size
length-concat [] h = refl
length-concat (p ∷ ps) h = omega (arith, length-append p (concat ps), length-concat ps h.1, h.0)

-- What the datagrams are for packets that wait: seven whole packets each, in order, and less than
-- seven left, if the socket takes them all.
pub record IsSent (packets : List (List ℕ)) (sent : List (List ℕ) × List (List ℕ)) : Type 0 where
  pub sizes : All (λ d. length d ≡ eit_ts_packet_count * ts_packet_size) sent.0
  pub bytes : concat sent.0 ++ concat sent.1 ≡ concat packets
  pub few : length sent.1 < eit_ts_packet_count
  pub whole : All IsWhole sent.1

-- One datagram more in front.
cons-IsSent :
    (packets : List (List ℕ)) (sent : List (List ℕ) × List (List ℕ))
    → All IsWhole packets
    → eit_ts_packet_count ≤ length packets
    → IsSent (drop eit_ts_packet_count packets) sent
    → IsSent packets (concat (take eit_ts_packet_count packets) ∷ sent.0, sent.1)
cons-IsSent packets sent h n v = record {
  sizes = (
    length-concat (take eit_ts_packet_count packets)
          (take-All IsWhole eit_ts_packet_count packets h)
        ∙ omega (arith, length-take eit_ts_packet_count packets),
    v.sizes,
  );
  bytes =
      append_assoc (concat (take eit_ts_packet_count packets)) (concat sent.0) (concat sent.1)
      ∙ ap (λ t. concat (take eit_ts_packet_count packets) ++ t) v.bytes
      ∙ sym (concat-append (take eit_ts_packet_count packets) (drop eit_ts_packet_count packets))
      ∙ ap concat (take-append-drop eit_ts_packet_count packets);
  few = v.few;
  whole = v.whole;
}

send_loop-IsSent :
    (fuel sends : ℕ) (packets : List (List ℕ))
    → length packets < fuel
    → length packets ≤ sends
    → All IsWhole packets
    → IsSent packets (send_loop fuel sends packets)
unfolding send_loop
send_loop-IsSent zero sends packets m k h = absurd (omega arith)
send_loop-IsSent (suc fuel) sends packets m k h =
    elim (Bool-cases (ltb (length packets) eit_ts_packet_count)) [
      | inl few ↦ rw few (record { sizes = tt; bytes = refl; few = ltb→lt _ _ few; whole = h })
      | inr more ↦
          let n : eit_ts_packet_count ≤ length packets = ltb_false→le _ _ more in
          let open_socket : (sends == 0) ≡ false = ground arith in
          rw (more, open_socket)
            (cons-IsSent packets _ h n (
              send_loop-IsSent fuel (sends - 1) (drop eit_ts_packet_count packets)
                (omega (arith, length-drop eit_ts_packet_count packets))
                (omega (arith, length-drop eit_ts_packet_count packets))
                (drop-All IsWhole eit_ts_packet_count packets h)))
    ]

-- If the packets that wait are whole and the socket takes what it is given, a round sends datagrams
-- of seven packets, in the order of the packets, and leaves less than seven for the next round.
pub send-IsSent :
    (sends : ℕ) (g : Generator)
    → All IsWhole g.packets
    → length g.packets ≤ sends
    → IsSent g.packets ((send sends g).0, (send sends g).1.packets)
unfolding send
send-IsSent sends g h k = send_loop-IsSent (length g.packets + 1) sends g.packets (omega arith) k h
