-- ===== src/Packet/Total.antt =====
-- The readers of a packet always answer on 188 bytes.
use mymuxer.Base.{
  ℕ, ◌<◌, arith, List, ltb, ◌==◌, bit_and, get_or, length, Returns, returns, Returns-if,
  Returns-byte_at,
}
use mymuxer.Packet.{
  IsPacket, af_control, pkt_extract_pcr, pkt_has_payload, pkt_get_discontinuity,
  pkt_scrambling_control,
}

abbrev Any {ℓ} : {A : Type ℓ} → A → Type 0
Any a = Unit {0}

module _ (p : List ℕ) (v : IsPacket p) where
  inside : (i : ℕ) → i < 188 → i < length p
  inside i h = omega (arith, v.size)

  pub pkt_has_payload-Returns : Returns Any (pkt_has_payload p)
  unfolding pkt_has_payload
  pkt_has_payload-Returns = Returns-byte_at p 3 _ (inside 3 (omega arith)) (returns tt)

  pub pkt_scrambling_control-Returns : Returns Any (pkt_scrambling_control p)
  unfolding pkt_scrambling_control
  pkt_scrambling_control-Returns = Returns-byte_at p 3 _ (inside 3 (omega arith)) (returns tt)

  pub pkt_get_discontinuity-Returns : Returns Any (pkt_get_discontinuity p)
  unfolding pkt_get_discontinuity
  pkt_get_discontinuity-Returns =
      Returns-if (ltb (length p) 6) (λ _. returns tt)
        λ _. Returns-byte_at p 3 _ (inside 3 (omega arith)) (
          Returns-if (ltb (af_control (get_or p 3 0)) 2) (λ _. returns tt)
            λ _. Returns-byte_at p 4 _ (inside 4 (omega arith)) (
              Returns-if (ltb (get_or p 4 0) 1) (λ _. returns tt)
                λ _. Returns-byte_at p 5 _ (inside 5 (omega arith)) (returns tt)))

  pub pkt_extract_pcr-Returns : Returns Any (pkt_extract_pcr p)
  unfolding pkt_extract_pcr
  pkt_extract_pcr-Returns = Returns-byte_at p 3 _ (inside 3 (omega arith)) (
      Returns-if (ltb (af_control (get_or p 3 0)) 2) (λ _. returns tt)
        λ _. Returns-byte_at p 4 _ (inside 4 (omega arith)) (
          Returns-if (ltb (get_or p 4 0) 7) (λ _. returns tt)
            λ _. Returns-byte_at p 5 _ (inside 5 (omega arith)) (
              Returns-if (bit_and (get_or p 5 0) 0x10 == 0) (λ _. returns tt)
                λ _. Returns-byte_at p 6 _ (inside 6 (omega arith)) (
                  Returns-byte_at p 7 _ (inside 7 (omega arith)) (
                    Returns-byte_at p 8 _ (inside 8 (omega arith)) (
                      Returns-byte_at p 9 _ (inside 9 (omega arith)) (
                        Returns-byte_at p 10 _ (inside 10 (omega arith))
                          (Returns-byte_at p 11 _ (inside 11 (omega arith)) (returns tt)))))))))
