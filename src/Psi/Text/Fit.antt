-- ===== src/Psi/Text/Fit.antt =====
-- What `dvb_text` keeps of a text.
use mymuxer.Base.{
  ℕ, zero, suc, ◌-◌, ◌≤◌, ◌≡◌, refl, arith, List, true, false, Bool-cases, inl, inr, length,
  length-take, min, take, ◌∷◌, leb, leb→le, leb_false→lt, sym, ap, ◌∙◌,
}
use mymuxer.Psi.Text.{is_char_boundary, boundary_below, dvb_text}

false-true : ¬ (false ≡ true)
false-true h = ground arith

-- The last boundary of a text up to `end`.
pub record LastBoundary (text : List ℕ) (end at : ℕ) : Type 0 where
  pub within : at ≤ end
  pub boundary : is_char_boundary text at ≡ true
  pub last : (i : ℕ) → i ≤ end → is_char_boundary text i ≡ true → i ≤ at

boundary_below-LastBoundary :
    (text : List ℕ) (end : ℕ) → LastBoundary text end (boundary_below text end)
unfolding boundary_below
boundary_below-LastBoundary text zero = record {
  within = omega arith;
  boundary = unfold is_char_boundary in refl;
  last = λ i h b. h;
}
boundary_below-LastBoundary text (suc end) =
    let below = boundary_below-LastBoundary text end in
    elim (Bool-cases (is_char_boundary text (suc end))) [
      | inl here ↦ rw here (record { within = omega arith; boundary = here; last = λ i h b. h })
      | inr there ↦ rw there (record {
        within = omega (arith, below.within);
        boundary = below.boundary;
        last = λ i h b. elim (Bool-cases (leb i end)) [
          | inl below_end ↦ below.last i (leb→le i end below_end) b
          | inr at_end ↦
              let over = leb_false→lt i end at_end in
              let e : i ≡ suc end = omega arith in
              absurd (false-true (sym (ap (is_char_boundary text) e ∙ there) ∙ b))
        ];
      })
    ]

-- `dvb_text` puts the prefix of UTF-8 before the longest part of the text that ends at the boundary
-- of a character and leaves the whole within a maximal length of 1 or more.
pub dvb_text-LastBoundary :
    (text : List ℕ) (max_len : ℕ)
    → 1 ≤ max_len
    → (n : ℕ) × (dvb_text text max_len ≡ 0x15 ∷ take n text)
      × (length (dvb_text text max_len) ≡ suc n)
      × LastBoundary text (min (length text) (max_len - 1)) n
      × (length (dvb_text text max_len) ≤ max_len)
unfolding dvb_text
dvb_text-LastBoundary text max_len h =
    let n : ℕ = boundary_below text (min (length text) (max_len - 1)) in
    let b : LastBoundary text (min (length text) (max_len - 1)) n =
      boundary_below-LastBoundary text (min (length text) (max_len - 1)) in
    (
      n,
      refl,
      omega (arith, b.within, length-take n text),
      b,
      omega (arith, b.within, length-take n text),
    )
