-- ===== src/Pes/Nal/Sps.antt =====
-- The search for a sequence parameter set.
use mymuxer.Base.{
  ℕ, zero, suc, ◌+◌, ◌-◌, ◌%◌, ◌^◌, ◌≤◌, ◌<◌, ◌≡◌, ◌≢◌, refl, sym, ◌∙◌, ap, arith, bit_and, List,
  [], ◌∷◌, Bool, true, false, not, ◌&&◌, Option, some, ltb, ◌==◌, length, get_or, take, drop, panic,
  byte_at, Returns, returns, Returns-if, Returns-bind, Returns-map, Returns-byte_at, Returns-slice,
  inl, inr, Option-cases,
}
use native.Mathlib.Decide.{dec_lt}
use mymuxer.Pes.Nal.{starts_code, starts_next, next_code, trim_zeros, unit_at, sps_loop, find_sps}

-- A unit of type 7 behind a start code, whose bytes behind the header are `unit`.
pub record IsSps (bytes unit : List ℕ) : Type 0 where
  pub start : ℕ
  pub stop : ℕ
  pub code :
      (get_or bytes start 0 ≡ 0)
      × (get_or bytes (start + 1) 0 ≡ 0)
      × (get_or bytes (start + 2) 0 ≡ 1)
  pub header : bit_and (get_or bytes (start + 3) 0) 0x1F ≡ 7
  pub inside : (start + 4 ≤ stop) × (stop ≤ length bytes)
  pub last : get_or bytes (stop - 1) 0 ≢ 0
  pub cut : unit ≡ take (stop - (start + 4)) (drop (start + 4) bytes)

-- Whether three bytes are a start code is read where there are three.
starts_code-Returns :
    (bytes : List ℕ) (i : ℕ)
    → i + 2 < length bytes
    → Returns
        (λ (b : Bool).
          b ≡ true
          → (get_or bytes i 0 ≡ 0) × (get_or bytes (i + 1) 0 ≡ 0) × (get_or bytes (i + 2) 0 ≡ 1))
        (starts_code bytes i)
unfolding starts_code
starts_code-Returns bytes i h = Returns-byte_at bytes i _ (omega arith) (
    Returns-if (not (get_or bytes i 0 == 0)) (λ _. returns (λ e. cc))
      λ z0. Returns-byte_at bytes (i + 1) _ (omega arith) (
        Returns-if (not (get_or bytes (i + 1) 0 == 0)) (λ _. returns (λ e. cc))
          λ z1.
            Returns-byte_at bytes (i + 2) _ (omega arith)
              (returns λ e. (ground arith, ground arith, ground arith))))

starts_next-Returns :
    (bytes : List ℕ) (j : ℕ)
    → j + 2 < length bytes
    → Returns (λ (b : Bool). b ≡ true → get_or bytes j 0 ≡ 0) (starts_next bytes j)
unfolding starts_next
starts_next-Returns bytes j h = Returns-byte_at bytes j _ (omega arith) (
    Returns-if (not (get_or bytes j 0 == 0)) (λ _. returns (λ e. cc))
      λ z.
        let zero_there : get_or bytes j 0 ≡ 0 = ground arith in
        Returns-byte_at bytes (j + 1) _ (omega arith) (
          Returns-if (not (get_or bytes (j + 1) 0 == 0)) (λ _. returns (λ _. zero_there))
            λ _. Returns-byte_at bytes (j + 2) _ (omega arith) (
              Returns-if (get_or bytes (j + 2) 0 == 1) (λ _. returns (λ _. zero_there))
                λ _.
                  Returns-if (not (ltb (j + 3) (length bytes) && (get_or bytes (j + 2) 0 == 0)))
                    (λ _. returns (λ _. zero_there))
                    λ room.
                      Returns-byte_at bytes (j + 3) _ (ground arith) (returns (λ _. zero_there)))))

-- The next start code, or the end.
abbrev NextCode : List ℕ → ℕ → ℕ → Type 0
NextCode bytes j next =
    (j ≤ next) × (next ≤ length bytes) × (next < length bytes → get_or bytes next 0 ≡ 0)

next_code-Returns :
    (n : ℕ) (bytes : List ℕ) (j : ℕ)
    → j ≤ length bytes
    → n ≤ length bytes - 2 - j
    → Returns (NextCode bytes j) (next_code n bytes j)
unfolding next_code
next_code-Returns zero bytes j h k = returns (omega arith, omega arith, λ l. absurd (omega arith))
next_code-Returns (suc n) bytes j h k =
    Returns-bind (starts_next-Returns bytes j (omega arith)) λ there z.
      Returns-if there (λ e. returns (omega arith, omega arith, λ _. z e))
        λ _.
          Returns-map (next_code-Returns n bytes (j + 1) (omega arith) (omega arith))
            λ next r. (omega (arith, r.0), r.1, r.2)

-- What is left of a unit once the zeros at its end are cut off.
abbrev Trimmed : List ℕ → ℕ → ℕ → Type 0
Trimmed bytes start end' = (start < end') × (end' ≤ length bytes) × (get_or bytes (end' - 1) 0 ≢ 0)

-- A unit whose header is no zero keeps it, and ends in no zero.
trim_zeros-Returns :
    (bytes : List ℕ) (start stop : ℕ)
    → stop ≤ length bytes
    → Returns
        (λ (end' : ℕ). get_or bytes start 0 ≢ 0 → start < stop → Trimmed bytes start end')
        (trim_zeros bytes start stop)
unfolding trim_zeros
trim_zeros-Returns bytes start zero k = returns λ z h. absurd (omega arith)
trim_zeros-Returns bytes start (suc stop) k =
    Returns-if (not (ltb start (suc stop))) (λ past. returns λ z h. absurd (ground arith))
      λ _. Returns-byte_at bytes stop _ (omega arith) (
        Returns-if (get_or bytes stop 0 == 0)
          (λ zero_there.
            Returns-map (trim_zeros-Returns bytes start stop (omega arith))
              λ end' r z h. r z (header_kept zero_there z h))
          (λ other. returns λ z h. (h, k, last_kept other)))
  where
    header_kept :
        (get_or bytes stop 0 == 0) ≡ true
        → get_or bytes start 0 ≢ 0
        → start < suc stop
        → start < stop
    header_kept e z h = elim (dec_lt start stop) [
      | yes l ↦ l
      | no n ↦
          let same : stop ≡ start = omega arith in absurd (z (let f = rw same at e in ground arith))
    ]

    last_kept : (get_or bytes stop 0 == 0) ≡ false → get_or bytes (suc stop - 1) 0 ≢ 0
    last_kept e = let same : suc stop - 1 ≡ stop = omega arith in rw same (λ z. ground arith)

-- The header of a set is no zero.
set-header : (b : ℕ) → bit_and b 0x1F ≡ 7 → b ≢ 0
set-header b e z = let f : bit_and 0 0x1F ≡ 7 = rw z at e in absurd (omega (arith))

-- A start code is not where a header is no zero.
header_before :
    (bytes : List ℕ) (j next : ℕ)
    → NextCode bytes j next
    → j < length bytes
    → get_or bytes j 0 ≢ 0
    → j < next
header_before bytes j next (l, m, zero_there) h z = elim (dec_lt j next) [
  | yes k ↦ k
  | no k ↦ let same : next ≡ j = omega arith in absurd (z (rw same at (zero_there (omega arith))))
]

unit_at-Returns :
    (bytes : List ℕ) (start : ℕ)
    → (get_or bytes start 0 ≡ 0)
      × (get_or bytes (start + 1) 0 ≡ 0)
      × (get_or bytes (start + 2) 0 ≡ 1)
    → start + 3 ≤ length bytes
    → Returns
        (λ (r : Option (List ℕ) × ℕ).
          ((unit : List ℕ) → r.0 ≡ some unit → IsSps bytes unit)
          × ((start + 3 ≤ r.1) × (r.1 ≤ length bytes)))
        (unit_at bytes (start + 3))
unfolding unit_at
unit_at-Returns bytes start code h =
    Returns-bind
      (next_code-Returns (length bytes - 2 - (start + 3)) bytes (start + 3) h (omega arith))
      λ next n.
        Returns-if (not (ltb (start + 3) (length bytes))) (λ _. returns (λ u e. cc, (n.0, n.1)))
          λ inside. Returns-byte_at bytes (start + 3) _ (ground arith) (
            Returns-bind (trim_zeros-Returns bytes (start + 3) next (n.1)) λ end' t.
              Returns-if (not (bit_and (get_or bytes (start + 3) 0) 0x1F == 7))
                (λ _. returns (λ u e. cc, (n.0, n.1)))
                λ seven.
                  let header : bit_and (get_or bytes (start + 3) 0) 0x1F ≡ 7 = ground arith in
                  let z = set-header (get_or bytes (start + 3) 0) header in
                  let (l, k, last) =
                    t z (header_before bytes (start + 3) next n (ground arith) z) in
                  Returns-slice bytes (start + 3 + 1) end' _ (omega arith) k (
                    returns (
                      λ u e. record {
                        start = start;
                        stop = end';
                        code = code;
                        header = header;
                        inside = (omega arith, k);
                        last = last;
                        cut =
                            let at' : start + 3 + 1 ≡ start + 4 = omega arith in
                            let same : take (end' - (start + 3 + 1)) (drop (start + 3 + 1) bytes)
                                ≡ u =
                              cc in
                            sym same ∙ ap (λ (t : ℕ). take (end' - t) (drop t bytes)) at';
                      },
                      (n.0, n.1),
                    )))

sps_loop-Returns :
    (fuel : ℕ) (bytes : List ℕ) (i : ℕ)
    → 2 ≤ length bytes
    → length bytes < 2 ^ 64
    → i ≤ length bytes
    → length bytes < fuel + i
    → Returns
        (λ (o : Option (List ℕ)). (unit : List ℕ) → o ≡ some unit → IsSps bytes unit)
        (sps_loop fuel bytes i)
unfolding sps_loop
sps_loop-Returns zero bytes i two word h k = absurd (omega arith)
sps_loop-Returns (suc fuel) bytes i two word h k =
    let limit : (length bytes + 2 ^ 64 - 2) % 2 ^ 64 ≡ length bytes - 2 = omega arith in
    rw limit (
      Returns-if (not (ltb i (length bytes - 2))) (λ _. returns λ u e. cc)
        λ before.
          let inside : i + 2 < length bytes = ground arith in
          Returns-bind (starts_code-Returns bytes i inside) λ code c.
            Returns-if (not code)
              (λ _. sps_loop-Returns fuel bytes (i + 1) two word (omega arith) (omega arith))
              λ is_code.
                Returns-bind (unit_at-Returns bytes i (c (ground arith)) (omega arith)) λ r u.
                  elim (Option-cases (r.0)) [
                    | inl e ↦
                        rw e (
                          sps_loop-Returns fuel bytes (r.1) two word (u.1.1) (omega (arith, u.1.0)))
                    | inr (unit, e) ↦ rw e (returns λ v f. u.0 v (e ∙ f))
                  ])

-- On two bytes or more, as many as fit a word, `find_sps` ends without a panic; what it gives lies
-- behind a start code and a header of type 7, and reaches up to a byte that is no zero.
pub find_sps-Returns :
    (bytes : List ℕ)
    → 2 ≤ length bytes
    → length bytes < 2 ^ 64
    → Returns
        (λ (o : Option (List ℕ)). (unit : List ℕ) → o ≡ some unit → IsSps bytes unit)
        (find_sps bytes)
unfolding find_sps
find_sps-Returns bytes two word =
    sps_loop-Returns (length bytes + 2) bytes 0 two word (omega arith) (omega arith)

-- With fewer than two bytes `len - 2` wraps, and the first or second byte is read out of range: the
-- code panics, whatever the fuel from two rounds on.
pub sps_loop-short :
    (fuel : ℕ) (bytes : List ℕ) → length bytes < 2 → sps_loop (suc (suc fuel)) bytes 0 ≡ panic
unfolding sps_loop starts_code byte_at
sps_loop-short fuel [] h = refl
sps_loop-short fuel (b ∷ []) h = ground arith
sps_loop-short fuel (b ∷ c ∷ bs) h = absurd (omega arith)
