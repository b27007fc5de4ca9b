-- ===== src/Pes/Audio/First.antt =====
-- The search for the header of MPEG audio finds the first one.
use mymuxer.Base.{
  ℕ, zero, suc, ◌+◌, ◌-◌, ◌/◌, ◌^◌, ◌≤◌, ◌<◌, ◌≡◌, ◌≢◌, arith, List, [], ◌∷◌, true, false, Option,
  none, some, leb, ltb, le→leb, ltb→lt, ltb_false→le, ◌==◌, length, get_or, drop, get_or-drop,
  length-drop, All, get_or-All, inl, inr, Bool-cases, Option-cases,
}
use native.Mathlib.Decide.{dec_lt}
use mymuxer.Packet.{IsByte}
use mymuxer.Pes.Audio.{
  word_at, read_u32_be, position_of, find_byte, checked, header_loop, find_mpeg_audio_header,
}

-- A header at `i`: four bytes with the twelve ones of a sync word.
pub record HeaderAt (bytes : List ℕ) (i : ℕ) : Type 0 where
  pub inside : i + 4 ≤ length bytes
  pub synced : word_at bytes i / 2 ^ 20 ≡ 0xFFF

-- The first header from `p` on, or none.
pub data FirstFrom (bytes : List ℕ) (p : ℕ) : Option ℕ → Type 0 where
  found :
      (i : ℕ)
      → p ≤ i
      → HeaderAt bytes i
      → ((j : ℕ) → p ≤ j → j < i → ¬ HeaderAt bytes j)
      → FirstFrom bytes p (some (word_at bytes i))
  nowhere : ((j : ℕ) → p ≤ j → ¬ HeaderAt bytes j) → FirstFrom bytes p none

position_of-none :
    (bs : List ℕ) (v i : ℕ) → position_of bs v ≡ none → i < length bs → get_or bs i 0 ≢ v
unfolding position_of
position_of-none [] v i e h = elim h [ ]
position_of-none (b ∷ bs) v zero e h = ground arith
position_of-none (b ∷ bs) v (suc i) e h = ground (arith, position_of-none bs v i)

-- Before a byte behind the first, where the first is another.
earlier :
    (b : ℕ) (bs : List ℕ) (v k : ℕ)
    → (b == v) ≡ false
    → ((i : ℕ) → i < k → get_or bs i 0 ≢ v)
    → (i : ℕ) → i < suc k
    → get_or (b ∷ bs) i 0 ≢ v
earlier b bs v k other before zero h = ground arith
earlier b bs v k other before (suc i) h = before i (omega arith)

position_of-some :
    (bs : List ℕ) (v k : ℕ)
    → position_of bs v ≡ some k
    → (k < length bs) × (get_or bs k 0 ≡ v) × ((i : ℕ) → i < k → get_or bs i 0 ≢ v)
unfolding position_of
position_of-some [] v k e = cc
position_of-some (b ∷ bs) v k e = elim (Bool-cases (b == v)) [
  | inl same ↦
      let f : k ≡ 0 = ground arith in (omega arith, ground arith, λ i h. absurd (omega arith))
  | inr other ↦ elim (Option-cases (position_of bs v)) [
    | inl n ↦ absurd (ground arith)
    | inr (j, f) ↦
        let g : k ≡ suc j = ground arith in
        let (l, m, before) = position_of-some bs v j f in
        (omega arith, rw g m, rw g (earlier b bs v j other before))
  ]
]

find_byte-none :
    (bytes : List ℕ) (v start i : ℕ)
    → find_byte bytes v start ≡ none
    → start ≤ i
    → i < length bytes
    → get_or bytes i 0 ≢ v
unfolding find_byte
find_byte-none bytes v start i e h k =
    let n : position_of (drop start bytes) v ≡ none = ground (arith) in
    let d : start + (i - start) ≡ i = omega arith in
    rw (get_or-drop start bytes (i - start) 0, d) at
      (position_of-none (drop start bytes) v (i - start) n (omega (arith, length-drop start bytes)))

find_byte-some :
    (bytes : List ℕ) (v start pos : ℕ)
    → find_byte bytes v start ≡ some pos
    → (start ≤ pos)
      × (pos < length bytes)
      × (get_or bytes pos 0 ≡ v)
      × ((i : ℕ) → start ≤ i → i < pos → get_or bytes i 0 ≢ v)
unfolding find_byte
find_byte-some bytes v start pos e = elim (Bool-cases (leb start (length bytes))) [
  | inr far ↦ absurd (ground arith)
  | inl near ↦ elim (Option-cases (position_of (drop start bytes) v)) [
    | inl n ↦ absurd (ground arith)
    | inr (k, f) ↦
        let g : pos ≡ k + start = ground arith in
        let (l, m, before) = position_of-some (drop start bytes) v k f in
        let c : k + start ≡ start + k = omega arith in
        let len = length-drop start bytes in
        (
          omega arith,
          omega arith,
          rw (g, c) (rw (get_or-drop start bytes k 0) at m),
          λ i h j.
              let d : start + (i - start) ≡ i = omega arith in
              rw (get_or-drop start bytes (i - start) 0, d) at (before (i - start) (omega arith)),
        )
  ]
]

-- A header starts with the byte 0xFF, and so does the word of a header that is one byte further on
-- only if one is here.
header_byte :
    (bytes : List ℕ) (i : ℕ) → All IsByte bytes → HeaderAt bytes i → get_or bytes i 0 ≡ 0xFF
header_byte bytes i b h =
    let inside = h.inside in
    let synced = h.synced in
    let b0 = get_or-All IsByte bytes i 0 b (omega arith) in
    let b1 = get_or-All IsByte bytes (i + 1) 0 b (omega arith) in
    let b2 = get_or-All IsByte bytes (i + 2) 0 b (omega arith) in
    let b3 = get_or-All IsByte bytes (i + 3) 0 b (omega arith) in omega arith

header_after :
    (bytes : List ℕ) (i : ℕ)
    → All IsByte bytes
    → i + 4 ≤ length bytes
    → get_or bytes i 0 ≡ 0xFF
    → get_or bytes (i + 1) 0 ≡ 0xFF
    → HeaderAt bytes i
header_after bytes i b h e f =
    let b2 = get_or-All IsByte bytes (i + 2) 0 b (omega arith) in
    let b3 = get_or-All IsByte bytes (i + 3) 0 b (omega arith) in
    record { inside = h; synced = omega arith }

-- The search from behind a place at which there is no header, nor at the place before it.
FirstFrom-later :
    (bytes : List ℕ) (p q : ℕ) {o : Option ℕ}
    → p ≤ q
    → ((j : ℕ) → p ≤ j → j < q → ¬ HeaderAt bytes j)
    → FirstFrom bytes q o
    → FirstFrom bytes p o
FirstFrom-later bytes p q h before (found i k at' first) =
    found i (omega arith) at'
      λ j l m. elim (dec_lt j q) [ yes n ↦ before j l n | no n ↦ first j (omega arith) m ]
FirstFrom-later bytes p q h before (nowhere never) =
    nowhere λ j l. elim (dec_lt j q) [ yes n ↦ before j l n | no n ↦ never j (omega arith) ]

next_two :
    (bytes : List ℕ) (pos : ℕ)
    → All IsByte bytes
    → get_or bytes pos 0 ≡ 0xFF
    → pos + 4 ≤ length bytes
    → (word_at bytes pos / 2 ^ 20 == 0xFFF) ≡ false
    → (j : ℕ) → pos ≤ j
    → j < pos + 2
    → ¬ HeaderAt bytes j
next_two bytes pos b e there other j l m h = elim (dec_lt pos j) [
  | no n ↦ let same : j ≡ pos = omega arith in not_here (rw same at h)
  | yes n ↦
      let same : j ≡ pos + 1 = omega arith in
      not_here (header_after bytes pos b there e (header_byte bytes (pos + 1) b (rw same at h)))
]
  where
    not_here : ¬ HeaderAt bytes pos
    not_here k = let s = k.synced in absurd (ground arith)

-- What a round of the loop gives at a byte 0xFF.
checked-FirstFrom :
    (bytes : List ℕ) (pos : ℕ) (more : Option (Option ℕ))
    → All IsByte bytes
    → get_or bytes pos 0 ≡ 0xFF
    → (pos + 4 ≤ length bytes → (o : Option ℕ) × (more ≡ some o) × FirstFrom bytes (pos + 2) o)
    → (o : Option ℕ) × (checked bytes pos more ≡ some o) × FirstFrom bytes pos o
unfolding checked read_u32_be
checked-FirstFrom bytes pos more b e later = elim (Bool-cases (ltb (length bytes) (pos + 4))) [
  | inl short ↦ (
    none,
    rw short,
    nowhere λ j l h. let i = h.inside in let s = ltb→lt _ _ short in absurd (omega arith),
  )
  | inr long ↦
      let there : pos + 4 ≤ length bytes = ltb_false→le _ _ long in
      let read : leb (pos + 4) (length bytes) ≡ true = le→leb _ _ there in
      elim (Bool-cases (word_at bytes pos / 2 ^ 20 == 0xFFF)) [
        | inl synced ↦ (
          some (word_at bytes pos),
          rw (long, read, synced),
          found pos (omega arith) (record { inside = there; synced = ground arith })
              (λ j l m. absurd (omega arith)),
        )
        | inr other ↦
            let (o, f, first) = later there in
            (
              o,
              rw (long, read, other) f,
              FirstFrom-later bytes pos (pos + 2) (omega arith) (next_two bytes pos b e there other)
                  first,
            )
      ]
]

header_loop-FirstFrom :
    (fuel : ℕ) (bytes : List ℕ) (p : ℕ)
    → All IsByte bytes
    → p ≤ length bytes
    → length bytes < fuel + p
    → (o : Option ℕ) × (header_loop fuel bytes p ≡ some o) × FirstFrom bytes p o
unfolding header_loop
header_loop-FirstFrom zero bytes p b i h = absurd (omega arith)
header_loop-FirstFrom (suc fuel) bytes p b i h = elim (Bool-cases (ltb p (length bytes))) [
  | inr past ↦ (
    none,
    rw past,
    nowhere λ j l h. let s = ltb_false→le _ _ past in let inside = h.inside in absurd (omega arith),
  )
  | inl before ↦ elim (Option-cases (find_byte bytes 0xFF p)) [
    | inl n ↦ (
      none,
      rw (before, n),
      nowhere λ j l k.
          let inside = k.inside in
          find_byte-none bytes 0xFF p j n l (omega arith) (header_byte bytes j b k),
    )
    | inr (pos, e) ↦
        let (l, m, byte, early) = find_byte-some bytes 0xFF p pos e in
        let (o, f, first) =
          checked-FirstFrom bytes pos (header_loop fuel bytes (pos + 2)) b byte
            (λ there. header_loop-FirstFrom fuel bytes (pos + 2) b (omega arith) (omega arith)) in
        (
          o,
          rw (before, e) f,
          FirstFrom-later bytes p pos l (λ j i k a. early j i k (header_byte bytes j b a)) first,
        )
  ]
]

-- On bytes the search ends, and gives the four bytes of the first place where a header stands, or
-- nothing where none does.
pub find_mpeg_audio_header-FirstFrom :
    (bytes : List ℕ)
    → All IsByte bytes
    → (o : Option ℕ) × (find_mpeg_audio_header bytes ≡ some o) × FirstFrom bytes 0 o
unfolding find_mpeg_audio_header
find_mpeg_audio_header-FirstFrom bytes b =
    header_loop-FirstFrom (length bytes + 1) bytes 0 b (omega arith) (omega arith)
