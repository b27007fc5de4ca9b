-- ===== src/Mux/Sync/Search.antt =====
-- `sync_buffer` ends, skips no place where packets start, and keeps everything from there on.
use mymuxer.Base.{
  ℕ, zero, suc, ◌+◌, ◌-◌, ◌*◌, ◌≤◌, ◌<◌, ◌≡◌, refl, ◌∙◌, arith, List, [], ◌∷◌, Bool, true, false,
  none, some, length, get_or, drop, ltb, ◌==◌, Bool-cases, Option-cases, inl, inr, ltb→lt,
  ltb_false→le, length-drop, drop-drop, get_or-drop, drop_of_length_le,
}
use native.Mathlib.Decide.{dec_lt}
use mymuxer.Packet.{ts_packet_size, ts_sync_byte}
use mymuxer.Mux.Sync.{position, three_syncs, sync_loop, sync_buffer}

-- What `position` says of the bytes that it passes.
position-some :
    (xs : List ℕ) (n i : ℕ) → position xs ≡ some n → i < n → (get_or xs i 0 == ts_sync_byte) ≡ false
unfolding position
position-some [] n i h k = cc
position-some (b ∷ xs) n i h k = elim (Bool-cases (b == ts_sync_byte)) [
  | inl e ↦ ground arith
  | inr e ↦ elim (Option-cases (position xs)) [
    | inl p ↦ ground arith
    | inr (m, p) ↦ below b xs n m i e p (ground arith) k (position-some xs m)
  ]
]
  where
    below :
        (b : ℕ) (xs : List ℕ) (n m i : ℕ)
        → (b == ts_sync_byte) ≡ false
        → position xs ≡ some m
        → n ≡ suc m
        → i < n
        → ((j : ℕ) → position xs ≡ some m → j < m → (get_or xs j 0 == ts_sync_byte) ≡ false)
        → (get_or (b ∷ xs) i 0 == ts_sync_byte) ≡ false
    below b xs n m zero e p q k ih = e
    below b xs n m (suc i) e p q k ih = ih i p (omega arith)

position-none : (xs : List ℕ) (i : ℕ) → position xs ≡ none → (get_or xs i 0 == ts_sync_byte) ≡ false
unfolding position
position-none [] i h = refl
position-none (b ∷ xs) zero h = ground arith
position-none (b ∷ xs) (suc i) h = position-none xs i (ground arith)

position-lt : (xs : List ℕ) (n : ℕ) → position xs ≡ some n → n < length xs
unfolding position
position-lt [] n h = cc
position-lt (b ∷ xs) n h = elim (Option-cases (position xs)) [
  | inl p ↦ ground arith
  | inr (m, p) ↦ ground (arith, position-lt xs m)
]

-- Packets start here: 564 bytes or more, with three sync bytes.
abbrev pub Synced : List ℕ → Type 0
Synced buff = (ts_packet_size * 3 ≤ length buff) × (three_syncs buff ≡ true)

-- The outcome of the search: `k` bytes are dropped, and packets start at none of them.
pub record Found (buff : List ℕ) (ok : Bool) (rest : List ℕ) : Type 0 where
  pub dropped : ℕ
  pub suffix : rest ≡ drop dropped buff
  pub none_skipped : (i : ℕ) → i < dropped → ¬ Synced (drop i buff)
  pub starts : ok ≡ true → Synced rest
  pub short : ok ≡ false → length rest < ts_packet_size * 3

-- Without a sync byte at the front packets do not start.
not-Synced :
    (buff : List ℕ) (i : ℕ) → (get_or buff i 0 == ts_sync_byte) ≡ false → ¬ Synced (drop i buff)
unfolding three_syncs
not-Synced buff i h (size, s) =
    let e : i + 0 ≡ i = omega arith in ground (arith, get_or-drop i buff 0 0, e)

-- The bytes that one round drops.
round_skips :
    (buff : List ℕ) (n : ℕ)
    → three_syncs buff ≡ false
    → ((j : ℕ) → j < n → (get_or (drop 1 buff) j 0 == ts_sync_byte) ≡ false)
    → (i : ℕ) → i < suc n
    → ¬ Synced (drop i buff)
round_skips buff n h f zero k s = cc (s.1)
round_skips buff n h f (suc j) k s =
    let e : 1 + j ≡ suc j = omega arith in
    not-Synced buff (suc j) (rw (get_or-drop 1 buff j 0, e) at (f j (omega arith))) s

-- A search of what is left after `n` bytes, at none of which packets start.
Found-after :
    (n : ℕ) (buff : List ℕ) (ok : Bool) (rest : List ℕ)
    → ((i : ℕ) → i < n → ¬ Synced (drop i buff))
    → Found (drop n buff) ok rest
    → Found buff ok rest
Found-after n buff ok rest before f = record {
  dropped = n + f.dropped;
  suffix = f.suffix ∙ drop-drop n f.dropped buff;
  none_skipped = λ i h. elim (dec_lt i n) [
    | yes k ↦ before i k
    | no k ↦
        let e : n + (i - n) ≡ i = omega arith in
        rw (drop-drop n (i - n) buff, e) at (f.none_skipped (i - n) (omega arith))
  ];
  starts = f.starts;
  short = f.short;
}

Found-short : (buff : List ℕ) → length buff < ts_packet_size * 3 → Found buff false buff
Found-short buff h = record {
  dropped = 0;
  suffix = refl;
  none_skipped = λ i k. elim k [ ];
  starts = λ e. cc;
  short = λ e. h;
}

Found-here : (buff : List ℕ) → Synced buff → Found buff true buff
Found-here buff s = record {
  dropped = 0;
  suffix = refl;
  none_skipped = λ i k. elim k [ ];
  starts = λ e. s;
  short = λ e. cc;
}

sync_loop-Found :
    (fuel : ℕ) (buff : List ℕ)
    → length buff < fuel
    → (ok : Bool) × (rest : List ℕ) × (sync_loop fuel buff ≡ some (ok, rest)) × Found buff ok rest
unfolding sync_loop
sync_loop-Found zero buff h = elim h [ ]
sync_loop-Found (suc fuel) buff h = elim (Bool-cases (ltb (length buff) 564)) [
  | inl few ↦ (false, buff, rw few, Found-short buff (ltb→lt _ _ few))
  | inr many ↦ elim (Bool-cases (three_syncs buff)) [
    | inl s ↦ (true, buff, rw (many, s), Found-here buff (ltb_false→le _ _ many, s))
    | inr ns ↦ elim (Option-cases (position (drop 1 buff))) [
      | inl p ↦ (
        false,
        [],
        ground arith,
        Found-after (suc (length buff)) buff false []
            (round_skips buff (length buff) ns (λ j k. position-none (drop 1 buff) j p))
            (rw (drop_of_length_le (suc (length buff)) buff (omega arith))
              (Found-short [] (omega arith))),
      )
      | inr (pos, p) ↦
          let (ok, rest, e, f) =
            sync_loop-Found fuel (drop (pos + 1) buff)
              (omega (arith, h, length-drop (pos + 1) buff, ltb_false→le _ _ many)) in
          (
            ok,
            rest,
            ground arith,
            Found-after (pos + 1) buff ok rest
                (λ i k.
                  round_skips buff pos ns (λ j l. position-some (drop 1 buff) pos j p l) i
                    (omega arith))
                f,
          )
    ]
  ]
]

-- `sync_buffer` ends on every input. It leaves a suffix of the bytes received, and drops no byte
-- at which packets start: 564 bytes or more with sync bytes at 0, 188 and 376. It answers `true`
-- exactly with packets at the front, and `false` with too few bytes to tell.
pub sync_buffer-Found :
    (buff : List ℕ)
    → (ok : Bool) × (rest : List ℕ) × (sync_buffer buff ≡ some (ok, rest)) × Found buff ok rest
unfolding sync_buffer
sync_buffer-Found buff = sync_loop-Found (suc (length buff)) buff (omega arith)
