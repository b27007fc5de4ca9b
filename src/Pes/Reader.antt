-- ===== src/Pes/Reader.antt =====
-- src/pes/golomb.rs and src/pes/es_parsers.rs: reading as steps that carry the reader on, with
-- `read_se`. `none` is the fuel of `read_ue` run out.
use mymuxer.Base.{
  ℕ, suc, ◌+◌, ◌-◌, ◌%◌, ◌^◌, Bool, false, Option, none, some, ltb, ◌==◌, if◌then◌else◌,
}
use mymuxer.Base.Int.{ℤ, pos, negsuc, pos_part, neg_part, sub_ℕ, quot}
use mymuxer.Pes.Golomb as Golomb
use mymuxer.Pes.Golomb.{BitReader}

abbrev pub Reads : Type 0 → Type 0
Reads A = BitReader → Option (BitReader × A)

infixl 5 ◌>>=◌ ◌>>◌
abbrev pub ◌>>=◌ : {A B : Type 0} → Reads A → (A → Reads B) → Reads B
◌>>=◌ m f r = elim (m r) [ none ↦ none | some (r', a) ↦ f a r' ]

abbrev pub ◌>>◌ : {A B : Type 0} → Reads A → Reads B → Reads B
m >> k = m >>= λ _. k

abbrev pub pure : {A : Type 0} → A → Reads A
pure a r = some (r, a)

unfoldable pub bits : ℕ → Reads ℕ
bits n r = some (Golomb.read_bits r n)

-- An `i32` of a word of 32 bits, and of what overflows.
unfoldable pub to_i32 : ℕ → ℤ
to_i32 n = if ltb n (2 ^ 31) then pos n else sub_ℕ n (2 ^ 32)

unfoldable pub wrap_i32 : ℤ → ℤ
unfolding to_i32
wrap_i32 (pos n) = to_i32 (n % 2 ^ 32)
wrap_i32 (negsuc n) = to_i32 (2 ^ 32 - 1 - n % 2 ^ 32)

-- `a + b` and `a % b` on `i32`; the remainder has the sign of `a`.
unfoldable pub add_i32 : ℤ → ℤ → ℤ
unfolding wrap_i32
add_i32 a b = wrap_i32 (sub_ℕ (pos_part a + pos_part b) (neg_part a + neg_part b))

unfoldable pub rem : ℤ → ℕ → ℤ
rem (pos n) d = pos (n % d)
rem (negsuc n) d = sub_ℕ 0 (suc n % d)

-- `-a`, where it does not overflow.
unfoldable pub negated : ℤ → ℤ
negated a = sub_ℕ (neg_part a) (pos_part a)

unfoldable pub is_zero : ℤ → Bool
is_zero (pos n) = n == 0
is_zero (negsuc n) = false

-- A field that is there if a flag is set, and else 0.
unfoldable pub if_set : ℕ → Reads ℕ → Reads ℕ
if_set flag m = if flag == 1 then m else pure 0

module _ (fuel : ℕ) where
  unfoldable pub ue : Reads ℕ
  ue r = Golomb.read_ue fuel r

  -- `read_se` of src/pes/golomb.rs
  unfoldable pub read_se : Reads ℤ
  unfolding ue add_i32 negated
  read_se = do
    word ← ue
    let code_num = to_i32 word
    pure (if word % 2 == 0 then negated (quot code_num 2) else quot (add_i32 code_num (pos 1)) 2)
