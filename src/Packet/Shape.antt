-- ===== src/Packet/Shape.antt =====
-- A packet seen through its first twelve bytes, on which src/packet.rs computes.
use mathlib.Core.Path.{subst}
use mymuxer.Base.{
  ℕ, suc, ◌<◌, ◌≡◌, refl, sym, List, [], ◌∷◌, length, get_or, drop, length-drop, arith,
}
use mymuxer.Packet.{ts_packet_size}

pub drop-eq-cons :
    (n : ℕ) (xs : List ℕ) → n < length xs → drop n xs ≡ get_or xs n 0 ∷ drop (suc n) xs
drop-eq-cons n [] h = elim h [ ]
drop-eq-cons ℕ.zero (x ∷ xs) h = refl
drop-eq-cons (suc n) (x ∷ xs) h = drop-eq-cons n xs (omega arith)

-- A statement about every packet follows from the statement at twelve named bytes and the rest.
pub packet_cases {ℓ} :
    (P : List ℕ → Type ℓ)
    → ((a0 a1 a2 a3 a4 a5 a6 a7 a8 a9 a10 a11 : ℕ) (rest : List ℕ)
        → length rest ≡ 176
        → P (a0 ∷ a1 ∷ a2 ∷ a3 ∷ a4 ∷ a5 ∷ a6 ∷ a7 ∷ a8 ∷ a9 ∷ a10 ∷ a11 ∷ rest))
    → (p : List ℕ) → length p ≡ ts_packet_size
    → P p
packet_cases P f p h =
    subst P (sym whole) (f _ _ _ _ _ _ _ _ _ _ _ _ (drop 12 p) (omega (arith, length-drop 12 p)))
  where
    whole :
        p
        ≡ get_or p 0 0
          ∷ get_or p 1 0
          ∷ get_or p 2 0
          ∷ get_or p 3 0
          ∷ get_or p 4 0
          ∷ get_or p 5 0
          ∷ get_or p 6 0
          ∷ get_or p 7 0
          ∷ get_or p 8 0
          ∷ get_or p 9 0
          ∷ get_or p 10 0
          ∷ get_or p 11 0
          ∷ drop 12 p
    whole = cc (
      drop-eq-cons 0 p (omega arith),
      drop-eq-cons 1 p (omega arith),
      drop-eq-cons 2 p (omega arith),
      drop-eq-cons 3 p (omega arith),
      drop-eq-cons 4 p (omega arith),
      drop-eq-cons 5 p (omega arith),
      drop-eq-cons 6 p (omega arith),
      drop-eq-cons 7 p (omega arith),
      drop-eq-cons 8 p (omega arith),
      drop-eq-cons 9 p (omega arith),
      drop-eq-cons 10 p (omega arith),
      drop-eq-cons 11 p (omega arith),
    )
