-- ===== src/Pes/Nal/Escape.antt =====
-- `ebsp_to_rbsp` undoes the escapes of H.264.
use mymuxer.Base.{ℕ, ◌+◌, ◌≤◌, ◌≡◌, refl, arith, List, [], ◌∷◌, ◌&&◌, leb, ◌==◌, if◌then◌else◌}
use mymuxer.Pes.Nal.{rbsp_from, ebsp_to_rbsp}

-- The standard's escape: behind two zeros, a byte up to 3 gets a byte 3 in front.
pub escape_from : ℕ → List ℕ → List ℕ
escape_from zero_count [] = []
escape_from zero_count (b ∷ bs) =
    let escaped = 3 ∷ b ∷ escape_from (if b == 0 then 1 else 0) bs in
    let plain = b ∷ escape_from (if b == 0 then zero_count + 1 else 0) bs in
    if (zero_count == 2) && leb b 3 then escaped else plain

abbrev pub escape : List ℕ → List ℕ
escape bytes = escape_from 0 bytes

rbsp_from-escape_from : (k : ℕ) (bs : List ℕ) → k ≤ 2 → rbsp_from k (escape_from k bs) ≡ bs
unfolding rbsp_from escape_from
rbsp_from-escape_from k [] h = refl
rbsp_from-escape_from k (b ∷ bs) h = ground (
  arith,
  rbsp_from-escape_from 1 bs (omega arith),
  rbsp_from-escape_from 0 bs (omega arith),
  rbsp_from-escape_from (k + 1) bs,
)

-- Whatever the payload, unescaping its escaped form gives it back.
pub ebsp_to_rbsp-escape : (bytes : List ℕ) → ebsp_to_rbsp (escape bytes) ≡ bytes
unfolding ebsp_to_rbsp
ebsp_to_rbsp-escape bytes = rbsp_from-escape_from 0 bytes (omega arith)
