-- ===== src/Workers/Chunks.antt =====
-- What is broadcast: the chunk, cut into pieces of bounded size.
use mymuxer.Base.{
  ℕ, zero, suc, ◌%◌, ◌≤◌, ◌≡◌, refl, sym, ap, ◌∙◌, arith, List, [], ◌∷◌, ◌++◌, All, Bool-cases, inl,
  inr, leb, length, take, drop, take-append-drop, length-take, length-drop, append-nil, leb→le,
}
use mymuxer.Psi.Eit.{concat}
use mymuxer.Packet.{ts_packet_size}
use mymuxer.Workers.{broadcast_chunk_size, chunks, send_broadcast_chunks}

-- A piece is not too large, and whole packets stay whole.
abbrev pub IsPiece : List ℕ → Type 0
IsPiece piece = (length piece ≤ broadcast_chunk_size) × (length piece % ts_packet_size ≡ 0)

concat-chunks :
    (fuel : ℕ) (bytes : List ℕ) → length bytes ≤ fuel → concat (chunks fuel bytes) ≡ bytes
unfolding chunks
concat-chunks zero [] h = refl
concat-chunks zero (b ∷ bytes) h = absurd (omega arith)
concat-chunks (suc fuel) [] h = refl
concat-chunks (suc fuel) (b ∷ bytes) h =
    let n : length (drop broadcast_chunk_size (b ∷ bytes)) ≤ fuel =
      omega (arith, length-drop broadcast_chunk_size (b ∷ bytes)) in
    ap (λ t. take broadcast_chunk_size (b ∷ bytes) ++ t) (concat-chunks fuel _ n)
    ∙ take-append-drop broadcast_chunk_size (b ∷ bytes)

chunks-All :
    (fuel : ℕ) (bytes : List ℕ)
    → length bytes % ts_packet_size ≡ 0
    → All IsPiece (chunks fuel bytes)
unfolding chunks
chunks-All zero bytes h = tt
chunks-All (suc fuel) [] h = tt
chunks-All (suc fuel) (b ∷ bytes) h = (
  (
    omega (arith, length-take broadcast_chunk_size (b ∷ bytes)),
    omega (arith, length-take broadcast_chunk_size (b ∷ bytes)),
  ),
  chunks-All fuel _ (omega (arith, length-drop broadcast_chunk_size (b ∷ bytes))),
)

-- Of a chunk of whole packets, the pieces sent are the chunk, in order; each is of whole packets
-- and of at most 64, and the number of its bytes is what the call answers.
pub send_broadcast_chunks-IsPiece :
    (chunk : List ℕ)
    → length chunk % ts_packet_size ≡ 0
    → (concat (send_broadcast_chunks chunk).0 ≡ chunk)
      × All IsPiece (send_broadcast_chunks chunk).0
      × ((send_broadcast_chunks chunk).1 ≡ length (concat (send_broadcast_chunks chunk).0))
unfolding send_broadcast_chunks
send_broadcast_chunks-IsPiece chunk h =
    elim (Bool-cases (leb (length chunk) broadcast_chunk_size)) [
      | inl small ↦
          rw small
            (append-nil chunk, ((leb→le _ _ small, h), tt), sym (ap length (append-nil chunk)))
      | inr large ↦
          let whole = concat-chunks (length chunk) chunk (omega arith) in
          rw large (whole, chunks-All (length chunk) chunk h, sym (ap length whole))
    ]
