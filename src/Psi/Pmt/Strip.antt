-- ===== src/Psi/Pmt/Strip.antt =====
-- The descriptors of conditional access in a list of descriptors.
use mymuxer.Base.{
  ℕ, zero, suc, ◌≤◌, ◌≡◌, refl, arith, List, [], ◌∷◌, ◌++◌, true, ◌==◌, if◌then◌else◌, length,
  length-append, take-append_left, drop-append_left,
}
use mymuxer.Psi.Pmt.{strip_loop, patch_descriptors}

-- Descriptors as their tags and bodies.
pub encoded : List (ℕ × List ℕ) → List ℕ
encoded [] = []
encoded ((tag, body) ∷ ds) = tag ∷ length body ∷ (body ++ encoded ds)

-- Those that are not of conditional access.
pub without_ca : List (ℕ × List ℕ) → List (ℕ × List ℕ)
without_ca [] = []
without_ca ((tag, body) ∷ ds) = if tag == 0x09 then without_ca ds else ((tag, body) ∷ without_ca ds)

strip_loop-encoded :
    (ds : List (ℕ × List ℕ)) (fuel : ℕ)
    → length (encoded ds) ≤ fuel
    → strip_loop fuel (encoded ds) ≡ encoded (without_ca ds)
unfolding strip_loop encoded without_ca
strip_loop-encoded [] zero h = refl
strip_loop-encoded [] (suc fuel) h = refl
strip_loop-encoded ((tag, body) ∷ ds) zero h = elim h [ ]
strip_loop-encoded ((tag, body) ∷ ds) (suc fuel) h =
    let size = length-append body (encoded ds) in
    let rest = strip_loop-encoded ds fuel (omega arith) in
    ground (
      arith,
      rest,
      size,
      take-append_left (length body) body (encoded ds) refl,
      drop-append_left (length body) body (encoded ds) refl,
    )

-- Stripping takes out exactly the descriptors of conditional access, and leaves the others as they
-- stand, in order.
pub patch_descriptors-encoded :
    (ds : List (ℕ × List ℕ)) → patch_descriptors (encoded ds) true ≡ encoded (without_ca ds)
unfolding patch_descriptors
patch_descriptors-encoded ds = strip_loop-encoded ds (length (encoded ds)) (omega arith)
