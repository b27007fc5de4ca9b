-- ===== src/Psi/Pat/RoundTrip.antt =====
-- src/psi/pat.rs: a patched table says what it was given.
use mymuxer.Base.{
  ℕ, suc, ◌+◌, ◌-◌, ◌*◌, ◌/◌, ◌%◌, ◌^◌, ◌≤◌, ◌<◌, ◌≡◌, refl, ap, ◌∙◌, arith, List, ◌++◌,
  append_assoc, length, take, set, get_or, All, length-append, length-take, length-set,
  set-append_left, get_or-append_left, bit_and, bit_or, ret, ◌>>=◌, store, byte_at-ret, store-ret,
  slice-ret,
}
use mymuxer.Psi.Encode.{be_bytes32}
use mymuxer.Psi.Pat.{analyze_pat, pat_entries, patch_pat_section}
use mymuxer.Psi.Pat.Entries.{IsMapping, programs, length-pat_entries, analyze_loop-pat_entries}

-- A header of eight bytes, with the section's length in bytes 1 and 2.
patched_header :
    (header : List ℕ) (b1 b2 : ℕ) → length header ≡ 8 → length (set (set header 1 b1) 2 b2) ≡ 8
patched_header header b1 b2 h =
    omega (arith, h, length-set (set header 1 b1) 2 b2, length-set header 1 b1)

-- The new section, and its header with the length.
section_length : ℕ → ℕ
section_length n = (8 + n * 4 - 3 + 4) % 2 ^ 16

pub patched_head : List ℕ → ℕ → List ℕ
patched_head original n =
    set
      (set (take 8 original) 1 (
        bit_or (bit_and (get_or (take 8 original) 1 0) 0xF0)
          (bit_and (section_length n / 2 ^ 8 % 256) 0x0F)))
      2 (bit_and (section_length n) 0xFF)

pub patched : (List ℕ → ℕ) → List ℕ → List (ℕ × ℕ) → List ℕ
patched crc32 original ms =
    let front = patched_head original (length ms) ++ pat_entries ms in
    front ++ be_bytes32 (crc32 front)

length-patched_head :
    (original : List ℕ) (n : ℕ) → 8 ≤ length original → length (patched_head original n) ≡ 8
unfolding patched_head
length-patched_head original n h =
    patched_header (take 8 original)
      (bit_or (bit_and (get_or (take 8 original) 1 0) 0xF0)
        (bit_and (section_length n / 2 ^ 8 % 256) 0x0F))
      (bit_and (section_length n) 0xFF) (omega (arith, length-take 8 original))

-- Lengths patched into a header of eight bytes with more behind it.
patch_head :
    (head tail : List ℕ) (b1 b2 : ℕ)
    → length head ≡ 8
    → set (set (head ++ tail) 1 b1) 2 b2 ≡ set (set head 1 b1) 2 b2 ++ tail
patch_head head tail b1 b2 h =
    ap (λ xs. set xs 2 b2) (set-append_left head tail 1 b1 (omega arith))
    ∙ set-append_left (set head 1 b1) tail 2 b2 (omega (arith, length-set head 1 b1))

store_twice :
    (head tail : List ℕ) (b1 b2 : ℕ) (crc32 : List ℕ → ℕ)
    → length head ≡ 8
    → (store (head ++ tail) 1 b1
        >>= (λ s1. store s1 2 b2 >>= (λ s2. ret (s2 ++ be_bytes32 (crc32 s2)))))
      ≡ ret (
          (set (set head 1 b1) 2 b2 ++ tail)
          ++ be_bytes32 (crc32 (set (set head 1 b1) 2 b2 ++ tail)))
store_twice head tail b1 b2 crc32 h = rw (
  store-ret (head ++ tail) 1 b1 (omega (arith, length-append head tail)),
  store-ret (set (head ++ tail) 1 b1) 2 b2
      (omega (arith, length-append head tail, length-set (head ++ tail) 1 b1)),
  patch_head head tail b1 b2 h,
)

patch_pat_section-patched :
    (crc32 : List ℕ → ℕ) (original : List ℕ) (ms : List (ℕ × ℕ))
    → 8 ≤ length original
    → patch_pat_section crc32 original ms ≡ ret (patched crc32 original ms)
unfolding patch_pat_section be_bytes32 patched patched_head section_length
patch_pat_section-patched crc32 original ms h =
    let base : List ℕ = take 8 original ++ pat_entries ms in
    let front : length (take 8 original) ≡ 8 = omega (arith, length-take 8 original) in
    let size : length base ≡ 8 + length ms * 4 =
      omega
        (arith, front, length-append (take 8 original) (pat_entries ms), length-pat_entries ms) in
    rw
      (
        slice-ret original 0 8 (omega arith) h,
        byte_at-ret base 1 (omega arith),
        get_or-append_left (take 8 original) (pat_entries ms) 1 0 (omega arith),
        size,
      )
      (store_twice (take 8 original) (pat_entries ms)
        (bit_or (bit_and (get_or (take 8 original) 1 0) 0xF0)
          (bit_and (section_length (length ms) / 2 ^ 8 % 256) 0x0F))
        (bit_and (section_length (length ms)) 0xFF) crc32 front)

-- The section without its checksum, and the bytes that `analyze_pat` reads.
analyze_pat-table :
    (head checksum : List ℕ) (ms : List (ℕ × ℕ))
    → length head ≡ 8
    → length checksum ≡ 4
    → All IsMapping ms
    → length ms < 2 ^ 16
    → analyze_pat ((head ++ pat_entries ms) ++ checksum) ≡ ret (programs ms)
unfolding analyze_pat
analyze_pat-table head checksum ms h k ok few =
    let whole : length ((head ++ pat_entries ms) ++ checksum) ≡ 12 + length ms * 4 = omega (
      arith,
      length-append (head ++ pat_entries ms) checksum,
      length-append head (pat_entries ms),
      length-pat_entries ms,
    ) in
    let last : (12 + length ms * 4 + 2 ^ 64 - 4) % 2 ^ 64 ≡ 8 + length ms * 4 = omega arith in
    rw (whole, last, append_assoc head (pat_entries ms) checksum)
      (rw h at
        (analyze_loop-pat_entries ms (suc (12 + length ms * 4)) head checksum ok (omega arith)))

-- A table made for a list of fewer than 65536 mappings from program numbers to the PIDs of their
-- PMTs, out of an original section of 8 bytes or more, is read as those programs, in order, whatever
-- the original table held and whatever its checksum; only mappings of number 0 are not programs.
pub analyze_pat-patch_pat_section :
    (crc32 : List ℕ → ℕ) (original : List ℕ) (ms : List (ℕ × ℕ))
    → 8 ≤ length original
    → All IsMapping ms
    → length ms < 2 ^ 16
    → (patch_pat_section crc32 original ms >>= analyze_pat) ≡ ret (programs ms)
analyze_pat-patch_pat_section crc32 original ms h ok few =
    ap (λ m. m >>= analyze_pat) (patch_pat_section-patched crc32 original ms h)
    ∙ unfold patched be_bytes32 in
      analyze_pat-table (patched_head original (length ms))
        (be_bytes32 (crc32 (patched_head original (length ms) ++ pat_entries ms))) ms
        (length-patched_head original (length ms) h) refl ok few
