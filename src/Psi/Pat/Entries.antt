-- ===== src/Psi/Pat/Entries.antt =====
-- src/psi/pat.rs: the entries of a table are read back.
use mymuxer.Base.{
  ℕ, zero, suc, ◌+◌, ◌*◌, ◌/◌, ◌%◌, ◌^◌, ◌≤◌, ◌<◌, ◌≡◌, refl, ◌∙◌, arith, List, [], ◌∷◌, ◌++◌,
  append_assoc, le→leb, ◌==◌, if◌then◌else◌, length, All, length-append, bit_and, bit_or, ret,
  byte_at-append_start, byte_at-append_right,
}
use mymuxer.Base.Bits.{bit_and_low, bit_or_disjoint, bit_or_comm}
use mymuxer.Psi.Pat.{PatInfo, analyze_loop, pat_entries}

-- Program numbers of 16 bits and PIDs of 13.
abbrev pub IsMapping : ℕ × ℕ → Type 0
IsMapping (prog_num, pmt_pid) = (prog_num < 2 ^ 16) × (pmt_pid < 2 ^ 13)

-- The programs of a table: the mappings, but for number 0, which is the network's.
unfoldable pub programs : List (ℕ × ℕ) → List PatInfo
programs [] = []
programs ((prog_num, pmt_pid) ∷ ms) =
    if prog_num == 0
    then programs ms
    else (record { prog_num = prog_num; pmt_pid = pmt_pid } ∷ programs ms)

pub length-pat_entries : (ms : List (ℕ × ℕ)) → length (pat_entries ms) ≡ length ms * 4
unfolding pat_entries
length-pat_entries [] = refl
length-pat_entries (m ∷ ms) = omega (arith, length-pat_entries ms)

pub join_16 : (n : ℕ) → n < 2 ^ 16 → bit_or (n / 256 % 256 * 256) (bit_and n 0xFF) ≡ n
join_16 n h = ground (arith, bit_and_low 8 n, bit_or_disjoint 8 (n / 256 % 256 * 256) (n % 256))

pub reserved_byte :
    (n : ℕ) → n < 2 ^ 13 → bit_or (bit_and (n / 256 % 256) 0x1F) 0xE0 ≡ n / 256 + 224
reserved_byte n h = ground (
  arith,
  bit_and_low 5 (n / 256 % 256),
  bit_or_comm (n / 256) 224,
  bit_or_disjoint 5 224 (n / 256),
)

pub join_13 :
    (n : ℕ)
    → n < 2 ^ 13
    → bit_or (bit_and (bit_or (bit_and (n / 256 % 256) 0x1F) 0xE0) 0x1F * 256) (bit_and n 0xFF) ≡ n
join_13 n h = ground (
  arith,
  reserved_byte n h,
  bit_and_low 5 (n / 256 + 224),
  bit_and_low 8 n,
  bit_or_disjoint 8 (n / 256 * 256) (n % 256),
)

-- One round, on an entry behind a known front.
pub analyze_loop_step :
    (fuel end b0 b1 b2 b3 : ℕ) (front rest : List ℕ) {ps : List PatInfo}
    → length front + 4 ≤ end
    → analyze_loop fuel (front ++ (b0 ∷ b1 ∷ b2 ∷ b3 ∷ rest)) (length front + 4) end ≡ ret ps
    → analyze_loop (suc fuel) (front ++ (b0 ∷ b1 ∷ b2 ∷ b3 ∷ rest)) (length front) end
      ≡ ret (
          if bit_or (b0 * 256) b1 == 0
          then ps
          else (record {
            prog_num = bit_or (b0 * 256) b1;
            pmt_pid = bit_or (bit_and b2 0x1F * 256) b3;
          }
              ∷ ps))
unfolding analyze_loop
analyze_loop_step fuel end b0 b1 b2 b3 front rest h e =
    let entry : List ℕ = b0 ∷ b1 ∷ b2 ∷ b3 ∷ rest in
    rw (
      le→leb (length front + 4) end h,
      byte_at-append_start front entry b0 refl,
      byte_at-append_right front entry 1 b1 refl,
      byte_at-append_right front entry 2 b2 refl,
      byte_at-append_right front entry 3 b3 refl,
      e,
    )

-- The entries are read back wherever they stand.
pub analyze_loop-pat_entries :
    (ms : List (ℕ × ℕ)) (fuel : ℕ) (front tail : List ℕ)
    → All IsMapping ms
    → length ms < fuel
    → analyze_loop fuel
        (front ++ (pat_entries ms ++ tail))
        (length front)
        (length front + length ms * 4)
      ≡ ret (programs ms)
unfolding pat_entries programs
analyze_loop-pat_entries ms zero front tail ok enough = elim enough [ ]
analyze_loop-pat_entries [] (suc fuel) front tail ok enough = unfold analyze_loop in ground arith
analyze_loop-pat_entries ((n, pid) ∷ ms) (suc fuel) front tail ok enough =
    analyze_loop_step fuel (length front + suc (length ms) * 4) (n / 2 ^ 8 % 256) (bit_and n 0xFF)
      (bit_or (bit_and (pid / 2 ^ 8 % 256) 0x1F) 0xE0) (bit_and pid 0xFF) front
      (pat_entries ms ++ tail) (omega arith)
      (rw (shape, size, total) at
        (analyze_loop-pat_entries ms fuel (front ++ entry) tail ok.1 (omega arith)))
    ∙ rw (join_16 n ok.0.0, join_13 pid ok.0.1)
  where
    entry : List ℕ
    entry =
        (n / 2 ^ 8 % 256)
        ∷ (bit_and n 0xFF)
        ∷ (bit_or (bit_and (pid / 2 ^ 8 % 256) 0x1F) 0xE0)
        ∷ (bit_and pid 0xFF)
        ∷ []

    shape :
        (front ++ entry) ++ (pat_entries ms ++ tail) ≡ front ++ (entry ++ (pat_entries ms ++ tail))
    shape = append_assoc front entry (pat_entries ms ++ tail)

    size : length (front ++ entry) ≡ length front + 4
    size = length-append front entry

    total : length front + 4 + length ms * 4 ≡ length front + suc (length ms) * 4
    total = omega arith
