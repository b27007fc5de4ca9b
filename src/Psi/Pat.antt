-- ===== src/Psi/Pat.antt =====
-- src/psi/pat.rs: the program association table.
pub mod Entries
pub mod RoundTrip
use mymuxer.Base.{
  ℕ, zero, suc, ◌+◌, ◌-◌, ◌*◌, ◌/◌, ◌%◌, ◌^◌, bit_and, bit_or, List, [], ◌∷◌, ◌++◌, Bool, true,
  false, ◌&&◌, not, leb, ◌==◌, if◌then◌else◌, length, Outcome, ret, panic, ◌>>=◌, byte_at, store,
  slice,
}
use mymuxer.Psi.Encode.{be_bytes32}

pub record PatInfo : Type 0 where
  pub prog_num : ℕ
  pub pmt_pid : ℕ

-- The loop of `analyze_pat` on fuel. A round reads the four bytes from `pos` on, so no run gets past
-- as many rounds as the section has bytes.
unfoldable pub analyze_loop : ℕ → List ℕ → ℕ → ℕ → Outcome (List PatInfo)
analyze_loop zero section pos section_end = panic
analyze_loop (suc fuel) section pos section_end =
    if not (leb (pos + 4) section_end) then ret [] else do
      b0 ← byte_at section pos
      b1 ← byte_at section (pos + 1)
      b2 ← byte_at section (pos + 2)
      b3 ← byte_at section (pos + 3)
      let prog_num = bit_or (b0 * 2 ^ 8) b1
      let pmt_pid = bit_or (bit_and b2 0x1F * 2 ^ 8) b3
      programs ← analyze_loop fuel section (pos + 4) section_end
      ret (
          if prog_num == 0
          then programs
          else (record { prog_num = prog_num; pmt_pid = pmt_pid } ∷ programs))

-- `section.len() - 4` wraps.
unfoldable pub analyze_pat : List ℕ → Outcome (List PatInfo)
analyze_pat section =
    analyze_loop (suc (length section)) section 8 ((length section + 2 ^ 64 - 4) % 2 ^ 64)

-- The four bytes of each mapping from a program number to the PID of its PMT.
unfoldable pub pat_entries : List (ℕ × ℕ) → List ℕ
pat_entries [] = []
pat_entries ((prog_num, pmt_pid) ∷ mappings) =
    (prog_num / 2 ^ 8 % 256)
    ∷ (bit_and prog_num 0xFF)
    ∷ (bit_or (bit_and (pmt_pid / 2 ^ 8 % 256) 0x1F) 0xE0)
    ∷ (bit_and pmt_pid 0xFF)
    ∷ pat_entries mappings

unfoldable pub patch_pat_section : (List ℕ → ℕ) → List ℕ → List (ℕ × ℕ) → Outcome (List ℕ)
unfolding be_bytes32 pat_entries
patch_pat_section crc32 original_section mappings = do
  header ← slice original_section 0 8
  let new_section = header ++ pat_entries mappings
  let section_length = (length new_section - 3 + 4) % 2 ^ 16
  b1 ← byte_at new_section 1
  s1 ← store new_section 1 (bit_or (bit_and b1 0xF0) (bit_and (section_length / 2 ^ 8 % 256) 0x0F))
  s2 ← store s1 2 (bit_and section_length 0xFF)
  ret (s2 ++ be_bytes32 (crc32 s2))

-- `==` on two lists of programs.
unfoldable pub same_programs : List PatInfo → List PatInfo → Bool
same_programs [] [] = true
same_programs (a ∷ more) (b ∷ others) =
    a.prog_num == b.prog_num && (a.pmt_pid == b.pmt_pid && same_programs more others)
same_programs _ _ = false

-- `sort_unstable_by_key(|p| p.prog_num)`, which may order programs of the same number in any way;
-- here they keep theirs.
unfoldable pub insert_program : PatInfo → List PatInfo → List PatInfo
insert_program a [] = a ∷ []
insert_program a (b ∷ others) =
    if leb a.prog_num b.prog_num then a ∷ b ∷ others else b ∷ insert_program a others

unfoldable pub sort_programs : List PatInfo → List PatInfo
sort_programs [] = []
sort_programs (a ∷ more) = insert_program a (sort_programs more)

unfoldable pub is_pat_changed : List PatInfo → List PatInfo → Bool
is_pat_changed a b =
    if not (length a == length b)
    then true
    else if same_programs a b
    then false
    else not (same_programs (sort_programs a) (sort_programs b))
