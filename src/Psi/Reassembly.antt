-- ===== src/Psi/Reassembly.antt =====
-- What `SectionReassembler::push` does with the packets that `pack_round` makes.
use mymuxer.Base.{
  ℕ, ◌+◌, ◌*◌, ◌%◌, ◌≤◌, ◌<◌, ◌≡◌, refl, ap, ◌∙◌, arith, List, [], ◌∷◌, ◌++◌, append-nil,
  append_assoc, false, Option, none, some, length, take, replicate, get_or, All, length-append,
  length-take, take-append_left, take_of_length_le, drop_of_length_le, length-replicate,
  get_or-append_left, get_or-take, get_or-All, Outcome, ret, ◌>>=◌,
}
use mymuxer.Base.Bits.{bit_and_low, bit_or_disjoint}
use mymuxer.Packet.{IsByte}
use mymuxer.Psi.Pack.{pack_round}
use mymuxer.Psi.Rounds.{pack_round-next, length-payload, padding, push-next}
use mymuxer.Psi.Section.{SectionReassembler, new, take_expected, take_complete, push, total_len}

-- A section whose length field counts the bytes behind it.
pub record IsSection (s : List ℕ) : Type 0 where
  pub bytes : All IsByte s
  pub header : 3 ≤ length s
  pub announced : total_len s ≡ length s

-- The section that a push completes joins those of the later pushes.
abbrev pub with_section : Option (List ℕ) → List (List ℕ) → List (List ℕ)
with_section none out = out
with_section (some s) out = s ∷ out

-- Packets pushed one after the other, and the sections that they completed.
unfoldable pub push_all :
    SectionReassembler → List (List ℕ) → Outcome (SectionReassembler × List (List ℕ))
push_all r [] = ret (r, [])
push_all r (p ∷ ps) = do
  (r', complete) ← push r p
  (r'', out) ← push_all r' ps
  ret (r'', with_section complete out)

-- A section of `pid` under way: `buffer` so far, `n` bytes in all.
abbrev pub partial : ℕ → List ℕ → ℕ → SectionReassembler
partial pid buffer n = record { pid = pid; buffer = buffer; expected_len = some n }

pub take_expected-whole :
    (pid : ℕ) (s tail : List ℕ)
    → take_expected (partial pid (s ++ tail) (length s)) ≡ (new pid, some s)
unfolding take_expected new
take_expected-whole pid s tail =
    ground (arith, length-append s tail, take-append_left (length s) s tail refl)

pub take_expected-short :
    (pid n : ℕ) (s : List ℕ)
    → length s < n
    → take_expected (partial pid s n) ≡ (partial pid s n, none)
unfolding take_expected
take_expected-short pid n s h = ground arith

pub total_len-prefix :
    (n : ℕ) (s tail : List ℕ) → 3 ≤ n → 3 ≤ length s → total_len (take n s ++ tail) ≡ total_len s
unfolding total_len
total_len-prefix n s tail h k = ground (
  arith,
  length-take n s,
  get_or-append_left (take n s) tail 1 0,
  get_or-append_left (take n s) tail 2 0,
  get_or-take n s 1 0,
  get_or-take n s 2 0,
)

pub total_len-le : (s : List ℕ) → All IsByte s → 3 ≤ length s → total_len s ≤ 4098
unfolding total_len
total_len-le s bytes h =
    let b2 : get_or s 2 0 < 256 = get_or-All IsByte s 2 0 bytes (omega arith) in
    ground (
      arith,
      b2,
      bit_and_low 4 (get_or s 1 0),
      bit_or_disjoint 8 (get_or s 1 0 % 16 * 256) (get_or s 2 0),
    )

pub take_complete-announced :
    (pid n : ℕ) (b : List ℕ)
    → 3 ≤ length b
    → total_len b ≡ n
    → n ≤ 4098
    → take_complete (record { pid = pid; buffer = b; expected_len = none })
      ≡ take_expected (partial pid b n)
unfolding take_complete
take_complete-announced pid n b h e k = ground arith

-- The start of a section settles how long it will be.
pub take_complete-start :
    (pid : ℕ) (s tail : List ℕ)
    → IsSection s
    → take_complete (record { pid = pid; buffer = take 183 s ++ tail; expected_len = none })
      ≡ take_expected (partial pid (take 183 s ++ tail) (length s))
take_complete-start pid s tail v =
    take_complete-announced pid (length s) (take 183 s ++ tail)
      (omega (arith, v.header, length-append (take 183 s) tail, length-take 183 s))
      (total_len-prefix 183 s tail (omega arith) v.header ∙ v.announced)
      (omega (arith, v.announced, total_len-le s v.bytes v.header))

pub take_complete-partial :
    (pid n : ℕ) (s : List ℕ) → take_complete (partial pid s n) ≡ take_expected (partial pid s n)
unfolding take_complete
take_complete-partial pid n s = refl

-- Nothing of the padding is taken where the payload is full.
pub padding-full : (n : ℕ) (rest : List ℕ) → n ≤ length rest → padding (take n rest) n ≡ []
padding-full n rest h =
    drop_of_length_le (length (take n rest)) (replicate n 0xFF)
      (omega (arith, length-replicate {A = ℕ} n 0xFF, length-take n rest))

-- One round: the packet that `pack_round` makes, and what the reassembler then holds.
pub push-round :
    (pid cc n x : ℕ) (buffer rest : List ℕ)
    → pid < 8192
    → push (partial pid (x ∷ buffer) n) (pack_round false rest pid cc)
      ≡ ret (
          take_expected
            (partial pid ((x ∷ buffer) ++ (take 184 rest ++ padding (take 184 rest) 184)) n))
push-round pid cc n x buffer rest h =
    rw (pack_round-next rest pid cc) (
      push-next (partial pid (x ∷ buffer) n) pid cc x buffer
        (take 184 rest ++ padding (take 184 rest) 184) (length-payload 184 rest) h refl refl)
    ∙ ap ret (
        take_complete-partial pid n
          ((x ∷ buffer) ++ (take 184 rest ++ padding (take 184 rest) 184)))

-- The last round completes the section.
pub push-last :
    (pid cc x : ℕ) (buffer rest : List ℕ)
    → pid < 8192
    → length rest ≤ 184
    → push
        (partial pid (x ∷ buffer) (length (x ∷ buffer) + length rest))
        (pack_round false rest pid cc)
      ≡ ret (new pid, some ((x ∷ buffer) ++ rest))
push-last pid cc x buffer rest h fits =
    push-round pid cc (length (x ∷ buffer) + length rest) x buffer rest h
    ∙ ap ret (
        rw
          (
            take_of_length_le 184 rest fits,
            ← append_assoc (x ∷ buffer) rest (padding rest 184),
            ← length-append (x ∷ buffer) rest,
          )
          (take_expected-whole pid ((x ∷ buffer) ++ rest) (padding rest 184)))

-- Any other round adds 184 bytes.
pub push-middle :
    (pid cc x : ℕ) (buffer rest : List ℕ)
    → pid < 8192
    → 184 < length rest
    → push
        (partial pid (x ∷ buffer) (length (x ∷ buffer) + length rest))
        (pack_round false rest pid cc)
      ≡ ret (partial pid ((x ∷ buffer) ++ take 184 rest) (length (x ∷ buffer) + length rest), none)
push-middle pid cc x buffer rest h more =
    push-round pid cc (length (x ∷ buffer) + length rest) x buffer rest h
    ∙ ap ret (
        rw (padding-full 184 rest (omega arith), append-nil (take 184 rest))
          (take_expected-short pid (length (x ∷ buffer) + length rest)
            ((x ∷ buffer) ++ take 184 rest)
            (omega (arith, length-append (x ∷ buffer) (take 184 rest), length-take 184 rest))))
