-- ===== src/Psi/RoundTrip.antt =====
-- What `pack_multi` sends, `SectionReassembler::push` puts together again.
use mymuxer.Base.{
  ℕ, zero, suc, ◌+◌, ◌%◌, ◌≤◌, ◌<◌, ◌≡◌, refl, ap, ◌∙◌, bit_and, arith, List, [], ◌∷◌, ◌++◌,
  append-nil, append_assoc, true, false, Option, none, some, leb, length, take, drop, length-append,
  length-take, length-drop, take_of_length_le, drop_of_length_le, take-append-drop, ret, Bool-cases,
  leb_false→lt, leb→le, inl, inr,
}
use mymuxer.Psi.Pack.{pack_round, pack_loop, pack_multi}
use mymuxer.Psi.Rounds.{pack_round-first, length-payload, padding, push-first}
use mymuxer.Psi.Section.{SectionReassembler, new, take_expected, push}
use mymuxer.Psi.Reassembly.{
  IsSection, with_section, push_all, partial, take_expected-whole, take_expected-short,
  take_complete-start, padding-full, push-last, push-middle,
}

-- The rounds after the first: with `buffer` received and `rest` to be sent, the last packet
-- completes the section.
abbrev Sends : ℕ → ℕ → ℕ → List ℕ → List ℕ → Type 0
Sends fuel pid cc buffer rest =
    (ps : List (List ℕ)) × (cc' : ℕ) × (pack_loop fuel false rest pid cc ≡ some (ps, cc'))
    × (push_all (partial pid buffer (length buffer + length rest)) ps
        ≡ ret (new pid, (buffer ++ rest) ∷ []))

pack_loop_end : (fuel pid cc : ℕ) → pack_loop (suc fuel) false [] pid cc ≡ some ([], cc)
unfolding pack_loop
pack_loop_end fuel pid cc = refl

pack_loop_step :
    (fuel pid cc : ℕ) (rest : List ℕ) (ps : List (List ℕ)) (cc' : ℕ)
    → 0 < length rest
    → pack_loop fuel false (drop 184 rest) pid (bit_and ((cc + 1) % 256) 0x0F) ≡ some (ps, cc')
    → pack_loop (suc fuel) false rest pid cc ≡ some (pack_round false rest pid cc ∷ ps, cc')
unfolding pack_loop
pack_loop_step fuel pid cc rest ps cc' h e = ground arith

push_all-nil : (r : SectionReassembler) → push_all r [] ≡ ret (r, [])
unfolding push_all
push_all-nil r = refl

push_all-cons :
    (r : SectionReassembler) {r' r'' : SectionReassembler} (p : List ℕ) (ps : List (List ℕ))
    {c : Option (List ℕ)} {out : List (List ℕ)}
    → push r p ≡ ret (r', c)
    → push_all r' ps ≡ ret (r'', out)
    → push_all r (p ∷ ps) ≡ ret (r'', with_section c out)
unfolding push_all
push_all-cons r p ps e f = rw (e, f)

send_last :
    (fuel pid cc x : ℕ) (buffer rest : List ℕ)
    → pid < 8192
    → 0 < length rest
    → length rest ≤ 184
    → Sends (suc (suc fuel)) pid cc (x ∷ buffer) rest
send_last fuel pid cc x buffer rest h some_left fits =
    let cc' : ℕ = bit_and ((cc + 1) % 256) 0x0F in
    (
      pack_round false rest pid cc ∷ [],
      cc',
      pack_loop_step (suc fuel) pid cc rest [] cc' some_left
          (rw (drop_of_length_le 184 rest fits) (pack_loop_end fuel pid cc')),
      push_all-cons (partial pid (x ∷ buffer) (length (x ∷ buffer) + length rest)) _ []
          (push-last pid cc x buffer rest h fits) (push_all-nil (new pid)),
    )

send_middle :
    (fuel pid cc x : ℕ) (buffer rest : List ℕ)
    → pid < 8192
    → 184 < length rest
    → Sends fuel pid (bit_and ((cc + 1) % 256) 0x0F) (x ∷ (buffer ++ take 184 rest)) (drop 184 rest)
    → Sends (suc fuel) pid cc (x ∷ buffer) rest
send_middle fuel pid cc x buffer rest h more (ps, cc', loop, received) = (
  pack_round false rest pid cc ∷ ps,
  cc',
  pack_loop_step fuel pid cc rest ps cc' (omega arith) loop,
  push_all-cons (partial pid (x ∷ buffer) (length (x ∷ buffer) + length rest)) _ ps
      (push-middle pid cc x buffer rest h more)
      (rw (total, append_assoc buffer (take 184 rest) (drop 184 rest), take-append-drop 184 rest) at
        received),
)
  where
    total :
        length (x ∷ (buffer ++ take 184 rest)) + length (drop 184 rest)
        ≡ length (x ∷ buffer) + length rest
    total =
        omega
          (arith, length-append buffer (take 184 rest), length-take 184 rest, length-drop 184 rest)

send_rest :
    (fuel pid cc x : ℕ) (buffer rest : List ℕ)
    → pid < 8192
    → 0 < length rest
    → length rest < fuel
    → Sends fuel pid cc (x ∷ buffer) rest
send_rest zero pid cc x buffer rest h some_left enough = elim enough [ ]
send_rest (suc zero) pid cc x buffer rest h some_left enough = absurd (omega arith)
send_rest (suc (suc fuel)) pid cc x buffer rest h some_left enough =
    elim (Bool-cases (leb (length rest) 184)) [
      | inl last ↦ send_last fuel pid cc x buffer rest h some_left (leb→le _ _ last)
      | inr middle ↦
          let more : 184 < length rest = leb_false→lt _ _ middle in
          send_middle (suc fuel) pid cc x buffer rest h more (
            send_rest (suc fuel) pid (bit_and ((cc + 1) % 256) 0x0F) x (buffer ++ take 184 rest)
              (drop 184 rest) h (omega (arith, more, length-drop 184 rest))
              (omega (arith, more, length-drop 184 rest)))
    ]

pack_loop_first :
    (fuel pid cc : ℕ) (s : List ℕ) (ps : List (List ℕ)) (cc' : ℕ)
    → pack_loop fuel false (drop 183 s) pid (bit_and ((cc + 1) % 256) 0x0F) ≡ some (ps, cc')
    → pack_loop (suc fuel) true s pid cc ≡ some (pack_round true s pid cc ∷ ps, cc')
unfolding pack_loop
pack_loop_first fuel pid cc s ps cc' e = rw e

push-start :
    (s : List ℕ) (pid cc : ℕ) (r : SectionReassembler)
    → IsSection s
    → pid < 8192
    → r.pid ≡ pid
    → push r (pack_round true s pid cc)
      ≡ ret (take_expected (partial pid (take 183 s ++ padding (take 183 s) 183) (length s)))
push-start s pid cc r v h e =
    rw (pack_round-first s pid cc)
      (push-first r pid cc (take 183 s ++ padding (take 183 s) 183) (length-payload 183 s) h e)
    ∙ ap ret (take_complete-start pid s (padding (take 183 s) 183) v)

-- What the packets of a section do to a reassembler.
abbrev Delivers : ℕ → List ℕ → ℕ → ℕ → SectionReassembler → Type 0
Delivers fuel s pid cc r =
    (ps : List (List ℕ)) × (cc' : ℕ) × (pack_loop fuel true s pid cc ≡ some (ps, cc'))
    × (push_all r ps ≡ ret (new pid, s ∷ []))

deliver_one :
    (fuel : ℕ) (s : List ℕ) (pid cc : ℕ) (r : SectionReassembler)
    → IsSection s
    → pid < 8192
    → r.pid ≡ pid
    → length s ≤ 183
    → Delivers (suc (suc fuel)) s pid cc r
deliver_one fuel s pid cc r v h e fits =
    let cc' : ℕ = bit_and ((cc + 1) % 256) 0x0F in
    (
      pack_round true s pid cc ∷ [],
      cc',
      pack_loop_first (suc fuel) pid cc s [] cc'
          (rw (drop_of_length_le 183 s fits) (pack_loop_end fuel pid cc')),
      push_all-cons r _ [] (push-start s pid cc r v h e ∙ ap ret whole) (push_all-nil (new pid)),
    )
  where
    whole :
        take_expected (partial pid (take 183 s ++ padding (take 183 s) 183) (length s))
        ≡ (new pid, some s)
    whole = rw (take_of_length_le 183 s fits) (take_expected-whole pid s (padding s 183))

deliver_many :
    (fuel x : ℕ) (s : List ℕ) (pid cc : ℕ) (r : SectionReassembler)
    → IsSection (x ∷ s)
    → pid < 8192
    → r.pid ≡ pid
    → 183 < length (x ∷ s)
    → length (x ∷ s) < fuel
    → Delivers (suc fuel) (x ∷ s) pid cc r
deliver_many fuel x s pid cc r v h e more enough =
    let (ps, cc', loop, received) =
      send_rest fuel pid (bit_and ((cc + 1) % 256) 0x0F) x (take 182 s) (drop 182 s) h
        (omega (arith, length-drop 182 s)) (omega (arith, length-drop 182 s)) in
    (
      pack_round true (x ∷ s) pid cc ∷ ps,
      cc',
      pack_loop_first fuel pid cc (x ∷ s) ps cc' loop,
      push_all-cons r _ ps (push-start (x ∷ s) pid cc r v h e ∙ ap ret part)
          (rw (total, take-append-drop 182 s) at received),
    )
  where
    total : length (x ∷ take 182 s) + length (drop 182 s) ≡ length (x ∷ s)
    total = omega (arith, length-take 182 s, length-drop 182 s)

    part :
        take_expected
          (partial pid (take 183 (x ∷ s) ++ padding (take 183 (x ∷ s)) 183) (length (x ∷ s)))
        ≡ (partial pid (take 183 (x ∷ s)) (length (x ∷ s)), none)
    part =
        rw (padding-full 183 (x ∷ s) (omega arith), append-nil (take 183 (x ∷ s)))
          (take_expected-short pid (length (x ∷ s)) (take 183 (x ∷ s))
            (omega (arith, length-take 183 (x ∷ s))))

deliver :
    (s : List ℕ) (pid cc : ℕ) (r : SectionReassembler)
    → IsSection s
    → pid < 8192
    → r.pid ≡ pid
    → Delivers (suc (suc (length s))) s pid cc r
deliver [] pid cc r v h e = absurd (omega (arith, v.header))
deliver (x ∷ s) pid cc r v h e = elim (Bool-cases (leb (length (x ∷ s)) 183)) [
  | inl one ↦ deliver_one (length (x ∷ s)) (x ∷ s) pid cc r v h e (leb→le _ _ one)
  | inr many ↦
      deliver_many (suc (length (x ∷ s))) x s pid cc r v h e (leb_false→lt _ _ many) (omega arith)
]

-- `pack_multi` ends on a section whose length field counts the bytes behind it and on a PID of 13
-- bits, and the packets bring a reassembler of that PID, in any state, to emit that section once, and
-- nothing else; afterwards it waits for the next.
pub push_all-pack_multi :
    (s : List ℕ) (pid cc : ℕ) (r : SectionReassembler)
    → IsSection s
    → pid < 8192
    → r.pid ≡ pid
    → (ps : List (List ℕ)) × (cc' : ℕ) × (pack_multi s pid cc ≡ some (ps, cc'))
      × (push_all r ps ≡ ret (new pid, s ∷ []))
unfolding pack_multi
push_all-pack_multi s pid cc r v h e =
    let fuel : length s + 2 ≡ suc (suc (length s)) = omega arith in
    rw fuel (deliver s pid cc r v h e)
