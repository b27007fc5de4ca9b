-- ===== src/Psi/Changes/Order.antt =====
-- `is_pmt_changed` does not see the order of the streams.
use mathlib.Core.List.{Permᴰ}
use mathlib.Core.List.Permᴰ
use mathlib.Core.Path.{subst}
use mymuxer.Base.{
  suc, ◌≡◌, refl, ◌∙◌, ap, arith, ◌↔◌, List, [], ◌∷◌, map, Bool, true, false, not, ◌||◌, ◌==◌,
  if◌then◌else◌, length, inl, inr, Bool-cases,
}
use mymuxer.Psi.Pmt.{StreamInfo, PmtInfo}
use mymuxer.Psi.Changes.{
  StreamInfoDiff, diff_of, same_streams, before_or_same, insert_stream, sort_streams,
  is_pmt_changed,
}

insert-insert :
    (a b : StreamInfoDiff) (xs : List StreamInfoDiff)
    → insert_stream a (insert_stream b xs) ≡ insert_stream b (insert_stream a xs)
unfolding insert_stream
insert-insert a b [] = ground arith
insert-insert a b (x ∷ xs) = ground (arith, insert-insert a b xs)

-- The same streams, in some order.
abbrev pub Reordered : List StreamInfoDiff → List StreamInfoDiff → Type 0
Reordered xs ys = Permᴰ xs ys

insert-Reordered :
    (a : StreamInfoDiff) (xs : List StreamInfoDiff) → Reordered (a ∷ xs) (insert_stream a xs)
unfolding insert_stream
insert-Reordered a [] = Permᴰ.refl (a ∷ [])
insert-Reordered a (x ∷ xs) = here (before_or_same a x) (insert-Reordered a xs)
  where
    here :
        (b : Bool)
        → Reordered (a ∷ xs) (insert_stream a xs)
        → Reordered (a ∷ x ∷ xs) (if b then a ∷ x ∷ xs else x ∷ insert_stream a xs)
    here true p = Permᴰ.refl (a ∷ x ∷ xs)
    here false p = Permᴰ.trans (Permᴰ.swap refl refl) (Permᴰ.cons refl p)

sort-Reordered : (xs : List StreamInfoDiff) → Reordered xs (sort_streams xs)
unfolding sort_streams
sort-Reordered [] = Permᴰ.nil
sort-Reordered (x ∷ xs) =
    Permᴰ.trans (Permᴰ.cons refl (sort-Reordered xs)) (insert-Reordered x (sort_streams xs))

-- There is one sorted list.
Reordered-sort : {xs ys : List StreamInfoDiff} → Reordered xs ys → sort_streams xs ≡ sort_streams ys
unfolding sort_streams
Reordered-sort Permᴰ.nil = refl
Reordered-sort (Permᴰ.cons e p) = cc (Reordered-sort p)
Reordered-sort (Permᴰ.swap {a} {b} {a'} {b'} {l} e f) = insert-insert a b (sort_streams l) ∙ cc
Reordered-sort (Permᴰ.trans p q) = Reordered-sort p ∙ Reordered-sort q

Reordered-length : {xs ys : List StreamInfoDiff} → Reordered xs ys → length xs ≡ length ys
Reordered-length Permᴰ.nil = refl
Reordered-length (Permᴰ.cons e p) = ap suc (Reordered-length p)
Reordered-length (Permᴰ.swap e f) = refl
Reordered-length (Permᴰ.trans p q) = Reordered-length p ∙ Reordered-length q

same_streams-eq : (xs ys : List StreamInfoDiff) → same_streams xs ys ≡ true → xs ≡ ys
unfolding same_streams
same_streams-eq [] [] e = refl
same_streams-eq [] (y ∷ ys) e = cc
same_streams-eq (x ∷ xs) [] e = cc
same_streams-eq (x ∷ xs) (y ∷ ys) e = ground (arith, same_streams-eq xs ys)

same_streams_refl : (xs : List StreamInfoDiff) → same_streams xs xs ≡ true
unfolding same_streams
same_streams_refl [] = refl
same_streams_refl (x ∷ xs) = ground (arith, same_streams_refl xs)

length-map : (xs : List StreamInfo) → length (map diff_of xs) ≡ length xs
length-map [] = refl
length-map (x ∷ xs) = ap suc (length-map xs)

unchanged-Reordered :
    (xs ys : List StreamInfoDiff)
    → (if same_streams xs ys then false else not (same_streams (sort_streams xs) (sort_streams ys)))
      ≡ false
    → Reordered xs ys
unchanged-Reordered xs ys e = elim (Bool-cases (same_streams xs ys)) [
  | inl same ↦ subst (Reordered xs) (same_streams-eq xs ys same) (Permᴰ.refl xs)
  | inr other ↦
      let sorted : same_streams (sort_streams xs) (sort_streams ys) ≡ true = ground arith in
      let one = same_streams-eq (sort_streams xs) (sort_streams ys) sorted in
      Permᴰ.trans (subst (Reordered xs) one (sort-Reordered xs)) (Permᴰ.symm (sort-Reordered ys))
]

Reordered-unchanged :
    (xs ys : List StreamInfoDiff)
    → Reordered xs ys
    → (if same_streams xs ys then false else not (same_streams (sort_streams xs) (sort_streams ys)))
      ≡ false
Reordered-unchanged xs ys p =
    let one = Reordered-sort p in
    let same : same_streams (sort_streams xs) (sort_streams ys) ≡ true =
      rw one (same_streams_refl (sort_streams ys)) in
    ground arith

-- A PMT counts as unchanged exactly if its clock's PID is the same and its streams, by type and PID,
-- are the same in some order.
pub is_pmt_changed-Reordered :
    (a b : PmtInfo)
    → (is_pmt_changed a b ≡ false)
      ↔ ((a.pcr_pid ≡ b.pcr_pid) × Reordered (map diff_of a.streams) (map diff_of b.streams))
unfolding is_pmt_changed
is_pmt_changed-Reordered a b = (
  λ e.
      elim (Bool-cases
        (not (a.pcr_pid == b.pcr_pid) || not (length a.streams == length b.streams))) [
          | inl differ ↦ absurd (ground arith)
          | inr same ↦ (
            ground arith,
            unchanged-Reordered (map diff_of a.streams) (map diff_of b.streams) (ground arith),
          )
        ],
  λ (pcr, p).
      let lengths = Reordered-length p in
      let la = length-map a.streams in
      let lb = length-map b.streams in
      let counts : length a.streams ≡ length b.streams = omega arith in
      let same : (not (a.pcr_pid == b.pcr_pid) || not (length a.streams == length b.streams))
          ≡ false =
        ground arith in
      rw same (Reordered-unchanged (map diff_of a.streams) (map diff_of b.streams) p),
)
