-- ===== src/Hls/Queue.antt =====
-- The queue is a window on what was pushed.
use Prim.Native.String.{String}
use mymuxer.Base.{
  ℕ, zero, suc, ◌≤◌, ◌≡◌, refl, sym, ap, ◌∙◌, arith, List, [], ◌∷◌, Bool-cases, inl, inr, leb,
  leb→le, leb_false→lt, length, take, length-take, take_of_length_le,
}
use mymuxer.Hls.{ChunkQueue, pop_back, push_hash, push, push_all}

-- The hashes of items, the latest first, in front of others.
abbrev pub newest : (String → ℕ) → List String → List ℕ → List ℕ
newest hash [] others = others
newest hash (item ∷ items) others = newest hash items (hash item ∷ others)

pop_back-take : (n : ℕ) (hashes : List ℕ) → length hashes ≡ suc n → pop_back hashes ≡ take n hashes
unfolding pop_back
pop_back-take n [] h = absurd (omega arith)
pop_back-take zero (h ∷ []) e = refl
pop_back-take (suc n) (h ∷ []) e = absurd (omega arith)
pop_back-take zero (h ∷ k ∷ hashes) e = absurd (omega arith)
pop_back-take (suc n) (h ∷ k ∷ hashes) e =
    ap (λ t. h ∷ t) (pop_back-take n (k ∷ hashes) (omega arith))

take-take : (m n : ℕ) (hashes : List ℕ) → m ≤ n → take m (take n hashes) ≡ take m hashes
take-take zero n hashes h = refl
take-take (suc m) zero hashes h = absurd (omega arith)
take-take (suc m) (suc n) [] h = refl
take-take (suc m) (suc n) (k ∷ hashes) h = ap (λ t. k ∷ t) (take-take m n hashes (omega arith))

-- A push onto a window gives the window on one item more.
pub push_hash-window :
    (n hash : ℕ) (all : List ℕ) (q : ChunkQueue)
    → q.capacity ≡ suc n
    → q.queue ≡ take (suc n) all
    → (push_hash hash q).queue ≡ take (suc n) (hash ∷ all)
unfolding push_hash
push_hash-window n hash all q c e = elim (Bool-cases (leb q.capacity (length q.queue))) [
  | inl full ↦
      let size : length q.queue ≡ suc n =
        omega (arith, leb→le _ _ full, ap length e, length-take (suc n) all, c) in
      rw full (
        ap (λ t. hash ∷ t)
          (pop_back-take n q.queue size ∙ ap (take n) e ∙ take-take n (suc n) all (omega arith)))
  | inr room ↦
      let few : length all ≤ n =
        omega (arith, leb_false→lt _ _ room, ap length e, length-take (suc n) all, c) in
      rw room (
        ap (λ t. hash ∷ t)
          (e ∙ take_of_length_le (suc n) all (omega arith) ∙ sym (take_of_length_le n all few)))
]

module _ (hash : String → ℕ) (n : ℕ) where
  -- Pushed onto a queue that is the window of `capacity` hashes, one or more, on what was pushed
  -- before, items leave the window on all that was pushed, the latest first; the capacity stays.
  pub push_all-window :
      (items : List String) (all : List ℕ) (q : ChunkQueue)
      → q.capacity ≡ suc n
      → q.queue ≡ take (suc n) all
      → ((push_all hash items q).queue ≡ take (suc n) (newest hash items all))
        × ((push_all hash items q).capacity ≡ suc n)
  unfolding push_all push
  push_all-window [] all q c e = (e, c)
  push_all-window (item ∷ items) all q c e =
      push_all-window items (hash item ∷ all) (push_hash (hash item) q) (capacity_kept item q c)
        (push_hash-window n (hash item) all q c e)
    where
      capacity_kept :
          (item : String) (q : ChunkQueue)
          → q.capacity ≡ suc n
          → (push_hash (hash item) q).capacity ≡ suc n
      capacity_kept item q c = c
