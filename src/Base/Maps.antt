-- ===== src/Base/Maps.antt =====
-- `HashMap` as an association list and `HashSet` as a list, with numbers for keys.
use Prim.Native.Nat.{ℕ}
use mathlib.Core.Path.{◌≡◌, refl}
use mathlib.Core.Bool.{Bool, true, false}
use mathlib.Core.List.{List, [], ◌∷◌}
use mathlib.Core.Option.{Option, none, some}
use native.Mathlib.Omega.{arith}
use mymuxer.Base.Tests.{◌==◌, if◌then◌else◌}

abbrev pub is_some {ℓ} : {A : Type ℓ} → Option A → Bool
is_some none = false
is_some (some a) = true

module _ {ℓ} {V : Type ℓ} where
  unfoldable pub lookup : ℕ → List (ℕ × V) → Option V
  lookup k [] = none
  lookup k ((j, v) ∷ m) = if j == k then some v else lookup k m

  abbrev pub contains_key : ℕ → List (ℕ × V) → Bool
  contains_key k m = is_some (lookup k m)

  unfoldable pub remove : ℕ → List (ℕ × V) → List (ℕ × V)
  remove k [] = []
  remove k ((j, w) ∷ m) = let rest = remove k m in if j == k then rest else (j, w) ∷ rest

  unfoldable pub retain : (ℕ → V → Bool) → List (ℕ × V) → List (ℕ × V)
  retain keep [] = []
  retain keep ((j, w) ∷ m) = let rest = retain keep m in if keep j w then (j, w) ∷ rest else rest

  unfoldable pub insert : ℕ → V → List (ℕ × V) → List (ℕ × V)
  insert key value [] = (key, value) ∷ []
  insert key value ((other, old) ∷ rest) =
      if other == key then (key, value) ∷ rest else (other, old) ∷ insert key value rest

  abbrev pub keys : List (ℕ × V) → List ℕ
  keys [] = []
  keys ((j, w) ∷ m) = j ∷ keys m

  -- Each key stands once.
  abbrev pub Distinct : List (ℕ × V) → Type ℓ
  Distinct [] = Unit
  Distinct ((j, w) ∷ m) = (lookup j m ≡ none) × Distinct m

  pub lookup-insert :
      (key other : ℕ) (value : V) (entries : List (ℕ × V))
      → lookup other (insert key value entries)
        ≡ (if key == other then some value else lookup other entries)
  unfolding lookup insert
  lookup-insert key other value [] = refl
  lookup-insert key other value (entry ∷ rest) = ground (arith, lookup-insert key other value rest)

  pub lookup-remove :
      (k j : ℕ) (m : List (ℕ × V)) → lookup j (remove k m) ≡ (if k == j then none else lookup j m)
  unfolding lookup remove
  lookup-remove k j [] = ground arith
  lookup-remove k j ((i, w) ∷ m) = ground (arith, lookup-remove k j m)

  -- What `retain` leaves at a key.
  abbrev pub kept : (ℕ → V → Bool) → ℕ → Option V → Option V
  kept keep k none = none
  kept keep k (some w) = if keep k w then some w else none

  pub lookup-retain :
      (keep : ℕ → V → Bool) (k : ℕ) (m : List (ℕ × V))
      → Distinct m
      → lookup k (retain keep m) ≡ kept keep k (lookup k m)
  unfolding lookup retain
  lookup-retain keep k [] d = refl
  lookup-retain keep k ((i, w) ∷ m) d = ground (arith, lookup-retain keep k m d.1)

  lookup-insert-none :
      (k j : ℕ) (v : V) (m : List (ℕ × V))
      → (k == j) ≡ false
      → lookup j m ≡ none
      → lookup j (insert k v m) ≡ none
  lookup-insert-none k j v m h e = ground (arith, lookup-insert k j v m)

  pub insert-Distinct : (k : ℕ) (v : V) (m : List (ℕ × V)) → Distinct m → Distinct (insert k v m)
  unfolding insert lookup
  insert-Distinct k v [] d = (refl, tt)
  insert-Distinct k v ((i, w) ∷ m) d =
      ground (arith, insert-Distinct k v m d.1, lookup-insert-none k i v m)

  pub remove-Distinct : (k : ℕ) (m : List (ℕ × V)) → Distinct m → Distinct (remove k m)
  unfolding remove
  remove-Distinct k [] d = tt
  remove-Distinct k ((i, w) ∷ m) d = ground (arith, remove-Distinct k m d.1, lookup-remove k i m)

  pub retain-Distinct :
      (keep : ℕ → V → Bool) (m : List (ℕ × V)) → Distinct m → Distinct (retain keep m)
  unfolding retain
  retain-Distinct keep [] d = tt
  retain-Distinct keep ((i, w) ∷ m) d =
      ground (arith, retain-Distinct keep m d.1, lookup-retain keep i m d.1)

-- `HashSet<u32>`
unfoldable pub contains : ℕ → List ℕ → Bool
contains k [] = false
contains k (j ∷ s) = if j == k then true else contains k s

unfoldable pub discard : ℕ → List ℕ → List ℕ
discard k [] = []
discard k (j ∷ s) = let rest = discard k s in if j == k then rest else j ∷ rest

pub contains-discard :
    (k j : ℕ) (s : List ℕ) → contains j (discard k s) ≡ (if k == j then false else contains j s)
unfolding contains discard
contains-discard k j [] = ground arith
contains-discard k j (i ∷ s) = ground (arith, contains-discard k j s)
