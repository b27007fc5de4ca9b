-- ===== src/Base/Fallible.antt =====
-- The outcome of Rust code that may panic, and checked access to byte slices.
-- `panic` stands for an abort of the task: an index or a range out of bounds.
use Prim.Native.Nat.{ℕ, ◌+◌, ◌-◌, ◌≤◌, ◌<◌}
use mathlib.Core.Path.{◌≡◌, refl}
use mathlib.Core.Logic.{◌⊎◌, inl, inr}
use mathlib.Core.Bool.{◌&&◌}
use mathlib.Core.List.{List, ◌++◌}
use mathlib.Core.Option.{none, some}
use native.Mathlib.Omega.{arith}
use mymuxer.Base.Tests.{leb, if◌then◌else◌}
use mymuxer.Base.Lists.{
  length, get_elem?, get_or, set, take, drop, get_elem?-eq-get_or, get_elem?-append_right,
}

pub data Outcome {ℓ} (A : Type ℓ) : Type ℓ where
  ret : A → Outcome A
  panic : Outcome A

pub Outcome-cases {ℓ} : {A : Type ℓ} (m : Outcome A) → (m ≡ panic) ⊎ ((a : A) × (m ≡ ret a))
Outcome-cases panic = inl refl
Outcome-cases (ret a) = inr (a, refl)

infixl 5 ◌>>=◌ ◌>>◌
abbrev pub ◌>>=◌ {ℓ κ} : {A : Type ℓ} {B : Type κ} → Outcome A → (A → Outcome B) → Outcome B
ret a >>= f = f a
panic >>= f = panic

abbrev pub ◌>>◌ {ℓ} : {B : Type ℓ} → Outcome (Unit {0}) → Outcome B → Outcome B
m >> k = m >>= λ _. k

-- `xs[i]`
unfoldable pub byte_at : List ℕ → ℕ → Outcome ℕ
byte_at xs i = elim (get_elem? xs i) [ none ↦ panic | some b ↦ ret b ]

-- `xs[i] = v`
unfoldable pub store : List ℕ → ℕ → ℕ → Outcome (List ℕ)
store xs i v = elim (get_elem? xs i) [ none ↦ panic | some b ↦ ret (set xs i v) ]

-- `&xs[a..b]`
unfoldable pub slice : List ℕ → ℕ → ℕ → Outcome (List ℕ)
slice xs a b = if leb a b && leb b (length xs) then ret (take (b - a) (drop a xs)) else panic

-- `&xs[a..]`
unfoldable pub slice_from : List ℕ → ℕ → Outcome (List ℕ)
slice_from xs a = if leb a (length xs) then ret (drop a xs) else panic

pub byte_at-ret : (xs : List ℕ) (i : ℕ) → i < length xs → byte_at xs i ≡ ret (get_or xs i 0)
unfolding byte_at
byte_at-ret xs i h = rw (get_elem?-eq-get_or xs i 0 h, byte_at)

-- Reading behind a known front.
pub byte_at-append_right :
    (xs ys : List ℕ) (i b : ℕ)
    → get_elem? ys i ≡ some b
    → byte_at (xs ++ ys) (length xs + i) ≡ ret b
unfolding byte_at
byte_at-append_right xs ys i b h = rw (get_elem?-append_right xs ys i, h, byte_at)

pub byte_at-append_start :
    (xs ys : List ℕ) (b : ℕ) → get_elem? ys 0 ≡ some b → byte_at (xs ++ ys) (length xs) ≡ ret b
byte_at-append_start xs ys b h =
    let e : length xs + 0 ≡ length xs = omega arith in rw e at (byte_at-append_right xs ys 0 b h)

pub store-ret : (xs : List ℕ) (i v : ℕ) → i < length xs → store xs i v ≡ ret (set xs i v)
unfolding store
store-ret xs i v h = rw (get_elem?-eq-get_or xs i v h, store)

pub slice-ret :
    (xs : List ℕ) (a b : ℕ) → a ≤ b → b ≤ length xs → slice xs a b ≡ ret (take (b - a) (drop a xs))
unfolding slice
slice-ret xs a b h k = ground arith

pub slice_from-ret : (xs : List ℕ) (a : ℕ) → a ≤ length xs → slice_from xs a ≡ ret (drop a xs)
unfolding slice_from
slice_from-ret xs a h = ground arith

-- Inversion of a bind that returns.
pub >>=-eq-ret {ℓ κ} :
    {A : Type ℓ} {B : Type κ} (m : Outcome A) (f : A → Outcome B) {b : B}
    → (m >>= f) ≡ ret b
    → (a : A) × (m ≡ ret a) × (f a ≡ ret b)
>>=-eq-ret (ret a) f h = (a, refl, h)
>>=-eq-ret panic f h = cc
