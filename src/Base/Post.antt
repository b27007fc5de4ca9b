-- ===== src/Base/Post.antt =====
-- Postconditions of code that may panic: the code returns, and its result has the property.
use mathlib.Core.Path.{◌≡◌, refl, subst}
use mathlib.Core.Bool.{Bool, true, false}
use mathlib.Core.List.{List}
use mathlib.Core.Option.{Option, none, some}
use Prim.Native.Nat.{ℕ, ◌<◌, ◌≤◌, ◌-◌}
use mymuxer.Base.Tests.{if◌then◌else◌}
use mymuxer.Base.Lists.{length, get_or, set, take, drop}
use mymuxer.Base.Fallible.{
  Outcome, ret, panic, ◌>>=◌, byte_at, store, slice, slice_from, byte_at-ret, store-ret, slice-ret,
  slice_from-ret,
}

pub data Returns {ℓ κ} {A : Type ℓ} (P : A → Type κ) : Outcome A → Type (ℓ ⊔ κ) where
  returns : {a : A} → P a → Returns P (ret a)

-- What a `Returns` says, as an equation.
pub Returns-eq {ℓ κ} :
    {A : Type ℓ} {P : A → Type κ} {m : Outcome A} → Returns P m → (a : A) × (m ≡ ret a) × P a
Returns-eq (returns {a} h) = (a, refl, h)

-- What returns does not panic.
pub Returns-not_panic {ℓ κ μ} :
    {A : Type ℓ} {P : A → Type κ} {C : Type μ} {m : Outcome A} → Returns P m → m ≡ panic → C
Returns-not_panic (returns h) e = cc

pub Returns-map {ℓ κ μ} :
    {A : Type ℓ} {P : A → Type κ} {Q : A → Type μ} {m : Outcome A}
    → Returns P m
    → ((a : A) → P a → Q a)
    → Returns Q m
Returns-map (returns {a} h) f = returns (f a h)

module _ {ℓ κ} {A : Type ℓ} {P : A → Type κ} where
  pub Returns-if :
      (b : Bool) {m n : Outcome A}
      → (b ≡ true → Returns P m)
      → (b ≡ false → Returns P n)
      → Returns P (if b then m else n)
  Returns-if true h k = h refl
  Returns-if false h k = k refl

  pub Returns-bind {μ ν} :
      {B : Type μ} {Q : B → Type ν} {m : Outcome B} {f : B → Outcome A}
      → Returns Q m
      → ((b : B) → Q b → Returns P (f b))
      → Returns P (m >>= f)
  Returns-bind (returns {a} q) k = k a q

  pub Returns-option {μ} :
      {B : Type μ} (o : Option B) (m : Outcome A) (f : B → Outcome A)
      → Returns P m
      → ((b : B) → Returns P (f b))
      → Returns P (elim o [ none ↦ m | some b ↦ f b ])
  Returns-option none m f h k = h
  Returns-option (some b) m f h k = k b

  pub Returns-eq_ret {μ} :
      {B : Type μ} {m : Outcome B} {b : B} (f : B → Outcome A)
      → m ≡ ret b
      → Returns P (f b)
      → Returns P (m >>= f)
  Returns-eq_ret f e h = rw e h

  pub Returns-byte_at :
      (xs : List ℕ) (i : ℕ) (f : ℕ → Outcome A)
      → i < length xs
      → Returns P (f (get_or xs i 0))
      → Returns P (byte_at xs i >>= f)
  Returns-byte_at xs i f h k = rw (byte_at-ret xs i h) k

  pub Returns-store :
      (xs : List ℕ) (i v : ℕ) (f : List ℕ → Outcome A)
      → i < length xs
      → Returns P (f (set xs i v))
      → Returns P (store xs i v >>= f)
  Returns-store xs i v f h k = rw (store-ret xs i v h) k

  pub Returns-slice :
      (xs : List ℕ) (a b : ℕ) (f : List ℕ → Outcome A)
      → a ≤ b
      → b ≤ length xs
      → Returns P (f (take (b - a) (drop a xs)))
      → Returns P (slice xs a b >>= f)
  Returns-slice xs a b f h k r = rw (slice-ret xs a b h k) r

  pub Returns-slice_from :
      (xs : List ℕ) (a : ℕ) (f : List ℕ → Outcome A)
      → a ≤ length xs
      → Returns P (f (drop a xs))
      → Returns P (slice_from xs a >>= f)
  Returns-slice_from xs a f h r = rw (slice_from-ret xs a h) r

-- The weaker postcondition: if the code returns, its result has the property.
pub data Keeps {ℓ κ} {A : Type ℓ} (P : A → Type κ) : Outcome A → Type (ℓ ⊔ κ) where
  kept : {a : A} → P a → Keeps P (ret a)
  panics : Keeps P panic

-- What a `Keeps` says, as an implication.
pub Keeps-elim {ℓ κ} :
    {A : Type ℓ} {P : A → Type κ} {m : Outcome A} → Keeps P m → (a : A) → m ≡ ret a → P a
Keeps-elim {P = P} (kept {a = b} h) a e = let f : b ≡ a = cc in subst P f h
Keeps-elim panics a e = cc

module _ {ℓ κ} {A : Type ℓ} {P : A → Type κ} where
  pub Keeps-Returns : {m : Outcome A} → Returns P m → Keeps P m
  Keeps-Returns (returns h) = kept h

  pub Keeps-if :
      (b : Bool) {m n : Outcome A}
      → (b ≡ true → Keeps P m)
      → (b ≡ false → Keeps P n)
      → Keeps P (if b then m else n)
  Keeps-if true h k = h refl
  Keeps-if false h k = k refl

  pub Keeps-bind {μ ν} :
      {B : Type μ} {Q : B → Type ν} {m : Outcome B} {f : B → Outcome A}
      → Keeps Q m
      → ((b : B) → Q b → Keeps P (f b))
      → Keeps P (m >>= f)
  Keeps-bind (kept {a} q) k = k a q
  Keeps-bind panics k = panics

  -- After code of which nothing is said.
  pub Keeps-any {μ} :
      {B : Type μ} (m : Outcome B) (f : B → Outcome A)
      → ((b : B) → Keeps P (f b))
      → Keeps P (m >>= f)
  Keeps-any (ret b) f k = k b
  Keeps-any panic f k = panics

  pub Keeps-option {μ} :
      {B : Type μ} (o : Option B) (m : Outcome A) (f : B → Outcome A)
      → Keeps P m
      → ((b : B) → Keeps P (f b))
      → Keeps P (elim o [ none ↦ m | some b ↦ f b ])
  Keeps-option none m f h k = h
  Keeps-option (some b) m f h k = k b

-- The code returns, and its result has the property, or it panics for a reason.
pub data Ends {ℓ κ μ} {A : Type ℓ} (P : A → Type κ) (S : Type μ)
    : Outcome A → Type (ℓ ⊔ κ ⊔ μ) where
  runs : {a : A} → P a → Ends P S (ret a)
  stops : S → Ends P S panic

module _ {ℓ κ μ} {A : Type ℓ} {P : A → Type κ} {S : Type μ} where
  pub Ends-if :
      (b : Bool) {m n : Outcome A}
      → (b ≡ true → Ends P S m)
      → (b ≡ false → Ends P S n)
      → Ends P S (if b then m else n)
  Ends-if true h k = h refl
  Ends-if false h k = k refl

  pub Ends-Returns : {m : Outcome A} → Returns P m → Ends P S m
  Ends-Returns (returns h) = runs h

  pub Ends-map {ν} : {T : Type ν} {m : Outcome A} → Ends P S m → (S → T) → Ends P T m
  Ends-map (runs h) f = runs h
  Ends-map (stops s) f = stops (f s)

  -- A test before code that goes on.
  pub Ends-if-bind {ν} :
      {B : Type ν} (b : Bool) (m n : Outcome B) (f : B → Outcome A)
      → Ends P S (m >>= f)
      → Ends P S (n >>= f)
      → Ends P S ((if b then m else n) >>= f)
  Ends-if-bind true m n f h k = h
  Ends-if-bind false m n f h k = k

  pub Ends-runs : {a : A} {m : Outcome A} → m ≡ ret a → Ends P S m → P a
  Ends-runs {a} e (runs {a = b} h) = let f : b ≡ a = cc in subst P f h
  Ends-runs e (stops s) = cc

  pub Ends-stops : {m : Outcome A} → m ≡ panic → Ends P S m → S
  Ends-stops e (runs h) = cc
  Ends-stops e (stops s) = s
