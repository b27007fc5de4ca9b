-- ===== src/Base/Texts.antt =====
-- `HashMap` with texts for keys.
use Prim.Native.String.{String}
use mathlib.Core.Path.{◌≡◌, refl, sym, ◌∙◌}
use mathlib.Core.Logic.{inl, inr}
use mathlib.Core.Bool.{false}
use mathlib.Core.List.{List, [], ◌∷◌}
use mathlib.Core.Option.{Option, none, some}
use text.Mathlib.Text.{◌==◌}
use text.Mathlib.TextEquality.{eq_iff}
use mymuxer.Base.Tests.{if◌then◌else◌, Bool-cases}

module _ {ℓ} {V : Type ℓ} where
  unfoldable pub get : String → List (String × V) → Option V
  get key [] = none
  get key ((other, value) ∷ rest) = if other == key then some value else get key rest

  unfoldable pub without : String → List (String × V) → List (String × V)
  without key [] = []
  without key ((other, value) ∷ rest) =
      let left = without key rest in if other == key then left else (other, value) ∷ left

  unfoldable pub put : String → V → List (String × V) → List (String × V)
  unfolding without
  put key value entries = (key, value) ∷ without key entries

  pub get-without :
      (key other : String) (entries : List (String × V))
      → get other (without key entries) ≡ (if key == other then none else get other entries)
  unfolding get without
  get-without key other [] = elim (Bool-cases (key == other)) [
    | inl e ↦ rw e refl
    | inr e ↦ rw e refl
  ]
  get-without key other ((k, v) ∷ rest) = elim (Bool-cases (k == key)) [
    | inl same ↦ rw same (
        get-without key other rest ∙ elim (Bool-cases (key == other)) [
          | inl e ↦ rw e refl
          | inr e ↦ rw ((eq_iff k key).0 same, e) refl
        ])
    | inr apart ↦ rw apart (elim (Bool-cases (k == other)) [
      | inl e ↦
          let p : k ≡ other = (eq_iff k other).0 e in
          let q : (key == other) ≡ false = elim (Bool-cases (key == other)) [
            | inl f ↦
                let r : k ≡ key = p ∙ sym ((eq_iff key other).0 f) in
                absurd (cc (sym apart ∙ (eq_iff k key).1 r))
            | inr f ↦ f
          ] in
          rw (e, q) refl
      | inr e ↦ rw e (get-without key other rest)
    ])
  ]

  pub get-put :
      (key other : String) (value : V) (entries : List (String × V))
      → get other (put key value entries) ≡ (if key == other then some value else get other entries)
  unfolding get put
  get-put key other value entries = elim (Bool-cases (key == other)) [
    | inl e ↦ rw e refl
    | inr e ↦ rw e (get-without key other entries ∙ rw e refl)
  ]
