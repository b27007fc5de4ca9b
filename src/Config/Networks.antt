-- ===== src/Config/Networks.antt =====
-- Which addresses `is_forbidden` turns away.
use Prim.Native.String.{String}
use mymuxer.Base.{
  ◌≡◌, refl, List, [], ◌∷◌, All, Bool, true, false, Bool-cases, Option, some, ◌⊎◌, inl, inr, ◌↔◌,
  Outcome, ret,
}
use mymuxer.Config.{forbidden_loop, is_forbidden}

module _ {Ip Net : Type 0} (parse_net : String → Option Net) (covers : Net → Ip → Bool) where
  -- Some network of the list contains the address.
  abbrev pub Covered : Ip → List String → Type 0
  Covered ip [] = ⊥
  Covered ip (net ∷ nets) =
      ((n : Net) × (parse_net net ≡ some n) × (covers n ip ≡ true)) ⊎ Covered ip nets

  -- Every network of the list can be read.
  abbrev pub Readable : List String → Type 0
  Readable = All (λ net. (n : Net) × (parse_net net ≡ some n))

  -- The answer `b` turns away exactly what `P` does not hold of.
  abbrev pub Answers : Type 0 → Outcome Bool → Type 0
  Answers P m = (b : Bool) × (m ≡ ret b) × ((b ≡ false) ↔ P)

  module _ (parse_ip : String → Option Ip) where
    loop_lem :
        (ip : Ip) (nets : List String)
        → Readable nets
        → Answers (Covered ip nets) (forbidden_loop parse_ip parse_net covers ip nets)
    unfolding forbidden_loop
    loop_lem ip [] r = (true, refl, ((λ e. cc), λ h. absurd h))
    loop_lem ip (net ∷ nets) ((n, e), r) = elim (Bool-cases (covers n ip)) [
      | inl hit ↦ (false, rw (e, forbidden_loop) (rw hit), ((λ _. inl (n, e, hit)), λ _. refl))
      | inr miss ↦
          let (b, eq, iff) = loop_lem ip nets r in
          (
            b,
            rw (e, forbidden_loop) (rw miss eq),
            ((λ h. inr (iff.0 h)), λ h. elim h [ inl (m, f, hit) ↦ cc | inr later ↦ iff.1 later ]),
          )
    ]

    -- With an address and networks that can be read, the test answers without a panic, and lets
    -- exactly those in whom some network of the list contains, or everybody if the list is empty.
    pub is_forbidden-Covered :
        (address : String) (ip : Ip) (nets : List String)
        → parse_ip address ≡ some ip
        → Readable nets
        → Answers
            ((nets ≡ []) ⊎ Covered ip nets)
            (is_forbidden parse_ip parse_net covers address nets)
    unfolding is_forbidden
    is_forbidden-Covered address ip [] e r = (false, refl, ((λ _. inl refl), λ _. refl))
    is_forbidden-Covered address ip (net ∷ nets) e r =
        let (b, eq, iff) = loop_lem ip (net ∷ nets) r in
        (
          b,
          rw (e, is_forbidden) eq,
          ((λ h. inr (iff.0 h)), λ h. elim h [ inl empty ↦ cc | inr some_net ↦ iff.1 some_net ]),
        )
