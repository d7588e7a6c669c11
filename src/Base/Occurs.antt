-- ===== src/Base/Occurs.antt =====
-- A text that stands as a part of another one.
use mathlib.Core.Path.{◌≡◌, refl, ap, ◌∙◌}
use mathlib.Core.Logic.{◌↔◌, ◌⊎◌, inl, inr}
use mathlib.Core.Bool.{true}
use mathlib.Core.List.{[], ◌∷◌, ◌++◌}
use Prim.Native.Nat.{ℕ}
use native.Mathlib.Omega.{arith}
use rauthy.Base.Tests.{Bool-cases, Option-cases}
use rauthy.Base.Text.{Str, starts_with, find, contains}
use rauthy.Base.Csv.{starts_with_sound, starts_with_append, contains-nil}

-- `p` stands in `s`.
abbrev pub Occurs : Str → Str → Type 0
Occurs p s = (before : Str) × (after : Str) × (s ≡ before ++ p ++ after)

contains-cons :
    (c : ℕ) (s p : Str)
    → (contains (c ∷ s) p ≡ true) ↔ ((starts_with (c ∷ s) p ≡ true) ⊎ (contains s p ≡ true))
unfolding contains find
contains-cons c s p = (there, back)
  where
    there : contains (c ∷ s) p ≡ true → (starts_with (c ∷ s) p ≡ true) ⊎ (contains s p ≡ true)
    there h = elim (Bool-cases (starts_with (c ∷ s) p)) [
      | inl here ↦ inl here
      | inr other ↦ elim (Option-cases (find s p)) [
        | inl gone ↦ absurd (ground arith)
        | inr (n, later) ↦ inr (ground arith)
      ]
    ]

    back : (starts_with (c ∷ s) p ≡ true) ⊎ (contains s p ≡ true) → contains (c ∷ s) p ≡ true
    back (inl here) = ground arith
    back (inr later) = elim (Bool-cases (starts_with (c ∷ s) p)) [
      | inl here ↦ ground arith
      | inr other ↦ elim (Option-cases (find s p)) [
        | inl gone ↦ absurd (ground arith)
        | inr (n, found) ↦ ground arith
      ]
    ]

contains-Occurs : (s p : Str) → contains s p ≡ true → Occurs p s
unfolding contains find
contains-Occurs [] [] h = ([], [], refl)
contains-Occurs [] (c ∷ p) h = cc
contains-Occurs (c ∷ s) p h = elim ((contains-cons c s p).0 h) [
  | inl here ↦ let (after, e) = starts_with_sound (c ∷ s) p here in ([], after, e)
  | inr later ↦
      let (before, after, e) = contains-Occurs s p later in (c ∷ before, after, ap (λ t. c ∷ t) e)
]

contains-append : (before p after : Str) → contains (before ++ p ++ after) p ≡ true
contains-append [] [] after = contains-nil after
contains-append [] (c ∷ p) after =
    (contains-cons c (p ++ after) (c ∷ p)).1 (inl (starts_with_append (c ∷ p) after))
contains-append (c ∷ before) p after =
    (contains-cons c (before ++ p ++ after) p).1 (inr (contains-append before p after))

-- `contains` decides it.
pub contains_iff : (s p : Str) → (contains s p ≡ true) ↔ Occurs p s
contains_iff s p = (
  contains-Occurs s p,
  λ (before, after, e). ap (λ t. contains t p) e ∙ contains-append before p after,
)
