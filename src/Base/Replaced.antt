-- ===== src/Base/Replaced.antt =====
-- What `replace` does to a text with one occurrence of the pattern.
use mathlib.Core.Path.{◌≡◌, refl, sym, ap, ◌∙◌}
use mathlib.Core.Logic.{inl, inr}
use mathlib.Core.Bool.{true, false}
use mathlib.Core.Option.{some}
use mathlib.Core.List.{append_assoc, [], ◌∷◌, ◌++◌}
use Prim.Native.Nat.{ℕ, zero, suc, ◌-◌}
use native.Mathlib.Omega.{arith}
use rauthy.Base.Tests.{Bool-cases, Option-cases}
use rauthy.Base.Lists.{length}
use rauthy.Base.Text.{Str, starts_with, find, contains, replace, replace_from}
use rauthy.Base.Csv.{Free, starts_with_sound, starts_with_append, replace_of_not_contains}
use rauthy.Base.Occurs.{contains_iff}

skipped : (q t p r : Str) → replace_from (length q) p r (q ++ t) ≡ replace_from zero p r t
unfolding replace_from
skipped [] t p r = refl
skipped (c ∷ q) t p r = skipped q t p r

-- No occurrence begins in the first text.
abbrev NoStart : Str → Str → Str → Type 0
NoStart p [] t = Unit
NoStart p (c ∷ s) t = (starts_with (c ∷ (s ++ t)) p ≡ false) × NoStart p s t

replace_here :
    (a : ℕ) (q r t : Str) → contains t (a ∷ q) ≡ false → replace ((a ∷ q) ++ t) (a ∷ q) r ≡ r ++ t
unfolding replace replace_from
replace_here a q r t none_later =
    let less : suc (length q) - 1 ≡ length q = omega arith in
    rw (starts_with_append (a ∷ q) t, replace_from, less)
      (ap (λ x. r ++ x) (skipped q t (a ∷ q) r ∙ replace_of_not_contains t (a ∷ q) r none_later))

replace_at :
    (s : Str) (a : ℕ) (q r t : Str)
    → NoStart (a ∷ q) s ((a ∷ q) ++ t)
    → contains t (a ∷ q) ≡ false
    → replace (s ++ ((a ∷ q) ++ t)) (a ∷ q) r ≡ s ++ (r ++ t)
unfolding replace replace_from
replace_at [] a q r t free none_later = replace_here a q r t none_later
replace_at (c ∷ s) a q r t (here, free) none_later =
    rw (here, replace_from) (ap (λ x. c ∷ x) (replace_at s a q r t free none_later))

-- A text without the separator that begins a text with it begins what stands before it.
prefix_of_Free :
    (sep : ℕ) (name s rest r : Str)
    → Free sep name
    → s ++ sep ∷ rest ≡ name ++ r
    → starts_with s name ≡ true
unfolding starts_with
prefix_of_Free sep [] s rest r f e = ground arith
prefix_of_Free sep (x ∷ name) [] rest r (other, f) e = absurd (other (cc (e)))
prefix_of_Free sep (x ∷ name) (y ∷ s) rest r (other, f) e =
    let same : y ≡ x = cc (e) in
    let tails : s ++ sep ∷ rest ≡ name ++ r = cc (e) in
    ground (arith, prefix_of_Free sep name s rest r f tails)

contains_tail : (c : ℕ) (s p : Str) → contains (c ∷ s) p ≡ false → contains s p ≡ false
contains_tail c s p absent = elim (Bool-cases (contains s p)) [
  | inr other ↦ other
  | inl here ↦
      let (before, after, e) = (contains_iff s p).0 here in
      let there = (contains_iff (c ∷ s) p).1 (c ∷ before, after, ap (λ x. c ∷ x) e) in
      absurd (cc (there, absent))
]

starts_absent :
    (sep : ℕ) (name : Str) (c : ℕ) (s t : Str)
    → Free sep name
    → contains (c ∷ s) (sep ∷ name) ≡ false
    → starts_with (c ∷ (s ++ (sep ∷ (name ++ t)))) (sep ∷ name) ≡ true
    → ⊥
starts_absent sep name c s t f absent here =
    let (r, e) = starts_with_sound (c ∷ (s ++ (sep ∷ (name ++ t)))) (sep ∷ name) here in
    let same : c ≡ sep = cc (e) in
    let tails : s ++ (sep ∷ (name ++ t)) ≡ name ++ r = cc (e) in
    let (after, whole) =
      starts_with_sound s name (prefix_of_Free sep name s (name ++ t) r f tails) in
    let there = (contains_iff (c ∷ s) (sep ∷ name)).1 ([], after, cc (same, whole)) in
    cc (there, absent)

Free-NoStart :
    (sep : ℕ) (name s t : Str)
    → Free sep name
    → contains s (sep ∷ name) ≡ false
    → NoStart (sep ∷ name) s ((sep ∷ name) ++ t)
Free-NoStart sep name [] t f absent = tt
Free-NoStart sep name (c ∷ s) t f absent = (
  elim (Bool-cases (starts_with (c ∷ (s ++ (sep ∷ (name ++ t)))) (sep ∷ name))) [
    | inr other ↦ other
    | inl here ↦ absurd (starts_absent sep name c s t f absent here)
  ],
  Free-NoStart sep name s t f (contains_tail c s (sep ∷ name) absent),
)

-- Where the separated name stands once, it is taken out.
pub replace_one :
    (sep : ℕ) (name s t : Str)
    → Free sep name
    → contains s (sep ∷ name) ≡ false
    → contains t (sep ∷ name) ≡ false
    → replace (s ++ (sep ∷ (name ++ t))) (sep ∷ name) [] ≡ s ++ t
replace_one sep name s t f before after =
    replace_at s sep name [] t (Free-NoStart sep name s t f before) after

-- A name with its separator at the begin of the text is taken out.
pub replace_first :
    (sep : ℕ) (name t : Str)
    → contains t (name ++ (sep ∷ [])) ≡ false
    → replace (name ++ (sep ∷ t)) (name ++ (sep ∷ [])) [] ≡ t
replace_first sep [] t after = replace_here sep [] [] t after
replace_first sep (a ∷ name) t after =
    ap (λ x. replace (a ∷ x) (a ∷ (name ++ (sep ∷ []))) []) (sym (append_assoc name (sep ∷ []) t))
    ∙ replace_here a (name ++ (sep ∷ [])) [] t after

pub find_first : (c : ℕ) (name t : Str) → find (name ++ (c ∷ t)) name ≡ some 0
unfolding find
find_first c [] t = ground arith
find_first c (a ∷ name) t = ground (arith, starts_with_append (a ∷ name) (c ∷ t))

find_later :
    (s p : Str)
    → starts_with s p ≡ false
    → contains s p ≡ true
    → (i : ℕ) × (find s p ≡ some (suc i))
unfolding find contains starts_with
find_later [] [] other here = cc
find_later [] (x ∷ p) other here = cc
find_later (c ∷ s) p other here = elim (Option-cases (find s p)) [
  | inl gone ↦ absurd (ground arith)
  | inr (i, found) ↦ (i, ground arith)
]

pub find_after :
    (sep : ℕ) (name s t : Str)
    → starts_with (s ++ (sep ∷ (name ++ t))) name ≡ false
    → (i : ℕ) × (find (s ++ (sep ∷ (name ++ t))) name ≡ some (suc i))
find_after sep name s t other = find_later (s ++ (sep ∷ (name ++ t))) name other (
    (contains_iff (s ++ (sep ∷ (name ++ t))) name).1 (
      s ++ (sep ∷ []),
      t,
      sym (ap (λ x. x ++ t) (append_assoc s (sep ∷ []) name) ∙ append_assoc s (sep ∷ name) t),
    ))
