-- ===== src/Base/Csv.antt =====
-- Laws of comma separated texts, and of searching and replacing in a text.
use Prim.Native.Nat.{ℕ}
use mathlib.Core.Path.{◌≡◌, refl, ap}
use mathlib.Core.Bool.{true, false}
use mathlib.Core.Option.{some}
use mathlib.Core.Logic.{◌≢◌, ◌⊎◌, inl, inr}
use mathlib.Core.List.{List, [], ◌∷◌, ◌++◌, map, map-append}
use native.Mathlib.Omega.{arith}
use rauthy.Base.Tests.{◌==◌, Bool-cases, Option-cases}
use rauthy.Base.Lists.{All}
use rauthy.Base.Text.{
  Str, str_eq_refl, vec_contains, starts_with, find, contains, cons_head, split, replace_from,
  replace, trim, csv, split_once,
}

-- No separator stands in the text.
abbrev pub Free : ℕ → Str → Type 0
Free sep s = All (λ c. c ≢ sep) s

split-ne-nil : (sep : ℕ) (s : Str) → split sep s ≢ []
unfolding split
split-ne-nil sep [] = cc
split-ne-nil sep (c ∷ s) = ground arith

cons_head-append :
    (c : ℕ) (xs ys : List Str) → xs ≢ [] → cons_head c (xs ++ ys) ≡ cons_head c xs ++ ys
cons_head-append c [] ys h = absurd (h refl)
cons_head-append c (x ∷ xs) ys h = refl

pub split-append : (sep : ℕ) (s t : Str) → split sep (s ++ sep ∷ t) ≡ split sep s ++ split sep t
unfolding split
split-append sep [] t = ground arith
split-append sep (c ∷ s) t = elim (Bool-cases (c == sep)) [
  | inl same ↦ rw (same, split-append sep s t)
  | inr other ↦
      rw (other, split-append sep s t)
        (cons_head-append c (split sep s) (split sep t) (split-ne-nil sep s))
]

pub split_of_Free : (sep : ℕ) (s : Str) → Free sep s → split sep s ≡ s ∷ []
unfolding split
split_of_Free sep [] h = refl
split_of_Free sep (c ∷ s) (p, h) = ground (arith, split_of_Free sep s h)

pub csv-append : (s r : Str) → Free b',' r → trim r ≡ r → csv (s ++ b',' ∷ r) ≡ csv s ++ r ∷ []
unfolding csv
csv-append s r h t =
    rw (split-append b',' s r, split_of_Free b',' r h)
      (simp map-append (ap (λ x. map trim (split b',' s) ++ x ∷ []) t))

pub csv_of_Free : (r : Str) → Free b',' r → trim r ≡ r → csv r ≡ r ∷ []
unfolding csv
csv_of_Free r h t = rw (split_of_Free b',' r h) (ap (λ x. x ∷ []) t)

pub vec_contains-append : (xs : List Str) (s : Str) → vec_contains (xs ++ s ∷ []) s ≡ true
unfolding vec_contains
vec_contains-append [] s = ground (arith, str_eq_refl s)
vec_contains-append (x ∷ xs) s = ground (arith, vec_contains-append xs s)

pub starts_with_self : (s : Str) → starts_with s s ≡ true
unfolding starts_with
starts_with_self [] = refl
starts_with_self (c ∷ s) = ground (arith, starts_with_self s)

pub starts_with_append : (s r : Str) → starts_with (s ++ r) s ≡ true
unfolding starts_with
starts_with_append [] r = ground arith
starts_with_append (c ∷ s) r = ground (arith, starts_with_append s r)

pub starts_with_sound : (s p : Str) → starts_with s p ≡ true → (r : Str) × (s ≡ p ++ r)
unfolding starts_with
starts_with_sound s [] h = (s, refl)
starts_with_sound [] (p ∷ ps) h = cc
starts_with_sound (c ∷ s) (p ∷ ps) h =
    let (r, e) = starts_with_sound s ps (ground arith) in let same : c ≡ p = ground arith in (r, cc)

pub find_self : (s : Str) → find s s ≡ some 0
unfolding find
find_self [] = refl
find_self (c ∷ s) = ground (arith, starts_with_self (c ∷ s))

pub contains-nil : (s : Str) → contains s [] ≡ true
unfolding contains find
contains-nil [] = ground arith
contains-nil (c ∷ s) = ground arith

not_contains-cons :
    (c : ℕ) (s p : Str)
    → contains (c ∷ s) p ≡ false
    → (starts_with (c ∷ s) p ≡ false) × (contains s p ≡ false)
unfolding contains find
not_contains-cons c s p h = elim (Option-cases (find s p)) [
  | inl e ↦ ground arith
  | inr (n, e) ↦ ground arith
]

-- What is not contained is not replaced.
pub replace_of_not_contains : (s p r : Str) → contains s p ≡ false → replace s p r ≡ s
unfolding contains find replace
replace_of_not_contains [] p r h = refl
replace_of_not_contains (c ∷ s) p r h =
    let (here, later) = not_contains-cons c s p h in
    rw (here, replace_from) (ap (λ x. c ∷ x) (replace_of_not_contains s p r later))

pub split_once_of_Free :
    (sep : ℕ) (s t : Str) → Free sep s → split_once sep (s ++ sep ∷ t) ≡ some (s, t)
unfolding split_once
split_once_of_Free sep [] t h = ground arith
split_once_of_Free sep (c ∷ s) t (p, h) = ground (arith, split_once_of_Free sep s t h)

split_once-cons :
    (sep c : ℕ) (s a b : Str)
    → split_once sep (c ∷ s) ≡ some (a, b)
    → ((c ≡ sep) × (a ≡ []) × (b ≡ s))
      ⊎ ((c ≢ sep) × ((a' : Str) × (a ≡ c ∷ a') × (split_once sep s ≡ some (a', b))))
unfolding split_once
split_once-cons sep c s a b h = elim (Bool-cases (c == sep)) [
  | inl same ↦ inl (ground arith, ground arith, ground arith)
  | inr other ↦ inr (
    ground arith,
    (elim (Option-cases (split_once sep s)) [
      | inl nowhere ↦ absurd (ground arith)
      | inr ((a', b'), later) ↦ (a', ground arith, ground arith)
    ]),
  )
]

pub split_once_sound :
    (sep : ℕ) (s a b : Str) → split_once sep s ≡ some (a, b) → Free sep a × (s ≡ a ++ sep ∷ b)
unfolding split_once
split_once_sound sep [] a b h = cc
split_once_sound sep (c ∷ s) [] b h = elim (split_once-cons sep c s [] b h) [
  | inl (same, _, e) ↦ (tt, cc)
  | inr (other, (a', e, later)) ↦ absurd (cc)
]
split_once_sound sep (c ∷ s) (d ∷ a) b h = elim (split_once-cons sep c s (d ∷ a) b h) [
  | inl (same, e, _) ↦ absurd (cc)
  | inr (other, (a', e, later)) ↦
      let e_tail : a ≡ a' = ground arith in
      let e_head : d ≡ c = ground arith in
      let (free, parts) = split_once_sound sep s a b (ground arith) in ((λ q. other (cc), free), cc)
]
