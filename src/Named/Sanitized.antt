-- ===== src/Named/Sanitized.antt =====
-- The text of the names that `sanitize` keeps.
use mathlib.Core.List.{append-nil}
use rauthy.Base.{
  ℕ, ◌≡◌, ◌≢◌, inl, inr, refl, sym, ap, ◌∙◌, false, List, [], ◌∷◌, ◌++◌, Str, vec_contains, csv,
  trim, is_empty, Bool-cases, if◌then◌else◌,
}
use rauthy.Base.Csv.{Free, split-append, split_of_Free, csv_of_Free}
use rauthy.Clients.{remove_last}
use rauthy.Named.{Named, push_names}

-- The names have no comma and no white space round them, and are not empty.
abbrev pub AreClean : List Named → Type 0
AreClean [] = Unit
AreClean (g ∷ gs) = (Free b',' g.name × (trim g.name ≡ g.name) × (g.name ≢ [])) × AreClean gs

-- The names that are asked for, in the order in which they are stored.
abbrev pub kept_names : List Str → List Named → List Str
kept_names asked [] = []
kept_names asked (g ∷ gs) =
    let rest = kept_names asked gs in if vec_contains asked g.name then g.name ∷ rest else rest

remove_last-append : (c : ℕ) (s t : Str) → remove_last (s ++ c ∷ t) ≡ s ++ remove_last (c ∷ t)
unfolding remove_last
remove_last-append c [] t = refl
remove_last-append c (x ∷ []) t = refl
remove_last-append c (x ∷ y ∷ s) t = ap (λ r. x ∷ r) (remove_last-append c (y ∷ s) t)

csv-cons : (n s : Str) → Free b',' n → trim n ≡ n → csv (n ++ b',' ∷ s) ≡ n ∷ csv s
unfolding csv
csv-cons n s free t = rw (split-append b',' n s, split_of_Free b',' n free) (ap (λ m. m ∷ csv s) t)

-- What is pushed is empty, or ends with a comma, before which are the names.
abbrev pub HoldsNames : Str → List Str → Type 0
HoldsNames [] ns = ns ≡ []
HoldsNames (c ∷ s) ns = (csv (remove_last (c ∷ s)) ≡ ns) × (is_empty (remove_last (c ∷ s)) ≡ false)

HoldsNames-cons :
    (n : Str) (s : Str) (ns : List Str)
    → Free b',' n
    → trim n ≡ n
    → n ≢ []
    → HoldsNames s ns
    → HoldsNames (n ++ b',' ∷ s) (n ∷ ns)
unfolding remove_last
HoldsNames-cons [] s ns free t full h = absurd (full refl)
HoldsNames-cons (x ∷ n) [] ns free t full h =
    let whole = remove_last-append b',' (x ∷ n) [] ∙ append-nil (x ∷ n) in
    (ap csv whole ∙ csv_of_Free (x ∷ n) free t ∙ ap (λ r. (x ∷ n) ∷ r) (sym h), ap is_empty whole)
HoldsNames-cons (x ∷ n) (c ∷ s) ns free t full (h, _) =
    let whole = remove_last-append b',' (x ∷ n) (c ∷ s) in
    (
      ap csv whole ∙ csv-cons (x ∷ n) (remove_last (c ∷ s)) free t ∙ ap (λ r. (x ∷ n) ∷ r) h,
      ap is_empty whole,
    )

pub push_names-HoldsNames :
    (asked : List Str) (gs : List Named)
    → AreClean gs
    → HoldsNames (push_names asked gs) (kept_names asked gs)
unfolding push_names
push_names-HoldsNames asked [] h = refl
push_names-HoldsNames asked (g ∷ gs) ((free, t, full), h) =
    elim (Bool-cases (vec_contains asked g.name)) [
      | inl asked_for ↦ rw (asked_for) (
          HoldsNames-cons g.name (push_names asked gs) (kept_names asked gs) free t full
            (push_names-HoldsNames asked gs h))
      | inr other ↦ rw (other) (push_names-HoldsNames asked gs h)
    ]
