-- ===== src/Base/Table.antt =====
-- Tables keyed by a text: rows of the database, and the entries of one named cache.
use mathlib.Core.Path.{◌≡◌, sym}
use mathlib.Core.Logic.{◌⊎◌, inl, inr}
use mathlib.Core.Bool.{false}
use mathlib.Core.Option.{Option, none, some}
use mathlib.Core.List.{List, [], ◌∷◌}
use native.Mathlib.Omega.{arith}
use rauthy.Base.Tests.{if◌then◌else◌, Bool-cases}
use rauthy.Base.Text.{Str, str_eq, str_eq_iff}

abbrev pub Table {ℓ} : Type ℓ → Type ℓ
Table V = List (Str × V)

module _ {ℓ} {V : Type ℓ} where
  unfoldable pub get : Str → Table V → Option V
  get k [] = none
  get k ((j, v) ∷ m) = if str_eq j k then some v else get k m

  unfoldable pub del : Str → Table V → Table V
  del k [] = []
  del k ((j, v) ∷ m) = let rest = del k m in if str_eq j k then rest else (j, v) ∷ rest

  unfoldable pub put : Str → V → Table V → Table V
  unfolding del
  put k v m = (k, v) ∷ del k m

  pub get-del : (j k : Str) (m : Table V) → get j (del k m) ≡ (if str_eq k j then none else get j m)
  unfolding get del
  get-del j k [] = ground arith
  get-del j k ((i, v) ∷ m) =
      ground (arith, str_eq_iff k j, str_eq_iff i k, str_eq_iff i j, get-del j k m)

  pub get-put :
      (j k : Str) (v : V) (m : Table V)
      → get j (put k v m) ≡ (if str_eq k j then some v else get j m)
  unfolding get put
  get-put j k v m = ground (arith, get-del j k m)

  -- An entry after `put` is the new one, or an old one of another key.
  pub get-put_cases :
      (j k : Str) (v w : V) (m : Table V)
      → get j (put k v m) ≡ some w
      → ((j ≡ k) × (w ≡ v)) ⊎ ((str_eq k j ≡ false) × (get j m ≡ some w))
  get-put_cases j k v w m h = elim (Bool-cases (str_eq k j)) [
    | inl same ↦ inl (sym ((str_eq_iff k j).0 same), ground (arith, get-put j k v m))
    | inr other ↦ inr (other, ground (arith, get-put j k v m))
  ]

  -- An entry after `del` is an old one of another key.
  pub get-del_cases :
      (j k : Str) (w : V) (m : Table V)
      → get j (del k m) ≡ some w
      → (str_eq k j ≡ false) × (get j m ≡ some w)
  get-del_cases j k w m h = elim (Bool-cases (str_eq k j)) [
    | inl same ↦ absurd (ground (arith, get-del j k m))
    | inr other ↦ (other, ground (arith, get-del j k m))
  ]

  -- No key stands twice.
  abbrev pub IsKeyed : Table V → Type ℓ
  IsKeyed [] = Unit
  IsKeyed ((k, v) ∷ m) = (get k m ≡ none) × IsKeyed m

  pub del-IsKeyed : (k : Str) (m : Table V) → IsKeyed m → IsKeyed (del k m)
  unfolding del
  del-IsKeyed k [] h = tt
  del-IsKeyed k ((j, v) ∷ m) (fresh, h) =
      ground (arith, get-del j k m, del-IsKeyed k m h, str_eq_iff j k)

  pub put-IsKeyed : (k : Str) (v : V) (m : Table V) → IsKeyed m → IsKeyed (put k v m)
  unfolding put
  put-IsKeyed k v m h = (ground (arith, get-del k k m, str_eq_iff k k), del-IsKeyed k m h)
