-- ===== src/Base/Text.antt =====
-- Texts as the lists of their codes, and the operations of Rust's `str` that the program calls.
use Prim.Native.Char.{code}
use Prim.Native.String.{String}
use Prim.Native.Nat.{ℕ, zero, suc, ◌+◌, ◌-◌}
use mathlib.Core.Path.{◌≡◌, refl}
use mathlib.Core.Logic.{◌↔◌}
use mathlib.Core.Bool.{Bool, true, false, ◌&&◌, ◌||◌}
use mathlib.Core.Option
use mathlib.Core.Option.{Option, none, some}
use mathlib.Core.List.{List, [], ◌∷◌, ◌++◌, reverse, map}
use native.Mathlib.Omega.{arith}
use rauthy.Base.Tests.{◌==◌, leb, if◌then◌else◌, is_some}
use rauthy.Base.Lists.{length}

abbrev pub Str : Type 0
Str = List ℕ

-- The codes of a literal.
abbrev pub codes : String → Str
codes String.[] = []
codes (String.◌∷◌ c s) = code c ∷ codes s

unfoldable pub str_eq : Str → Str → Bool
str_eq [] [] = true
str_eq (a ∷ s) (b ∷ t) = a == b && str_eq s t
str_eq _ _ = false

pub str_eq_iff : (s t : Str) → (str_eq s t ≡ true) ↔ (s ≡ t)
unfolding str_eq
str_eq_iff [] [] = ground arith
str_eq_iff [] (b ∷ t) = ground arith
str_eq_iff (a ∷ s) [] = ground arith
str_eq_iff (a ∷ s) (b ∷ t) = ground (arith, str_eq_iff s t)

pub str_eq_refl : (s : Str) → str_eq s s ≡ true
str_eq_refl s = (str_eq_iff s s).1 refl

-- `a == b` on `Option<String>`.
unfoldable pub opt_str_eq : Option Str → Option Str → Bool
opt_str_eq none none = true
opt_str_eq (some s) (some t) = str_eq s t
opt_str_eq _ _ = false

pub opt_str_eq_iff : (s t : Option Str) → (opt_str_eq s t ≡ true) ↔ (s ≡ t)
unfolding opt_str_eq
opt_str_eq_iff none none = ground arith
opt_str_eq_iff none (some t) = ground arith
opt_str_eq_iff (some s) none = ground arith
opt_str_eq_iff (some s) (some t) = ground (arith, str_eq_iff s t)

-- `s.is_empty()`
abbrev pub is_empty : Str → Bool
is_empty [] = true
is_empty (c ∷ s) = false

-- `v.contains(&s)` on a `Vec<String>`.
unfoldable pub vec_contains : List Str → Str → Bool
vec_contains [] s = false
vec_contains (t ∷ ts) s = str_eq t s || vec_contains ts s

unfoldable pub starts_with : Str → Str → Bool
starts_with s [] = true
starts_with [] (p ∷ ps) = false
starts_with (c ∷ s) (p ∷ ps) = c == p && starts_with s ps

unfoldable pub ends_with : Str → Str → Bool
unfolding starts_with
ends_with s p = starts_with (reverse s) (reverse p)

-- `s.find(p)`: where `p` first stands in `s`.
unfoldable pub find : Str → Str → Option ℕ
unfolding starts_with
find [] p = if is_empty p then some 0 else none
find (c ∷ s) p = if starts_with (c ∷ s) p then some 0 else Option.map suc (find s p)

-- `s.contains(p)`
unfoldable pub contains : Str → Str → Bool
unfolding find
contains s p = is_some (find s p)

abbrev pub cons_head : ℕ → List Str → List Str
cons_head c [] = (c ∷ []) ∷ []
cons_head c (t ∷ ts) = (c ∷ t) ∷ ts

-- `s.split(sep)`, which yields one part more than there are separators.
unfoldable pub split : ℕ → Str → List Str
split sep [] = [] ∷ []
split sep (c ∷ s) = let rest = split sep s in if c == sep then [] ∷ rest else cons_head c rest

abbrev pub cons_fst : ℕ → Str × Str → Str × Str
cons_fst c (a, b) = (c ∷ a, b)

-- `s.split_once(sep)`
unfoldable pub split_once : ℕ → Str → Option (Str × Str)
split_once sep [] = none
split_once sep (c ∷ s) =
    let rest = split_once sep s in if c == sep then some ([], s) else Option.map (cons_fst c) rest

unfoldable pub drop : ℕ → Str → Str
drop zero s = s
drop (suc n) [] = []
drop (suc n) (c ∷ s) = drop n s

unfoldable pub take : ℕ → Str → Str
take zero s = []
take (suc n) [] = []
take (suc n) (c ∷ s) = c ∷ take n s

-- `s.split_once(sep)` for a text `sep` that is not empty.
unfoldable pub split_once_str : Str → Str → Option (Str × Str)
unfolding starts_with drop
split_once_str sep [] = none
split_once_str sep (c ∷ s) =
    let rest = split_once_str sep s in
    if starts_with (c ∷ s) sep
    then some ([], drop (length sep) (c ∷ s))
    else Option.map (cons_fst c) rest

-- `s.replace(p, r)` for a `p` that is not empty: `skip` counts the codes left of the match at hand.
unfoldable pub replace_from : ℕ → Str → Str → Str → Str
unfolding starts_with
replace_from skip p r [] = []
replace_from (suc skip) p r (c ∷ s) = replace_from skip p r s
replace_from zero p r (c ∷ s) = elim (starts_with (c ∷ s) p) [
  | true ↦ r ++ replace_from (length p - 1) p r s
  | false ↦ c ∷ replace_from zero p r s
]

unfoldable pub replace : Str → Str → Str → Str
unfolding replace_from
replace s p r = replace_from zero p r s

abbrev pub is_space : ℕ → Bool
is_space c = c == 32 || c == 9 || c == 10 || c == 11 || c == 12 || c == 13

unfoldable pub trim_start : Str → Str
trim_start [] = []
trim_start (c ∷ s) = let rest = trim_start s in if is_space c then rest else c ∷ s

-- `s.trim()`, of ASCII white space.
unfoldable pub trim : Str → Str
unfolding trim_start
trim s = reverse (trim_start (reverse (trim_start s)))

-- `s.split(',').map(trim)`, the comma separated values of a column.
unfoldable pub csv : Str → List Str
unfolding split trim
csv s = map trim (split b',' s)

abbrev lower : ℕ → ℕ
lower c = if leb 65 c && leb c 90 then c + 32 else c

-- `s.to_lowercase()`, of ASCII letters.
unfoldable pub to_lowercase : Str → Str
to_lowercase s = map lower s
