-- ===== src/Groups/Deletion.antt =====
-- What the deletion of a group leaves.
use mathlib.Core.Option
use std.Path.{subst}
use rauthy.Base.{
  false, ℕ, length, ltb, find, contains, starts_with, ◌++◌, ◌≡◌, ◌⊎◌, inl, inr, refl, sym, ap, ◌∙◌,
  ℕ, true, Option, none, some, List, [], ◌∷◌, Str, arith, str_eq, str_eq_iff, Bool-cases,
  Option-cases, if◌then◌else◌,
}
use rauthy.Base.Csv.{Free, find_self}
use rauthy.Base.Replaced.{find_first, find_after, replace_first, replace_one}
use rauthy.Base.Occurs.{Occurs, contains_iff}
use rauthy.Base.Table.{get}
use rauthy.ErrorResponse.{ok, err, not_found}
use rauthy.Users.{User, delete_group}
use rauthy.Users.Store.Coherence.{IsTable}
use rauthy.Named.{Named, State, find_row, without}
use rauthy.Named.Holders.{touch}
use rauthy.Groups.{holds, delete}
use rauthy.Groups.Laws.{delete-holders}

-- The name stands in the text of the user's groups.
abbrev pub Names : Str → User → Type 0
Names name u = (text : Str) × (u.groups ≡ some text) × Occurs name text

holds-Names : (name : Str) (u : User) → holds name u ≡ true → Names name u
unfolding holds
holds-Names name u h = elim (Option-cases u.groups) [
  | inl bare ↦ absurd (ground arith)
  | inr (text, given) ↦ (text, given, (contains_iff text name).0 (ground arith))
]

Names-holds : (name : Str) (u : User) → Names name u → holds name u ≡ true
unfolding holds
Names-holds name u (text, given, here) = rw (given, holds) ((contains_iff text name).1 here)

find_row-without :
    (id key : Str) (gs : List Named)
    → find_row key (without id gs) ≡ (if str_eq id key then err not_found else find_row key gs)
unfolding find_row without
find_row-without id key [] = ground arith
find_row-without id key (g ∷ gs) =
    ground (
      arith,
      find_row-without id key gs,
      str_eq_iff g.id id,
      str_eq_iff g.id key,
      str_eq_iff id key,
    )

-- What becomes of the user where the name stands in the text once: it was all of the text, or its first
-- entry, or, with no comma of its own, a later one, which need not be whole.
pub record Drops (name : Str) (u u' : User) : Type 0 where
  pub same_rest : u' ≡ record u { groups = u'.groups }
  pub only : u.groups ≡ some name → u'.groups ≡ none
  pub first :
      (rest : Str)
      → u.groups ≡ some (name ++ (b',' ∷ rest))
      → contains rest (name ++ (b',' ∷ [])) ≡ false
      → u'.groups ≡ some rest
  pub later :
      (before after : Str)
      → u.groups ≡ some (before ++ (b',' ∷ (name ++ after)))
      → Free b',' name
      → starts_with (before ++ (b',' ∷ (name ++ after))) name ≡ false
      → contains before (b',' ∷ name) ≡ false
      → contains after (b',' ∷ name) ≡ false
      → u'.groups ≡ some (before ++ after)

delete_group-same :
    (name : Str) (u : User)
    → delete_group u name ≡ record u { groups = (delete_group u name).groups }
unfolding delete_group
delete_group-same name u = elim (Option-cases u.groups) [
  | inl bare ↦ rw (bare, delete_group) refl
  | inr (text, given) ↦ elim (Option-cases (find text name)) [
    | inl gone ↦ rw (given, gone, delete_group) refl
    | inr (i, here) ↦ rw (given, here, delete_group) refl
  ]
]

longer : (name : Str) (c : ℕ) (t : Str) → ltb (length name) (length (name ++ (c ∷ t))) ≡ true
longer [] c t = ground arith
longer (x ∷ name) c t = ground (arith, longer name c t)

delete_group-Drops : (name : Str) (u : User) → Drops name u (delete_group u name)
unfolding delete_group
delete_group-Drops name u = record {
  same_rest = delete_group-same name u;
  only = λ given. rw (given, delete_group, find_self name) (ground arith);
  first = λ rest given once.
      rw (given, delete_group, find_first b',' name rest, longer name b',' rest)
        (ap some (replace_first b',' name rest once));
  later = λ before after given free other before_free after_free.
      let (i, found) = find_after b',' name before after other in
      rw (given, delete_group, found)
        (ap some (replace_one b',' name before after free before_free after_free));
}

-- The row of a user after the deletion: as before where the name does not stand in the user's groups, and
-- else the one that `delete_group` makes, without the name where that stands once.
abbrev pub IsLeft : Str → User → Option User → Type 0
IsLeft name u row =
    ((Names name u → ⊥) × (row ≡ some u))
    ⊎ (Names name u
        × ((u' : User) × (row ≡ some u') × (u' ≡ delete_group u name) × Drops name u u'))

touch-IsLeft :
    (name : Str) (u : User) → IsLeft name u (some (touch (holds name) (λ v. delete_group v name) u))
touch-IsLeft name u = elim (Bool-cases (holds name u)) [
  | inl held ↦
      rw (held) (
        inr (holds-Names name u held, (delete_group u name, refl, refl, delete_group-Drops name u)))
  | inr other ↦ rw (other) (inl (λ here. cc (other, Names-holds name u here), refl))
]

-- After a deletion that succeeds the group is not found by its id, and every other id finds what it
-- found before. Where the name stands in the text of a user's groups, the row is that of
-- `delete_group`, which changes the groups only: the user has none if the name was the whole text; a
-- name that begins the text, with a comma after it, goes with that comma; and a name that does not
-- begin the text, has no comma of its own and stands behind one, goes with that comma; each where the
-- name with its comma stands nowhere else. Every other user's row is as it was.
pub delete_lem :
    (id : Str) (now : ℕ) (st : State) (g : Named)
    → IsTable st.users.db
    → find_row id st.named.db ≡ ok g
    → (delete id now st).0 ≡ ok tt
    → ((key : Str)
        → find_row key (delete id now st).1.named.db
          ≡ (if str_eq g.id key then err not_found else find_row key st.named.db))
      × ((key : Str) (u : User)
          → get key st.users.db ≡ some u
          → IsLeft g.name u (get key (delete id now st).1.users.db))
delete_lem id now st g t found done =
    let (rows, users) = delete-holders id now st g t found done in
    (
      λ key. ap (find_row key) rows ∙ find_row-without g.id key st.named.db,
      λ key u here.
          subst (IsLeft g.name u)
            (sym (
              users key ∙ ap (Option.map (touch (holds g.name) (λ v. delete_group v g.name))) here))
            (touch-IsLeft g.name u),
    )
