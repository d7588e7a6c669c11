-- ===== src/Groups.antt =====
-- rauthy-models/src/entity/groups.rs: groups, which users hold by name in a comma separated text.
pub mod Laws
pub mod Deletion
pub mod Runs
pub mod Tests
use rauthy.Base.{
  Bool, true, false, Option, none, some, List, [], ◌∷◌, ℕ, Str, contains, replace, is_empty,
  if◌then◌else◌,
}
use rauthy.ErrorResponse.{Result, ok, err, and_then, bad_request}
use rauthy.Users.{User, delete_group}
use rauthy.Clients.{remove_last}
use rauthy.Named.{
  Named, NamedStore, State, find_all, find_row, taken, without, rename, insert_named, transact,
  push_names,
}

abbrev pub Group : Type 0
Group = Named

-- `Group::create`, given the id of the new group.
unfoldable pub create : Str → Str → NamedStore → Result Group × NamedStore
unfolding find_all taken insert_named
create id group st =
    let (groups, st') = find_all st in
    if taken group groups
    then (err bad_request, st')
    else let new_group : Group = record { id = id; name = group } in
      (ok new_group, insert_named new_group groups st')

unfoldable pub holds : Str → User → Bool
unfolding contains
holds group u = elim u.groups [ none ↦ false | some g ↦ contains g group ]

unfoldable pub replace_group : Str → Str → User → User
unfolding replace
replace_group old new u = record u {
  groups = elim u.groups [ none ↦ none | some g ↦ some (replace g old new) ];
}

unfoldable pub delete : Str → ℕ → State → Result (Unit {0}) × State
unfolding find_row transact holds delete_group without
delete id now st = elim (find_row id st.named.db) [
  | err e ↦ (err e, st)
  | ok g ↦ transact (holds g.name) (λ u. delete_group u g.name) (without g.id) now st
]

unfoldable pub update : Str → Str → ℕ → State → Result Group × State
unfolding find_row transact holds replace_group rename
update id new_name now st = elim (find_row id st.named.db) [
  | err e ↦ (err e, st)
  | ok g ↦
      and_then
        (transact (holds g.name) (replace_group g.name new_name) (rename g.id new_name) now st)
        (λ _ st'. (ok (record { id = g.id; name = new_name }), st'))
]

-- `Group::sanitize`
unfoldable pub sanitize : Option (List Str) → NamedStore → Option Str × NamedStore
unfolding find_all push_names remove_last
sanitize none st = (none, st)
sanitize (some groups) st =
    let (stored, st') = find_all st in
    let res = push_names groups stored in
    if is_empty res then (none, st') else (some (remove_last res), st')
