-- ===== src/Roles.antt =====
-- rauthy-models/src/entity/roles.rs: roles, which users hold by name in a comma separated text.
pub mod Admins
pub mod Tests
use rauthy.Base.{
  Bool, true, false, List, [], ◌∷◌, ℕ, Str, codes, str_eq, contains, replace, is_empty,
  if◌then◌else◌,
}
use rauthy.ErrorResponse.{Result, ok, err, and_then, bad_request}
use rauthy.Users.{User, delete_role}
use rauthy.Clients.{remove_last}
use rauthy.Named.{
  Named, NamedStore, State, find_all, find_row, taken, without, rename, insert_named, transact,
  push_names,
}

abbrev pub Role : Type 0
Role = Named

-- `Role::create`, given the id of the new role.
unfoldable pub create : Str → Str → NamedStore → Result Role × NamedStore
unfolding find_all taken insert_named
create id role st =
    let (roles, st') = find_all st in
    if taken role roles
    then (err bad_request, st')
    else let new_role : Role = record { id = id; name = role } in
      (ok new_role, insert_named new_role roles st')

unfoldable pub holds : Str → User → Bool
unfolding contains
holds role u = contains u.roles role

unfoldable pub replace_role : Str → Str → User → User
unfolding replace
replace_role old new u = record u { roles = replace u.roles old new }

unfoldable pub delete : Str → ℕ → State → Result (Unit {0}) × State
unfolding find_row transact holds delete_role without
delete id now st = elim (find_row id st.named.db) [
  | err e ↦ (err e, st)
  | ok r ↦
      if str_eq r.name (codes "rauthy_admin")
      then (err bad_request, st)
      else transact (holds r.name) (λ u. delete_role u r.name) (without r.id) now st
]

unfoldable pub update : Str → Str → ℕ → State → Result Role × State
unfolding find_row transact holds replace_role rename
update id new_name now st = elim (find_row id st.named.db) [
  | err e ↦ (err e, st)
  | ok r ↦
      and_then
        (transact (holds r.name) (replace_role r.name new_name) (rename r.id new_name) now st)
        (λ _ st'. (ok (record { id = id; name = new_name }), st'))
]

-- `Role::sanitize`
unfoldable pub sanitize : List Str → NamedStore → Str × NamedStore
unfolding find_all push_names remove_last
sanitize roles st =
    let (stored, st') = find_all st in
    let res = push_names roles stored in if is_empty res then (res, st') else (remove_last res, st')
