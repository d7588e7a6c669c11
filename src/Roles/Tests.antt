-- ===== src/Roles/Tests.antt =====
-- Runs of the operations on roles.
use mathlib.Core.Option
use rauthy.Base.{
  ◌≡◌, ◌≢◌, ◌⊎◌, inl, inr, refl, ℕ, true, false, Option, none, some, List, [], ◌∷◌, arith, Str,
  codes, str_eq, trim,
}
use rauthy.Base.Table.{get}
use rauthy.ErrorResponse.{err, bad_request}
use rauthy.Fixtures.{a_user}
use rauthy.Users.{User, get_roles, is_admin}
use rauthy.Users.Store.{pos}
use rauthy.Sessions.Store
use rauthy.Named.{Named, NamedStore, State, taken}
use rauthy.Named.Sanitized.{AreClean, kept_names}
use rauthy.Roles.{delete, update, sanitize}
use rauthy.Roles.Admins.{get_roles-sanitize, delete-keeps_admin}

abbrev admin : Named
admin = record { id = codes "1"; name = codes "rauthy_admin" }

abbrev short : Named
short = record { id = codes "2"; name = codes "admin" }

abbrev stored : NamedStore
stored = record { db = admin ∷ short ∷ []; cache = none }

abbrev the_admin : User
the_admin = record a_user { roles = codes "rauthy_admin" }

abbrev no_sessions : Store.Store
no_sessions = record { db = []; cache_sessions = []; cache_12hr = [] }

abbrev state : State
state = record {
  named = stored;
  users = record {
    db = (codes "u", the_admin) ∷ [];
    cache_users = [];
    cache_count = some (pos 1);
    sessions = no_sessions;
    tokens = [];
  };
  listed_users = none;
}

delete_admin_run : (delete (codes "1") 9 state).0 ≡ err bad_request
unfolding delete str_eq
delete_admin_run = refl

-- Renaming the role `admin` takes `rauthy_admin` from the admins.
update_part_run :
    Option.map is_admin (get (codes "u") (update (codes "2") (codes "boss") 9 state).1.users.db)
    ≡ some false
unfolding get update str_eq is_admin rauthy.Base.vec_contains rauthy.Base.csv
update_part_run = refl

-- The role `rauthy_admin` can be renamed, though not deleted.
update_admin_run :
    taken (codes "rauthy_admin") (update (codes "1") (codes "x") 9 state).1.named.db ≡ false
unfolding taken update str_eq get
update_admin_run = refl

stored-AreClean : AreClean stored.db
unfolding trim
stored-AreClean = ((omega arith, refl, cc), ((omega arith, refl, cc), tt))

get_roles-sanitize_run :
    get_roles (record a_user { roles = (sanitize (codes "admin" ∷ codes "x" ∷ []) stored).0 })
    ≡ kept_names (codes "admin" ∷ codes "x" ∷ []) stored.db
get_roles-sanitize_run =
    get_roles-sanitize (codes "admin" ∷ codes "x" ∷ []) stored a_user (inl refl) stored-AreClean

delete-keeps_admin_example :
    taken (codes "rauthy_admin") (delete (codes "2") 9 state).1.named.db ≡ true
unfolding rauthy.Named.find_row str_eq taken
delete-keeps_admin_example = delete-keeps_admin (codes "2") 9 state (refl, (refl, tt)) refl
