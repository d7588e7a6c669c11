-- ===== src/Groups/Tests.antt =====
-- Runs of the operations on groups.
use mathlib.Core.Option
use rauthy.Base.{
  ◌≡◌, ◌≢◌, ◌⊎◌, inl, inr, refl, ℕ, true, false, Option, none, some, List, [], ◌∷◌, arith, Str,
  codes, str_eq, trim, if◌then◌else◌,
}
use rauthy.Base.Table.{get}
use rauthy.ErrorResponse.{err, bad_request, not_found}
use rauthy.Fixtures.{a_user}
use rauthy.Users.{User, get_groups}
use rauthy.Users.Store.{pos}
use rauthy.Users.Store.Coherence.{IsTable}
use rauthy.Sessions.Store
use rauthy.Named.{Named, NamedStore, State, find_all, find_row, without, rename}
use rauthy.Named.Holders.{touch}
use rauthy.Named.Sanitized.{AreClean, kept_names}
use rauthy.Groups.{create, holds, replace_group, delete, update, sanitize}
use rauthy.Groups.Laws.{get_groups-sanitize, update-holders}
use rauthy.Groups.Deletion.{IsLeft, delete_lem}
use rauthy.Groups.Runs.{Op, creating, deleting, updating, listing, run, run-lists}

abbrev dev : Named
dev = record { id = codes "1"; name = codes "dev" }

abbrev ops : Named
ops = record { id = codes "2"; name = codes "ops" }

abbrev stored : NamedStore
stored = record { db = dev ∷ ops ∷ []; cache = none }

abbrev devops : User
devops = record a_user { groups = some (codes "ops,devops") }

abbrev a_dev : User
a_dev = record a_user { id = codes "v"; email = codes "v@x"; groups = some (codes "dev,ops") }

abbrev no_sessions : Store.Store
no_sessions = record { db = []; cache_sessions = []; cache_12hr = [] }

abbrev state : State
state = record {
  named = stored;
  users = record {
    db = (codes "u", devops) ∷ (codes "v", a_dev) ∷ [];
    cache_users = [];
    cache_count = some (pos 2);
    sessions = no_sessions;
    tokens = [];
  };
  listed_users = none;
}

create_taken_run : (create (codes "3") (codes "ops") stored).0 ≡ err bad_request
unfolding create str_eq
create_taken_run = refl

-- A group can be renamed to the name of another one.
update_taken_run :
    (update (codes "1") (codes "ops") 9 state).1.named.db
    ≡ record { id = codes "1"; name = codes "ops" } ∷ ops ∷ []
unfolding update str_eq get
update_taken_run = refl

-- The deletion of the group `dev` takes its name out of another group's.
delete_part_run :
    Option.map User.groups (get (codes "u") (delete (codes "1") 9 state).1.users.db)
    ≡ some (some (codes "opsops"))
unfolding get delete str_eq rauthy.Base.replace
delete_part_run = refl

state-IsTable : IsTable state.users.db
unfolding get str_eq
state-IsTable = ((refl, (refl, tt)), (refl, (refl, tt)))

stored-AreClean : AreClean stored.db
unfolding trim
stored-AreClean = ((omega arith, refl, cc), ((omega arith, refl, cc), tt))

get_groups-sanitize_run :
    get_groups
      (record a_user { groups = (sanitize (some (codes "ops" ∷ codes "none" ∷ [])) stored).0 })
    ≡ kept_names (codes "ops" ∷ codes "none" ∷ []) stored.db
get_groups-sanitize_run =
    get_groups-sanitize (codes "ops" ∷ codes "none" ∷ []) stored a_user (inl refl) stored-AreClean

delete_lem_example :
    ((key : Str)
      → find_row key (delete (codes "1") 9 state).1.named.db
        ≡ (if str_eq (codes "1") key then err not_found else find_row key stored.db))
    × ((key : Str) (u : User)
        → get key state.users.db ≡ some u
        → IsLeft (codes "dev") u (get key (delete (codes "1") 9 state).1.users.db))
unfolding rauthy.Named.find_row str_eq delete get
delete_lem_example = delete_lem (codes "1") 9 state dev state-IsTable refl refl

abbrev renamed : Named
renamed = record { id = codes "1"; name = codes "qa" }

update-holders_run :
    ((update (codes "1") (codes "qa") 9 state).1.named.db
      ≡ rename (codes "1") (codes "qa") stored.db)
    × ((key : Str)
        → get key (update (codes "1") (codes "qa") 9 state).1.users.db
          ≡ Option.map
              (touch (holds (codes "dev")) (replace_group (codes "dev") (codes "qa")))
              (get key state.users.db))
unfolding rauthy.Named.find_row str_eq update get
update-holders_run =
    update-holders (codes "1") (codes "qa") 9 state dev renamed state-IsTable refl refl

abbrev some_ops : List (ℕ × Op)
some_ops =
    (1, creating (codes "3") (codes "qa"))
    ∷ (2, listing)
    ∷ (3, updating (codes "1") (codes "x"))
    ∷ (4, deleting (codes "2"))
    ∷ []

run-lists_example : (find_all (run some_ops state).named).0 ≡ (run some_ops state).named.db
run-lists_example = run-lists some_ops state (inl refl)
