-- ===== src/Named.antt =====
-- What groups (rauthy-models/src/entity/groups.rs) and roles (entity/roles.rs) share: rows of an id and
-- a name, with the list of them all in the 12 hour cache, and the update of the users who hold one.
-- A transaction that fails takes the rows of the users back, but not what was cached.
pub mod Listing
pub mod Holders
pub mod Sanitized
use rauthy.Base.{
  Bool, true, false, Option, none, some, List, [], ◌∷◌, ◌++◌, ℕ, Str, str_eq, vec_contains,
  if◌then◌else◌,
}
use rauthy.Base.Table.{Table}
use rauthy.ErrorResponse.{Result, ok, err, and_then, bad_request, not_found}
use rauthy.Users.{User}
use rauthy.Users.Store.{UserStore, save}

pub record Named : Type 0 where
  pub id : Str
  pub name : Str

pub record NamedStore : Type 0 where
  pub db : List Named
  pub cache : Option (List Named)

-- The state of the operations; `listed_users` is the entry IDX_USERS of the 12 hour cache.
pub record State : Type 0 where
  pub named : NamedStore
  pub users : UserStore
  pub listed_users : Option (List User)

unfoldable pub find_all : NamedStore → List Named × NamedStore
find_all st = elim st.cache [ some l ↦ (l, st) | none ↦ (st.db, record st { cache = some st.db }) ]

unfoldable pub find_row : Str → List Named → Result Named
find_row id [] = err not_found
find_row id (g ∷ gs) = if str_eq g.id id then ok g else find_row id gs

-- The loop of `create` over the names.
unfoldable pub taken : Str → List Named → Bool
taken name [] = false
taken name (g ∷ gs) = if str_eq g.name name then true else taken name gs

-- The rows of other ids, of the `delete` statement and of the filter.
unfoldable pub without : Str → List Named → List Named
without id [] = []
without id (g ∷ gs) = let rest = without id gs in if str_eq g.id id then rest else g ∷ rest

-- The new name, of the `update` statement and of the map.
unfoldable pub rename : Str → Str → List Named → List Named
rename id name [] = []
rename id name (g ∷ gs) =
    let rest = rename id name gs in
    if str_eq g.id id then record g { name = name } ∷ rest else g ∷ rest

-- What the operations do to the list of them all: a change of the table, and then of the list that
-- `find_all` gives, which is cached.
unfoldable pub change_all : (List Named → List Named) → NamedStore → NamedStore
unfolding find_all
change_all f st =
    let (listed, st') = find_all (record st { db = f st.db }) in
    record st' { cache = some (f listed) }

unfoldable pub insert_named : Named → List Named → NamedStore → NamedStore
insert_named g listed st = record st { db = st.db ++ g ∷ []; cache = some (listed ++ g ∷ []) }

-- The users that the test picks, as `f` changes them.
unfoldable pub changed_users : (User → Bool) → (User → User) → Table User → List User
changed_users test f [] = []
changed_users test f ((k, u) ∷ rows) =
    let rest = changed_users test f rows in if test u then f u ∷ rest else rest

unfoldable pub save_all : List User → ℕ → UserStore → Result (Unit {0}) × UserStore
unfolding save
save_all [] now st = (ok tt, st)
save_all (u ∷ us) now st = and_then (save u none now st) (λ _ st'. save_all us now st')

abbrev evict : List User → Option (List User) → Option (List User)
evict [] listed = listed
evict (u ∷ us) listed = none

-- The transaction of `delete` and `update`: the changed users are saved, and then the table and the
-- cached list change.
unfoldable pub transact :
    (User → Bool)
    → (User → User)
    → (List Named → List Named)
    → ℕ
    → State
    → Result (Unit {0}) × State
unfolding changed_users save_all change_all
transact test f change now st =
    let users : List User = changed_users test f st.users.db in
    let (saved, users') = save_all users now st.users in
    let st' : State = record st { users = users'; listed_users = evict users st.listed_users } in
    elim saved [
      | err e ↦ (err e, record st' { users = record users' { db = st.users.db } })
      | ok _ ↦ (ok tt, record st' { named = change_all change st.named })
    ]

-- What `sanitize` pushes for the stored names.
unfoldable pub push_names : List Str → List Named → Str
push_names asked [] = []
push_names asked (g ∷ gs) =
    let rest = push_names asked gs in
    if vec_contains asked g.name then g.name ++ b',' ∷ rest else rest
