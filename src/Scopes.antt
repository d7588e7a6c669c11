-- ===== src/Scopes.antt =====
-- rauthy-models/src/entity/scopes.rs: the table of scopes with its cached list, and the clients that have a
-- scope. The names of the custom attributes of users (entity/user_attr.rs) are an argument; the document
-- that is rebuilt for discovery is left out.
pub mod Openid
pub mod Tests
use rauthy.Base.{
  Bool, true, false, ◌&&◌, ◌||◌, not, Option, none, some, List, [], ◌∷◌, ◌++◌, is_some, is_empty,
  Str, codes, str_eq, vec_contains, contains, replace, split, if◌then◌else◌,
}
use rauthy.Base.Table.{Table}
use rauthy.ErrorResponse.{Result, ok, err, and_then, bad_request, not_found}
use rauthy.Clients.{Client, delete_scope}
use rauthy.Clients.Store.{ClientStore, join, save_seen}

pub record Scope : Type 0 where
  pub id : Str
  pub name : Str
  pub attr_include_access : Option Str
  pub attr_include_id : Option Str

pub record ScopeRequest : Type 0 where
  pub scope : Str
  pub attr_include_access : Option (List Str)
  pub attr_include_id : Option (List Str)

-- `listed` is the entry IDX_SCOPES of the 12 hour cache.
pub record State : Type 0 where
  pub db : List Scope
  pub listed : Option (List Scope)
  pub clients : ClientStore

unfoldable pub is_custom : Str → Bool
is_custom scope =
    not (str_eq scope (codes "openid"))
    && not (str_eq scope (codes "profile"))
    && not (str_eq scope (codes "email"))
    && not (str_eq scope (codes "groups"))

unfoldable pub custom_of : List Str → List Str
unfolding is_custom vec_contains
custom_of [] = []
custom_of (s ∷ ss) =
    let rest = custom_of ss in
    if is_custom s then (if vec_contains rest s then rest else s ∷ rest) else rest

-- `Scope::extract_custom`; the set is a list in which no name stands twice.
unfoldable pub extract_custom : Str → List Str
unfolding custom_of
extract_custom scopes = custom_of (split b' ' scopes)

-- The attributes that are there.
unfoldable pub existing : List Str → List Str → List Str
existing attrs [] = []
existing attrs (a ∷ more) =
    let rest = existing attrs more in
    if not (is_empty a) && vec_contains attrs a then a ∷ rest else rest

unfoldable pub clean_up_attrs : Option (List Str) → List Str → Option Str
unfolding existing
clean_up_attrs none attrs = none
clean_up_attrs (some asked) attrs = some (join (existing attrs asked))

unfoldable pub find_all : State → List Scope × State
find_all st = elim st.listed [
  | some l ↦ (l, st)
  | none ↦ (st.db, record st { listed = some st.db })
]

unfoldable pub find_row : Str → List Scope → Result Scope
find_row id [] = err not_found
find_row id (s ∷ ss) = if str_eq s.id id then ok s else find_row id ss

unfoldable pub taken : Str → List Scope → Bool
taken name [] = false
taken name (s ∷ ss) = if str_eq s.name name then true else taken name ss

unfoldable pub without : Str → List Scope → List Scope
without id [] = []
without id (s ∷ ss) = let rest = without id ss in if str_eq s.id id then rest else s ∷ rest

-- The row of the new scope's id, of the `update` statement and of the map.
unfoldable pub replaced : Scope → List Scope → List Scope
replaced new [] = []
replaced new (s ∷ ss) =
    let rest = replaced new ss in if str_eq s.id new.id then new ∷ rest else s ∷ rest

-- OpenID scopes take no custom attributes.
abbrev pub has_wrong_mapping : ScopeRequest → Bool
has_wrong_mapping req =
    not (is_custom req.scope) && (is_some req.attr_include_access || is_some req.attr_include_id)

abbrev pub from_request : Str → ScopeRequest → List Str → Scope
from_request id req attrs = record {
  id = id;
  name = req.scope;
  attr_include_access = clean_up_attrs req.attr_include_access attrs;
  attr_include_id = clean_up_attrs req.attr_include_id attrs;
}

-- `Scope::create`; `id` is random.
unfoldable pub create : Str → List Str → ScopeRequest → State → Result Scope × State
unfolding find_all taken clean_up_attrs is_custom
create id attrs req st =
    let (scopes, st') = find_all st in
    if taken req.scope scopes
    then (err bad_request, st')
    else if has_wrong_mapping req
    then (err bad_request, st')
    else (let new_scope = from_request id req attrs in
        (
          ok new_scope,
          record st' { db = st'.db ++ new_scope ∷ []; listed = some (scopes ++ new_scope ∷ []) },
        ))

abbrev has_scope : Str → Client → Bool
has_scope name c = contains c.scopes name || contains c.default_scopes name

-- The clients that have the scope, as `f` changes them.
unfoldable pub changed_clients : Str → (Client → Client) → Table Client → List Client
changed_clients name f [] = []
changed_clients name f ((k, c) ∷ rows) =
    let rest = changed_clients name f rows in if has_scope name c then f c ∷ rest else rest

unfoldable pub save_all : Table Client → List Client → ClientStore → ClientStore
unfolding save_seen
save_all seen [] st = st
save_all seen (c ∷ cs) st = save_all seen cs (save_seen seen c st)

abbrev evicted : List Client → ClientStore → ClientStore
evicted [] st = st
evicted (c ∷ cs) st = record st { cache_list = none }

-- The clients that are saved in the transaction of `delete` and `update`.
unfoldable pub change_clients : Str → (Client → Client) → ClientStore → ClientStore
unfolding changed_clients save_all
change_clients name f st =
    let cs = changed_clients name f st.db in save_all st.db cs (evicted cs st)

-- The change of the table, and of the list that `find_all` gives then, which is cached.
unfoldable pub change_all : (List Scope → List Scope) → State → State
unfolding find_all
change_all f st =
    let (listed, st') = find_all (record st { db = f st.db }) in
    record st' { listed = some (f listed) }

-- `Scope::delete`
unfoldable pub delete : Str → State → Result (Unit {0}) × State
unfolding find_row change_clients change_all without delete_scope
delete id st = elim (find_row id st.db) [
  | err e ↦ (err e, st)
  | ok scope ↦ if str_eq scope.name (codes "openid") then (err bad_request, st) else (
    ok tt,
    change_all (without id) (record st {
      clients = change_clients scope.name (λ c. delete_scope c scope.name) st.clients;
    }),
  )
]

-- The new name in a client's texts.
unfoldable pub replace_scope : Str → Str → Client → Client
replace_scope old new c = record c {
  scopes = replace c.scopes old new;
  default_scopes = replace c.default_scopes old new;
}

-- `Scope::update`
unfoldable pub update : Str → List Str → ScopeRequest → State → Result Scope × State
unfolding find_row change_clients change_all replaced replace_scope is_custom clean_up_attrs
update id attrs req st = elim (find_row id st.db) [
  | err e ↦ (err e, st)
  | ok scope ↦
      if str_eq scope.name (codes "openid")
      then (err bad_request, st)
      else if has_wrong_mapping req
      then (err bad_request, st)
      else (let clients : ClientStore =
            if str_eq scope.name req.scope
            then st.clients
            else change_clients scope.name (replace_scope scope.name req.scope) st.clients in
          let new_scope = from_request scope.id req attrs in
          (ok new_scope, change_all (replaced new_scope) (record st { clients = clients })))
]

unfoldable pub mapped : Str → Option Str → Option Str → List Scope → List Scope
mapped id access attr_id [] = []
mapped id access attr_id (s ∷ ss) =
    let rest = mapped id access attr_id ss in
    if str_eq s.id id
    then record s { attr_include_access = access; attr_include_id = attr_id } ∷ rest
    else s ∷ rest

-- `Scope::update_mapping_only`, in a transaction of the caller, so that the list is that of the old table
-- where it was not cached.
unfoldable pub update_mapping_only : Str → Option Str → Option Str → State → State
unfolding find_all mapped
update_mapping_only id access attr_id st =
    let (listed, st') = find_all st in
    record st' {
      db = mapped id access attr_id st'.db;
      listed = some (mapped id access attr_id listed);
    }
