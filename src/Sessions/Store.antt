-- ===== src/Sessions/Store.antt =====
-- rauthy-models/src/entity/sessions.rs: the operations on the table `sessions` and on the cache of
-- that name. The database and the caches answer every request, and an entry stays in a cache until
-- it is removed; the 12 hour cache is there since `invalidate` addresses it.
pub mod Coherence
pub mod Invalidation
pub mod Logout
use rauthy.Base.{
  ◌<◌, ℕ, Bool, true, false, Option, none, some, List, [], ◌∷◌, ◌++◌, ltb, Str, codes, str_eq,
  opt_str_eq, if◌then◌else◌,
}
use rauthy.Base.Table.{Table, get, put, del}
use rauthy.ErrorResponse.{Result, ok, err, not_found}
use rauthy.Sessions.{Session, logged_out}

pub record Store : Type 0 where
  pub db : Table Session
  pub cache_sessions : Table Session
  pub cache_12hr : Table Session

unfoldable pub cache_idx : Str → Str
cache_idx id = codes "session_" ++ id

-- `Session::save`: the upsert (of the SQLite build) and the write to the cache.
unfoldable pub save : Session → Store → Store
unfolding cache_idx
save s st = record st {
  db = put s.id s st.db;
  cache_sessions = put (cache_idx s.id) s st.cache_sessions;
}

unfoldable pub delete : Session → Store → Store
unfolding cache_idx
delete s st = record st {
  db = del s.id st.db;
  cache_sessions = del (cache_idx s.id) st.cache_sessions;
}

-- `Session::find`: the cache first, and a row of the database is put into the cache.
unfoldable pub find : Str → Store → Result Session × Store
unfolding cache_idx
find id st = elim (get (cache_idx id) st.cache_sessions) [
  | some s ↦ (ok s, st)
  | none ↦ elim (get id st.db) [
    | none ↦ (err not_found, st)
    | some s ↦ (ok s, record st { cache_sessions = put (cache_idx id) s st.cache_sessions })
  ]
]

-- The loop over `removed`.
unfoldable pub uncache : List Str → Store → Store
unfolding cache_idx
uncache [] st = st
uncache (id ∷ ids) st =
    uncache ids (record st { cache_sessions = del (cache_idx id) st.cache_sessions })

-- The first loop of `invalidate_all` and `invalidate_for_user`, over the rows that the database
-- gave: the sessions that `test` picks expire now, and are saved.
unfoldable pub expire_rows : (Session → Bool) → ℕ → Table Session → Store → Store
unfolding save
expire_rows test now [] st = st
expire_rows test now ((k, s) ∷ rows) st =
    expire_rows test now rows (if test s then save (record s { exp = now }) st else st)

-- What that loop pushes to `removed`.
unfoldable pub picked : (Session → Bool) → Table Session → List Str
picked test [] = []
picked test ((k, s) ∷ rows) = let rest = picked test rows in if test s then s.id ∷ rest else rest

abbrev pub is_live : ℕ → Session → Bool
is_live now s = ltb now s.exp

abbrev pub is_of_user : Str → Session → Bool
is_of_user uid s = opt_str_eq s.user_id (some uid)

unfoldable pub invalidate_all : ℕ → Store → Store
unfolding expire_rows picked uncache
invalidate_all now st =
    uncache (picked (is_live now) st.db) (expire_rows (is_live now) now st.db st)

unfoldable pub invalidate_for_user : Str → ℕ → Store → Store
unfolding expire_rows picked uncache
invalidate_for_user uid now st =
    uncache (picked (is_of_user uid) st.db) (expire_rows (is_of_user uid) now st.db st)

-- The rows of a user, deleted; the source reads them first, for their keys in the cache.
del_rows : (Session → Bool) → Table Session → Table Session
del_rows test [] = []
del_rows test ((k, s) ∷ rows) =
    let rest = del_rows test rows in if test s then rest else (k, s) ∷ rest

unfoldable pub delete_by_user : Str → Store → Store
unfolding del_rows picked uncache
delete_by_user uid st =
    uncache (picked (is_of_user uid) st.db) (record st { db = del_rows (is_of_user uid) st.db })

-- `UPDATE sessions SET exp, state WHERE id`: a row that is not there stays so.
update_row : Session → Table Session → Table Session
update_row s [] = []
update_row s ((k, r) ∷ rows) =
    let rest = update_row s rows in
    if str_eq k s.id then (k, record r { exp = s.exp; state = s.state }) ∷ rest else (k, r) ∷ rest

-- `Session::invalidate`: the session as it is left, and the store. The entry is removed from the
-- 12 hour cache.
unfoldable pub invalidate : Session → ℕ → Store → Session × Store
unfolding update_row cache_idx
invalidate s now st =
    let s' = record s { exp = now; state = logged_out } in
    (s', record st { db = update_row s' st.db; cache_12hr = del (cache_idx s.id) st.cache_12hr })

unfoldable pub set_mfa : Session → Bool → Store → Session × Store
unfolding save
set_mfa s value st = let s' = record s { is_mfa = value } in (s', save s' st)
