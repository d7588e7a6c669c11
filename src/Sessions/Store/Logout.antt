-- ===== src/Sessions/Store/Logout.antt =====
-- What logging out leaves behind, and what deleting the sessions of a user does.

use rauthy.Base.{
  ℕ, ◌≡◌, refl, ap, Bool, true, false, none, some, List, [], ◌∷◌, arith, Str, str_eq_iff,
  Bool-cases, if◌then◌else◌, inl, inr, ◌∙◌, vec_contains,
}
use rauthy.Base.Table.{Table, get, put, del, get-del, IsKeyed}
use rauthy.ErrorResponse.{ok}
use rauthy.Sessions.{Session, logged_out}
use rauthy.Sessions.Store.{
  Store, cache_idx, save, find, uncache, picked, is_of_user, delete_by_user, del_rows, invalidate,
}
use rauthy.Sessions.Store.Coherence.{HasIds, IsTable, IsCoherent, str_eq-cache_idx, uncache-db}

-- Whoever is logged out right after the session was saved has a row that expired and is logged out,
-- while `find` still gives the session as it was, from the cache.
pub invalidate-find_stale :
    (s : Session) (now : ℕ) (st : Store)
    → let st' = (invalidate s now (save s st)).1 in
      (get s.id st'.db ≡ some (record s { exp = now; state = logged_out }))
      × ((find s.id st').0 ≡ ok s)
unfolding invalidate save find get put
invalidate-find_stale s now st =
    ground (arith, str_eq_iff s.id s.id, str_eq_iff (cache_idx s.id) (cache_idx s.id))

-- The cache holds nothing of the sessions that were removed, and nothing new.
uncache-get :
    (k : Str) (ids : List Str) (st : Store) (s : Session)
    → get k (uncache ids st).cache_sessions ≡ some s
    → get k st.cache_sessions ≡ some s
unfolding uncache
uncache-get k [] st s h = h
uncache-get k (id ∷ ids) st s h =
    let st' = record st { cache_sessions = del (cache_idx id) st.cache_sessions } in
    let h' = uncache-get k ids st' s h in ground (arith, get-del k (cache_idx id) st.cache_sessions)

uncache-removed :
    (id : Str) (ids : List Str) (st : Store) (s : Session)
    → get (cache_idx id) (uncache ids st).cache_sessions ≡ some s
    → vec_contains ids id ≡ false
unfolding uncache vec_contains
uncache-removed id [] st s h = refl
uncache-removed id (j ∷ ids) st s h =
    let st' = record st { cache_sessions = del (cache_idx j) st.cache_sessions } in
    let h' = uncache-get (cache_idx id) ids st' s h in
    ground (
      arith,
      uncache-removed id ids st' s h,
      str_eq-cache_idx j id,
      get-del (cache_idx id) (cache_idx j) st.cache_sessions,
    )

module _ (test : Session → Bool) where
  picked-contains :
      (id : Str) (rows : Table Session) (s : Session)
      → HasIds rows
      → get id rows ≡ some s
      → test s ≡ true
      → vec_contains (picked test rows) id ≡ true
  unfolding picked get vec_contains
  picked-contains id [] s h e p = cc
  picked-contains id ((k, r) ∷ rows) s (i, h) e p =
      ground (arith, picked-contains id rows s h, str_eq_iff k id, str_eq_iff r.id id)

  get-del_rows-none :
      (id : Str) (rows : Table Session) → get id rows ≡ none → get id (del_rows test rows) ≡ none
  unfolding del_rows get
  get-del_rows-none id [] h = refl
  get-del_rows-none id ((k, r) ∷ rows) h = ground (arith, get-del_rows-none id rows)

  get-del_rows :
      (id : Str) (rows : Table Session) (s : Session)
      → IsKeyed rows
      → get id rows ≡ some s
      → get id (del_rows test rows) ≡ (if test s then none else some s)
  unfolding del_rows get
  get-del_rows id [] s h e = cc
  get-del_rows id ((k, r) ∷ rows) s (fresh, h) e =
      ground (arith, get-del_rows id rows s h, get-del_rows-none id rows, str_eq_iff k id)

-- Where the cache of sessions agrees with the table, and each row stands once, under its id:
-- `delete_by_user` keeps the cache in agreement with the table, though it reads the rows to remove
-- before it deletes them.
pub delete_by_user-IsCoherent :
    (uid : Str) (st : Store) → IsCoherent st → IsTable st.db → IsCoherent (delete_by_user uid st)
unfolding delete_by_user
delete_by_user-IsCoherent uid st c (keyed, ids) = record {
  agrees = λ id s h.
      let st' = record st { db = del_rows (is_of_user uid) st.db } in
      let old =
        c.agrees id s (uncache-get (cache_idx id) (picked (is_of_user uid) st.db) st' s h) in
      let gone = uncache-removed id (picked (is_of_user uid) st.db) st' s h in
      ap (get id) (uncache-db (picked (is_of_user uid) st.db) st')
      ∙ get-del_rows (is_of_user uid) id st.db s keyed old
      ∙ elim (Bool-cases (is_of_user uid s)) [
        | inr other ↦ rw other
        | inl mine ↦ absurd (cc (gone, picked-contains (is_of_user uid) id st.db s ids old mine))
      ];
}
