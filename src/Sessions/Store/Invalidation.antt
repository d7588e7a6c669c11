-- ===== src/Sessions/Store/Invalidation.antt =====
-- What the loops that invalidate and delete sessions leave in the table and in the cache.
use mathlib.Core.Option
use rauthy.Base.{
  ℕ, ◌<◌, ◌≡◌, refl, sym, ap, Bool, true, false, Option, none, some, [], ◌∷◌, arith, Str,
  str_eq_iff, if◌then◌else◌, ◌∙◌, opt_str_eq_iff,
}
use rauthy.Base.Table.{Table, get, get-put}
use rauthy.ErrorResponse.{ok, err, not_found}
use rauthy.Sessions.{Session, is_valid}
use rauthy.Sessions.Store.{
  Store, save, find, expire_rows, picked, invalidate_all, is_live, is_of_user, invalidate_for_user,
}
use rauthy.Sessions.Store.Coherence.{
  IsTable, IsCoherent, save-IsCoherent, find-eq_db, uncache-db, uncache-IsCoherent,
}

-- One session after the loop.
abbrev pub expire : (Session → Bool) → ℕ → Session → Session
expire test now s = if test s then record s { exp = now } else s

abbrev overlay : (Session → Bool) → ℕ → Option Session → Option Session → Option Session
overlay test now none old = old
overlay test now (some s) old = if test s then some (record s { exp = now }) else old

module _ (test : Session → Bool) (now : ℕ) where
  get-expire_rows :
      (id : Str) (rows : Table Session) (st : Store)
      → IsTable rows
      → get id (expire_rows test now rows st).db ≡ overlay test now (get id rows) (get id st.db)
  unfolding expire_rows get save
  get-expire_rows id [] st h = refl
  get-expire_rows id ((k, s) ∷ rows) st ((fresh, keyed), (e, ids)) =
      let st' = if test s then save (record s { exp = now }) st else st in
      get-expire_rows id rows st' (keyed, ids) ∙ step
    where
      step :
          overlay test now
            (get id rows)
            (get id (if test s then save (record s { exp = now }) st else st).db)
          ≡ overlay test now (get id ((k, s) ∷ rows)) (get id st.db)
      step = ground (
        arith,
        get-put id s.id (record s { exp = now }) st.db,
        str_eq_iff k id,
        str_eq_iff s.id id,
      )

  expire_rows-IsCoherent :
      (rows : Table Session) (st : Store)
      → IsCoherent st
      → IsCoherent (expire_rows test now rows st)
  unfolding expire_rows
  expire_rows-IsCoherent [] st c = c
  expire_rows-IsCoherent ((k, s) ∷ rows) st c =
      expire_rows-IsCoherent rows _
        (elim (test s) as (λ b. IsCoherent (if b then save (record s { exp = now }) st else st)) [
          | true ↦ save-IsCoherent _ st c
          | false ↦ c
        ])

  get-expire_rows_self :
      (id : Str) (st : Store)
      → IsTable st.db
      → get id (expire_rows test now st.db st).db ≡ Option.map (expire test now) (get id st.db)
  get-expire_rows_self id st h =
      get-expire_rows id st.db st h
      ∙ elim (get id st.db) as (λ o. overlay test now o o ≡ Option.map (expire test now) o) [
        | none ↦ refl
        | some s ↦ ground arith
      ]

-- `invalidate_for_user` is an update of the table: the rows of the user expire now, the others stay.
pub get-invalidate_for_user :
    (uid : Str) (now : ℕ) (id : Str) (st : Store)
    → IsTable st.db
    → get id (invalidate_for_user uid now st).db
      ≡ Option.map (expire (is_of_user uid) now) (get id st.db)
unfolding invalidate_for_user
get-invalidate_for_user uid now id st h =
    ap (get id)
      (uncache-db (picked (is_of_user uid) st.db) (expire_rows (is_of_user uid) now st.db st))
    ∙ get-expire_rows_self (is_of_user uid) now id st h

pub get-invalidate_all :
    (now : ℕ) (id : Str) (st : Store)
    → IsTable st.db
    → get id (invalidate_all now st).db ≡ Option.map (expire (is_live now) now) (get id st.db)
unfolding invalidate_all
get-invalidate_all now id st h =
    ap (get id) (uncache-db (picked (is_live now) st.db) (expire_rows (is_live now) now st.db st))
    ∙ get-expire_rows_self (is_live now) now id st h

pub invalidate_for_user-IsCoherent :
    (uid : Str) (now : ℕ) (st : Store) → IsCoherent st → IsCoherent (invalidate_for_user uid now st)
unfolding invalidate_for_user
invalidate_for_user-IsCoherent uid now st c =
    uncache-IsCoherent (picked (is_of_user uid) st.db) _
      (expire_rows-IsCoherent (is_of_user uid) now st.db st c)

pub invalidate_all-IsCoherent :
    (now : ℕ) (st : Store) → IsCoherent st → IsCoherent (invalidate_all now st)
unfolding invalidate_all
invalidate_all-IsCoherent now st c =
    uncache-IsCoherent (picked (is_live now) st.db) _
      (expire_rows-IsCoherent (is_live now) now st.db st c)

expired-not_valid :
    (s : Session) (later timeout : ℕ) (ip : Option Str)
    → s.exp < later
    → is_valid s later timeout ip ≡ false
unfolding is_valid
expired-not_valid s later timeout ip h = ground arith

found_row :
    (o : Option Session) (s : Session)
    → (elim o [ none ↦ err not_found | some s ↦ ok s ]) ≡ ok s
    → o ≡ some s
found_row none s h = cc
found_row (some t) s h = cc

mapped_row :
    (f : Session → Session) (o : Option Session) (s : Session)
    → Option.map f o ≡ some s
    → (t : Session) × (s ≡ f t)
mapped_row f none s h = cc
mapped_row f (some t) s h = (t, cc)

-- In a store whose cache agrees with its table: after `invalidate_for_user` at `now`, no session of
-- that user that can be found is valid at any later time, whatever the timeout and the address of the
-- request.
pub invalidate_for_user-not_valid :
    (uid : Str) (now : ℕ) (st : Store)
    → IsCoherent st
    → IsTable st.db
    → (id : Str) (s : Session) → (find id (invalidate_for_user uid now st)).0 ≡ ok s
    → s.user_id ≡ some uid
    → (later timeout : ℕ) (ip : Option Str) → now < later
    → is_valid s later timeout ip ≡ false
invalidate_for_user-not_valid uid now st c t id s found owner later timeout ip lt =
    let c' = invalidate_for_user-IsCoherent uid now st c in
    let row = found_row _ s (sym (find-eq_db id _ c') ∙ found) in
    let (old, e) = mapped_row _ _ s (sym (get-invalidate_for_user uid now id st t) ∙ row) in
    expired-not_valid s later timeout ip (ground (arith, opt_str_eq_iff old.user_id (some uid)))

-- In a store whose cache agrees with its table: after `invalidate_all` at `now`, no session that can be
-- found is valid at any later time, whatever the timeout and the address of the request.
pub invalidate_all-not_valid :
    (now : ℕ) (st : Store)
    → IsCoherent st
    → IsTable st.db
    → (id : Str) (s : Session) → (find id (invalidate_all now st)).0 ≡ ok s
    → (later timeout : ℕ) (ip : Option Str) → now < later
    → is_valid s later timeout ip ≡ false
invalidate_all-not_valid now st c t id s found later timeout ip lt =
    let c' = invalidate_all-IsCoherent now st c in
    let row = found_row _ s (sym (find-eq_db id _ c') ∙ found) in
    let (old, e) = mapped_row _ _ s (sym (get-invalidate_all now id st t) ∙ row) in
    expired-not_valid s later timeout ip (ground arith)
