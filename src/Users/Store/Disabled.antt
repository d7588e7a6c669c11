-- ===== src/Users/Store/Disabled.antt =====
-- A user who is saved disabled is logged out everywhere.
use rauthy.Base.{◌≡◌, ◌≤◌, ◌<◌, ℕ, false, Option, some, [], ◌∷◌, arith, Str, str_eq_iff}
use rauthy.Base.Table.{Table, get}
use rauthy.ErrorResponse.{ok}
use rauthy.Users.{User}
use rauthy.Users.Store.{UserStore, update_row, lock_out, write, store}
use rauthy.Users.Store.Saving.{store-eq-ok}
use rauthy.Sessions.{Session, is_valid}
use rauthy.Sessions.Store
use rauthy.Sessions.Store.Coherence.{IsTable, IsCoherent}
use rauthy.Sessions.Store.Invalidation.{invalidate_for_user-not_valid}
use rauthy.RefreshTokens.{RefreshToken, expire_where, invalidate_for_user}

-- The refresh tokens of a user end at `now` at the latest.
invalidate_for_user-ends :
    (uid : Str) (now : ℕ) (id : Str) (tokens : Table RefreshToken) (t : RefreshToken)
    → get id (invalidate_for_user uid now tokens) ≡ some t
    → t.user_id ≡ uid
    → t.exp ≤ now
unfolding invalidate_for_user expire_where get
invalidate_for_user-ends uid now id [] t h own = cc
invalidate_for_user-ends uid now id ((k, rt) ∷ rows) t h own =
    ground (arith, invalidate_for_user-ends uid now id rows t, str_eq_iff rt.user_id uid)

-- What is true of a user who is logged out everywhere.
pub record IsLockedOut (uid : Str) (now : ℕ) (st : UserStore) : Type 0 where
  pub no_session :
      (id : Str) (s : Session)
      → (Store.find id st.sessions).0 ≡ ok s
      → s.user_id ≡ some uid
      → (later timeout : ℕ) (ip : Option Str) → now < later
      → is_valid s later timeout ip ≡ false
  pub no_token :
      (id : Str) (t : RefreshToken) → get id st.tokens ≡ some t → t.user_id ≡ uid → t.exp ≤ now

lock_out-IsLockedOut :
    (u : User) (now : ℕ) (st : UserStore)
    → IsCoherent st.sessions
    → IsTable st.sessions.db
    → u.enabled ≡ false
    → IsLockedOut u.id now (lock_out u now st)
unfolding lock_out
lock_out-IsLockedOut u now st c t off =
    rw (off, lock_out)
      (record {
        no_session = invalidate_for_user-not_valid u.id now st.sessions c t;
        no_token = λ id rt. invalidate_for_user-ends u.id now id st.tokens rt;
      })

write-IsLockedOut :
    (u : User) (old : Option Str) (now : ℕ) (st : UserStore)
    → IsCoherent st.sessions
    → IsTable st.sessions.db
    → u.enabled ≡ false
    → IsLockedOut u.id now (write u old now st)
unfolding write
write-IsLockedOut u old now st c t off =
    let l = lock_out-IsLockedOut u now (record st { db = update_row u st.db }) c t off in
    record { no_session = l.no_session; no_token = l.no_token }

-- Where the cache of sessions agrees with its table: after a disabled user was saved at `now`, no
-- session of the user that can be found is valid at any later time, and no row of the user in the table
-- of refresh tokens, which does not have those of devices, ends later than now.
pub store-IsLockedOut :
    (u : User) (old : Option Str) (now : ℕ) (st : UserStore)
    → IsCoherent st.sessions
    → IsTable st.sessions.db
    → u.enabled ≡ false
    → (store u old now st).0 ≡ ok tt
    → IsLockedOut u.id now (store u old now st).1
store-IsLockedOut u old now st c t off done =
    rw (store-eq-ok u old now st done) (write-IsLockedOut u old now st c t off)
