-- ===== src/Users/Store/Tests.antt =====
-- Runs of the operations on the table of users.
use rauthy.Base.{
  ◌≡◌, ◌≢◌, ◌⊎◌, ◌≤◌, ◌<◌, ◌+◌, inl, inr, refl, ℕ, true, false, Option, none, some, [], ◌∷◌, ◌++◌,
  arith, length, Str, codes, str_eq, str_eq_iff,
}
use rauthy.Base.Table.{Table, get}
use rauthy.ErrorResponse.{ok, err, bad_request}
use rauthy.Fixtures.{a_user, a_session}
use rauthy.Users.{User, account_type, passkey}
use rauthy.Sessions.Store
use rauthy.Sessions.Store.Coherence
use rauthy.RefreshTokens.{RefreshToken}
use rauthy.Users.Store.{
  UserStore, ℤ, pos, negsuc, users_idx, insert, delete, find, find_by_lower, store, save,
  update_language, convert_to_passkey, find_by_email,
}
use rauthy.Users.Store.Coherence.{IsCoherent, IsTable}
use rauthy.Users.Store.Saving.{save-IsCoherent, delete-IsCoherent}
use rauthy.Users.Store.Disabled.{IsLockedOut, store-IsLockedOut}
use rauthy.Users.Store.Counts.{insert-count}
use rauthy.Users.Store.Finding.{
  find-store, find-update_language, IsConvertible, without_password,
  convert_to_passkey-account_type,
}

abbrev other_user : User
other_user = record a_user {
  id = codes "v";
  email = codes "v@x";
  webauthn_user_id = some (codes "w");
}

abbrev a_token : RefreshToken
a_token = record {
  id = codes "r";
  user_id = codes "u";
  nbf = 0;
  exp = 900;
  scope = none;
  is_mfa = false;
}

abbrev no_sessions : Store.Store
no_sessions = record {
  db = (codes "s", a_session) ∷ [];
  cache_sessions = (codes "session_s", a_session) ∷ [];
  cache_12hr = [];
}

-- Two users, of whom one is cached.
abbrev two_users : UserStore
two_users = record {
  db = (codes "u", a_user) ∷ (codes "v", other_user) ∷ [];
  cache_users = (codes "users__u", a_user) ∷ [];
  cache_count = some (pos 2);
  sessions = no_sessions;
  tokens = (codes "r", a_token) ∷ [];
}

abbrev third : User
third = record a_user { id = codes "z"; email = codes "z@x" }

find_by_email_run : (find_by_email (codes "V@X") two_users).0 ≡ ok other_user
unfolding find_by_email get str_eq
find_by_email_run = refl

insert_taken_run : (insert (record third { email = codes "v@x" }) two_users).0 ≡ err bad_request
unfolding insert get str_eq
insert_taken_run = refl

-- With one row, and nothing cached, the count of users ends below zero.
delete_count_run :
    (delete a_user
      (record two_users { db = (codes "u", a_user) ∷ []; cache_count = none })).cache_count
    ≡ some (negsuc 0)
unfolding delete rauthy.Users.Store.pred_of rauthy.Base.Table.del str_eq
delete_count_run = refl

two_users-IsTable : IsTable two_users.db
unfolding get str_eq
two_users-IsTable = ((refl, (refl, tt)), (refl, (refl, tt)))

two_users-IsCoherent : IsCoherent two_users
unfolding get users_idx
two_users-IsCoherent key u h =
    ground
      (arith, str_eq_iff (codes "users__u") (codes "users__" ++ key), str_eq_iff (codes "u") key)

no_sessions-IsTable : Coherence.IsTable no_sessions.db
unfolding get
no_sessions-IsTable = ((refl, tt), (refl, tt))

no_sessions-IsCoherent : Coherence.IsCoherent no_sessions
unfolding get Store.cache_idx
no_sessions-IsCoherent = record {
  agrees = λ id s h.
      ground
        (arith, str_eq_iff (codes "session_s") (codes "session_" ++ id), str_eq_iff (codes "s") id);
}

abbrev moved : User
moved = record a_user { email = codes "new@x" }

save-IsCoherent_example : IsCoherent (save moved (some (codes "u@x")) 100 two_users).1
unfolding get str_eq
save-IsCoherent_example =
    save-IsCoherent moved a_user (some (codes "u@x")) 100 two_users two_users-IsTable
      two_users-IsCoherent refl (record { same_id = refl; same_created_at = refl }) refl

delete-IsCoherent_run : IsCoherent (delete a_user two_users)
unfolding get str_eq
delete-IsCoherent_run = delete-IsCoherent a_user two_users two_users-IsCoherent refl

abbrev off : User
off = record a_user { enabled = false }

store-IsLockedOut_example : IsLockedOut (codes "u") 100 (store off none 100 two_users).1
unfolding store get str_eq rauthy.Base.opt_str_eq
store-IsLockedOut_example =
    store-IsLockedOut off none 100 two_users no_sessions-IsCoherent no_sessions-IsTable refl refl

insert-count_run :
    (two_users.cache_count ≡ some (pos (length two_users.db))
      → (insert third two_users).1.cache_count ≡ some (pos (length (insert third two_users).1.db)))
    × (two_users.cache_count ≡ none
        → (insert third two_users).1.cache_count
          ≡ some (pos (length (insert third two_users).1.db + 1)))
unfolding insert get str_eq rauthy.Base.opt_str_eq
insert-count_run = insert-count third third two_users refl

find-store_run :
    ((find (codes "u") (store moved (some (codes "u@x")) 100 two_users).1).0 ≡ ok moved)
    × ((find_by_lower (codes "new@x") (store moved (some (codes "u@x")) 100 two_users).1).0
        ≡ ok moved)
unfolding store get str_eq rauthy.Base.opt_str_eq
find-store_run = find-store moved (some (codes "u@x")) 100 two_users refl

abbrev german : User
german = record a_user { language = codes "de" }

find-update_language_run :
    ((find (codes "u") (update_language german (find (codes "u") two_users).1)).0 ≡ ok a_user)
    × (get (codes "u") (update_language german (find (codes "u") two_users).1).db
        ≡ some (record a_user { language = codes "de" }))
unfolding find get str_eq
find-update_language_run = find-update_language german a_user two_users refl refl

abbrev one_key : Str → ℕ
one_key id = 1

convert_to_passkey-account_type_example :
    (u : User) × ((find (codes "v") two_users).0 ≡ ok u)
    × IsConvertible one_key u
    × ((find u.id (convert_to_passkey one_key (codes "v") 100 two_users).1).0
        ≡ ok (without_password u))
    × (account_type (without_password u) ≡ passkey)
unfolding convert_to_passkey get str_eq
convert_to_passkey-account_type_example =
    convert_to_passkey-account_type one_key (codes "v") 100 two_users refl
