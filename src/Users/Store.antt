-- ===== src/Users/Store.antt =====
-- rauthy-models/src/entity/users.rs: the operations on the table `users`, with the cache of single users,
-- which has one entry under the id and one under the e-mail address, and the cached number of users.
-- A disabled user's sessions and refresh tokens are in the state too. The database answers every request
-- but for its unique constraints, and entries stay in the caches until they are removed.
pub mod Coherence
pub mod Saving
pub mod Finding
pub mod Disabled
pub mod Counts
pub mod Tests
use rauthy.Base.{
  zero, suc, ℕ, ◌+◌, ◌<◌, Bool, true, false, ◌&&◌, ◌||◌, not, Option, none, some, List, [], ◌∷◌,
  ◌++◌, length, ltb, is_some, any, Str, codes, str_eq, opt_str_eq, to_lowercase, if◌then◌else◌,
}
use rauthy.Base.Table.{Table, get, put, del}
use rauthy.ErrorResponse.{Result, ok, err, and_then, bad_request, not_found}
use rauthy.Users.{
  User, AccountType, account_type, has_webauthn_enabled, new, passkey, federated,
  federated_password, federated_passkey,
}
use rauthy.Sessions.Store
use rauthy.RefreshTokens.{RefreshToken, invalidate_for_user, invalidate_all_for_user}

-- The `i64` of the number of users.
pub data ℤ : Type 0 where
  pos negsuc : ℕ → ℤ

unfoldable pub suc_of : ℤ → ℤ
suc_of (pos n) = pos (n + 1)
suc_of (negsuc zero) = pos 0
suc_of (negsuc (suc n)) = negsuc n

unfoldable pub pred_of : ℤ → ℤ
pred_of (pos zero) = negsuc 0
pred_of (pos (suc n)) = pos n
pred_of (negsuc n) = negsuc (n + 1)

pub record UserStore : Type 0 where
  pub db : Table User
  pub cache_users : Table User
  pub cache_count : Option ℤ
  pub sessions : Store.Store
  pub tokens : Table RefreshToken

-- `format!("{}_{}", IDX_USERS, key)`, of an id or an e-mail address.
unfoldable pub users_idx : Str → Str
users_idx key = codes "users__" ++ key

-- The first row that the test picks.
unfoldable pub find_where : (User → Bool) → Table User → Option User
find_where test [] = none
find_where test ((k, u) ∷ rows) = if test u then some u else find_where test rows

abbrev pub has_email : Str → User → Bool
has_email email u = str_eq u.email email

abbrev both_eq : Option Str → Option Str → Bool
both_eq a b = is_some a && opt_str_eq a b

-- The unique constraints of the table, between two rows.
unfoldable pub clashes : User → User → Bool
clashes u r =
    not (str_eq r.id u.id)
    && (str_eq r.email u.email
        || both_eq r.webauthn_user_id u.webauthn_user_id
        || both_eq r.auth_provider_id u.auth_provider_id
          && both_eq r.federation_uid u.federation_uid)

unfoldable pub count : UserStore → ℤ × UserStore
count st = elim st.cache_count [
  | some n ↦ (n, st)
  | none ↦ (pos (length st.db), record st { cache_count = some (pos (length st.db)) })
]

unfoldable pub count_inc : UserStore → UserStore
unfolding count
count_inc st = let (n, st') = count st in record st' { cache_count = some (suc_of n) }

unfoldable pub count_dec : UserStore → UserStore
unfolding count
count_dec st = let (n, st') = count st in record st' { cache_count = some (pred_of n) }

-- The columns that the statement of `User::insert` leaves out are empty.
unfoldable pub inserted : User → User
inserted u = record u {
  password = none;
  password_expires = none;
  last_failed_login = none;
  failed_login_attempts = none;
  webauthn_user_id = none;
}

unfoldable pub insert : User → UserStore → Result User × UserStore
unfolding count_inc clashes find_where inserted
insert u st =
    if is_some (get u.id st.db) || is_some (find_where (clashes u) st.db)
    then (err bad_request, st)
    else (ok u, count_inc (record st { db = put u.id (inserted u) st.db }))

-- `User::delete`. The refresh tokens of the user go with the row, as the foreign key says.
unfoldable pub delete : User → UserStore → UserStore
unfolding count_dec users_idx
delete u st = count_dec (record st {
  sessions = Store.delete_by_user u.id st.sessions;
  tokens = invalidate_all_for_user u.id st.tokens;
  db = del u.id st.db;
  cache_users = del (users_idx u.email) (del (users_idx u.id) st.cache_users);
})

unfoldable pub exists : Str → UserStore → Result (Unit {0})
unfolding users_idx
exists id st =
    if is_some (get (users_idx id) st.cache_users)
    then ok tt
    else if is_some (get id st.db)
    then ok tt
    else err not_found

-- The end of `find` and `find_by_email`: what the database gave is cached.
abbrev pub cached : Str → Option User → UserStore → Result User × UserStore
cached key none st = (err not_found, st)
cached key (some u) st = (ok u, record st { cache_users = put (users_idx key) u st.cache_users })

unfoldable pub find : Str → UserStore → Result User × UserStore
unfolding users_idx
find id st = elim (get (users_idx id) st.cache_users) [
  | some u ↦ (ok u, st)
  | none ↦ cached id (get id st.db) st
]

-- `User::find_by_email`, of an address that is in lower case already.
unfoldable pub find_by_lower : Str → UserStore → Result User × UserStore
unfolding users_idx find_where
find_by_lower email st = elim (get (users_idx email) st.cache_users) [
  | some u ↦ (ok u, st)
  | none ↦ cached email (find_where (has_email email) st.db) st
]

unfoldable pub find_by_email : Str → UserStore → Result User × UserStore
unfolding find_by_lower to_lowercase
find_by_email email st = find_by_lower (to_lowercase email) st

abbrev is_federated_as : Str → Str → User → Bool
is_federated_as provider uid u =
    opt_str_eq u.auth_provider_id (some provider) && opt_str_eq u.federation_uid (some uid)

unfoldable pub find_by_federation : Str → Str → UserStore → Result User
unfolding find_where
find_by_federation provider uid st = elim (find_where (is_federated_as provider uid) st.db) [
  | none ↦ err not_found
  | some u ↦ ok u
]

-- `User::find_expired`, of those that expire in less than ten seconds.
unfoldable pub find_expired : ℕ → Table User → List User
find_expired now [] = []
find_expired now ((k, u) ∷ rows) =
    let rest = find_expired now rows in
    elim u.user_expires [ none ↦ rest | some ts ↦ if ltb ts (now + 10) then u ∷ rest else rest ]

unfoldable pub is_email_free : Str → UserStore → Result (Unit {0}) × UserStore
unfolding find_by_email
is_email_free email st =
    let (found, st') = find_by_email email st in
    elim found [ ok u ↦ (err bad_request, st') | err e ↦ (ok tt, st') ]

-- The `update users set .. where id`; the id and the time of creation stay.
unfoldable pub update_row : User → Table User → Table User
update_row u [] = []
update_row u ((k, r) ∷ rows) =
    let rest = update_row u rows in
    if str_eq k u.id
    then (k, record u { id = r.id; created_at = r.created_at }) ∷ rest
    else (k, r) ∷ rest

-- The part of `save` that ends the sessions and the refresh tokens of a disabled user.
unfoldable pub lock_out : User → ℕ → UserStore → UserStore
lock_out u now st =
    if not u.enabled
    then record st {
      sessions = Store.invalidate_for_user u.id now st.sessions;
      tokens = invalidate_for_user u.id now st.tokens;
    }
    else st

-- The part of `save` on the cache.
unfoldable pub recache : User → Option Str → Table User → Table User
unfolding users_idx
recache u old_email cache =
    let cache' : Table User = elim old_email [ none ↦ cache | some e ↦ del (users_idx e) cache ] in
    put (users_idx u.email) u (put (users_idx u.id) u cache')

-- What `save` does once the constraints hold.
unfoldable pub write : User → Option Str → ℕ → UserStore → UserStore
unfolding lock_out recache update_row
write u old_email now st =
    let st' = lock_out u now (record st { db = update_row u st.db }) in
    record st' { cache_users = recache u old_email st'.cache_users }

-- `save`, once a new address has been found to be free.
unfoldable pub store : User → Option Str → ℕ → UserStore → Result (Unit {0}) × UserStore
unfolding write clashes find_where
store u old_email now st =
    if is_some (get u.id st.db) && is_some (find_where (clashes u) st.db)
    then (err bad_request, st)
    else (ok tt, write u old_email now st)

unfoldable pub save : User → Option Str → ℕ → UserStore → Result (Unit {0}) × UserStore
unfolding store is_email_free
save u none now st = store u none now st
save u (some e) now st = and_then (is_email_free u.email st) (λ _ st'. store u (some e) now st')

-- A save after which the saved user is returned.
abbrev pub saved : User → ℕ → UserStore → Result User × UserStore
saved u now st = and_then (save u none now st) (λ _ st'. (ok u, st'))

unfoldable pub provider_unlink : Str → ℕ → UserStore → Result User × UserStore
unfolding find save has_webauthn_enabled
provider_unlink id now st = and_then (find id st) (λ u st'.
    if not (is_some u.password) && not (has_webauthn_enabled u)
    then (err bad_request, st')
    else saved (record u { auth_provider_id = none; federation_uid = none }) now st')

abbrev set_language : Str → Str → Table User → Table User
set_language id lang [] = []
set_language id lang ((k, r) ∷ rows) =
    let rest = set_language id lang rows in
    if str_eq k id then (k, record r { language = lang }) ∷ rest else (k, r) ∷ rest

-- `User::update_language`, which leaves the caches as they are.
unfoldable pub update_language : User → UserStore → UserStore
update_language u st = record st { db = set_language u.id u.language st.db }

abbrev is_password_account : AccountType → Bool
is_password_account AccountType.password = true
is_password_account new = false
is_password_account passkey = false
is_password_account federated = false
is_password_account federated_password = false
is_password_account federated_passkey = false

-- The checks of `convert_to_passkey`, and the save.
unfoldable pub convert : (Str → ℕ) → ℕ → User → UserStore → Result (Unit {0}) × UserStore
unfolding save account_type has_webauthn_enabled
convert with_uv now u st =
    if not (is_password_account (account_type u)) || not (has_webauthn_enabled u)
    then (err bad_request, st)
    else if not (ltb 0 (with_uv u.id))
    then (err not_found, st)
    else save (record u { password = none; password_expires = none }) none now st

-- `User::convert_to_passkey`; `with_uv` counts the passkeys of a user that have user verification.
unfoldable pub convert_to_passkey : (Str → ℕ) → Str → ℕ → UserStore → Result (Unit {0}) × UserStore
unfolding find convert
convert_to_passkey with_uv id now st = and_then (find id st) (convert with_uv now)
