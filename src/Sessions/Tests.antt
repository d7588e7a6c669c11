-- ===== src/Sessions/Tests.antt =====
-- Runs of the checks on sessions, and of the operations on the store.

use rauthy.Base.{
  ℕ, ◌+◌, ◌≤◌, ◌<◌, ◌≡◌, ◌↔◌, refl, Bool, true, false, Option, none, some, List, [], ◌∷◌, ◌++◌,
  arith, Str, codes, str_eq_iff,
}
use rauthy.Base.Table.{Table, get}
use rauthy.ErrorResponse.{ok, err, not_found}
use rauthy.Fixtures.{a_user, a_session}
use rauthy.Users.{User}
use rauthy.Sessions.{Session, init, logged_out, is_valid, try_new, extract_validate_csrf}
use rauthy.Sessions.Validity.{IsValidAt, is_valid_iff, try_new_bounds, extract_validate_csrf_iff}
use rauthy.Sessions.Store.{
  Store, cache_idx, save, find, invalidate, invalidate_for_user, invalidate_all, delete_by_user,
}
use rauthy.Sessions.Store.Coherence.{IsTable, IsCoherent, find-eq_db}
use rauthy.Sessions.Store.Invalidation.{invalidate_for_user-not_valid, invalidate_all-not_valid}
use rauthy.Sessions.Store.Logout.{invalidate-find_stale, delete_by_user-IsCoherent}

abbrev other_session : Session
other_session = record a_session { id = codes "o"; user_id = some (codes "v") }

-- Two sessions in the table, of which one is in the cache.
abbrev store : Store
store = record {
  db = (codes "s", a_session) ∷ (codes "o", other_session) ∷ [];
  cache_sessions = (codes "session_s", a_session) ∷ [];
  cache_12hr = [];
}

store-IsTable : IsTable store.db
unfolding get rauthy.Base.str_eq
store-IsTable = ((refl, (refl, tt)), (refl, (refl, tt)))

store-IsCoherent : IsCoherent store
unfolding get cache_idx
store-IsCoherent = record {
  agrees = λ id s h.
      ground
        (arith, str_eq_iff (codes "session_s") (codes "session_" ++ id), str_eq_iff (codes "s") id);
}

is_valid_run : is_valid a_session 100 30 (some (codes "ip")) ≡ true
unfolding is_valid rauthy.Base.opt_str_eq rauthy.Base.str_eq
is_valid_run = refl

is_valid_iff_example :
    (is_valid a_session 100 30 (some (codes "ip")) ≡ true)
    ↔ IsValidAt a_session 100 30 (some (codes "ip"))
is_valid_iff_example = is_valid_iff a_session 100 30 (some (codes "ip"))

-- A user who expires before the session would.
abbrev leaving : User
leaving = record a_user { user_expires = some 150 }

abbrev short : Session
short = record {
  id = codes "n";
  csrf_token = codes "t";
  user_id = some (codes "u");
  roles = some (codes "dev");
  groups = none;
  is_mfa = false;
  state = init;
  exp = 150;
  last_seen = 100;
  remote_ip = none;
}

short_run : try_new (codes "n") (codes "t") 100 leaving 600 none ≡ ok short
unfolding try_new
short_run = refl

try_new_bounds_run :
    (short.state ≡ init)
    × (short.user_id ≡ some leaving.id)
    × (100 ≤ short.exp)
    × (short.exp ≤ 100 + 600)
    × ((ts : ℕ) → leaving.user_expires ≡ some ts → short.exp ≤ ts)
try_new_bounds_run = try_new_bounds (codes "n") (codes "t") 100 leaving 600 none short short_run

extract_validate_csrf_iff_example :
    (extract_validate_csrf (some a_session) (some (codes "t")) ≡ ok a_session)
    ↔ ((some a_session ≡ some a_session) × (some (codes "t") ≡ some a_session.csrf_token))
extract_validate_csrf_iff_example =
    extract_validate_csrf_iff (some a_session) (some (codes "t")) a_session

find-eq_db_run :
    (find (codes "o") store).0
    ≡ elim (get (codes "o") store.db) [ none ↦ err not_found | some s ↦ ok s ]
find-eq_db_run = find-eq_db (codes "o") store store-IsCoherent

abbrev expired_session : Session
expired_session = record a_session { exp = 100 }

found_expired :
    (find (codes "s") (invalidate_for_user (codes "u") 100 store)).0 ≡ ok expired_session
unfolding find get invalidate_for_user rauthy.Base.opt_str_eq rauthy.Base.str_eq
    rauthy.Base.Table.del rauthy.Base.Table.put
found_expired = refl

invalidate_for_user-not_valid_example : is_valid expired_session 101 30 none ≡ false
invalidate_for_user-not_valid_example =
    invalidate_for_user-not_valid (codes "u") 100 store store-IsCoherent store-IsTable (codes "s")
      expired_session found_expired refl 101 30 none (omega arith)

found_other : (find (codes "s") (invalidate_all 100 store)).0 ≡ ok expired_session
unfolding find get invalidate_all rauthy.Base.Table.del rauthy.Base.Table.put rauthy.Base.str_eq
found_other = refl

invalidate_all-not_valid_run : is_valid expired_session 101 30 none ≡ false
invalidate_all-not_valid_run =
    invalidate_all-not_valid 100 store store-IsCoherent store-IsTable (codes "s") expired_session
      found_other 101 30 none (omega arith)

invalidate-find_stale_example :
    (get (codes "s") (invalidate a_session 100 (save a_session store)).1.db
      ≡ some (record a_session { exp = 100; state = logged_out }))
    × ((find (codes "s") (invalidate a_session 100 (save a_session store)).1).0 ≡ ok a_session)
invalidate-find_stale_example = invalidate-find_stale a_session 100 store

delete_by_user-IsCoherent_run : IsCoherent (delete_by_user (codes "u") store)
delete_by_user-IsCoherent_run =
    delete_by_user-IsCoherent (codes "u") store store-IsCoherent store-IsTable
