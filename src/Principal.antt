-- ===== src/Principal.antt =====
-- rauthy-models/src/entity/principal.rs: who makes a request, and what the handlers ask of them.
-- `admin_force_mfa` is the setting `ADMIN_FORCE_MFA`.
pub mod Laws
pub mod Middleware
pub mod Tests
use rauthy.Base.{
  Bool, true, false, ◌&&◌, ◌||◌, not, Option, none, some, List, [], ◌∷◌, is_some, Str, codes,
  opt_str_eq, vec_contains, if◌then◌else◌,
}
use rauthy.ErrorResponse.{
  ErrorResponseType, Result, ok, err, ◌>>=◌, ◌>>◌, ok_or, unauthorized, forbidden, mfa_required,
  not_found,
}
use rauthy.Sessions.{SessionState, Session, is_auth, is_init, validate_csrf}
use rauthy.ApiKeys.{ApiKey, AccessGroup, AccessRights, validate_access}

pub record Principal : Type 0 where
  pub session : Option Session
  pub api_key : Option ApiKey
  pub roles : List Str

unfoldable pub from_req : Option Principal → Result Principal
from_req p = ok_or p unauthorized

unfoldable pub get_session : Principal → Result Session
get_session p = ok_or p.session unauthorized

unfoldable pub get_session_csrf_token : Principal → Result Str
unfolding get_session
get_session_csrf_token p = do s ← get_session p; ok s.csrf_token

unfoldable pub is_admin : Principal → Bool
is_admin p = vec_contains p.roles (codes "rauthy_admin")

unfoldable pub has_mfa_active : Principal → Bool
has_mfa_active p = elim p.session [ none ↦ false | some s ↦ s.is_mfa ]

unfoldable pub user_id : Principal → Result Str
user_id p = elim p.session [
  | none ↦ err not_found
  | some s ↦ elim s.user_id [ none ↦ err not_found | some id ↦ ok id ]
]

-- `Principal::is_user`
unfoldable pub is_user : Principal → Str → Result (Unit {0})
unfolding user_id
is_user p id = elim (user_id p) [
  | ok uid ↦ if opt_str_eq (some uid) (some id) then ok tt else err forbidden
  | err e ↦ err forbidden
]

unfoldable pub validate_api_key : Principal → AccessGroup → AccessRights → Result (Unit {0})
validate_api_key p g r = elim p.api_key [
  | none ↦ err unauthorized
  | some key ↦ elim (validate_access key.access g r) [ ok _ ↦ ok tt | err _ ↦ err forbidden ]
]

unfoldable pub validate_session_auth : Principal → Result Session
validate_session_auth p = elim p.session [
  | none ↦ err unauthorized
  | some s ↦ if is_auth s.state then ok s else err unauthorized
]

unfoldable pub validate_admin_session : Bool → Principal → Result (Unit {0})
unfolding validate_session_auth is_admin has_mfa_active
validate_admin_session admin_force_mfa p = do
  _ ← validate_session_auth p
  if not (is_admin p)
      then err forbidden
      else if admin_force_mfa && not (has_mfa_active p)
      then err mfa_required
      else ok tt

abbrev pub is_forbidden : ErrorResponseType → Bool
is_forbidden forbidden = true
is_forbidden _ = false

-- An API key goes before a session, and its lack of rights is final.
unfoldable pub validate_api_key_or_admin_session :
    Bool → Principal → AccessGroup → AccessRights → Result (Unit {0})
unfolding validate_api_key validate_admin_session
validate_api_key_or_admin_session admin_force_mfa p g r = elim (validate_api_key p g r) [
  | ok _ ↦ ok tt
  | err e ↦ if is_forbidden e then err e else validate_admin_session admin_force_mfa p
]

unfoldable pub validate_user_or_admin : Principal → Str → Result (Unit {0})
unfolding validate_session_auth is_admin
validate_user_or_admin p id = do
  s ← validate_session_auth p
  if not (is_admin p) && not (opt_str_eq s.user_id (some id)) then err forbidden else ok tt

unfoldable pub validate_user_session : Principal → Str → Result (Unit {0})
unfolding validate_session_auth
validate_user_session p id = do
  s ← validate_session_auth p
  if opt_str_eq s.user_id (some id) then ok tt else err unauthorized

unfoldable pub validate_session_auth_or_init : Principal → Result (Unit {0})
validate_session_auth_or_init p = elim p.session [
  | none ↦ err unauthorized
  | some s ↦ if is_auth s.state || is_init s.state then ok tt else err unauthorized
]

unfoldable pub validate_session_init : Principal → Result (Unit {0})
validate_session_init p =
    if elim p.session [ none ↦ false | some s ↦ is_init s.state ] then ok tt else err unauthorized

unfoldable pub validate_session_csrf_exception : Principal → Option Str → Result (Unit {0})
unfolding get_session
validate_session_csrf_exception p csrf = do s ← get_session p; validate_csrf s csrf
