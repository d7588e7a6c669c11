-- ===== src/Principal/Tests.antt =====
-- Runs of the checks of a principal, and of the middleware that builds it.
use rauthy.Base.{
  ℕ, ◌≡◌, ◌↔◌, ◌⊎◌, refl, true, false, Bool, Option, none, some, List, [], ◌∷◌, Str, codes,
  vec_contains,
}
use rauthy.Base.Table.{get}
use rauthy.ErrorResponse.{ok}
use rauthy.Fixtures.{a_session, a_key}
use rauthy.Sessions.{Session}
use rauthy.Sessions.Store
use rauthy.ApiKeys.{ApiKey, clients, read}
use rauthy.ApiKeys.Access.{Grants}
use rauthy.Principal.{
  Principal, validate_admin_session, validate_api_key_or_admin_session, validate_user_or_admin,
}
use rauthy.Principal.Laws.{
  IsAuthenticated, IsAdminSession, validate_api_key_or_admin_session_lem,
  validate_user_or_admin_iff,
}
use rauthy.Principal.Middleware.{Request, Config, get_session_from_cookie}
use rauthy.Principal.Middleware.Sound.{IsChecked, get_session_from_cookie-IsChecked}

-- An admin's session, with an API key.
abbrev admin : Principal
admin = record { session = some a_session; api_key = some a_key; roles = codes "rauthy_admin" ∷ [] }

validate_api_key_or_admin_session_lem_example :
    (validate_api_key_or_admin_session false admin clients read ≡ ok tt) ↔ (
      ((key : ApiKey) × (admin.api_key ≡ some key) × Grants clients read key.access)
      ⊎ ((admin.api_key ≡ none) × IsAdminSession false admin))
validate_api_key_or_admin_session_lem_example =
    validate_api_key_or_admin_session_lem false admin clients read

validate_user_or_admin_iff_example : (validate_user_or_admin admin (codes "w") ≡ ok tt) ↔ (
    (s : Session) × IsAuthenticated admin s
    × ((vec_contains admin.roles (codes "rauthy_admin") ≡ true) ⊎ (s.user_id ≡ some (codes "w"))))
validate_user_or_admin_iff_example = validate_user_or_admin_iff admin (codes "w")

abbrev cfg : Config
cfg = record {
  proxy_mode = false;
  session_validate_ip = true;
  session_timeout = 30;
  sha256 = λ s. s;
}

abbrev request : Request
request = record {
  is_get = false;
  path = codes "/auth/v1/users";
  authorization = none;
  session_cookie = some (codes "s");
  csrf_header = some (codes "t");
  custom_ip = none;
  realip_remote_addr = none;
  peer_addr = some (codes "ip");
}

abbrev store : Store.Store
store = record { db = (codes "s", a_session) ∷ []; cache_sessions = []; cache_12hr = [] }

session_run : (get_session_from_cookie cfg request 95 store).0 ≡ some a_session
unfolding get_session_from_cookie Store.find get rauthy.Base.str_eq rauthy.Sessions.is_valid
    rauthy.Principal.Middleware.real_ip rauthy.Base.opt_str_eq
    rauthy.Principal.Middleware.passes_csrf rauthy.Principal.Middleware.is_path_csrf_exception
    rauthy.Base.ends_with rauthy.Sessions.validate_csrf rauthy.Principal.Middleware.touch
session_run = refl

get_session_from_cookie-IsChecked_example : IsChecked cfg request 95 store a_session
get_session_from_cookie-IsChecked_example =
    get_session_from_cookie-IsChecked cfg request 95 store a_session session_run
