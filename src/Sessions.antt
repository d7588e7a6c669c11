-- ===== src/Sessions.antt =====
-- rauthy-models/src/entity/sessions.rs: the session, its state and the checks on it. Times are
-- Unix seconds after 1970, so a natural number stands for each `i64`; `now` is an argument.
pub mod Validity
pub mod Store
pub mod Tests
use rauthy.Base.{
  ℕ, ◌+◌, ◌<◌, ◌≡◌, refl, Bool, true, false, not, ◌&&◌, ◌||◌, Option, none, some, List, [], ◌∷◌,
  ltb, Str, codes, str_eq, opt_str_eq, split, csv, if◌then◌else◌,
}
use rauthy.ErrorResponse.{
  Result, ok, err, ◌>>=◌, ◌>>◌, ensure, bad_request, csrf_token_error, forbidden, not_found,
}
use rauthy.Users.{User}

pub data SessionState : Type 0 where
  open_state init auth logged_out unknown : SessionState

-- `FromStr for SessionState`
unfoldable pub state_from_str : Str → SessionState
unfolding str_eq
state_from_str s =
    if str_eq s (codes "open")
    then open_state
    else if str_eq s (codes "init")
    then init
    else if str_eq s (codes "auth")
    then auth
    else if str_eq s (codes "logged_out")
    then logged_out
    else unknown

unfoldable pub state_as_str : SessionState → Str
state_as_str open_state = codes "open"
state_as_str init = codes "init"
state_as_str auth = codes "auth"
state_as_str logged_out = codes "logged_out"
state_as_str unknown = codes "unknown"

-- `self.state == SessionState::…`
abbrev pub is_open : SessionState → Bool
is_open open_state = true
is_open _ = false

abbrev pub is_init : SessionState → Bool
is_init init = true
is_init _ = false

abbrev pub is_auth : SessionState → Bool
is_auth auth = true
is_auth _ = false

abbrev pub is_unknown : SessionState → Bool
is_unknown unknown = true
is_unknown _ = false

pub record Session : Type 0 where
  pub id : Str
  pub csrf_token : Str
  pub user_id : Option Str
  pub roles : Option Str
  pub groups : Option Str
  pub is_mfa : Bool
  pub state : SessionState
  pub exp : ℕ
  pub last_seen : ℕ
  pub remote_ip : Option Str

-- `Session::new`: `id` and `csrf_token` are what the random generator gives.
unfoldable pub new : Str → Str → ℕ → ℕ → Option Str → Session
new id csrf_token now exp_in remote_ip = record {
  id = id;
  csrf_token = csrf_token;
  user_id = none;
  roles = none;
  groups = none;
  is_mfa = false;
  state = init;
  exp = now + exp_in;
  last_seen = now;
  remote_ip = remote_ip;
}

-- The lifetime of a session of a user who may expire, as in `Session::try_new`.
user_exp : Option ℕ → ℕ → ℕ → Result ℕ
user_exp none now exp_in = ok (now + exp_in)
user_exp (some ts) now exp_in =
    if ltb ts now then err forbidden else ok (if ltb ts (now + exp_in) then ts else now + exp_in)

-- `Session::try_new`
unfoldable pub try_new : Str → Str → ℕ → User → ℕ → Option Str → Result Session
unfolding user_exp
try_new id csrf_token now user exp_in remote_ip = do
  exp ← user_exp user.user_expires now exp_in
  ok (record {
    id = id;
    csrf_token = csrf_token;
    user_id = some user.id;
    roles = some user.roles;
    groups = user.groups;
    is_mfa = false;
    state = init;
    exp = exp;
    last_seen = now;
    remote_ip = remote_ip;
  })

-- The test on the address in `Session::is_valid`.
ip_ok : Session → Option Str → Bool
ip_ok s none = true
ip_ok s (some ip) =
    not ((is_open s.state || is_auth s.state) && not (opt_str_eq s.remote_ip (some ip)))

-- `Session::is_valid`. The source tests `last_seen < now - session_timeout` on `i64`; here the
-- timeout stands on the other side, since `-` on ℕ would stop at 0.
unfoldable pub is_valid : Session → ℕ → ℕ → Option Str → Bool
unfolding ip_ok
is_valid s now session_timeout remote_ip =
    if ltb s.exp now
    then false
    else if ltb (s.last_seen + session_timeout) now
    then false
    else if is_unknown s.state
    then false
    else ip_ok s remote_ip

unfoldable pub groups_as_vec : Session → List Str
groups_as_vec s = elim s.groups [ none ↦ [] | some g ↦ csv g ]

unfoldable pub roles_as_vec : Session → Result (List Str)
roles_as_vec s = elim s.roles [ none ↦ err not_found | some r ↦ ok (split b',' r) ]

-- `Session::validate_csrf`: the argument is the request's CSRF header.
unfoldable pub validate_csrf : Session → Option Str → Result (Unit {0})
validate_csrf s none = err csrf_token_error
validate_csrf s (some csrf) = if str_eq s.csrf_token csrf then ok tt else err csrf_token_error

-- `Session::extract_from_req` and `Session::extract_validate_csrf`.
unfoldable pub extract_from_req : Option Session → Result Session
extract_from_req none = err bad_request
extract_from_req (some s) = ok s

unfoldable pub extract_validate_csrf : Option Session → Option Str → Result Session
unfolding extract_from_req validate_csrf
extract_validate_csrf session_req csrf = do
  s ← extract_from_req session_req
  validate_csrf s csrf
  ok s

-- `Session::validate_user_expiry`, with the session as it is left.
unfoldable pub validate_user_expiry : Session → ℕ → User → Result Session
validate_user_expiry s now user = elim user.user_expires [
  | none ↦ ok s
  | some ts ↦
      if ltb ts now
      then err forbidden
      else if ltb ts s.exp
      then ok (record s { exp = ts })
      else ok s
]
