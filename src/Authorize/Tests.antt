-- ===== src/Authorize/Tests.antt =====
-- Runs of logins, of a user with a password and of one with a passkey only.
use rauthy.Base.{
  ℕ, ◌≡◌, refl, Bool, true, false, Option, none, some, List, [], ◌∷◌, Str, codes, str_eq, ◌++◌,
  unwrap_or,
}
use rauthy.Base.Table.{Table}
use rauthy.ErrorResponse.{ok, unauthorized}
use rauthy.Fixtures.{a_user, a_client, a_session}
use rauthy.Clients.{Client, https}
use rauthy.Users.{User, has_webauthn_enabled}
use rauthy.Users.Store.{pos, find_by_email}
use rauthy.Sessions.{Session, init}
use rauthy.Sessions.Store
use rauthy.AuthCodes
use rauthy.AuthCodes.{AuthCode, TokenRequest}
use rauthy.AuthCodes.Tests
use rauthy.Authorize.{
  refused, granted, Config, LoginRequest, World, Fresh, AuthStep, await_webauthn,
  AuthStepAwaitWebauthn, authorize, log_in, authorize_refresh,
}
use rauthy.Authorize.Sound.{IsLogin, authorize_sound}
use rauthy.Authorize.Redeemed.{Redeems, authorize-redeemed}
use rauthy.Authorize.Factors.{waits, authorize-waits, authorize-set_mfa}

abbrev cfg : Config
cfg = record {
  proxy_mode = false;
  listen_scheme = https;
  public_url = codes "iam";
  webauthn_req_exp = 60;
  session_renew_mfa = false;
  hasher = record { hash_password = λ p. ok p; is_match = λ p h. ok (str_eq p h) };
  find_client = λ _. ok a_client;
}

-- A user who logs in with a passkey only.
abbrev key_user : User
key_user = record a_user {
  id = codes "k";
  email = codes "k@x";
  password = none;
  webauthn_user_id = some (codes "w");
}

abbrev fresh_session : Session
fresh_session = record a_session { state = init; user_id = none }

abbrev stored_sessions : Store.Store
stored_sessions = record {
  db = (codes "s", fresh_session) ∷ [];
  cache_sessions = (codes "session_s", fresh_session) ∷ [];
  cache_12hr = [];
}

abbrev world : World
world = record {
  users = record {
    db = (codes "u", a_user) ∷ (codes "k", key_user) ∷ [];
    cache_users = [];
    cache_count = some (pos 2);
    sessions = stored_sessions;
    tokens = [];
  };
  codes = [];
  webauthn_logins = [];
  resets = [];
}

abbrev login : Str → Option Str → LoginRequest
login email password = record {
  email = email;
  password = password;
  client_id = codes "app";
  redirect_uri = codes "https://app/cb";
  scopes = none;
  state = none;
  nonce = none;
  code_challenge = some (codes "hv");
  code_challenge_method = some (codes "S256");
  origin = none;
  mfa_cookie = none;
}

abbrev fresh : Fresh
fresh = record { code_id = codes "c"; step_code = codes "d" }

abbrev with_password : LoginRequest
with_password = login (codes "u@x") (some (codes "p"))

abbrev with_key : LoginRequest
with_key = login (codes "k@x") none

abbrev step : AuthStep
step = log_in true a_user fresh_session (codes "https://app/cb?code=c") none

logged_in_run : (authorize cfg with_password fresh_session fresh 100 world).0 ≡ granted step
unfolding authorize rauthy.Base.Table.get str_eq rauthy.Base.opt_str_eq rauthy.Clients.validate_mfa
    rauthy.Clients.validate_redirect_uri rauthy.Base.csv rauthy.Clients.validate_code_challenge
    rauthy.Clients.validate_origin
logged_in_run = refl

wrong_password_run :
    (authorize cfg (login (codes "u@x") (some (codes "q"))) fresh_session fresh 100 world).0
    ≡ refused unauthorized true
unfolding authorize rauthy.Base.Table.get str_eq
wrong_password_run = refl

unknown_user_run :
    (authorize cfg (login (codes "n@x") none) fresh_session fresh 100 world).0
    ≡ refused unauthorized false
unfolding authorize rauthy.Base.Table.get str_eq
unknown_user_run = refl

no_password_run :
    (authorize cfg (login (codes "u@x") none) fresh_session fresh 100 world).0
    ≡ refused unauthorized false
unfolding authorize rauthy.Base.Table.get str_eq
no_password_run = refl

authorize_sound_example :
    IsLogin cfg with_password fresh_session fresh 100 world
      (authorize cfg with_password fresh_session fresh 100 world)
authorize_sound_example =
    authorize_sound cfg with_password fresh_session fresh 100 world step logged_in_run

authorize-waits_example :
    (u : User) × ((find_by_email (codes "u@x") world.users).0 ≡ ok u)
    × (waits step ≡ has_webauthn_enabled u)
authorize-waits_example =
    authorize-waits cfg with_password fresh_session fresh 100 world step logged_in_run

abbrev waiting : AuthStepAwaitWebauthn
waiting = record {
  has_password_been_hashed = false;
  code = codes "d";
  header_csrf = codes "t";
  header_origin = none;
  user_id = codes "k";
  email = codes "k@x";
  exp = 60;
  session = record fresh_session { is_mfa = true };
}

-- No factor has been shown yet.
waiting_run :
    (authorize cfg with_key fresh_session fresh 100 world).0 ≡ granted (await_webauthn waiting)
unfolding authorize rauthy.Base.Table.get str_eq rauthy.Clients.validate_mfa
    rauthy.Clients.validate_redirect_uri rauthy.Base.csv rauthy.Clients.validate_code_challenge
    rauthy.Clients.validate_origin
waiting_run = refl

authorize-set_mfa_example :
    (Store.find
      (codes "s")
      (authorize cfg with_key fresh_session fresh 100 world).1.users.sessions).0
    ≡ ok (record fresh_session { is_mfa = true })
authorize-set_mfa_example =
    authorize-set_mfa cfg with_key fresh_session fresh 100 world waiting waiting_run

abbrev after : World
after = (authorize cfg with_password fresh_session fresh 100 world).1

abbrev token_world : AuthCodes.World
token_world = record {
  users = (codes "u", a_user) ∷ [];
  sessions = stored_sessions;
  codes = after.codes;
  nonces = [];
  clients_dyn = [];
}

abbrev token_request : TokenRequest
token_request = record {
  code = some (codes "c");
  client_id = some (codes "app");
  client_secret = none;
  code_verifier = some (codes "v");
  authorization = none;
  origin = none;
  dpop = none;
}

redeemed_run :
    (AuthCodes.grant_type_code Tests.cfg token_request (codes "r") 110 token_world).0
    ≡ ok Tests.answer
unfolding AuthCodes.grant_type_code rauthy.Clients.validate_origin rauthy.Clients.validate_flow
    rauthy.Dpop.opt_validated_from rauthy.Base.Table.get authorize str_eq rauthy.Base.opt_str_eq
    rauthy.Clients.validate_mfa rauthy.Clients.validate_redirect_uri rauthy.Base.csv
    rauthy.Clients.validate_code_challenge AuthCodes.save rauthy.Base.Table.put Store.find
    rauthy.Sessions.validate_user_expiry
redeemed_run = refl

authorize-redeemed_example :
    (l : IsLogin cfg with_password fresh_session fresh 100 world
      (authorize cfg with_password fresh_session fresh 100 world))
    × Redeems Tests.cfg token_request 110 cfg with_password 100 l.user' l.client
authorize-redeemed_example =
    authorize-redeemed cfg with_password fresh_session fresh 100 world step Tests.cfg token_request
      (codes "r") 110 token_world Tests.answer logged_in_run refl refl redeemed_run

refresh_run :
    (authorize_refresh cfg with_key
      (record fresh_session { user_id = some (codes "u") })
      a_client
      none
      fresh
      100
      world).0
    ≡ ok (
        log_in false a_user
          (record fresh_session { user_id = some (codes "u") })
          (codes "https://app/cb?code=c")
          none)
unfolding authorize_refresh rauthy.Base.Table.get str_eq
refresh_run = refl
