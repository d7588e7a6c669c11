-- ===== src/Authorize.antt =====
-- `authorize` and `authorize_refresh` in rauthy-service/src/auth.rs: a login that creates an authorization
-- code. The cookie of a second factor (entity/webauthn.rs), the lookup of a client, which may fetch the
-- document of an ephemeral one, and hashing are parameters; the state has the users with their sessions,
-- the codes, the logins that wait for a second factor, and the users whom a link to reset the password
-- was sent to.
pub mod Code
pub mod Sound
pub mod Factors
pub mod Redeemed
pub mod Tests
use rauthy.Base.{
  ℕ, ◌+◌, Bool, true, false, ◌&&◌, not, Option, none, some, List, [], ◌∷◌, ◌++◌, is_some, Str,
  codes, str_eq, if◌then◌else◌,
}
use rauthy.Base.Table.{Table, put}
use rauthy.ErrorResponse.{
  Result, ErrorResponseType, ok, err, ◌>>=◌, ◌>>◌, ok_or, and_then, unauthorized, internal,
}
use rauthy.Users.{
  User, AccountType, account_type, has_webauthn_enabled, check_enabled, check_expired, new, passkey,
  federated, federated_password, federated_passkey,
}
use rauthy.Users.Password.{Hasher, validate_password}
use rauthy.Users.Store
use rauthy.Users.Store.{UserStore, find_by_email, save}
use rauthy.Sessions.{Session}
use rauthy.Sessions.Store.{set_mfa}
use rauthy.Clients.{
  Client, ListenScheme, validate_mfa, validate_redirect_uri, validate_code_challenge,
  validate_origin, sanitize_login_scopes,
}
use rauthy.AuthCodes
use rauthy.AuthCodes.{AuthCode}

-- An answer of `authorize`: a refusal comes with whether the login is to be delayed.
pub data Attempt {ℓ} (A : Type ℓ) : Type ℓ where
  refused : ErrorResponseType → Bool → Attempt A
  granted : A → Attempt A

-- `.map_err(|err| (err, delay))`
abbrev pub with_delay {ℓ} : {A : Type ℓ} → Result A → Bool → Attempt A
with_delay (err e) delay = refused e delay
with_delay (ok a) delay = granted a

-- The operator `?` on an attempt that changes the state.
abbrev pub try_then {ℓ κ ℓs} :
    {A : Type ℓ} {B : Type κ} {S : Type ℓs}
    → Attempt A × S
    → (A → S → Attempt B × S)
    → Attempt B × S
try_then (refused e delay, s) next = (refused e delay, s)
try_then (granted a, s) next = next a s

-- The login data that waits for the second factor (rauthy-models/src/entity/webauthn.rs).
pub record WebauthnLoginReq : Type 0 where
  pub code : Str
  pub user_id : Str
  pub header_loc : Str
  pub header_origin : Option Str

pub record AuthStepLoggedIn : Type 0 where
  pub has_password_been_hashed : Bool
  pub email : Str
  pub header_loc : Str
  pub header_csrf : Str
  pub header_origin : Option Str

pub record AuthStepAwaitWebauthn : Type 0 where
  pub has_password_been_hashed : Bool
  pub code : Str
  pub header_csrf : Str
  pub header_origin : Option Str
  pub user_id : Str
  pub email : Str
  pub exp : ℕ
  pub session : Session

pub data AuthStep : Type 0 where
  logged_in : AuthStepLoggedIn → AuthStep
  await_webauthn : AuthStepAwaitWebauthn → AuthStep

pub record Config : Type 0 where
  pub proxy_mode : Bool
  pub listen_scheme : ListenScheme
  pub public_url : Str
  pub webauthn_req_exp : ℕ
  pub session_renew_mfa : Bool
  pub hasher : Hasher
  -- `Client::find_maybe_ephemeral`
  pub find_client : Str → Result Client

-- A `LoginRequest` with its origin, and the address in its cookie of a second factor, if that is valid.
pub record LoginRequest : Type 0 where
  pub email : Str
  pub password : Option Str
  pub client_id : Str
  pub redirect_uri : Str
  pub scopes : Option (List Str)
  pub state : Option Str
  pub nonce : Option Str
  pub code_challenge : Option Str
  pub code_challenge_method : Option Str
  pub origin : Option Str
  pub mfa_cookie : Option Str

pub record World : Type 0 where
  pub users : UserStore
  pub codes : Table AuthCode
  pub webauthn_logins : Table WebauthnLoginReq
  pub resets : List Str

-- The random texts that a login makes.
pub record Fresh : Type 0 where
  pub code_id : Str
  pub step_code : Str

-- The cookie counts only for its user, and only while that user has a second factor.
unfoldable pub kept_cookie : Option Str → User → Option Str
unfolding has_webauthn_enabled
kept_cookie none u = none
kept_cookie (some email) u =
    if str_eq email u.email && has_webauthn_enabled u then some email else none

abbrev pub is_passkey_account : AccountType → Bool
is_passkey_account passkey = true
is_passkey_account new = false
is_passkey_account AccountType.password = false
is_passkey_account federated = false
is_passkey_account federated_password = false
is_passkey_account federated_passkey = false

abbrev pub is_new_account : AccountType → Bool
is_new_account new = true
is_new_account passkey = false
is_new_account AccountType.password = false
is_new_account federated = false
is_new_account federated_password = false
is_new_account federated_passkey = false

-- `user_must_provide_password`
unfoldable pub must_provide : LoginRequest → User → Bool
unfolding account_type kept_cookie
must_provide req u =
    not (is_some req.password)
    && (not (is_passkey_account (account_type u)) && not (is_some (kept_cookie req.mfa_cookie u)))

-- The checks of the user before the password.
unfoldable pub check_user : LoginRequest → User → ℕ → Attempt (Unit {0})
unfolding must_provide account_type check_enabled check_expired
check_user req u now =
    if must_provide req u
    then refused unauthorized false
    else if is_new_account (account_type u)
    then refused unauthorized (not (must_provide req u))
    else with_delay (do check_enabled u; check_expired u now) (not (must_provide req u))

abbrev pub logged_in_at : ℕ → User → User
logged_in_at now u = record u {
  last_login = some now;
  last_failed_login = none;
  failed_login_attempts = none;
}

-- After the right password the login is noted: the user, and that a password has been hashed.
unfoldable pub note_login : ℕ → User → World → Attempt (User × Bool) × World
unfolding save
note_login now u w =
    let (saved, users) = save (logged_in_at now u) none now w.users in
    let w' : World = record w { users = users } in
    elim saved [ err e ↦ (refused e true, w') | ok _ ↦ (granted (logged_in_at now u, true), w') ]

unfoldable pub password_login : Config → Str → ℕ → User → World → Attempt (User × Bool) × World
unfolding validate_password note_login
password_login cfg pwd now u w =
    let (res, sends) = validate_password cfg.hasher u now pwd in
    let w' : World = record w { resets = if sends then u.id ∷ w.resets else w.resets } in
    elim res [ err e ↦ (refused e true, w') | ok _ ↦ note_login now u w' ]

-- The check of a password, if there is one.
unfoldable pub check_password :
    Config → LoginRequest → User → ℕ → World → Attempt (User × Bool) × World
unfolding password_login
check_password cfg req u now w = elim req.password [
  | none ↦ (granted (u, false), w)
  | some pwd ↦ password_login cfg pwd now u w
]

-- The checks that the client makes: the client, and the origin to allow.
unfoldable pub check_client : Config → LoginRequest → User → Bool → Attempt (Client × Option Str)
unfolding must_provide
check_client cfg req u hashed =
    let delay = not (must_provide req u) in
    elim (cfg.find_client req.client_id) [
      | err e ↦ refused e delay
      | ok c ↦ elim (validate_mfa c u) [
        | err e ↦ refused e hashed
        | ok _ ↦
            with_delay
              (do
                validate_redirect_uri c req.redirect_uri
                validate_code_challenge c req.code_challenge req.code_challenge_method
                origin ←
                    validate_origin cfg.proxy_mode c req.origin cfg.listen_scheme cfg.public_url
                ok (c, origin))
              delay
      ]
    ]

unfoldable pub code_lifetime : Config → Client → User → ℕ
unfolding has_webauthn_enabled
code_lifetime cfg c u =
    if has_webauthn_enabled u
    then c.auth_code_lifetime + cfg.webauthn_req_exp
    else c.auth_code_lifetime

-- The code of a login.
unfoldable pub new_code : Config → LoginRequest → Session → User → Client → Str → ℕ → AuthCode
unfolding code_lifetime sanitize_login_scopes AuthCodes.new
new_code cfg req session u c id now =
    AuthCodes.new id now u.id c.id (some session.id) req.code_challenge req.code_challenge_method
      req.nonce (sanitize_login_scopes c req.scopes) (code_lifetime cfg c u)

-- The location of the redirect, with the code and the state.
unfoldable pub location : Str → Str → Option Str → Str
location redirect_uri code_id none = redirect_uri ++ codes "?code=" ++ code_id
location redirect_uri code_id (some state) =
    redirect_uri ++ codes "?code=" ++ code_id ++ codes "&state=" ++ state

-- The step that waits for the second factor, with the login data that it saves.
unfoldable pub wait_for_factor :
    Config → Bool → User → Session → Str → Option Str → Str → World → AuthStep × World
wait_for_factor cfg hashed u session loc origin step_code w =
    let login : WebauthnLoginReq = record {
      code = step_code;
      user_id = u.id;
      header_loc = loc;
      header_origin = origin;
    } in
    (
      await_webauthn (record {
        has_password_been_hashed = hashed;
        code = step_code;
        header_csrf = session.csrf_token;
        header_origin = origin;
        user_id = u.id;
        email = u.email;
        exp = cfg.webauthn_req_exp;
        session = session;
      }),
      record w { webauthn_logins = put step_code login w.webauthn_logins },
    )

abbrev pub log_in : Bool → User → Session → Str → Option Str → AuthStep
log_in hashed u session loc origin = logged_in (record {
  has_password_been_hashed = hashed;
  email = u.email;
  header_loc = loc;
  header_csrf = session.csrf_token;
  header_origin = origin;
})

-- What `authorize` does once all checks have passed: the code is saved, and a user with a second factor
-- has to wait for it, in a session that counts as one with it.
unfoldable pub issue :
    Config
    → LoginRequest
    → Session
    → Fresh
    → ℕ
    → User
    → Bool
    → Client
    → Option Str
    → World
    → AuthStep × World
unfolding new_code location wait_for_factor has_webauthn_enabled set_mfa
issue cfg req session fresh now u hashed c origin w =
    let code = new_code cfg req session u c fresh.code_id now in
    let w' : World = record w { codes = AuthCodes.save code w.codes } in
    let loc = location req.redirect_uri code.id req.state in
    if has_webauthn_enabled u
    then (let (session', sessions) = set_mfa session true w'.users.sessions in
        wait_for_factor cfg hashed u session' loc origin fresh.step_code
          (record w' { users = record w'.users { sessions = sessions } }))
    else (log_in hashed u session loc origin, w')

abbrev granting : AuthStep × World → Attempt AuthStep × World
granting (step, w) = (granted step, w)

-- `authorize`, from the password on.
unfoldable pub log_in_user :
    Config → LoginRequest → Session → Fresh → ℕ → User → World → Attempt AuthStep × World
unfolding check_password check_client issue
log_in_user cfg req session fresh now u w =
    try_then (check_password cfg req u now w) (λ (u', hashed) w'.
      try_then (check_client cfg req u' hashed, w')
        (λ (c, origin) w''. granting (issue cfg req session fresh now u' hashed c origin w'')))

unfoldable pub authorize :
    Config → LoginRequest → Session → Fresh → ℕ → World → Attempt AuthStep × World
unfolding find_by_email check_user log_in_user
authorize cfg req session fresh now w =
    let (found, users) = find_by_email req.email w.users in
    let w' : World = record w { users = users } in
    elim found [
      | err e ↦ (refused unauthorized false, w')
      | ok u ↦
          try_then (check_user req u now, w') (λ _ w''. log_in_user cfg req session fresh now u w'')
    ]

-- What `authorize_refresh` checks of the user and the client.
unfoldable pub check_refresh : Client → ℕ → User → Result (Unit {0})
unfolding check_enabled check_expired validate_mfa
check_refresh c now u = do check_enabled u; check_expired u now; validate_mfa c u

-- `authorize_refresh`, of a valid session; the request has no password, and the client and the origin
-- have been checked by the handler.
unfoldable pub authorize_refresh :
    Config
    → LoginRequest
    → Session
    → Client
    → Option Str
    → Fresh
    → ℕ
    → World
    → Result AuthStep × World
unfolding Store.find check_refresh new_code location wait_for_factor has_webauthn_enabled
authorize_refresh cfg req session c origin fresh now w = elim session.user_id [
  | none ↦ (err internal, w)
  | some uid ↦
      let (found, users) = Store.find uid w.users in
      let w' : World = record w { users = users } in
      elim found [
        | err e ↦ (err e, w')
        | ok u ↦ elim (check_refresh c now u) [
          | err e ↦ (err e, w')
          | ok _ ↦
              let code = new_code cfg req session u c fresh.code_id now in
              let w'' : World = record w' { codes = AuthCodes.save code w'.codes } in
              let loc = location req.redirect_uri code.id req.state in
              if has_webauthn_enabled u && cfg.session_renew_mfa
              then (let (step, w3) =
                    wait_for_factor cfg false u session loc origin fresh.step_code w'' in
                  (ok step, w3))
              else (ok (log_in false u session loc origin), w'')
        ]
      ]
]
