-- ===== src/Devices.antt =====
-- rauthy-models/src/entity/devices.rs and `grant_type_device_code` in rauthy-service/src/auth.rs: the
-- device authorization grant. Codes live in a cache; times are in milliseconds, where the program has
-- nanoseconds. Building a token set
-- (`TokenSet::from_user`, over the JWT code) is a parameter, and so are the random texts.
pub mod Polling
pub mod Granted
pub mod Store
pub mod Expiry
pub mod Tests
use rauthy.Base.{
  ℕ, ◌+◌, ◌*◌, ◌/◌, ◌%◌, ◌^◌, Bool, true, false, not, Option, none, some, List, [], ◌∷◌, ltb, leb,
  unwrap_or, length, take, Str, codes, str_eq, opt_str_eq, if◌then◌else◌,
}
use rauthy.Base.Table.{Table, get, put, del}
use rauthy.ErrorResponse.{Result, ok, err}
use rauthy.Users.{User}
use rauthy.Clients.{Client}

pub record DeviceEntity : Type 0 where
  pub id : Str
  pub client_id : Str
  pub user_id : Option Str
  pub created : ℕ
  pub access_exp : ℕ
  pub refresh_exp : Option ℕ
  pub peer_ip : Str
  pub name : Str

pub record DeviceAuthCode : Type 0 where
  pub client_id : Str
  pub device_code : Str
  pub verified_by : Option Str
  pub exp : ℕ
  pub last_poll : ℕ
  pub scopes : Option Str
  pub client_secret : Option Str
  pub warnings : ℕ

-- The settings `DEVICE_GRANT_USER_CODE_LENGTH`, `DEVICE_GRANT_CODE_LIFETIME` and
-- `DEVICE_GRANT_POLL_INTERVAL`, the latter two in seconds, and what is a parameter.
pub record Config : Type 0 where
  pub user_code_length : ℕ
  pub code_lifetime : ℕ
  pub poll_interval : ℕ
  pub from_user : User → Client → Option Str → Str → Result Str

-- The first characters of the device code.
unfoldable pub user_code : Config → Str → Str
user_code cfg device_code = take cfg.user_code_length device_code

-- `DeviceAuthCode::new`
unfoldable pub new :
    Config
    → Str
    → ℕ
    → Option Str
    → Str
    → Option Str
    → Table DeviceAuthCode
    → DeviceAuthCode × Table DeviceAuthCode
unfolding user_code
new cfg device_code now scopes client_id client_secret codes =
    let code : DeviceAuthCode = record {
      client_id = client_id;
      device_code = device_code;
      verified_by = none;
      exp = now + cfg.code_lifetime * 1000;
      last_poll = now;
      scopes = scopes;
      client_secret = client_secret;
      warnings = 0;
    } in
    (code, put (user_code cfg device_code) code codes)

unfoldable pub delete : Config → DeviceAuthCode → Table DeviceAuthCode → Table DeviceAuthCode
unfolding user_code
delete cfg code codes = del (user_code cfg code.device_code) codes

unfoldable pub save : Config → DeviceAuthCode → Table DeviceAuthCode → Table DeviceAuthCode
unfolding user_code
save cfg code codes = put (user_code cfg code.device_code) code codes

-- `DeviceAuthCode::find`, which removes an expired code.
unfoldable pub find :
    Config → ℕ → Str → Table DeviceAuthCode → Option DeviceAuthCode × Table DeviceAuthCode
unfolding delete
find cfg now key codes = elim (get key codes) [
  | none ↦ (none, codes)
  | some code ↦ if ltb code.exp now then (none, delete cfg code codes) else (some code, codes)
]

unfoldable pub find_by_device_code :
    Config → ℕ → Str → Table DeviceAuthCode → Option DeviceAuthCode × Table DeviceAuthCode
unfolding find user_code
find_by_device_code cfg now device_code codes = find cfg now (user_code cfg device_code) codes

pub data OAuth2Error : Type 0 where
  invalid_request invalid_client invalid_grant unauthorized_client : OAuth2Error
  unsupported_grant_type invalid_scope authorization_pending slow_down : OAuth2Error
  access_denied expired_token : OAuth2Error

-- The response: a token set, a bad request with an error, an internal server error, or none, where
-- the handler panics.
pub data Response : Type 0 where
  token_set : Str → Response
  bad_request : OAuth2Error → Response
  server_error panicked : Response

-- The database and the cache that the grant works on.
pub record World : Type 0 where
  pub users : Table User
  pub clients : Table Client
  pub devices : List DeviceEntity
  pub device_codes : Table DeviceAuthCode

pub record TokenRequest : Type 0 where
  pub device_code : Option Str
  pub client_id : Option Str
  pub client_secret : Option Str

-- The check of the poll interval: the code, the error to answer with, and the cache.
unfoldable pub check_interval :
    Config
    → ℕ
    → DeviceAuthCode
    → Table DeviceAuthCode
    → DeviceAuthCode × (OAuth2Error × Table DeviceAuthCode)
unfolding delete
check_interval cfg now code codes =
    if ltb (now + 500) (code.last_poll + cfg.poll_interval * 1000)
    then (let warned : DeviceAuthCode = record code { warnings = (code.warnings + 1) % 2 ^ 8 } in
        if leb 3 warned.warnings
        then (warned, (access_denied, delete cfg warned codes))
        else (warned, (slow_down, codes)))
    else (code, (authorization_pending, codes))

-- The device of a code that a user has verified.
abbrev device_of : Str → ℕ → Option Str → DeviceAuthCode → User → Client → DeviceEntity
device_of id now peer_ip code user client =
    let access_exp = now + client.access_token_lifetime * 1000 in
    record {
      id = id;
      client_id = code.client_id;
      user_id = some user.id;
      created = now / 1000;
      access_exp = access_exp / 1000;
      refresh_exp =
          if client.refresh_token then some ((access_exp + 48 * 3600 * 1000) / 1000) else none;
      peer_ip = unwrap_or peer_ip (codes "");
      name = id;
    }

-- The branch of a verified code.
unfoldable pub issue :
    Config → Str → ℕ → Option Str → DeviceAuthCode → Str → World → Response × World
unfolding delete
issue cfg id now peer_ip code verified_by w = elim (get verified_by w.users) [
  | none ↦ (server_error, w)
  | some user ↦ elim (get code.client_id w.clients) [
    | none ↦ (server_error, w)
    | some client ↦ (
      elim (cfg.from_user user client code.scopes id) [
        | ok ts ↦ token_set ts
        | err _ ↦ server_error
      ],
      record w {
        devices = device_of id now peer_ip code user client ∷ w.devices;
        device_codes = delete cfg code w.device_codes;
      },
    )
  ]
]

-- The test on `verified_by`, after the check of the poll interval.
unfoldable pub settle :
    Config → Str → ℕ → Option Str → DeviceAuthCode → OAuth2Error → World → Response × World
unfolding issue save
settle cfg id now peer_ip code error w = elim code.verified_by [
  | some uid ↦ issue cfg id now peer_ip code uid w
  | none ↦ (
    bad_request error,
    record w { device_codes = save cfg (record code { last_poll = now }) w.device_codes },
  )
]

-- What follows the checks of the request.
unfoldable pub poll : Config → Str → ℕ → Option Str → DeviceAuthCode → World → Response × World
unfolding check_interval settle
poll cfg id now peer_ip code w =
    let (warned, (error, left)) = check_interval cfg now code w.device_codes in
    settle cfg id now peer_ip warned error (record w { device_codes = left })

-- `grant_type_device_code`; `id` is the one that a new device gets. A device code that is shorter than
-- a user code is sliced out of its bounds.
unfoldable pub grant_type_device_code :
    Config → Str → ℕ → Option Str → TokenRequest → World → Response × World
unfolding find_by_device_code poll
grant_type_device_code cfg id now peer_ip payload w = elim payload.device_code [
  | none ↦ (bad_request invalid_request, w)
  | some device_code ↦
      if ltb (length device_code) cfg.user_code_length
      then (panicked, w)
      else let (found, left) = find_by_device_code cfg now device_code w.device_codes in
        let w' : World = record w { device_codes = left } in
        elim found [
          | none ↦ (bad_request expired_token, w')
          | some code ↦
              if not (opt_str_eq (some code.client_id) payload.client_id)
              then (bad_request invalid_request, w')
              else if not (str_eq code.device_code device_code)
              then (bad_request unauthorized_client, w')
              else if not (opt_str_eq code.client_secret payload.client_secret)
              then (bad_request unauthorized_client, w')
              else poll cfg id now peer_ip code w'
        ]
]

pub data DeviceAccepted : Type 0 where
  accept decline pending : DeviceAccepted

-- `post_device_verify` in rauthy-handlers/src/oidc.rs, after its checks of the session, which is that of
-- a user, and the proof of work: whether it succeeds, and the cache.
unfoldable pub post_device_verify :
    Config → ℕ → Str → Str → DeviceAccepted → Table DeviceAuthCode → Bool × Table DeviceAuthCode
unfolding find save delete
post_device_verify cfg now uid code accepted codes =
    let (found, left) = find cfg now code codes in
    elim found [
      | none ↦ (false, left)
      | some c ↦ elim accepted [
        | accept ↦ (true, save cfg (record c { verified_by = some uid }) left)
        | decline ↦ (true, delete cfg c left)
        | pending ↦ (true, left)
      ]
    ]
