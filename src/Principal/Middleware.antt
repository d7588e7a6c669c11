-- ===== src/Principal/Middleware.antt =====
-- rauthy-handlers/src/middleware/principal.rs: how the principal of a request is found, and
-- rauthy-common/src/utils.rs for the address of its peer. A request is what the middleware reads of it.
pub mod Sound
use rauthy.Base.{
  ℕ, ◌+◌, Bool, true, false, ◌&&◌, ◌||◌, not, Option, none, some, List, [], ltb, is_empty, is_some,
  Str, codes, str_eq, ends_with, split_once, if◌then◌else◌,
}
use rauthy.ErrorResponse.{Result, ok, err, is_ok, bad_request}
use rauthy.Sessions.{Session, is_valid, validate_csrf, roles_as_vec}
use rauthy.Sessions.Store
use rauthy.ApiKeys.{ApiKey}
use rauthy.ApiKeys.Store as Keys
use rauthy.Principal.{Principal}

pub record Request : Type 0 where
  pub is_get : Bool
  pub path : Str
  pub authorization : Option Str
  pub session_cookie : Option Str
  pub csrf_header : Option Str
  -- The header that `PEER_IP_HEADER_NAME` names, if it is configured and given.
  pub custom_ip : Option Str
  pub realip_remote_addr : Option Str
  pub peer_addr : Option Str

pub record Config : Type 0 where
  pub proxy_mode : Bool
  pub session_validate_ip : Bool
  pub session_timeout : ℕ
  pub sha256 : Str → Str

-- `real_ip_from_svc_req`
unfoldable pub real_ip : Bool → Request → Option Str
real_ip proxy_mode req = elim req.custom_ip [
  | some ip ↦ some ip
  | none ↦ if proxy_mode then req.realip_remote_addr else req.peer_addr
]

unfoldable pub is_path_csrf_exception : Str → Bool
is_path_csrf_exception path =
    ends_with path (codes "/webauthn/register/start")
    || ends_with path (codes "/webauthn/register/finish")

-- `get_api_key_from_headers`
unfoldable pub get_api_key_from_headers :
    Config → Request → ℕ → Keys.Store → Result (Option ApiKey) × Keys.Store
get_api_key_from_headers cfg req now st = elim req.authorization [
  | none ↦ (ok none, st)
  | some header ↦ elim (split_once b' ' header) [
    | none ↦ (err bad_request, st)
    | some (k, v) ↦
        if not (str_eq k (codes "API-Key")) || is_empty k
        then (ok none, st)
        else (let (found, st') = Keys.api_key_from_token_validated cfg.sha256 v now st in
            (elim found [ ok key ↦ ok (some key) | err e ↦ err e ], st'))
  ]
]

-- A session that was seen more than ten seconds ago is saved anew.
unfoldable pub touch : Session → ℕ → Store.Store → Session × Store.Store
touch s now st =
    if ltb (s.last_seen + 10) now
    then (let s' = record s { last_seen = now } in (s', Store.save s' st))
    else (s, st)

-- Any request but a GET has to give the CSRF token.
unfoldable pub passes_csrf : Request → Session → Bool
passes_csrf req s =
    if not req.is_get && not (is_path_csrf_exception req.path)
    then is_ok (validate_csrf s req.csrf_header)
    else true

-- `get_session_from_cookie`
unfoldable pub get_session_from_cookie :
    Config → Request → ℕ → Store.Store → Option Session × Store.Store
get_session_from_cookie cfg req now st = elim req.session_cookie [
  | none ↦ (none, st)
  | some id ↦
      let (found, st') = Store.find id st in
      elim found [
        | err _ ↦ (none, st')
        | ok s ↦
            if is_valid s now cfg.session_timeout
              (if cfg.session_validate_ip then real_ip cfg.proxy_mode req else none)
            then (let (s', st'') = touch s now st' in
                ((if passes_csrf req s' then some s' else none), st''))
            else (none, st')
      ]
]

-- `PrincipalMiddleware::call`, up to the call of the next service.
unfoldable pub principal_of :
    Config → Request → ℕ → Keys.Store → Store.Store → Result Principal × (Keys.Store × Store.Store)
unfolding get_api_key_from_headers get_session_from_cookie
principal_of cfg req now ks st =
    let (api_key, ks') = get_api_key_from_headers cfg req now ks in
    elim api_key [
      | err e ↦ (err e, (ks', st))
      | ok key ↦
          let (session, st') = get_session_from_cookie cfg req now st in
          (
            ok (record {
              session = session;
              api_key = key;
              roles = elim session [
                | none ↦ []
                | some s ↦ elim (roles_as_vec s) [ ok roles ↦ roles | err _ ↦ [] ]
              ];
            }),
            (ks', st'),
          )
    ]
