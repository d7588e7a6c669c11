-- ===== src/Principal/Middleware/Sound.antt =====
-- What a session in a principal has been checked for.
use rauthy.Base.{
  ℕ, ◌+◌, ◌≡◌, ◌∙◌, inl, inr, true, false, Option, none, some, arith, Str, str_eq_iff, Option-cases,
  Bool-cases, if◌then◌else◌, ltb,
}
use rauthy.ErrorResponse.{ok, Result-cases}
use rauthy.Sessions.{Session, is_valid, validate_csrf}
use rauthy.Sessions.Store
use rauthy.Principal.Middleware.{
  Request, Config, real_ip, is_path_csrf_exception, get_session_from_cookie, touch, passes_csrf,
}

abbrev request_ip : Config → Request → Option Str
request_ip cfg req = if cfg.session_validate_ip then real_ip cfg.proxy_mode req else none

-- The session that the cookie names was found and valid, and its token was given where a request can
-- change something.
pub record IsChecked (cfg : Config) (req : Request) (now : ℕ) (st : Store.Store) (s : Session)
    : Type 0 where
  pub stored : Session
  pub cookie : Str
  pub named : req.session_cookie ≡ some cookie
  pub found : (Store.find cookie st).0 ≡ ok stored
  pub valid : is_valid stored now cfg.session_timeout (request_ip cfg req) ≡ true
  pub kept :
      s ≡ (if ltb (stored.last_seen + 10) now then record stored { last_seen = now } else stored)
  pub csrf :
      req.is_get ≡ false
      → is_path_csrf_exception req.path ≡ false
      → req.csrf_header ≡ some s.csrf_token

touch_lem :
    (s : Session) (now : ℕ) (st : Store.Store)
    → (touch s now st).0 ≡ (if ltb (s.last_seen + 10) now then record s { last_seen = now } else s)
unfolding touch
touch_lem s now st = ground arith

passes_csrf_lem :
    (req : Request) (s : Session)
    → passes_csrf req s ≡ true
    → req.is_get ≡ false
    → is_path_csrf_exception req.path ≡ false
    → req.csrf_header ≡ some s.csrf_token
unfolding passes_csrf validate_csrf
passes_csrf_lem req s h g e = elim (Option-cases req.csrf_header) [
  | inl missing ↦ ground arith
  | inr (c, given) ↦ ground (arith, str_eq_iff s.csrf_token c)
]

anonymous_lem :
    (cfg : Config) (req : Request) (now : ℕ) (st : Store.Store)
    → req.session_cookie ≡ none
    → (get_session_from_cookie cfg req now st).0 ≡ none
unfolding get_session_from_cookie
anonymous_lem cfg req now st e = ground arith

-- A session reaches the handlers only if the cookie names it, it was found and is valid for the
-- request's address, and, unless the request is a GET or its path is an exception, the CSRF header has
-- its token; it is the stored session, last seen now where that was more than ten seconds ago.
pub get_session_from_cookie-IsChecked :
    (cfg : Config) (req : Request) (now : ℕ) (st : Store.Store) (s : Session)
    → (get_session_from_cookie cfg req now st).0 ≡ some s
    → IsChecked cfg req now st s
unfolding get_session_from_cookie
get_session_from_cookie-IsChecked cfg req now st s h = elim (Option-cases req.session_cookie) [
  | inl anonymous ↦ cc (h, anonymous_lem cfg req now st anonymous)
  | inr (id, named) ↦ elim (Result-cases (Store.find id st).0) [
    | inr (e, missing) ↦ absurd (ground arith)
    | inl (stored, found) ↦
        elim (Bool-cases (is_valid stored now cfg.session_timeout (request_ip cfg req))) [
          | inr bad ↦ absurd (ground arith)
          | inl valid ↦
              let touched = touch_lem stored now (Store.find id st).1 in
              let same : s ≡ (touch stored now (Store.find id st).1).0 = ground arith in
              record {
                stored = stored;
                cookie = id;
                named = named;
                found = found;
                valid = valid;
                kept = same ∙ touched;
                csrf = passes_csrf_lem req s (ground arith);
              }
        ]
  ]
]
