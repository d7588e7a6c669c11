-- ===== src/Clients.antt =====
-- rauthy-models/src/entity/clients.rs: the OIDC client, the lists that it holds as comma separated
-- texts, and the checks of a login, a token request and an `Origin` header against it. Decrypting a
-- secret (`EncValue` of the crate cryptr) is a parameter; `admin_force_mfa` is the setting
-- `ADMIN_FORCE_MFA`.
pub mod Requests
pub mod Store
pub mod Scopes
pub mod Origins
pub mod Tests
use mathlib.Core.Option
use rauthy.Base.{
  ℕ, Bool, true, false, ◌&&◌, ◌||◌, not, Option, none, some, List, [], ◌∷◌, ◌++◌, any, is_some,
  is_empty, Str, codes, str_eq, vec_contains, find, contains, starts_with, ends_with, split,
  split_once, split_once_str, replace, csv, if◌then◌else◌,
}
use rauthy.ErrorResponse.{
  Result, ok, err, ◌>>=◌, ◌>>◌, ensure, ok_or, bad_request, internal, unauthorized, mfa_required,
}
use rauthy.Users.{User, has_webauthn_enabled, delete_at}

pub record Client : Type 0 where
  pub id : Str
  pub name : Option Str
  pub enabled : Bool
  pub confidential : Bool
  pub secret : Option Str
  pub secret_kid : Option Str
  pub redirect_uris : Str
  pub post_logout_redirect_uris : Option Str
  pub allowed_origins : Option Str
  pub flows_enabled : Str
  pub access_token_alg : Str
  pub id_token_alg : Str
  pub refresh_token : Bool
  pub auth_code_lifetime : ℕ
  pub access_token_lifetime : ℕ
  pub scopes : Str
  pub default_scopes : Str
  pub challenge : Option Str
  pub force_mfa : Bool
  pub client_uri : Option Str
  pub contacts : Option Str

-- The text without a scope that `find` saw in it.
abbrev delete_found : Str → Str → Str
delete_found csv scope = elim (find csv scope) [ none ↦ csv | some i ↦ delete_at i csv scope ]

-- `Client::delete_scope`: it returns early where the scope is not found in `scopes`.
unfoldable pub delete_scope : Client → Str → Client
unfolding delete_at
delete_scope c scope = elim (find c.scopes scope) [
  | none ↦ c
  | some i ↦ record c {
    scopes = delete_at i c.scopes scope;
    default_scopes = delete_found c.default_scopes scope;
  }
]

-- `Client::force_mfa`, the method.
unfoldable pub forces_mfa : Bool → Client → Bool
forces_mfa admin_force_mfa c = c.force_mfa || str_eq c.id (codes "rauthy") && admin_force_mfa

unfoldable pub get_allowed_origins : Client → Option (List Str)
get_allowed_origins c = Option.map csv c.allowed_origins

unfoldable pub get_challenges : Client → Option (List Str)
get_challenges c = Option.map csv c.challenge

unfoldable pub get_contacts : Client → Option (List Str)
get_contacts c = Option.map (split b',') c.contacts

unfoldable pub get_secret_cleartext : (Str → Result Str) → Client → Result (Option Str)
get_secret_cleartext decrypt c = elim c.secret [
  | none ↦ ok none
  | some secret ↦ do clear ← decrypt secret; ok (some clear)
]

unfoldable pub get_default_scopes : Client → List Str
get_default_scopes c = csv c.default_scopes

unfoldable pub get_flows : Client → List Str
get_flows c = csv c.flows_enabled

unfoldable pub get_post_logout_uris : Client → Option (List Str)
get_post_logout_uris c = Option.map csv c.post_logout_redirect_uris

unfoldable pub get_redirect_uris : Client → List Str
get_redirect_uris c = csv c.redirect_uris

unfoldable pub get_scopes : Client → List Str
get_scopes c = csv c.scopes

unfoldable pub get_scope_as_str : Client → Str
unfolding replace
get_scope_as_str c = replace c.scopes (codes ",") (codes " ")

unfoldable pub is_dynamic : Client → Bool
is_dynamic c = starts_with c.id (codes "dyn$")

-- What the loop of `sanitize_scopes` pushes for the names of the stored scopes.
unfoldable pub push_scopes : List Str → List Str → Str
push_scopes scps [] = []
push_scopes scps (name ∷ names) =
    let rest = push_scopes scps names in
    if vec_contains scps name then name ++ b',' ∷ rest else rest

-- `res.remove(res.len() - 1)`
unfoldable pub remove_last : Str → Str
remove_last [] = []
remove_last (c ∷ []) = []
remove_last (c ∷ d ∷ s) = c ∷ remove_last (d ∷ s)

-- `Client::sanitize_scopes`, given the names of the stored scopes.
unfoldable pub sanitize_scopes : List Str → List Str → Str
unfolding push_scopes remove_last
sanitize_scopes stored scps =
    let res = remove_last (push_scopes scps stored) in
    if is_empty res
    then codes "openid"
    else if not (contains res (codes "openid"))
    then codes "openid," ++ res
    else res

-- What the second loop of `sanitize_login_scopes` pushes.
unfoldable pub allowed_of : Client → List Str → List Str
unfolding contains
allowed_of c [] = []
allowed_of c (s ∷ scopes) =
    let rest = allowed_of c scopes in
    if contains c.default_scopes s then rest else if contains c.scopes s then s ∷ rest else rest

unfoldable pub sanitize_login_scopes : Client → Option (List Str) → List Str
unfolding allowed_of
sanitize_login_scopes c none = split b',' c.default_scopes
sanitize_login_scopes c (some scopes) = split b',' c.default_scopes ++ allowed_of c scopes

-- `Client::validate_mfa`, which reads the field `force_mfa`.
unfoldable pub validate_mfa : Client → User → Result (Unit {0})
unfolding has_webauthn_enabled
validate_mfa c user =
    if not (str_eq c.id (codes "rauthy")) && c.force_mfa && not (has_webauthn_enabled user)
    then err mfa_required
    else ok tt

pub data ListenScheme : Type 0 where
  http https http_https : ListenScheme

abbrev scheme_fits : ListenScheme → Str → Bool
scheme_fits http scheme = str_eq scheme (codes "http")
scheme_fits https scheme = str_eq scheme (codes "https")
scheme_fits http_https scheme = str_eq scheme (codes "http") || str_eq scheme (codes "https")

-- `is_origin_external`, of the `Origin` header.
unfoldable pub is_origin_external : Bool → Option Str → ListenScheme → Str → Result (Bool × Str)
unfolding split_once_str
is_origin_external proxy_mode none listen pub_url = ok (false, codes "")
is_origin_external proxy_mode (some origin) listen pub_url = do
  (scheme, url) ← ok_or (split_once_str (codes "://") origin) bad_request
  ensure (proxy_mode && str_eq scheme (codes "https") || scheme_fits listen scheme) bad_request
  if str_eq pub_url url then ok (false, origin) else ok (true, origin)

abbrev pub origin_matches : ListenScheme → Str → Str → Bool
origin_matches http_https origin ao = ends_with ao origin
origin_matches http origin ao = str_eq ao origin
origin_matches https origin ao = str_eq ao origin

-- `Client::validate_origin`: the origin that the answer allows, if the request has an external one.
unfoldable pub validate_origin :
    Bool → Client → Option Str → ListenScheme → Str → Result (Option Str)
unfolding is_origin_external ends_with
validate_origin proxy_mode c header listen pub_url = do
  (is_ext, origin) ← is_origin_external proxy_mode header listen pub_url
  if not is_ext then ok none else elim c.allowed_origins [
    | none ↦ err bad_request
    | some allowed ↦
        if any (origin_matches listen origin) (split b',' allowed)
        then ok (some origin)
        else err bad_request
  ]

-- The filter in `validate_redirect_uri`.
unfoldable pub uri_matches : Str → Str → Bool
unfolding ends_with
uri_matches redirect_uri uri =
    ends_with uri (codes "*") && elim (split_once b'*' uri) [
      | none ↦ false
      | some (start, _) ↦ starts_with redirect_uri start
    ]
    || str_eq uri redirect_uri

unfoldable pub validate_redirect_uri : Client → Str → Result (Unit {0})
unfolding uri_matches get_redirect_uris
validate_redirect_uri c redirect_uri =
    if any (uri_matches redirect_uri) (get_redirect_uris c) then ok tt else err bad_request

unfoldable pub validate_code_challenge : Client → Option Str → Option Str → Result (Unit {0})
unfolding contains
validate_code_challenge c code_challenge method = elim c.challenge [
  | none ↦ if is_some code_challenge || is_some method then err bad_request else ok tt
  | some challenge ↦ do
    ensure (is_some code_challenge) bad_request
    m ← ok_or method bad_request
    ensure (contains challenge m) bad_request
]

unfoldable pub validate_challenge_method : Client → Str → Result (Unit {0})
unfolding contains
validate_challenge_method c method = elim c.challenge [
  | none ↦ err bad_request
  | some challenge ↦
      if is_empty method || not (contains challenge method) then err bad_request else ok tt
]

unfoldable pub validate_flow : Client → Str → Result (Unit {0})
unfolding contains
validate_flow c flow =
    if is_empty flow || not (contains c.flows_enabled flow) then err bad_request else ok tt

-- `Client::validate_secret`
unfoldable pub validate_secret : (Str → Result Str) → Client → Str → Result (Unit {0})
validate_secret decrypt c secret = do
  ensure c.confidential internal
  secret_enc ← ok_or c.secret internal
  cleartext ← decrypt secret_enc
  ensure (str_eq cleartext secret) unauthorized
