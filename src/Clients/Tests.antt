-- ===== src/Clients/Tests.antt =====
-- Runs of the checks of a client.
use rauthy.Base.{
  ℕ, ◌≡◌, ◌↔◌, ◌⊎◌, refl, Bool, true, false, not, ◌&&◌, ◌||◌, Option, none, some, List, [], ◌∷◌,
  Str, codes, split, vec_contains, contains,
}
use rauthy.ErrorResponse.{ok}
use rauthy.Fixtures.{a_client}
use rauthy.Clients.{
  Client, https, get_redirect_uris, validate_redirect_uri, validate_code_challenge,
  validate_challenge_method, validate_secret, validate_origin, sanitize_login_scopes,
}
use rauthy.Clients.Requests.{
  Covers, Some, validate_redirect_uri_iff, validate_code_challenge_iff, validate_secret_iff,
}
use rauthy.Clients.Scopes.{sanitize_login_scopes_lem}
use rauthy.Clients.Origins.{validate_origin_sound}

abbrev wildcards : Client
wildcards = record a_client {
  redirect_uris = codes "https://app/*";
  allowed_origins = some (codes "https://ui,https://app");
  scopes = codes "openid,read_all";
  confidential = true;
  secret = some (codes "sec");
}

covered : validate_redirect_uri wildcards (codes "https://app/cb") ≡ ok tt
unfolding validate_redirect_uri rauthy.Base.csv rauthy.Base.split_once
covered = refl

validate_redirect_uri_iff_example :
    (validate_redirect_uri wildcards (codes "https://app/cb") ≡ ok tt)
    ↔ Some (Covers (codes "https://app/cb")) (get_redirect_uris wildcards)
validate_redirect_uri_iff_example = validate_redirect_uri_iff wildcards (codes "https://app/cb")

validate_code_challenge_iff_run :
    (validate_code_challenge a_client (some (codes "x")) (some (codes "S256")) ≡ ok tt)
    ↔ ((codes "S256" ≡ []) ⊎ (validate_challenge_method a_client (codes "S256") ≡ ok tt))
validate_code_challenge_iff_run =
    validate_code_challenge_iff a_client (codes "S256") (codes "x") (codes "S256") refl

validate_secret_iff_example : (validate_secret (λ s. ok s) wildcards (codes "sec") ≡ ok tt) ↔ (
    (wildcards.confidential ≡ true)
    × ((enc : Str) × (wildcards.secret ≡ some enc) × (ok enc ≡ ok (codes "sec"))))
validate_secret_iff_example = validate_secret_iff (λ s. ok s) wildcards (codes "sec")

-- The scope `read` is not one of the client's, but a part of one.
sanitize_login_scopes_lem_run :
    vec_contains (sanitize_login_scopes wildcards (some (codes "read" ∷ []))) (codes "read") ≡ (
      vec_contains (split b',' wildcards.default_scopes) (codes "read")
      || vec_contains (codes "read" ∷ []) (codes "read")
        && not (contains wildcards.default_scopes (codes "read"))
        && contains wildcards.scopes (codes "read"))
sanitize_login_scopes_lem_run =
    sanitize_login_scopes_lem wildcards (codes "read" ∷ []) (codes "read")

read_granted :
    sanitize_login_scopes wildcards (some (codes "read" ∷ [])) ≡ codes "openid" ∷ codes "read" ∷ []
unfolding sanitize_login_scopes split
read_granted = refl

allowed :
    validate_origin false wildcards (some (codes "https://app")) https (codes "iam")
    ≡ ok (some (codes "https://app"))
unfolding validate_origin rauthy.Base.str_eq split
allowed = refl

validate_origin_sound_run :
    (codes "https://app" ≡ codes "https://app")
    × ((list : Str) × (wildcards.allowed_origins ≡ some list)
        × (vec_contains (split b',' list) (codes "https://app") ≡ true))
validate_origin_sound_run =
    validate_origin_sound false wildcards (codes "https://app") (codes "iam") (codes "https://app")
      allowed
