-- ===== src/Grants/Sound.antt =====
-- What a request for tokens has shown that is granted.
use std.Path.{subst}
use rauthy.Base.{ℕ, ◌≡◌, sym, ap, ◌∙◌, true, Option, some, is_some, Str, codes, str_eq, str_eq_iff}
use rauthy.ErrorResponse.{
  Result, ok, and_then-eq-ok, ensure-eq-ok, ok_or-eq-ok, ok-injective, ensure, ok_or, >>=-eq-ok,
  bad_request, internal, unauthorized,
}
use rauthy.Clients
use rauthy.Clients.{Client, validate_flow, validate_origin}
use rauthy.AuthCodes.{TokenAnswer, try_get_client_id_secret}
use rauthy.Grants.{
  Config, GrantRequest, World, check_credentials, take_proof, grant_type_credentials,
}

-- The secret is the one that the client has stored, encrypted.
abbrev pub IsSecretOf : Config → Client → Str → Type 0
IsSecretOf cfg client secret =
    (enc : Str) × (client.secret ≡ some enc) × (cfg.base.decrypt enc ≡ ok secret)

validate_secret_sound :
    (cfg : Config) (client : Client) (secret : Str) {x : Unit {0}}
    → Clients.validate_secret cfg.base.decrypt client secret ≡ ok x
    → IsSecretOf cfg client secret
unfolding Clients.validate_secret
validate_secret_sound cfg client secret h =
    let (_, _, h1) = >>=-eq-ok (ensure client.confidential internal) _ h in
    let (enc, stored, h2) = >>=-eq-ok (ok_or client.secret internal) _ h1 in
    let (clear, decrypted, h3) = >>=-eq-ok (cfg.base.decrypt enc) _ h2 in
    (
      enc,
      ok_or-eq-ok client.secret internal stored,
      decrypted
          ∙ ap ok
              ((str_eq_iff clear secret).0 (ensure-eq-ok (str_eq clear secret) unauthorized h3)),
    )

-- What a client shows that gets tokens for itself.
pub record IsEntitled (cfg : Config) (req : GrantRequest) (client : Client) : Type 0 where
  pub id : Str
  pub secret : Str
  pub given : try_get_client_id_secret cfg.base req.base ≡ ok (id, some secret)
  pub known : cfg.find id ≡ ok client
  pub confidential : client.confidential ≡ true
  pub enabled : client.enabled ≡ true
  pub own : IsSecretOf cfg client secret
  pub flow : validate_flow client (codes "client_credentials") ≡ ok tt

check_credentials_sound :
    (cfg : Config) (req : GrantRequest) (client : Client) (origin : Option Str)
    → check_credentials cfg req ≡ ok (client, origin)
    → IsEntitled cfg req client
unfolding check_credentials
check_credentials_sound cfg req client origin h =
    let (_, _, h1) = >>=-eq-ok (ensure (is_some req.base.client_secret) bad_request) _ h in
    let ((id, client_secret), given, h2) =
      >>=-eq-ok (try_get_client_id_secret cfg.base req.base) _ h1 in
    let (c, known, h3) = >>=-eq-ok (cfg.find id) _ h2 in
    let (_, confidential, h4) = >>=-eq-ok (ensure c.confidential bad_request) _ h3 in
    let (_, enabled, h5) = >>=-eq-ok (ensure c.enabled bad_request) _ h4 in
    let (secret, present, h6) = >>=-eq-ok (ok_or client_secret bad_request) _ h5 in
    let (_, own, h7) = >>=-eq-ok (Clients.validate_secret cfg.base.decrypt c secret) _ h6 in
    let (_, flow, h8) = >>=-eq-ok (validate_flow c (codes "client_credentials")) _ h7 in
    let (o, _, last) =
      >>=-eq-ok
        (validate_origin cfg.base.proxy_mode c req.base.origin cfg.base.listen_scheme
          cfg.base.public_url)
        _ h8 in
    subst (λ (p : Client × Option Str). IsEntitled cfg req p.0) (ok-injective last)
      (record {
        id = id;
        secret = secret;
        given =
            given
            ∙ ap (λ (s : Option Str). ok (id, s)) (ok_or-eq-ok client_secret bad_request present);
        known = known;
        confidential = ensure-eq-ok c.confidential bad_request confidential;
        enabled = ensure-eq-ok c.enabled bad_request enabled;
        own = validate_secret_sound cfg c secret own;
        flow = flow;
      })

-- A client gets tokens for itself only if it is known, confidential, enabled, allows the flow, and the
-- secret of the request is the one that it has stored; the tokens are those built for this client.
pub grant_type_credentials_sound :
    (cfg : Config) (req : GrantRequest) (random : Str) (now : ℕ) (w : World) (answer : TokenAnswer)
    → (grant_type_credentials cfg req random now w).0 ≡ ok answer
    → (client : Client) × (fingerprint : Option Str) × (ts : Str) × IsEntitled cfg req client
      × (cfg.for_client_credentials client fingerprint ≡ ok ts)
      × (answer.token_set ≡ ts)
unfolding grant_type_credentials
grant_type_credentials_sound cfg req random now w answer h =
    let ((client, origin), checked, opened) = and_then-eq-ok (check_credentials cfg req, w) _ h in
    let h1 = sym (ap (λ (r : Result TokenAnswer × World). r.0) opened) ∙ h in
    let ((fingerprint, nonce), _, opened') =
      and_then-eq-ok (take_proof cfg req origin random now w) _ h1 in
    let h2 = sym (ap (λ (r : Result TokenAnswer × World). r.0) opened') ∙ h1 in
    let (ts, built, last) = >>=-eq-ok (cfg.for_client_credentials client fingerprint) _ h2 in
    (
      client,
      fingerprint,
      ts,
      check_credentials_sound cfg req client origin checked,
      built,
      ap TokenAnswer.token_set (sym (ok-injective last)),
    )
