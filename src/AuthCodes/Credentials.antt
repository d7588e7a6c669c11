-- ===== src/AuthCodes/Credentials.antt =====
-- What the credentials of a token request have shown of the client.
use std.Path.{subst}
use rauthy.Base.{
  ◌≡◌, ap, ◌∙◌, true, Option, some, Str, codes, str_eq, str_eq_iff, contains, arith, Bool-cases,
  inl, inr,
}
use rauthy.ErrorResponse.{
  ok, ensure, ok_or, map_err, >>=-eq-ok, ensure-eq-ok, ok_or-eq-ok, ok-injective, map_err-eq-ok,
  bad_request, not_found, internal, unauthorized,
}
use rauthy.Clients
use rauthy.Clients.{Client, validate_flow, validate_origin}
use rauthy.AuthCodes.{Config, TokenRequest, try_get_client_id_secret, check_secret, check_client}

-- The secret is the one that the client has stored, encrypted.
abbrev pub OwnSecret : Config → Client → Str → Type 0
OwnSecret cfg client secret =
    (enc : Str) × (client.secret ≡ some enc) × (cfg.decrypt enc ≡ ok secret)

-- The request names this client, has its secret if the client is confidential, and comes from an origin
-- that the client allows; the client has the flow of codes.
pub record IsClient (cfg : Config) (req : TokenRequest) (id : Str) (client : Client)
    (origin : Option Str) : Type 0 where
  pub given : Option Str
  pub named : try_get_client_id_secret cfg req ≡ ok (id, given)
  pub known : cfg.find_client id ≡ ok client
  pub own :
      client.confidential ≡ true
      → (secret : Str) × (given ≡ some secret) × OwnSecret cfg client secret
  pub allowed :
      validate_origin cfg.proxy_mode client req.origin cfg.listen_scheme cfg.public_url ≡ ok origin
  pub flow : contains client.flows_enabled (codes "authorization_code") ≡ true

validate_secret_sound :
    (cfg : Config) (client : Client) (secret : Str) {x : Unit {0}}
    → Clients.validate_secret cfg.decrypt client secret ≡ ok x
    → OwnSecret cfg client secret
unfolding Clients.validate_secret
validate_secret_sound cfg client secret h =
    let (_, _, h1) = >>=-eq-ok (ensure client.confidential internal) _ h in
    let (enc, stored, h2) = >>=-eq-ok (ok_or client.secret internal) _ h1 in
    let (clear, decrypted, h3) = >>=-eq-ok (cfg.decrypt enc) _ h2 in
    (
      enc,
      ok_or-eq-ok client.secret internal stored,
      decrypted
          ∙ ap ok
              ((str_eq_iff clear secret).0 (ensure-eq-ok (str_eq clear secret) unauthorized h3)),
    )

check_secret_sound :
    (cfg : Config) (client : Client) (given : Option Str) {x : Unit {0}}
    → check_secret cfg client given ≡ ok x
    → client.confidential ≡ true
    → (secret : Str) × (given ≡ some secret) × OwnSecret cfg client secret
unfolding check_secret
check_secret_sound cfg client given h confidential =
    let (secret, present, h1) =
      >>=-eq-ok (ok_or given bad_request) _ (rw (confidential, check_secret) at h) in
    (secret, ok_or-eq-ok given bad_request present, validate_secret_sound cfg client secret h1)

validate_flow_sound :
    (client : Client) {x : Unit {0}}
    → validate_flow client (codes "authorization_code") ≡ ok x
    → contains client.flows_enabled (codes "authorization_code") ≡ true
unfolding validate_flow
validate_flow_sound client h =
    elim (Bool-cases (contains client.flows_enabled (codes "authorization_code"))) [
      | inl has ↦ has
      | inr without ↦ absurd (ground arith)
    ]

pub check_client-IsClient :
    (cfg : Config) (req : TokenRequest) {id : Str} {client : Client} {origin : Option Str}
    → check_client cfg req ≡ ok (id, (client, origin))
    → IsClient cfg req id client origin
unfolding check_client
check_client-IsClient cfg req h =
    let ((id, given), named, h1) = >>=-eq-ok (try_get_client_id_secret cfg req) _ h in
    let (c, known, h2) = >>=-eq-ok (map_err (cfg.find_client id) not_found) _ h1 in
    let (o, allowed, h3) =
      >>=-eq-ok (validate_origin cfg.proxy_mode c req.origin cfg.listen_scheme cfg.public_url) _
        h2 in
    let (_, own, h4) = >>=-eq-ok (check_secret cfg c given) _ h3 in
    let (_, flow, last) = >>=-eq-ok (validate_flow c (codes "authorization_code")) _ h4 in
    subst (λ (p : Str × (Client × Option Str)). IsClient cfg req p.0 p.1.0 p.1.1)
      (ok-injective last)
      (record {
        given = given;
        named = named;
        known = map_err-eq-ok (cfg.find_client id) not_found known;
        own = λ confidential. check_secret_sound cfg c given own confidential;
        allowed = allowed;
        flow = validate_flow_sound c flow;
      })
