-- ===== src/AuthCodes/Tests.antt =====
-- Runs of the authorization code grant, with a code whose challenge is hashed.
use rauthy.Base.{
  ℕ, ◌≡◌, ◌≢◌, refl, Bool, true, false, Option, none, some, List, [], ◌∷◌, Str, codes, arith,
  str_eq, str_eq_iff, if◌then◌else◌,
}
use rauthy.Base.Table.{get}
use rauthy.ErrorResponse.{ok, err, unauthorized, not_found}
use rauthy.Clients.{https}
use rauthy.Fixtures.{a_user, a_client}
use rauthy.Dpop
use rauthy.AuthCodes.{AuthCode, Config, TokenRequest, TokenAnswer, World, grant_type_code}
use rauthy.AuthCodes.Redeem.{IsRedeemable, grant_type_code-redeems, grant_type_code-once}

abbrev dpop_cfg : Dpop.Config
dpop_cfg = record {
  nonce_exp = 900;
  force_nonce = false;
  token_endpoint = codes "https://iam/token";
  is_token_68 = λ _. false;
  decode_header = λ _. err not_found;
  decode_claims = λ _. err not_found;
  decode_signature = λ _. err not_found;
  validate_self = λ _. ok tt;
  validate_token_signature = λ _ _. ok tt;
  fingerprint = λ k. ok k.key;
}

abbrev pub cfg : Config
cfg = record {
  dpop = dpop_cfg;
  proxy_mode = false;
  listen_scheme = https;
  public_url = codes "iam";
  base64_decode = λ s. ok s;
  decrypt = λ s. ok s;
  sha256_base64 = λ s. b'h' ∷ s;
  find_client = λ _. ok a_client;
  from_user = λ _ _ _ _ _. ok (codes "tokens");
}

abbrev a_code : AuthCode
a_code = record {
  id = codes "c";
  exp = 160;
  client_id = codes "app";
  user_id = codes "u";
  session_id = none;
  challenge = some (codes "hv");
  challenge_method = some (codes "S256");
  nonce = none;
  scopes = codes "openid" ∷ [];
}

abbrev world : World
world = record {
  users = (codes "u", a_user) ∷ [];
  sessions = record { db = []; cache_sessions = []; cache_12hr = [] };
  codes = (codes "c", a_code) ∷ [];
  nonces = [];
  clients_dyn = [];
}

abbrev request : Str → TokenRequest
request verifier = record {
  code = some (codes "c");
  client_id = some (codes "app");
  client_secret = none;
  code_verifier = some verifier;
  authorization = none;
  origin = none;
  dpop = none;
}

abbrev pub answer : TokenAnswer
answer = record { token_set = codes "tokens"; dpop_nonce = none; allow_origin = none }

redeemed : (grant_type_code cfg (request (codes "v")) (codes "r") 100 world).0 ≡ ok answer
unfolding grant_type_code get rauthy.Clients.validate_origin rauthy.Clients.validate_flow
    Dpop.opt_validated_from rauthy.Base.str_eq
redeemed = refl

wrong_verifier :
    (grant_type_code cfg (request (codes "x")) (codes "r") 100 world).0 ≡ err unauthorized
unfolding grant_type_code get rauthy.Clients.validate_origin rauthy.Clients.validate_flow
    Dpop.opt_validated_from rauthy.Base.str_eq
wrong_verifier = refl

grant_type_code-redeems_example :
    (idx : Str) × (c : AuthCode) × ((request (codes "v")).code ≡ some idx)
    × IsRedeemable cfg (request (codes "v")) 100 world idx c
    × ((key : Str)
        → get key (grant_type_code cfg (request (codes "v")) (codes "r") 100 world).1.codes
          ≡ (if str_eq c.id key then none else get key world.codes))
grant_type_code-redeems_example =
    grant_type_code-redeems cfg (request (codes "v")) (codes "r") 100 world answer redeemed

stored_by_id : (id : Str) (c : AuthCode) → get id world.codes ≡ some c → c.id ≡ id
unfolding get
stored_by_id id c h = ground (arith, str_eq_iff (codes "c") id)

grant_type_code-once_example :
    (grant_type_code cfg
      (request (codes "v"))
      (codes "r")
      110
      (grant_type_code cfg (request (codes "v")) (codes "r") 100 world).1).0
    ≢ ok answer
grant_type_code-once_example =
    grant_type_code-once cfg (request (codes "v")) (request (codes "v")) (codes "r") (codes "r") 100
      110 world answer answer stored_by_id refl redeemed
