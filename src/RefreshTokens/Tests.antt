-- ===== src/RefreshTokens/Tests.antt =====
-- Runs of the use of a refresh token: one that is fresh, and one that was used before.
use rauthy.Base.{
  ℕ, ◌+◌, ◌≤◌, ◌<◌, ◌≡◌, ◌≢◌, refl, arith, false, Option, none, some, [], ◌∷◌, Str, codes,
  str_eq_iff,
}
use rauthy.Base.Table.{get}
use rauthy.ErrorResponse.{ok, err, not_found, bad_request}
use rauthy.Fixtures.{a_user, a_client}
use rauthy.Clients.{https}
use rauthy.Dpop
use rauthy.RefreshTokens.{RefreshToken, Config, World, use_token}
use rauthy.RefreshTokens.Rotation.{use_token-revokes, use_token-shortens}

abbrev dpop_cfg : Dpop.Config
dpop_cfg = record {
  nonce_exp = 900;
  force_nonce = false;
  token_endpoint = codes "https://iam/token";
  is_token_68 = λ _. false;
  decode_header = λ _. err not_found;
  decode_claims = λ _. err not_found;
  decode_signature = λ _. err not_found;
  validate_self = λ _. ok tt;
  validate_token_signature = λ _ _. ok tt;
  fingerprint = λ k. ok k.key;
}

abbrev cfg : Config
cfg = record {
  proxy_mode = false;
  listen_scheme = https;
  public_url = codes "iam";
  dpop = dpop_cfg;
  refresh_grace_time = 5;
  validate_jwt = λ _. err not_found;
  from_user = λ _ _ _ _. ok (codes "tokens");
}

abbrev a_token : RefreshToken
a_token = record {
  id = codes "r";
  user_id = codes "u";
  nbf = 0;
  exp = 1000;
  scope = none;
  is_mfa = false;
}

abbrev world : World
world = record {
  users = (codes "u", a_user) ∷ [];
  clients = [];
  tokens = (codes "r", a_token) ∷ [];
  nonces = [];
}

stored_by_id : (i : Str) (t : RefreshToken) → get i world.tokens ≡ some t → t.id ≡ i
unfolding get
stored_by_id i t h = ground (arith, str_eq_iff (codes "r") i)

used : (use_token cfg 100 (codes "u") a_client none (codes "r") world).0 ≡ ok (codes "tokens")
unfolding use_token get rauthy.Base.str_eq rauthy.Users.check_enabled rauthy.Users.check_expired
used = refl

use_token-shortens_example :
    (t : RefreshToken) × (get
        (codes "r")
        (use_token cfg 100 (codes "u") a_client none (codes "r") world).1.tokens
      ≡ some t)
    × (t.exp ≤ 100 + cfg.refresh_grace_time + 1)
use_token-shortens_example =
    use_token-shortens cfg 100 (codes "u") a_client none (codes "r") world (codes "tokens")
      stored_by_id used

in_table : get (codes "r") world.tokens ≡ some a_token
unfolding get rauthy.Base.str_eq
in_table = refl

use_token-revokes_example :
    ((use_token cfg 2000 (codes "u") a_client none (codes "r") world).0 ≡ err bad_request)
    × ((other : Str) (t : RefreshToken)
        → get other (use_token cfg 2000 (codes "u") a_client none (codes "r") world).1.tokens
          ≡ some t
        → t.user_id ≢ a_token.user_id)
use_token-revokes_example =
    use_token-revokes cfg 2000 (codes "u") a_client none (codes "r") world a_token in_table
      (omega arith)
