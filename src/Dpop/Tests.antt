-- ===== src/Dpop/Tests.antt =====
-- Runs of the checks of a DPoP proof.
use rauthy.Base.{
  ℕ, ◌+◌, ◌≤◌, ◌≡◌, ◌≢◌, refl, Bool, true, false, Option, none, some, [], ◌∷◌, Str, codes,
}
use rauthy.Base.Table.{get}
use rauthy.ErrorResponse.{ok}
use rauthy.Dpop.{
  Config, DpopNonce, DpopHeader, DpopClaims, DpopProof, try_from_str, accept_nonce, get_latest,
  opt_validated_from,
}
use rauthy.Dpop.Validity.{IsProofAt, opt_validated_from_sound}
use rauthy.Dpop.Nonces.{accept_nonce_any, get_latest_alive}

abbrev header : DpopHeader
header = record {
  typ = codes "dpop+jwt";
  alg = codes "EdDSA";
  jwk = record { alg = some (codes "EdDSA"); key = codes "key" };
  kid = none;
}

abbrev claims : DpopClaims
claims = record {
  jti = codes "1";
  htm = codes "POST";
  htu = codes "https://iam/token";
  iat = 90;
  nonce = some (codes "n");
}

abbrev cfg : Config
cfg = record {
  nonce_exp = 900;
  force_nonce = true;
  token_endpoint = codes "https://iam/token";
  is_token_68 = λ _. true;
  decode_header = λ _. ok header;
  decode_claims = λ _. ok claims;
  decode_signature = λ s. ok s;
  validate_self = λ _. ok tt;
  validate_token_signature = λ _ _. ok tt;
  fingerprint = λ k. ok k.key;
}

abbrev a_proof : DpopProof
a_proof = record { header = header; claims = claims; signature = codes "z" }

proof_run :
    (opt_validated_from cfg (some (codes "x.y.z")) none (codes "r") 100 []).0 ≡ ok (some a_proof)
unfolding opt_validated_from rauthy.Base.split_once rauthy.Base.str_eq
proof_run = refl

opt_validated_from_sound_example :
    (raw : Str) × (some (codes "x.y.z") ≡ some raw)
    × (try_from_str cfg none raw ≡ ok a_proof)
    × IsProofAt cfg a_proof raw 100
    × (cfg.force_nonce ≡ true → a_proof.claims.nonce ≢ none)
opt_validated_from_sound_example =
    opt_validated_from_sound cfg (some (codes "x.y.z")) none (codes "r") 100 [] a_proof proof_run

-- No nonce has ever been made.
accept_nonce_any_example :
    accept_nonce cfg none a_proof (codes "r") 100 [] ≡ (ok (some a_proof), [])
accept_nonce_any_example = accept_nonce_any cfg none a_proof (codes "r") (codes "n") 100 [] refl

get_latest_alive_example :
    (nonce : DpopNonce) × (get (codes "latest") (get_latest cfg (codes "r") 100 []).1 ≡ some nonce)
    × ((get_latest cfg (codes "r") 100 []).0 ≡ nonce.value)
    × (100 ≤ nonce.exp + 15)
get_latest_alive_example = get_latest_alive cfg (codes "r") 100 []
