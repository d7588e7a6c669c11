-- ===== src/Dpop.antt =====
-- rauthy-models/src/entity/dpop_proof.rs: the DPoP proof of a token request, and the nonces for it, which
-- live in a cache. Decoding base64 and JSON, and the checks of a public key and of a signature, are
-- parameters. Times are in seconds; the message of a failed validation is left out.
pub mod Validity
pub mod Nonces
pub mod Tests
use rauthy.Base.{
  ℕ, ◌+◌, Bool, true, false, not, ◌&&◌, ◌||◌, Option, none, some, List, [], ◌∷◌, ltb, is_some, Str,
  codes, str_eq, split_once, if◌then◌else◌,
}
use rauthy.Base.Table.{Table, get, put}
use rauthy.ErrorResponse.{Result, ok, err, ◌>>=◌, ◌>>◌, ensure, ok_or, is_ok, dpop, use_dpop_nonce}

pub record DpopNonce : Type 0 where
  pub exp : ℕ
  pub value : Str

pub record PublicKey : Type 0 where
  pub alg : Option Str
  pub key : Str

pub record DpopHeader : Type 0 where
  pub typ : Str
  pub alg : Str
  pub jwk : PublicKey
  pub kid : Option Str

pub record DpopClaims : Type 0 where
  pub jti : Str
  pub htm : Str
  pub htu : Str
  pub iat : ℕ
  pub nonce : Option Str

pub record DpopProof : Type 0 where
  pub header : DpopHeader
  pub claims : DpopClaims
  pub signature : Str

-- The settings `DPOP_NONCE_EXP`, `DPOP_FORCE_NONCE` and `DPOP_TOKEN_ENDPOINT`, and the parameters.
pub record Config : Type 0 where
  pub nonce_exp : ℕ
  pub force_nonce : Bool
  pub token_endpoint : Str
  pub is_token_68 : Str → Bool
  pub decode_header : Str → Result DpopHeader
  pub decode_claims : Str → Result DpopClaims
  pub decode_signature : Str → Result Str
  pub validate_self : PublicKey → Result (Unit {0})
  pub validate_token_signature : PublicKey → Str → Result (Unit {0})
  pub fingerprint : PublicKey → Result Str

-- `DPoPNonce::new_value`, of a random value: it is cached under `latest` and under itself.
unfoldable pub new_value : Config → Str → ℕ → Table DpopNonce → Str × Table DpopNonce
new_value cfg random now cache =
    let nonce : DpopNonce = record { exp = now + cfg.nonce_exp; value = random } in
    (nonce.value, put nonce.value nonce (put (codes "latest") nonce cache))

-- What the macro `cache_get!` gives: no entry is not an error.
abbrev pub cache_get : Str → Table DpopNonce → Result (Option DpopNonce)
cache_get key cache = ok (get key cache)

-- `DPoPNonce::is_valid`
unfoldable pub is_valid : Str → Table DpopNonce → Bool
is_valid value cache = is_ok (cache_get value cache)

-- `DPoPNonce::get_latest`; `exp < now - 15` is written without `-`.
unfoldable pub get_latest : Config → Str → ℕ → Table DpopNonce → Str × Table DpopNonce
unfolding new_value
get_latest cfg random now cache = elim (get (codes "latest") cache) [
  | none ↦ new_value cfg random now cache
  | some nonce ↦
      if ltb (nonce.exp + 15) now then new_value cfg random now cache else (nonce.value, cache)
]

unfoldable pub jwk_fingerprint : Config → DpopProof → Result Str
jwk_fingerprint cfg proof = cfg.fingerprint proof.header.jwk

abbrev with_alg : DpopHeader → DpopHeader
with_alg h = elim h.jwk.alg [
  | none ↦ record h { jwk = record { alg = some h.alg; key = h.jwk.key } }
  | some _ ↦ h
]

-- `DPoPProof::try_from_str`
unfoldable pub try_from_str : Config → Option Str → Str → Result DpopProof
try_from_str cfg origin value = do
  (head, rest) ← ok_or (split_once b'.' value) (dpop origin)
  header ← cfg.decode_header head
  (body, sig) ← ok_or (split_once b'.' rest) (dpop origin)
  claims ← cfg.decode_claims body
  signature ← cfg.decode_signature sig
  ok (record { header = with_alg header; claims = claims; signature = signature })

-- `DPoPProof::validate`
unfoldable pub validate : Config → DpopProof → Str → ℕ → Bool
validate cfg proof raw_token now =
    if not (str_eq proof.header.typ (codes "dpop+jwt"))
    then false
    else if not (is_ok (cfg.validate_self proof.header.jwk))
    then false
    else if not (is_ok (cfg.validate_token_signature proof.header.jwk raw_token))
    then false
    else if not (str_eq proof.claims.htm (codes "POST"))
    then false
    else if not (str_eq proof.claims.htu cfg.token_endpoint)
    then false
    else if ltb (proof.claims.iat + 60) now || ltb now proof.claims.iat
    then false
    else true

-- `DPoPProof::validate_nonce`: a nonce to use instead, if there is none that is valid.
unfoldable pub validate_nonce :
    Config → DpopProof → Str → ℕ → Table DpopNonce → Option Str × Table DpopNonce
unfolding is_valid get_latest
validate_nonce cfg proof random now cache =
    let (latest, cache') = get_latest cfg random now cache in
    elim proof.claims.nonce [
      | some nonce ↦ if not (is_valid nonce cache) then (some latest, cache') else (none, cache)
      | none ↦ if cfg.force_nonce then (some latest, cache') else (none, cache)
    ]

-- The last test of `opt_validated_from`.
unfoldable pub accept_nonce :
    Config
    → Option Str
    → DpopProof
    → Str
    → ℕ
    → Table DpopNonce
    → Result (Option DpopProof) × Table DpopNonce
unfolding validate_nonce
accept_nonce cfg origin proof random now cache =
    let (refused, cache') = validate_nonce cfg proof random now cache in
    (
      elim refused [ none ↦ ok (some proof) | some nonce ↦ err (use_dpop_nonce origin nonce) ],
      cache',
    )

-- The tests of `opt_validated_from` on the header's format and content.
unfoldable pub parse_valid : Config → Option Str → Str → ℕ → Result DpopProof
unfolding try_from_str validate
parse_valid cfg origin raw now = do
  ensure (cfg.is_token_68 raw) (dpop origin)
  proof ← try_from_str cfg origin raw
  ensure (validate cfg proof raw now) (dpop origin)
  ok proof

-- `DPoPProof::opt_validated_from`, of the value of the header `DPoP`.
unfoldable pub opt_validated_from :
    Config
    → Option Str
    → Option Str
    → Str
    → ℕ
    → Table DpopNonce
    → Result (Option DpopProof) × Table DpopNonce
unfolding parse_valid accept_nonce
opt_validated_from cfg header origin random now cache = elim header [
  | none ↦ (ok none, cache)
  | some raw ↦ elim (parse_valid cfg origin raw now) [
    | err e ↦ (err e, cache)
    | ok proof ↦ accept_nonce cfg origin proof random now cache
  ]
]
