-- ===== src/Dpop/Validity.antt =====
-- What a DPoP proof that is accepted has been checked for.
use rauthy.Base.{
  ℕ, ◌+◌, ◌≤◌, ◌≡◌, ◌≢◌, ap, inl, inr, true, Option, none, some, arith, Str, codes, str_eq_iff,
  Option-cases, Bool-cases,
}
use rauthy.Base.Table.{Table}
use rauthy.ErrorResponse.{ok, is_ok, ensure, dpop, >>=-eq-ok, Result-cases}
use rauthy.Dpop.{
  Config, DpopNonce, DpopProof, validate, try_from_str, parse_valid, accept_nonce,
  opt_validated_from, validate_nonce, is_valid,
}

-- The checks of RFC 9449 that `validate` makes.
pub record IsProofAt (cfg : Config) (proof : DpopProof) (raw : Str) (now : ℕ) : Type 0 where
  pub typ : proof.header.typ ≡ codes "dpop+jwt"
  pub key_ok : is_ok (cfg.validate_self proof.header.jwk) ≡ true
  pub signed : is_ok (cfg.validate_token_signature proof.header.jwk raw) ≡ true
  pub method : proof.claims.htm ≡ codes "POST"
  pub uri : proof.claims.htu ≡ cfg.token_endpoint
  pub not_old : now ≤ proof.claims.iat + 60
  pub not_ahead : proof.claims.iat ≤ now

validate-IsProofAt :
    (cfg : Config) (proof : DpopProof) (raw : Str) (now : ℕ)
    → validate cfg proof raw now ≡ true
    → IsProofAt cfg proof raw now
unfolding validate
validate-IsProofAt cfg proof raw now h = record {
  typ = ground (arith, str_eq_iff proof.header.typ (codes "dpop+jwt"));
  key_ok = ground arith;
  signed = ground arith;
  method = ground (arith, str_eq_iff proof.claims.htm (codes "POST"));
  uri = ground (arith, str_eq_iff proof.claims.htu cfg.token_endpoint);
  not_old = ground arith;
  not_ahead = ground arith;
}

parse_valid_sound :
    (cfg : Config) (origin : Option Str) (raw : Str) (now : ℕ) (proof : DpopProof)
    → parse_valid cfg origin raw now ≡ ok proof
    → (try_from_str cfg origin raw ≡ ok proof) × (validate cfg proof raw now ≡ true)
unfolding parse_valid
parse_valid_sound cfg origin raw now proof h =
    let (t, format, h') = >>=-eq-ok (ensure (cfg.is_token_68 raw) (dpop origin)) _ h in
    let (p, parsed, h'') = >>=-eq-ok (try_from_str cfg origin raw) _ h' in
    let (u, valid, done) = >>=-eq-ok (ensure (validate cfg p raw now) (dpop origin)) _ h'' in
    (ground arith, ground arith)

accept_nonce_sound :
    (cfg : Config) (origin : Option Str) (p proof : DpopProof) (random : Str) (now : ℕ)
    (cache : Table DpopNonce)
    → (accept_nonce cfg origin p random now cache).0 ≡ ok (some proof)
    → (p ≡ proof) × (cfg.force_nonce ≡ true → proof.claims.nonce ≢ none)
unfolding accept_nonce validate_nonce is_valid
accept_nonce_sound cfg origin p proof random now cache h = elim (Option-cases p.claims.nonce) [
  | inr (nonce, given) ↦
      let same : p ≡ proof = ground arith in
      (same, λ on missing. cc (given, ap (λ q. q.claims.nonce) same, missing))
  | inl missing ↦ elim (Bool-cases cfg.force_nonce) [
    | inl on ↦ absurd (ground arith)
    | inr off ↦ (ground arith, λ on _. cc (on, off))
  ]
]

-- A DPoP proof that is accepted was read from the header, has the right type, method and URI, a valid
-- key and signature, was issued in the last minute and not in the future, and carries a nonce where one
-- is forced.
pub opt_validated_from_sound :
    (cfg : Config) (header origin : Option Str) (random : Str) (now : ℕ) (cache : Table DpopNonce)
    (proof : DpopProof)
    → (opt_validated_from cfg header origin random now cache).0 ≡ ok (some proof)
    → (raw : Str) × (header ≡ some raw)
      × (try_from_str cfg origin raw ≡ ok proof)
      × IsProofAt cfg proof raw now
      × (cfg.force_nonce ≡ true → proof.claims.nonce ≢ none)
unfolding opt_validated_from
opt_validated_from_sound cfg header origin random now cache proof h = elim (Option-cases header) [
  | inl absent ↦ absurd (ground arith)
  | inr (raw, given) ↦ elim (Result-cases (parse_valid cfg origin raw now)) [
    | inr (e, failed) ↦ absurd (ground arith)
    | inl (p, parsed) ↦
        let accepted : (accept_nonce cfg origin p random now cache).0 ≡ ok (some proof) =
          ground arith in
        let (same, forced) = accept_nonce_sound cfg origin p proof random now cache accepted in
        let (read, valid) = parse_valid_sound cfg origin raw now proof (ground arith) in
        (raw, given, read, validate-IsProofAt cfg proof raw now valid, forced)
  ]
]
