-- ===== src/AuthCodes/Redeem.antt =====
-- What it takes to redeem an authorization code, and that it is redeemed once at most.
use std.Path.{subst}
use rauthy.Base.{
  true, refl, if◌then◌else◌, ℕ, ◌≤◌, ◌≡◌, ◌≢◌, ◌⊎◌, sym, ap, ◌∙◌, inl, inr, Option, none, some,
  arith, ltb, Str, codes, str_eq, str_eq_iff, Option-cases, Bool-cases,
}
use rauthy.Base.Table.{get, get-del}
use rauthy.ErrorResponse.{ok, Result-cases}
use rauthy.Users.{User}
use rauthy.Clients.{Client}
use rauthy.Sessions.Store
use rauthy.Dpop.{opt_validated_from}
use rauthy.AuthCodes.Credentials.{IsClient, check_client-IsClient}
use rauthy.AuthCodes.{
  AuthCode, Config, TokenRequest, TokenAnswer, World, check_client, check_verifier, check_code,
  tokens_for, update_session, updated_session, finish, redeem, proof_parts, grant_type_code, delete,
  find,
}

-- The verifier fits the challenge of the code (RFC 7636): it is the challenge, or hashes to it.
abbrev pub FitsChallenge : Config → AuthCode → Option Str → Type 0
FitsChallenge cfg code verifier =
    (challenge : Str)
    → code.challenge ≡ some challenge
    → (v : Str) × (verifier ≡ some v)
      × (((code.challenge_method ≡ some (codes "plain")) × (challenge ≡ v))
          ⊎ (challenge ≡ cfg.sha256_base64 v))

check_verifier_sound :
    (cfg : Config) (code : AuthCode) (verifier : Option Str)
    → check_verifier cfg code verifier ≡ ok tt
    → FitsChallenge cfg code verifier
unfolding check_verifier
check_verifier_sound cfg code verifier h challenge e = elim (Option-cases verifier) [
  | inl missing ↦ absurd (ground arith)
  | inr (v, given) ↦ elim (Option-cases code.challenge_method) [
    | inl no_method ↦ absurd (ground arith)
    | inr (method, m) ↦ elim (Bool-cases (str_eq method (codes "plain"))) [
      | inl plain ↦ (
        v,
        given,
        inl (
          ground (arith, str_eq_iff method (codes "plain")),
          ground (arith, str_eq_iff challenge v),
        ),
      )
      | inr hashed ↦ (v, given, inr (ground (arith, str_eq_iff challenge (cfg.sha256_base64 v))))
    ]
  ]
]

-- What a code that is redeemed has been checked for.
pub record IsRedeemable (cfg : Config) (req : TokenRequest) (now : ℕ) (w : World) (idx : Str)
    (code : AuthCode) : Type 0 where
  pub cached : get idx w.codes ≡ some code
  pub alive : now ≤ code.exp
  pub client : (found : Client × Option Str) × IsClient cfg req code.client_id found.0 found.1
  pub verifier : FitsChallenge cfg code req.code_verifier

check_code_sound :
    (cfg : Config) (code : AuthCode) (client_id : Str) (verifier : Option Str) (now : ℕ)
    → check_code cfg code client_id verifier now ≡ ok tt
    → (now ≤ code.exp) × (code.client_id ≡ client_id) × FitsChallenge cfg code verifier
unfolding check_code
check_code_sound cfg code client_id verifier now h =
    elim (Bool-cases (str_eq code.client_id client_id)) [
      | inr other ↦ absurd (ground arith)
      | inl own ↦ elim (Bool-cases (ltb code.exp now)) [
        | inl dead ↦ absurd (ground arith)
        | inr alive ↦ (
          ground arith,
          (str_eq_iff code.client_id client_id).0 own,
          check_verifier_sound cfg code verifier (ground arith),
        )
      ]
    ]

-- What is left of `tokens_for` once the code passed its checks.
tokens_for-code :
    (cfg : Config) (idx client_id : Str) (client : Client) (fp verifier : Option Str) (now : ℕ)
    (w : World) (code c : AuthCode) (user : User) (ts : Str)
    → get idx w.codes ≡ some c
    → check_code cfg c client_id verifier now ≡ ok tt
    → tokens_for cfg idx client_id client fp verifier now w ≡ ok (code, (user, ts))
    → c ≡ code
unfolding tokens_for find
tokens_for-code cfg idx client_id client fp verifier now w code c user ts cached checked h =
    elim (Option-cases (get c.user_id w.users)) [
      | inl unknown ↦ absurd (ground arith)
      | inr (u, known) ↦ elim (Result-cases (cfg.from_user u client fp c.nonce c.scopes)) [
        | inr (e, failed) ↦ absurd (ground arith)
        | inl (t, built) ↦ ground arith
      ]
    ]

tokens_for_sound :
    (cfg : Config) (idx client_id : Str) (client : Client) (fp verifier : Option Str) (now : ℕ)
    (w : World) (code : AuthCode) (user : User) (ts : Str)
    → tokens_for cfg idx client_id client fp verifier now w ≡ ok (code, (user, ts))
    → (get idx w.codes ≡ some code) × (check_code cfg code client_id verifier now ≡ ok tt)
unfolding tokens_for find
tokens_for_sound cfg idx client_id client fp verifier now w code user ts h =
    elim (Option-cases (get idx w.codes)) [
      | inl missing ↦ absurd (ground arith)
      | inr (c, cached) ↦ elim (Result-cases (check_code cfg c client_id verifier now)) [
        | inr (e, refused) ↦ absurd (ground arith)
        | inl (t, checked) ↦
            let same =
              tokens_for-code cfg idx client_id client fp verifier now w code c user ts cached
                checked h in
            (
              cached ∙ ap some same,
              ap (λ k. check_code cfg k client_id verifier now) (sym same) ∙ checked,
            )
      ]
    ]

update_session-codes :
    (now : ℕ) (code : AuthCode) (user : User) (w : World)
    → (update_session now code user w).0 ≡ ok tt
    → (update_session now code user w).1.codes ≡ w.codes
unfolding update_session
update_session-codes now code user w h = elim (Option-cases code.session_id) [
  | inl anonymous ↦ ground arith
  | inr (sid, given) ↦ elim (Result-cases (Store.find sid w.sessions).0) [
    | inr (e, missing) ↦ absurd (ground arith)
    | inl (s, found) ↦ elim (Result-cases (updated_session s now user)) [
      | inr (e, expired) ↦ absurd (ground arith)
      | inl (s', updated) ↦ ground arith
    ]
  ]
]

redeem_sound :
    (cfg : Config) (idx client_id : Str) (client : Client) (fp verifier : Option Str) (now : ℕ)
    (w : World) (ts : Str)
    → (redeem cfg idx client_id client fp verifier now w).0 ≡ ok ts
    → (code : AuthCode) × (get idx w.codes ≡ some code)
      × (now ≤ code.exp)
      × (code.client_id ≡ client_id)
      × FitsChallenge cfg code verifier
      × ((redeem cfg idx client_id client fp verifier now w).1.codes ≡ delete code w.codes)
unfolding redeem finish delete
redeem_sound cfg idx client_id client fp verifier now w ts h =
    elim (Result-cases (tokens_for cfg idx client_id client fp verifier now w)) [
      | inr (e, failed) ↦ absurd (ground arith)
      | inl ((code, (user, t)), built) ↦ elim (Result-cases (update_session now code user w).0) [
        | inr (e, failed) ↦ absurd (ground arith)
        | inl (u, updated) ↦
            let (cached, checked) =
              tokens_for_sound cfg idx client_id client fp verifier now w code user t built in
            let (alive, own, fits) = check_code_sound cfg code client_id verifier now checked in
            let kept = update_session-codes now code user w updated in
            (code, cached, alive, own, fits, ground arith)
      ]
    ]

-- Tokens are given only for the code that the request names, where it is in the cache, has not ended,
-- and was issued to a client that the request names, that is known, whose stored secret, if it is
-- confidential, is the one of the request, that allows the origin, and the text of whose flows contains
-- `authorization_code`; and where the verifier is the code's challenge, or hashes to it, if it has one.
-- The code is then no longer in the cache, and every other is as before.
pub grant_type_code-redeems :
    (cfg : Config) (req : TokenRequest) (random : Str) (now : ℕ) (w : World) (answer : TokenAnswer)
    → (grant_type_code cfg req random now w).0 ≡ ok answer
    → (idx : Str) × (code : AuthCode) × (req.code ≡ some idx)
      × IsRedeemable cfg req now w idx code
      × ((key : Str)
          → get key (grant_type_code cfg req random now w).1.codes
            ≡ (if str_eq code.id key then none else get key w.codes))
unfolding grant_type_code delete
grant_type_code-redeems cfg req random now w answer h = elim (Option-cases req.code) [
  | inl missing ↦ absurd (ground arith)
  | inr (idx, asked) ↦ elim (Result-cases (check_client cfg req)) [
    | inr (e, refused) ↦ absurd (ground arith)
    | inl ((client_id, (client, origin)), known) ↦
        let proof = opt_validated_from cfg.dpop req.dpop origin random now w.nonces in
        elim (Result-cases (proof_parts cfg proof.0)) [
          | inr (e, failed) ↦ absurd (ground arith)
          | inl ((fp, value), parts) ↦
              let w' : World = record w { nonces = proof.1 } in
              elim (Result-cases (redeem cfg idx client_id client fp req.code_verifier now w').0) [
                | inr (e, failed) ↦ absurd (ground arith)
                | inl (ts, redeemed) ↦
                    let (code, cached, alive, own, fits, left) =
                      redeem_sound cfg idx client_id client fp req.code_verifier now w' ts
                        redeemed in
                    (
                      idx,
                      code,
                      asked,
                      record {
                        cached = cached;
                        alive = alive;
                        client = (
                          (client, origin),
                          subst (λ id. IsClient cfg req id client origin) (sym own)
                              (check_client-IsClient cfg req known),
                        );
                        verifier = fits;
                      },
                      λ key. ground (arith, get-del key code.id w.codes),
                    )
              ]
        ]
  ]
]

-- Where every code in the cache stands under its id: after a code has been redeemed, no request with
-- that code gets tokens, be it with other parameters, of another client or at another time.
pub grant_type_code-once :
    (cfg : Config) (req again : TokenRequest) (random random' : Str) (now later : ℕ) (w : World)
    (answer answer' : TokenAnswer)
    → ((id : Str) (c : AuthCode) → get id w.codes ≡ some c → c.id ≡ id)
    → again.code ≡ req.code
    → (grant_type_code cfg req random now w).0 ≡ ok answer
    → (grant_type_code cfg again random' later (grant_type_code cfg req random now w).1).0
      ≢ ok answer'
grant_type_code-once cfg req again random random' now later w answer answer' own same first second =
    let (idx, code, asked, ready, left) =
      grant_type_code-redeems cfg req random now w answer first in
    let (idx', code', asked', ready', left') =
      grant_type_code-redeems cfg again random' later _ answer' second in
    let same_idx : idx' ≡ idx = ground arith in
    let own_id : str_eq code.id idx ≡ true =
      (str_eq_iff code.id idx).1 (own idx code ready.cached) in
    let gone : get idx (grant_type_code cfg req random now w).1.codes ≡ none =
      left idx ∙ rw (own_id) refl in
    let here = ready'.cached in cc (gone, here, same_idx)
