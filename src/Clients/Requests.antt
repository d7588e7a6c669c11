-- ===== src/Clients/Requests.antt =====
-- Which redirect URIs, secrets and challenges of a request a client accepts.

use rauthy.Base.{
  ◌≡◌, ◌↔◌, ◌⊎◌, refl, inl, inr, true, some, List, [], ◌∷◌, ◌++◌, arith, Str, codes, any,
  split_once, starts_with, ends_with, str_eq, str_eq_iff, Option-cases, Bool-cases,
}
use rauthy.Base.Csv.{
  Free, starts_with_sound, starts_with_append, split_once_sound, split_once_of_Free, contains-nil,
}
use rauthy.ErrorResponse.{Result, ok, Result-cases}
use rauthy.Clients.{
  Client, uri_matches, get_redirect_uris, validate_redirect_uri, validate_code_challenge,
  validate_challenge_method, validate_secret,
}

-- A URI is one that the client has, or it continues what stands before the first `*` of one that ends
-- with a `*`.
pub data Covers (redirect : Str) : Str → Type 0 where
  exact : {uri : Str} → uri ≡ redirect → Covers redirect uri
  wildcard :
      {uri : Str} (start rest more : Str)
      → ends_with uri (codes "*") ≡ true
      → Free b'*' start
      → uri ≡ start ++ b'*' ∷ rest
      → redirect ≡ start ++ more
      → Covers redirect uri

uri_matches-Covers : (redirect uri : Str) → uri_matches redirect uri ≡ true → Covers redirect uri
unfolding uri_matches
uri_matches-Covers redirect uri h = elim (Bool-cases (str_eq uri redirect)) [
  | inl same ↦ exact ((str_eq_iff uri redirect).0 same)
  | inr other ↦ elim (Option-cases (split_once b'*' uri)) [
    | inl no_star ↦ absurd (ground arith)
    | inr ((start, rest), parts) ↦
        let (free, e) = split_once_sound b'*' uri start rest parts in
        let (more, e') = starts_with_sound redirect start (ground arith) in
        wildcard start rest more (ground arith) free e e'
  ]
]

Covers-uri_matches : (redirect uri : Str) → Covers redirect uri → uri_matches redirect uri ≡ true
unfolding uri_matches
Covers-uri_matches redirect uri (exact e) = ground (arith, str_eq_iff uri redirect)
Covers-uri_matches redirect uri (wildcard start rest more star free e e') =
    let parts : split_once b'*' uri ≡ some (start, rest) =
      rw e (split_once_of_Free b'*' start rest free) in
    let begins : starts_with redirect start ≡ true = rw e' (starts_with_append start more) in
    ground arith

-- Some member of the list satisfies the predicate.
pub data Some (P : Str → Type 0) : List Str → Type 0 where
  here : {x : Str} {xs : List Str} → P x → Some P (x ∷ xs)
  there : {x : Str} {xs : List Str} → Some P xs → Some P (x ∷ xs)

any-Some :
    (redirect : Str) (uris : List Str)
    → any (uri_matches redirect) uris ≡ true
    → Some (Covers redirect) uris
any-Some redirect [] h = cc
any-Some redirect (uri ∷ uris) h = elim (Bool-cases (uri_matches redirect uri)) [
  | inl hit ↦ here (uri_matches-Covers redirect uri hit)
  | inr miss ↦ there (any-Some redirect uris (ground arith))
]

Some-any :
    (redirect : Str) (uris : List Str)
    → Some (Covers redirect) uris
    → any (uri_matches redirect) uris ≡ true
Some-any redirect [] s = elim s [ ]
Some-any redirect (uri ∷ uris) (here c) = ground (arith, Covers-uri_matches redirect uri c)
Some-any redirect (uri ∷ uris) (there s) = ground (arith, Some-any redirect uris s)

-- A redirect URI is accepted exactly if one of the client's URIs covers it: it is that URI, or that URI
-- ends with a `*` and what stands before its first `*` begins the redirect URI.
pub validate_redirect_uri_iff :
    (c : Client) (redirect : Str)
    → (validate_redirect_uri c redirect ≡ ok tt) ↔ Some (Covers redirect) (get_redirect_uris c)
unfolding validate_redirect_uri
validate_redirect_uri_iff c redirect = (
  λ h. any-Some redirect (get_redirect_uris c) (ground arith),
  λ s. ground (arith, Some-any redirect (get_redirect_uris c) s),
)

-- With challenges configured, the two checks of a challenge method differ on the empty one only: the
-- login accepts what the other check accepts, and the empty method as well.
pub validate_code_challenge_iff :
    (c : Client) (configured challenge method : Str)
    → c.challenge ≡ some configured
    → (validate_code_challenge c (some challenge) (some method) ≡ ok tt)
      ↔ ((method ≡ []) ⊎ (validate_challenge_method c method ≡ ok tt))
unfolding validate_code_challenge validate_challenge_method
validate_code_challenge_iff c configured challenge [] e =
    (λ h. inl refl, λ h. ground (arith, contains-nil configured))
validate_code_challenge_iff c configured challenge (m ∷ method) e =
    (λ h. inr (ground arith), λ h. ground arith)

-- A client secret is accepted exactly of a confidential client whose stored secret decrypts to it.
pub validate_secret_iff :
    (decrypt : Str → Result Str) (c : Client) (secret : Str)
    → (validate_secret decrypt c secret ≡ ok tt) ↔ (
        (c.confidential ≡ true) × ((enc : Str) × (c.secret ≡ some enc) × (decrypt enc ≡ ok secret)))
unfolding validate_secret
validate_secret_iff decrypt c secret = elim (Option-cases c.secret) [
  | inl missing ↦ (λ h. absurd (ground arith), λ (conf, (enc, e, d)). cc)
  | inr (enc, stored) ↦ elim (Result-cases (decrypt enc)) [
    | inl (clear, d) ↦ (
      λ h. (ground arith, (enc, stored, ground (arith, str_eq_iff clear secret))),
      λ (conf, (enc', e', d')). ground (arith, str_eq_iff clear secret),
    )
    | inr (e, d) ↦ (λ h. absurd (ground arith), λ (conf, (enc', e', d')). absurd (ground arith))
  ]
]
