-- ===== src/Authorize/Sound.antt =====
-- What a login has been through that is granted.
use std.Path.{subst}
use rauthy.Base.{
  ℕ, ◌≡◌, ◌⊎◌, inl, inr, refl, sym, ap, ◌∙◌, Bool, true, false, Option, none, some, ◌∷◌, arith,
  is_some, Str, str_eq, str_eq_iff, str_eq_refl, Option-cases, Bool-cases, if◌then◌else◌, not,
}
use rauthy.Base.Table.{Table, get, get-put}
use rauthy.ErrorResponse.{
  Result, ErrorResponseType, ok, err, ◌>>=◌, unauthorized, Result-cases, >>=-eq-ok,
}
use rauthy.Users.{User, account_type, passkey, has_webauthn_enabled, check_enabled, check_expired}
use rauthy.Users.Password.{validate_password}
use rauthy.Users.Store.{find_by_email, save}
use rauthy.Sessions.{Session}
use rauthy.Clients.{
  Client, validate_mfa, validate_redirect_uri, validate_code_challenge, validate_origin,
}
use rauthy.AuthCodes
use rauthy.AuthCodes.{AuthCode}
use rauthy.Authorize.Code.{IsCodeOf, new_code-IsCodeOf}
use rauthy.Authorize.{
  Attempt, refused, granted, with_delay, try_then, Config, LoginRequest, World, Fresh, AuthStep,
  kept_cookie, must_provide, check_user, check_password, check_client, new_code, logged_in_at,
  note_login, password_login, issue, granting, log_in_user, authorize, is_passkey_account,
  is_new_account,
}

try_then-granted {ℓ κ ℓs} :
    {A : Type ℓ} {B : Type κ} {S : Type ℓs} (r : Attempt A × S) (next : A → S → Attempt B × S)
    {b : B}
    → (try_then r next).0 ≡ granted b
    → (a : A) × (r.0 ≡ granted a) × (try_then r next ≡ next a r.1)
try_then-granted (refused e d, s) next h = cc
try_then-granted (granted a, s) next h = (a, refl, refl)

with_delay-granted {ℓ} :
    {A : Type ℓ} (r : Result A) (d : Bool) {a : A} → with_delay r d ≡ granted a → r ≡ ok a
with_delay-granted (err e) d h = cc
with_delay-granted (ok a) d h = cc (h)

-- What shows that the login is the user's: the password, a passkey as the only way to log in, or the
-- cookie of a second factor.
pub data Shows (cfg : Config) (req : LoginRequest) (u : User) (now : ℕ) : Type 0 where
  by_password :
      (pwd : Str)
      → req.password ≡ some pwd
      → (validate_password cfg.hasher u now pwd).0 ≡ ok tt
      → Shows cfg req u now
  by_passkey : account_type u ≡ passkey → Shows cfg req u now
  by_cookie : req.mfa_cookie ≡ some u.email → has_webauthn_enabled u ≡ true → Shows cfg req u now

-- The user can log in.
pub record IsActive (u : User) (now : ℕ) : Type 0 where
  pub enabled : check_enabled u ≡ ok tt
  pub alive : check_expired u now ≡ ok tt

two_guards {ℓ} :
    {A : Type ℓ} (a b : Bool) (e e' : ErrorResponseType) (d d' : Bool) (r : Attempt A) {x : A}
    → (if a then refused e d else if b then refused e' d' else r) ≡ granted x
    → (a ≡ false) × (b ≡ false) × (r ≡ granted x)
two_guards true b e e' d d' r h = cc
two_guards false true e e' d d' r h = cc
two_guards false false e e' d d' r h = (refl, refl, h)

check_user_sound :
    (req : LoginRequest) (u : User) (now : ℕ) {x : Unit {0}}
    → check_user req u now ≡ granted x
    → (must_provide req u ≡ false) × IsActive u now
unfolding check_user
check_user_sound req u now h =
    let must = must_provide req u in
    let active : Result (Unit {0}) = check_enabled u >>= (λ _. check_expired u now) in
    let (need_not, _, passed) =
      two_guards must (is_new_account (account_type u)) unauthorized unauthorized false (not must)
        (with_delay active (not must)) h in
    let (_, enabled, alive) =
      >>=-eq-ok (check_enabled u) (λ _. check_expired u now)
        (with_delay-granted active (not must) passed) in
    (need_not, record { enabled = enabled; alive = alive })

kept_cookie_sound :
    (cookie : Option Str) (u : User)
    → is_some (kept_cookie cookie u) ≡ true
    → (cookie ≡ some u.email) × (has_webauthn_enabled u ≡ true)
unfolding kept_cookie
kept_cookie_sound none u h = cc
kept_cookie_sound (some email) u h = elim (Bool-cases (str_eq email u.email)) [
  | inr other ↦ absurd (ground arith)
  | inl same ↦ elim (Bool-cases (has_webauthn_enabled u)) [
    | inr bare ↦ absurd (ground arith)
    | inl factor ↦ (ap some ((str_eq_iff email u.email).0 same), factor)
  ]
]

without_password :
    (cfg : Config) (req : LoginRequest) (u : User) (now : ℕ)
    → must_provide req u ≡ false
    → req.password ≡ none
    → Shows cfg req u now
unfolding must_provide
without_password cfg req u now h no_password =
    elim (Bool-cases (is_passkey_account (account_type u))) [
      | inl only ↦ by_passkey (ground arith)
      | inr other ↦ elim (Bool-cases (is_some (kept_cookie req.mfa_cookie u))) [
        | inr no_cookie ↦ absurd (ground arith)
        | inl kept ↦ let (c, w) = kept_cookie_sound req.mfa_cookie u kept in by_cookie c w
      ]
    ]

-- The user is the one that was found, or the one with the login noted.
abbrev pub IsSame : User → User → ℕ → Type 0
IsSame u u' now = (u' ≡ u) ⊎ (u' ≡ logged_in_at now u)

granted-injective {ℓ} : {A : Type ℓ} {a b : A} → Attempt.granted a ≡ granted b → a ≡ b
granted-injective e = cc (e)

note_login_sound :
    (now : ℕ) (u : User) (w : World) (u' : User) (hashed : Bool)
    → (note_login now u w).0 ≡ granted (u', hashed)
    → (u' ≡ logged_in_at now u) × ((note_login now u w).1.codes ≡ w.codes)
unfolding note_login
note_login_sound now u w u' hashed =
    elim (Result-cases (save (logged_in_at now u) none now w.users).0) [
      | inr (e, failed) ↦ rw (failed, note_login) (λ h. absurd (cc (h)))
      | inl (_, saved) ↦
          rw (saved, note_login)
            (λ h. (sym (ap (λ (p : User × Bool). p.0) (granted-injective h)), refl))
    ]

password_login_sound :
    (cfg : Config) (pwd : Str) (now : ℕ) (u : User) (w : World) (u' : User) (hashed : Bool)
    → (password_login cfg pwd now u w).0 ≡ granted (u', hashed)
    → ((validate_password cfg.hasher u now pwd).0 ≡ ok tt)
      × (u' ≡ logged_in_at now u)
      × ((password_login cfg pwd now u w).1.codes ≡ w.codes)
unfolding password_login
password_login_sound cfg pwd now u w u' hashed =
    let w' : World = record w {
      resets = if (validate_password cfg.hasher u now pwd).1 then u.id ∷ w.resets else w.resets;
    } in
    elim (Result-cases (validate_password cfg.hasher u now pwd).0) [
      | inr (e, wrong) ↦ rw (wrong, password_login) (λ h. absurd (cc (h)))
      | inl (_, right) ↦
          rw (right, password_login)
            (λ h.
              let (noted, codes) = note_login_sound now u w' u' hashed h in (refl, noted, codes))
    ]

-- What the check of the password leaves.
record PasswordChecked (cfg : Config) (req : LoginRequest) (u : User) (now : ℕ) (w : World)
    (u' : User) : Type 0 where
  same : IsSame u u' now
  shown : Shows cfg req u now
  same_codes : (check_password cfg req u now w).1.codes ≡ w.codes

check_password_sound :
    (cfg : Config) (req : LoginRequest) (u : User) (now : ℕ) (w : World) (u' : User) (hashed : Bool)
    → must_provide req u ≡ false
    → (check_password cfg req u now w).0 ≡ granted (u', hashed)
    → PasswordChecked cfg req u now w u'
unfolding check_password
check_password_sound cfg req u now w u' hashed need_not h = elim (Option-cases req.password) [
  | inl no_password ↦
      let opened : check_password cfg req u now w ≡ (granted (u, false), w) =
        rw (no_password, check_password) refl in
      record {
        same = inl (
            sym (
              ap (λ (p : User × Bool). p.0)
                (granted-injective
                  (sym (ap (λ (r : Attempt (User × Bool) × World). r.0) opened) ∙ h))));
        shown = without_password cfg req u now need_not no_password;
        same_codes = ap (λ (r : Attempt (User × Bool) × World). r.1.codes) opened;
      }
  | inr (pwd, given) ↦
      let opened : check_password cfg req u now w ≡ password_login cfg pwd now u w =
        rw (given, check_password) refl in
      let (right, noted, codes) =
        password_login_sound cfg pwd now u w u' hashed
          (sym (ap (λ (r : Attempt (User × Bool) × World). r.0) opened) ∙ h) in
      record {
        same = inr noted;
        shown = by_password pwd given right;
        same_codes = ap (λ (r : Attempt (User × Bool) × World). r.1.codes) opened ∙ codes;
      }
]

ok-injective {ℓ} : {A : Type ℓ} {a b : A} → Result.ok a ≡ ok b → a ≡ b
ok-injective e = cc (e)

-- What the client has been checked for.
pub record IsChecked (cfg : Config) (req : LoginRequest) (u : User) (c : Client)
    (origin : Option Str) : Type 0 where
  pub known : cfg.find_client req.client_id ≡ ok c
  pub factor : validate_mfa c u ≡ ok tt
  pub uri : validate_redirect_uri c req.redirect_uri ≡ ok tt
  pub challenge : validate_code_challenge c req.code_challenge req.code_challenge_method ≡ ok tt
  pub allowed :
      validate_origin cfg.proxy_mode c req.origin cfg.listen_scheme cfg.public_url ≡ ok origin

check_client_sound :
    (cfg : Config) (req : LoginRequest) (u : User) (hashed : Bool) (c : Client)
    (origin : Option Str)
    → check_client cfg req u hashed ≡ granted (c, origin)
    → IsChecked cfg req u c origin
unfolding check_client
check_client_sound cfg req u hashed c origin = elim (Result-cases (cfg.find_client req.client_id)) [
  | inr (e, gone) ↦ rw (gone, check_client) (λ h. absurd (cc (h)))
  | inl (d, found) ↦ elim (Result-cases (validate_mfa d u)) [
    | inr (e, missing) ↦ rw (found, missing, check_client) (λ h. absurd (cc (h)))
    | inl (_, factor) ↦
        rw (found, factor, check_client)
          (λ h.
            let (_, uri, rest) =
              >>=-eq-ok (validate_redirect_uri d req.redirect_uri) _ (with_delay-granted _ _ h) in
            let (_, challenge, rest') =
              >>=-eq-ok (validate_code_challenge d req.code_challenge req.code_challenge_method) _
                rest in
            let (o, allowed, last) =
              >>=-eq-ok
                (validate_origin cfg.proxy_mode d req.origin cfg.listen_scheme cfg.public_url) _
                rest' in
            subst (λ (p : Client × Option Str). IsChecked cfg req u p.0 p.1) (ok-injective last)
              (record {
                known = found;
                factor = factor;
                uri = uri;
                challenge = challenge;
                allowed = allowed;
              }))
  ]
]

issue-codes :
    (cfg : Config) (req : LoginRequest) (session : Session) (fresh : Fresh) (now : ℕ) (u : User)
    (hashed : Bool) (c : Client) (origin : Option Str) (w : World)
    → (issue cfg req session fresh now u hashed c origin w).1.codes
      ≡ AuthCodes.save (new_code cfg req session u c fresh.code_id now) w.codes
unfolding issue
issue-codes cfg req session fresh now u hashed c origin w =
    elim (Bool-cases (has_webauthn_enabled u)) [
      | inl factor ↦ rw (factor, issue) refl
      | inr bare ↦ rw (bare, issue) refl
    ]

get-saved :
    (cfg : Config) (req : LoginRequest) (session : Session) (u : User) (c : Client) (id : Str)
    (now : ℕ) (codes : Table AuthCode)
    → get id (AuthCodes.save (new_code cfg req session u c id now) codes)
      ≡ some (new_code cfg req session u c id now)
unfolding new_code AuthCodes.save AuthCodes.new
get-saved cfg req session u c id now codes =
    get-put id id (new_code cfg req session u c id now) codes ∙ rw (str_eq_refl id) refl

-- A granted login: the user, found by the address, is active and shown to be the one, the client lets the
-- request pass, and the code is saved for this user, client, session and challenge.
pub record IsLogin (cfg : Config) (req : LoginRequest) (session : Session) (fresh : Fresh) (now : ℕ)
    (w : World) (r : Attempt AuthStep × World) : Type 0 where
  pub user : User
  pub found : (find_by_email req.email w.users).0 ≡ ok user
  pub active : IsActive user now
  pub shown : Shows cfg req user now
  pub user' : User
  pub same : IsSame user user' now
  pub client : Client
  pub origin : Option Str
  pub checked : IsChecked cfg req user' client origin
  pub hashed : Bool
  pub before : World
  pub issued : r ≡ granting (issue cfg req session fresh now user' hashed client origin before)
  pub code : AuthCode
  pub saved : get fresh.code_id r.1.codes ≡ some code
  pub made : IsCodeOf cfg req session user' client fresh.code_id now code

log_in_user_sound :
    (cfg : Config) (req : LoginRequest) (session : Session) (fresh : Fresh) (now : ℕ) (u : User)
    (w : World) (step : AuthStep)
    → must_provide req u ≡ false
    → (log_in_user cfg req session fresh now u w).0 ≡ granted step
    → Shows cfg req u now
      × (u' : User) × IsSame u u' now
      × (c : Client) × (origin : Option Str) × IsChecked cfg req u' c origin
      × (hashed : Bool) × (w' : World) × (log_in_user cfg req session fresh now u w
          ≡ granting (issue cfg req session fresh now u' hashed c origin w'))
unfolding log_in_user
log_in_user_sound cfg req session fresh now u w step need_not h =
    let ((u', hashed), first, opened) = try_then-granted (check_password cfg req u now w) _ h in
    let p = check_password_sound cfg req u now w u' hashed need_not first in
    let w' = (check_password cfg req u now w).1 in
    let ((c, origin), second, opened') =
      try_then-granted (check_client cfg req u' hashed, w') _
        (sym (ap (λ (r : Attempt AuthStep × World). r.0) opened) ∙ h) in
    (
      p.shown,
      u',
      p.same,
      c,
      origin,
      check_client_sound cfg req u' hashed c origin second,
      hashed,
      w',
      opened ∙ opened',
    )

-- A login is granted only to a user found by the address who is enabled and has not expired, and who
-- has shown the right password, has a passkey as the only way to log in, or has the cookie of a second
-- factor; the client lets the user, the redirect URI, the challenge and the origin pass; and a code is
-- then in the cache, under the login's new id, that is of this user, client and session, has the
-- challenge and the nonce of the request and the scopes sanitized for the client, and ends after the
-- client's lifetime of a code, with the time for a second factor on top if the user has one.
pub authorize_sound :
    (cfg : Config) (req : LoginRequest) (session : Session) (fresh : Fresh) (now : ℕ) (w : World)
    (step : AuthStep)
    → (authorize cfg req session fresh now w).0 ≡ granted step
    → IsLogin cfg req session fresh now w (authorize cfg req session fresh now w)
unfolding authorize
authorize_sound cfg req session fresh now w step =
    elim (Result-cases (find_by_email req.email w.users).0) [
      | inr (e, unknown) ↦ rw (unknown, authorize) (λ h. absurd (cc (h)))
      | inl (u, found) ↦
          rw (found, authorize)
            (λ h.
              let w' : World = record w { users = (find_by_email req.email w.users).1 } in
              let (_, checked, opened) =
                try_then-granted (check_user req u now, w')
                  (λ _ w''. log_in_user cfg req session fresh now u w'') h in
              let (need_not, active) = check_user_sound req u now checked in
              let (shown, u', same, c, origin, client_checked, hashed, before, last) =
                log_in_user_sound cfg req session fresh now u w' step need_not
                  (sym (ap (λ (r : Attempt AuthStep × World). r.0) opened) ∙ h) in
              record {
                user = u;
                found = found;
                active = active;
                shown = shown;
                user' = u';
                same = same;
                client = c;
                origin = origin;
                checked = client_checked;
                hashed = hashed;
                before = before;
                issued = opened ∙ last;
                code = new_code cfg req session u' c fresh.code_id now;
                made = new_code-IsCodeOf cfg req session u' c fresh.code_id now;
                saved =
                    ap (λ (r : Attempt AuthStep × World). get fresh.code_id r.1.codes)
                      (opened ∙ last)
                    ∙ ap (get fresh.code_id)
                        (issue-codes cfg req session fresh now u' hashed c origin before)
                    ∙ get-saved cfg req session u' c fresh.code_id now before.codes;
              })
    ]
