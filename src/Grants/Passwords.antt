-- ===== src/Grants/Passwords.antt =====
-- The grant of tokens for a password, and of one that is wrong.
use std.Path.{subst}
use rauthy.Base.{
  ℕ, ◌≡◌, inl, inr, refl, sym, ap, ◌∙◌, Option, none, some, ◌∷◌, Str, codes, if◌then◌else◌,
}
use rauthy.ErrorResponse.{
  ok_or-eq-ok, ok-injective, Result, ErrorResponseType, ok, err, and_then-eq-ok, ok_or, map_err,
  Result-cases, >>=-eq-ok, bad_request, unauthorized,
}
use rauthy.Users.{User, check_enabled, check_expired}
use rauthy.Users.Password.{validate_password}
use rauthy.Users.Store.{find_by_email, find, save, store}
use rauthy.Users.Store.Finding.{find-store}
use rauthy.Clients.{Client, validate_flow, validate_origin}
use rauthy.AuthCodes.{TokenAnswer, try_get_client_id_secret, check_secret}
use rauthy.Grants.{
  Config, GrantRequest, World, take_proof, check_password_client, find_active, use_password, reject,
  failed_at, keeping, grant_type_password,
}

-- What the request and its client show.
pub record IsAsked (cfg : Config) (req : GrantRequest) (username password : Str) (client : Client)
    : Type 0 where
  pub named : req.username ≡ some username
  pub given : req.password ≡ some password
  pub secret : Option Str
  pub known :
      (id : Str) × (try_get_client_id_secret cfg.base req.base ≡ ok (id, secret))
      × (cfg.find id ≡ ok client)
  pub checked : check_secret cfg.base client secret ≡ ok tt
  pub flow : validate_flow client (codes "password") ≡ ok tt

check_password_client_sound :
    (cfg : Config) (req : GrantRequest) (username password : Str) (client : Client)
    (origin : Option Str)
    → check_password_client cfg req ≡ ok ((username, password), (client, origin))
    → IsAsked cfg req username password client
unfolding check_password_client
check_password_client_sound cfg req username password client origin h =
    let (n, named, h1) = >>=-eq-ok (ok_or req.username bad_request) _ h in
    let (p, given, h2) = >>=-eq-ok (ok_or req.password bad_request) _ h1 in
    let ((id, secret), decoded, h3) = >>=-eq-ok (try_get_client_id_secret cfg.base req.base) _ h2 in
    let (c, known, h4) = >>=-eq-ok (cfg.find id) _ h3 in
    let (o, _, h5) =
      >>=-eq-ok
        (validate_origin cfg.base.proxy_mode c req.base.origin cfg.base.listen_scheme
          cfg.base.public_url)
        _ h4 in
    let (_, checked, h6) = >>=-eq-ok (check_secret cfg.base c secret) _ h5 in
    let (_, flow, last) = >>=-eq-ok (validate_flow c (codes "password")) _ h6 in
    subst (λ (x : (Str × Str) × (Client × Option Str)). IsAsked cfg req x.0.0 x.0.1 x.1.0)
      (ok-injective last)
      (record {
        named = ok_or-eq-ok req.username bad_request named;
        given = ok_or-eq-ok req.password bad_request given;
        secret = secret;
        known = (id, decoded, known);
        checked = checked;
        flow = flow;
      })

map_err-eq-ok {ℓ} :
    {A : Type ℓ} (r : Result A) (e : ErrorResponseType) {a : A} → map_err r e ≡ ok a → r ≡ ok a
map_err-eq-ok (ok a) e h = h
map_err-eq-ok (err x) e h = cc

-- A user whom the name finds and who can log in.
pub record IsFound (username : Str) (now : ℕ) (w : World) (u : User) : Type 0 where
  pub found : (find_by_email username w.users).0 ≡ ok u
  pub enabled : check_enabled u ≡ ok tt
  pub alive : check_expired u now ≡ ok tt

find_active_sound :
    (username : Str) (now : ℕ) (w : World) (u : User)
    → (find_active username now w).0 ≡ ok u
    → IsFound username now w u
unfolding find_active
find_active_sound username now w u h =
    let (v, found, h1) = >>=-eq-ok (map_err (find_by_email username w.users).0 unauthorized) _ h in
    let (_, enabled, h2) = >>=-eq-ok (check_enabled v) _ h1 in
    let (_, alive, last) = >>=-eq-ok (check_expired v now) _ h2 in
    subst (IsFound username now w) (ok-injective last) (record {
      found = map_err-eq-ok (find_by_email username w.users).0 unauthorized found;
      enabled = enabled;
      alive = alive;
    })

reject_fails {ℓ} :
    {A : Type ℓ} (e : ErrorResponseType) (now : ℕ) (u : User) (w : World) (a : A)
    → (reject e now u w).0 ≡ ok a
    → ⊥
unfolding reject
reject_fails e now u w a h =
    let (_, _, opened) = and_then-eq-ok (keeping w (save (failed_at now u) none now w.users)) _ h in
    cc (h, ap (λ (r : Result _ × World). r.0) opened)

use_password_sound :
    (cfg : Config) (client : Client) (fp : Option Str) (password : Str) (now : ℕ) (u : User)
    (w : World) (ts : Str)
    → (use_password cfg client fp password now u w).0 ≡ ok ts
    → (validate_password cfg.hasher u now password).0 ≡ ok tt
unfolding use_password
use_password_sound cfg client fp password now u w ts =
    let w' : World = record w {
      resets =
          if (validate_password cfg.hasher u now password).1 then u.id ∷ w.resets else w.resets;
    } in
    elim (Result-cases (validate_password cfg.hasher u now password).0) [
      | inl (_, right) ↦ (λ h. right)
      | inr (e, wrong) ↦ rw (wrong, use_password) (λ h. absurd (reject_fails e now u w' ts h))
    ]

-- What a granted request has shown: the client's part, and the user's with the password.
pub record IsGranted (cfg : Config) (req : GrantRequest) (now : ℕ) (w : World) : Type 0 where
  pub username : Str
  pub password : Str
  pub client : Client
  pub asked : IsAsked cfg req username password client
  pub user : User
  pub found : IsFound username now w user
  pub right : (validate_password cfg.hasher user now password).0 ≡ ok tt

found_before :
    (cfg : Config) (req : GrantRequest) (origin : Option Str) (random username : Str) (now : ℕ)
    (w : World) (u : User)
    → IsFound username now (take_proof cfg req origin random now w).1 u
    → IsFound username now w u
unfolding take_proof
found_before cfg req origin random username now w u f = record {
  found = f.found;
  enabled = f.enabled;
  alive = f.alive;
}

-- Tokens for a password are given only where the request names a user and a password, the client is
-- known, has its secret where it is confidential, and allows the flow, and the name finds a user who is
-- enabled, has not expired, and whose password it is.
pub grant_type_password_sound :
    (cfg : Config) (req : GrantRequest) (random : Str) (now : ℕ) (w : World) (answer : TokenAnswer)
    → (grant_type_password cfg req random now w).0 ≡ ok answer
    → IsGranted cfg req now w
unfolding grant_type_password
grant_type_password_sound cfg req random now w answer h =
    let (((username, password), (client, origin)), checked, o1) =
      and_then-eq-ok (check_password_client cfg req, w) _ h in
    let h1 = sym (ap (λ (r : Result TokenAnswer × World). r.0) o1) ∙ h in
    let w1 = (take_proof cfg req origin random now w).1 in
    let ((fp, nonce), _, o2) = and_then-eq-ok (take_proof cfg req origin random now w) _ h1 in
    let h2 = sym (ap (λ (r : Result TokenAnswer × World). r.0) o2) ∙ h1 in
    let (u, active, o3) = and_then-eq-ok (find_active username now w1) _ h2 in
    let h3 = sym (ap (λ (r : Result TokenAnswer × World). r.0) o3) ∙ h2 in
    let w2 = (find_active username now w1).1 in
    let (ts, used, _) = and_then-eq-ok (use_password cfg client fp password now u w2) _ h3 in
    record {
      username = username;
      password = password;
      client = client;
      asked = check_password_client_sound cfg req username password client origin checked;
      user = u;
      found =
          found_before cfg req origin random username now w u
            (find_active_sound username now w1 u active);
      right = use_password_sound cfg client fp password now u w2 ts used;
    }

reject_noted :
    (e : ErrorResponseType) (now : ℕ) (u : User) (w : World)
    → (store (failed_at now u) none now w.users).0 ≡ ok tt
    → reject {A = Str} e now u w
      ≡ (err e, record w { users = (store (failed_at now u) none now w.users).1 })
unfolding reject save
reject_noted e now u w saved = rw (saved, reject, save) refl

-- After a wrong password the error of the check is the answer, and the user is found with one more failed
-- login, if the user can be saved.
pub use_password-counts :
    (cfg : Config) (client : Client) (fp : Option Str) (password : Str) (now : ℕ) (u : User)
    (w : World) (e : ErrorResponseType)
    → (validate_password cfg.hasher u now password).0 ≡ err e
    → (store (failed_at now u) none now w.users).0 ≡ ok tt
    → ((use_password cfg client fp password now u w).0 ≡ err e)
      × ((find u.id (use_password cfg client fp password now u w).1.users).0 ≡ ok (failed_at now u))
unfolding use_password
use_password-counts cfg client fp password now u w e wrong saved =
    let w' : World = record w {
      resets =
          if (validate_password cfg.hasher u now password).1 then u.id ∷ w.resets else w.resets;
    } in
    let noted = reject_noted e now u w' saved in
    rw (wrong, use_password)
      (
        ap (λ (r : Result Str × World). r.0) noted,
        ap (λ (r : Result Str × World). (find u.id r.1.users).0) noted
            ∙ (find-store (failed_at now u) none now w.users saved).0,
      )
