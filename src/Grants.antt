-- ===== src/Grants.antt =====
-- The grants `client_credentials`, `password` and `refresh_token` in rauthy-service/src/auth.rs. Building a
-- token set and hashing are parameters; of the database and the caches each grant takes what it works on.
pub mod Sound
pub mod Passwords
pub mod Tests
use rauthy.Base.{
  ℕ, ◌+◌, Bool, true, false, not, Option, none, some, List, [], ◌∷◌, is_some, unwrap_or, Str, codes,
  if◌then◌else◌,
}
use rauthy.Base.Table.{Table, put}
use rauthy.ErrorResponse.{
  Result, ErrorResponseType, ok, err, ◌>>=◌, ◌>>◌, and_then, ensure, ok_or, map_err, bad_request,
  unauthorized,
}
use rauthy.Users.{User, check_enabled, check_expired}
use rauthy.Users.Password.{Hasher, validate_password}
use rauthy.Users.Store.{UserStore, find_by_email, save}
use rauthy.Clients
use rauthy.Clients.{Client, validate_origin, validate_flow, is_dynamic}
use rauthy.Clients.Store.{ClientDyn}
use rauthy.Clients.Store.Dynamic.{update_used}
use rauthy.Dpop.{DpopNonce, opt_validated_from}
use rauthy.AuthCodes
use rauthy.AuthCodes.{
  TokenRequest, TokenAnswer, try_get_client_id_secret, check_secret, proof_parts,
}
use rauthy.RefreshTokens
use rauthy.RefreshTokens.{validate_refresh_token}

pub record Config : Type 0 where
  pub base : AuthCodes.Config
  pub hasher : Hasher
  -- `User::is_argon2_uptodate`
  pub is_argon2_uptodate : Str → Result Bool
  -- `Client::find`
  pub find : Str → Result Client
  pub for_client_credentials : Client → Option Str → Result Str
  pub from_user : User → Client → Option Str → Result Str

-- The fields of a `TokenRequest` that only these grants read.
pub record GrantRequest : Type 0 where
  pub base : TokenRequest
  pub username : Option Str
  pub password : Option Str
  pub refresh_token : Option Str

pub record World : Type 0 where
  pub users : UserStore
  pub nonces : Table DpopNonce
  pub clients_dyn : Table ClientDyn
  pub resets : List Str

-- The checks of a client that asks for tokens for itself.
unfoldable pub check_credentials : Config → GrantRequest → Result (Client × Option Str)
unfolding try_get_client_id_secret validate_flow validate_origin
check_credentials cfg req = do
  ensure (is_some req.base.client_secret) bad_request
  (client_id, client_secret) ← try_get_client_id_secret cfg.base req.base
  client ← cfg.find client_id
  ensure client.confidential bad_request
  ensure client.enabled bad_request
  secret ← ok_or client_secret bad_request
  Clients.validate_secret cfg.base.decrypt client secret
  validate_flow client (codes "client_credentials")
  origin ←
      validate_origin cfg.base.proxy_mode client req.base.origin cfg.base.listen_scheme
        cfg.base.public_url
  ok (client, origin)

-- The DPoP proof of the request: the fingerprint of its key and its nonce.
unfoldable pub take_proof :
    Config → GrantRequest → Option Str → Str → ℕ → World → Result (Option Str × Option Str) × World
unfolding opt_validated_from proof_parts
take_proof cfg req origin random now w =
    let (proof, nonces) =
      opt_validated_from cfg.base.dpop req.base.dpop origin random now w.nonces in
    (proof_parts cfg.base proof, record w { nonces = nonces })

-- A dynamic client has been used.
unfoldable pub note_used : Client → ℕ → World → World
unfolding is_dynamic update_used
note_used client now w = record w {
  clients_dyn =
      if is_dynamic client then update_used now client.id w.clients_dyn else w.clients_dyn;
}

abbrev pub answer_of : Option Str → Option Str → Str → TokenAnswer
answer_of nonce origin ts = record { token_set = ts; dpop_nonce = nonce; allow_origin = origin }

-- `grant_type_credentials`; the answer has no header for the origin.
unfoldable pub grant_type_credentials :
    Config → GrantRequest → Str → ℕ → World → Result TokenAnswer × World
unfolding check_credentials take_proof note_used
grant_type_credentials cfg req random now w =
    and_then (check_credentials cfg req, w)
      (λ (client, origin) w.
        and_then (take_proof cfg req origin random now w) (λ (fingerprint, nonce) w'. (
          (do ts ← cfg.for_client_credentials client fingerprint; ok (answer_of nonce none ts)),
          note_used client now w',
        )))

-- What the grant of a password asks of the request and its client.
unfoldable pub check_password_client :
    Config → GrantRequest → Result ((Str × Str) × (Client × Option Str))
unfolding try_get_client_id_secret check_secret validate_flow validate_origin
check_password_client cfg req = do
  username ← ok_or req.username bad_request
  password ← ok_or req.password bad_request
  (client_id, client_secret) ← try_get_client_id_secret cfg.base req.base
  client ← cfg.find client_id
  origin ←
      validate_origin cfg.base.proxy_mode client req.base.origin cfg.base.listen_scheme
        cfg.base.public_url
  check_secret cfg.base client client_secret
  validate_flow client (codes "password")
  ok ((username, password), (client, origin))

-- The hash of the password, renewed where its parameters are old.
unfoldable pub upgraded : Config → ℕ → Str → User → Result User
upgraded cfg now password u = do
  hash ← ok_or u.password bad_request
  uptodate ← cfg.is_argon2_uptodate hash
  let u' : User = record u {
    last_login = some now;
    last_failed_login = none;
    failed_login_attempts = none;
  }
  if uptodate then ok u' else do
    new_hash ← cfg.hasher.hash_password password
    ok (record u' { password = some new_hash })

-- One more failed login.
abbrev pub failed_at : ℕ → User → User
failed_at now u = record u {
  last_failed_login = some now;
  failed_login_attempts = some (unwrap_or u.failed_login_attempts 0 + 1);
}

-- What is left of the state of the users, in the whole state.
abbrev pub keeping {ℓ} : {A : Type ℓ} → World → Result A × UserStore → Result A × World
keeping w (r, users) = (r, record w { users = users })

-- The end of the grant, after the right password.
unfoldable pub accept : Config → Client → Option Str → Str → ℕ → User → World → Result Str × World
unfolding upgraded save note_used
accept cfg client fingerprint password now u w =
    and_then (upgraded cfg now password u, w)
      (λ u' w.
        and_then (keeping w (save u' none now w.users))
          (λ _ w'. (cfg.from_user u' client fingerprint, note_used client now w')))

-- The end of the grant, after a wrong password: the error of the check, once the failure is noted.
unfoldable pub reject {ℓ} : {A : Type ℓ} → ErrorResponseType → ℕ → User → World → Result A × World
unfolding save
reject e now u w =
    and_then (keeping w (save (failed_at now u) none now w.users)) (λ _ w'. (err e, w'))

-- The user that the name finds, if it can log in.
unfoldable pub find_active : Str → ℕ → World → Result User × World
unfolding find_by_email check_enabled check_expired
find_active username now w =
    let (found, users) = find_by_email username w.users in
    (
      (do u ← map_err found unauthorized; check_enabled u; check_expired u now; ok u),
      record w { users = users },
    )

-- The check of the password and what follows.
unfoldable pub use_password :
    Config → Client → Option Str → Str → ℕ → User → World → Result Str × World
unfolding validate_password accept reject
use_password cfg client fingerprint password now u w =
    let (res, sends) = validate_password cfg.hasher u now password in
    let w' : World = record w { resets = if sends then u.id ∷ w.resets else w.resets } in
    elim res [ err e ↦ reject e now u w' | ok _ ↦ accept cfg client fingerprint password now u w' ]

unfoldable pub grant_type_password :
    Config → GrantRequest → Str → ℕ → World → Result TokenAnswer × World
unfolding check_password_client take_proof find_active use_password
grant_type_password cfg req random now w =
    and_then (check_password_client cfg req, w)
      (λ ((username, password), (client, origin)) w.
        and_then (take_proof cfg req origin random now w) (λ (fingerprint, nonce) w1.
          and_then (find_active username now w1) (λ u w2.
            and_then (use_password cfg client fingerprint password now u w2)
              (λ ts w3. (ok (answer_of nonce origin ts), w3)))))

-- What the grant of a refresh token asks of the request and its client.
unfoldable pub check_refresh_client : Config → GrantRequest → Result (Str × (Client × Option Str))
unfolding try_get_client_id_secret check_secret validate_flow validate_origin
check_refresh_client cfg req = do
  refresh_token ← ok_or req.refresh_token bad_request
  (client_id, client_secret) ← try_get_client_id_secret cfg.base req.base
  client ← cfg.base.find_client client_id
  origin ←
      validate_origin cfg.base.proxy_mode client req.base.origin cfg.base.listen_scheme
        cfg.base.public_url
  check_secret cfg.base client client_secret
  validate_flow client (codes "refresh_token")
  ok (refresh_token, (client, origin))

-- `grant_type_refresh`
unfoldable pub grant_type_refresh :
    Config
    → RefreshTokens.Config
    → GrantRequest
    → Str
    → ℕ
    → RefreshTokens.World
    → Result TokenAnswer × RefreshTokens.World
unfolding check_refresh_client validate_refresh_token
grant_type_refresh cfg refresh req random now w =
    and_then (check_refresh_client cfg req, w)
      (λ (token, (client, origin)) w.
        and_then
          (validate_refresh_token refresh (some client) token
            (record { origin = req.base.origin; dpop = req.base.dpop }) random now w)
          (λ (ts, nonce) w'. (ok (answer_of nonce origin ts), w')))
