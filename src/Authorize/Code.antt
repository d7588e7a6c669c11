-- ===== src/Authorize/Code.antt =====
-- The authorization code that a login creates.
use rauthy.Base.{ℕ, ◌+◌, ◌≡◌, refl, some, Str, is_some, if◌then◌else◌}
use rauthy.Users.{User, has_webauthn_enabled}
use rauthy.Sessions.{Session}
use rauthy.Clients.{Client, sanitize_login_scopes}
use rauthy.AuthCodes
use rauthy.AuthCodes.{AuthCode}
use rauthy.Authorize.{Config, LoginRequest, new_code, code_lifetime}

-- How long a code lives: a user with a passkey has the time for it on top.
abbrev pub lifetime_for : Config → Client → User → ℕ
lifetime_for cfg c u =
    if is_some u.webauthn_user_id
    then c.auth_code_lifetime + cfg.webauthn_req_exp
    else c.auth_code_lifetime

-- The code is of this user, client and session, with what the login asks for, and ends in time.
pub record IsCodeOf (cfg : Config) (req : LoginRequest) (session : Session) (u : User) (c : Client)
    (id : Str) (now : ℕ) (code : AuthCode) : Type 0 where
  pub own_id : code.id ≡ id
  pub of_user : code.user_id ≡ u.id
  pub of_client : code.client_id ≡ c.id
  pub of_session : code.session_id ≡ some session.id
  pub challenge : code.challenge ≡ req.code_challenge
  pub challenge_method : code.challenge_method ≡ req.code_challenge_method
  pub nonce : code.nonce ≡ req.nonce
  pub scopes : code.scopes ≡ sanitize_login_scopes c req.scopes
  pub ends : code.exp ≡ now + lifetime_for cfg c u

pub new_code-IsCodeOf :
    (cfg : Config) (req : LoginRequest) (session : Session) (u : User) (c : Client) (id : Str)
    (now : ℕ)
    → IsCodeOf cfg req session u c id now (new_code cfg req session u c id now)
unfolding new_code code_lifetime AuthCodes.new has_webauthn_enabled
new_code-IsCodeOf cfg req session u c id now = record {
  own_id = refl;
  of_user = refl;
  of_client = refl;
  of_session = refl;
  challenge = refl;
  challenge_method = refl;
  nonce = refl;
  scopes = refl;
  ends = refl;
}
