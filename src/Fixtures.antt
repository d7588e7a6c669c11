-- ===== src/Fixtures.antt =====
-- A user, a client, a session and an API key, which the tests share.
use rauthy.Base.{true, false, none, some, [], ◌∷◌, codes}
use rauthy.Users.{User}
use rauthy.Clients.{Client}
use rauthy.Sessions.{Session, auth}
use rauthy.ApiKeys.{ApiKey, clients, read}

abbrev pub a_user : User
a_user = record {
  id = codes "u";
  email = codes "u@x";
  given_name = codes "U";
  family_name = codes "X";
  password = some (codes "p");
  roles = codes "dev";
  groups = none;
  enabled = true;
  email_verified = true;
  password_expires = none;
  created_at = 0;
  last_login = none;
  last_failed_login = none;
  failed_login_attempts = none;
  language = codes "en";
  webauthn_user_id = none;
  user_expires = none;
  auth_provider_id = none;
  federation_uid = none;
}

abbrev pub a_client : Client
a_client = record {
  id = codes "app";
  name = none;
  enabled = true;
  confidential = false;
  secret = none;
  secret_kid = none;
  redirect_uris = codes "https://app/cb";
  post_logout_redirect_uris = none;
  allowed_origins = none;
  flows_enabled = codes "authorization_code";
  access_token_alg = codes "EdDSA";
  id_token_alg = codes "EdDSA";
  refresh_token = false;
  auth_code_lifetime = 60;
  access_token_lifetime = 1800;
  scopes = codes "openid";
  default_scopes = codes "openid";
  challenge = some (codes "S256");
  force_mfa = false;
  client_uri = none;
  contacts = none;
}

abbrev pub a_session : Session
a_session = record {
  id = codes "s";
  csrf_token = codes "t";
  user_id = some (codes "u");
  roles = some (codes "dev");
  groups = none;
  is_mfa = false;
  state = auth;
  exp = 500;
  last_seen = 90;
  remote_ip = some (codes "ip");
}

abbrev pub a_key : ApiKey
a_key = record {
  name = codes "k";
  secret = codes "hold";
  created = 0;
  expires = none;
  access = record { group = clients; access_rights = read ∷ [] } ∷ [];
}
