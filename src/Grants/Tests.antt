-- ===== src/Grants/Tests.antt =====
-- Runs of the grants of client credentials and of a password.
use rauthy.Base.{
  ℕ, ◌≡◌, refl, Bool, true, false, Option, none, some, List, [], ◌∷◌, Str, codes, str_eq,
}
use rauthy.ErrorResponse.{ok, err, unauthorized, bad_request}
use rauthy.Fixtures.{a_user, a_client}
use rauthy.Clients.{Client}
use rauthy.Users.{User}
use rauthy.Users.Password.{validate_password}
use rauthy.Users.Store.{UserStore, pos, find}
use rauthy.AuthCodes.{TokenAnswer}
use rauthy.AuthCodes.Tests
use rauthy.Grants.{
  Config, GrantRequest, World, grant_type_credentials, grant_type_password, use_password, failed_at,
}
use rauthy.Grants.Sound.{IsEntitled, grant_type_credentials_sound}
use rauthy.Grants.Passwords.{IsGranted, grant_type_password_sound, use_password-counts}

abbrev machine : Client
machine = record a_client {
  confidential = true;
  secret = some (codes "sec");
  flows_enabled = codes "client_credentials,password";
}

abbrev cfg : Config
cfg = record {
  base = Tests.cfg;
  hasher = record { hash_password = λ p. ok p; is_match = λ p h. ok (str_eq p h) };
  is_argon2_uptodate = λ _. ok true;
  find = λ _. ok machine;
  for_client_credentials = λ _ _. ok (codes "machine");
  from_user = λ _ _ _. ok (codes "tokens");
}

abbrev request : Option Str → Option Str → GrantRequest
request header password = record {
  base = record {
    code = none;
    client_id = some (codes "app");
    client_secret = elim header [ none ↦ some (codes "sec") | some h ↦ none ];
    code_verifier = none;
    authorization = header;
    origin = none;
    dpop = none;
  };
  username = some (codes "u@x");
  password = password;
  refresh_token = none;
}

abbrev world : World
world = record {
  users = record {
    db = (codes "u", a_user) ∷ [];
    cache_users = [];
    cache_count = some (pos 1);
    sessions = record { db = []; cache_sessions = []; cache_12hr = [] };
    tokens = [];
  };
  nonces = [];
  clients_dyn = [];
  resets = [];
}

abbrev answer : Str → TokenAnswer
answer ts = record { token_set = ts; dpop_nonce = none; allow_origin = none }

credentials_run :
    (grant_type_credentials cfg (request none none) (codes "r") 100 world).0
    ≡ ok (answer (codes "machine"))
unfolding grant_type_credentials rauthy.Clients.validate_secret str_eq
credentials_run = refl

-- With its secret in the header only, a client gets no tokens for itself.
basic_run :
    (grant_type_credentials cfg
      (request (some (codes "Basic app:sec")) none)
      (codes "r")
      100
      world).0
    ≡ err bad_request
unfolding grant_type_credentials
basic_run = refl

password_run :
    (grant_type_password cfg (request none (some (codes "p"))) (codes "r") 100 world).0
    ≡ ok (answer (codes "tokens"))
unfolding grant_type_password rauthy.Clients.validate_secret str_eq rauthy.Base.Table.get
password_run = refl

-- A client that is disabled gets tokens for a password all the same.
disabled_client_run :
    (grant_type_password
      (record cfg { find = λ _. ok (record machine { enabled = false }) })
      (request none (some (codes "p")))
      (codes "r")
      100
      world).0
    ≡ ok (answer (codes "tokens"))
unfolding grant_type_password rauthy.Clients.validate_secret str_eq rauthy.Base.Table.get
disabled_client_run = refl

grant_type_credentials_sound_example :
    (client : Client) × (fingerprint : Option Str) × (ts : Str) × IsEntitled cfg
      (request none none)
      client
    × (cfg.for_client_credentials client fingerprint ≡ ok ts)
    × (codes "machine" ≡ ts)
grant_type_credentials_sound_example =
    grant_type_credentials_sound cfg (request none none) (codes "r") 100 world
      (answer (codes "machine")) credentials_run

grant_type_password_sound_example : IsGranted cfg (request none (some (codes "p"))) 100 world
grant_type_password_sound_example =
    grant_type_password_sound cfg (request none (some (codes "p"))) (codes "r") 100 world
      (answer (codes "tokens")) password_run

use_password-counts_run :
    ((use_password cfg machine none (codes "q") 100 a_user world).0 ≡ err unauthorized)
    × ((find (codes "u") (use_password cfg machine none (codes "q") 100 a_user world).1.users).0
        ≡ ok (failed_at 100 a_user))
unfolding validate_password str_eq rauthy.Users.Store.store rauthy.Base.Table.get
use_password-counts_run =
    use_password-counts cfg machine none (codes "q") 100 a_user world unauthorized refl refl
