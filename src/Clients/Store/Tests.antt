-- ===== src/Clients/Store/Tests.antt =====
-- Runs of the operations on the table of clients.
use rauthy.Base.{◌≡◌, refl, true, false, none, some, [], ◌∷◌, codes, str_eq, if◌then◌else◌}
use rauthy.Base.Table.{get}
use rauthy.ErrorResponse.{ok, err, forbidden, not_found}
use rauthy.Fixtures.{a_client}
use rauthy.Clients.{Client, is_dynamic}
use rauthy.Clients.Store.{ClientDyn, ClientStore, Config, find, save, delete}
use rauthy.Clients.Store.Coherence.{IsCoherent, find-save, find-delete}
use rauthy.Clients.Store.Dynamic.{Fresh, DynamicClientRequest, create_dynamic, update_dynamic}
use rauthy.Clients.Store.Dynamic.Kept.{update_dynamic_kept}

abbrev cfg : Config
cfg = record {
  enc_key_active = codes "k";
  token_lifetime = 1800;
  secret_auto_rotate = false;
  enable_ephemeral = false;
  is_url = λ _. false;
  ephemeral_from_url = λ _. err not_found;
}

abbrev fresh : Fresh
fresh = record { rand = codes "r"; secret = ok (codes "s"); token = ok (codes "t") }

abbrev request : DynamicClientRequest
request = record {
  redirect_uris = codes "https://d/cb" ∷ [];
  grant_types = codes "authorization_code" ∷ codes "refresh_token" ∷ [];
  client_name = none;
  client_uri = none;
  contacts = none;
  id_token_signed_response_alg = none;
  token_endpoint_auth_method = some (codes "none");
  token_endpoint_auth_signing_alg = none;
  post_logout_redirect_uri = none;
}

-- A dynamic client that an admin has disabled.
abbrev disabled : Client
disabled = record a_client { id = codes "dyn$q"; enabled = false; scopes = codes "openid,email" }

abbrev row : ClientDyn
row = record {
  id = codes "dyn$q";
  created = 5;
  last_used = none;
  registration_token = codes "t";
  token_endpoint_auth_method = codes "none";
}

abbrev store : ClientStore
store = record {
  db = (codes "app", a_client) ∷ (codes "dyn$q", disabled) ∷ [];
  cache = [];
  cache_list = none;
  ephemeral = [];
  db_dyn = (codes "dyn$q", row) ∷ [];
  cache_dyn = [];
}

abbrev re_enabled : Client
re_enabled = record disabled {
  enabled = true;
  redirect_uris = codes "https://d/cb";
  flows_enabled = codes "authorization_code,refresh_token";
  refresh_token = true;
  challenge = none;
}

-- The client is enabled by its own update.
updates_itself :
    (update_dynamic cfg fresh 9 request row store).0
    ≡ ok (re_enabled, record row { last_used = some 9 })
unfolding update_dynamic rauthy.Base.opt_str_eq str_eq get rauthy.Base.starts_with
    rauthy.Base.vec_contains
updates_itself = refl

static_refused :
    (update_dynamic cfg fresh 9 request (record row { id = codes "app" }) store).0 ≡ err forbidden
unfolding update_dynamic rauthy.Base.opt_str_eq str_eq get rauthy.Base.starts_with
static_refused = refl

registers :
    (find (codes "dyn$r") (create_dynamic cfg fresh 9 request store).1).0
    ≡ ok (record re_enabled { id = codes "dyn$r"; scopes = codes "openid,email,profile,groups" })
unfolding find get create_dynamic rauthy.Base.opt_str_eq str_eq rauthy.Base.Table.put
    rauthy.Base.vec_contains
registers = refl

update_dynamic_kept_example :
    (current : Client) × ((find (codes "dyn$q") store).0 ≡ ok current)
    × (is_dynamic current ≡ true)
    × (re_enabled.id ≡ current.id)
    × (re_enabled.scopes ≡ current.scopes)
    × (re_enabled.default_scopes ≡ current.default_scopes)
    × (re_enabled.force_mfa ≡ current.force_mfa)
    × (re_enabled.enabled ≡ true)
update_dynamic_kept_example =
    update_dynamic_kept cfg fresh 9 request row (record row { last_used = some 9 }) store re_enabled
      updates_itself

store-IsCoherent : IsCoherent store
unfolding get
store-IsCoherent id c h = cc

find-save_run :
    (find (codes "app") (save re_enabled store)).0
    ≡ (if str_eq (codes "dyn$q") (codes "app") then ok re_enabled else (find (codes "app") store).0)
unfolding get str_eq
find-save_run = find-save (codes "app") re_enabled disabled store store-IsCoherent refl

find-delete_run :
    (find (codes "app") (delete disabled store)).0
    ≡ (if str_eq (codes "dyn$q") (codes "app") then err not_found else (find (codes "app") store).0)
find-delete_run = find-delete (codes "app") disabled store store-IsCoherent
