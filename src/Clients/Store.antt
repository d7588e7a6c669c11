-- ===== src/Clients/Store.antt =====
-- The table of clients with its caches, and the dynamic clients: rauthy-models/src/entity/clients.rs and
-- entity/clients_dyn.rs. New secrets, in the form in which they are stored, the key that encrypts them,
-- random texts, settings, and the client that a URL describes are parameters. Algorithms stand as texts.
pub mod Coherence
pub mod Dynamic
pub mod Tests
use rauthy.Base.{
  ℕ, Bool, true, false, not, Option, none, some, ◌&&◌, List, [], ◌∷◌, ◌++◌, is_some, unwrap_or, Str,
  codes, str_eq, opt_str_eq, vec_contains, if◌then◌else◌,
}
use rauthy.Base.Table.{Table, get, put, del}
use rauthy.ErrorResponse.{Result, ok, err, and_then, bad_request, forbidden, not_found}
use rauthy.Clients.{Client, is_dynamic}

pub record ClientDyn : Type 0 where
  pub id : Str
  pub created : ℕ
  pub last_used : Option ℕ
  pub registration_token : Str
  pub token_endpoint_auth_method : Str

-- `cache_list` is the entry IDX_CLIENTS, `ephemeral` the cache of ephemeral clients.
pub record ClientStore : Type 0 where
  pub db : Table Client
  pub cache : Table Client
  pub cache_list : Option (List Client)
  pub ephemeral : Table Client
  pub db_dyn : Table ClientDyn
  pub cache_dyn : Table ClientDyn

pub record Config : Type 0 where
  pub enc_key_active : Str
  pub token_lifetime : ℕ
  pub secret_auto_rotate : Bool
  pub enable_ephemeral : Bool
  pub is_url : Str → Bool
  pub ephemeral_from_url : Str → Result Client

-- `Vec::join(",")`
unfoldable pub join : List Str → Str
join [] = []
join (s ∷ []) = s
join (s ∷ t ∷ ss) = s ++ b',' ∷ join (t ∷ ss)

abbrev pub opt_join : Option (List Str) → Option Str
opt_join none = none
opt_join (some ss) = some (join ss)

-- `format!("client_{}", id)` and `format!("client_dyn_{}", id)`
unfoldable pub get_cache_entry : Str → Str
get_cache_entry id = codes "client_" ++ id

unfoldable pub get_dyn_entry : Str → Str
get_dyn_entry id = codes "client_dyn_" ++ id

-- `Client::default`
abbrev pub default_client : Client
default_client = record {
  id = codes "";
  name = none;
  enabled = true;
  confidential = false;
  secret = none;
  secret_kid = none;
  redirect_uris = codes "";
  post_logout_redirect_uris = none;
  allowed_origins = none;
  flows_enabled = codes "authorization_code";
  access_token_alg = codes "EdDSA";
  id_token_alg = codes "EdDSA";
  refresh_token = false;
  auth_code_lifetime = 60;
  access_token_lifetime = 1800;
  scopes = codes "openid,email,profile,groups";
  default_scopes = codes "openid";
  challenge = some (codes "S256");
  force_mfa = false;
  client_uri = none;
  contacts = none;
}

pub record NewClientRequest : Type 0 where
  pub id : Str
  pub secret : Option Str
  pub name : Option Str
  pub confidential : Bool
  pub redirect_uris : List Str
  pub post_logout_redirect_uris : Option (List Str)

-- `Client::create`; `secret` is what `generate_new_secret` gives, which is asked for where it is needed.
unfoldable pub from_request : NewClientRequest → Client
unfolding join
from_request req = record default_client {
  id = req.id;
  secret = req.secret;
  name = req.name;
  confidential = req.confidential;
  redirect_uris = join req.redirect_uris;
  post_logout_redirect_uris = opt_join req.post_logout_redirect_uris;
}

-- The `insert` statement, which fails where the id is taken.
unfoldable pub insert_client : Client → ClientStore → Result Client × ClientStore
insert_client c st =
    if is_some (get c.id st.db)
    then (err bad_request, st)
    else (ok c, record st { db = put c.id c st.db })

unfoldable pub create :
    Config → Result Str → NewClientRequest → ClientStore → Result Client × ClientStore
unfolding from_request insert_client
create cfg secret req st =
    if req.confidential
    then and_then (secret, st)
        (λ enc st'.
          insert_client
            (record (from_request (record req { secret = some enc })) {
              secret_kid = some cfg.enc_key_active;
            })
            st')
    else insert_client (record (from_request req) { secret_kid = none }) st

-- `Client::delete`, with the row of the dynamic client, as the foreign key says.
unfoldable pub delete : Client → ClientStore → ClientStore
unfolding get_cache_entry get_dyn_entry is_dynamic
delete c st = record st {
  db = del c.id st.db;
  db_dyn = del c.id st.db_dyn;
  cache = del (get_cache_entry c.id) st.cache;
  cache_dyn = if is_dynamic c then del (get_dyn_entry c.id) st.cache_dyn else st.cache_dyn;
}

unfoldable pub find : Str → ClientStore → Result Client × ClientStore
unfolding get_cache_entry
find id st = elim (get (get_cache_entry id) st.cache) [
  | some c ↦ (ok c, st)
  | none ↦ elim (get id st.db) [
    | none ↦ (err not_found, st)
    | some c ↦ (ok c, record st { cache = put (get_cache_entry c.id) c st.cache })
  ]
]

unfoldable pub find_maybe_ephemeral : Config → Str → ClientStore → Result Client × ClientStore
unfolding find
find_maybe_ephemeral cfg id st =
    if not (cfg.enable_ephemeral && cfg.is_url id) then find id st else elim (get id st.ephemeral) [
      | some c ↦ (ok c, st)
      | none ↦ elim (cfg.ephemeral_from_url id) [
        | err e ↦ (err e, st)
        | ok c ↦ (ok c, record st { ephemeral = put id c st.ephemeral })
      ]
    ]

-- The `update` statement.
unfoldable pub update_row : Client → Table Client → Table Client
update_row c [] = []
update_row c ((k, r) ∷ rows) =
    let rest = update_row c rows in if str_eq k c.id then (k, c) ∷ rest else (k, r) ∷ rest

-- The clients that `save` lists: those that it sees in the table, with the one that it saves.
unfoldable pub with_self : Client → Table Client → List Client
with_self c [] = c ∷ []
with_self c ((k, r) ∷ rows) = if str_eq r.id c.id then c ∷ replaced rows else r ∷ with_self c rows
  where
    replaced : Table Client → List Client
    replaced [] = []
    replaced ((k', r') ∷ rows') =
        let rest = replaced rows' in if str_eq r'.id c.id then c ∷ rest else r' ∷ rest

-- `Client::save`, where the clients that another connection sees are those of the table given first: in a
-- transaction, those from before it.
unfoldable pub save_seen : Table Client → Client → ClientStore → ClientStore
unfolding get_cache_entry update_row with_self
save_seen seen c st = record st {
  db = update_row c st.db;
  cache = put (get_cache_entry c.id) c st.cache;
  cache_list = some (with_self c seen);
}

-- `Client::save` outside a transaction.
unfoldable pub save : Client → ClientStore → ClientStore
unfolding update_row save_seen
save c st = save_seen (update_row c st.db) c st
