-- ===== src/Clients/Store/Dynamic.antt =====
-- The registration of dynamic clients: `try_from_dyn_reg`, `create_dynamic` and `update_dynamic` of
-- rauthy-models/src/entity/clients.rs, and the operations of entity/clients_dyn.rs.
pub mod Kept
use rauthy.Base.{
  ℕ, Bool, true, false, not, Option, none, some, List, [], ◌∷◌, ◌++◌, is_some, unwrap_or, Str,
  codes, opt_str_eq, vec_contains, str_eq, if◌then◌else◌,
}
use rauthy.Base.Table.{Table, get, put, del}
use rauthy.ErrorResponse.{Result, ok, err, ◌>>=◌, and_then, bad_request, forbidden, not_found}
use rauthy.Clients.{Client, is_dynamic}
use rauthy.Clients.Store.{
  ClientDyn, ClientStore, Config, join, opt_join, default_client, get_dyn_entry, insert_client,
  find, save,
}

pub record DynamicClientRequest : Type 0 where
  pub redirect_uris : List Str
  pub grant_types : List Str
  pub client_name : Option Str
  pub client_uri : Option Str
  pub contacts : Option (List Str)
  pub id_token_signed_response_alg : Option Str
  pub token_endpoint_auth_method : Option Str
  pub token_endpoint_auth_signing_alg : Option Str
  pub post_logout_redirect_uri : Option Str

-- What is new in a registration: a random text for the id, and what `generate_new_secret` gives for the
-- client's secret and for the registration token.
pub record Fresh : Type 0 where
  pub rand : Str
  pub secret : Result Str
  pub token : Result Str

-- The client of a registration, with its secret if it is confidential.
unfoldable pub registered : Config → Fresh → DynamicClientRequest → Bool → Option Str → Client
unfolding join
registered cfg fresh req confidential secret = record default_client {
  id = codes "dyn$" ++ fresh.rand;
  name = req.client_name;
  confidential = confidential;
  secret = secret;
  secret_kid = if confidential then some cfg.enc_key_active else none;
  redirect_uris = join req.redirect_uris;
  post_logout_redirect_uris = req.post_logout_redirect_uri;
  flows_enabled = join req.grant_types;
  access_token_alg = unwrap_or req.token_endpoint_auth_signing_alg (codes "EdDSA");
  id_token_alg = unwrap_or req.id_token_signed_response_alg (codes "EdDSA");
  refresh_token = vec_contains req.grant_types (codes "refresh_token");
  access_token_lifetime = cfg.token_lifetime;
  challenge = if confidential then some (codes "S256") else none;
  client_uri = req.client_uri;
  contacts = opt_join req.contacts;
}

-- `Client::try_from_dyn_reg`
unfoldable pub try_from_dyn_reg : Config → Fresh → DynamicClientRequest → Result Client
unfolding registered
try_from_dyn_reg cfg fresh req =
    if not (opt_str_eq req.token_endpoint_auth_method (some (codes "none")))
    then (do enc ← fresh.secret; ok (registered cfg fresh req true (some enc)))
    else ok (registered cfg fresh req false none)

abbrev pub auth_method : DynamicClientRequest → Str
auth_method req = unwrap_or req.token_endpoint_auth_method (codes "client_secret_basic")

-- `ClientDyn::create`, of a client that has no row in the table.
unfoldable pub create : Fresh → ℕ → Str → Str → ClientStore → Result ClientDyn × ClientStore
create fresh now id method st =
    and_then (fresh.token, st)
      (λ enc st'.
        let row : ClientDyn = record {
          id = id;
          created = now;
          last_used = none;
          registration_token = enc;
          token_endpoint_auth_method = method;
        } in
        (ok row, record st' { db_dyn = put id row st'.db_dyn }))

-- `Client::create_dynamic`: both rows are written, or none.
unfoldable pub create_dynamic :
    Config
    → Fresh
    → ℕ
    → DynamicClientRequest
    → ClientStore
    → Result (Client × ClientDyn) × ClientStore
unfolding try_from_dyn_reg create insert_client
create_dynamic cfg fresh now req st =
    and_then (try_from_dyn_reg cfg fresh req, st)
      (λ c st1. and_then (insert_client c st1) (λ _ st2.
        let (made, st3) = create fresh now c.id (auth_method req) st2 in
        elim made [ err e ↦ (err e, st) | ok d ↦ (ok (c, d), st3) ]))

-- `ClientDyn::find`
unfoldable pub find_dyn : Str → ClientStore → Result ClientDyn × ClientStore
unfolding get_dyn_entry
find_dyn id st = elim (get (get_dyn_entry id) st.cache_dyn) [
  | some d ↦ (ok d, st)
  | none ↦ elim (get id st.db_dyn) [
    | none ↦ (err not_found, st)
    | some d ↦ (ok d, record st { cache_dyn = put (get_dyn_entry d.id) d st.cache_dyn })
  ]
]

unfoldable pub update_dyn_row : ClientDyn → Table ClientDyn → Table ClientDyn
update_dyn_row d [] = []
update_dyn_row d ((k, r) ∷ rows) =
    let rest = update_dyn_row d rows in
    if str_eq k d.id
    then (
      k,
      record r {
        registration_token = d.registration_token;
        token_endpoint_auth_method = d.token_endpoint_auth_method;
        last_used = d.last_used;
      },
    )
      ∷ rest
    else (k, r) ∷ rest

-- `ClientDyn::update`
unfoldable pub update :
    Config → Fresh → ℕ → Str → ClientDyn → ClientStore → Result ClientDyn × ClientStore
unfolding update_dyn_row get_dyn_entry
update cfg fresh now method d st =
    let token : Result Str =
      if cfg.secret_auto_rotate then fresh.token else ok d.registration_token in
    and_then (token, st)
      (λ t st'.
        let d' : ClientDyn = record d {
          token_endpoint_auth_method = method;
          last_used = some now;
          registration_token = t;
        } in
        (
          ok d',
          record st' {
            db_dyn = update_dyn_row d' st'.db_dyn;
            cache_dyn = put (get_dyn_entry d'.id) d' st'.cache_dyn;
          },
        ))

-- `ClientDyn::update_used`, which leaves the cache as it is.
unfoldable pub update_used : ℕ → Str → Table ClientDyn → Table ClientDyn
update_used now id [] = []
update_used now id ((k, r) ∷ rows) =
    let rest = update_used now id rows in
    if str_eq k id then (k, record r { last_used = some now }) ∷ rest else (k, r) ∷ rest

-- The new client, with what stays of the old one.
unfoldable pub keep_modified : Client → Client → Client
keep_modified current c = record c {
  id = current.id;
  force_mfa = current.force_mfa;
  scopes = current.scopes;
  default_scopes = current.default_scopes;
}

-- The end of an update, with the client of the request and the one that was found.
unfoldable pub apply_update :
    Config
    → Fresh
    → ℕ
    → DynamicClientRequest
    → ClientDyn
    → Client
    → Client
    → ClientStore
    → Result (Client × ClientDyn) × ClientStore
unfolding is_dynamic keep_modified save update
apply_update cfg fresh now req d c current st =
    if not (is_dynamic current)
    then (err forbidden, st)
    else (let new_client = keep_modified current c in
        let (updated, st') = update cfg fresh now (auth_method req) d (save new_client st) in
        elim updated [
          | err e ↦ (err e, record st' { db = st.db; db_dyn = st.db_dyn })
          | ok d' ↦ (ok (new_client, d'), st')
        ])

-- `Client::update_dynamic`: where the second update fails, the tables are as before, but not the caches.
unfoldable pub update_dynamic :
    Config
    → Fresh
    → ℕ
    → DynamicClientRequest
    → ClientDyn
    → ClientStore
    → Result (Client × ClientDyn) × ClientStore
unfolding try_from_dyn_reg find apply_update
update_dynamic cfg fresh now req d st =
    and_then (try_from_dyn_reg cfg fresh req, st)
      (λ c st1. and_then (find d.id st1) (apply_update cfg fresh now req d c))
