-- ===== src/Scopes/Tests.antt =====
-- Runs of the operations on scopes.
use mathlib.Core.Option
use rauthy.Base.{◌≡◌, refl, true, none, some, [], ◌∷◌, codes, str_eq}
use rauthy.Base.Table.{get}
use rauthy.ErrorResponse.{err, bad_request}
use rauthy.Fixtures.{a_client}
use rauthy.Clients.{Client}
use rauthy.Scopes.{
  Scope, ScopeRequest, State, taken, extract_custom, clean_up_attrs, create, delete, update,
  update_mapping_only,
}
use rauthy.Scopes.Openid.{openid_kept}

abbrev openid : Scope
openid = record {
  id = codes "1";
  name = codes "openid";
  attr_include_access = none;
  attr_include_id = none;
}

abbrev read : Scope
read = record openid { id = codes "2"; name = codes "read" }

abbrev a_reader : Client
a_reader = record a_client { scopes = codes "openid,read,read_all" }

abbrev state : State
state = record {
  db = openid ∷ read ∷ [];
  listed = none;
  clients = record {
    db = (codes "app", a_reader) ∷ [];
    cache = [];
    cache_list = none;
    ephemeral = [];
    db_dyn = [];
    cache_dyn = [];
  };
}

abbrev request : ScopeRequest
request = record {
  scope = codes "see";
  attr_include_access = some (codes "zip" ∷ codes "" ∷ codes "dept" ∷ []);
  attr_include_id = none;
}

customs : extract_custom (codes "openid see email see") ≡ codes "see" ∷ []
unfolding extract_custom rauthy.Base.split str_eq
customs = refl

cleaned : clean_up_attrs request.attr_include_access (codes "dept" ∷ []) ≡ some (codes "dept")
unfolding clean_up_attrs rauthy.Clients.Store.join rauthy.Base.vec_contains str_eq
cleaned = refl

openid_refused : (delete (codes "1") state).0 ≡ err bad_request
unfolding delete str_eq
openid_refused = refl

-- The name of the scope `read_all` changes with that of `read`.
renamed_part :
    Option.map
      (λ (c : Client). c.scopes)
      (get (codes "app") (update (codes "2") [] request state).1.clients.db)
    ≡ some (codes "openid,see,see_all")
unfolding get update str_eq rauthy.Base.contains rauthy.Base.replace
renamed_part = refl

openid_kept_example :
    (taken (codes "openid") (delete (codes "2") state).1.db ≡ true)
    × (taken (codes "openid") (update (codes "2") [] request state).1.db ≡ true)
unfolding rauthy.Scopes.find_row taken str_eq
openid_kept_example = openid_kept (codes "2") [] request state (refl, (refl, tt)) refl
