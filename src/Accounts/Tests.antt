-- ===== src/Accounts/Tests.antt =====
-- Runs of the updates of a user.
use rauthy.Base.{
  ◌≡◌, ◌⊎◌, inl, inr, refl, ℕ, Bool, true, false, Option, none, some, List, [], ◌∷◌, ◌++◌, arith,
  Str, codes, str_eq, trim, vec_contains,
}
use rauthy.Base.Table.{get}
use rauthy.ErrorResponse.{ok, err, bad_request, forbidden}
use rauthy.Fixtures.{a_user}
use rauthy.Users.{User, get_roles}
use rauthy.Users.Store
use rauthy.Users.Store.{pos}
use rauthy.Sessions.Store as SessionStore
use rauthy.Named.{NamedStore}
use rauthy.Named.Sanitized.{AreClean}
use rauthy.MagicLinks.{MagicLink, LinkRequest, email_change, to_string}
use rauthy.Accounts.Values.{UserValuesRequest, find, upsert, find-upsert}
use rauthy.Accounts.SelfUpdate.{update_self_req}
use rauthy.Accounts.Confirm.{confirm_email_address}
use rauthy.Accounts.{
  Config, World, Fresh, UpdateUserSelfRequest, user_email_change, email_confirm_change,
}
use rauthy.Accounts.SelfRoles.{update_self_req-roles}
use rauthy.Accounts.SelfPassword.{ShowsRight, update_self_req-ShowsRight}

abbrev cfg : Config
cfg = record {
  chars = record {
    is_lowercase = λ c. true;
    is_uppercase = λ c. true;
    is_ascii_digit = λ c. true;
    is_alphanumeric = λ c. true;
  };
  hasher = record { hash_password = λ s. ok s; is_match = λ s t. ok (str_eq s t) };
  rules = record {
    length_min = 1;
    length_max = 9;
    include_lower_case = none;
    include_upper_case = none;
    include_digits = none;
    include_special = none;
    valid_days = none;
    not_recently_used = none;
  };
  no_expiry = false;
  cookie_binding = false;
  ml_lt_pwd_reset = 30;
}

abbrev fresh : Fresh
fresh = record { link_id = codes "l"; csrf_token = codes "t" }

abbrev no_sessions : SessionStore.Store
no_sessions = record { db = []; cache_sessions = []; cache_12hr = [] }

abbrev roles : NamedStore
roles = record { db = record { id = codes "1"; name = codes "dev" } ∷ []; cache = none }

abbrev a_link : MagicLink
a_link = record {
  id = codes "m";
  user_id = codes "u";
  csrf_token = codes "t";
  cookie = none;
  exp = 500;
  used = false;
  usage = to_string (email_change (codes "n@x"));
}

abbrev world : World
world = record {
  users = record {
    db = (codes "u", a_user) ∷ [];
    cache_users = [];
    cache_count = some (pos 1);
    sessions = no_sessions;
    tokens = [];
  };
  roles = roles;
  groups = record { db = []; cache = none };
  recent = [];
  links = (codes "m", a_link) ∷ [];
  values = record { db = []; cache = [] };
  service_reqs = (codes "c", codes "v") ∷ [];
  notices = [];
}

abbrev request : UpdateUserSelfRequest
request = record {
  email = some (codes "N@x");
  given_name = some (codes "V");
  family_name = none;
  language = none;
  password_current = some (codes "p");
  mfa_code = none;
  password_new = some (codes "q");
  user_values = none;
}

abbrev updated : User
updated = record a_user { given_name = codes "V"; password = some (codes "q") }

updates_itself :
    (update_self_req cfg fresh (codes "u") request 100 world).0 ≡ ok (updated, (none, true))
unfolding update_self_req get str_eq vec_contains rauthy.Base.csv
updates_itself = refl

other_passkey :
    (update_self_req cfg fresh
      (codes "u")
      (record request { password_current = none; mfa_code = some (codes "c") })
      100
      world).0
    ≡ err forbidden
unfolding update_self_req get str_eq
other_passkey = refl

no_right :
    (update_self_req cfg fresh (codes "u") (record request { password_current = none }) 100 world).0
    ≡ err bad_request
unfolding update_self_req get str_eq
no_right = refl

abbrev no_values : UserValuesRequest
no_values = record {
  birthdate = none;
  phone = none;
  street = none;
  zip = none;
  city = none;
  country = none;
}

abbrev link_request : LinkRequest
link_request = record { reset_cookie = none; csrf_header = none }

confirmed_notices :
    (confirm_email_address cfg link_request (codes "u") (codes "m") 100 world).1.notices
    ≡ email_confirm_change (codes "n@x") (codes "n@x") false
      ∷ email_confirm_change (codes "u@x") (codes "n@x") false
      ∷ user_email_change (codes "u@x") (codes "n@x")
      ∷ []
unfolding confirm_email_address get to_string rauthy.Base.Table.put
confirmed_notices = refl

roles-AreClean : AreClean roles.db
unfolding trim
roles-AreClean = ((omega arith, refl, cc), tt)

update_self_req-roles_example :
    (u : User) × ((Store.find (codes "u") world.users).0 ≡ ok u)
    × (vec_contains (get_roles u) (codes "dev") ≡ true)
unfolding vec_contains get_roles rauthy.Base.csv str_eq
update_self_req-roles_example =
    update_self_req-roles cfg fresh (codes "u") request 100 world updated (none, true) (codes "dev")
      (inl refl) roles-AreClean updates_itself refl

update_self_req-ShowsRight_example :
    (u : User) × ((Store.find (codes "u") world.users).0 ≡ ok u)
    × ShowsRight cfg request 100 u world
update_self_req-ShowsRight_example =
    update_self_req-ShowsRight cfg fresh (codes "u") request 100 world (codes "q") updated
      (none, true) refl updates_itself

find-upsert_run :
    (find (codes "u") (upsert (codes "u") no_values world.values).1).0
    ≡ (upsert (codes "u") no_values world.values).0
find-upsert_run = find-upsert (codes "u") no_values world.values
