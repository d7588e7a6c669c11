-- ===== src/Accounts.antt =====
-- The updates of a user from requests, in rauthy-models/src/entity/users.rs, with the values of
-- entity/users_values.rs: an update by an admin, one by the user, and the confirmation of a new address.
-- Mails and events are noted in the order in which they are sent. The password rules' settings and
-- random texts are parameters; the HTML answer is left out.
pub mod Values
pub mod SelfUpdate
pub mod Confirm
pub mod SelfRoles
pub mod SelfPassword
pub mod Tests
use rauthy.Base.{
  ℕ, ◌+◌, ◌<◌, Bool, true, false, ◌&&◌, not, Option, none, some, List, [], ◌∷◌, ◌++◌, is_some, ltb,
  Str, codes, str_eq, to_lowercase, unwrap_or, if◌then◌else◌,
}
use rauthy.Base.Table.{Table, get, put, del}
use rauthy.ErrorResponse.{
  Result, ok, err, ◌>>=◌, ◌>>◌, ensure, ok_or, and_then, bad_request, forbidden, not_found,
}
use rauthy.Users.{User, get_roles, get_groups, is_admin, account_type, has_webauthn_enabled}
use rauthy.Users.Password.{
  CharClass, Hasher, PasswordPolicy, apply_password_rules, validate_password,
}
use rauthy.Users.Store
use rauthy.Users.Store.{UserStore, insert, save}
use rauthy.Authorize.{is_passkey_account}
use rauthy.Sessions.Store.{invalidate_for_user}
use rauthy.MagicLinks
use rauthy.MagicLinks.{
  MagicLink, MagicLinkUsage, LinkRequest, new_user, password_reset, email_change, try_from,
  invalidate_all_email_change,
}
use rauthy.Named.{NamedStore}
use rauthy.Groups
use rauthy.Roles
use rauthy.Accounts.Values.{UserValues, UserValuesRequest, ValuesStore, upsert}

pub data Notice : Type 0 where
  -- the recipient, the new address, and whether an admin made the change
  email_confirm_change : Str → Str → Bool → Notice
  email_change_info_new pwd_reset : Str → Notice
  user_email_change : Str → Str → Notice
  user_password_reset : Str → Notice

pub record Config : Type 0 where
  pub chars : CharClass
  pub hasher : Hasher
  pub rules : PasswordPolicy
  pub no_expiry : Bool
  pub cookie_binding : Bool
  pub ml_lt_pwd_reset : ℕ

pub record UpdateUserRequest : Type 0 where
  pub email : Str
  pub given_name : Str
  pub family_name : Str
  pub language : Option Str
  pub password : Option Str
  pub roles : List Str
  pub groups : Option (List Str)
  pub enabled : Bool
  pub email_verified : Bool
  pub user_expires : Option ℕ
  pub user_values : Option UserValuesRequest

pub record UpdateUserSelfRequest : Type 0 where
  pub email : Option Str
  pub given_name : Option Str
  pub family_name : Option Str
  pub language : Option Str
  pub password_current : Option Str
  pub mfa_code : Option Str
  pub password_new : Option Str
  pub user_values : Option UserValuesRequest

-- `recent` is the table `recent_passwords`, and `service_reqs` the cache of `WebauthnServiceReq`: the user
-- of each code.
pub record World : Type 0 where
  pub users : UserStore
  pub roles : NamedStore
  pub groups : NamedStore
  pub recent : Table Str
  pub links : Table MagicLink
  pub values : ValuesStore
  pub service_reqs : Table Str
  pub notices : List Notice

-- The random texts of a new link.
pub record Fresh : Type 0 where
  pub link_id : Str
  pub csrf_token : Str

abbrev pub notify : List Notice → World → World
notify sent w = record w { notices = w.notices ++ sent }

abbrev pub keeping {ℓ} : {A : Type ℓ} → World → Result A × UserStore → Result A × World
keeping w (r, users) = (r, record w { users = users })

-- The user with the names, the address and the language of the request.
unfoldable pub renamed : UpdateUserRequest → User → User
unfolding to_lowercase
renamed upd u = record u {
  email = to_lowercase upd.email;
  given_name = upd.given_name;
  family_name = upd.family_name;
  language = unwrap_or upd.language u.language;
}

-- A new password, if there is one, with the row of the recent ones.
unfoldable pub new_password : Config → Option Str → ℕ → User → World → Result User × World
unfolding apply_password_rules
new_password cfg none now u w = (ok u, w)
new_password cfg (some pwd) now u w =
    elim (apply_password_rules cfg.chars cfg.hasher cfg.rules cfg.no_expiry now u pwd
      (get u.id w.recent)) [
        | err e ↦ (err e, w)
        | ok (u', row) ↦ (
          ok u',
          record w { recent = elim row [ none ↦ w.recent | some r ↦ put u.id r w.recent ] },
        )
      ]

-- The roles and groups of the request, as far as they exist, and the flags.
unfoldable pub with_roles : UpdateUserRequest → User → World → User × World
unfolding Roles.sanitize Groups.sanitize
with_roles upd u w =
    let (roles, stored_roles) = Roles.sanitize upd.roles w.roles in
    let (groups, stored_groups) = Groups.sanitize upd.groups w.groups in
    (
      record u {
        roles = roles;
        groups = groups;
        enabled = upd.enabled;
        email_verified = upd.email_verified;
        user_expires = upd.user_expires;
      },
      record w { roles = stored_roles; groups = stored_groups },
    )

-- What an update sends out for a new address, after the sessions have been invalidated.
unfoldable pub email_changed : Bool → ℕ → Str → User → World → World
unfolding invalidate_for_user
email_changed by_admin now old_email u w =
    let w' : World = record w {
      users = record w.users { sessions = invalidate_for_user u.id now w.users.sessions };
    } in
    notify
      (email_confirm_change u.email u.email by_admin
        ∷ email_confirm_change old_email u.email by_admin
        ∷ user_email_change old_email u.email
        ∷ [])
      w'

-- The end of an update, once the user is saved: notices, and the values.
unfoldable pub after_save :
    UpdateUserRequest → Option Str → ℕ → User → World → Option UserValues × World
unfolding email_changed upsert
after_save upd old_email now u w =
    let w1 : World =
      if is_some upd.password then notify (user_password_reset u.email ∷ []) w else w in
    let w2 : World = elim old_email [ none ↦ w1 | some e ↦ email_changed true now e u w1 ] in
    elim upd.user_values [
      | none ↦ (none, w2)
      | some v ↦
          let (stored, values) = upsert u.id v w2.values in (stored, record w2 { values = values })
    ]

-- The second half of an update, from the roles on.
unfoldable pub save_update :
    UpdateUserRequest
    → Option Str
    → ℕ
    → User
    → World
    → Result (User × (Option UserValues × Bool)) × World
unfolding with_roles save after_save is_admin
save_update upd old_email now u1 w1 =
    let u2 = (with_roles upd u1 w1).0 in
    let w2 = (with_roles upd u1 w1).1 in
    and_then (keeping w2 (save u2 old_email now w2.users)) (λ _ w3.
      let (values, w4) = after_save upd old_email now u2 w3 in
      (ok (u2, (values, not (is_admin u1) && is_admin u2)), w4))

-- `User::update` of a user that is there: the user as saved, the values, and whether it is a new admin.
unfoldable pub update_user :
    Config
    → UpdateUserRequest
    → ℕ
    → User
    → World
    → Result (User × (Option UserValues × Bool)) × World
unfolding renamed new_password save_update
update_user cfg upd now u w =
    let email = to_lowercase upd.email in
    let old_email : Option Str = if not (str_eq u.email email) then some u.email else none in
    and_then (new_password cfg upd.password now (renamed upd u) w) (save_update upd old_email now)

unfoldable pub update :
    Config
    → Str
    → UpdateUserRequest
    → Option User
    → ℕ
    → World
    → Result (User × (Option UserValues × Bool)) × World
unfolding Store.find update_user
update cfg id upd none now w =
    and_then (keeping w (Store.find id w.users)) (λ u w'. update_user cfg upd now u w')
update cfg id upd (some u) now w = update_user cfg upd now u w
