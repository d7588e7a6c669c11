-- ===== src/Accounts/SelfUpdate.antt =====
-- An update by the user: `update_self_req` of rauthy-models/src/entity/users.rs.
use rauthy.Base.{
  ℕ, Bool, true, false, not, Option, none, some, [], ◌∷◌, is_some, Str, str_eq, to_lowercase,
  unwrap_or, if◌then◌else◌,
}
use rauthy.Base.Table.{get, del}
use rauthy.ErrorResponse.{Result, ok, err, ◌>>◌, and_then, bad_request, forbidden, not_found}
use rauthy.Users.{User, get_roles, get_groups}
use rauthy.Users.Password.{validate_password}
use rauthy.Users.Store
use rauthy.Users.Store.{UserStore, insert, save}
use rauthy.MagicLinks
use rauthy.MagicLinks.{
  password_reset, MagicLink, MagicLinkUsage, LinkRequest, new_user, password_reset, email_change,
  try_from, invalidate_all_email_change,
}
use rauthy.Accounts.Values.{UserValues}
use rauthy.Accounts.{
  email_change_info_new, pwd_reset, Config, UpdateUserRequest, UpdateUserSelfRequest, World, Fresh,
  notify, keeping, update_user,
}

-- The code of a ceremony with a passkey, of this user, which is then used up.
unfoldable pub use_mfa_code : Str → User → World → Result (Unit {0}) × World
use_mfa_code code u w = elim (get code w.service_reqs) [
  | none ↦ (err not_found, w)
  | some uid ↦
      if not (str_eq uid u.id)
      then (err forbidden, w)
      else (ok tt, record w { service_reqs = del code w.service_reqs })
]

-- The link to reset an expired password.
unfoldable pub send_reset : Config → Fresh → ℕ → User → World → World
unfolding MagicLinks.create
send_reset cfg fresh now u w =
    let (_, links) =
      MagicLinks.create fresh.link_id fresh.csrf_token now u.id cfg.ml_lt_pwd_reset
        (password_reset none) w.links in
    notify (pwd_reset u.id ∷ []) (record w { links = links })

-- The right of a user to a new password: the current one, or a passkey.
unfoldable pub self_password :
    Config → Fresh → UpdateUserSelfRequest → ℕ → User → World → Result (Option Str) × World
unfolding validate_password use_mfa_code send_reset
self_password cfg fresh upd now u w = elim upd.password_new [
  | none ↦ (ok none, w)
  | some pwd_new ↦ elim upd.password_current [
    | some pwd_curr ↦
        let (res, sends) = validate_password cfg.hasher u now pwd_curr in
        let w' : World = if sends then send_reset cfg fresh now u w else w in
        (do res; ok (some pwd_new), w')
    | none ↦ elim upd.mfa_code [
      | some code ↦ and_then (use_mfa_code code u w) (λ _ w'. (ok (some pwd_new), w'))
      | none ↦ (err bad_request, w)
    ]
  ]
]

-- A new address is not set, but a link to it is sent; whether there is one.
unfoldable pub self_email : UpdateUserSelfRequest → Fresh → ℕ → User → World → Bool × World
unfolding invalidate_all_email_change MagicLinks.create to_lowercase
self_email upd fresh now u w = elim upd.email [
  | none ↦ (false, w)
  | some e ↦
      let email = to_lowercase e in
      if str_eq email u.email
      then (false, w)
      else (let (_, links) =
            MagicLinks.create fresh.link_id fresh.csrf_token now u.id 60 (email_change email)
              (invalidate_all_email_change u.id w.links) in
          (true, notify (email_change_info_new email ∷ []) (record w { links = links })))
]

-- The update that stands for one by the user.
unfoldable pub self_request : UpdateUserSelfRequest → Option Str → User → UpdateUserRequest
unfolding get_roles get_groups
self_request upd password u = record {
  email = u.email;
  given_name = unwrap_or upd.given_name u.given_name;
  family_name = unwrap_or upd.family_name u.family_name;
  language = upd.language;
  password = password;
  roles = get_roles u;
  groups = if is_some u.groups then some (get_groups u) else none;
  enabled = u.enabled;
  email_verified = u.email_verified;
  user_expires = u.user_expires;
  user_values = upd.user_values;
}

-- `User::update_self_req`
unfoldable pub update_self_req :
    Config
    → Fresh
    → Str
    → UpdateUserSelfRequest
    → ℕ
    → World
    → Result (User × (Option UserValues × Bool)) × World
unfolding Store.find self_password self_email self_request update_user
update_self_req cfg fresh id upd now w = and_then (keeping w (Store.find id w.users)) (λ u w1.
    and_then (self_password cfg fresh upd now u w1) (λ password w2.
      let (email_updated, w3) = self_email upd fresh now u w2 in
      and_then (update_user cfg (self_request upd password u) now u w3)
        (λ (u', (values, _)) w4. (ok (u', (values, email_updated)), w4))))
