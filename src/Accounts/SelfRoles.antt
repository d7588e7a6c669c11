-- ===== src/Accounts/SelfRoles.antt =====
-- What an update of a user by themselves does to the roles.
use std.Path.{subst}
use rauthy.Base.{
  ℕ, ◌≡◌, inl, inr, refl, sym, ap, ◌∙◌, Bool, true, not, Option, none, some, List, [], ◌∷◌, arith,
  Str, str_eq, str_eq_iff, to_lowercase, vec_contains, Option-cases, Bool-cases, if◌then◌else◌,
}
use rauthy.Base.Table.{get}
use rauthy.ErrorResponse.{Result, ok, err, and_then, and_then-eq-ok, Result-cases}
use rauthy.Users.{User, get_roles}
use rauthy.Users.Password.{apply_password_rules, validate_password}
use rauthy.Users.Store
use rauthy.Users.Store.{save}
use rauthy.Named.{Named, NamedStore}
use rauthy.Named.Listing.{IsListed}
use rauthy.Named.Sanitized.{AreClean, kept_names}
use rauthy.Roles.Admins.{get_roles-sanitize}
use rauthy.Accounts.Values.{UserValues}
use rauthy.Accounts.SelfUpdate.{
  send_reset, use_mfa_code, self_password, self_email, self_request, update_self_req,
}
use rauthy.Accounts.{
  Config, World, Fresh, UpdateUserRequest, UpdateUserSelfRequest, keeping, renamed, new_password,
  with_roles, save_update, update_user,
}

new_password-roles :
    (cfg : Config) (pwd : Option Str) (now : ℕ) (u : User) (w : World)
    → (new_password cfg pwd now u w).1.roles ≡ w.roles
unfolding new_password
new_password-roles cfg none now u w = refl
new_password-roles cfg (some pwd) now u w =
    elim (Result-cases (
      apply_password_rules cfg.chars cfg.hasher cfg.rules cfg.no_expiry now u pwd
        (get u.id w.recent))) [
          | inr (e, refused) ↦ rw (refused, new_password) refl
          | inl ((u', row), taken) ↦ rw (taken, new_password) refl
        ]

use_mfa_code-roles : (code : Str) (u : User) (w : World) → (use_mfa_code code u w).1.roles ≡ w.roles
unfolding use_mfa_code
use_mfa_code-roles code u w = elim (Option-cases (get code w.service_reqs)) [
  | inl gone ↦ rw (gone, use_mfa_code) refl
  | inr (uid, here) ↦ elim (Bool-cases (str_eq uid u.id)) [
    | inl same ↦ rw (here, same, use_mfa_code) refl
    | inr other ↦ rw (here, other, use_mfa_code) refl
  ]
]

and_then-roles :
    {A B : Type 0} (r : Result A × World) (next : A → World → Result B × World)
    → ((a : A) (w : World) → (next a w).1.roles ≡ w.roles)
    → (and_then r next).1.roles ≡ r.1.roles
and_then-roles (err e, w) next h = refl
and_then-roles (ok a, w) next h = h a w

self_password-roles :
    (cfg : Config) (fresh : Fresh) (upd : UpdateUserSelfRequest) (now : ℕ) (u : User) (w : World)
    → (self_password cfg fresh upd now u w).1.roles ≡ w.roles
unfolding self_password send_reset
self_password-roles cfg fresh upd now u w = elim (Option-cases upd.password_new) [
  | inl kept ↦ rw (kept, self_password) refl
  | inr (pwd, new) ↦ elim (Option-cases upd.password_current) [
    | inr (curr, given) ↦ elim (Bool-cases (validate_password cfg.hasher u now curr).1) [
      | inl sends ↦ rw (new, given, sends, self_password) refl
      | inr silent ↦ rw (new, given, silent, self_password) refl
    ]
    | inl missing ↦ elim (Option-cases upd.mfa_code) [
      | inl no_code ↦ rw (new, missing, no_code, self_password) refl
      | inr (code, c) ↦
          rw (new, missing, c, self_password)
            (and_then-roles (use_mfa_code code u w) (λ _ w'. (ok (some pwd), w')) (λ a w'. refl)
              ∙ use_mfa_code-roles code u w)
    ]
  ]
]

self_email-roles :
    (upd : UpdateUserSelfRequest) (fresh : Fresh) (now : ℕ) (u : User) (w : World)
    → (self_email upd fresh now u w).1.roles ≡ w.roles
unfolding self_email
self_email-roles upd fresh now u w = elim (Option-cases upd.email) [
  | inl kept ↦ rw (kept, self_email) refl
  | inr (e, new) ↦ elim (Bool-cases (str_eq (to_lowercase e) u.email)) [
    | inl same ↦ rw (new, same, self_email) refl
    | inr other ↦ rw (new, other, self_email) refl
  ]
]

get_roles-with_roles :
    (upd : UpdateUserRequest) (u : User) (w : World)
    → IsListed w.roles
    → AreClean w.roles.db
    → get_roles (with_roles upd u w).0 ≡ kept_names upd.roles w.roles.db
unfolding with_roles get_roles
get_roles-with_roles upd u w l c = get_roles-sanitize upd.roles w.roles u l c

user_of :
    {x y : User} {v v' : Option UserValues × Bool}
    → ◌≡◌ {A = Result (User × (Option UserValues × Bool))} (ok (x, v)) (ok (y, v'))
    → x ≡ y
user_of h = cc

abbrev value :
    Result (User × (Option UserValues × Bool)) × World → Result (User × (Option UserValues × Bool))
value (r, w) = r

save_update-roles :
    (upd : UpdateUserRequest) (old_email : Option Str) (now : ℕ) (u : User) (w : World) (u' : User)
    (rest : Option UserValues × Bool)
    → IsListed w.roles
    → AreClean w.roles.db
    → (save_update upd old_email now u w).0 ≡ ok (u', rest)
    → get_roles u' ≡ kept_names upd.roles w.roles.db
unfolding save_update
save_update-roles upd old_email now u w u' rest l c h =
    let u2 = (with_roles upd u w).0 in
    let w2 = (with_roles upd u w).1 in
    let (_, _, o) = and_then-eq-ok (keeping w2 (save u2 old_email now w2.users)) _ h in
    let saved = sym (ap value o) ∙ h in
    ap get_roles (sym (user_of saved)) ∙ get_roles-with_roles upd u w l c

-- The roles of a user after an update are those of the request that exist.
update_user-roles :
    (cfg : Config) (upd : UpdateUserRequest) (now : ℕ) (u : User) (w : World) (u' : User)
    (rest : Option UserValues × Bool)
    → IsListed w.roles
    → AreClean w.roles.db
    → (update_user cfg upd now u w).0 ≡ ok (u', rest)
    → get_roles u' ≡ kept_names upd.roles w.roles.db
unfolding update_user
update_user-roles cfg upd now u w u' rest l c h =
    let old_email : Option Str =
      if not (str_eq u.email (to_lowercase upd.email)) then some u.email else none in
    let (u1, _, o) = and_then-eq-ok (new_password cfg upd.password now (renamed upd u) w) _ h in
    let later = sym (ap value o) ∙ h in
    let w1 = (new_password cfg upd.password now (renamed upd u) w).1 in
    let same : w1.roles ≡ w.roles = new_password-roles cfg upd.password now (renamed upd u) w in
    save_update-roles upd old_email now u1 w1 u' rest (subst IsListed (sym same) l)
      (subst (λ (n : NamedStore). AreClean n.db) (sym same) c) later
    ∙ ap (λ (n : NamedStore). kept_names upd.roles n.db) same

kept_names-asked :
    (asked : List Str) (gs : List Named) (role : Str)
    → vec_contains (kept_names asked gs) role ≡ true
    → vec_contains asked role ≡ true
unfolding vec_contains
kept_names-asked asked [] role h = cc
kept_names-asked asked (g ∷ gs) role h =
    ground (arith, kept_names-asked asked gs role, str_eq_iff g.name role)

-- Where the cached list of roles, if there is one, is the table, and no role's name is empty, has a
-- comma or white space round it: every role of a user after a successful update of their own is one
-- that the user stored under the id already had.
pub update_self_req-roles :
    (cfg : Config) (fresh : Fresh) (id : Str) (upd : UpdateUserSelfRequest) (now : ℕ) (w : World)
    (u' : User) (rest : Option UserValues × Bool) (role : Str)
    → IsListed w.roles
    → AreClean w.roles.db
    → (update_self_req cfg fresh id upd now w).0 ≡ ok (u', rest)
    → vec_contains (get_roles u') role ≡ true
    → (u : User) × ((Store.find id w.users).0 ≡ ok u) × (vec_contains (get_roles u) role ≡ true)
unfolding update_self_req self_request
update_self_req-roles cfg fresh id upd now w u' rest role l c h has =
    let (u, found, o1) = and_then-eq-ok (keeping w (Store.find id w.users)) _ h in
    let w1 : World = (keeping w (Store.find id w.users)).1 in
    let h1 = sym (ap value o1) ∙ h in
    let (password, _, o2) = and_then-eq-ok (self_password cfg fresh upd now u w1) _ h1 in
    let w2 = (self_password cfg fresh upd now u w1).1 in
    let h2 = sym (ap value o2) ∙ h1 in
    let w3 = (self_email upd fresh now u w2).1 in
    let req = self_request upd password u in
    let ((u2, rest2), updated, o3) = and_then-eq-ok (update_user cfg req now u w3) _ h2 in
    let h3 = sym (ap value o3) ∙ h2 in
    let same : w3.roles ≡ w.roles =
      self_email-roles upd fresh now u w2 ∙ self_password-roles cfg fresh upd now u w1 in
    let kept =
      update_user-roles cfg req now u w3 u2 rest2 (subst IsListed (sym same) l)
        (subst (λ (n : NamedStore). AreClean n.db) (sym same) c) updated in
    (
      u,
      found,
      kept_names-asked (get_roles u) w3.roles.db role
          (ap (λ rs. vec_contains rs role) (sym kept ∙ ap get_roles (user_of h3)) ∙ has),
    )
