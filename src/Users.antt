-- ===== src/Users.antt =====
-- rauthy-models/src/entity/users.rs: the user entity, the kind of account, the checks on it, and the
-- lists of roles and groups that it holds as comma separated texts.
pub mod Password
pub mod Roles
pub mod Store
pub mod Tests
use rauthy.Base.{
  zero, suc, ℕ, ◌+◌, ◌<◌, Bool, true, false, ◌&&◌, ◌||◌, not, Option, none, some, List, [], ◌∷◌,
  ◌++◌, length, ltb, is_some, is_empty, Str, codes, str_eq, find, replace, csv, vec_contains,
  if◌then◌else◌,
}
use rauthy.ErrorResponse.{Result, ok, err, disabled}

pub data AccountType : Type 0 where
  new password passkey federated federated_password federated_passkey : AccountType

pub record User : Type 0 where
  pub id : Str
  pub email : Str
  pub given_name : Str
  pub family_name : Str
  pub password : Option Str
  pub roles : Str
  pub groups : Option Str
  pub enabled : Bool
  pub email_verified : Bool
  pub password_expires : Option ℕ
  pub created_at : ℕ
  pub last_login : Option ℕ
  pub last_failed_login : Option ℕ
  pub failed_login_attempts : Option ℕ
  pub language : Str
  pub webauthn_user_id : Option Str
  pub user_expires : Option ℕ
  pub auth_provider_id : Option Str
  pub federation_uid : Option Str

unfoldable pub has_webauthn_enabled : User → Bool
has_webauthn_enabled u = is_some u.webauthn_user_id

unfoldable pub account_type : User → AccountType
unfolding has_webauthn_enabled
account_type u =
    if is_some u.federation_uid && is_some u.password
    then federated_password
    else if is_some u.federation_uid && has_webauthn_enabled u
    then federated_passkey
    else if is_some u.federation_uid
    then federated
    else if is_some u.password
    then AccountType.password
    else if has_webauthn_enabled u
    then passkey
    else new

unfoldable pub check_enabled : User → Result (Unit {0})
check_enabled u = if not u.enabled then err disabled else ok tt

unfoldable pub check_expired : User → ℕ → Result (Unit {0})
check_expired u now = elim u.user_expires [
  | none ↦ ok tt
  | some ts ↦ if ltb ts now then err disabled else ok tt
]

-- `User::get_roles` and `User::get_groups`
unfoldable pub get_roles : User → List Str
get_roles u = if is_empty u.roles then [] else csv u.roles

unfoldable pub get_groups : User → List Str
get_groups u = elim u.groups [ none ↦ [] | some g ↦ csv g ]

unfoldable pub is_admin : User → Bool
unfolding get_roles
is_admin u = vec_contains (get_roles u) (codes "rauthy_admin")

unfoldable pub push_role : User → Str → User
push_role u role = record u { roles = if is_empty u.roles then role else u.roles ++ b',' ∷ role }

unfoldable pub push_group : User → Str → User
push_group u group = record u {
  groups = elim u.groups [ none ↦ some group | some g ↦ some (g ++ b',' ∷ group) ];
}

-- The text without an entry that `find` saw at `i`: the first entry goes with the comma behind it, any
-- other with the one before it.
unfoldable pub delete_at : ℕ → Str → Str → Str
delete_at i csv entry = elim i [
  | zero ↦ if ltb (length entry) (length csv) then replace csv (entry ++ codes ",") [] else []
  | suc _ ↦ replace csv (codes "," ++ entry) []
]

unfoldable pub delete_role : User → Str → User
unfolding delete_at
delete_role u role = elim (find u.roles role) [
  | none ↦ u
  | some i ↦ record u { roles = delete_at i u.roles role }
]

-- The groups of `delete_group`: where the only entry goes, so does the text.
delete_group_at : ℕ → Str → Str → Option Str
delete_group_at i csv entry = elim i [
  | zero ↦
      if ltb (length entry) (length csv) then some (replace csv (entry ++ codes ",") []) else none
  | suc _ ↦ some (replace csv (codes "," ++ entry) [])
]

unfoldable pub delete_group : User → Str → User
unfolding delete_group_at
delete_group u group = elim u.groups [
  | none ↦ u
  | some g ↦ elim (find g group) [
    | none ↦ u
    | some i ↦ record u { groups = delete_group_at i g group }
  ]
]
