-- ===== src/ApiKeys.antt =====
-- rauthy-models/src/entity/api_keys.rs: API keys, their access rights and their secret. The hash of a
-- secret (SHA256, of the crate ring) is a parameter; rows are stored encrypted, and a key stands here
-- as it is decrypted.
pub mod Access
pub mod Store
pub mod Tests
use rauthy.Base.{
  ℕ, Bool, true, false, ◌||◌, Option, none, some, List, [], ◌∷◌, ltb, Str, codes, str_eq,
  if◌then◌else◌,
}
use rauthy.ErrorResponse.{Result, ok, err, ◌>>=◌, ◌>>◌, forbidden, unauthorized}

pub data AccessGroup : Type 0 where
  blacklist clients events generic groups roles secrets sessions scopes : AccessGroup
  user_attributes users : AccessGroup

pub data AccessRights : Type 0 where
  read create update delete : AccessRights

pub AccessGroup-discrete : Discrete AccessGroup
AccessGroup-discrete = hlevel

pub AccessRights-discrete : Discrete AccessRights
AccessRights-discrete = hlevel

pub record ApiKeyAccess : Type 0 where
  pub group : AccessGroup
  pub access_rights : List AccessRights

pub record ApiKey : Type 0 where
  pub name : Str
  pub secret : Str
  pub created : ℕ
  pub expires : Option ℕ
  pub access : List ApiKeyAccess

-- The derived `==` of the two enums.
group_eq : AccessGroup → AccessGroup → Bool
group_eq a b = elim (AccessGroup-discrete a b) [ yes _ ↦ true | no _ ↦ false ]

rights_eq : AccessRights → AccessRights → Bool
rights_eq a b = elim (AccessRights-discrete a b) [ yes _ ↦ true | no _ ↦ false ]

-- `access_rights.contains(…)`
has_right : List AccessRights → AccessRights → Bool
has_right [] r = false
has_right (a ∷ rights) r = rights_eq a r || has_right rights r

-- `ApiKey::validate_access`: the first entry for the group decides.
unfoldable pub validate_access : List ApiKeyAccess → AccessGroup → AccessRights → Result (Unit {0})
unfolding group_eq rights_eq has_right
validate_access [] g right = err forbidden
validate_access (a ∷ access) g right =
    let rest = validate_access access g right in
    if group_eq a.group g
    then (if has_right a.access_rights right then ok tt else err forbidden)
    else rest

-- `ApiKey::validate_secret`
unfoldable pub validate_secret : (Str → Str) → ApiKey → ℕ → Str → Result (Unit {0})
validate_secret sha256 key now secret =
    let checked = if str_eq (sha256 secret) key.secret then ok tt else err unauthorized in
    elim key.expires [
      | none ↦ checked
      | some exp ↦ if ltb exp now then err unauthorized else checked
    ]
