-- ===== src/ApiKeys/Access.antt =====
-- What an API key gives access to.
use rauthy.Base.{
  ℕ, ◌≤◌, ◌≡◌, ◌≢◌, ◌↔◌, refl, true, false, some, List, [], ◌∷◌, arith, Str, str_eq_iff, ◌⊎◌, inl,
  inr, Bool-cases, Option-cases,
}
use rauthy.ErrorResponse.{ok}
use rauthy.ApiKeys.{
  AccessGroup, AccessRights, AccessGroup-discrete, AccessRights-discrete, ApiKeyAccess, ApiKey,
  validate_access, validate_secret, has_right, group_eq, rights_eq,
}

-- The entry for a group that stands first holds the right.
abbrev pub HasRight : List AccessRights → AccessRights → Type 0
HasRight [] r = ⊥
HasRight (a ∷ rights) r = (a ≡ r) ⊎ HasRight rights r

pub data Grants (group : AccessGroup) (right : AccessRights) : List ApiKeyAccess → Type 0 where
  first :
      {a : ApiKeyAccess} {access : List ApiKeyAccess}
      → a.group ≡ group
      → HasRight a.access_rights right
      → Grants group right (a ∷ access)
  later :
      {a : ApiKeyAccess} {access : List ApiKeyAccess}
      → a.group ≢ group
      → Grants group right access
      → Grants group right (a ∷ access)

rights_eq_iff : (a b : AccessRights) → (rights_eq a b ≡ true) ↔ (a ≡ b)
unfolding rights_eq
rights_eq_iff a b =
    elim (AccessRights-discrete a b)
      as (λ d. ((elim d [ yes _ ↦ true | no _ ↦ false ]) ≡ true) ↔ (a ≡ b)) [
        | yes p ↦ (λ _. p, λ _. refl)
        | no n ↦ (λ h. cc, λ p. absurd (n p))
      ]

group_eq_iff : (a b : AccessGroup) → (group_eq a b ≡ true) ↔ (a ≡ b)
unfolding group_eq
group_eq_iff a b =
    elim (AccessGroup-discrete a b)
      as (λ d. ((elim d [ yes _ ↦ true | no _ ↦ false ]) ≡ true) ↔ (a ≡ b)) [
        | yes p ↦ (λ _. p, λ _. refl)
        | no n ↦ (λ h. cc, λ p. absurd (n p))
      ]

has_right_iff :
    (rights : List AccessRights) (r : AccessRights)
    → (has_right rights r ≡ true) ↔ HasRight rights r
unfolding has_right
has_right_iff [] r = ground arith
has_right_iff (a ∷ rights) r = ground (arith, rights_eq_iff a r, has_right_iff rights r)

validate_access-Grants :
    (access : List ApiKeyAccess) (g : AccessGroup) (r : AccessRights)
    → validate_access access g r ≡ ok tt
    → Grants g r access
unfolding validate_access
validate_access-Grants [] g r h = cc
validate_access-Grants (a ∷ access) g r h = elim (Bool-cases (group_eq a.group g)) [
  | inl same ↦
      first ((group_eq_iff a.group g).0 same) ((has_right_iff a.access_rights r).0 (ground arith))
  | inr other ↦
      later (λ e. cc (other, (group_eq_iff a.group g).1 e))
        (validate_access-Grants access g r (ground arith))
]

Grants-validate_access :
    {g : AccessGroup} {r : AccessRights} {access : List ApiKeyAccess}
    → Grants g r access
    → validate_access access g r ≡ ok tt
unfolding validate_access
Grants-validate_access {g} {r} (first {a} e h) =
    ground (arith, group_eq_iff a.group g, has_right_iff a.access_rights r)
Grants-validate_access {g} {r} (later {a} n h) =
    ground (arith, group_eq_iff a.group g, Grants-validate_access h)

-- A key gives access exactly if the first entry for the group lists the right.
pub validate_access_iff :
    (access : List ApiKeyAccess) (g : AccessGroup) (r : AccessRights)
    → (validate_access access g r ≡ ok tt) ↔ Grants g r access
validate_access_iff access g r = (validate_access-Grants access g r, λ h. Grants-validate_access h)

-- The secret is accepted exactly while the key has not expired, and if it hashes to the stored value.
pub validate_secret_iff :
    (sha256 : Str → Str) (key : ApiKey) (now : ℕ) (secret : Str)
    → (validate_secret sha256 key now secret ≡ ok tt)
      ↔ (((exp : ℕ) → key.expires ≡ some exp → now ≤ exp) × (sha256 secret ≡ key.secret))
unfolding validate_secret
validate_secret_iff sha256 key now secret = elim (Option-cases key.expires) [
  | inl never ↦ (
    λ h. (λ exp e. cc, ground (arith, str_eq_iff (sha256 secret) key.secret)),
    λ (f, e). ground (arith, str_eq_iff (sha256 secret) key.secret),
  )
  | inr (t, limit) ↦ (
    λ h. (λ exp e. ground arith, ground (arith, str_eq_iff (sha256 secret) key.secret)),
    λ (f, e). ground (arith, f t limit, str_eq_iff (sha256 secret) key.secret),
  )
]
