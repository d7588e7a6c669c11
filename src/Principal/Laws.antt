-- ===== src/Principal/Laws.antt =====
-- Whom the checks of a principal let through.
use rauthy.Base.{
  ◌≡◌, ◌↔◌, ◌⊎◌, inl, inr, Bool, true, none, some, arith, Str, codes, opt_str_eq_iff, vec_contains,
  Option-cases,
}
use rauthy.ErrorResponse.{ok}
use rauthy.Sessions.{Session, auth}
use rauthy.ApiKeys.{ApiKey, AccessGroup, AccessRights}
use rauthy.ApiKeys.Access.{Grants, validate_access_iff}
use rauthy.Principal.{
  Principal, validate_session_auth, validate_admin_session, validate_api_key_or_admin_session,
  validate_user_or_admin,
}

-- There is a session, and it is authenticated.
pub record IsAuthenticated (p : Principal) (s : Session) : Type 0 where
  pub given : p.session ≡ some s
  pub authenticated : s.state ≡ auth

validate_session_auth_iff :
    (p : Principal) (s : Session) → (validate_session_auth p ≡ ok s) ↔ IsAuthenticated p s
unfolding validate_session_auth
validate_session_auth_iff p s = ground arith

-- What it takes to act as an admin: an authenticated session, the role, and a second factor where the
-- configuration forces one.
pub record IsAdminSession (force : Bool) (p : Principal) : Type 0 where
  pub session : Session
  pub holds : IsAuthenticated p session
  pub admin : vec_contains p.roles (codes "rauthy_admin") ≡ true
  pub mfa : force ≡ true → session.is_mfa ≡ true

-- An admin session is accepted exactly if it is authenticated, has the role `rauthy_admin`, and has
-- passed a second factor where that is forced.
pub validate_admin_session_iff :
    (force : Bool) (p : Principal)
    → (validate_admin_session force p ≡ ok tt) ↔ IsAdminSession force p
unfolding validate_admin_session
validate_admin_session_iff force p = elim (Option-cases p.session) [
  | inl gone ↦ (λ h. absurd (ground arith), λ h. cc (gone, h.holds.given))
  | inr (s, here) ↦ (
    λ h. record {
      session = s;
      holds = ground arith;
      admin = ground arith;
      mfa = λ f. ground arith;
    },
    λ h. ground (arith, h.holds.given, h.holds.authenticated, h.admin, h.mfa),
  )
]

-- A request with an API key is let through exactly if the key grants the right: an admin session does
-- not help a key that lacks it. One without a key is let through exactly with an admin session:
-- authenticated, with the role `rauthy_admin`, and with a second factor where that is forced.
pub validate_api_key_or_admin_session_lem :
    (force : Bool) (p : Principal) (g : AccessGroup) (r : AccessRights)
    → (validate_api_key_or_admin_session force p g r ≡ ok tt) ↔ (
        ((key : ApiKey) × (p.api_key ≡ some key) × Grants g r key.access)
        ⊎ ((p.api_key ≡ none) × IsAdminSession force p))
unfolding validate_api_key_or_admin_session
validate_api_key_or_admin_session_lem force p g r = elim (Option-cases p.api_key) [
  | inl no_key ↦ (
    λ h. inr (
      no_key,
      (validate_admin_session_iff force p).0 (rw (no_key, validate_api_key_or_admin_session) at h),
    ),
    elim [
      | inl (key, e, _) ↦ cc
      | inr (_, a) ↦
          rw (no_key, validate_api_key_or_admin_session) ((validate_admin_session_iff force p).1 a)
    ],
  )
  | inr (key, here) ↦ (
    λ h. inl (key, here, (validate_access_iff key.access g r).0 (ground arith)),
    elim [
      | inl (k, e, granted) ↦ ground (arith, (validate_access_iff k.access g r).1 granted)
      | inr (e, _) ↦ cc
    ],
  )
]

-- A user's data are open to an authenticated session that is the user's own or an admin's.
pub validate_user_or_admin_iff :
    (p : Principal) (id : Str)
    → (validate_user_or_admin p id ≡ ok tt) ↔ (
        (s : Session) × IsAuthenticated p s
        × ((vec_contains p.roles (codes "rauthy_admin") ≡ true) ⊎ (s.user_id ≡ some id)))
unfolding validate_user_or_admin
validate_user_or_admin_iff p id = elim (Option-cases p.session) [
  | inl gone ↦ (λ h. absurd (ground arith), λ t. cc (gone, t.1.given))
  | inr (s, here) ↦ (
    λ h. (s, ground arith, ground (arith, opt_str_eq_iff s.user_id (some id))),
    λ (t, a, or). ground (arith, a.given, opt_str_eq_iff s.user_id (some id)),
  )
]
