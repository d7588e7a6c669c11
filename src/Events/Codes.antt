-- ===== src/Events/Codes.antt =====
-- The texts and numbers of levels and types.
use rauthy.Base.{◌≡◌, refl, some}
use rauthy.ErrorResponse.{err, internal}
use rauthy.Events.{
  EventLevel, info, notice, warning, critical, level_value, level_from, level_from_str,
  level_as_str, EventType, invalid_logins, ip_blacklisted, ip_blacklist_removed, jwks_rotated,
  new_user_registered, new_rauthy_admin, new_rauthy_version, possible_brute_force, rauthy_started,
  rauthy_healthy, rauthy_unhealthy, secrets_migrated, user_email_change, user_password_reset, test,
  type_as_str, type_from_str, type_value, type_from,
}

-- The text and the number of an event type both give the type back.
pub type_round_trip :
    (t : EventType) → (type_from_str (type_as_str t) ≡ t) × (type_from (type_value t) ≡ t)
unfolding type_from_str type_as_str type_from type_value
type_round_trip invalid_logins = (refl, refl)
type_round_trip ip_blacklisted = (refl, refl)
type_round_trip ip_blacklist_removed = (refl, refl)
type_round_trip jwks_rotated = (refl, refl)
type_round_trip new_user_registered = (refl, refl)
type_round_trip new_rauthy_admin = (refl, refl)
type_round_trip new_rauthy_version = (refl, refl)
type_round_trip possible_brute_force = (refl, refl)
type_round_trip rauthy_started = (refl, refl)
type_round_trip rauthy_healthy = (refl, refl)
type_round_trip rauthy_unhealthy = (refl, refl)
type_round_trip secrets_migrated = (refl, refl)
type_round_trip user_email_change = (refl, refl)
type_round_trip user_password_reset = (refl, refl)
type_round_trip test = (refl, refl)

-- The number of a level gives the level back, while its text, in capitals, is refused where a level is
-- read from a text.
pub level_round_trip :
    (l : EventLevel)
    → (level_from (level_value l) ≡ some l) × (level_from_str (level_as_str l) ≡ err internal)
unfolding level_from level_value level_from_str level_as_str
level_round_trip info = (refl, refl)
level_round_trip notice = (refl, refl)
level_round_trip warning = (refl, refl)
level_round_trip critical = (refl, refl)
