-- ===== src/Events.antt =====
-- rauthy-models/src/events/event.rs: events, their levels and types, and the numbers and texts that
-- stand for these in the database. The level of an event whose level is configured is an argument.
pub mod Codes
use rauthy.Base.{
  ℕ, zero, suc, Bool, true, false, Option, none, some, leb, ◌==◌, Str, codes, str_eq, if◌then◌else◌,
}
use rauthy.ErrorResponse.{Result, ok, err, internal}

pub data EventLevel : Type 0 where
  info notice warning critical : EventLevel

unfoldable pub level_value : EventLevel → ℕ
level_value info = 0
level_value notice = 1
level_value warning = 2
level_value critical = 3

-- `From<i64> for EventLevel`; none where the source is `unreachable!()`.
unfoldable pub level_from : ℕ → Option EventLevel
level_from zero = some info
level_from (suc zero) = some notice
level_from (suc (suc zero)) = some warning
level_from (suc (suc (suc zero))) = some critical
level_from _ = none

-- `FromStr for EventLevel`, and `EventLevel::as_str`.
unfoldable pub level_from_str : Str → Result EventLevel
unfolding str_eq
level_from_str s =
    if str_eq s (codes "info")
    then ok info
    else if str_eq s (codes "notice")
    then ok notice
    else if str_eq s (codes "warning")
    then ok warning
    else if str_eq s (codes "critical")
    then ok critical
    else err internal

unfoldable pub level_as_str : EventLevel → Str
level_as_str info = codes "INFO"
level_as_str notice = codes "NOTICE"
level_as_str warning = codes "WARNING"
level_as_str critical = codes "CRITICAL"

pub data EventType : Type 0 where
  invalid_logins ip_blacklisted ip_blacklist_removed jwks_rotated : EventType
  new_user_registered new_rauthy_admin new_rauthy_version possible_brute_force : EventType
  rauthy_started rauthy_healthy rauthy_unhealthy secrets_migrated : EventType
  user_email_change user_password_reset test : EventType

unfoldable pub type_as_str : EventType → Str
type_as_str invalid_logins = codes "InvalidLogins"
type_as_str ip_blacklisted = codes "IpBlacklisted"
type_as_str ip_blacklist_removed = codes "IpBlacklistRemoved"
type_as_str jwks_rotated = codes "JwksRotated"
type_as_str new_user_registered = codes "NewUserRegistered"
type_as_str new_rauthy_admin = codes "NewRauthyAdmin"
type_as_str new_rauthy_version = codes "NewRauthyVersion"
type_as_str possible_brute_force = codes "PossibleBruteForce"
type_as_str rauthy_started = codes "RauthyRestarted"
type_as_str rauthy_healthy = codes "RauthyHealthy"
type_as_str rauthy_unhealthy = codes "RauthyUnhealthy"
type_as_str secrets_migrated = codes "SecretsMigrated"
type_as_str user_email_change = codes "UserEmailChange"
type_as_str user_password_reset = codes "UserPasswordReset"
type_as_str test = codes "TEST"

-- `From<String> for EventType`: an unknown text is a test event.
unfoldable pub type_from_str : Str → EventType
unfolding str_eq
type_from_str s =
    if str_eq s (codes "InvalidLogins")
    then invalid_logins
    else if str_eq s (codes "IpBlacklisted")
    then ip_blacklisted
    else if str_eq s (codes "IpBlacklistRemoved")
    then ip_blacklist_removed
    else if str_eq s (codes "JwksRotated")
    then jwks_rotated
    else if str_eq s (codes "NewUserRegistered")
    then new_user_registered
    else if str_eq s (codes "NewRauthyAdmin")
    then new_rauthy_admin
    else if str_eq s (codes "NewRauthyVersion")
    then new_rauthy_version
    else if str_eq s (codes "PossibleBruteForce")
    then possible_brute_force
    else if str_eq s (codes "RauthyRestarted")
    then rauthy_started
    else if str_eq s (codes "RauthyHealthy")
    then rauthy_healthy
    else if str_eq s (codes "RauthyUnhealthy")
    then rauthy_unhealthy
    else if str_eq s (codes "SecretsMigrated")
    then secrets_migrated
    else if str_eq s (codes "UserEmailChange")
    then user_email_change
    else if str_eq s (codes "UserPasswordReset")
    then user_password_reset
    else test

unfoldable pub type_value : EventType → ℕ
type_value invalid_logins = 0
type_value ip_blacklisted = 1
type_value ip_blacklist_removed = 2
type_value jwks_rotated = 3
type_value new_user_registered = 4
type_value new_rauthy_admin = 5
type_value new_rauthy_version = 6
type_value possible_brute_force = 7
type_value rauthy_started = 8
type_value rauthy_healthy = 9
type_value rauthy_unhealthy = 10
type_value secrets_migrated = 11
type_value user_email_change = 12
type_value user_password_reset = 13
type_value test = 14

-- `From<i64> for EventType`
unfoldable pub type_from : ℕ → EventType
type_from n =
    if n == 0
    then invalid_logins
    else if n == 1
    then ip_blacklisted
    else if n == 2
    then ip_blacklist_removed
    else if n == 3
    then jwks_rotated
    else if n == 4
    then new_user_registered
    else if n == 5
    then new_rauthy_admin
    else if n == 6
    then new_rauthy_version
    else if n == 7
    then possible_brute_force
    else if n == 8
    then rauthy_started
    else if n == 9
    then rauthy_healthy
    else if n == 10
    then rauthy_unhealthy
    else if n == 11
    then secrets_migrated
    else if n == 12
    then user_email_change
    else if n == 13
    then user_password_reset
    else test

-- An `Event`, less its random id and its time.
pub record Event : Type 0 where
  pub level : EventLevel
  pub typ : EventType
  pub ip : Option Str
  pub number : Option ℕ
  pub text : Option Str

-- The levels that the configuration gives to failed logins, by their number.
pub record Levels : Type 0 where
  pub failed_login : EventLevel
  pub failed_logins_7 : EventLevel
  pub failed_logins_10 : EventLevel
  pub failed_logins_15 : EventLevel
  pub failed_logins_20 : EventLevel
  pub failed_logins_25 : EventLevel
  pub ip_blacklisted : EventLevel

unfoldable pub login_level : Levels → ℕ → EventLevel
login_level ls n =
    if leb 25 n
    then ls.failed_logins_25
    else if leb 20 n
    then ls.failed_logins_20
    else if leb 15 n
    then ls.failed_logins_15
    else if leb 10 n
    then ls.failed_logins_10
    else if leb 7 n
    then ls.failed_logins_7
    else ls.failed_login

unfoldable pub invalid_login : Levels → ℕ → Str → Event
unfolding login_level
invalid_login ls n ip = record {
  level = login_level ls n;
  typ = invalid_logins;
  ip = some ip;
  number = some n;
  text = none;
}

unfoldable pub ip_blacklisted_event : Levels → ℕ → Str → Event
ip_blacklisted_event ls exp ip = record {
  level = ls.ip_blacklisted;
  typ = ip_blacklisted;
  ip = some ip;
  number = some exp;
  text = none;
}

unfoldable pub ip_blacklist_removed_event : Levels → Str → Event
ip_blacklist_removed_event ls ip = record {
  level = ls.ip_blacklisted;
  typ = ip_blacklist_removed;
  ip = some ip;
  number = none;
  text = none;
}
