-- ===== src/Users/Tests.antt =====
-- Runs of the password rules and of the list of roles.
use rauthy.Base.{
  ℕ, ◌+◌, ◌≤◌, ◌<◌, ◌≡◌, ◌↔◌, refl, Bool, true, false, Option, none, some, List, [], ◌∷◌, ◌++◌, All,
  arith, unwrap_or, Str, codes, leb, ◌&&◌, ◌||◌, str_eq, trim, find, contains,
}
use rauthy.ErrorResponse.{ok}
use rauthy.Fixtures.{a_user}
use rauthy.Users.{User, get_roles, is_admin, push_role, delete_role}
use rauthy.Users.Roles.{get_roles-push_role, delete_role_kept, is_admin-push_role}
use rauthy.Users.Password.{
  PasswordPolicy, CharClass, Hasher, check_recent, apply_password_rules, validate_password,
}
use rauthy.Users.Password.Laws.{
  Meets, first_n, check_recent_iff, apply_password_rules_sound, validate_password_iff,
  validate_password_sends,
}

-- A hash is the password itself.
abbrev plain_hasher : Hasher
plain_hasher = record { hash_password = λ p. ok p; is_match = λ p h. ok (str_eq p h) }

abbrev ascii : CharClass
ascii = record {
  is_lowercase = λ c. leb 97 c && leb c 122;
  is_uppercase = λ c. leb 65 c && leb c 90;
  is_ascii_digit = λ c. leb 48 c && leb c 57;
  is_alphanumeric = λ c. leb 97 c && leb c 122 || leb 65 c && leb c 90 || leb 48 c && leb c 57;
}

abbrev policy : PasswordPolicy
policy = record {
  length_min = 3;
  length_max = 8;
  include_lower_case = some 1;
  include_upper_case = some 1;
  include_digits = some 1;
  include_special = none;
  valid_days = some 2;
  not_recently_used = some 3;
}

abbrev taken : User
taken = record a_user { password = some (codes "aB1"); password_expires = some 172900 }

apply_run :
    apply_password_rules ascii plain_hasher policy false 100 a_user (codes "aB1") (some (codes "p"))
    ≡ ok (taken, some (codes "aB1\np"))
unfolding apply_password_rules rauthy.Base.split str_eq
apply_run = refl

apply_password_rules_sound_run :
    Meets ascii policy (codes "aB1")
    × ((hash : Str) × (plain_hasher.hash_password (codes "aB1") ≡ ok hash)
        × (taken.password ≡ some hash))
apply_password_rules_sound_run =
    apply_password_rules_sound ascii plain_hasher policy false 100 a_user (codes "aB1")
      (some (codes "p")) taken (some (codes "aB1\np")) apply_run

check_recent_iff_example :
    (check_recent (λ h. ok (str_eq (codes "b") h)) 3 1 (codes "p" ∷ codes "a" ∷ codes "b" ∷ [])
      ≡ ok (codes "p" ∷ codes "a" ∷ []))
    ↔ ((codes "p" ∷ codes "a" ∷ [] ≡ first_n 2 (codes "p" ∷ codes "a" ∷ codes "b" ∷ []))
        × All
            (λ old. ok (str_eq (codes "b") old) ≡ ok false)
            (first_n 2 (codes "p" ∷ codes "a" ∷ codes "b" ∷ [])))
check_recent_iff_example =
    check_recent_iff (λ h. ok (str_eq (codes "b") h)) 1 (codes "p" ∷ codes "a" ∷ codes "b" ∷ [])
      (codes "p" ∷ codes "a" ∷ [])

login_run : validate_password plain_hasher a_user 100 (codes "p") ≡ (ok tt, false)
unfolding validate_password str_eq
login_run = refl

validate_password_iff_example :
    ((validate_password plain_hasher a_user 100 (codes "p")).0 ≡ ok tt) ↔ (
      (hash : Str) × (a_user.password ≡ some hash)
      × (100 ≤ unwrap_or a_user.password_expires 100)
      × (plain_hasher.is_match (codes "p") hash ≡ ok true))
validate_password_iff_example = validate_password_iff plain_hasher a_user 100 (codes "p")

abbrev outdated : User
outdated = record a_user { password_expires = some 50 }

validate_password_sends_run :
    ((validate_password plain_hasher outdated 100 (codes "p")).1 ≡ true) ↔ (
      (hash : Str) × (outdated.password ≡ some hash)
      × (unwrap_or outdated.password_expires 100 < 100)
      × (outdated.enabled ≡ true)
      × (plain_hasher.is_match (codes "p") hash ≡ ok true))
validate_password_sends_run = validate_password_sends plain_hasher outdated 100 (codes "p")

qa_trimmed : trim (codes "qa") ≡ codes "qa"
unfolding trim
qa_trimmed = refl

get_roles-push_role_run :
    get_roles (push_role a_user (codes "qa")) ≡ get_roles a_user ++ codes "qa" ∷ []
get_roles-push_role_run =
    get_roles-push_role a_user (codes "qa") (omega arith, (omega arith, tt)) qa_trimmed (cc)

is_admin-push_role_example : is_admin (push_role a_user (codes "rauthy_admin")) ≡ true
is_admin-push_role_example = is_admin-push_role a_user

-- The roles `dev_x,dev`, of which `dev` is deleted.
abbrev two_roles : User
two_roles = record a_user { roles = codes "dev_x,dev" }

found_first : find two_roles.roles (codes "dev") ≡ some 0
unfolding find
found_first = refl

not_there : contains two_roles.roles (codes "dev" ++ codes ",") ≡ false
unfolding contains
not_there = refl

delete_role_kept_run : delete_role two_roles (codes "dev") ≡ two_roles
delete_role_kept_run = delete_role_kept two_roles (codes "dev") found_first (omega arith) not_there
