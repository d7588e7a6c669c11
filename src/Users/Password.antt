-- ===== src/Users/Password.antt =====
-- rauthy-models/src/entity/users.rs: the rules that a new password meets, with the last passwords of
-- the user, and the check of a password at a login. Hashing and comparing (rauthy-common's
-- `HashPassword` and `ComparePasswords`, over argon2) and the character tables are parameters.
pub mod Laws
use rauthy.Base.{
  ℕ, ◌+◌, ◌*◌, ◌<◌, Bool, true, false, ◌&&◌, ◌||◌, not, Option, none, some, List, [], ◌∷◌, ◌++◌,
  ltb, leb, ◌==◌, unwrap_or, is_some, Str, codes, split, if◌then◌else◌,
}
use rauthy.ErrorResponse.{
  Result, ok, err, ◌>>=◌, ◌>>◌, ensure, bad_request, unauthorized, password_expired,
  password_refresh,
}
use rauthy.Users.{User, has_webauthn_enabled}

-- rauthy-models/src/entity/password.rs
pub record PasswordPolicy : Type 0 where
  pub length_min : ℕ
  pub length_max : ℕ
  pub include_lower_case : Option ℕ
  pub include_upper_case : Option ℕ
  pub include_digits : Option ℕ
  pub include_special : Option ℕ
  pub valid_days : Option ℕ
  pub not_recently_used : Option ℕ

-- The methods of `char` that the rules call.
pub record CharClass : Type 0 where
  pub is_lowercase : ℕ → Bool
  pub is_uppercase : ℕ → Bool
  pub is_ascii_digit : ℕ → Bool
  pub is_alphanumeric : ℕ → Bool

-- `HashPassword::hash_password` and `ComparePasswords::is_match`.
pub record Hasher : Type 0 where
  pub hash_password : Str → Result Str
  pub is_match : Str → Str → Result Bool

-- The number of bytes of a text in UTF-8.
unfoldable pub utf8_len : Str → ℕ
utf8_len [] = 0
utf8_len (c ∷ s) =
    (if ltb c 128 then 1 else if ltb c 2048 then 2 else if ltb c 65536 then 3 else 4) + utf8_len s

pub record Counts : Type 0 where
  pub lower : ℕ
  pub upper : ℕ
  pub digit : ℕ
  pub special : ℕ

-- One round of the `for_each` over the characters.
pub count_char : CharClass → Counts → ℕ → Counts
count_char cc n c =
    if cc.is_lowercase c
    then record n { lower = n.lower + 1 }
    else if cc.is_uppercase c
    then record n { upper = n.upper + 1 }
    else if cc.is_ascii_digit c
    then record n { digit = n.digit + 1 }
    else if not (cc.is_alphanumeric c)
    then record n { special = n.special + 1 }
    else n

pub count_chars : CharClass → Counts → Str → Counts
unfolding count_char
count_chars cc n [] = n
count_chars cc n (c ∷ s) = count_chars cc (count_char cc n c) s

abbrev pub no_counts : Counts
no_counts = record { lower = 0; upper = 0; digit = 0; special = 0 }

-- The tests on length and character counts at the head of `apply_password_rules`.
unfoldable pub check_rules : CharClass → PasswordPolicy → Str → Result (Unit {0})
unfolding utf8_len count_chars
check_rules cc rules plain = do
  ensure (leb rules.length_min (utf8_len plain)) bad_request
  ensure (leb (utf8_len plain) rules.length_max) bad_request
  let n = count_chars cc no_counts plain
  ensure (leb (unwrap_or rules.include_lower_case 0) n.lower) bad_request
  ensure (leb (unwrap_or rules.include_upper_case 0) n.upper) bad_request
  ensure (leb (unwrap_or rules.include_digits 0) n.digit) bad_request
  ensure (leb (unwrap_or rules.include_special 0) n.special) bad_request

-- The loop over the stored hashes: what it returns is `new_recent`.
unfoldable pub check_recent : (Str → Result Bool) → ℕ → ℕ → List Str → Result (List Str)
check_recent is_match recent_req iteration [] = ok []
check_recent is_match recent_req iteration (old ∷ hashes) =
    let rest = check_recent is_match recent_req (iteration + 1) hashes in
    do
      matches ← is_match old
      ensure (not matches) bad_request
      if iteration + 1 == recent_req
          then ok (old ∷ [])
          else do new_recent ← rest; ok (old ∷ new_recent)

-- `v.join("\n")`
unfoldable pub join_lines : List Str → Str
join_lines [] = []
join_lines (s ∷ []) = s
join_lines (s ∷ t ∷ ts) = s ++ 10 ∷ join_lines (t ∷ ts)

-- The row of `recent_passwords`, none where the user has none yet, as the rules leave it.
update_recent : (Str → Result Bool) → Option ℕ → Str → Option Str → Result (Option Str)
unfolding check_recent join_lines
update_recent is_match none new_hash row = ok row
update_recent is_match (some recent_req) new_hash none = ok (some new_hash)
update_recent is_match (some recent_req) new_hash (some passwords) = do
  new_recent ← check_recent is_match recent_req 1 (split 10 passwords)
  ok (some (new_hash ++ 10 ∷ join_lines new_recent))

-- `User::apply_password_rules`: the user and the row of `recent_passwords` that it leaves.
-- `no_expiry` is the setting `WEBAUTHN_NO_PASSWORD_EXPIRY`.
unfoldable pub apply_password_rules :
    CharClass
    → Hasher
    → PasswordPolicy
    → Bool
    → ℕ
    → User
    → Str
    → Option Str
    → Result (User × Option Str)
unfolding check_rules update_recent
apply_password_rules cc h rules no_expiry now u plain row = do
  check_rules cc rules plain
  new_hash ← h.hash_password plain
  row' ← update_recent (h.is_match plain) rules.not_recently_used new_hash row
  ok (
    record u {
      password_expires =
          if no_expiry && has_webauthn_enabled u
          then none
          else elim rules.valid_days [ none ↦ none | some d ↦ some (now + d * 86400) ];
      password = some new_hash;
    },
    row',
  )

-- `User::match_passwords`
match_passwords : Hasher → User → Str → Result Bool
match_passwords h u plain = elim u.password [
  | none ↦ err bad_request
  | some hash ↦ h.is_match plain hash
]

abbrev must_match : Result Bool → Result (Unit {0})
must_match m = do matches ← m; ensure matches unauthorized

-- The answer for an expired password, and whether a link to reset it was created and sent.
expired_password : Hasher → User → Str → Result (Unit {0}) × Bool
unfolding match_passwords
expired_password h u plain =
    if not u.enabled then (err password_expired, false) else elim (match_passwords h u plain) [
      | err e ↦ (err e, false)
      | ok matches ↦ if matches then (err password_refresh, true) else (err unauthorized, false)
    ]

-- `User::validate_password`
unfoldable pub validate_password : Hasher → User → ℕ → Str → Result (Unit {0}) × Bool
unfolding expired_password match_passwords
validate_password h u now plain =
    if not (is_some u.password)
    then (err password_expired, false)
    else if ltb (unwrap_or u.password_expires now) now
    then expired_password h u plain
    else (must_match (match_passwords h u plain), false)
