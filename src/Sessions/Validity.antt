-- ===== src/Sessions/Validity.antt =====
-- When a session is valid, how long a new one lives, and what the CSRF check demands.
use rauthy.Base.{
  ℕ, ◌+◌, ◌≤◌, ◌<◌, ◌≡◌, ◌≢◌, ◌↔◌, ◌⊎◌, refl, true, Option, none, some, arith, Str, str_eq_iff,
  opt_str_eq_iff,
}
use rauthy.ErrorResponse.{ok, err, forbidden, >>=-eq-ok}
use rauthy.Users.{User}
use rauthy.Sessions.{
  SessionState, open_state, init, auth, logged_out, unknown, state_from_str, state_as_str, Session,
  try_new, is_valid, extract_validate_csrf, validate_user_expiry, user_exp,
}

-- The text that a state is stored as gives the state back.
pub state_from_str-state_as_str : (s : SessionState) → state_from_str (state_as_str s) ≡ s
unfolding state_from_str state_as_str
state_from_str-state_as_str open_state = refl
state_from_str-state_as_str init = refl
state_from_str-state_as_str auth = refl
state_from_str-state_as_str logged_out = refl
state_from_str-state_as_str unknown = refl

-- The address of a request fits a session, if addresses are compared.
abbrev pub FitsIp : Session → Option Str → Type 0
FitsIp s none = Unit
FitsIp s (some ip) = (s.state ≡ open_state) ⊎ (s.state ≡ auth) → s.remote_ip ≡ some ip

-- What `is_valid` means, written without its early returns.
pub record IsValidAt (s : Session) (now timeout : ℕ) (ip : Option Str) : Type 0 where
  pub not_expired : now ≤ s.exp
  pub seen : now ≤ s.last_seen + timeout
  pub known : s.state ≢ unknown
  pub fits : FitsIp s ip

is_valid-IsValidAt :
    (s : Session) (now timeout : ℕ) (ip : Option Str)
    → is_valid s now timeout ip ≡ true
    → IsValidAt s now timeout ip
unfolding is_valid
is_valid-IsValidAt s now timeout none h = ground arith
is_valid-IsValidAt s now timeout (some ip) h = ground (arith, opt_str_eq_iff s.remote_ip (some ip))

IsValidAt-is_valid :
    (s : Session) (now timeout : ℕ) (ip : Option Str)
    → IsValidAt s now timeout ip
    → is_valid s now timeout ip ≡ true
unfolding is_valid
IsValidAt-is_valid s now timeout none h = ground arith
IsValidAt-is_valid s now timeout (some ip) h = ground (arith, opt_str_eq_iff s.remote_ip (some ip))

-- A session is valid exactly if it has not expired or timed out, its state is known, and, once it is
-- open or authenticated, its address is that of the request where addresses are compared.
pub is_valid_iff :
    (s : Session) (now timeout : ℕ) (ip : Option Str)
    → (is_valid s now timeout ip ≡ true) ↔ IsValidAt s now timeout ip
is_valid_iff s now timeout ip =
    (is_valid-IsValidAt s now timeout ip, IsValidAt-is_valid s now timeout ip)

user_exp_bounds :
    (expires : Option ℕ) (now exp_in : ℕ) {exp : ℕ}
    → user_exp expires now exp_in ≡ ok exp
    → (now ≤ exp) × (exp ≤ now + exp_in) × ((ts : ℕ) → expires ≡ some ts → exp ≤ ts)
unfolding user_exp
user_exp_bounds none now exp_in h = (ground arith, ground arith, λ ts e. cc)
user_exp_bounds (some t) now exp_in h = (ground arith, ground arith, λ ts e. ground arith)

-- A session that `try_new` gives starts in the state `init`, for the user, ends no earlier than now,
-- and lives for the configured time at most and never longer than the user.
pub try_new_bounds :
    (id csrf : Str) (now : ℕ) (user : User) (exp_in : ℕ) (ip : Option Str) (s : Session)
    → try_new id csrf now user exp_in ip ≡ ok s
    → (s.state ≡ init)
      × (s.user_id ≡ some user.id)
      × (now ≤ s.exp)
      × (s.exp ≤ now + exp_in)
      × ((ts : ℕ) → user.user_expires ≡ some ts → s.exp ≤ ts)
unfolding try_new
try_new_bounds id csrf now user exp_in ip s h =
    let (exp, found, built) = >>=-eq-ok (user_exp user.user_expires now exp_in) _ h in
    let (lo, hi, user_hi) = user_exp_bounds user.user_expires now exp_in found in
    (ground arith, ground arith, ground arith, ground arith, λ ts e. ground (arith, user_hi ts e))

-- A user who has expired gets no session.
pub try_new_expired :
    (id csrf : Str) (now : ℕ) (user : User) (exp_in : ℕ) (ip : Option Str) (ts : ℕ)
    → user.user_expires ≡ some ts
    → ts < now
    → try_new id csrf now user exp_in ip ≡ err forbidden
unfolding try_new
try_new_expired id csrf now user exp_in ip ts e h = ground arith

-- The session is handed over exactly if it is there and the header repeats its token.
pub extract_validate_csrf_iff :
    (req : Option Session) (csrf : Option Str) (s : Session)
    → (extract_validate_csrf req csrf ≡ ok s) ↔ ((req ≡ some s) × (csrf ≡ some s.csrf_token))
unfolding extract_validate_csrf
extract_validate_csrf_iff none csrf s = ground arith
extract_validate_csrf_iff (some r) none s = ground arith
extract_validate_csrf_iff (some r) (some c) s = ground (arith, str_eq_iff r.csrf_token c)

-- A login never prolongs a session, and ends it with the user's account at the latest.
pub validate_user_expiry_bounds :
    (s t : Session) (now : ℕ) (user : User)
    → validate_user_expiry s now user ≡ ok t
    → (t.exp ≤ s.exp) × ((ts : ℕ) → user.user_expires ≡ some ts → (now ≤ ts) × (t.exp ≤ ts))
unfolding validate_user_expiry
validate_user_expiry_bounds s t now user h = (ground arith, λ ts e. ground arith)
