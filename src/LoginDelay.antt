-- ===== src/LoginDelay.antt =====
-- rauthy-service/src/auth.rs: `handle_login_delay`, which slows failed logins down and blacklists the
-- address after several. It asks the task of IpBlacklist and sends events; the answer is the error or
-- success that it was given, or a refusal, with the milliseconds that it sleeps before.
pub mod Penalties
pub mod Blocks
pub mod Tests
use rauthy.Base.{
  ℕ, ◌+◌, ◌-◌, ◌*◌, ◌/◌, Bool, true, false, Option, none, some, List, [], ◌∷◌, ◌++◌, ltb, leb, ◌==◌,
  unwrap_or, Str, codes, if◌then◌else◌,
}
use rauthy.ErrorResponse.{ErrorResponseType, Result, ok, err, too_many_requests}
use rauthy.Events.{Event, Levels, invalid_login, ip_blacklisted_event}
use rauthy.IpBlacklist.{
  State, Reply, no_reply, expires, counter, ips, login_check, login_failed_delete, handle,
}

-- The outcome of the login: whether a password was hashed, or the error and whether to delay it.
pub data Login : Type 0 where
  logged_in : Bool → Login
  failed : ErrorResponseType → Bool → Login

pub record World : Type 0 where
  pub ip_task : State
  -- The average time of a successful login, in the cache, in milliseconds.
  pub login_time : Option ℕ
  -- The events sent, in their order.
  pub events : List Event

pub record Answer : Type 0 where
  pub result : Result (Unit {0})
  pub slept : ℕ

-- What a number of failed logins leads to: the address is blocked for so many seconds, or the answer is
-- delayed by so many milliseconds for each failed login.
pub data Penalty : Type 0 where
  block : ℕ → Penalty
  delay : ℕ → Penalty

-- The arms of `match failed_logins as u64`, in their order.
unfoldable pub penalty : ℕ → Penalty
penalty t =
    if leb 25 t
    then block 86400
    else if ltb 20 t
    then delay 20000
    else if t == 20
    then block 3600
    else if ltb 15 t
    then delay 15000
    else if t == 15
    then block 900
    else if ltb 10 t
    then delay 10000
    else if t == 10
    then block 600
    else if ltb 7 t
    then delay 5000
    else if t == 7
    then block 60
    else if leb 5 t
    then delay 3000
    else if leb 3 t
    then delay 2000
    else delay 0

-- `sleep_time_median`: what is left of the time of a successful login.
abbrev pub sleep_time_median : ℕ → ℕ → ℕ
sleep_time_median success_time taken = if ltb taken success_time then success_time - taken else 0

-- The counter that the task gives, 1 without an address.
abbrev pub counted : Reply → ℕ
counted (counter c) = unwrap_or c 1
counted no_reply = 1
counted (expires e) = 1
counted (ips m) = 1

abbrev pub ip_text : Option Str → Str
ip_text ip = unwrap_or ip (codes "UNKNOWN")

abbrev pub push_event : Event → World → World
push_event e w = record w { events = w.events ++ e ∷ [] }

-- The end of the branch for a failed login.
abbrev pub punish : Levels → ℕ → ErrorResponseType → ℕ → Str → ℕ → Penalty → World → Answer × World
punish ls now e median ip n (block secs) w = (
  record { result = err (too_many_requests (now + secs)); slept = 0 },
  push_event (ip_blacklisted_event ls (now + secs) ip) w,
)
punish ls now e median ip n (delay rate) w =
    (record { result = err e; slept = median + n * rate }, w)

-- The branch of a failed login, with the number of failed logins that it counts.
abbrev pub fail_login : Levels → ℕ → ErrorResponseType → ℕ → Str → ℕ → World → Answer × World
fail_login ls now e median ip n w =
    punish ls now e median ip n (penalty n) (push_event (invalid_login ls n ip) w)

-- The request to the task, and what it answers: none is made without an address.
unfoldable pub count_failure : ℕ → Option Str → State → ℕ × State
count_failure now none st = (1, st)
count_failure now (some ip) st =
    let (reply, st') = handle now (login_check ip true) st in (counted reply, st')

-- A successful login clears the failed ones of its address.
unfoldable pub forgive : ℕ → Option Str → State → State
forgive now none st = st
forgive now (some ip) st = (handle now (login_failed_delete ip) st).1

-- `handle_login_delay`; `taken` is the time since the start of the login, in milliseconds.
unfoldable pub handle_login_delay : Levels → ℕ → Option Str → ℕ → Login → World → Answer × World
unfolding count_failure forgive
handle_login_delay ls now peer_ip taken (logged_in hashed) w =
    let success_time = unwrap_or w.login_time 2000 in
    (
      record { result = ok tt; slept = 0 },
      record w {
        ip_task = forgive now peer_ip w.ip_task;
        login_time = if hashed then some ((success_time + taken) / 2) else w.login_time;
      },
    )
handle_login_delay ls now peer_ip taken (failed e false) w =
    (record { result = err e; slept = 0 }, w)
handle_login_delay ls now peer_ip taken (failed e true) w =
    let (n, st) = count_failure now peer_ip w.ip_task in
    fail_login ls now e (sleep_time_median (unwrap_or w.login_time 2000) taken) (ip_text peer_ip) n
      (record w { ip_task = st })
