-- ===== src/LoginDelay/Blocks.antt =====
-- What a failed login leads to, from the answer to the requests that follow, and what a successful one
-- clears.
use rauthy.Base.{
  ℕ, suc, ◌+◌, ◌≤◌, ◌<◌, ◌^◌, ◌≡◌, ◌⊎◌, refl, inl, inr, Bool, true, Option, none, some, [], arith,
  Str, str_eq, str_eq_iff, unwrap_or, if◌then◌else◌, ◌∙◌, ◌∷◌, ◌%◌,
}
use rauthy.Base.Table.{get, get-del}
use rauthy.ErrorResponse.{ErrorResponseType, err, too_many_requests}
use rauthy.Events.{Levels, invalid_login, ip_blacklisted_event}
use rauthy.IpBlacklist.{State, handle, check_request, deliver, route, login_failed_set}
use rauthy.IpBlacklist.Laws.{blacklist-check_request}
use rauthy.LoginDelay.{
  World, Penalty, block, delay, penalty, logged_in, failed, sleep_time_median, handle_login_delay,
  count_failure, forgive, fail_login, punish, ip_text,
}

punish-time :
    (ls : Levels) (now : ℕ) (e : ErrorResponseType) (success taken : ℕ) (ip : Str) (n : ℕ)
    (p : Penalty) (w : World)
    → ((until : ℕ) × ((punish ls now e (sleep_time_median success taken) ip n p w).0.result
          ≡ err (too_many_requests until)))
      ⊎ (success ≤ taken + (punish ls now e (sleep_time_median success taken) ip n p w).0.slept)
punish-time ls now e success taken ip n (block s) w = inl (now + s, refl)
punish-time ls now e success taken ip n (delay r) w = inr (ground arith)

-- A failed login that is to be delayed is either refused with the end of a block, or answered no
-- earlier after its start than an average successful login.
pub handle_login_delay-time :
    (ls : Levels) (now : ℕ) (ip : Option Str) (taken : ℕ) (e : ErrorResponseType) (w : World)
    → ((until : ℕ) × ((handle_login_delay ls now ip taken (failed e true) w).0.result
          ≡ err (too_many_requests until)))
      ⊎ (unwrap_or w.login_time 2000
          ≤ taken + (handle_login_delay ls now ip taken (failed e true) w).0.slept)
unfolding handle_login_delay
handle_login_delay-time ls now ip taken e w =
    punish-time ls now e (unwrap_or w.login_time 2000) taken (ip_text ip)
      (count_failure now ip w.ip_task).0 _ _

counted_failure :
    (now : ℕ) (ip : Str) (st : State) (c : ℕ)
    → get ip st.data_failed_logins ≡ some c
    → suc c < 2 ^ 32
    → (count_failure now (some ip) st).0 ≡ suc c
unfolding count_failure handle
counted_failure now ip st c old fits = ground arith

-- Once the two events of a block are delivered, the address is refused.
deliver-blocked :
    (ls : Levels) (now later n exp : ℕ) (ip : Str) (st : State)
    → later < exp
    → check_request later
        (some ip)
        (deliver now (invalid_login ls n ip ∷ ip_blacklisted_event ls exp ip ∷ []) st)
      ≡ err (too_many_requests exp)
unfolding deliver route invalid_login ip_blacklisted_event
deliver-blocked ls now later n exp ip st early =
    blacklist-check_request now later exp ip ip (handle now (login_failed_set ip (n % 2 ^ 32)) st).1
    ∙ ground (arith, str_eq_iff ip ip)

fail_login-blocks :
    (ls : Levels) (now later : ℕ) (e : ErrorResponseType) (median : ℕ) (ip : Str) (n secs : ℕ)
    (w : World)
    → w.events ≡ []
    → penalty n ≡ block secs
    → later < now + secs
    → let (answer, w') = fail_login ls now e median ip n w in
      (answer.result ≡ err (too_many_requests (now + secs)))
      × (check_request later (some ip) (deliver now w'.events w'.ip_task)
          ≡ err (too_many_requests (now + secs)))
fail_login-blocks ls now later e median ip n secs w quiet blocked early =
    rw (blocked, quiet) (refl, deliver-blocked ls now later n (now + secs) ip w.ip_task early)

-- The failed login of an address that has failed before, with no events pending, a count that fits a
-- `u32` and a new count that leads to a block, is refused with the end of the block, and once the
-- events that it sent are delivered, so is every request of that address until then.
pub handle_login_delay-blocks :
    (ls : Levels) (now later : ℕ) (ip : Str) (taken : ℕ) (e : ErrorResponseType) (w : World)
    (c secs : ℕ)
    → w.events ≡ []
    → get ip w.ip_task.data_failed_logins ≡ some c
    → suc c < 2 ^ 32
    → penalty (suc c) ≡ block secs
    → later < now + secs
    → let (answer, w') = handle_login_delay ls now (some ip) taken (failed e true) w in
      (answer.result ≡ err (too_many_requests (now + secs)))
      × (check_request later (some ip) (deliver now w'.events w'.ip_task)
          ≡ err (too_many_requests (now + secs)))
unfolding handle_login_delay
handle_login_delay-blocks ls now later ip taken e w c secs quiet old fits blocked early =
    rw (counted_failure now ip w.ip_task c old fits) (
      fail_login-blocks ls now later e (sleep_time_median (unwrap_or w.login_time 2000) taken) ip
        (suc c) secs (record w { ip_task = (count_failure now (some ip) w.ip_task).1 }) quiet
        blocked early)

-- A successful login clears the count of failed ones of its address and no other count.
pub handle_login_delay-clears :
    (ls : Levels) (now : ℕ) (ip other : Str) (taken : ℕ) (hashed : Bool) (w : World)
    → get other
        (handle_login_delay ls now
          (some ip)
          taken
          (logged_in hashed)
          w).1.ip_task.data_failed_logins
      ≡ (if str_eq ip other then none else get other w.ip_task.data_failed_logins)
unfolding handle_login_delay forgive handle
handle_login_delay-clears ls now ip other taken hashed w =
    get-del other ip w.ip_task.data_failed_logins
