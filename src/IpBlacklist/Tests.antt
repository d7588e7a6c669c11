-- ===== src/IpBlacklist/Tests.antt =====
-- Runs of the task, with one address that is blacklisted.
use rauthy.Base.{
  ℕ, suc, ◌+◌, ◌≤◌, ◌<◌, ◌^◌, ◌≡◌, ◌↔◌, ◌⊎◌, ◌≢◌, refl, true, false, arith, Option, none, some, [],
  ◌∷◌, Str, codes, str_eq, ltb, if◌then◌else◌,
}
use rauthy.Base.Table.{get}
use rauthy.ErrorResponse.{ok, err, too_many_requests}
use rauthy.IpBlacklist.{
  is_nil, aborted, State, start, handle, check_request, blacklist, check_exp, login_check, counter,
  task_ends, finished,
}
use rauthy.IpBlacklist.Watch
use rauthy.IpBlacklist.Watch.{IsWatched, races, Prompt, Prompt-IsWatched}
use rauthy.IpBlacklist.Laws.{
  Reach, begin, next, check_exp-invisible, blacklist-check_request, fail_times, fail_times-counts,
}

abbrev blocked : State
blocked = (handle 10 (blacklist (codes "ip") 50) start).1

blocked-Reach : Reach blocked
blocked-Reach = next 10 (blacklist (codes "ip") 50) begin

refused : check_request 20 (some (codes "ip")) blocked ≡ err (too_many_requests 50)
unfolding check_request get handle rauthy.Base.Table.put str_eq
refused = refl

blocked-Prompt : Prompt blocked
blocked-Prompt = Watch.next 10 (blacklist (codes "ip") 50) refl Watch.begin

Prompt-IsWatched_example :
    IsWatched blocked
    × (IsWatched (handle 60 check_exp blocked).1 ↔ (races check_exp blocked.exp_checker ≡ false))
    × ((later exp : ℕ) (ip : Str)
        → IsWatched (task_ends (handle later (blacklist ip exp) (handle 60 check_exp blocked).1).1)
          ↔ (((is_nil (handle 60 check_exp blocked).1.data_blacklist ≡ false)
                × (blocked.exp_checker ≢ aborted))
              ⊎ (blocked.exp_checker ≡ finished)))
Prompt-IsWatched_example = Prompt-IsWatched 60 check_exp blocked-Prompt

-- An address that is blacklisted right after the last one was removed is left with no task.
raced_run :
    task_ends (handle 61 (blacklist (codes "jp") 99) (handle 60 check_exp blocked).1).1 ≡ record {
      data_blacklist = (codes "jp", 99) ∷ [];
      data_failed_logins = [];
      exp_checker = finished;
    }
unfolding task_ends handle rauthy.Base.Table.put str_eq
raced_run = refl

check_exp-invisible_example :
    check_request 60 (some (codes "ip")) (handle 55 check_exp blocked).1
    ≡ check_request 60 (some (codes "ip")) blocked
check_exp-invisible_example =
    check_exp-invisible 55 60 (some (codes "ip")) blocked-Reach (omega arith)

blacklist-check_request_run :
    check_request 20 (some (codes "ip")) (handle 10 (blacklist (codes "ip") 50) start).1 ≡ (
      if str_eq (codes "ip") (codes "ip")
      then (if ltb 20 50 then err (too_many_requests 50) else ok tt)
      else check_request 20 (some (codes "ip")) start)
blacklist-check_request_run = blacklist-check_request 10 20 50 (codes "ip") (codes "ip") start

fresh : get (codes "ip") blocked.data_failed_logins ≡ none
unfolding get handle
fresh = refl

fail_times-counts_run :
    (handle 10 (login_check (codes "ip") true) (fail_times 3 10 (codes "ip") blocked)).0
    ≡ counter (some 4)
fail_times-counts_run = fail_times-counts 3 10 (codes "ip") blocked fresh (omega arith)
