-- ===== src/LoginDelay/Tests.antt =====
-- Runs of the login delay: the seventh failed login of an address.
use rauthy.Base.{
  ℕ, ◌+◌, ◌≤◌, ◌⊎◌, ◌≡◌, refl, true, arith, none, some, [], ◌∷◌, codes, str_eq, if◌then◌else◌,
}
use rauthy.Base.Table.{get}
use rauthy.ErrorResponse.{err, unauthorized, too_many_requests}
use rauthy.Events.{Levels, info, notice, warning, critical}
use rauthy.IpBlacklist.{finished, check_request, deliver}
use rauthy.LoginDelay.{World, failed, logged_in, penalty, block, handle_login_delay}
use rauthy.LoginDelay.Blocks.{
  handle_login_delay-time, handle_login_delay-blocks, handle_login_delay-clears,
}

abbrev levels : Levels
levels = record {
  failed_login = info;
  failed_logins_7 = notice;
  failed_logins_10 = warning;
  failed_logins_15 = warning;
  failed_logins_20 = critical;
  failed_logins_25 = critical;
  ip_blacklisted = warning;
}

-- The address has failed six times.
abbrev world : World
world = record {
  ip_task = record {
    data_blacklist = [];
    data_failed_logins = (codes "ip", 6) ∷ [];
    exp_checker = finished;
  };
  login_time = some 900;
  events = [];
}

six : get (codes "ip") world.ip_task.data_failed_logins ≡ some 6
unfolding get str_eq
six = refl

seven : penalty 7 ≡ block 60
unfolding penalty
seven = refl

handle_login_delay-blocks_example :
    ((handle_login_delay levels 100
        (some (codes "ip"))
        20
        (failed unauthorized true)
        world).0.result
      ≡ err (too_many_requests 160))
    × (check_request 150 (some (codes "ip")) (
          deliver 100
            (handle_login_delay levels 100
              (some (codes "ip"))
              20
              (failed unauthorized true)
              world).1.events
            (handle_login_delay levels 100
              (some (codes "ip"))
              20
              (failed unauthorized true)
              world).1.ip_task)
        ≡ err (too_many_requests 160))
handle_login_delay-blocks_example =
    handle_login_delay-blocks levels 100 150 (codes "ip") 20 unauthorized world 6 60 refl six
      (omega arith) seven (omega arith)

handle_login_delay-time_run :
    ((until : ℕ) × ((handle_login_delay levels 100 none 20
          (failed unauthorized true)
          world).0.result
        ≡ err (too_many_requests until)))
    ⊎ (900 ≤ 20 + (handle_login_delay levels 100 none 20 (failed unauthorized true) world).0.slept)
handle_login_delay-time_run = handle_login_delay-time levels 100 none 20 unauthorized world

handle_login_delay-clears_run :
    get
      (codes "ip")
      (handle_login_delay levels 100
        (some (codes "ip"))
        20
        (logged_in true)
        world).1.ip_task.data_failed_logins
    ≡ (if str_eq (codes "ip") (codes "ip")
        then none
        else get (codes "ip") world.ip_task.data_failed_logins)
handle_login_delay-clears_run =
    handle_login_delay-clears levels 100 (codes "ip") (codes "ip") 20 true world
