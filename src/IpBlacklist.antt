-- ===== src/IpBlacklist.antt =====
-- rauthy-models/src/events/ip_blacklist_handler.rs: the task that holds the blacklisted addresses and
-- counts the failed logins of each; rauthy-handlers/src/middleware/ip_blacklist.rs asks it about every
-- request, and the event router of rauthy-models/src/events/listener.rs feeds it. Times are in seconds.
-- The task that sends `CheckExp` runs, has been aborted, or has finished: an aborted task finishes later, by a
-- step of its own.
pub mod Laws
pub mod Watch
pub mod Tests
use rauthy.Base.{
  ℕ, ◌+◌, ◌%◌, ◌^◌, Bool, true, false, Option, none, some, List, [], ◌∷◌, ltb, unwrap_or, Str,
  codes, if◌then◌else◌,
}
use rauthy.Base.Table.{Table, get, put, del}
use rauthy.ErrorResponse.{Result, ok, err, too_many_requests}
use rauthy.Events.{Event, EventType, invalid_logins, ip_blacklisted, ip_blacklist_removed}

pub data IpBlacklistReq : Type 0 where
  check_exp : IpBlacklistReq
  blacklist : Str → ℕ → IpBlacklistReq
  blacklist_check : Str → IpBlacklistReq
  blacklist_delete : Str → IpBlacklistReq
  login_check : Str → Bool → IpBlacklistReq
  login_failed_set : Str → ℕ → IpBlacklistReq
  login_failed_delete : Str → IpBlacklistReq
  get_blacklisted_ips : IpBlacklistReq

-- What is sent back on the channel of a request.
pub data Reply : Type 0 where
  no_reply : Reply
  expires : Option ℕ → Reply
  counter : Option ℕ → Reply
  ips : Table ℕ → Reply

-- The task behind `exp_checker_handle`.
pub data Checker : Type 0 where
  running aborted finished : Checker

-- `abort()`, unless the task `is_finished()`.
abbrev pub stop : Checker → Checker
stop running = aborted
stop aborted = aborted
stop finished = finished

-- A new task is spawned if the old one `is_finished()`.
abbrev pub respawn : Checker → Checker
respawn running = running
respawn aborted = aborted
respawn finished = running

-- An aborted task has finished.
abbrev pub settle : Checker → Checker
settle running = running
settle aborted = finished
settle finished = finished

pub record State : Type 0 where
  pub data_blacklist : Table ℕ
  pub data_failed_logins : Table ℕ
  pub exp_checker : Checker

abbrev pub start : State
start = record { data_blacklist = []; data_failed_logins = []; exp_checker = running }

-- The rows that `CheckExp` leaves.
unfoldable pub unexpired : ℕ → Table ℕ → Table ℕ
unexpired now [] = []
unexpired now ((ip, exp) ∷ m) =
    let rest = unexpired now m in if ltb exp now then rest else (ip, exp) ∷ rest

abbrev pub is_nil : Table ℕ → Bool
is_nil [] = true
is_nil (x ∷ xs) = false

-- `*counter += 1` on a `u32`.
abbrev pub incr_u32 : ℕ → ℕ
incr_u32 n = (n + 1) % 2 ^ 32

-- The counter that `LoginCheck` answers with, and leaves.
checked_login : Option ℕ → Bool → Option ℕ
checked_login (some c) increase = some (if increase then incr_u32 c else c)
checked_login none increase = if increase then some 1 else none

set_counter : Str → Option ℕ → State → State
set_counter ip none st = st
set_counter ip (some c) st = record st { data_failed_logins = put ip c st.data_failed_logins }

-- One round of the loop of `run`.
unfoldable pub handle : ℕ → IpBlacklistReq → State → Reply × State
unfolding unexpired checked_login set_counter
handle now check_exp st =
    let left = unexpired now st.data_blacklist in
    (
      no_reply,
      record st {
        data_blacklist = left;
        exp_checker = if is_nil left then stop st.exp_checker else st.exp_checker;
      },
    )
handle now (blacklist ip exp) st = (
  no_reply,
  record st { data_blacklist = put ip exp st.data_blacklist; exp_checker = respawn st.exp_checker },
)
handle now (blacklist_check ip) st = (expires (get ip st.data_blacklist), st)
handle now (blacklist_delete ip) st =
    (no_reply, record st { data_blacklist = del ip st.data_blacklist })
handle now (login_check ip increase) st =
    let c = checked_login (get ip st.data_failed_logins) increase in
    (counter c, set_counter ip c st)
handle now (login_failed_set ip n) st = (
  no_reply,
  elim (get ip st.data_failed_logins) [
    | none ↦ set_counter ip (some n) st
    | some c ↦ set_counter ip (some (if ltb c n then n else c)) st
  ],
)
handle now (login_failed_delete ip) st =
    (no_reply, record st { data_failed_logins = del ip st.data_failed_logins })
handle now get_blacklisted_ips st = (ips st.data_blacklist, st)

-- The step of the runtime that ends an aborted task.
unfoldable pub task_ends : State → State
task_ends st = record st { exp_checker = settle st.exp_checker }

-- The middleware: the request of a blacklisted address is refused. A request without an address goes
-- through.
unfoldable pub check_request : ℕ → Option Str → State → Result (Unit {0})
check_request now none st = ok tt
check_request now (some ip) st = elim (get ip st.data_blacklist) [
  | none ↦ ok tt
  | some exp ↦ if ltb now exp then err (too_many_requests exp) else ok tt
]

-- What the event router sends on for an event.
unfoldable pub route : Event → Option IpBlacklistReq
route e = elim e.typ [
  | invalid_logins ↦
      some (login_failed_set (unwrap_or e.ip (codes "")) (unwrap_or e.number 0 % 2 ^ 32))
  | ip_blacklisted ↦ some (blacklist (unwrap_or e.ip (codes "")) (unwrap_or e.number 0))
  | ip_blacklist_removed ↦ some (blacklist_delete (unwrap_or e.ip (codes "")))
  | _ ↦ none
]

unfoldable pub deliver : ℕ → List Event → State → State
unfolding route handle
deliver now [] st = st
deliver now (e ∷ es) st =
    deliver now es (elim (route e) [ none ↦ st | some req ↦ (handle now req st).1 ])
