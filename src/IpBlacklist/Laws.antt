-- ===== src/IpBlacklist/Laws.antt =====
-- What the task keeps true, and what its answers mean.
use rauthy.Base.{
  ℕ, zero, suc, ◌≤◌, ◌<◌, ◌^◌, ◌≡◌, refl, true, Option, none, some, [], ◌∷◌, arith, ltb, Str,
  str_eq, str_eq_iff, if◌then◌else◌, Option-cases, inl, inr,
}
use rauthy.Base.Table.{Table, get, get-put, IsKeyed, put-IsKeyed, del-IsKeyed}
use rauthy.ErrorResponse.{ok, err, too_many_requests}
use rauthy.IpBlacklist.{
  IpBlacklistReq, check_exp, blacklist, blacklist_check, blacklist_delete, login_check,
  login_failed_set, login_failed_delete, get_blacklisted_ips, counter, State, start, unexpired,
  task_ends, handle, check_request, incr_u32, checked_login, set_counter,
}

abbrev alive : ℕ → Option ℕ → Option ℕ
alive now none = none
alive now (some exp) = if ltb exp now then none else some exp

get-unexpired :
    (now : ℕ) (ip : Str) (m : Table ℕ) → IsKeyed m → get ip (unexpired now m) ≡ alive now (get ip m)
unfolding unexpired get
get-unexpired now ip [] h = refl
get-unexpired now ip ((j, exp) ∷ m) (fresh, h) =
    ground (arith, get-unexpired now ip m h, str_eq_iff j ip)

unexpired-IsKeyed : (now : ℕ) (m : Table ℕ) → IsKeyed m → IsKeyed (unexpired now m)
unfolding unexpired
unexpired-IsKeyed now [] h = tt
unexpired-IsKeyed now ((j, exp) ∷ m) (fresh, h) =
    ground (arith, get-unexpired now j m h, unexpired-IsKeyed now m h)

-- No address stands twice in a table.
pub record HasKeys (st : State) : Type 0 where
  pub blacklist_keyed : IsKeyed st.data_blacklist
  pub logins_keyed : IsKeyed st.data_failed_logins

set_counter-HasKeys :
    (ip : Str) (c : Option ℕ) (st : State) → HasKeys st → HasKeys (set_counter ip c st)
unfolding set_counter
set_counter-HasKeys ip none st w = w
set_counter-HasKeys ip (some c) st w = record {
  blacklist_keyed = w.blacklist_keyed;
  logins_keyed = put-IsKeyed ip c st.data_failed_logins w.logins_keyed;
}

-- Every request keeps that true.
pub handle-HasKeys :
    (now : ℕ) (req : IpBlacklistReq) (st : State) → HasKeys st → HasKeys (handle now req st).1
unfolding handle
handle-HasKeys now check_exp st w = record {
  blacklist_keyed = unexpired-IsKeyed now st.data_blacklist w.blacklist_keyed;
  logins_keyed = w.logins_keyed;
}
handle-HasKeys now (blacklist ip exp) st w = record {
  blacklist_keyed = put-IsKeyed ip exp st.data_blacklist w.blacklist_keyed;
  logins_keyed = w.logins_keyed;
}
handle-HasKeys now (blacklist_check ip) st w = w
handle-HasKeys now (blacklist_delete ip) st w = record {
  blacklist_keyed = del-IsKeyed ip st.data_blacklist w.blacklist_keyed;
  logins_keyed = w.logins_keyed;
}
handle-HasKeys now (login_check ip increase) st w =
    set_counter-HasKeys ip (checked_login (get ip st.data_failed_logins) increase) st w
handle-HasKeys now (login_failed_set ip n) st w =
    elim (Option-cases (get ip st.data_failed_logins)) [
      | inl fresh ↦ rw (fresh, handle) (set_counter-HasKeys ip (some n) st w)
      | inr (c, old) ↦
          rw (old, handle) (set_counter-HasKeys ip (some (if ltb c n then n else c)) st w)
    ]
handle-HasKeys now (login_failed_delete ip) st w = record {
  blacklist_keyed = w.blacklist_keyed;
  logins_keyed = del-IsKeyed ip st.data_failed_logins w.logins_keyed;
}
handle-HasKeys now get_blacklisted_ips st w = w

-- The states that requests lead to, each at its own time, and the ends of aborted tasks.
pub data Reach : State → Type 0 where
  begin : Reach start
  next : {st : State} (now : ℕ) (req : IpBlacklistReq) → Reach st → Reach (handle now req st).1
  ended : {st : State} → Reach st → Reach (task_ends st)

pub Reach-HasKeys : {st : State} → Reach st → HasKeys st
unfolding task_ends
Reach-HasKeys begin = record { blacklist_keyed = tt; logins_keyed = tt }
Reach-HasKeys (next {st} now req r) = handle-HasKeys now req st (Reach-HasKeys r)
Reach-HasKeys (ended {st} r) =
    let w = Reach-HasKeys r in
    record { blacklist_keyed = w.blacklist_keyed; logins_keyed = w.logins_keyed }

-- In every state that the task can reach, removing the entries that have expired changes the answer to
-- no later request.
pub check_exp-invisible :
    {st : State} (now later : ℕ) (ip : Option Str)
    → Reach st
    → now ≤ later
    → check_request later ip (handle now check_exp st).1 ≡ check_request later ip st
unfolding check_request handle
check_exp-invisible now later none r le = refl
check_exp-invisible {st} now later (some ip) r le =
    ground (arith, get-unexpired now ip st.data_blacklist (Reach-HasKeys r).blacklist_keyed)

-- After an address is blacklisted, its requests are refused until that ends, and those of any other
-- address are answered as before.
pub blacklist-check_request :
    (now later exp : ℕ) (ip other : Str) (st : State)
    → check_request later (some other) (handle now (blacklist ip exp) st).1 ≡ (
        if str_eq ip other
        then (if ltb later exp then err (too_many_requests exp) else ok tt)
        else check_request later (some other) st)
unfolding check_request handle
blacklist-check_request now later exp ip other st =
    ground (arith, get-put other ip exp st.data_blacklist)

-- The state after so many failed logins of an address.
abbrev pub fail_times : ℕ → ℕ → Str → State → State
fail_times zero now ip st = st
fail_times (suc n) now ip st = (handle now (login_check ip true) (fail_times n now ip st)).1

get-fail_times :
    (n now : ℕ) (ip : Str) (st : State)
    → get ip st.data_failed_logins ≡ none
    → suc n < 2 ^ 32
    → get ip (fail_times (suc n) now ip st).data_failed_logins ≡ some (suc n)
unfolding handle
get-fail_times zero now ip st fresh lt =
    ground (arith, get-put ip ip 1 st.data_failed_logins, str_eq_iff ip ip)
get-fail_times (suc n) now ip st fresh lt =
    let ih = get-fail_times n now ip st fresh (omega arith) in
    ground (
      arith,
      str_eq_iff ip ip,
      get-put ip ip (incr_u32 (suc n)) (fail_times (suc n) now ip st).data_failed_logins,
    )

-- The answer to the next failed login of an address, which starts with none, counts all of them, as
-- long as the count fits a `u32`.
pub fail_times-counts :
    (n now : ℕ) (ip : Str) (st : State)
    → get ip st.data_failed_logins ≡ none
    → suc n < 2 ^ 32
    → (handle now (login_check ip true) (fail_times n now ip st)).0 ≡ counter (some (suc n))
unfolding handle
fail_times-counts zero now ip st fresh lt = ground arith
fail_times-counts (suc n) now ip st fresh lt =
    let so_far = get-fail_times n now ip st fresh (omega arith) in ground arith
