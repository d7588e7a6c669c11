-- ===== src/IpBlacklist/Watch.antt =====
-- When the task that removes expired addresses runs.
use rauthy.Base.{
  ℕ, ◌≡◌, ◌↔◌, ◌⊎◌, ◌≢◌, refl, sym, ap, ◌∙◌, Bool, true, false, Option, none, some, [], ◌∷◌, ltb,
  Str, if◌then◌else◌, Option-cases, inl, inr,
}
use rauthy.Base.Table.{Table, get, put, del}
use rauthy.IpBlacklist.{
  stop, IpBlacklistReq, check_exp, blacklist, blacklist_check, blacklist_delete, login_check,
  login_failed_set, login_failed_delete, get_blacklisted_ips, Checker, running, aborted, finished,
  State, start, unexpired, is_nil, handle, checked_login, set_counter, task_ends, settle, respawn,
}

-- As long as an address is blacklisted, the task that sends `CheckExp` runs.
abbrev pub IsWatched : State → Type 0
IsWatched st = is_nil st.data_blacklist ≡ false → st.exp_checker ≡ running

-- An address is to be blacklisted while the aborted task has not finished.
abbrev is_aborted : Checker → Bool
is_aborted running = false
is_aborted aborted = true
is_aborted finished = false

abbrev pub races : IpBlacklistReq → Checker → Bool
races check_exp c = false
races (blacklist ip exp) c = is_aborted c
races (blacklist_check ip) c = false
races (blacklist_delete ip) c = false
races (login_check ip increase) c = false
races (login_failed_set ip n) c = false
races (login_failed_delete ip) c = false
races get_blacklisted_ips c = false

-- The states that are reached where no request races with an aborted task.
pub data Prompt : State → Type 0 where
  begin : Prompt start
  next :
      {st : State} (now : ℕ) (req : IpBlacklistReq)
      → races req st.exp_checker ≡ false
      → Prompt st
      → Prompt (handle now req st).1
  ended : {st : State} → Prompt st → Prompt (task_ends st)

unexpired-is_nil : (now : ℕ) (m : Table ℕ) → is_nil (unexpired now m) ≡ false → is_nil m ≡ false
unfolding unexpired
unexpired-is_nil now [] h = h
unexpired-is_nil now (x ∷ m) h = refl

del-is_nil : (ip : Str) (m : Table ℕ) → is_nil (del ip m) ≡ false → is_nil m ≡ false
unfolding del
del-is_nil ip [] h = h
del-is_nil ip (x ∷ m) h = refl

put-is_nil : (ip : Str) (exp : ℕ) (m : Table ℕ) → is_nil (put ip exp m) ≡ false
unfolding put
put-is_nil ip exp m = refl

set_counter-same :
    (ip : Str) (c : Option ℕ) (st : State)
    → ((set_counter ip c st).data_blacklist ≡ st.data_blacklist)
      × ((set_counter ip c st).exp_checker ≡ st.exp_checker)
unfolding set_counter
set_counter-same ip none st = (refl, refl)
set_counter-same ip (some c) st = (refl, refl)

set_counter-IsWatched :
    (ip : Str) (c : Option ℕ) (st : State) → IsWatched st → IsWatched (set_counter ip c st)
set_counter-IsWatched ip c st w h =
    let (same_list, same_task) = set_counter-same ip c st in
    same_task ∙ w (sym (ap is_nil same_list) ∙ h)

respawn-running : (c : Checker) → is_aborted c ≡ false → respawn c ≡ running
respawn-running running h = refl
respawn-running aborted h = cc
respawn-running finished h = refl

respawn-aborted : (c : Checker) → respawn c ≡ running → is_aborted c ≡ false
respawn-aborted running h = refl
respawn-aborted aborted h = cc
respawn-aborted finished h = refl

-- A request that does not race keeps that true.
handle-IsWatched :
    (now : ℕ) (req : IpBlacklistReq) (st : State)
    → races req st.exp_checker ≡ false
    → IsWatched st
    → IsWatched (handle now req st).1
unfolding handle
handle-IsWatched now check_exp st calm w =
    λ h. rw (h) (w (unexpired-is_nil now st.data_blacklist h))
handle-IsWatched now (blacklist ip exp) st calm w = λ h. respawn-running st.exp_checker calm
handle-IsWatched now (blacklist_check ip) st calm w = λ h. w h
handle-IsWatched now (blacklist_delete ip) st calm w = λ h. w (del-is_nil ip st.data_blacklist h)
handle-IsWatched now (login_check ip increase) st calm w =
    set_counter-IsWatched ip (checked_login (get ip st.data_failed_logins) increase) st w
handle-IsWatched now (login_failed_set ip n) st calm w =
    elim (Option-cases (get ip st.data_failed_logins)) [
      | inl fresh ↦ rw (fresh, handle) (set_counter-IsWatched ip (some n) st w)
      | inr (c, old) ↦
          rw (old, handle) (set_counter-IsWatched ip (some (if ltb c n then n else c)) st w)
    ]
handle-IsWatched now (login_failed_delete ip) st calm w = λ h. w h
handle-IsWatched now get_blacklisted_ips st calm w = λ h. w h

handle-races :
    (now : ℕ) (req : IpBlacklistReq) (st : State)
    → IsWatched (handle now req st).1
    → races req st.exp_checker ≡ false
unfolding handle
handle-races now check_exp st w = refl
handle-races now (blacklist ip exp) st w =
    respawn-aborted st.exp_checker (w (put-is_nil ip exp st.data_blacklist))
handle-races now (blacklist_check ip) st w = refl
handle-races now (blacklist_delete ip) st w = refl
handle-races now (login_check ip increase) st w = refl
handle-races now (login_failed_set ip n) st w = refl
handle-races now (login_failed_delete ip) st w = refl
handle-races now get_blacklisted_ips st w = refl

reached : {st : State} → Prompt st → IsWatched st
unfolding task_ends
reached begin = λ h. cc
reached (next {st} now req calm r) = handle-IsWatched now req st calm (reached r)
reached (ended {st} r) = λ h. ap settle (reached r h)

-- The task after `CheckExp`, a `Blacklist` and the end of an aborted task; `emptied` is what `CheckExp` did.
left_running :
    (c : Checker) (emptied : Bool)
    → (settle (respawn (if emptied then stop c else c)) ≡ running)
      ↔ (((emptied ≡ false) × (c ≢ aborted)) ⊎ (c ≡ finished))
left_running running true = (λ h. cc, λ r. elim r [ inl (a, b) ↦ cc | inr e ↦ cc ])
left_running running false = (λ h. inl (refl, λ e. cc), λ r. refl)
left_running aborted true = (λ h. cc, λ r. elim r [ inl (a, b) ↦ cc | inr e ↦ cc ])
left_running aborted false = (λ h. cc, λ r. elim r [ inl (a, b) ↦ absurd (b refl) | inr e ↦ cc ])
left_running finished true = (λ h. inr refl, λ r. refl)
left_running finished false = (λ h. inr refl, λ r. refl)

blacklist_after_check :
    (now later exp : ℕ) (ip : Str) (st : State)
    → IsWatched (task_ends (handle later (blacklist ip exp) (handle now check_exp st).1).1) ↔ (
        ((is_nil (handle now check_exp st).1.data_blacklist ≡ false) × (st.exp_checker ≢ aborted))
        ⊎ (st.exp_checker ≡ finished))
unfolding handle task_ends
blacklist_after_check now later exp ip st =
    let left = unexpired now st.data_blacklist in
    let (there, back) = left_running st.exp_checker (is_nil left) in
    (λ w. there (w (put-is_nil ip exp left)), λ r h. back r)

-- In every state that is reached with no address blacklisted between the abortion of the task that
-- sends `CheckExp` and its end: as long as an address is blacklisted, that task runs; and a further
-- request leaves that true exactly if it does not blacklist an address while an aborted task has not
-- ended. After `CheckExp`, the blacklisting of an address, and then the end of an aborted task, it is
-- true exactly if the task had ended before, or had not been aborted and `CheckExp` left an address on
-- the list.
pub Prompt-IsWatched :
    {st : State} (now : ℕ) (req : IpBlacklistReq)
    → Prompt st
    → IsWatched st
      × (IsWatched (handle now req st).1 ↔ (races req st.exp_checker ≡ false))
      × ((later exp : ℕ) (ip : Str)
          → IsWatched (task_ends (handle later (blacklist ip exp) (handle now check_exp st).1).1)
            ↔ (((is_nil (handle now check_exp st).1.data_blacklist ≡ false)
                  × (st.exp_checker ≢ aborted))
                ⊎ (st.exp_checker ≡ finished)))
Prompt-IsWatched {st} now req r =
    let w = reached r in
    (
      w,
      (handle-races now req st, λ calm. handle-IsWatched now req st calm w),
      λ later exp ip. blacklist_after_check now later exp ip st,
    )
