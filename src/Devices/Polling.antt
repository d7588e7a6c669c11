-- ===== src/Devices/Polling.antt =====
-- What it takes for a device to get tokens, and what polling leaves.
use rauthy.Base.{
  ℕ, ◌+◌, ◌*◌, ◌≤◌, ◌<◌, ◌≡◌, sym, ap, ◌∙◌, inl, inr, Option, none, some, arith, ltb, length, Str,
  str_eq, str_eq_iff, opt_str_eq, opt_str_eq_iff, Option-cases, Bool-cases,
}
use rauthy.Base.Table.{Table, get, get-put, get-del}
use rauthy.Devices.{
  Config, DeviceAuthCode, OAuth2Error, access_denied, token_set, bad_request, World, TokenRequest,
  user_code, find, find_by_device_code, check_interval, issue, settle, poll, delete, save,
  grant_type_device_code, post_device_verify, accept, decline,
}

-- The state of a code that gets tokens: it is in the cache, alive, the one asked for, of the client that
-- asks with its secret, and a user has verified it.
pub record IsReady (cfg : Config) (now : ℕ) (payload : TokenRequest) (w : World) (device_code : Str)
    (code : DeviceAuthCode) : Type 0 where
  pub asked : payload.device_code ≡ some device_code
  pub cached : get (user_code cfg device_code) w.device_codes ≡ some code
  pub alive : now ≤ code.exp
  pub same : code.device_code ≡ device_code
  pub client : payload.client_id ≡ some code.client_id
  pub secret : payload.client_secret ≡ code.client_secret
  pub verified : (uid : Str) × (code.verified_by ≡ some uid)

check_interval-same :
    (cfg : Config) (now : ℕ) (code : DeviceAuthCode) (codes : Table DeviceAuthCode)
    → ((check_interval cfg now code codes).0.verified_by ≡ code.verified_by)
      × ((check_interval cfg now code codes).0.device_code ≡ code.device_code)
unfolding check_interval
check_interval-same cfg now code codes = (ground arith, ground arith)

issue-deleted :
    (cfg : Config) (id : Str) (now : ℕ) (ip : Option Str) (code : DeviceAuthCode) (uid ts : Str)
    (w : World)
    → (issue cfg id now ip code uid w).0 ≡ token_set ts
    → get (user_code cfg code.device_code) (issue cfg id now ip code uid w).1.device_codes ≡ none
unfolding issue delete
issue-deleted cfg id now ip code uid ts w h = ground (
  arith,
  str_eq_iff (user_code cfg code.device_code) (user_code cfg code.device_code),
  get-del (user_code cfg code.device_code) (user_code cfg code.device_code) w.device_codes,
)

settle-issued :
    (cfg : Config) (id : Str) (now : ℕ) (ip : Option Str) (code : DeviceAuthCode)
    (error : OAuth2Error) (ts : Str) (w : World)
    → (settle cfg id now ip code error w).0 ≡ token_set ts
    → ((uid : Str) × (code.verified_by ≡ some uid))
      × (get (user_code cfg code.device_code) (settle cfg id now ip code error w).1.device_codes
          ≡ none)
unfolding settle
settle-issued cfg id now ip code error ts w h = elim (Option-cases code.verified_by) [
  | inl unverified ↦ absurd (ground arith)
  | inr (uid, verified) ↦ (
    (uid, verified),
    rw (verified, settle) (issue-deleted cfg id now ip code uid ts w (rw (verified, settle) at h)),
  )
]

poll-issued :
    (cfg : Config) (id : Str) (now : ℕ) (ip : Option Str) (code : DeviceAuthCode) (ts : Str)
    (w : World)
    → (poll cfg id now ip code w).0 ≡ token_set ts
    → ((uid : Str) × (code.verified_by ≡ some uid))
      × (get (user_code cfg code.device_code) (poll cfg id now ip code w).1.device_codes ≡ none)
unfolding poll
poll-issued cfg id now ip code ts w h =
    let (same_user, same_code) = check_interval-same cfg now code w.device_codes in
    let warned = (check_interval cfg now code w.device_codes).0 in
    let ((uid, verified), gone) = settle-issued cfg id now ip warned _ ts _ h in
    (
      (uid, sym same_user ∙ verified),
      ap (λ dc. get (user_code cfg dc) (poll cfg id now ip code w).1.device_codes) (sym same_code)
          ∙ gone,
    )

find-found :
    (cfg : Config) (now : ℕ) (dc : Str) (codes : Table DeviceAuthCode) (code : DeviceAuthCode)
    → (find_by_device_code cfg now dc codes).0 ≡ some code
    → (get (user_code cfg dc) codes ≡ some code)
      × (now ≤ code.exp)
      × ((find_by_device_code cfg now dc codes).1 ≡ codes)
unfolding find_by_device_code find
find-found cfg now dc codes code h = elim (Option-cases (get (user_code cfg dc) codes)) [
  | inl nothing ↦ absurd (ground arith)
  | inr (c, here) ↦ elim (Bool-cases (ltb c.exp now)) [
    | inl dead ↦ absurd (ground arith)
    | inr alive ↦ (ground arith, ground arith, ground arith)
  ]
]

-- A device gets tokens only for a code that is in the cache under its user code, alive, the very one
-- asked for, of the client that asks with its secret, and verified by a user; the code is then gone
-- from the cache, so that it is good for one token set only.
pub grant_type_device_code-issued :
    (cfg : Config) (id : Str) (now : ℕ) (ip : Option Str) (payload : TokenRequest) (w : World)
    (ts : Str)
    → (grant_type_device_code cfg id now ip payload w).0 ≡ token_set ts
    → (device_code : Str) × (code : DeviceAuthCode) × IsReady cfg now payload w device_code code
      × (get
            (user_code cfg device_code)
            (grant_type_device_code cfg id now ip payload w).1.device_codes
          ≡ none)
unfolding grant_type_device_code
grant_type_device_code-issued cfg id now ip payload w ts h =
    elim (Option-cases payload.device_code) [
      | inl missing ↦ absurd (ground arith)
      | inr (dc, asked) ↦ elim (Option-cases (find_by_device_code cfg now dc w.device_codes).0) [
        | inl unknown ↦ absurd (ground arith)
        | inr (code, found) ↦
            let (cached, alive, left) = find-found cfg now dc w.device_codes code found in
            elim (Bool-cases (ltb (length dc) cfg.user_code_length)) [
              | inl short ↦ absurd (ground arith)
              | inr long ↦ elim (Bool-cases (opt_str_eq (some code.client_id) payload.client_id)) [
                | inr other ↦ absurd (ground arith)
                | inl client ↦ elim (Bool-cases (str_eq code.device_code dc)) [
                  | inr other ↦ absurd (ground arith)
                  | inl same ↦
                      elim (Bool-cases (opt_str_eq code.client_secret payload.client_secret)) [
                        | inr other ↦ absurd (ground arith)
                        | inl secret ↦
                            let run : grant_type_device_code cfg id now ip payload w
                                ≡ poll cfg id now ip code w =
                              ground arith in
                            let (verified, gone) =
                              poll-issued cfg id now ip code ts w (ap (λ r. r.0) (sym run) ∙ h) in
                            let same_code : code.device_code ≡ dc =
                              (str_eq_iff code.device_code dc).0 same in
                            (
                              dc,
                              code,
                              record {
                                asked = asked;
                                cached = cached;
                                alive = alive;
                                same = same_code;
                                client = sym (
                                    (opt_str_eq_iff (some code.client_id) payload.client_id).0
                                      client);
                                secret = sym (
                                    (opt_str_eq_iff code.client_secret payload.client_secret).0
                                      secret);
                                verified = verified;
                              },
                              ap (λ r. get (user_code cfg dc) r.1.device_codes) run
                                  ∙ ap
                                      (λ c.
                                        get (user_code cfg c)
                                          (poll cfg id now ip code w).1.device_codes)
                                      (sym same_code)
                                  ∙ gone,
                            )
                      ]
                ]
              ]
            ]
      ]
    ]

-- A device that polls too early with a code that has two to 254 warnings, so that their count does not
-- wrap, and that no user has verified is told that access is denied, and yet its code stays in the
-- cache, with a new time of the last poll.
pub poll-denied_kept :
    (cfg : Config) (id : Str) (now : ℕ) (ip : Option Str) (code : DeviceAuthCode) (w : World)
    → code.verified_by ≡ none
    → now + 500 < code.last_poll + cfg.poll_interval * 1000
    → 2 ≤ code.warnings
    → code.warnings < 255
    → ((poll cfg id now ip code w).0 ≡ bad_request access_denied)
      × (get (user_code cfg code.device_code) (poll cfg id now ip code w).1.device_codes
          ≡ some (record code { warnings = code.warnings + 1; last_poll = now }))
unfolding poll check_interval settle save delete
poll-denied_kept cfg id now ip code w unverified early warned small = ground (
  arith,
  str_eq_iff (user_code cfg code.device_code) (user_code cfg code.device_code),
  get-put (user_code cfg code.device_code) (user_code cfg code.device_code)
      (record code { warnings = code.warnings + 1; last_poll = now })
      (delete cfg code w.device_codes),
)

-- A code in the cache, under its user code, that a user accepts at `now` is found verified by that user
-- as long as it lives, and one that the user declines is no longer found.
pub post_device_verify-find :
    (cfg : Config) (now later : ℕ) (uid key : Str) (codes : Table DeviceAuthCode)
    (code : DeviceAuthCode)
    → get key codes ≡ some code
    → user_code cfg code.device_code ≡ key
    → now ≤ later
    → later ≤ code.exp
    → ((find cfg later key (post_device_verify cfg now uid key accept codes).1).0
        ≡ some (record code { verified_by = some uid }))
      × ((find cfg later key (post_device_verify cfg now uid key decline codes).1).0 ≡ none)
unfolding find post_device_verify save delete
post_device_verify-find cfg now later uid key codes code here own le alive =
    let alive_now : now ≤ code.exp = omega arith in
    (
      ground (
        arith,
        str_eq_iff key key,
        get-put key key (record code { verified_by = some uid }) codes,
      ),
      ground (arith, str_eq_iff key key, get-del key key codes),
    )
