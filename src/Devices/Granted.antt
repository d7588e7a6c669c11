-- ===== src/Devices/Granted.antt =====
-- That a device whose code a user has accepted gets its tokens.
use rauthy.Base.{
  ℕ, ◌+◌, ◌≤◌, ◌*◌, ◌%◌, ◌^◌, leb, ◌≡◌, ap, ◌∙◌, refl, inl, inr, false, Option, some, arith, ltb,
  length, Str, str_eq_refl, opt_str_eq_iff, Bool-cases,
}
use rauthy.Base.Table.{Table, get, put, get-put}
use rauthy.ErrorResponse.{ok}
use rauthy.Users.{User}
use rauthy.Clients.{Client}
use rauthy.Devices.{
  Config, DeviceAuthCode, OAuth2Error, token_set, World, user_code, find, find_by_device_code,
  check_interval, issue, settle, poll, save, grant_type_device_code, post_device_verify, accept,
}

-- The user and the client of a code are known, and the token set can be built.
pub record IsGranted (cfg : Config) (id : Str) (uid ts : Str) (code : DeviceAuthCode) (w : World)
    : Type 0 where
  pub user : User
  pub client : Client
  pub known_user : get uid w.users ≡ some user
  pub known_client : get code.client_id w.clients ≡ some client
  pub built : cfg.from_user user client code.scopes id ≡ ok ts

settle-granted :
    (cfg : Config) (id : Str) (now : ℕ) (ip : Option Str) (code : DeviceAuthCode)
    (error : OAuth2Error) (uid ts : Str) (w : World)
    → code.verified_by ≡ some uid
    → IsGranted cfg id uid ts code w
    → (settle cfg id now ip code error w).0 ≡ token_set ts
unfolding settle issue
settle-granted cfg id now ip code error uid ts w verified g =
    rw (verified, settle, g.known_user, g.known_client, issue, g.built) refl

-- The check of the interval keeps the code but for its warnings.
check_interval-IsGranted :
    (cfg : Config) (id : Str) (now : ℕ) (code : DeviceAuthCode) (uid ts : Str)
    (left : Table DeviceAuthCode) (w : World)
    → code.verified_by ≡ some uid
    → IsGranted cfg id uid ts code w
    → ((check_interval cfg now code w.device_codes).0.verified_by ≡ some uid)
      × IsGranted cfg id uid ts
          (check_interval cfg now code w.device_codes).0
          (record w { device_codes = left })
unfolding check_interval
check_interval-IsGranted cfg id now code uid ts left w verified g =
    elim (Bool-cases (ltb (now + 500) (code.last_poll + cfg.poll_interval * 1000))) [
      | inl early ↦ elim (Bool-cases (leb 3 ((code.warnings + 1) % 2 ^ 8))) [
        | inl often ↦
            rw (early, often, check_interval)
              (
                verified,
                record {
                  user = g.user;
                  client = g.client;
                  known_user = g.known_user;
                  known_client = g.known_client;
                  built = g.built;
                },
              )
        | inr seldom ↦
            rw (early, seldom, check_interval)
              (
                verified,
                record {
                  user = g.user;
                  client = g.client;
                  known_user = g.known_user;
                  known_client = g.known_client;
                  built = g.built;
                },
              )
      ]
      | inr late ↦
          rw (late, check_interval)
            (
              verified,
              record {
                user = g.user;
                client = g.client;
                known_user = g.known_user;
                known_client = g.known_client;
                built = g.built;
              },
            )
    ]

poll-granted :
    (cfg : Config) (id : Str) (now : ℕ) (ip : Option Str) (code : DeviceAuthCode) (uid ts : Str)
    (w : World)
    → code.verified_by ≡ some uid
    → IsGranted cfg id uid ts code w
    → (poll cfg id now ip code w).0 ≡ token_set ts
unfolding poll check_interval
poll-granted cfg id now ip code uid ts w verified g =
    let (_, (error, left)) = check_interval cfg now code w.device_codes in
    let (verified', g') = check_interval-IsGranted cfg id now code uid ts left w verified g in
    settle-granted cfg id now ip (check_interval cfg now code w.device_codes).0 error uid ts
      (record w { device_codes = left }) verified' g'

find-alive :
    (cfg : Config) (now : ℕ) (key : Str) (codes : Table DeviceAuthCode) (code : DeviceAuthCode)
    → get key codes ≡ some code
    → now ≤ code.exp
    → find cfg now key codes ≡ (some code, codes)
unfolding find
find-alive cfg now key codes code cached alive =
    let living : ltb code.exp now ≡ false = ground arith in rw (cached, find, living) refl

find_by_device_code-alive :
    (cfg : Config) (now : ℕ) (dc : Str) (codes : Table DeviceAuthCode) (code : DeviceAuthCode)
    → get (user_code cfg dc) codes ≡ some code
    → now ≤ code.exp
    → find_by_device_code cfg now dc codes ≡ (some code, codes)
unfolding find_by_device_code
find_by_device_code-alive cfg now dc codes code cached alive =
    find-alive cfg now (user_code cfg dc) codes code cached alive

post_device_verify-accept :
    (cfg : Config) (now : ℕ) (uid : Str) (code : DeviceAuthCode) (codes : Table DeviceAuthCode)
    → get (user_code cfg code.device_code) codes ≡ some code
    → now ≤ code.exp
    → (post_device_verify cfg now uid (user_code cfg code.device_code) accept codes).1
      ≡ put (user_code cfg code.device_code) (record code { verified_by = some uid }) codes
unfolding post_device_verify save
post_device_verify-accept cfg now uid code codes cached alive =
    let found = find-alive cfg now (user_code cfg code.device_code) codes code cached alive in
    rw (found, post_device_verify, found) refl

grant_type_device_code-granted :
    (cfg : Config) (id : Str) (now : ℕ) (ip : Option Str) (uid ts : Str) (code : DeviceAuthCode)
    (w : World)
    → get (user_code cfg code.device_code) w.device_codes ≡ some code
    → cfg.user_code_length ≤ length code.device_code
    → now ≤ code.exp
    → code.verified_by ≡ some uid
    → IsGranted cfg id uid ts code w
    → (grant_type_device_code cfg id now ip
        (record {
          device_code = some code.device_code;
          client_id = some code.client_id;
          client_secret = code.client_secret;
        })
        w).0
      ≡ token_set ts
unfolding grant_type_device_code
grant_type_device_code-granted cfg id now ip uid ts code w cached long alive verified g =
    let found =
      find_by_device_code-alive cfg now code.device_code w.device_codes code cached alive in
    let enough : ltb (length code.device_code) cfg.user_code_length ≡ false = ground arith in
    let client = (opt_str_eq_iff (some code.client_id) (some code.client_id)).1 refl in
    let secret = (opt_str_eq_iff code.client_secret code.client_secret).1 refl in
    rw (enough, grant_type_device_code, found, client, str_eq_refl code.device_code, secret, found)
      (poll-granted cfg id now ip code uid ts w verified g)

-- After a user has accepted a code that is in the cache under its user code, its device gets tokens
-- with its next request within the code's lifetime, however early that comes, if the request has the
-- code, its client and its secret, the user and the client are known, and the token set can be built.
pub verify-granted :
    (cfg : Config) (id : Str) (now later : ℕ) (ip : Option Str) (uid ts : Str)
    (code : DeviceAuthCode) (w : World)
    → get (user_code cfg code.device_code) w.device_codes ≡ some code
    → cfg.user_code_length ≤ length code.device_code
    → now ≤ later
    → later ≤ code.exp
    → IsGranted cfg id uid ts code w
    → (grant_type_device_code cfg id later ip
        (record {
          device_code = some code.device_code;
          client_id = some code.client_id;
          client_secret = code.client_secret;
        })
        (record w {
          device_codes =
              (post_device_verify cfg now uid
                (user_code cfg code.device_code)
                accept
                w.device_codes).1;
        })).0
      ≡ token_set ts
verify-granted cfg id now later ip uid ts code w cached long after alive g =
    let stored : DeviceAuthCode = record code { verified_by = some uid } in
    let key = user_code cfg code.device_code in
    let early : now ≤ code.exp = omega arith in
    let kept : get key (put key stored w.device_codes) ≡ some stored =
      get-put key key stored w.device_codes ∙ rw (str_eq_refl key) refl in
    ap
      (λ codes.
        (grant_type_device_code cfg id later ip
          (record {
            device_code = some code.device_code;
            client_id = some code.client_id;
            client_secret = code.client_secret;
          })
          (record w { device_codes = codes })).0)
      (post_device_verify-accept cfg now uid code w.device_codes cached early)
    ∙ (grant_type_device_code-granted cfg id later ip uid ts stored
        (record w { device_codes = put key stored w.device_codes }) kept long alive refl
        (record {
          user = g.user;
          client = g.client;
          known_user = g.known_user;
          known_client = g.known_client;
          built = g.built;
        }))
