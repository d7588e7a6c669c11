-- ===== src/Devices/Tests.antt =====
-- Runs of the device grant: a code that a user has verified, and one that is polled too early.
use rauthy.Base.{
  ℕ, ◌+◌, ◌*◌, ◌≤◌, ◌<◌, ◌≡◌, refl, arith, false, Option, none, some, [], ◌∷◌, Str, codes,
}
use rauthy.Base.Table.{get}
use rauthy.ErrorResponse.{ok}
use rauthy.Fixtures.{a_user, a_client}
use rauthy.Devices.{
  Config, DeviceAuthCode, access_denied, token_set, bad_request, World, TokenRequest, user_code,
  find, poll, grant_type_device_code, post_device_verify, accept, decline,
}
use rauthy.Devices.Granted.{verify-granted}
use rauthy.Devices.Polling.{
  IsReady, grant_type_device_code-issued, poll-denied_kept, post_device_verify-find,
}

abbrev cfg : Config
cfg = record {
  user_code_length = 2;
  code_lifetime = 300;
  poll_interval = 5;
  from_user = λ _ _ _ _. ok (codes "tokens");
}

abbrev pending_code : DeviceAuthCode
pending_code = record {
  client_id = codes "app";
  device_code = codes "abcd";
  verified_by = none;
  exp = 300000;
  last_poll = 9000;
  scopes = none;
  client_secret = none;
  warnings = 2;
}

abbrev verified_code : DeviceAuthCode
verified_code = record pending_code { verified_by = some (codes "u") }

abbrev world : DeviceAuthCode → World
world code = record {
  users = (codes "u", a_user) ∷ [];
  clients = (codes "app", a_client) ∷ [];
  devices = [];
  device_codes = (codes "ab", code) ∷ [];
}

abbrev request : TokenRequest
request = record {
  device_code = some (codes "abcd");
  client_id = some (codes "app");
  client_secret = none;
}

issued :
    (grant_type_device_code cfg (codes "d") 20000 none request (world verified_code)).0
    ≡ token_set (codes "tokens")
unfolding grant_type_device_code get rauthy.Base.str_eq rauthy.Base.take rauthy.Base.opt_str_eq
issued = refl

grant_type_device_code-issued_example :
    (device_code : Str) × (code : DeviceAuthCode) × IsReady cfg 20000 request
      (world verified_code)
      device_code
      code
    × (get
          (user_code cfg device_code)
          (grant_type_device_code cfg
            (codes "d")
            20000
            none
            request
            (world verified_code)).1.device_codes
        ≡ none)
grant_type_device_code-issued_example =
    grant_type_device_code-issued cfg (codes "d") 20000 none request (world verified_code)
      (codes "tokens") issued

poll-denied_kept_example :
    ((poll cfg (codes "d") 10000 none pending_code (world pending_code)).0
      ≡ bad_request access_denied)
    × (get
          (user_code cfg (codes "abcd"))
          (poll cfg (codes "d") 10000 none pending_code (world pending_code)).1.device_codes
        ≡ some (record pending_code { warnings = 3; last_poll = 10000 }))
poll-denied_kept_example =
    poll-denied_kept cfg (codes "d") 10000 none pending_code (world pending_code) refl (omega arith)
      (omega arith) (omega arith)

cached : get (codes "ab") (world pending_code).device_codes ≡ some pending_code
unfolding get rauthy.Base.str_eq
cached = refl

own_key : user_code cfg (codes "abcd") ≡ codes "ab"
unfolding user_code rauthy.Base.take
own_key = refl

post_device_verify-find_run :
    ((find cfg 20000
        (codes "ab")
        (post_device_verify cfg 10000
          (codes "u")
          (codes "ab")
          accept
          (world pending_code).device_codes).1).0
      ≡ some verified_code)
    × ((find cfg 20000
          (codes "ab")
          (post_device_verify cfg 10000
            (codes "u")
            (codes "ab")
            decline
            (world pending_code).device_codes).1).0
        ≡ none)
post_device_verify-find_run =
    post_device_verify-find cfg 10000 20000 (codes "u") (codes "ab")
      (world pending_code).device_codes pending_code cached own_key (omega arith) (omega arith)

verify-granted_example :
    (grant_type_device_code cfg (codes "d") 20000 none request (record (world pending_code) {
      device_codes =
          (post_device_verify cfg 15000
            (codes "u")
            (user_code cfg (codes "abcd"))
            accept
            (world pending_code).device_codes).1;
    })).0
    ≡ token_set (codes "tokens")
unfolding get rauthy.Base.str_eq user_code rauthy.Base.take
verify-granted_example =
    verify-granted cfg (codes "d") 15000 20000 none (codes "u") (codes "tokens") pending_code
      (world pending_code) refl (omega arith) (omega arith) (omega arith)
      (record {
        user = a_user;
        client = a_client;
        known_user = refl;
        known_client = refl;
        built = refl;
      })
