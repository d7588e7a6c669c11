-- ===== src/Devices/Store/Tests.antt =====
-- Runs of the operations on devices and their refresh tokens.
use rauthy.Base.{
  ℕ, ◌↔◌, ◌≡◌, ◌≢◌, refl, true, false, Option, none, some, List, [], ◌∷◌, arith, Str, codes,
  str_eq_iff,
}
use rauthy.Base.Table.{get, IsKeyed}
use rauthy.ErrorResponse.{ok}
use rauthy.Devices.{DeviceEntity}
use rauthy.Devices.Store.{
  Store, RefreshTokenDevice, find, delete_expired, revoke_refresh_tokens, update_name,
}
use rauthy.Devices.Expiry.{HasOwners, IsLive, delete_expired_lem, revoke_refresh_tokens_lem}

abbrev a_device : DeviceEntity
a_device = record {
  id = codes "d";
  client_id = codes "app";
  user_id = some (codes "u");
  created = 0;
  access_exp = 100;
  refresh_exp = some 9000;
  peer_ip = codes "ip";
  name = codes "tv";
}

abbrev old_device : DeviceEntity
old_device = record a_device { id = codes "o"; refresh_exp = none }

abbrev a_token : RefreshTokenDevice
a_token = record {
  id = codes "t";
  device_id = codes "d";
  user_id = codes "u";
  nbf = 0;
  exp = 9000;
  scope = none;
}

abbrev store : Store
store = record {
  devices = (codes "d", a_device) ∷ (codes "o", old_device) ∷ [];
  tokens = (codes "t", a_token) ∷ [];
}

expired_run : (delete_expired 5000 store).devices ≡ (codes "d", a_device) ∷ []
unfolding delete_expired rauthy.Base.Table.del rauthy.Base.str_eq
expired_run = refl

-- Only the user of a device can rename it.
update_name_run : update_name (codes "d") (codes "v") (codes "x") store.devices ≡ store.devices
unfolding update_name rauthy.Base.str_eq rauthy.Base.opt_str_eq
update_name_run = refl

store-HasOwners : HasOwners store
unfolding get
store-HasOwners id t h =
    (a_device, ground (arith, str_eq_iff (codes "t") id, str_eq_iff (codes "d") t.device_id))

delete_expired_lem_example :
    HasOwners (delete_expired 5000 store)
    × ((id : Str) (d : DeviceEntity)
        → (get id (delete_expired 5000 store).devices ≡ some d)
          ↔ ((get id store.devices ≡ some d) × IsLive 5000 d))
unfolding get rauthy.Base.str_eq
delete_expired_lem_example =
    delete_expired_lem 5000 store (refl, (refl, tt)) (refl, tt) store-HasOwners

revoke_refresh_tokens_lem_run :
    (find (codes "d") (revoke_refresh_tokens (codes "d") store)
      ≡ ok (record a_device { refresh_exp = none }))
    × ((key : Str) (t : RefreshTokenDevice)
        → get key (revoke_refresh_tokens (codes "d") store).tokens ≡ some t
        → (t.device_id ≢ codes "d") × (get key store.tokens ≡ some t))
unfolding get find rauthy.Base.str_eq
revoke_refresh_tokens_lem_run = revoke_refresh_tokens_lem (codes "d") store a_device (refl, tt) refl
