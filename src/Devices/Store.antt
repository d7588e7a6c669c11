-- ===== src/Devices/Store.antt =====
-- The table of devices (rauthy-models/src/entity/devices.rs) and that of their refresh tokens
-- (entity/refresh_tokens_devices.rs). The tokens of a device go with its row, as the foreign key says.
-- Times are in seconds.
pub mod Tests
use rauthy.Base.{
  ℕ, ◌+◌, ◌≤◌, ◌≡◌, ◌≢◌, ◌⊎◌, inl, inr, Bool, true, false, ◌&&◌, ◌||◌, Option, none, some, List, [],
  ◌∷◌, ltb, is_some, arith, Str, str_eq, str_eq_iff, opt_str_eq, if◌then◌else◌, Option-cases,
  Bool-cases, refl, ap, ◌∙◌,
}
use rauthy.Base.Table.{Table, get, put, del, get-del, get-del_cases}
use rauthy.ErrorResponse.{Result, ok_or, not_found}
use rauthy.Devices.{DeviceEntity}

pub record RefreshTokenDevice : Type 0 where
  pub id : Str
  pub device_id : Str
  pub user_id : Str
  pub nbf : ℕ
  pub exp : ℕ
  pub scope : Option Str

pub record Store : Type 0 where
  pub devices : Table DeviceEntity
  pub tokens : Table RefreshTokenDevice

unfoldable pub insert : DeviceEntity → Store → Store
insert d st = record st { devices = put d.id d st.devices }

unfoldable pub find : Str → Store → Result DeviceEntity
find id st = ok_or (get id st.devices) not_found

unfoldable pub find_for_user : Str → Table DeviceEntity → List DeviceEntity
find_for_user uid [] = []
find_for_user uid ((k, d) ∷ rows) =
    let rest = find_for_user uid rows in if opt_str_eq d.user_id (some uid) then d ∷ rest else rest

-- The `DELETE` on the tokens, of the rows that the test picks.
unfoldable pub delete_where :
    (RefreshTokenDevice → Bool) → Table RefreshTokenDevice → Table RefreshTokenDevice
delete_where test [] = []
delete_where test ((k, t) ∷ rows) =
    let rest = delete_where test rows in if test t then rest else (k, t) ∷ rest

-- Both tokens of a device ended more than an hour ago; `access_exp` is never null.
unfoldable pub is_expired : ℕ → DeviceEntity → Bool
is_expired now d =
    ltb (d.access_exp + 3600) now
    && elim d.refresh_exp [ none ↦ true | some exp ↦ ltb (exp + 3600) now ]

abbrev pub is_of_device : Str → RefreshTokenDevice → Bool
is_of_device id t = str_eq t.device_id id

-- `DeviceEntity::delete_expired`, over the rows that the table has.
unfoldable pub delete_expired_rows : ℕ → Table DeviceEntity → Store → Store
unfolding is_expired delete_where
delete_expired_rows now [] st = st
delete_expired_rows now ((k, d) ∷ rows) st = delete_expired_rows now rows (
    if is_expired now d
    then record { devices = del k st.devices; tokens = delete_where (is_of_device k) st.tokens }
    else st)

unfoldable pub delete_expired : ℕ → Store → Store
unfolding delete_expired_rows
delete_expired now st = delete_expired_rows now st.devices st

unfoldable pub invalidate : Str → Store → Store
unfolding delete_where
invalidate id st = record {
  devices = del id st.devices;
  tokens = delete_where (is_of_device id) st.tokens;
}

-- `UPDATE devices SET refresh_exp = null WHERE id`
unfoldable pub clear_refresh : Str → Table DeviceEntity → Table DeviceEntity
clear_refresh id [] = []
clear_refresh id ((k, d) ∷ rows) =
    let rest = clear_refresh id rows in
    if str_eq k id then (k, record d { refresh_exp = none }) ∷ rest else (k, d) ∷ rest

-- `RefreshTokenDevice::invalidate_all_for_device`
unfoldable pub invalidate_all_for_device : Str → Table RefreshTokenDevice → Table RefreshTokenDevice
unfolding delete_where
invalidate_all_for_device id tokens = delete_where (is_of_device id) tokens

unfoldable pub revoke_refresh_tokens : Str → Store → Store
unfolding invalidate_all_for_device clear_refresh
revoke_refresh_tokens id st = record {
  devices = clear_refresh id st.devices;
  tokens = invalidate_all_for_device id st.tokens;
}

unfoldable pub update_name : Str → Str → Str → Table DeviceEntity → Table DeviceEntity
update_name id uid name [] = []
update_name id uid name ((k, d) ∷ rows) =
    let rest = update_name id uid name rows in
    if str_eq k id && opt_str_eq d.user_id (some uid)
    then (k, record d { name = name }) ∷ rest
    else (k, d) ∷ rest

unfoldable pub save : RefreshTokenDevice → Table RefreshTokenDevice → Table RefreshTokenDevice
save t tokens = put t.id t tokens

unfoldable pub create :
    Str
    → Str
    → Str
    → ℕ
    → ℕ
    → Option Str
    → Table RefreshTokenDevice
    → RefreshTokenDevice × Table RefreshTokenDevice
unfolding save
create id device_id user_id nbf exp scope tokens =
    let rt : RefreshTokenDevice = record {
      id = id;
      device_id = device_id;
      user_id = user_id;
      nbf = nbf;
      exp = exp;
      scope = scope;
    } in
    (rt, save rt tokens)

unfoldable pub delete : RefreshTokenDevice → Table RefreshTokenDevice → Table RefreshTokenDevice
delete t tokens = del t.id tokens

unfoldable pub find_token : Str → Table RefreshTokenDevice → Result RefreshTokenDevice
find_token id tokens = ok_or (get id tokens) not_found

-- `UPDATE refresh_tokens_devices SET exp = now WHERE exp > now`, of the rows that the test picks.
unfoldable pub expire_where :
    (RefreshTokenDevice → Bool) → ℕ → Table RefreshTokenDevice → Table RefreshTokenDevice
expire_where test now [] = []
expire_where test now ((k, t) ∷ rows) =
    let rest = expire_where test now rows in
    if ltb now t.exp && test t then (k, record t { exp = now }) ∷ rest else (k, t) ∷ rest

unfoldable pub invalidate_all : ℕ → Table RefreshTokenDevice → Table RefreshTokenDevice
unfolding expire_where
invalidate_all now tokens = expire_where (λ _. true) now tokens

unfoldable pub invalidate_for_user : Str → ℕ → Table RefreshTokenDevice → Table RefreshTokenDevice
unfolding expire_where
invalidate_for_user uid now tokens = expire_where (λ t. str_eq t.user_id uid) now tokens

unfoldable pub invalidate_all_for_user : Str → Table RefreshTokenDevice → Table RefreshTokenDevice
unfolding delete_where
invalidate_all_for_user uid tokens = delete_where (λ t. str_eq t.user_id uid) tokens
