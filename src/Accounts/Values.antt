-- ===== src/Accounts/Values.antt =====
-- rauthy-models/src/entity/users_values.rs: the table of the users' values, and its cache, which also
-- holds that a user has none.
use rauthy.Base.{ℕ, ◌≡◌, refl, Option, none, some, ◌++◌, Str, codes, str_eq_refl}
use rauthy.Base.Table.{Table, get, put, get-put}

pub record UserValues : Type 0 where
  pub id : Str
  pub birthdate : Option Str
  pub phone : Option Str
  pub street : Option Str
  pub zip : Option ℕ
  pub city : Option Str
  pub country : Option Str

pub record UserValuesRequest : Type 0 where
  pub birthdate : Option Str
  pub phone : Option Str
  pub street : Option Str
  pub zip : Option ℕ
  pub city : Option Str
  pub country : Option Str

pub record ValuesStore : Type 0 where
  pub db : Table UserValues
  pub cache : Table (Option UserValues)

-- `format!("{}_{}", IDX_USERS_VALUES, user_id)`
unfoldable pub values_idx : Str → Str
values_idx user_id = codes "users_values__" ++ user_id

unfoldable pub find : Str → ValuesStore → Option UserValues × ValuesStore
unfolding values_idx
find user_id st = elim (get (values_idx user_id) st.cache) [
  | some values ↦ (values, st)
  | none ↦
      let slf = get user_id st.db in
      (slf, record st { cache = put (values_idx user_id) slf st.cache })
]

-- `UserValues::upsert`
unfoldable pub upsert : Str → UserValuesRequest → ValuesStore → Option UserValues × ValuesStore
unfolding values_idx
upsert user_id v st =
    let slf : UserValues = record {
      id = user_id;
      birthdate = v.birthdate;
      phone = v.phone;
      street = v.street;
      zip = v.zip;
      city = v.city;
      country = v.country;
    } in
    (
      some slf,
      record { db = put user_id slf st.db; cache = put (values_idx user_id) (some slf) st.cache },
    )

-- The values that were just stored are found.
pub find-upsert :
    (user_id : Str) (v : UserValuesRequest) (st : ValuesStore)
    → (find user_id (upsert user_id v st).1).0 ≡ (upsert user_id v st).0
unfolding find upsert
find-upsert user_id v st =
    let idx = values_idx user_id in
    rw (get-put idx idx (upsert user_id v st).0 st.cache, str_eq_refl idx, find) refl
