-- ===== src/ApiKeys/Store.antt =====
-- rauthy-models/src/entity/api_keys.rs: the table `api_keys` with the cache of decrypted keys in front
-- of it, and the operations on both. The key's plain secret is what the random generator gives.
pub mod Freshness
use rauthy.Base.{ℕ, Option, none, some, List, [], ◌∷◌, ◌++◌, Str, codes, split_once}
use rauthy.Base.Table.{Table, get, put, del}
use rauthy.ErrorResponse.{Result, ok, err, ◌>>=◌, ok_or, bad_request, not_found, database}
use rauthy.ApiKeys.{ApiKey, ApiKeyAccess, validate_secret}

pub record Store : Type 0 where
  pub db : Table ApiKey
  pub cache_12hr : Table ApiKey

unfoldable pub cache_idx : Str → Str
cache_idx name = codes "api_key_" ++ name

abbrev pub cache_invalidate : Str → Store → Store
cache_invalidate name st = record st { cache_12hr = del (cache_idx name) st.cache_12hr }

-- The secret as the client gets it, `name$secret`.
abbrev pub secret_fmt : Str → Str → Str
secret_fmt name secret = name ++ b'$' ∷ secret

-- `ApiKeyEntity::create`: the primary key refuses a name that is taken.
unfoldable pub create :
    (Str → Str) → Str → Str → Option ℕ → List ApiKeyAccess → ℕ → Store → Result Str × Store
create sha256 secret_plain name expires access now st = elim (get name st.db) [
  | some _ ↦ (err database, st)
  | none ↦ (
    ok (secret_fmt name secret_plain),
    record st {
      db =
          put name
            (record {
              name = name;
              secret = sha256 secret_plain;
              created = now;
              expires = expires;
              access = access;
            })
            st.db;
    },
  )
]

unfoldable pub delete : Str → Store → Store
unfolding cache_idx
delete name st = cache_invalidate name (record st { db = del name st.db })

unfoldable pub generate_secret : (Str → Str) → Str → Str → Store → Result Str × Store
unfolding cache_idx
generate_secret sha256 secret_plain name st = elim (get name st.db) [
  | none ↦ (err not_found, st)
  | some key ↦ (
    ok (secret_fmt name secret_plain),
    cache_invalidate name
        (record st { db = put name (record key { secret = sha256 secret_plain }) st.db }),
  )
]

unfoldable pub update : Str → Option ℕ → List ApiKeyAccess → Store → Result (Unit {0}) × Store
unfolding cache_idx
update name expires access st = elim (get name st.db) [
  | none ↦ (err not_found, st)
  | some key ↦ (
    ok tt,
    cache_invalidate name
        (record st { db = put name (record key { expires = expires; access = access }) st.db }),
  )
]

-- The lookup in `api_key_from_token_validated`: the cache first.
unfoldable pub find_cached : Str → Store → Result ApiKey × Store
unfolding cache_idx
find_cached name st = elim (get (cache_idx name) st.cache_12hr) [
  | some key ↦ (ok key, st)
  | none ↦ elim (get name st.db) [
    | none ↦ (err not_found, st)
    | some key ↦ (ok key, record st { cache_12hr = put (cache_idx name) key st.cache_12hr })
  ]
]

-- `if api_key.validate_secret(secret)? then api_key`
validated : (Str → Str) → ℕ → Str → Result ApiKey → Result ApiKey
validated sha256 now secret found = do
  key ← found
  _ ← validate_secret sha256 key now secret
  ok key

unfoldable pub api_key_from_token_validated : (Str → Str) → Str → ℕ → Store → Result ApiKey × Store
unfolding find_cached validated
api_key_from_token_validated sha256 token now st = elim (split_once b'$' token) [
  | none ↦ (err bad_request, st)
  | some (name, secret) ↦
      let (found, st') = find_cached name st in (validated sha256 now secret found, st')
]
