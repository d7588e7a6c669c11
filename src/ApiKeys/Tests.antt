-- ===== src/ApiKeys/Tests.antt =====
-- Runs of the access check of an API key, and of its secret.
use rauthy.Base.{
  ℕ, ◌≡◌, ◌≢◌, ◌≤◌, ◌↔◌, refl, arith, Option, none, some, List, [], ◌∷◌, ◌++◌, Str, codes,
  str_eq_iff,
}
use rauthy.Base.Table.{get}
use rauthy.ErrorResponse.{ok, err, unauthorized, forbidden}
use rauthy.Fixtures.{a_key}
use rauthy.ApiKeys.{ApiKey, clients, users, read, update, validate_access}
use rauthy.ApiKeys.Access.{Grants, validate_access_iff}
use rauthy.ApiKeys.Store.{
  Store, cache_idx, secret_fmt, generate_secret, api_key_from_token_validated,
}
use rauthy.ApiKeys.Store.Freshness.{IsFresh, generate_secret-accepted, generate_secret-refuses_old}

abbrev sha256 : Str → Str
sha256 s = b'h' ∷ s

-- The key is in the cache.
abbrev store : Store
store = record { db = (codes "k", a_key) ∷ []; cache_12hr = (codes "api_key_k", a_key) ∷ [] }

store-IsFresh : IsFresh store
unfolding get cache_idx
store-IsFresh = record {
  agrees = λ name key h. ground (
    arith,
    str_eq_iff (codes "api_key_k") (codes "api_key_" ++ name),
    str_eq_iff (codes "k") name,
  );
}

granted : validate_access a_key.access clients read ≡ ok tt
unfolding validate_access rauthy.ApiKeys.AccessGroup-discrete rauthy.ApiKeys.AccessRights-discrete
granted = refl

not_granted : validate_access a_key.access clients update ≡ err forbidden
unfolding validate_access rauthy.ApiKeys.AccessGroup-discrete rauthy.ApiKeys.AccessRights-discrete
not_granted = refl

validate_access_iff_example :
    (validate_access a_key.access clients read ≡ ok tt) ↔ Grants clients read a_key.access
validate_access_iff_example = validate_access_iff a_key.access clients read

here : get (codes "k") store.db ≡ some a_key
unfolding get rauthy.Base.str_eq
here = refl

generate_secret-accepted_run :
    (api_key_from_token_validated sha256
      (secret_fmt (codes "k") (codes "new"))
      100
      (generate_secret sha256 (codes "new") (codes "k") store).1).0
    ≡ ok (record a_key { secret = codes "hnew" })
generate_secret-accepted_run =
    generate_secret-accepted sha256 (codes "new") (codes "k") 100 store a_key store-IsFresh
      (omega arith, tt) here (λ exp e. cc)

generate_secret-refuses_old_example :
    (api_key_from_token_validated sha256
      (secret_fmt (codes "k") (codes "old"))
      100
      (generate_secret sha256 (codes "new") (codes "k") store).1).0
    ≡ err unauthorized
generate_secret-refuses_old_example =
    generate_secret-refuses_old sha256 (codes "new") (codes "old") (codes "k") 100 store a_key
      store-IsFresh (omega arith, tt) here (λ e. ground arith)
