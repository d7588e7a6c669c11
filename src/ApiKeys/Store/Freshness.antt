-- ===== src/ApiKeys/Store/Freshness.antt =====
-- The cache of API keys never serves a key that was changed or deleted.
use rauthy.Base.{
  ℕ, ◌≤◌, ◌≡◌, ◌≢◌, refl, Option, none, some, List, arith, Str, str_eq, str_eq_iff, inl, inr,
  Option-cases, ◌∙◌,
}
use rauthy.Base.Csv.{Free, split_once_of_Free}
use rauthy.Base.Table.{get, put, del, get-put, get-del}
use rauthy.ErrorResponse.{ok, err, not_found, unauthorized}
use rauthy.ApiKeys.{ApiKey, ApiKeyAccess, validate_secret}
use rauthy.ApiKeys.Access.{validate_secret_iff}
use rauthy.ApiKeys.Store.{
  Store, cache_idx, secret_fmt, create, delete, generate_secret, update, find_cached, validated,
  api_key_from_token_validated,
}

pub record IsFresh (st : Store) : Type 0 where
  pub agrees :
      (name : Str) (key : ApiKey)
      → get (cache_idx name) st.cache_12hr ≡ some key
      → get name st.db ≡ some key

str_eq-cache_idx : (a b : Str) → str_eq (cache_idx a) (cache_idx b) ≡ str_eq a b
unfolding cache_idx str_eq
str_eq-cache_idx a b = refl

-- No operation on keys leaves an outdated key in the cache.
pub create-IsFresh :
    (sha256 : Str → Str) (secret name : Str) (expires : Option ℕ) (access : List ApiKeyAccess)
    (now : ℕ) (st : Store)
    → IsFresh st
    → IsFresh (create sha256 secret name expires access now st).1
unfolding create
create-IsFresh sha256 secret name expires access now st f = elim (Option-cases (get name st.db)) [
  | inr (key, taken) ↦ rw (taken, create) f
  | inl free ↦
      rw (free, create)
        (record {
          agrees = λ n key h. ground (
            arith,
            f.agrees n key h,
            str_eq_iff name n,
            get-put n name
                (record {
                  name = name;
                  secret = sha256 secret;
                  created = now;
                  expires = expires;
                  access = access;
                })
                st.db,
          );
        })
]

-- A write to the row, with the entry removed from the cache.
write-IsFresh :
    (name : Str) (key : ApiKey) (st : Store)
    → IsFresh st
    → IsFresh
        (record st { db = put name key st.db; cache_12hr = del (cache_idx name) st.cache_12hr })
write-IsFresh name key st f = record {
  agrees = λ n k h. ground (
    arith,
    f.agrees n k,
    str_eq-cache_idx name n,
    get-put n name key st.db,
    get-del (cache_idx n) (cache_idx name) st.cache_12hr,
  );
}

pub delete-IsFresh : (name : Str) (st : Store) → IsFresh st → IsFresh (delete name st)
unfolding delete
delete-IsFresh name st f = record {
  agrees = λ n k h. ground (
    arith,
    f.agrees n k,
    str_eq-cache_idx name n,
    get-del n name st.db,
    get-del (cache_idx n) (cache_idx name) st.cache_12hr,
  );
}

pub generate_secret-IsFresh :
    (sha256 : Str → Str) (secret name : Str) (st : Store)
    → IsFresh st
    → IsFresh (generate_secret sha256 secret name st).1
unfolding generate_secret
generate_secret-IsFresh sha256 secret name st f = elim (Option-cases (get name st.db)) [
  | inl missing ↦ rw (missing, generate_secret) f
  | inr (key, row) ↦ rw (row, generate_secret) (write-IsFresh name _ st f)
]

pub update-IsFresh :
    (name : Str) (expires : Option ℕ) (access : List ApiKeyAccess) (st : Store)
    → IsFresh st
    → IsFresh (update name expires access st).1
unfolding update
update-IsFresh name expires access st f = elim (Option-cases (get name st.db)) [
  | inl missing ↦ rw (missing, update) f
  | inr (key, row) ↦ rw (row, update) (write-IsFresh name _ st f)
]

find_cached-eq_db :
    (name : Str) (st : Store)
    → IsFresh st
    → (find_cached name st).0 ≡ elim (get name st.db) [ none ↦ err not_found | some key ↦ ok key ]
unfolding find_cached
find_cached-eq_db name st f = elim (Option-cases (get (cache_idx name) st.cache_12hr)) [
  | inl miss ↦ ground arith
  | inr (key, hit) ↦ ground (arith, f.agrees name key hit)
]

-- With a fresh cache a token `name$secret` is checked against the row of the database.
token_against_db :
    (sha256 : Str → Str) (name secret : Str) (now : ℕ) (st : Store)
    → IsFresh st
    → Free b'$' name
    → (api_key_from_token_validated sha256 (secret_fmt name secret) now st).0
      ≡ validated sha256 now secret
          (elim (get name st.db) [ none ↦ err not_found | some key ↦ ok key ])
unfolding api_key_from_token_validated
token_against_db sha256 name secret now st f free =
    rw (split_once_of_Free b'$' name secret free, api_key_from_token_validated)
      (rw (find_cached-eq_db name st f))

get-generate_secret :
    (sha256 : Str → Str) (secret name : Str) (st : Store) (key : ApiKey)
    → get name st.db ≡ some key
    → get name (generate_secret sha256 secret name st).1.db
      ≡ some (record key { secret = sha256 secret })
unfolding generate_secret
get-generate_secret sha256 secret name st key row =
    rw (row, generate_secret)
      (ground (
        arith,
        str_eq_iff name name,
        get-put name name (record key { secret = sha256 secret }) st.db,
      ))

-- Where the cache of API keys agrees with the table, and the key's name has no `$`: the token that
-- `generate_secret` returns is accepted from then on, until the key expires, with the key's rights
-- unchanged.
pub generate_secret-accepted :
    (sha256 : Str → Str) (secret name : Str) (now : ℕ) (st : Store) (key : ApiKey)
    → IsFresh st
    → Free b'$' name
    → get name st.db ≡ some key
    → ((exp : ℕ) → key.expires ≡ some exp → now ≤ exp)
    → (api_key_from_token_validated sha256
        (secret_fmt name secret)
        now
        (generate_secret sha256 secret name st).1).0
      ≡ ok (record key { secret = sha256 secret })
unfolding validated
generate_secret-accepted sha256 secret name now st key f free row alive =
    let fresh = generate_secret-IsFresh sha256 secret name st f in
    token_against_db sha256 name secret now _ fresh free
    ∙ rw (get-generate_secret sha256 secret name st key row) (
        rw (
          (validate_secret_iff sha256 (record key { secret = sha256 secret }) now secret).1
            (alive, refl)))

wrong_secret :
    (sha256 : Str → Str) (key : ApiKey) (now : ℕ) (secret : Str)
    → sha256 secret ≢ key.secret
    → validate_secret sha256 key now secret ≡ err unauthorized
unfolding validate_secret
wrong_secret sha256 key now secret differ = ground (arith, str_eq_iff (sha256 secret) key.secret)

-- Where the cache of API keys agrees with the table, and the key's name has no `$`: once a new secret
-- is generated for a key, a token of that key with any secret of another hash is refused.
pub generate_secret-refuses_old :
    (sha256 : Str → Str) (secret old name : Str) (now : ℕ) (st : Store) (key : ApiKey)
    → IsFresh st
    → Free b'$' name
    → get name st.db ≡ some key
    → sha256 old ≢ sha256 secret
    → (api_key_from_token_validated sha256
        (secret_fmt name old)
        now
        (generate_secret sha256 secret name st).1).0
      ≡ err unauthorized
unfolding validated
generate_secret-refuses_old sha256 secret old name now st key f free row differ =
    let fresh = generate_secret-IsFresh sha256 secret name st f in
    token_against_db sha256 name old now _ fresh free
    ∙ rw (get-generate_secret sha256 secret name st key row)
        (rw (wrong_secret sha256 (record key { secret = sha256 secret }) now old differ))
