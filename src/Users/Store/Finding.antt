-- ===== src/Users/Store/Finding.antt =====
-- What is found after a user was saved, converted to a passkey account or given another language.
use rauthy.Base.{
  ◌≡◌, ◌<◌, inl, inr, refl, sym, ap, ◌∙◌, ℕ, Bool, true, false, not, ◌||◌, Option, none, some, [],
  ◌∷◌, arith, ltb, Str, str_eq, str_eq_refl, Option-cases, Bool-cases, if◌then◌else◌,
}
use rauthy.Base.Table.{Table, get, put, del, get-put}
use rauthy.ErrorResponse.{
  Result, ok, err, bad_request, not_found, and_then-eq-ok, guard_passed, past_guard,
}
use rauthy.Users.{User, AccountType, account_type, passkey, has_webauthn_enabled}
use rauthy.Users.Store.{
  UserStore, users_idx, find, convert, find_by_lower, recache, lock_out, update_row, write, store,
  save, update_language, set_language, is_password_account, convert_to_passkey,
}
use rauthy.Users.Store.Saving.{store-eq-ok}

get-put_twice :
    (u : User) (cache : Table User)
    → (get (users_idx u.id) (put (users_idx u.email) u (put (users_idx u.id) u cache)) ≡ some u)
      × (get (users_idx u.email) (put (users_idx u.email) u (put (users_idx u.id) u cache))
          ≡ some u)
get-put_twice u cache =
    let by_id = users_idx u.id in
    let by_email = users_idx u.email in
    (
      ground (
        arith,
        get-put by_id by_email u (put by_id u cache),
        get-put by_id by_id u cache,
        str_eq_refl by_id,
      ),
      ground (arith, get-put by_email by_email u (put by_id u cache), str_eq_refl by_email),
    )

get-recache :
    (u : User) (old : Option Str) (cache : Table User)
    → (get (users_idx u.id) (recache u old cache) ≡ some u)
      × (get (users_idx u.email) (recache u old cache) ≡ some u)
unfolding recache
get-recache u none cache = get-put_twice u cache
get-recache u (some e) cache = get-put_twice u (del (users_idx e) cache)

hit-find :
    (id : Str) (st : UserStore) (u : User)
    → get (users_idx id) st.cache_users ≡ some u
    → (find id st).0 ≡ ok u
unfolding find
hit-find id st u hit = rw (hit, find) refl

hit-find_by_lower :
    (email : Str) (st : UserStore) (u : User)
    → get (users_idx email) st.cache_users ≡ some u
    → (find_by_lower email st).0 ≡ ok u
unfolding find_by_lower
hit-find_by_lower email st u hit = rw (hit, find_by_lower) refl

-- What was found is cached, and the table is as it was.
ok-injective : {A : Type 0} {a b : A} → Result.ok a ≡ ok b → a ≡ b
ok-injective e = cc (e)

find-caches :
    (id : Str) (st : UserStore) (u : User)
    → (find id st).0 ≡ ok u
    → (get (users_idx id) (find id st).1.cache_users ≡ some u) × ((find id st).1.db ≡ st.db)
unfolding find get
find-caches id st u = elim (Option-cases (get (users_idx id) st.cache_users)) [
  | inr (v, hit) ↦ rw (hit, find) (λ h. (hit ∙ ap some (ok-injective h), refl))
  | inl miss ↦
      rw (miss, find)
        (elim (Option-cases (get id st.db)) [
          | inl gone ↦ rw (gone) (λ h. absurd (cc (h)))
          | inr (v, row) ↦ rw (row) (λ h. (
            get-put (users_idx id) (users_idx id) v st.cache_users
                ∙ rw (str_eq_refl (users_idx id)) (ap some (ok-injective h)),
            refl,
          ))
        ])
]

find-write :
    (u : User) (old : Option Str) (now : ℕ) (st : UserStore)
    → ((find u.id (write u old now st)).0 ≡ ok u)
      × ((find_by_lower u.email (write u old now st)).0 ≡ ok u)
unfolding write
find-write u old now st =
    let (by_id, by_email) =
      get-recache u old (lock_out u now (record st { db = update_row u st.db })).cache_users in
    (
      hit-find u.id (write u old now st) u by_id,
      hit-find_by_lower u.email (write u old now st) u by_email,
    )

-- A user who was saved is found as saved, by the id and by the address.
pub find-store :
    (u : User) (old : Option Str) (now : ℕ) (st : UserStore)
    → (store u old now st).0 ≡ ok tt
    → ((find u.id (store u old now st).1).0 ≡ ok u)
      × ((find_by_lower u.email (store u old now st).1).0 ≡ ok u)
find-store u old now st done = rw (store-eq-ok u old now st done) (find-write u old now st)

get-set_language :
    (id lang : Str) (rows : Table User) (v : User)
    → get id rows ≡ some v
    → get id (set_language id lang rows) ≡ some (record v { language = lang })
unfolding get
get-set_language id lang [] v h = cc
get-set_language id lang ((k, r) ∷ rows) v h = elim (Bool-cases (str_eq k id)) [
  | inl same ↦ ground (arith)
  | inr other ↦ ground (arith, get-set_language id lang rows v)
]

-- After a user who was just looked up has changed the language, the row has the new one, and the user is
-- still found with the old one.
pub find-update_language :
    (u v : User) (st : UserStore)
    → (find u.id st).0 ≡ ok v
    → get u.id st.db ≡ some v
    → ((find u.id (update_language u (find u.id st).1)).0 ≡ ok v)
      × (get u.id (update_language u (find u.id st).1).db
          ≡ some (record v { language = u.language }))
unfolding update_language
find-update_language u v st found row =
    let (hit, same) = find-caches u.id st v found in
    (
      hit-find u.id (update_language u (find u.id st).1) v hit,
      get-set_language u.id u.language (find u.id st).1.db v (ap (get u.id) same ∙ row),
    )

-- What a conversion has checked.
pub record IsConvertible (with_uv : Str → ℕ) (u : User) : Type 0 where
  pub by_password : account_type u ≡ AccountType.password
  pub with_passkey : has_webauthn_enabled u ≡ true
  pub verified : 0 < with_uv u.id

checks_hold :
    (with_uv : Str → ℕ) (u : User)
    → (not (is_password_account (account_type u)) || not (has_webauthn_enabled u)) ≡ false
    → not (ltb 0 (with_uv u.id)) ≡ false
    → IsConvertible with_uv u
unfolding account_type
checks_hold with_uv u a b = record {
  by_password = ground arith;
  with_passkey = ground arith;
  verified = ground arith;
}

-- The account as it is saved.
abbrev pub without_password : User → User
without_password u = record u { password = none; password_expires = none }

convert-checks :
    (with_uv : Str → ℕ) (now : ℕ) (u : User) (st : UserStore)
    → (convert with_uv now u st).0 ≡ ok tt
    → IsConvertible with_uv u
      × ((find u.id (convert with_uv now u st).1).0 ≡ ok (without_password u))
unfolding convert save
convert-checks with_uv now u st done =
    let odd : Bool = not (is_password_account (account_type u)) || not (has_webauthn_enabled u) in
    let bare : Bool = not (ltb 0 (with_uv u.id)) in
    let rest : Result (Unit {0}) × UserStore = store (without_password u) none now st in
    let inner : Result (Unit {0}) × UserStore = if bare then (err not_found, st) else rest in
    let open_outer = past_guard odd bad_request st inner done in
    let done_inner : inner.0 ≡ ok tt =
      sym (ap (λ (r : Result (Unit {0}) × UserStore). r.0) open_outer) ∙ done in
    let opened = open_outer ∙ past_guard bare not_found st rest done_inner in
    let done_rest : rest.0 ≡ ok tt =
      sym (ap (λ (r : Result (Unit {0}) × UserStore). r.0) opened) ∙ done in
    (
      checks_hold with_uv u (guard_passed odd bad_request st inner done)
          (guard_passed bare not_found st rest done_inner),
      ap (λ (r : Result (Unit {0}) × UserStore). (find u.id r.1).0) opened
          ∙ (find-store (without_password u) none now st done_rest).0,
    )

without_password-account_type :
    (with_uv : Str → ℕ) (u : User)
    → IsConvertible with_uv u
    → account_type (without_password u) ≡ passkey
unfolding account_type has_webauthn_enabled
without_password-account_type with_uv u h = ground (arith, h.by_password, h.with_passkey)

-- A conversion succeeds only for the user found under the id, whose account is one with a password and
-- with a passkey that has user verification; the user found afterwards has a passkey account.
pub convert_to_passkey-account_type :
    (with_uv : Str → ℕ) (id : Str) (now : ℕ) (st : UserStore)
    → (convert_to_passkey with_uv id now st).0 ≡ ok tt
    → (u : User) × ((find id st).0 ≡ ok u)
      × IsConvertible with_uv u
      × ((find u.id (convert_to_passkey with_uv id now st).1).0 ≡ ok (without_password u))
      × (account_type (without_password u) ≡ passkey)
unfolding convert_to_passkey
convert_to_passkey-account_type with_uv id now st done =
    let (u, found, opened) = and_then-eq-ok (find id st) (convert with_uv now) done in
    let (checked, after) =
      convert-checks with_uv now u (find id st).1
        (sym (ap (λ (r : Result (Unit {0}) × UserStore). r.0) opened) ∙ done) in
    (
      u,
      found,
      checked,
      ap (λ (r : Result (Unit {0}) × UserStore). (find u.id r.1).0) opened ∙ after,
      without_password-account_type with_uv u checked,
    )
