-- ===== src/Users/Store/Saving.antt =====
-- Saving and deleting a user keeps the cache of users in agreement with the table.
use mathlib.Core.Option
use std.Path.{subst}
use rauthy.Base.{
  ◌≡◌, ◌≢◌, ◌⊎◌, inl, inr, refl, sym, ap, ◌∙◌, ℕ, false, Bool, Option, none, some, [], ◌∷◌, arith,
  is_some, ◌&&◌, Str, str_eq, str_eq_iff, str_eq_refl, Option-cases, Bool-cases, if◌then◌else◌,
  to_lowercase,
}
use rauthy.Base.Table.{Table, get, put, del, get-del, get-put_cases, get-del_cases}
use rauthy.ErrorResponse.{ok, bad_request, guard_passed, and_then, Result-cases}
use rauthy.Users.{User}
use rauthy.Users.Store.{
  UserStore, users_idx, find_where, update_row, lock_out, recache, clashes, write, store, delete,
  count, count_dec, save, is_email_free, find_by_email, find_by_lower, has_email,
}
use rauthy.Users.Store.Coherence.{
  Agrees, IsCoherent, IsTable, users_idx-injective, str_eq-users_idx, find_by_lower-IsCoherent,
}

-- One row after the update.
abbrev updated : User → User → User
updated u r = record u { id = r.id; created_at = r.created_at }

get-update_row :
    (u : User) (id : Str) (rows : Table User)
    → get id (update_row u rows)
      ≡ (if str_eq id u.id then Option.map (updated u) (get id rows) else get id rows)
unfolding get update_row
get-update_row u id [] = ground arith
get-update_row u id ((k, r) ∷ rows) = elim (Bool-cases (str_eq k id)) [
  | inl same ↦ rw ((str_eq_iff k id).0 same, str_eq_refl id) (ground (arith, str_eq_refl id))
  | inr other ↦ ground (arith, get-update_row u id rows)
]

-- The row that a save replaces has the id and the time of creation of the user.
pub record Replaces (u r : User) : Type 0 where
  pub same_id : r.id ≡ u.id
  pub same_created_at : r.created_at ≡ u.created_at

updated-eq : (u r : User) → Replaces u r → updated u r ≡ u
updated-eq u r h =
    ap (λ i. record u { id = i; created_at = r.created_at }) h.same_id
    ∙ ap (λ t. record u { created_at = t }) h.same_created_at

pub get-update_row_self :
    (u r : User) (rows : Table User)
    → get u.id rows ≡ some r
    → Replaces u r
    → get u.id (update_row u rows) ≡ some u
get-update_row_self u r rows row h =
    get-update_row u u.id rows ∙ rw (str_eq_refl u.id, row) (ap some (updated-eq u r h))

pub get-update_row_other :
    (u : User) (id : Str) (rows : Table User)
    → str_eq id u.id ≡ false
    → get id (update_row u rows) ≡ get id rows
get-update_row_other u id rows other = get-update_row u id rows ∙ rw (other) refl

-- The address under which the user was cached is given as the old one, unless it is the new one.
abbrev pub Tells : Option Str → User → User → Type 0
Tells none u r = r.email ≡ u.email
Tells (some e) u r = r.email ≡ e

-- An old entry that `recache` leaves stands under neither address and not under the id.
record IsLeft (u : User) (old : Option Str) (cache : Table User) (key : Str) (v : User)
    : Type 0 where
  was_cached : get (users_idx key) cache ≡ some v
  not_id : u.id ≢ key
  not_email : (r : User) → Tells old u r → r.email ≢ key

same_idx : (a b : Str) → str_eq (users_idx a) (users_idx b) ≡ false → a ≢ b
same_idx a b e = ground (arith, str_eq-users_idx a b, str_eq_iff a b)

recache_cases :
    (u : User) (old : Option Str) (cache : Table User) (key : Str) (v : User)
    → get (users_idx key) (recache u old cache) ≡ some v
    → ((v ≡ u) × ((u.id ≡ key) ⊎ (u.email ≡ key))) ⊎ IsLeft u old cache key v
unfolding recache
recache_cases u none cache key v h =
    elim (get-put_cases (users_idx key) (users_idx u.email) u v (put (users_idx u.id) u cache) h) [
      | inl (same, new) ↦ inl (new, inr (sym (users_idx-injective key u.email same)))
      | inr (other, before) ↦
          elim (get-put_cases (users_idx key) (users_idx u.id) u v cache before) [
            | inl (same, new) ↦ inl (new, inl (sym (users_idx-injective key u.id same)))
            | inr (other_id, old_entry) ↦ inr (record {
              was_cached = old_entry;
              not_id = same_idx u.id key other_id;
              not_email = λ r t e. same_idx u.email key other (sym t ∙ e);
            })
          ]
    ]
recache_cases u (some e) cache key v h =
    elim (get-put_cases (users_idx key) (users_idx u.email) u v
      (put (users_idx u.id) u (del (users_idx e) cache)) h) [
        | inl (same, new) ↦ inl (new, inr (sym (users_idx-injective key u.email same)))
        | inr (other, before) ↦
            elim (get-put_cases (users_idx key) (users_idx u.id) u v (del (users_idx e) cache)
              before) [
                | inl (same, new) ↦ inl (new, inl (sym (users_idx-injective key u.id same)))
                | inr (other_id, left) ↦
                    let (other_old, old_entry) =
                      get-del_cases (users_idx key) (users_idx e) v cache left in
                    inr (record {
                      was_cached = old_entry;
                      not_id = same_idx u.id key other_id;
                      not_email = λ r t x. same_idx e key other_old (sym t ∙ x);
                    })
              ]
      ]

-- An old entry is of another user.
left_other :
    (u r : User) (old : Option Str) (db cache : Table User) (key : Str) (v : User)
    → Agrees db cache
    → get u.id db ≡ some r
    → Replaces u r
    → Tells old u r
    → IsLeft u old cache key v
    → str_eq v.id u.id ≡ false
left_other u r old db cache key v c row h t l = elim (Bool-cases (str_eq v.id u.id)) [
  | inr other ↦ other
  | inl same ↦
      let (here, under) = c key v l.was_cached in
      let at_u : v.id ≡ u.id = (str_eq_iff v.id u.id).0 same in
      let is_r : v ≡ r = the_row v r (sym here ∙ ap (λ i. get i db) at_u ∙ row) in
      elim under [
        | inl by_id ↦ absurd (l.not_id (sym at_u ∙ by_id))
        | inr by_email ↦ absurd (l.not_email v (tells_of old is_r t) by_email)
      ]
]
  where
    the_row : (v r : User) → some v ≡ some r → v ≡ r
    the_row v r e = cc (e)

    tells_of : (old : Option Str) → v ≡ r → Tells old u r → Tells old u v
    tells_of none e t = ap User.email e ∙ t
    tells_of (some x) e t = ap User.email e ∙ t

recache-Agrees :
    (u r : User) (old : Option Str) (db cache : Table User)
    → Agrees db cache
    → get u.id db ≡ some r
    → Replaces u r
    → Tells old u r
    → Agrees (update_row u db) (recache u old cache)
recache-Agrees u r old db cache c row h t key v e = elim (recache_cases u old cache key v e) [
  | inl (new, under) ↦ rw (new) (get-update_row_self u r db row h, under)
  | inr l ↦
      let (here, under) = c key v l.was_cached in
      (get-update_row_other u v.id db (left_other u r old db cache key v c row h t l) ∙ here, under)
]

recache-Agrees_lem :
    (u : User) (old : Option Str) (db0 cache0 db cache : Table User)
    → db ≡ db0
    → cache ≡ cache0
    → Agrees db0 (recache u old cache0)
    → Agrees db (recache u old cache)
recache-Agrees_lem u old db0 cache0 db cache e f c = rw (e, f) c

pub lock_out-db : (u : User) (now : ℕ) (st : UserStore) → (lock_out u now st).db ≡ st.db
unfolding lock_out
lock_out-db u now st = ground arith

lock_out-cache_users :
    (u : User) (now : ℕ) (st : UserStore) → (lock_out u now st).cache_users ≡ st.cache_users
unfolding lock_out
lock_out-cache_users u now st = ground arith

write-IsCoherent :
    (u r : User) (old : Option Str) (now : ℕ) (st : UserStore)
    → IsCoherent st
    → get u.id st.db ≡ some r
    → Replaces u r
    → Tells old u r
    → IsCoherent (write u old now st)
unfolding write
write-IsCoherent u r old now st c row h t =
    let st' : UserStore = record st { db = update_row u st.db } in
    recache-Agrees_lem u old (update_row u st.db) st.cache_users (lock_out u now st').db
      (lock_out u now st').cache_users (lock_out-db u now st') (lock_out-cache_users u now st')
      (recache-Agrees u r old st.db st.cache_users c row h t)

-- A user who is saved with the id and the time of creation of the row, and whose old address is told
-- where it has changed, leaves the cache in agreement with the table.
pub store-IsCoherent :
    (u r : User) (old : Option Str) (now : ℕ) (st : UserStore)
    → IsCoherent st
    → get u.id st.db ≡ some r
    → Replaces u r
    → Tells old u r
    → IsCoherent (store u old now st).1
unfolding store
store-IsCoherent u r old now st c row h t = elim (Option-cases (find_where (clashes u) st.db)) [
  | inr (w, clash) ↦ rw (row, clash, store) c
  | inl free ↦ rw (row, free, store) (write-IsCoherent u r old now st c row h t)
]

-- A save that succeeds has been written.
pub store-eq-ok :
    (u : User) (old : Option Str) (now : ℕ) (st : UserStore)
    → (store u old now st).0 ≡ ok tt
    → (store u old now st).1 ≡ write u old now st
unfolding store
store-eq-ok u old now st done =
    let clash : Bool = is_some (get u.id st.db) && is_some (find_where (clashes u) st.db) in
    let free = guard_passed clash bad_request st (ok tt, write u old now st) done in
    rw (free, store) refl

find_by_lower-db : (email : Str) (st : UserStore) → (find_by_lower email st).1.db ≡ st.db
unfolding find_by_lower
find_by_lower-db email st = elim (Option-cases (get (users_idx email) st.cache_users)) [
  | inr (u, hit) ↦ rw (hit, find_by_lower) refl
  | inl miss ↦
      rw (miss, find_by_lower)
        (elim (Option-cases (find_where (has_email email) st.db)) [
          | inl gone ↦ rw (gone) refl
          | inr (u, row) ↦ rw (row) refl
        ])
]

is_email_free-state :
    (email : Str) (st : UserStore)
    → (is_email_free email st).1 ≡ (find_by_lower (to_lowercase email) st).1
unfolding is_email_free find_by_email
is_email_free-state email st = elim (Result-cases (find_by_lower (to_lowercase email) st).0) [
  | inl (u, taken) ↦ rw (taken, is_email_free) refl
  | inr (e, free) ↦ rw (free, is_email_free) refl
]

-- Every save of a user, with the id and the time of creation of the row and with the old address where
-- that has changed, keeps the cache of users in agreement with the table, whether it succeeds or fails.
pub save-IsCoherent :
    (u r : User) (old : Option Str) (now : ℕ) (st : UserStore)
    → IsTable st.db
    → IsCoherent st
    → get u.id st.db ≡ some r
    → Replaces u r
    → Tells old u r
    → IsCoherent (save u old now st).1
unfolding save
save-IsCoherent u r none now st table c row h t = store-IsCoherent u r none now st c row h t
save-IsCoherent u r (some e) now st table c row h t =
    elim (Result-cases (is_email_free u.email st).0) [
      | inr (x, taken) ↦ rw (taken, and_then) checked
      | inl (_, free) ↦
          rw (free, and_then)
            (store-IsCoherent u r (some e) now (is_email_free u.email st).1 checked
              (ap (get u.id) same_db ∙ row) h t)
    ]
  where
    lowered : Str
    lowered = to_lowercase u.email

    same_state : (is_email_free u.email st).1 ≡ (find_by_lower lowered st).1
    same_state = is_email_free-state u.email st

    same_db : (is_email_free u.email st).1.db ≡ st.db
    same_db = ap UserStore.db same_state ∙ find_by_lower-db lowered st

    checked : IsCoherent (is_email_free u.email st).1
    checked = subst IsCoherent (sym same_state) (find_by_lower-IsCoherent lowered st table c)

swapped : (a b : Str) → str_eq a b ≡ false → str_eq b a ≡ false
swapped a b e = ground (arith, str_eq_iff a b, str_eq_iff b a)

-- Deleting a user who is in the table keeps the cache in agreement with it.
pub delete-IsCoherent :
    (u : User) (st : UserStore) → IsCoherent st → get u.id st.db ≡ some u → IsCoherent (delete u st)
unfolding delete count_dec count
delete-IsCoherent u st c row = elim (Option-cases st.cache_count) [
  | inl unknown ↦ rw (unknown, count) left
  | inr (n, known) ↦ rw (known, count) left
]
  where
    left : Agrees (del u.id st.db) (del (users_idx u.email) (del (users_idx u.id) st.cache_users))
    left key v e =
        let (other, before) =
          get-del_cases (users_idx key) (users_idx u.email) v (del (users_idx u.id) st.cache_users)
            e in
        let (other_id, old) =
          get-del_cases (users_idx key) (users_idx u.id) v st.cache_users before in
        let (here, under) = c key v old in
        let l : IsLeft u none st.cache_users key v = record {
          was_cached = old;
          not_id = same_idx u.id key other_id;
          not_email = λ r t x. same_idx u.email key other (sym t ∙ x);
        } in
        let other_user =
          left_other u u none st.db st.cache_users key v c row
            (record { same_id = refl; same_created_at = refl }) refl l in
        (get-del v.id u.id st.db ∙ rw (swapped v.id u.id other_user) here, under)
