-- ===== src/Users/Store/Coherence.antt =====
-- The cache of users agrees with the table: finding a user, and saving one.
use rauthy.Base.{
  ◌≡◌, ◌⊎◌, inl, inr, refl, ap, ◌∙◌, true, Bool, Option, none, some, [], ◌∷◌, arith, Str, str_eq,
  str_eq_iff, Option-cases, Bool-cases,
}
use rauthy.Base.Table.{Table, get, put, get-put_cases, IsKeyed}
use rauthy.Users.{User}
use rauthy.Users.Store.{UserStore, users_idx, find_where, has_email, cached, find, find_by_lower}

-- The rows stand under their ids.
abbrev pub HasIds : Table User → Type 0
HasIds [] = Unit
HasIds ((k, u) ∷ rows) = (u.id ≡ k) × HasIds rows

abbrev pub IsTable : Table User → Type 0
IsTable rows = IsKeyed rows × HasIds rows

-- An entry of the cache is a row of the table, under its id or its address.
abbrev pub Agrees : Table User → Table User → Type 0
Agrees db cache =
    (key : Str) (u : User)
    → get (users_idx key) cache ≡ some u
    → (get u.id db ≡ some u) × ((u.id ≡ key) ⊎ (u.email ≡ key))

abbrev pub IsCoherent : UserStore → Type 0
IsCoherent st = Agrees st.db st.cache_users

pub str_eq-users_idx : (a b : Str) → str_eq (users_idx a) (users_idx b) ≡ str_eq a b
unfolding users_idx str_eq
str_eq-users_idx a b = refl

pub users_idx-injective : (a b : Str) → users_idx a ≡ users_idx b → a ≡ b
users_idx-injective a b e =
    ground (arith, str_eq_iff a b, str_eq-users_idx a b, str_eq_iff (users_idx a) (users_idx b))

pub get-HasIds :
    (id : Str) (rows : Table User) (u : User) → HasIds rows → get id rows ≡ some u → u.id ≡ id
unfolding get
get-HasIds id [] u h e = cc
get-HasIds id ((k, r) ∷ rows) u (own, h) e = ground (arith, str_eq_iff k id, get-HasIds id rows u h)

-- A row that `find_where` gives is picked by the test, and is found under its id.
pub find_where_sound :
    (test : User → Bool) (rows : Table User) (u : User)
    → IsTable rows
    → find_where test rows ≡ some u
    → (test u ≡ true) × (get u.id rows ≡ some u)
unfolding find_where get
find_where_sound test [] u h e = cc
find_where_sound test ((k, r) ∷ rows) u ((fresh, keyed), (own, ids)) e =
    elim (Bool-cases (test r)) [
      | inl picked ↦ ground (arith, str_eq_iff k u.id)
      | inr other ↦
          let (t, g) = find_where_sound test rows u (keyed, ids) (ground arith) in
          (t, ground (arith, str_eq_iff k u.id))
    ]

own_row :
    (id : Str) (u : User) (db : Table User) → u.id ≡ id → get id db ≡ some u → get u.id db ≡ some u
own_row id u db own e = ap (λ i. get i db) own ∙ e

put-Agrees :
    (key : Str) (u : User) (db cache : Table User)
    → Agrees db cache
    → get u.id db ≡ some u
    → (u.id ≡ key) ⊎ (u.email ≡ key)
    → Agrees db (put (users_idx key) u cache)
put-Agrees key u db cache c row own k v h =
    elim (get-put_cases (users_idx k) (users_idx key) u v cache h) [
      | inl (same, new) ↦ rw (new, users_idx-injective k key same) (row, own)
      | inr (_, old) ↦ c k v old
    ]

cached-IsCoherent :
    (key : Str) (found : Option User) (st : UserStore)
    → IsCoherent st
    → ((u : User) → found ≡ some u → (get u.id st.db ≡ some u) × ((u.id ≡ key) ⊎ (u.email ≡ key)))
    → IsCoherent (cached key found st).1
cached-IsCoherent key none st c row = c
cached-IsCoherent key (some u) st c row =
    let (here, own) = row u refl in put-Agrees key u st.db st.cache_users c here own

pub find-IsCoherent :
    (id : Str) (st : UserStore) → IsTable st.db → IsCoherent st → IsCoherent (find id st).1
unfolding find
find-IsCoherent id st (_, ids) c = elim (Option-cases (get (users_idx id) st.cache_users)) [
  | inr (u, hit) ↦ rw (hit, find) c
  | inl miss ↦
      rw (miss, find)
        (cached-IsCoherent id (get id st.db) st c (λ u e.
          (own_row id u st.db (get-HasIds id st.db u ids e) e, inl (get-HasIds id st.db u ids e))))
]

pub find_by_lower-IsCoherent :
    (email : Str) (st : UserStore)
    → IsTable st.db
    → IsCoherent st
    → IsCoherent (find_by_lower email st).1
unfolding find_by_lower
find_by_lower-IsCoherent email st t c = elim (Option-cases (get (users_idx email) st.cache_users)) [
  | inr (u, hit) ↦ rw (hit, find_by_lower) c
  | inl miss ↦
      rw (miss, find_by_lower)
        (cached-IsCoherent email (find_where (has_email email) st.db) st c (λ u e.
          let (picked, row) = find_where_sound (has_email email) st.db u t e in
          (row, inr ((str_eq_iff u.email email).0 picked))))
]
