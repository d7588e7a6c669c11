-- ===== src/Clients/Store/Coherence.antt =====
-- The cache of clients agrees with the table.
use rauthy.Base.{
  ◌≡◌, ◌∙◌, refl, inl, inr, false, some, [], ◌∷◌, arith, Str, str_eq, str_eq_iff, if◌then◌else◌,
  Bool-cases, Option-cases,
}
use rauthy.Base.Table.{Table, get, get-put_cases, get-del, get-del_cases}
use rauthy.ErrorResponse.{ok, err, ok_or, not_found}
use rauthy.Clients.{Client}
use rauthy.Clients.Store.{ClientStore, get_cache_entry, find, save, delete, update_row}

-- An entry of the cache is the row of its id.
abbrev pub IsCoherent : ClientStore → Type 0
IsCoherent st =
    (id : Str) (c : Client) → get (get_cache_entry id) st.cache ≡ some c → get id st.db ≡ some c

str_eq-get_cache_entry : (a b : Str) → str_eq (get_cache_entry a) (get_cache_entry b) ≡ str_eq a b
unfolding get_cache_entry str_eq
str_eq-get_cache_entry a b = refl

get-update_row_other :
    (id : Str) (c : Client) (rows : Table Client)
    → str_eq c.id id ≡ false
    → get id (update_row c rows) ≡ get id rows
unfolding get update_row
get-update_row_other id c [] other = refl
get-update_row_other id c ((k, x) ∷ rows) other =
    ground (
      arith,
      get-update_row_other id c rows,
      str_eq_iff k c.id,
      str_eq_iff k id,
      str_eq_iff c.id id,
    )

get-update_row :
    (id : Str) (c r : Client) (rows : Table Client)
    → get c.id rows ≡ some r
    → get id (update_row c rows) ≡ (if str_eq c.id id then some c else get id rows)
unfolding get update_row
get-update_row id c r [] h = cc
get-update_row id c r ((k, x) ∷ rows) h = elim (Bool-cases (str_eq k c.id)) [
  | inl same ↦ ground (
    arith,
    get-update_row_other id c rows,
    str_eq_iff k c.id,
    str_eq_iff k id,
    str_eq_iff c.id id,
  )
  | inr other ↦
      ground
        (arith, get-update_row id c r rows, str_eq_iff k c.id, str_eq_iff k id, str_eq_iff c.id id)
]

save-IsCoherent :
    (c r : Client) (st : ClientStore)
    → get c.id st.db ≡ some r
    → IsCoherent st
    → IsCoherent (save c st)
unfolding save
save-IsCoherent c r st here coherent id d h =
    elim (get-put_cases (get_cache_entry id) (get_cache_entry c.id) c d st.cache h) [
      | inl (same, new) ↦ ground (
        arith,
        get-update_row id c r st.db,
        str_eq-get_cache_entry id c.id,
        str_eq_iff (get_cache_entry id) (get_cache_entry c.id),
        str_eq_iff id c.id,
        str_eq_iff c.id id,
      )
      | inr (other, old) ↦
          ground (arith, get-update_row id c r st.db, str_eq-get_cache_entry c.id id, coherent id d)
    ]

delete-IsCoherent : (c : Client) (st : ClientStore) → IsCoherent st → IsCoherent (delete c st)
unfolding delete
delete-IsCoherent c st coherent id d h =
    let (other, old) = get-del_cases (get_cache_entry id) (get_cache_entry c.id) d st.cache h in
    ground (arith, get-del id c.id st.db, str_eq-get_cache_entry c.id id, coherent id d)

pub find-eq_db :
    (id : Str) (st : ClientStore) → IsCoherent st → (find id st).0 ≡ ok_or (get id st.db) not_found
unfolding find
find-eq_db id st coherent = elim (Option-cases (get (get_cache_entry id) st.cache)) [
  | inr (c, cached) ↦ rw (cached, find, coherent id c cached) refl
  | inl missing ↦ elim (Option-cases (get id st.db)) [
    | inl gone ↦ rw (missing, find, gone) refl
    | inr (c, here) ↦ rw (missing, find, here) refl
  ]
]

-- Where the cache agrees with the table, and the client has a row: after it was saved, it is found as saved,
-- and every other as before.
pub find-save :
    (id : Str) (c r : Client) (st : ClientStore)
    → IsCoherent st
    → get c.id st.db ≡ some r
    → (find id (save c st)).0 ≡ (if str_eq c.id id then ok c else (find id st).0)
unfolding save
find-save id c r st coherent here =
    find-eq_db id (save c st) (save-IsCoherent c r st here coherent)
    ∙ rw (get-update_row id c r st.db here, find-eq_db id st coherent)
        (elim (Bool-cases (str_eq c.id id)) [
          | inl same ↦ rw (same) refl
          | inr other ↦ rw (other) refl
        ])

-- Where the cache agrees with the table, a client that was deleted is not found, and every other as before.
pub find-delete :
    (id : Str) (c : Client) (st : ClientStore)
    → IsCoherent st
    → (find id (delete c st)).0 ≡ (if str_eq c.id id then err not_found else (find id st).0)
unfolding delete
find-delete id c st coherent =
    find-eq_db id (delete c st) (delete-IsCoherent c st coherent)
    ∙ rw (get-del id c.id st.db, find-eq_db id st coherent)
        (elim (Bool-cases (str_eq c.id id)) [
          | inl same ↦ rw (same) refl
          | inr other ↦ rw (other) refl
        ])
