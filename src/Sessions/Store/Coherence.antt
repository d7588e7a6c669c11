-- ===== src/Sessions/Store/Coherence.antt =====
-- The cache of sessions agrees with the table.
use rauthy.Base.{
  ◌≡◌, refl, none, some, List, [], ◌∷◌, arith, Str, str_eq, str_eq_iff, Option-cases, inl, inr,
}
use rauthy.Base.Table.{Table, get, del, get-del, get-put, IsKeyed}
use rauthy.ErrorResponse.{ok, err, not_found}
use rauthy.Sessions.{Session}
use rauthy.Sessions.Store.{Store, cache_idx, save, delete, find, uncache}

-- The table's keys are the ids of its rows, and none stands twice.
abbrev pub HasIds : Table Session → Type 0
HasIds [] = Unit
HasIds ((k, s) ∷ rows) = (s.id ≡ k) × HasIds rows

abbrev pub IsTable : Table Session → Type 0
IsTable rows = IsKeyed rows × HasIds rows

-- What the cache holds of a session is its row.
pub record IsCoherent (st : Store) : Type 0 where
  pub agrees :
      (id : Str) (s : Session)
      → get (cache_idx id) st.cache_sessions ≡ some s
      → get id st.db ≡ some s

pub str_eq-cache_idx : (a b : Str) → str_eq (cache_idx a) (cache_idx b) ≡ str_eq a b
unfolding cache_idx str_eq
str_eq-cache_idx a b = refl

pub save-IsCoherent : (s : Session) (st : Store) → IsCoherent st → IsCoherent (save s st)
unfolding save
save-IsCoherent s st c = record {
  agrees = λ id t h. ground (
    arith,
    c.agrees id t,
    str_eq-cache_idx s.id id,
    get-put id s.id s st.db,
    get-put (cache_idx id) (cache_idx s.id) s st.cache_sessions,
  );
}

pub delete-IsCoherent : (s : Session) (st : Store) → IsCoherent st → IsCoherent (delete s st)
unfolding delete
delete-IsCoherent s st c = record {
  agrees = λ id t h. ground (
    arith,
    c.agrees id t,
    str_eq-cache_idx s.id id,
    get-del id s.id st.db,
    get-del (cache_idx id) (cache_idx s.id) st.cache_sessions,
  );
}

pub uncache-db : (ids : List Str) (st : Store) → (uncache ids st).db ≡ st.db
unfolding uncache
uncache-db [] st = refl
uncache-db (id ∷ ids) st = uncache-db ids _

pub uncache-IsCoherent : (ids : List Str) (st : Store) → IsCoherent st → IsCoherent (uncache ids st)
unfolding uncache
uncache-IsCoherent [] st c = c
uncache-IsCoherent (id ∷ ids) st c =
    uncache-IsCoherent ids (record st { cache_sessions = del (cache_idx id) st.cache_sessions })
      (record {
        agrees = λ j t h.
            ground (arith, c.agrees j t, get-del (cache_idx j) (cache_idx id) st.cache_sessions);
      })

-- Where the cache of sessions agrees with the table, a session is found, or not found, as the table has
-- it.
pub find-eq_db :
    (id : Str) (st : Store)
    → IsCoherent st
    → (find id st).0 ≡ elim (get id st.db) [ none ↦ err not_found | some s ↦ ok s ]
unfolding find
find-eq_db id st c = elim (Option-cases (get (cache_idx id) st.cache_sessions)) [
  | inl miss ↦ ground arith
  | inr (s, hit) ↦ ground (arith, c.agrees id s hit)
]

pub find-IsCoherent : (id : Str) (st : Store) → IsCoherent st → IsCoherent (find id st).1
unfolding find
find-IsCoherent id st c = elim (Option-cases (get (cache_idx id) st.cache_sessions)) [
  | inr (s, hit) ↦ rw (hit, find) c
  | inl miss ↦
      rw (miss, find)
        (elim (Option-cases (get id st.db)) [
          | inl gone ↦ rw (gone, find) c
          | inr (s, row) ↦
              rw (row, find)
                (record {
                  agrees = λ j t h. ground (
                    arith,
                    c.agrees j t,
                    str_eq-cache_idx id j,
                    str_eq_iff id j,
                    get-put (cache_idx j) (cache_idx id) s st.cache_sessions,
                  );
                })
        ])
]
