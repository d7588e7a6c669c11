-- ===== src/Scopes/Openid.antt =====
-- The scope `openid` cannot be taken away.
use rauthy.Base.{
  ◌≡◌, inl, inr, refl, ap, ◌∙◌, true, false, List, [], ◌∷◌, arith, Str, codes, str_eq, str_eq_iff,
  Bool-cases, Option-cases,
}
use rauthy.ErrorResponse.{ok, err, not_found, Result-cases}
use rauthy.Scopes.{
  Scope, ScopeRequest, State, find_all, find_row, taken, without, replaced, change_all,
  has_wrong_mapping, from_request, delete, update,
}

-- No id stands twice.
abbrev pub HasUniqueIds : List Scope → Type 0
HasUniqueIds [] = Unit
HasUniqueIds (s ∷ ss) = (find_row s.id ss ≡ err not_found) × HasUniqueIds ss

without_absent : (id : Str) (ss : List Scope) → find_row id ss ≡ err not_found → without id ss ≡ ss
unfolding find_row without
without_absent id [] h = refl
without_absent id (s ∷ ss) h = ground (arith, without_absent id ss)

replaced_absent :
    (new : Scope) (ss : List Scope) → find_row new.id ss ≡ err not_found → replaced new ss ≡ ss
unfolding find_row replaced
replaced_absent new [] h = refl
replaced_absent new (s ∷ ss) h = ground (arith, replaced_absent new ss)

taken-without :
    (id name : Str) (ss : List Scope) (r : Scope)
    → HasUniqueIds ss
    → find_row id ss ≡ ok r
    → str_eq r.name name ≡ false
    → taken name ss ≡ true
    → taken name (without id ss) ≡ true
unfolding find_row without taken
taken-without id name [] r u found other h = cc
taken-without id name (s ∷ ss) r (fresh, u) found other h = elim (Bool-cases (str_eq s.id id)) [
  | inl same ↦ ground (arith, str_eq_iff s.id id, without_absent id ss)
  | inr apart ↦ ground (arith, taken-without id name ss r u)
]

taken-replaced :
    (new : Scope) (name : Str) (ss : List Scope) (r : Scope)
    → HasUniqueIds ss
    → find_row new.id ss ≡ ok r
    → str_eq r.name name ≡ false
    → taken name ss ≡ true
    → taken name (replaced new ss) ≡ true
unfolding find_row replaced taken
taken-replaced new name [] r u found other h = cc
taken-replaced new name (s ∷ ss) r (fresh, u) found other h =
    elim (Bool-cases (str_eq s.id new.id)) [
      | inl same ↦ ground (arith, str_eq_iff s.id new.id, replaced_absent new ss)
      | inr apart ↦ ground (arith, taken-replaced new name ss r u)
    ]

find_row-id : (id : Str) (ss : List Scope) (r : Scope) → find_row id ss ≡ ok r → r.id ≡ id
unfolding find_row
find_row-id id [] r h = cc
find_row-id id (s ∷ ss) r h = ground (arith, find_row-id id ss r, str_eq_iff s.id id)

change_all-db : (f : List Scope → List Scope) (st : State) → (change_all f st).db ≡ f st.db
unfolding change_all find_all
change_all-db f st = elim (Option-cases st.listed) [
  | inl none_listed ↦ rw (none_listed, change_all) refl
  | inr (l, listed) ↦ rw (listed, change_all) refl
]

delete-keeps_openid :
    (id : Str) (st : State)
    → HasUniqueIds st.db
    → taken (codes "openid") st.db ≡ true
    → taken (codes "openid") (delete id st).1.db ≡ true
unfolding delete
delete-keeps_openid id st u h = elim (Result-cases (find_row id st.db)) [
  | inr (e, gone) ↦ rw (gone, delete) h
  | inl (r, found) ↦ elim (Bool-cases (str_eq r.name (codes "openid"))) [
    | inl same ↦ rw (found, delete, same) h
    | inr other ↦
        rw (found, delete, other)
          (ap (taken (codes "openid")) (change_all-db (without id) _)
            ∙ taken-without id (codes "openid") st.db r u found other h)
  ]
]

update-keeps_openid :
    (id : Str) (attrs : List Str) (req : ScopeRequest) (st : State)
    → HasUniqueIds st.db
    → taken (codes "openid") st.db ≡ true
    → taken (codes "openid") (update id attrs req st).1.db ≡ true
unfolding update
update-keeps_openid id attrs req st u h = elim (Result-cases (find_row id st.db)) [
  | inr (e, gone) ↦ rw (gone, update) h
  | inl (r, found) ↦ elim (Bool-cases (str_eq r.name (codes "openid"))) [
    | inl same ↦ rw (found, update, same) h
    | inr other ↦ elim (Bool-cases (has_wrong_mapping req)) [
      | inl wrong ↦ rw (found, update, other, wrong) h
      | inr right ↦
          rw (found, update, other, right)
            (ap (taken (codes "openid")) (change_all-db (replaced (from_request r.id req attrs)) _)
              ∙ taken-replaced (from_request r.id req attrs) (codes "openid") st.db r u
                  (ap (λ i. find_row i st.db) (find_row-id id st.db r found) ∙ found) other h)
    ]
  ]
]

-- Where no id stands twice in the table of scopes: neither a deletion nor an update of any scope takes
-- away the scope `openid`.
pub openid_kept :
    (id : Str) (attrs : List Str) (req : ScopeRequest) (st : State)
    → HasUniqueIds st.db
    → taken (codes "openid") st.db ≡ true
    → (taken (codes "openid") (delete id st).1.db ≡ true)
      × (taken (codes "openid") (update id attrs req st).1.db ≡ true)
openid_kept id attrs req st u h =
    (delete-keeps_openid id st u h, update-keeps_openid id attrs req st u h)
