-- ===== src/Roles/Admins.antt =====
-- The text of a user's sanitized roles, and the role `rauthy_admin`.
use rauthy.Base.{
  ℕ, ◌≡◌, inl, inr, refl, sym, ap, ◌∙◌, true, false, List, [], ◌∷◌, arith, Str, codes, str_eq,
  str_eq_iff, Bool-cases, is_empty, if◌then◌else◌,
}
use rauthy.ErrorResponse.{ok, err, not_found, Result-cases}
use rauthy.Users.{User, get_roles, delete_role}
use rauthy.Clients.{remove_last}
use rauthy.Named.{
  Named, NamedStore, State, find_all, find_row, taken, without, transact, push_names,
}
use rauthy.Named.Listing.{IsListed, find_all-listed, transact-db}
use rauthy.Named.Holders.{transact_failed}
use rauthy.Named.Sanitized.{AreClean, kept_names, HoldsNames, push_names-HoldsNames}
use rauthy.Roles.{delete, holds, sanitize}

-- Where the cached list of roles is the table, and no role's name is empty, has a comma or white space
-- round it: a user with the sanitized roles has those of the roles asked for that exist.
pub get_roles-sanitize :
    (asked : List Str) (st : NamedStore) (u : User)
    → IsListed st
    → AreClean st.db
    → get_roles (record u { roles = (sanitize asked st).0 }) ≡ kept_names asked st.db
unfolding sanitize get_roles
get_roles-sanitize asked st u l h =
    let (same, _, _) = find_all-listed st l in
    rw (same, sanitize)
      (read (push_names asked st.db) (kept_names asked st.db) (push_names-HoldsNames asked st.db h))
  where
    read :
        (s : Str) (ns : List Str)
        → HoldsNames s ns
        → get_roles (record u {
          roles =
              (if◌then◌else◌ {A = Str × NamedStore}
                (is_empty s)
                (s, (find_all st).1)
                (remove_last s, (find_all st).1)).0;
        })
          ≡ ns
    read [] ns e = sym e
    read (c ∷ s) ns (e, full) = rw (full) e

abbrev admin : Str
admin = codes "rauthy_admin"

-- No id stands twice.
abbrev pub HasUniqueIds : List Named → Type 0
HasUniqueIds [] = Unit
HasUniqueIds (g ∷ gs) = (find_row g.id gs ≡ err not_found) × HasUniqueIds gs

without_absent : (id : Str) (gs : List Named) → find_row id gs ≡ err not_found → without id gs ≡ gs
unfolding find_row without
without_absent id [] h = refl
without_absent id (g ∷ gs) h = ground (arith, without_absent id gs)

find_row-id : (id : Str) (gs : List Named) (r : Named) → find_row id gs ≡ ok r → r.id ≡ id
unfolding find_row
find_row-id id [] r h = cc
find_row-id id (g ∷ gs) r h = ground (arith, find_row-id id gs r, str_eq_iff g.id id)

taken-without :
    (id name : Str) (gs : List Named) (r : Named)
    → HasUniqueIds gs
    → find_row id gs ≡ ok r
    → str_eq r.name name ≡ false
    → taken name gs ≡ true
    → taken name (without id gs) ≡ true
unfolding find_row without taken
taken-without id name [] r u found other h = cc
taken-without id name (g ∷ gs) r (fresh, u) found other h = elim (Bool-cases (str_eq g.id id)) [
  | inl same ↦ ground (arith, str_eq_iff g.id id, without_absent id gs)
  | inr apart ↦ ground (arith, taken-without id name gs r u)
]

-- Where no id stands twice in the table of roles: no deletion takes away the role `rauthy_admin`.
pub delete-keeps_admin :
    (id : Str) (now : ℕ) (st : State)
    → HasUniqueIds st.named.db
    → taken (codes "rauthy_admin") st.named.db ≡ true
    → taken (codes "rauthy_admin") (delete id now st).1.named.db ≡ true
unfolding delete
delete-keeps_admin id now st u h = elim (Result-cases (find_row id st.named.db)) [
  | inr (e, gone) ↦ rw (gone, delete) h
  | inl (r, found) ↦ elim (Bool-cases (str_eq r.name (codes "rauthy_admin"))) [
    | inl same ↦ rw (found, delete, same) h
    | inr other ↦ rw (found, delete, other) (kept r found other)
  ]
]
  where
    kept :
        (r : Named)
        → find_row id st.named.db ≡ ok r
        → str_eq r.name (codes "rauthy_admin") ≡ false
        → taken
            (codes "rauthy_admin")
            (transact (holds r.name) (λ u. delete_role u r.name) (without r.id) now st).1.named.db
          ≡ true
    kept r found other =
        let f : User → User = λ u. delete_role u r.name in
        elim (Result-cases (transact (holds r.name) f (without r.id) now st).0) [
          | inl (_, done) ↦
              ap (taken (codes "rauthy_admin")) (
                transact-db (holds r.name) f (without r.id) now st done
                ∙ ap (λ i. without i st.named.db) (find_row-id id st.named.db r found))
              ∙ taken-without id (codes "rauthy_admin") st.named.db r u found other h
          | inr (e, failed) ↦
              ap (λ (n : NamedStore). taken (codes "rauthy_admin") n.db)
                (transact_failed (holds r.name) f (without r.id) now st failed).1
              ∙ h
        ]
