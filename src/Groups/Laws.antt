-- ===== src/Groups/Laws.antt =====
-- What the operations on groups leave in the table of groups, in its cached list and with the users.
use mathlib.Core.Option
use rauthy.Base.{
  ◌≡◌, inl, inr, refl, sym, ap, ◌∙◌, ℕ, Option, none, some, List, [], ◌∷◌, Str, Bool-cases,
  Option-cases, is_empty, find, if◌then◌else◌,
}
use rauthy.Base.Table.{get}
use rauthy.ErrorResponse.{Result, ok, err, and_then, and_then-eq-ok, Result-cases}
use rauthy.Users.{User, get_groups, delete_group}
use rauthy.Users.Store.Coherence.{IsTable}
use rauthy.Users.Store.Saving.{Replaces}
use rauthy.Clients.{remove_last}
use rauthy.Named.{
  Named, NamedStore, State, find_all, find_row, taken, without, rename, transact, push_names,
}
use rauthy.Named.Listing.{
  IsListed, find_all-listed, find_all-IsListed, insert_named-IsListed, without-IsIdempotent,
  rename-IsIdempotent, transact-IsListed, transact-db,
}
use rauthy.Named.Holders.{touch, transact-holders}
use rauthy.Named.Sanitized.{AreClean, kept_names, HoldsNames, push_names-HoldsNames}
use rauthy.Groups.{create, holds, replace_group, delete, update, sanitize}

-- Where the cached list of groups is the table, and no group's name is empty, has a comma or white space
-- round it: a user with the sanitized groups has those of the groups asked for that exist.
pub get_groups-sanitize :
    (asked : List Str) (st : NamedStore) (u : User)
    → IsListed st
    → AreClean st.db
    → get_groups (record u { groups = (sanitize (some asked) st).0 }) ≡ kept_names asked st.db
unfolding sanitize get_groups
get_groups-sanitize asked st u l h =
    let (same, _, _) = find_all-listed st l in
    rw (same, sanitize)
      (read (push_names asked st.db) (kept_names asked st.db) (push_names-HoldsNames asked st.db h))
  where
    read :
        (s : Str) (ns : List Str)
        → HoldsNames s ns
        → get_groups (record u {
          groups =
              (if◌then◌else◌ {A = Option Str × NamedStore}
                (is_empty s)
                (none, (find_all st).1)
                (some (remove_last s), (find_all st).1)).0;
        })
          ≡ ns
    read [] ns e = sym e
    read (c ∷ s) ns (e, _) = e

pub create-IsListed :
    (id name : Str) (st : NamedStore) → IsListed st → IsListed (create id name st).1
unfolding create
create-IsListed id name st l =
    let (same, kept, _) = find_all-listed st l in
    elim (Bool-cases (taken name st.db)) [
      | inl known ↦ rw (same, known, create) (find_all-IsListed st l)
      | inr free ↦
          rw (same, free, create)
            (insert_named-IsListed (record { id = id; name = name }) st.db (find_all st).1
              (sym kept))
    ]

pub delete-IsListed :
    (id : Str) (now : ℕ) (st : State) → IsListed st.named → IsListed (delete id now st).1.named
unfolding delete
delete-IsListed id now st l = elim (Result-cases (find_row id st.named.db)) [
  | inr (e, gone) ↦ rw (gone, delete) l
  | inl (g, found) ↦
      rw (found, delete)
        (transact-IsListed (holds g.name) (λ u. delete_group u g.name) (without g.id) now st
          (without-IsIdempotent g.id) l)
]

-- Neither the id nor the time of creation.
delete_group-Replaces : (group : Str) (u : User) → Replaces (delete_group u group) u
unfolding delete_group
delete_group-Replaces group u = elim (Option-cases u.groups) [
  | inl bare ↦ rw (bare, delete_group) (record { same_id = refl; same_created_at = refl })
  | inr (g, held) ↦ elim (Option-cases (find g group)) [
    | inl gone ↦ rw (held, gone, delete_group) (record { same_id = refl; same_created_at = refl })
    | inr (i, here) ↦
        rw (held, here, delete_group) (record { same_id = refl; same_created_at = refl })
  ]
]

-- A deletion that succeeds takes the group's row out of the table, has `delete_group` applied to each
-- user whose text of groups contains the name, and leaves every other user's row as it was.
pub delete-holders :
    (id : Str) (now : ℕ) (st : State) (g : Named)
    → IsTable st.users.db
    → find_row id st.named.db ≡ ok g
    → (delete id now st).0 ≡ ok tt
    → ((delete id now st).1.named.db ≡ without g.id st.named.db)
      × ((key : Str)
          → get key (delete id now st).1.users.db
            ≡ Option.map (touch (holds g.name) (λ u. delete_group u g.name)) (get key st.users.db))
unfolding delete
delete-holders id now st g t found =
    rw (found, delete)
      (λ done. (
        transact-db (holds g.name) (λ u. delete_group u g.name) (without g.id) now st done,
        transact-holders (holds g.name) (λ u. delete_group u g.name) (without g.id) now st
            (delete_group-Replaces g.name) t done,
      ))

replace_group-Replaces : (old new : Str) (u : User) → Replaces (replace_group old new u) u
unfolding replace_group
replace_group-Replaces old new u = record { same_id = refl; same_created_at = refl }

-- A renaming that succeeds gives the row the new name, replaces the old name in the text of each user
-- whose groups contain it, and leaves every other user's row as it was.
pub update-holders :
    (id name : Str) (now : ℕ) (st : State) (g h : Named)
    → IsTable st.users.db
    → find_row id st.named.db ≡ ok g
    → (update id name now st).0 ≡ ok h
    → ((update id name now st).1.named.db ≡ rename g.id name st.named.db)
      × ((key : Str)
          → get key (update id name now st).1.users.db
            ≡ Option.map (touch (holds g.name) (replace_group g.name name)) (get key st.users.db))
unfolding update
update-holders id name now st g h t found =
    rw (found, update)
      (λ done.
        let (_, first, opened) =
          and_then-eq-ok
            (transact (holds g.name) (replace_group g.name name) (rename g.id name) now st)
            (λ _ st'. (ok (record { id = g.id; name = name }), st')) done in
        let state = ap (λ (x : Result Named × State). x.1) opened in
        (
          ap (λ (x : State). x.named.db) state
              ∙ transact-db (holds g.name) (replace_group g.name name) (rename g.id name) now st
                  first,
          λ key.
              ap (λ (x : State). get key x.users.db) state
              ∙ transact-holders (holds g.name) (replace_group g.name name) (rename g.id name) now
                  st (replace_group-Replaces g.name name) t first key,
        ))

and_then-state :
    (r : Result (Unit {0}) × State) (g : Named) → (and_then r (λ _ st'. (ok g, st'))).1 ≡ r.1
and_then-state (ok _, st) g = refl
and_then-state (err e, st) g = refl

pub update-IsListed :
    (id name : Str) (now : ℕ) (st : State)
    → IsListed st.named
    → IsListed (update id name now st).1.named
unfolding update
update-IsListed id name now st l = elim (Result-cases (find_row id st.named.db)) [
  | inr (e, gone) ↦ rw (gone, update) l
  | inl (g, found) ↦
      let r = transact (holds g.name) (replace_group g.name name) (rename g.id name) now st in
      rw (found, update, and_then-state r (record { id = g.id; name = name }))
        (transact-IsListed (holds g.name) (replace_group g.name name) (rename g.id name) now st
          (rename-IsIdempotent g.id name) l)
]
