-- ===== src/Named/Listing.antt =====
-- The cached list of the groups or roles is the table.
use rauthy.Base.{
  ◌≡◌, ◌⊎◌, inl, inr, refl, ap, ℕ, Bool, none, some, List, [], ◌∷◌, ◌++◌, Str, str_eq, Bool-cases,
  Option-cases,
}
use rauthy.ErrorResponse.{ok, Result-cases}
use rauthy.Users.{User}
use rauthy.Named.{
  Named, NamedStore, State, find_all, without, rename, change_all, insert_named, save_all,
  changed_users, transact,
}

abbrev pub IsListed : NamedStore → Type 0
IsListed st = (st.cache ≡ none) ⊎ (st.cache ≡ some st.db)

-- The list of them all is the table, which stays as it is, and the list is cached.
pub find_all-listed :
    (st : NamedStore)
    → IsListed st
    → ((find_all st).0 ≡ st.db)
      × ((find_all st).1.db ≡ st.db)
      × ((find_all st).1.cache ≡ some st.db)
unfolding find_all
find_all-listed st (inl unknown) = rw (unknown, find_all) (refl, refl, refl)
find_all-listed st (inr known) = rw (known, find_all) (refl, refl, known)

pub find_all-IsListed : (st : NamedStore) → IsListed st → IsListed (find_all st).1
find_all-IsListed st h = let (_, same, known) = find_all-listed st h in inr (rw (same) known)

pub insert_named-IsListed :
    (g : Named) (listed : List Named) (st : NamedStore)
    → listed ≡ st.db
    → IsListed (insert_named g listed st)
unfolding insert_named
insert_named-IsListed g listed st same = inr (ap (λ l. some (l ++ g ∷ [])) same)

-- A change that does nothing the second time.
abbrev pub IsIdempotent : (List Named → List Named) → Type 0
IsIdempotent f = (l : List Named) → f (f l) ≡ f l

pub without-IsIdempotent : (id : Str) → IsIdempotent (without id)
unfolding without
without-IsIdempotent id [] = refl
without-IsIdempotent id (g ∷ gs) = elim (Bool-cases (str_eq g.id id)) [
  | inl same ↦ rw (same) (without-IsIdempotent id gs)
  | inr other ↦ rw (other) (rw (other) (ap (λ r. g ∷ r) (without-IsIdempotent id gs)))
]

pub rename-IsIdempotent : (id name : Str) → IsIdempotent (rename id name)
unfolding rename
rename-IsIdempotent id name [] = refl
rename-IsIdempotent id name (g ∷ gs) = elim (Bool-cases (str_eq g.id id)) [
  | inl same ↦
      rw (same)
        (rw (same) (ap (λ r. record g { name = name } ∷ r) (rename-IsIdempotent id name gs)))
  | inr other ↦ rw (other) (rw (other) (ap (λ r. g ∷ r) (rename-IsIdempotent id name gs)))
]

-- A list that was cached before the change is changed once, one read after it twice.
pub change_all-IsListed :
    (f : List Named → List Named) (st : NamedStore)
    → IsIdempotent f
    → IsListed st
    → IsListed (change_all f st)
unfolding change_all find_all
change_all-IsListed f st twice (inl unknown) = inr (rw (unknown) (ap some (twice st.db)))
change_all-IsListed f st twice (inr known) = inr (rw (known) refl)

pub transact-IsListed :
    (test : User → Bool) (f : User → User) (change : List Named → List Named) (now : ℕ) (st : State)
    → IsIdempotent change
    → IsListed st.named
    → IsListed (transact test f change now st).1.named
unfolding transact
transact-IsListed test f change now st twice h =
    elim (Result-cases (save_all (changed_users test f st.users.db) now st.users).0) [
      | inr (e, failed) ↦ rw (failed, transact) h
      | inl (_, done) ↦ rw (done, transact) (change_all-IsListed change st.named twice h)
    ]

change_all-db : (f : List Named → List Named) (st : NamedStore) → (change_all f st).db ≡ f st.db
unfolding change_all find_all
change_all-db f st = elim (Option-cases st.cache) [
  | inl unknown ↦ rw (unknown) refl
  | inr (l, known) ↦ rw (known) refl
]

-- A transaction that succeeds changes the table as it says.
pub transact-db :
    (test : User → Bool) (f : User → User) (change : List Named → List Named) (now : ℕ) (st : State)
    → (transact test f change now st).0 ≡ ok tt
    → (transact test f change now st).1.named.db ≡ change st.named.db
unfolding transact
transact-db test f change now st =
    elim (Result-cases (save_all (changed_users test f st.users.db) now st.users).0) [
      | inr (e, failed) ↦ rw (failed, transact) (λ h. absurd (cc (h)))
      | inl (_, done) ↦ rw (done, transact) (λ h. change_all-db change st.named)
    ]
