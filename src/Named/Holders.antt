-- ===== src/Named/Holders.antt =====
-- The rows of the users after the transaction of `delete` and `update`.
use mathlib.Core.Option
use rauthy.Base.{
  ◌≡◌, inl, inr, refl, sym, ap, ◌∙◌, ℕ, true, false, Bool, Option, none, some, List, [], ◌∷◌, arith,
  Str, str_eq, str_eq_iff, str_eq_refl, Bool-cases, if◌then◌else◌,
}
use rauthy.Base.Table.{Table, get, IsKeyed}
use rauthy.ErrorResponse.{Result, ErrorResponseType, ok, err, and_then-eq-ok, Result-cases}
use rauthy.Users.{User}
use rauthy.Users.Store.{UserStore, update_row, write, store, save}
use rauthy.Users.Store.Coherence.{IsTable}
use rauthy.Users.Store.Saving.{
  Replaces, get-update_row_self, get-update_row_other, lock_out-db, store-eq-ok,
}
use rauthy.Named.{Named, State, changed_users, save_all, transact}

get-write :
    (u r : User) (now : ℕ) (id : Str) (st : UserStore)
    → get u.id st.db ≡ some r
    → Replaces u r
    → get id (write u none now st).db ≡ (if str_eq id u.id then some u else get id st.db)
unfolding write
get-write u r now id st row h = elim (Bool-cases (str_eq id u.id)) [
  | inl same ↦
      ap (get id) (lock_out-db u now (record st { db = update_row u st.db }))
      ∙ ap (λ i. get i (update_row u st.db)) ((str_eq_iff id u.id).0 same)
      ∙ get-update_row_self u r st.db row h
      ∙ rw (same) refl
  | inr other ↦
      ap (get id) (lock_out-db u now (record st { db = update_row u st.db }))
      ∙ get-update_row_other u id st.db other
      ∙ rw (other) refl
]

unequal : (a b : Str) → str_eq a b ≡ false → str_eq b a ≡ false
unequal a b e = ground (arith, str_eq_iff a b, str_eq_iff b a)

-- The rows are rows of the table.
abbrev Present : Table User → Table User → Type 0
Present [] db = Unit
Present ((k, u) ∷ rows) db = (get k db ≡ some u) × Present rows db

Present-kept :
    (k : Str) (rows db db' : Table User)
    → get k rows ≡ none
    → ((j : Str) → str_eq j k ≡ false → get j db' ≡ get j db)
    → Present rows db
    → Present rows db'
unfolding get
Present-kept k [] db db' h same p = tt
Present-kept k ((j, u) ∷ rows) db db' h same (p, ps) = elim (Bool-cases (str_eq j k)) [
  | inl here ↦ absurd (ground arith)
  | inr other ↦ (same j other ∙ p, Present-kept k rows db db' (ground arith) same ps)
]

table-Present : (rows : Table User) → IsKeyed rows → Present rows rows
unfolding get
table-Present [] h = tt
table-Present ((k, u) ∷ rows) (fresh, h) = (
  ground (arith, str_eq_refl k),
  Present-kept k rows rows ((k, u) ∷ rows) fresh
      (λ j other. ground (arith, str_eq_iff j k, str_eq_iff k j)) (table-Present rows h),
)

-- One row after the transaction.
abbrev pub touch : (User → Bool) → (User → User) → User → User
touch test f u = if test u then f u else u

abbrev overlay : (User → Bool) → (User → User) → Option User → Option User → Option User
overlay test f none old = old
overlay test f (some u) old = if test u then some (f u) else old

-- The first save of a successful run, and the run that is left.
record Saved (v : User) (us : List User) (now : ℕ) (st : UserStore) : Type 0 where
  next : UserStore
  left_done : (save_all us now next).0 ≡ ok tt
  opened : save_all (v ∷ us) now st ≡ save_all us now next
  get-next : (j : Str) → get j next.db ≡ (if str_eq j v.id then some v else get j st.db)

save_all-Saved :
    (v r : User) (us : List User) (now : ℕ) (st : UserStore)
    → get v.id st.db ≡ some r
    → Replaces v r
    → (save_all (v ∷ us) now st).0 ≡ ok tt
    → Saved v us now st
unfolding save_all save
save_all-Saved v r us now st row h done =
    let (_, first, opened) =
      and_then-eq-ok (store v none now st) (λ _ st'. save_all us now st') done in
    let there = opened ∙ ap (save_all us now) (store-eq-ok v none now st first) in
    record {
      next = write v none now st;
      left_done = sym (ap (λ (x : Result (Unit {0}) × UserStore). x.0) there) ∙ done;
      opened = there;
      get-next = λ j. get-write v r now j st row h;
    }

module _ (test : User → Bool) (f : User → User) (kept : (u : User) → Replaces (f u) u) where
  overlay_skipped :
      (k id : Str) (u : User) (rows : Table User) (old : Option User)
      → get k rows ≡ none
      → test u ≡ false
      → overlay test f (get id rows) old
        ≡ overlay test f (if str_eq k id then some u else get id rows) old
  overlay_skipped k id u rows old fresh other = elim (Bool-cases (str_eq k id)) [
    | inr apart ↦ rw (apart) refl
    | inl same ↦ rw (same, sym ((str_eq_iff k id).0 same), fresh, other) refl
  ]

  overlay_picked :
      (k id : Str) (u : User) (rows : Table User) (old : Option User)
      → get k rows ≡ none
      → test u ≡ true
      → overlay test f (get id rows) (if str_eq id k then some (f u) else old)
        ≡ overlay test f (if str_eq k id then some u else get id rows) old
  overlay_picked k id u rows old fresh picked = elim (Bool-cases (str_eq k id)) [
    | inr apart ↦ rw (apart, unequal k id apart) refl
    | inl same ↦ rw (same, sym ((str_eq_iff k id).0 same), fresh, picked, str_eq_refl k) refl
  ]

  get-save_all :
      (now : ℕ) (id : Str) (rows : Table User) (st : UserStore)
      → IsTable rows
      → Present rows st.db
      → (save_all (changed_users test f rows) now st).0 ≡ ok tt
      → get id (save_all (changed_users test f rows) now st).1.db
        ≡ overlay test f (get id rows) (get id st.db)
  unfolding changed_users get save_all
  get-save_all now id [] st t p done = refl
  get-save_all now id ((k, u) ∷ rows) st ((fresh, keyed), (own, ids)) (here, present) done =
      elim (Bool-cases (test u)) [
        | inr other ↦
            let skip =
              ap
                (λ (b : Bool).
                  if b then f u ∷ changed_users test f rows else changed_users test f rows)
                other in
            ap (λ us. get id (save_all us now st).1.db) skip
            ∙ get-save_all now id rows st (keyed, ids) present
                (sym (ap (λ us. (save_all us now st).0) skip) ∙ done)
            ∙ overlay_skipped k id u rows (get id st.db) fresh other
        | inl picked ↦
            let take_it =
              ap
                (λ (b : Bool).
                  if b then f u ∷ changed_users test f rows else changed_users test f rows)
                picked in
            let at_k : (f u).id ≡ k = sym ((kept u).same_id) ∙ own in
            let s =
              save_all-Saved (f u) u (changed_users test f rows) now st
                (ap (λ i. get i st.db) at_k ∙ here) (kept u)
                (sym (ap (λ us. (save_all us now st).0) take_it) ∙ done) in
            ap (λ us. get id (save_all us now st).1.db) take_it
            ∙ ap (λ (x : Result (Unit {0}) × UserStore). get id x.1.db) s.opened
            ∙ get-save_all now id rows s.next (keyed, ids)
                (Present-kept k rows st.db s.next.db fresh
                  (λ j apart. s.get-next j ∙ rw (at_k, apart) refl) present)
                s.left_done
            ∙ ap (overlay test f (get id rows)) (s.get-next id ∙ rw (at_k) refl)
            ∙ overlay_picked k id u rows (get id st.db) fresh picked
      ]

overlay_self :
    (test : User → Bool) (f : User → User) (o : Option User)
    → overlay test f o o ≡ Option.map (touch test f) o
overlay_self test f none = refl
overlay_self test f (some u) = elim (Bool-cases (test u)) [
  | inl picked ↦ rw (picked) refl
  | inr other ↦ rw (other) refl
]

-- A transaction that succeeds changes the rows of the users whom the test picks, and no other row.
pub transact-holders :
    (test : User → Bool) (f : User → User) (change : List Named → List Named) (now : ℕ) (st : State)
    → ((u : User) → Replaces (f u) u)
    → IsTable st.users.db
    → (transact test f change now st).0 ≡ ok tt
    → (key : Str)
    → get key (transact test f change now st).1.users.db
      ≡ Option.map (touch test f) (get key st.users.db)
unfolding transact
transact-holders test f change now st kept t done key =
    elim (Result-cases (save_all (changed_users test f st.users.db) now st.users).0) [
      | inr (e, failed) ↦ absurd (failed_transact e failed done)
      | inl (_, saved) ↦
          rw (saved, transact)
            (get-save_all test f kept now key st.users.db st.users t (table-Present st.users.db t.0)
                saved
              ∙ overlay_self test f (get key st.users.db))
    ]
  where
    failed_transact :
        (e : ErrorResponseType)
        → (save_all (changed_users test f st.users.db) now st.users).0 ≡ err e
        → (transact test f change now st).0 ≡ ok tt
        → ⊥
    failed_transact e failed = rw (failed, transact) (λ h. cc (h))

-- A transaction that fails leaves the table of the users and the groups or roles as they were.
pub transact_failed :
    (test : User → Bool) (f : User → User) (change : List Named → List Named) (now : ℕ) (st : State)
    {e : ErrorResponseType}
    → (transact test f change now st).0 ≡ err e
    → ((transact test f change now st).1.users.db ≡ st.users.db)
      × ((transact test f change now st).1.named ≡ st.named)
unfolding transact
transact_failed test f change now st {e} failed =
    elim (Result-cases (save_all (changed_users test f st.users.db) now st.users).0) [
      | inr (x, why) ↦ rw (why, transact) (refl, refl)
      | inl (_, saved) ↦ absurd (done_transact saved failed)
    ]
  where
    done_transact :
        (save_all (changed_users test f st.users.db) now st.users).0 ≡ ok tt
        → (transact test f change now st).0 ≡ err e
        → ⊥
    done_transact saved = rw (saved, transact) (λ h. cc (h))
