-- ===== src/Users/Store/Counts.antt =====
-- The cached number of users.
use rauthy.Base.{
  ◌≡◌, ◌+◌, inl, inr, refl, sym, ap, ◌∙◌, ◌||◌, Bool, none, some, [], ◌∷◌, length, arith, Str,
  Option-cases, is_some,
}
use rauthy.Base.Table.{Table, get, put, del}
use rauthy.ErrorResponse.{ok, bad_request, guard_passed}
use rauthy.Users.{User}
use rauthy.Users.Store.{
  UserStore, ℤ, pos, suc_of, find_where, clashes, count, count_inc, inserted, insert,
}

del_absent : (k : Str) (m : Table User) → get k m ≡ none → del k m ≡ m
unfolding get del
del_absent k [] h = refl
del_absent k ((j, v) ∷ m) h = ground (arith, del_absent k m)

length-put_absent :
    (k : Str) (v : User) (m : Table User) → get k m ≡ none → length (put k v m) ≡ length m + 1
unfolding put
length-put_absent k v m h = rw (del_absent k m h) (omega arith)

count_inc-known :
    (n : ℤ) (st : UserStore)
    → st.cache_count ≡ some n
    → (count_inc st).cache_count ≡ some (suc_of n)
unfolding count_inc count
count_inc-known n st known = rw (known) refl

count_inc-unknown :
    (st : UserStore)
    → st.cache_count ≡ none
    → (count_inc st).cache_count ≡ some (suc_of (pos (length st.db)))
unfolding count_inc count
count_inc-unknown st unknown = rw (unknown) refl

count_inc-db : (st : UserStore) → (count_inc st).db ≡ st.db
unfolding count_inc count
count_inc-db st = elim (Option-cases st.cache_count) [
  | inl unknown ↦ rw (unknown) refl
  | inr (n, known) ↦ rw (known) refl
]

insert-eq-ok :
    (u v : User) (st : UserStore)
    → (insert u st).0 ≡ ok v
    → (get u.id st.db ≡ none)
      × ((insert u st).1 ≡ count_inc (record st { db = put u.id (inserted u) st.db }))
unfolding insert
insert-eq-ok u v st done =
    let st' : UserStore = count_inc (record st { db = put u.id (inserted u) st.db }) in
    let clash : Bool = is_some (get u.id st.db) || is_some (find_where (clashes u) st.db) in
    let free = guard_passed clash bad_request st (ok u, st') done in
    (ground (arith, free), rw (free, insert) refl)

-- After a user was inserted, a number of users that was cached and right is right again, and one that
-- was not cached is now cached and one too high.
pub insert-count :
    (u v : User) (st : UserStore)
    → (insert u st).0 ≡ ok v
    → (st.cache_count ≡ some (pos (length st.db))
        → (insert u st).1.cache_count ≡ some (pos (length (insert u st).1.db)))
      × (st.cache_count ≡ none
          → (insert u st).1.cache_count ≡ some (pos (length (insert u st).1.db + 1)))
unfolding suc_of
insert-count u v st done =
    let (fresh, after) = insert-eq-ok u v st done in
    let st' : UserStore = record st { db = put u.id (inserted u) st.db } in
    rw (after, count_inc-db st')
      (
        λ known.
            count_inc-known (pos (length st.db)) st' known
            ∙ ap (λ n. some (pos n)) (sym (length-put_absent u.id (inserted u) st.db fresh)),
        λ unknown. count_inc-unknown st' unknown,
      )
