-- ===== src/Users/Roles.antt =====
-- The kind of account, and the roles of a user as a comma separated text.
use rauthy.Base.{
  ◌<◌, ◌≡◌, ◌≢◌, ◌↔◌, refl, true, false, none, some, [], ◌∷◌, ◌++◌, arith, length, Str,
  if◌then◌else◌, codes, find, contains, trim, csv, is_empty,
}
use rauthy.Base.Csv.{
  Free, csv-append, csv_of_Free, vec_contains-append, find_self, replace_of_not_contains,
}
use rauthy.Users.{new, passkey, User, account_type, get_roles, is_admin, push_role, delete_role}

-- An account is new exactly if it has no password, no passkey and no upstream provider.
pub account_type-eq-new_iff :
    (u : User)
    → (account_type u ≡ new)
      ↔ ((u.password ≡ none) × (u.webauthn_user_id ≡ none) × (u.federation_uid ≡ none))
unfolding account_type
account_type-eq-new_iff u = ground arith

-- It is a passkey account, which logs in without a password, exactly if a passkey is all it has.
pub account_type-eq-passkey_iff :
    (u : User)
    → (account_type u ≡ passkey)
      ↔ ((u.password ≡ none) × (u.webauthn_user_id ≢ none) × (u.federation_uid ≡ none))
unfolding account_type
account_type-eq-passkey_iff u = ground arith

-- A role with no comma and no white space round it, which is not empty, is one more entry at the end of
-- the user's roles after `push_role`.
pub get_roles-push_role :
    (u : User) (role : Str)
    → Free b',' role
    → trim role ≡ role
    → role ≢ []
    → get_roles (push_role u role) ≡ get_roles u ++ role ∷ []
unfolding get_roles push_role
get_roles-push_role u role h t n = pushed u.roles
  where
    pushed :
        (old : Str)
        → (if is_empty (if is_empty old then role else old ++ b',' ∷ role)
            then []
            else csv (if is_empty old then role else old ++ b',' ∷ role))
          ≡ (if is_empty old then [] else csv old) ++ role ∷ []
    pushed [] = ground (arith, csv_of_Free role h t)
    pushed (c ∷ old) = csv-append (c ∷ old) role h t

-- The role that `delete_role` takes away was the only one: no role is left.
pub delete_role_only : (u : User) → (delete_role u u.roles).roles ≡ []
unfolding delete_role
delete_role_only u = rw (find_self u.roles, delete_role) (ground arith)

-- Where the text of the roles begins with the role's name, is longer than it, and nowhere has the name
-- followed by a comma, `delete_role` changes nothing.
pub delete_role_kept :
    (u : User) (role : Str)
    → find u.roles role ≡ some 0
    → length role < length u.roles
    → contains u.roles (role ++ codes ",") ≡ false
    → delete_role u role ≡ u
unfolding delete_role
delete_role_kept u role first longer none_there =
    ground (arith, replace_of_not_contains u.roles (role ++ codes ",") [] none_there)

-- Once `rauthy_admin` is pushed, the user is an admin.
pub is_admin-push_role : (u : User) → is_admin (push_role u (codes "rauthy_admin")) ≡ true
unfolding is_admin trim
is_admin-push_role u =
    rw (get_roles-push_role u (codes "rauthy_admin") (omega arith) refl (cc))
      (vec_contains-append (get_roles u) (codes "rauthy_admin"))
