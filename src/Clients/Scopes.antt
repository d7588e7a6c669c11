-- ===== src/Clients/Scopes.antt =====
-- Which scopes a login gets.
use rauthy.Base.{
  ◌≡◌, refl, inl, inr, true, ◌&&◌, ◌||◌, not, some, List, [], ◌∷◌, ◌++◌, arith, Str, codes, split,
  vec_contains, contains, is_empty, if◌then◌else◌, str_eq_iff, Bool-cases, find, starts_with,
}
use rauthy.Clients.{
  Client, allowed_of, sanitize_login_scopes, sanitize_scopes, push_scopes, remove_last,
}

vec_contains-append :
    (s : Str) (xs ys : List Str)
    → vec_contains (xs ++ ys) s ≡ (vec_contains xs s || vec_contains ys s)
unfolding vec_contains
vec_contains-append s [] ys = refl
vec_contains-append s (x ∷ xs) ys = ground (arith, vec_contains-append s xs ys)

vec_contains-allowed_of :
    (c : Client) (s : Str) (asked : List Str)
    → vec_contains (allowed_of c asked) s
      ≡ (vec_contains asked s && not (contains c.default_scopes s) && contains c.scopes s)
unfolding vec_contains allowed_of
vec_contains-allowed_of c s [] = refl
vec_contains-allowed_of c s (x ∷ asked) =
    ground (arith, vec_contains-allowed_of c s asked, str_eq_iff x s)

-- The scopes of a login that asks for some are the default ones, and those that it asks for and that
-- are a part of the text of the client's scopes, but not of that of the default ones.
pub sanitize_login_scopes_lem :
    (c : Client) (asked : List Str) (s : Str)
    → vec_contains (sanitize_login_scopes c (some asked)) s ≡ (
        vec_contains (split b',' c.default_scopes) s
        || vec_contains asked s && not (contains c.default_scopes s) && contains c.scopes s)
unfolding sanitize_login_scopes
sanitize_login_scopes_lem c asked s = ground (
  arith,
  vec_contains-append s (split b',' c.default_scopes) (allowed_of c asked),
  vec_contains-allowed_of c s asked,
)

-- The text that `sanitize_scopes` gives contains `openid`, whatever was asked for and is stored.
pub sanitize_scopes-openid :
    (stored scps : List Str) → contains (sanitize_scopes stored scps) (codes "openid") ≡ true
unfolding sanitize_scopes contains find starts_with
sanitize_scopes-openid stored scps = with_openid (remove_last (push_scopes scps stored))
  where
    with_openid :
        (res : Str)
        → contains
            (if is_empty res
              then codes "openid"
              else if not (contains res (codes "openid"))
              then codes "openid," ++ res
              else res)
            (codes "openid")
          ≡ true
    with_openid [] = refl
    with_openid (c ∷ res) = elim (Bool-cases (contains (c ∷ res) (codes "openid"))) [
      | inl there ↦ rw there there
      | inr missing ↦ rw missing (ground arith)
    ]
