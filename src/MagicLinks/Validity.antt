-- ===== src/MagicLinks/Validity.antt =====
-- Which requests a link accepts, and that one that is invalidated accepts none.
use rauthy.Base.{
  ℕ, ◌-◌, ◌≤◌, ◌<◌, ◌≡◌, ◌≢◌, ◌↔◌, refl, inl, inr, Bool, true, false, Option, none, some, [], ◌∷◌,
  arith, Str, str_eq_iff, ends_with, Option-cases, Bool-cases,
}
use rauthy.Base.Table.{Table, get}
use rauthy.ErrorResponse.{ok, >>=-eq-ok, ok_or, not_found}
use rauthy.MagicLinks.{
  MagicLink, LinkRequest, validate, save, invalidate, find, check_cookie, check_csrf,
}

-- The conditions, without the order of the tests.
pub record IsAccepted (binding : Bool) (l : MagicLink) (user_id : Str) (req : LinkRequest)
    (with_csrf : Bool) (now : ℕ) : Type 0 where
  pub bound :
      binding ≡ true
      → (b : Str) → l.cookie ≡ some b
      → (cookie : Str) × (req.reset_cookie ≡ some cookie) × (ends_with cookie b ≡ true)
  pub csrf : with_csrf ≡ true → req.csrf_header ≡ some l.csrf_token
  pub owner : l.user_id ≡ user_id
  pub alive : now ≤ l.exp
  pub unused : l.used ≡ false

check_cookie_iff :
    (binding : Bool) (l : MagicLink) (req : LinkRequest)
    → (check_cookie binding l req ≡ ok tt) ↔ (
        binding ≡ true
        → (b : Str) → l.cookie ≡ some b
        → (cookie : Str) × (req.reset_cookie ≡ some cookie) × (ends_with cookie b ≡ true))
unfolding check_cookie
check_cookie_iff binding l req = elim (Option-cases l.cookie) [
  | inl unbound ↦ (λ h on b e. cc, λ f. ground arith)
  | inr (b, bound) ↦ elim (Option-cases req.reset_cookie) [
    | inl missing ↦ (
      λ h on b' e. absurd (ground arith),
      λ f. elim (Bool-cases binding) [
        | inl on ↦ let (c, g, e) = f on b bound in absurd (cc (missing, g))
        | inr off ↦ ground arith
      ],
    )
    | inr (cookie, given) ↦ (
      λ h on b' e. (cookie, given, ground arith),
      λ f. elim (Bool-cases binding) [
        | inl on ↦ let (c, g, e) = f on b bound in ground arith
        | inr off ↦ ground arith
      ],
    )
  ]
]

check_csrf_iff :
    (with_csrf : Bool) (l : MagicLink) (req : LinkRequest)
    → (check_csrf with_csrf l req ≡ ok tt)
      ↔ (with_csrf ≡ true → req.csrf_header ≡ some l.csrf_token)
unfolding check_csrf
check_csrf_iff false l req = (λ h e. cc, λ f. refl)
check_csrf_iff true l req = elim (Option-cases req.csrf_header) [
  | inl missing ↦ (λ h e. absurd (ground arith), λ f. cc (missing, f refl))
  | inr (token, given) ↦ (
    λ h e. ground (arith, str_eq_iff l.csrf_token token),
    λ f. ground (arith, f refl, str_eq_iff l.csrf_token token),
  )
]

-- A link is accepted exactly if it is the user's, has neither expired nor been used, comes with its
-- CSRF token where one is demanded, and, if it is bound to a browser and cookies are enforced, with a
-- cookie that ends with what it is bound to.
pub validate_iff :
    (binding : Bool) (l : MagicLink) (user_id : Str) (req : LinkRequest) (with_csrf : Bool)
    (now : ℕ)
    → (validate binding l user_id req with_csrf now ≡ ok tt)
      ↔ IsAccepted binding l user_id req with_csrf now
unfolding validate
validate_iff binding l user_id req with_csrf now = (
  λ h.
      let (t, cookie_ok, h') = >>=-eq-ok (check_cookie binding l req) _ h in
      let (u, csrf_ok, rest) = >>=-eq-ok (check_csrf with_csrf l req) _ h' in
      record {
        bound = (check_cookie_iff binding l req).0 cookie_ok;
        csrf = (check_csrf_iff with_csrf l req).0 csrf_ok;
        owner = ground (arith, str_eq_iff l.user_id user_id);
        alive = ground arith;
        unused = ground arith;
      },
  λ a.
      rw
        (
          (check_cookie_iff binding l req).1 a.bound,
          (check_csrf_iff with_csrf l req).1 a.csrf,
          validate,
        )
        (ground (arith, a.owner, a.alive, a.unused, str_eq_iff l.user_id user_id)),
)

get-save :
    (l row : MagicLink) (db : Table MagicLink) → get l.id (save l db) ≡ some row → row.exp ≡ l.exp
unfolding save get
get-save l row [] h = cc
get-save l row ((k, r) ∷ db) h = ground (arith, get-save l row db, str_eq_iff k l.id)

found_row : (o : Option MagicLink) (row : MagicLink) → ok_or o not_found ≡ ok row → o ≡ some row
found_row none row h = cc
found_row (some r) row h = cc

-- Once a link is invalidated, at a time past 0, its row is accepted for no user, by no request, at no
-- later time.
pub invalidate-validate :
    (binding : Bool) (l row : MagicLink) (user_id : Str) (req : LinkRequest) (with_csrf : Bool)
    (now later : ℕ) (db : Table MagicLink)
    → 0 < now
    → now ≤ later
    → find l.id (invalidate l now db).1 ≡ ok row
    → validate binding row user_id req with_csrf later ≢ ok tt
unfolding invalidate find
invalidate-validate binding l row user_id req with_csrf now later db old le found accepted =
    let l' : MagicLink = record l { exp = now - 10 } in
    let expires = get-save l' row db (found_row (get l.id (save l' db)) row found) in
    let alive = ((validate_iff binding row user_id req with_csrf later).0 accepted).alive in
    absurd (omega arith)
