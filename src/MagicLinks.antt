-- ===== src/MagicLinks.antt =====
-- rauthy-models/src/entity/magic_links.rs: the links that are sent to users, to set or reset a password
-- or to confirm a new address. `cookie_binding` is the setting `PASSWORD_RESET_COOKIE_BINDING`.
pub mod Usage
pub mod Validity
pub mod Tests
use rauthy.Base.{
  ℕ, ◌+◌, ◌-◌, ◌*◌, Bool, true, false, not, ◌&&◌, Option, none, some, List, [], ◌∷◌, ◌++◌, ltb,
  is_empty, unwrap_or, Str, codes, str_eq, split_once, starts_with, ends_with, if◌then◌else◌,
}
use rauthy.Base.Table.{Table, get, put}
use rauthy.ErrorResponse.{
  Result, ok, err, ◌>>=◌, ◌>>◌, ensure, ok_or, bad_request, forbidden, unauthorized, not_found,
}

pub data MagicLinkUsage : Type 0 where
  email_change : Str → MagicLinkUsage
  password_reset new_user : Option Str → MagicLinkUsage

-- An empty text is none.
abbrev non_empty : Str → Option Str
non_empty [] = none
non_empty (c ∷ s) = some (c ∷ s)

-- `TryFrom<&str> for MagicLinkUsage`
unfoldable pub try_from : Str → Result MagicLinkUsage
unfolding split_once str_eq
try_from value =
    let (ty, v) = unwrap_or (split_once b'$' value) (value, codes "") in
    if str_eq ty (codes "email_change")
    then ok (email_change v)
    else if str_eq ty (codes "new_user")
    then ok (new_user (non_empty v))
    else if str_eq ty (codes "password_reset")
    then ok (password_reset (non_empty v))
    else err bad_request

-- `Display for MagicLinkUsage`
unfoldable pub to_string : MagicLinkUsage → Str
to_string (email_change email) = codes "email_change" ++ b'$' ∷ email
to_string (new_user (some uri)) = codes "new_user" ++ b'$' ∷ uri
to_string (new_user none) = codes "new_user"
to_string (password_reset (some uri)) = codes "password_reset" ++ b'$' ∷ uri
to_string (password_reset none) = codes "password_reset"

pub record MagicLink : Type 0 where
  pub id : Str
  pub user_id : Str
  pub csrf_token : Str
  pub cookie : Option Str
  pub exp : ℕ
  pub used : Bool
  pub usage : Str

-- `MagicLink::create`: the link and the table; `id` and `csrf_token` are random.
unfoldable pub create :
    Str → Str → ℕ → Str → ℕ → MagicLinkUsage → Table MagicLink → MagicLink × Table MagicLink
unfolding to_string
create id csrf_token now user_id lifetime_minutes usage db =
    let link : MagicLink = record {
      id = id;
      user_id = user_id;
      csrf_token = csrf_token;
      cookie = none;
      exp = now + lifetime_minutes * 60;
      used = false;
      usage = to_string usage;
    } in
    (link, put id link db)

unfoldable pub find : Str → Table MagicLink → Result MagicLink
find id db = ok_or (get id db) not_found

-- `usage like 'email_change$%'`, of the rows of a user.
abbrev is_email_change_of : Str → MagicLink → Bool
is_email_change_of user_id l =
    str_eq l.user_id user_id && starts_with l.usage (codes "email_change$")

unfoldable pub invalidate_all_email_change : Str → Table MagicLink → Table MagicLink
unfolding starts_with
invalidate_all_email_change user_id [] = []
invalidate_all_email_change user_id ((k, l) ∷ db) =
    let rest = invalidate_all_email_change user_id db in
    if is_email_change_of user_id l then rest else (k, l) ∷ rest

-- `MagicLink::save`, an update of the row with the link's id.
unfoldable pub save : MagicLink → Table MagicLink → Table MagicLink
save l [] = []
save l ((k, r) ∷ db) =
    let rest = save l db in
    if str_eq k l.id
    then (k, record r { cookie = l.cookie; exp = l.exp; used = l.used }) ∷ rest
    else (k, r) ∷ rest

-- `MagicLink::invalidate`
unfoldable pub invalidate : MagicLink → ℕ → Table MagicLink → MagicLink × Table MagicLink
unfolding save
invalidate l now db = let l' = record l { exp = now - 10 } in (l', save l' db)

-- What the request has for the link: the cookie that binds it to a browser, and the CSRF header.
pub record LinkRequest : Type 0 where
  pub reset_cookie : Option Str
  pub csrf_header : Option Str

-- The test on the binding cookie.
check_cookie : Bool → MagicLink → LinkRequest → Result (Unit {0})
check_cookie cookie_binding l req = elim l.cookie [
  | none ↦ ok tt
  | some bound ↦ elim req.reset_cookie [
    | some cookie ↦ if not (ends_with cookie bound) && cookie_binding then err forbidden else ok tt
    | none ↦ if cookie_binding then err forbidden else ok tt
  ]
]

check_csrf : Bool → MagicLink → LinkRequest → Result (Unit {0})
check_csrf with_csrf l req =
    if with_csrf
    then elim req.csrf_header [
      | none ↦ err unauthorized
      | some token ↦ ensure (str_eq l.csrf_token token) unauthorized
    ]
    else ok tt

unfoldable pub validate : Bool → MagicLink → Str → LinkRequest → Bool → ℕ → Result (Unit {0})
unfolding check_cookie check_csrf
validate cookie_binding l user_id req with_csrf now = do
  check_cookie cookie_binding l req
  check_csrf with_csrf l req
  ensure (str_eq l.user_id user_id) bad_request
  ensure (not (ltb l.exp now)) bad_request
  ensure (not l.used) bad_request
