-- ===== src/MagicLinks/Tests.antt =====
-- Runs of the checks of a magic link.
use rauthy.Base.{
  ℕ, ◌≤◌, ◌<◌, ◌≡◌, ◌≢◌, ◌↔◌, refl, arith, true, false, Option, none, some, [], ◌∷◌, Str, codes,
}
use rauthy.Base.Table.{Table}
use rauthy.ErrorResponse.{ok}
use rauthy.MagicLinks.{
  MagicLink, LinkRequest, email_change, try_from, to_string, find, invalidate, validate,
}
use rauthy.MagicLinks.Usage.{try_from-to_string}
use rauthy.MagicLinks.Validity.{IsAccepted, validate_iff, invalidate-validate}

abbrev link : MagicLink
link = record {
  id = codes "m";
  user_id = codes "u";
  csrf_token = codes "t";
  cookie = some (codes "b");
  exp = 500;
  used = false;
  usage = codes "new_user";
}

abbrev request : LinkRequest
request = record {
  reset_cookie = some (codes "rauthy-pwd-reset=b");
  csrf_header = some (codes "t");
}

accepted : validate true link (codes "u") request true 100 ≡ ok tt
unfolding validate rauthy.Base.ends_with rauthy.Base.str_eq
accepted = refl

validate_iff_example :
    (validate true link (codes "u") request true 100 ≡ ok tt)
    ↔ IsAccepted true link (codes "u") request true 100
validate_iff_example = validate_iff true link (codes "u") request true 100

abbrev stale : MagicLink
stale = record link { exp = 90 }

found : find (codes "m") (invalidate link 100 ((codes "m", link) ∷ [])).1 ≡ ok stale
unfolding find rauthy.Base.Table.get invalidate rauthy.Base.str_eq
found = refl

invalidate-validate_run : validate true stale (codes "u") request true 120 ≢ ok tt
invalidate-validate_run =
    invalidate-validate true link stale (codes "u") request true 100 120 ((codes "m", link) ∷ [])
      (omega arith) (omega arith) found

try_from-to_string_example :
    try_from (to_string (email_change (codes "a$b@c"))) ≡ ok (email_change (codes "a$b@c"))
try_from-to_string_example = try_from-to_string (email_change (codes "a$b@c")) tt
