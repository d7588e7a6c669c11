-- ===== src/Accounts/Confirm.antt =====
-- The confirmation of a new address by a link: `confirm_email_address` of
-- rauthy-models/src/entity/users.rs.
use rauthy.Base.{ℕ, true, false, some, Str}
use rauthy.ErrorResponse.{Result, ok, err, ◌>>=◌, ◌>>◌, and_then, bad_request}
use rauthy.Users.{User}
use rauthy.Users.Store
use rauthy.Users.Store.{UserStore, insert, save}
use rauthy.MagicLinks
use rauthy.MagicLinks.{
  MagicLink, MagicLinkUsage, LinkRequest, new_user, password_reset, email_change, try_from,
  invalidate_all_email_change,
}
use rauthy.Accounts.{Config, World, keeping, email_changed}

-- The new address that a link confirms.
unfoldable pub confirmed_email :
    Config → LinkRequest → Str → Str → ℕ → World → Result (MagicLink × Str)
unfolding MagicLinks.find MagicLinks.validate try_from
confirmed_email cfg req user_id confirm_id now w = do
  ml ← MagicLinks.find confirm_id w.links
  MagicLinks.validate cfg.cookie_binding ml user_id req false now
  usage ← try_from ml.usage
  elim usage [
    | new_user _ ↦ err bad_request
    | password_reset _ ↦ err bad_request
    | email_change email ↦ ok (ml, email)
  ]

-- `User::confirm_email_address`
unfoldable pub confirm_email_address :
    Config → LinkRequest → Str → Str → ℕ → World → Result (Unit {0}) × World
unfolding confirmed_email Store.find save email_changed MagicLinks.invalidate
confirm_email_address cfg req user_id confirm_id now w =
    and_then (confirmed_email cfg req user_id confirm_id now w, w)
      (λ (ml, email) w0. and_then (keeping w0 (Store.find user_id w0.users)) (λ u w1.
        let u' : User = record u { email = email; email_verified = true } in
        and_then (keeping w1 (save u' (some u.email) now w1.users)) (λ _ w2.
          let (_, links) = MagicLinks.invalidate ml now w2.links in
          (ok tt, email_changed false now u.email u' (record w2 { links = links })))))
