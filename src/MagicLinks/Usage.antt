-- ===== src/MagicLinks/Usage.antt =====
-- What a link is for, as the text in its row.
use rauthy.Base.{◌≡◌, ◌≢◌, refl, none, some, [], ◌∷◌, arith}
use rauthy.ErrorResponse.{ok}
use rauthy.MagicLinks.{MagicLinkUsage, email_change, password_reset, new_user, try_from, to_string}

-- No redirect URI is the empty text.
abbrev pub HasUri : MagicLinkUsage → Type 0
HasUri (email_change email) = Unit
HasUri (password_reset uri) = uri ≢ some []
HasUri (new_user uri) = uri ≢ some []

-- The text of a link's usage is read back as that usage, unless it has an empty redirect URI, whatever
-- characters its address or redirect URI has.
pub try_from-to_string : (u : MagicLinkUsage) → HasUri u → try_from (to_string u) ≡ ok u
unfolding try_from to_string
try_from-to_string (email_change email) h = ground arith
try_from-to_string (password_reset none) h = refl
try_from-to_string (password_reset (some [])) h = absurd (h refl)
try_from-to_string (password_reset (some (c ∷ uri))) h = ground arith
try_from-to_string (new_user none) h = refl
try_from-to_string (new_user (some [])) h = absurd (h refl)
try_from-to_string (new_user (some (c ∷ uri))) h = ground arith
