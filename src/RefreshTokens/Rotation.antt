-- ===== src/RefreshTokens/Rotation.antt =====
-- What the use of a refresh token leaves in the table.
use rauthy.Base.{
  ℕ, ◌+◌, ◌≤◌, ◌<◌, ◌≡◌, ◌≢◌, refl, inl, inr, true, Option, some, [], ◌∷◌, arith, ltb, Str,
  str_eq_iff, Option-cases, Bool-cases,
}
use rauthy.Base.Table.{Table, get, get-put}
use rauthy.ErrorResponse.{ok, err, bad_request, Result-cases}
use rauthy.Clients.{Client}
use rauthy.RefreshTokens.{
  RefreshToken, Config, World, save, find, invalidate_all_for_user, refreshing_user, shorten,
  use_token,
}

revoked :
    (uid id : Str) (rows : Table RefreshToken) (t : RefreshToken)
    → get id (invalidate_all_for_user uid rows) ≡ some t
    → t.user_id ≢ uid
unfolding invalidate_all_for_user get
revoked uid id [] t h = cc
revoked uid id ((k, rt) ∷ rows) t h =
    ground (arith, revoked uid id rows t, str_eq_iff rt.user_id uid)

-- The use of a refresh token that is in the table but has expired, as one that was used before, is
-- refused, and no refresh token of its user is left in the table.
pub use_token-revokes :
    (cfg : Config) (now : ℕ) (uid : Str) (client : Client) (fp : Option Str) (id : Str) (w : World)
    (rt : RefreshToken)
    → get id w.tokens ≡ some rt
    → rt.exp < now
    → ((use_token cfg now uid client fp id w).0 ≡ err bad_request)
      × ((other : Str) (t : RefreshToken)
          → get other (use_token cfg now uid client fp id w).1.tokens ≡ some t
          → t.user_id ≢ rt.user_id)
unfolding use_token find
use_token-revokes cfg now uid client fp id w rt here old =
    let dead : ltb rt.exp now ≡ true = ground arith in
    rw (here, use_token, dead) (refl, λ other t h. revoked rt.user_id other w.tokens t h)

get-shorten :
    (grace now : ℕ) (rt : RefreshToken) (id : Str) (tokens : Table RefreshToken)
    → get id tokens ≡ some rt
    → rt.id ≡ id
    → (t : RefreshToken) × (get id (shorten grace now rt tokens) ≡ some t)
      × (t.exp ≤ now + grace + 1)
unfolding shorten save
get-shorten grace now rt id tokens here own = elim (Bool-cases (ltb (now + grace + 1) rt.exp)) [
  | inl long ↦ (
    record rt { exp = now + grace },
    ground (arith, str_eq_iff rt.id id, get-put id rt.id (record rt { exp = now + grace }) tokens),
    omega arith,
  )
  | inr short ↦ (rt, ground arith, ground arith)
]

-- Where every row stands under its token's id: a refresh token that was exchanged for new tokens is
-- still in the table, and expires after the grace time and one second at the latest.
pub use_token-shortens :
    (cfg : Config) (now : ℕ) (uid : Str) (client : Client) (fp : Option Str) (id : Str) (w : World)
    (ts : Str)
    → ((i : Str) (t : RefreshToken) → get i w.tokens ≡ some t → t.id ≡ i)
    → (use_token cfg now uid client fp id w).0 ≡ ok ts
    → (t : RefreshToken) × (get id (use_token cfg now uid client fp id w).1.tokens ≡ some t)
      × (t.exp ≤ now + cfg.refresh_grace_time + 1)
unfolding use_token find
use_token-shortens cfg now uid client fp id w ts own h = elim (Option-cases (get id w.tokens)) [
  | inl missing ↦ absurd (ground arith)
  | inr (rt, here) ↦ elim (Bool-cases (ltb rt.exp now)) [
    | inl dead ↦ absurd (ground arith)
    | inr alive ↦ elim (Result-cases (refreshing_user uid now w.users)) [
      | inr (e, refused) ↦ absurd (ground arith)
      | inl (user, fine) ↦
          rw (here, use_token, alive, fine)
            (get-shorten cfg.refresh_grace_time now rt id w.tokens here (own id rt here))
    ]
  ]
]
