-- ===== src/Authorize/Factors.antt =====
-- The second factor at a login.
use rauthy.Base.{
  ℕ, ◌≡◌, refl, sym, ap, ◌∙◌, inl, inr, Bool, true, false, Option, some, Str, str_eq_refl,
  Bool-cases,
}
use rauthy.Base.Table.{get, put, get-put}
use rauthy.ErrorResponse.{ok}
use rauthy.Users.{User, has_webauthn_enabled}
use rauthy.Users.Store.{find_by_email}
use rauthy.Sessions.{Session}
use rauthy.Sessions.Store
use rauthy.Sessions.Store.{set_mfa}
use rauthy.Clients.{Client}
use rauthy.Authorize.{
  Attempt, granted, Config, LoginRequest, World, Fresh, AuthStep, logged_in, await_webauthn,
  wait_for_factor, issue, authorize, AuthStepAwaitWebauthn,
}
use rauthy.Authorize.Sound.{authorize_sound, IsSame}

abbrev pub waits : AuthStep → Bool
waits (logged_in l) = false
waits (await_webauthn s) = true

issue-waits :
    (cfg : Config) (req : LoginRequest) (session : Session) (fresh : Fresh) (now : ℕ) (u : User)
    (hashed : Bool) (c : Client) (origin : Option Str) (w : World)
    → waits (issue cfg req session fresh now u hashed c origin w).0 ≡ has_webauthn_enabled u
unfolding issue wait_for_factor
issue-waits cfg req session fresh now u hashed c origin w =
    elim (Bool-cases (has_webauthn_enabled u)) [
      | inl factor ↦ rw (factor, issue) refl
      | inr bare ↦ rw (bare, issue) refl
    ]

same_factor :
    (u u' : User) (now : ℕ) → IsSame u u' now → has_webauthn_enabled u' ≡ has_webauthn_enabled u
unfolding has_webauthn_enabled
same_factor u u' now (inl e) = ap has_webauthn_enabled e
same_factor u u' now (inr e) = ap has_webauthn_enabled e

granted-injective {ℓ} : {A : Type ℓ} {a b : A} → Attempt.granted a ≡ granted b → a ≡ b
granted-injective e = cc (e)

-- A granted login waits for a second factor exactly if the user that the address finds has one.
pub authorize-waits :
    (cfg : Config) (req : LoginRequest) (session : Session) (fresh : Fresh) (now : ℕ) (w : World)
    (step : AuthStep)
    → (authorize cfg req session fresh now w).0 ≡ granted step
    → (u : User) × ((find_by_email req.email w.users).0 ≡ ok u)
      × (waits step ≡ has_webauthn_enabled u)
authorize-waits cfg req session fresh now w step h =
    let l = authorize_sound cfg req session fresh now w step h in
    let the_step : step
        ≡ (issue cfg req session fresh now l.user' l.hashed l.client l.origin l.before).0 =
      granted-injective (sym h ∙ ap (λ (r : Attempt AuthStep × World). r.0) l.issued) in
    (
      l.user,
      l.found,
      ap waits the_step
          ∙ issue-waits cfg req session fresh now l.user' l.hashed l.client l.origin l.before
          ∙ same_factor l.user l.user' now l.same,
    )

find-save : (s : Session) (st : Store.Store) → (Store.find s.id (Store.save s st)).0 ≡ ok s
unfolding Store.find Store.save
find-save s st =
    let idx = Store.cache_idx s.id in
    let hit : get idx (put idx s st.cache_sessions) ≡ some s =
      get-put idx idx s st.cache_sessions ∙ rw (str_eq_refl idx) refl in
    rw (hit, Store.find) refl

find-set_mfa :
    (s : Session) (st : Store.Store)
    → (Store.find s.id (set_mfa s true st).1).0 ≡ ok (record s { is_mfa = true })
unfolding set_mfa
find-set_mfa s st = find-save (record s { is_mfa = true }) st

issue-set_mfa :
    (cfg : Config) (req : LoginRequest) (session : Session) (fresh : Fresh) (now : ℕ) (u : User)
    (hashed : Bool) (c : Client) (origin : Option Str) (w : World)
    → waits (issue cfg req session fresh now u hashed c origin w).0 ≡ true
    → (Store.find session.id
        (issue cfg req session fresh now u hashed c origin w).1.users.sessions).0
      ≡ ok (record session { is_mfa = true })
unfolding issue wait_for_factor
issue-set_mfa cfg req session fresh now u hashed c origin w =
    elim (Bool-cases (has_webauthn_enabled u)) [
      | inl factor ↦ rw (factor, issue) (λ h. find-set_mfa session w.users.sessions)
      | inr bare ↦ rw (bare, issue) (λ h. absurd (cc (h)))
    ]

-- As soon as a login waits for the second factor, before that has been shown, its session is found as
-- one with a second factor.
pub authorize-set_mfa :
    (cfg : Config) (req : LoginRequest) (session : Session) (fresh : Fresh) (now : ℕ) (w : World)
    (s : AuthStepAwaitWebauthn)
    → (authorize cfg req session fresh now w).0 ≡ granted (await_webauthn s)
    → (Store.find session.id (authorize cfg req session fresh now w).1.users.sessions).0
      ≡ ok (record session { is_mfa = true })
authorize-set_mfa cfg req session fresh now w s h =
    let l = authorize_sound cfg req session fresh now w (await_webauthn s) h in
    let the_step : await_webauthn s
        ≡ (issue cfg req session fresh now l.user' l.hashed l.client l.origin l.before).0 =
      granted-injective (sym h ∙ ap (λ (r : Attempt AuthStep × World). r.0) l.issued) in
    ap (λ (r : Attempt AuthStep × World). (Store.find session.id r.1.users.sessions).0) l.issued
    ∙ issue-set_mfa cfg req session fresh now l.user' l.hashed l.client l.origin l.before
        (ap waits (sym the_step))
