-- ===== src/Accounts/SelfPassword.antt =====
-- What a user shows to set a new password.
use rauthy.Base.{
  ℕ, ◌≡◌, ◌⊎◌, inl, inr, refl, sym, ap, ◌∙◌, Bool, Option, some, arith, Str, str_eq, str_eq_iff,
  Option-cases, Bool-cases,
}
use rauthy.Base.Table.{get}
use rauthy.ErrorResponse.{Result, ok, err, bad_request, and_then, and_then-eq-ok, Result-cases}
use rauthy.Users.{User}
use rauthy.Users.Password.{validate_password}
use rauthy.Users.Store
use rauthy.Users.Store.{save}
use rauthy.Accounts.Values.{UserValues}
use rauthy.Accounts.SelfUpdate.{use_mfa_code, self_password, update_self_req}
use rauthy.Accounts.{Config, World, Fresh, UpdateUserSelfRequest, keeping}

abbrev value :
    Result (User × (Option UserValues × Bool)) × World → Result (User × (Option UserValues × Bool))
value (r, w) = r

-- The user shows the current password, or the code of a ceremony with a passkey of theirs.
abbrev pub ShowsRight : Config → UpdateUserSelfRequest → ℕ → User → World → Type 0
ShowsRight cfg upd now u w =
    ((curr : Str) × (upd.password_current ≡ some curr)
      × ((validate_password cfg.hasher u now curr).0 ≡ ok tt))
    ⊎ ((code : Str) × (upd.mfa_code ≡ some code) × (get code w.service_reqs ≡ some u.id))

use_mfa_code-owner :
    (code : Str) (u : User) (w : World)
    → (use_mfa_code code u w).0 ≡ ok tt
    → get code w.service_reqs ≡ some u.id
unfolding use_mfa_code
use_mfa_code-owner code u w h = elim (Option-cases (get code w.service_reqs)) [
  | inl gone ↦ ground (arith)
  | inr (uid, here) ↦ elim (Bool-cases (str_eq uid u.id)) [
    | inl same ↦ here ∙ ap some ((str_eq_iff uid u.id).0 same)
    | inr other ↦ ground (arith)
  ]
]

self_password-ShowsRight :
    (cfg : Config) (fresh : Fresh) (upd : UpdateUserSelfRequest) (now : ℕ) (u : User) (w : World)
    (new : Str) (password : Option Str)
    → upd.password_new ≡ some new
    → (self_password cfg fresh upd now u w).0 ≡ ok password
    → ShowsRight cfg upd now u w
unfolding self_password
self_password-ShowsRight cfg fresh upd now u w new password asked h =
    elim (Option-cases upd.password_current) [
      | inr (curr, given) ↦ elim (Result-cases (validate_password cfg.hasher u now curr).0) [
        | inl (_, valid) ↦ inl (curr, given, valid)
        | inr (e, refused) ↦
            let failed : (self_password cfg fresh upd now u w).0 ≡ err e =
              rw (asked, given, refused, self_password) refl in
            cc (failed, h)
      ]
      | inl missing ↦ elim (Option-cases upd.mfa_code) [
        | inl no_code ↦
            let failed : (self_password cfg fresh upd now u w).0 ≡ err bad_request =
              rw (asked, missing, no_code, self_password) refl in
            cc (failed, h)
        | inr (code, c) ↦
            let taken : self_password cfg fresh upd now u w
                ≡ and_then (use_mfa_code code u w) (λ _ w'. (ok (some new), w')) =
              rw (asked, missing, c, self_password) refl in
            let (_, used, _) =
              and_then-eq-ok (use_mfa_code code u w) (λ _ w'. (ok (some new), w'))
                (sym (ap (λ (r : Result (Option Str) × World). r.0) taken) ∙ h) in
            inr (code, c, use_mfa_code-owner code u w used)
      ]
    ]

-- An update by the user that sets a new password succeeds only if the request has the user's current
-- password, and that is valid, or the code of a ceremony with a passkey, and that was the user's.
pub update_self_req-ShowsRight :
    (cfg : Config) (fresh : Fresh) (id : Str) (upd : UpdateUserSelfRequest) (now : ℕ) (w : World)
    (new : Str) (u' : User) (rest : Option UserValues × Bool)
    → upd.password_new ≡ some new
    → (update_self_req cfg fresh id upd now w).0 ≡ ok (u', rest)
    → (u : User) × ((Store.find id w.users).0 ≡ ok u) × ShowsRight cfg upd now u w
unfolding update_self_req
update_self_req-ShowsRight cfg fresh id upd now w new u' rest asked h =
    let (u, found, o1) = and_then-eq-ok (keeping w (Store.find id w.users)) _ h in
    let w1 : World = (keeping w (Store.find id w.users)).1 in
    let (password, right, _) =
      and_then-eq-ok (self_password cfg fresh upd now u w1) _ (sym (ap value o1) ∙ h) in
    (u, found, self_password-ShowsRight cfg fresh upd now u w1 new password asked right)
