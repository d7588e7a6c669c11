-- ===== src/Clients/Store/Dynamic/Kept.antt =====
-- What a client can change of its own registration.
use rauthy.Base.{
  ℕ, ◌≡◌, sym, ap, ◌∙◌, refl, inl, inr, true, some, arith, codes, Bool-cases, opt_str_eq,
}
use rauthy.ErrorResponse.{Result, ok, err, and_then-eq-ok, forbidden, Result-cases}
use rauthy.Clients.{Client, is_dynamic}
use rauthy.Clients.Store.{ClientDyn, ClientStore, Config, find, save}
use rauthy.Clients.Store.Dynamic.{
  Fresh, DynamicClientRequest, registered, try_from_dyn_reg, update, keep_modified, apply_update,
  update_dynamic, auth_method,
}

abbrev value : Result (Client × ClientDyn) × ClientStore → Result (Client × ClientDyn)
value (r, st) = r

client_of :
    {x y : Client} {d d' : ClientDyn}
    → ◌≡◌ {A = Result (Client × ClientDyn)} (ok (x, d)) (ok (y, d'))
    → x ≡ y
client_of h = cc

apply_update-eq-ok :
    (cfg : Config) (fresh : Fresh) (now : ℕ) (req : DynamicClientRequest) (d d' : ClientDyn)
    (made current c : Client) (st : ClientStore)
    → (apply_update cfg fresh now req d made current st).0 ≡ ok (c, d')
    → (is_dynamic current ≡ true) × (c ≡ keep_modified current made)
unfolding apply_update
apply_update-eq-ok cfg fresh now req d d' made current c st h =
    let st' = save (keep_modified current made) st in
    elim (Bool-cases (is_dynamic current)) [
      | inr static ↦
          let refused : (apply_update cfg fresh now req d made current st).0 ≡ err forbidden =
            rw (static, apply_update) refl in
          cc (refused, h)
      | inl dynamic ↦ elim (Result-cases (update cfg fresh now (auth_method req) d st').0) [
        | inr (e, failed) ↦
            let refused : (apply_update cfg fresh now req d made current st).0 ≡ err e =
              rw (dynamic, apply_update, failed) refl in
            cc (refused, h)
        | inl (d2, done) ↦
            let made_ok : (apply_update cfg fresh now req d made current st).0
                ≡ ok (keep_modified current made, d2) =
              rw (dynamic, apply_update, done) refl in
            (dynamic, sym (client_of (sym made_ok ∙ h)))
      ]
    ]

try_from_dyn_reg-enabled :
    (cfg : Config) (fresh : Fresh) (req : DynamicClientRequest) (c : Client)
    → try_from_dyn_reg cfg fresh req ≡ ok c
    → c.enabled ≡ true
unfolding try_from_dyn_reg registered
try_from_dyn_reg-enabled cfg fresh req c h =
    elim (Bool-cases (opt_str_eq req.token_endpoint_auth_method (some (codes "none")))) [
      | inl public ↦ ground arith
      | inr confidential ↦ elim (Result-cases fresh.secret) [
        | inr (e, failed) ↦ ground arith
        | inl (enc, given) ↦ ground arith
      ]
    ]

-- A client's update of its own registration succeeds only for a dynamic client that is found, and keeps
-- its id, its scopes, its default ones and the demand for a second factor; but it leaves the client
-- enabled, be it disabled before or not.
pub update_dynamic_kept :
    (cfg : Config) (fresh : Fresh) (now : ℕ) (req : DynamicClientRequest) (d d' : ClientDyn)
    (st : ClientStore) (c : Client)
    → (update_dynamic cfg fresh now req d st).0 ≡ ok (c, d')
    → (current : Client) × ((find d.id st).0 ≡ ok current)
      × (is_dynamic current ≡ true)
      × (c.id ≡ current.id)
      × (c.scopes ≡ current.scopes)
      × (c.default_scopes ≡ current.default_scopes)
      × (c.force_mfa ≡ current.force_mfa)
      × (c.enabled ≡ true)
unfolding update_dynamic keep_modified
update_dynamic_kept cfg fresh now req d d' st c h =
    let (made, m, o1) = and_then-eq-ok (try_from_dyn_reg cfg fresh req, st) _ h in
    let h1 = sym (ap value o1) ∙ h in
    let (current, found, o2) = and_then-eq-ok (find d.id st) _ h1 in
    let (dynamic, same) =
      apply_update-eq-ok cfg fresh now req d d' made current c _ (sym (ap value o2) ∙ h1) in
    (
      current,
      found,
      dynamic,
      ap (λ (x : Client). x.id) same,
      ap (λ (x : Client). x.scopes) same,
      ap (λ (x : Client). x.default_scopes) same,
      ap (λ (x : Client). x.force_mfa) same,
      ap (λ (x : Client). x.enabled) same ∙ try_from_dyn_reg-enabled cfg fresh req made m,
    )
