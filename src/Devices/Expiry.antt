-- ===== src/Devices/Expiry.antt =====
-- The refresh tokens of devices, and the clean-up of devices.
use rauthy.Base.{
  ℕ, ◌+◌, ◌≤◌, ◌⊎◌, ◌↔◌, ltb, Option-cases, ◌≡◌, ◌≢◌, inl, inr, Bool, true, false, Option, none,
  some, [], ◌∷◌, arith, Str, str_eq, str_eq_iff, str_eq_refl, if◌then◌else◌, Bool-cases, refl, sym,
  ap, ◌∙◌,
}
use rauthy.Base.Table.{Table, get, get-del, IsKeyed}
use rauthy.ErrorResponse.{ok, ok_or, not_found}
use rauthy.Devices.{DeviceEntity}
use rauthy.Devices.Store.{
  Store, RefreshTokenDevice, find, delete_where, is_expired, is_of_device, delete_expired_rows,
  delete_expired, invalidate, clear_refresh, invalidate_all_for_device, revoke_refresh_tokens,
}

-- Every token is of a device in the table, as the foreign key demands.
abbrev pub HasOwners : Store → Type 0
HasOwners st =
    (id : Str) (t : RefreshTokenDevice)
    → get id st.tokens ≡ some t
    → (d : DeviceEntity) × (get t.device_id st.devices ≡ some d)

get-delete_where :
    (test : RefreshTokenDevice → Bool) (id : Str) (rows : Table RefreshTokenDevice)
    (t : RefreshTokenDevice)
    → IsKeyed rows
    → get id (delete_where test rows) ≡ some t
    → (get id rows ≡ some t) × (test t ≡ false)
unfolding delete_where get
get-delete_where test id [] t k h = cc
get-delete_where test id ((j, r) ∷ rows) t (fresh, k) h =
    ground (arith, get-delete_where test id rows t k, str_eq_iff j id)

get-delete_where-none :
    (test : RefreshTokenDevice → Bool) (id : Str) (rows : Table RefreshTokenDevice)
    → get id rows ≡ none
    → get id (delete_where test rows) ≡ none
unfolding delete_where get
get-delete_where-none test id [] h = refl
get-delete_where-none test id ((j, r) ∷ rows) h = ground (arith, get-delete_where-none test id rows)

delete_where-IsKeyed :
    (test : RefreshTokenDevice → Bool) (rows : Table RefreshTokenDevice)
    → IsKeyed rows
    → IsKeyed (delete_where test rows)
unfolding delete_where
delete_where-IsKeyed test [] k = tt
delete_where-IsKeyed test ((j, r) ∷ rows) (fresh, k) = elim (Bool-cases (test r)) [
  | inl gone ↦ rw (gone) (delete_where-IsKeyed test rows k)
  | inr kept ↦ rw (kept) (get-delete_where-none test j rows fresh, delete_where-IsKeyed test rows k)
]

pub invalidate-HasOwners :
    (id : Str) (st : Store) → IsKeyed st.tokens → HasOwners st → HasOwners (invalidate id st)
unfolding invalidate
invalidate-HasOwners id st k h i t e =
    let (before, other) = get-delete_where (is_of_device id) i st.tokens t k e in
    let (d, row) = h i t before in
    (
      d,
      ground (
        arith,
        get-del t.device_id id st.devices,
        str_eq_iff t.device_id id,
        str_eq_iff id t.device_id,
      ),
    )

-- The state after one row of the clean-up.
abbrev swept : ℕ → Str → DeviceEntity → Store → Store
swept now k d st = if is_expired now d then invalidate k st else st

swept-HasOwners :
    (now : ℕ) (k : Str) (d : DeviceEntity) (st : Store)
    → IsKeyed st.tokens
    → HasOwners st
    → IsKeyed (swept now k d st).tokens × HasOwners (swept now k d st)
unfolding invalidate
swept-HasOwners now k d st keyed h =
    elim (is_expired now d)
      as (λ b.
        IsKeyed (if b then invalidate k st else st).tokens
        × HasOwners (if b then invalidate k st else st)) [
          | true ↦ (
            delete_where-IsKeyed (is_of_device k) st.tokens keyed,
            invalidate-HasOwners k st keyed h,
          )
          | false ↦ (keyed, h)
        ]

expired_rows-HasOwners :
    (now : ℕ) (rows : Table DeviceEntity) (st : Store)
    → IsKeyed st.tokens
    → HasOwners st
    → HasOwners (delete_expired_rows now rows st)
unfolding delete_expired_rows invalidate
expired_rows-HasOwners now [] st k h = h
expired_rows-HasOwners now ((j, d) ∷ rows) st k h =
    let (k', h') = swept-HasOwners now j d st k h in
    expired_rows-HasOwners now rows (swept now j d st) k' h'

-- One device after the clean-up.
abbrev pub unexpired : ℕ → Option DeviceEntity → Option DeviceEntity
unexpired now none = none
unexpired now (some d) = if is_expired now d then none else some d

abbrev left_of : ℕ → Option DeviceEntity → Option DeviceEntity → Option DeviceEntity
left_of now none old = old
left_of now (some d) old = if is_expired now d then none else old

left_of-swept :
    (now : ℕ) (id k : Str) (d : DeviceEntity) (rows : Table DeviceEntity) (st : Store)
    → get k rows ≡ none
    → left_of now (get id rows) (get id (swept now k d st).devices)
      ≡ left_of now (if str_eq k id then some d else get id rows) (get id st.devices)
unfolding invalidate
left_of-swept now id k d rows st fresh = elim (Bool-cases (str_eq k id)) [
  | inl same ↦
      let e = (str_eq_iff k id).0 same in
      rw (same, sym e, fresh)
        (elim (Bool-cases (is_expired now d)) [
          | inl gone ↦ rw (gone) (get-del k k st.devices ∙ rw (str_eq_refl k) refl)
          | inr alive ↦ rw (alive) refl
        ])
  | inr other ↦ rw (other) (
      ap (left_of now (get id rows)) (elim (Bool-cases (is_expired now d)) [
        | inl gone ↦ rw (gone) (get-del id k st.devices ∙ rw (other) refl)
        | inr alive ↦ rw (alive) refl
      ]))
]

get-expired_rows :
    (now : ℕ) (id : Str) (rows : Table DeviceEntity) (st : Store)
    → IsKeyed rows
    → get id (delete_expired_rows now rows st).devices
      ≡ left_of now (get id rows) (get id st.devices)
unfolding delete_expired_rows get invalidate
get-expired_rows now id [] st k = refl
get-expired_rows now id ((j, d) ∷ rows) st (fresh, k) =
    get-expired_rows now id rows (swept now j d st) k ∙ left_of-swept now id j d rows st fresh

-- A token of the device ends later than an hour ago.
abbrev pub IsLive : ℕ → DeviceEntity → Type 0
IsLive now d =
    (now ≤ d.access_exp + 3600) ⊎ ((exp : ℕ) × (d.refresh_exp ≡ some exp) × (now ≤ exp + 3600))

is_expired_iff : (now : ℕ) (d : DeviceEntity) → (is_expired now d ≡ false) ↔ IsLive now d
unfolding is_expired
is_expired_iff now d = (there, back)
  where
    there : is_expired now d ≡ false → IsLive now d
    there h = elim (Bool-cases (ltb (d.access_exp + 3600) now)) [
      | inr live ↦ inl (ground arith)
      | inl over ↦ elim (Option-cases d.refresh_exp) [
        | inl bare ↦ absurd (ground arith)
        | inr (exp, given) ↦ inr (exp, given, ground arith)
      ]
    ]

    back : IsLive now d → is_expired now d ≡ false
    back (inl live) = ground arith
    back (inr (exp, given, live)) = ground arith

unexpired_iff :
    (now : ℕ) (o : Option DeviceEntity) (d : DeviceEntity)
    → (unexpired now o ≡ some d) ↔ ((o ≡ some d) × IsLive now d)
unexpired_iff now none d = (λ h. cc, λ (h, _). cc)
unexpired_iff now (some r) d = (there, back)
  where
    there : unexpired now (some r) ≡ some d → (some r ≡ some d) × IsLive now d
    there h = elim (Bool-cases (is_expired now r)) [
      | inl over ↦ absurd (ground arith)
      | inr live ↦
          let same : some r ≡ some d = ground arith in
          let alike : r ≡ d = ground arith in
          (same, (is_expired_iff now d).0 (ap (is_expired now) (sym alike) ∙ live))
    ]

    back : (some r ≡ some d) × IsLive now d → unexpired now (some r) ≡ some d
    back (same, live) =
        let alike : r ≡ d = ground arith in
        let kept = ap (is_expired now) alike ∙ (is_expired_iff now d).1 live in
        ap (λ (b : Bool). if b then none else some r) kept ∙ same

left_of_self : (now : ℕ) (o : Option DeviceEntity) → left_of now o o ≡ unexpired now o
left_of_self now none = refl
left_of_self now (some d) = refl

-- Where every refresh token is of a device in the table, and no key stands twice in a table: the clean-
-- up keeps that every token is of a device, and a device stands in the table afterwards exactly if it
-- did before, and its access token, or a refresh token that it has, did not end more than an hour ago.
pub delete_expired_lem :
    (now : ℕ) (st : Store)
    → IsKeyed st.devices
    → IsKeyed st.tokens
    → HasOwners st
    → HasOwners (delete_expired now st)
      × ((id : Str) (d : DeviceEntity)
          → (get id (delete_expired now st).devices ≡ some d)
            ↔ ((get id st.devices ≡ some d) × IsLive now d))
unfolding delete_expired
delete_expired_lem now st kd kt h = (
  expired_rows-HasOwners now st.devices st kt h,
  λ id d.
      let after = get-expired_rows now id st.devices st kd ∙ left_of_self now (get id st.devices) in
      let (there, back) = unexpired_iff now (get id st.devices) d in
      (λ h. there (sym after ∙ h), λ h. after ∙ back h),
)

get-clear_refresh :
    (id : Str) (rows : Table DeviceEntity) (d : DeviceEntity)
    → get id rows ≡ some d
    → get id (clear_refresh id rows) ≡ some (record d { refresh_exp = none })
unfolding clear_refresh get
get-clear_refresh id [] d h = cc
get-clear_refresh id ((j, r) ∷ rows) d h = elim (Bool-cases (str_eq j id)) [
  | inl same ↦ ground arith
  | inr other ↦ ground (arith, get-clear_refresh id rows d)
]

ok_or-eq-ok : (o : Option DeviceEntity) {d : DeviceEntity} → ok_or o not_found ≡ ok d → o ≡ some d
ok_or-eq-ok none h = cc
ok_or-eq-ok (some d) h = cc (h)

-- After the refresh tokens of a device were revoked, the device is found with no end of one, and none of
-- its tokens is left, while those that are left were there before.
pub revoke_refresh_tokens_lem :
    (id : Str) (st : Store) (d : DeviceEntity)
    → IsKeyed st.tokens
    → find id st ≡ ok d
    → (find id (revoke_refresh_tokens id st) ≡ ok (record d { refresh_exp = none }))
      × ((key : Str) (t : RefreshTokenDevice)
          → get key (revoke_refresh_tokens id st).tokens ≡ some t
          → (t.device_id ≢ id) × (get key st.tokens ≡ some t))
unfolding revoke_refresh_tokens invalidate_all_for_device find
revoke_refresh_tokens_lem id st d k found = (
  ap (λ o. ok_or o not_found)
      (get-clear_refresh id st.devices d (ok_or-eq-ok (get id st.devices) found)),
  λ key t e.
      let (before, other) = get-delete_where (is_of_device id) key st.tokens t k e in
      (ground (arith, str_eq_iff t.device_id id), before),
)
