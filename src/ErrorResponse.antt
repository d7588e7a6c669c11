-- ===== src/ErrorResponse.antt =====
-- rauthy-common/src/error_response.rs: what an operation fails with. The message of an
-- `ErrorResponse` and its timestamp are left out; the type decides the HTTP status.
use rauthy.Base.{
  ◌⊎◌, inl, inr, ℕ, ◌≡◌, refl, Bool, true, false, Option, Str, none, some, if◌then◌else◌,
}

pub data ErrorResponseType : Type 0 where
  bad_request connection csrf_token_error database database_io disabled : ErrorResponseType
  dpop : Option Str → ErrorResponseType
  encryption : ErrorResponseType
  use_dpop_nonce : Option Str → Str → ErrorResponseType
  forbidden internal jose_error mfa_required no_session not_found : ErrorResponseType
  password_expired password_refresh session_expired session_timeout : ErrorResponseType
  too_many_requests : ℕ → ErrorResponseType
  unauthorized : ErrorResponseType
  www_authenticate : Str → ErrorResponseType

pub data Result {ℓ} (A : Type ℓ) : Type ℓ where
  ok : A → Result A
  err : ErrorResponseType → Result A

-- The operator `?`: an error ends the function, and a value goes on.
module _ {ℓ κ} {A : Type ℓ} {B : Type κ} where
  infixl 5 ◌>>=◌
  abbrev pub ◌>>=◌ : Result A → (A → Result B) → Result B
  err e >>= next = err e
  ok a >>= next = next a

  -- What a successful bind has been through.
  pub >>=-eq-ok :
      (r : Result A) (next : A → Result B) {b : B}
      → r >>= next ≡ ok b
      → (a : A) × (r ≡ ok a) × (next a ≡ ok b)
  >>=-eq-ok (err e) next h = cc
  >>=-eq-ok (ok a) next h = (a, refl, h)

-- An early return of an error unless the test holds.
abbrev pub ensure : Bool → ErrorResponseType → Result (Unit {0})
ensure true e = ok tt
ensure false e = err e

-- A step whose value is not used.
infixl 5 ◌>>◌
abbrev pub ◌>>◌ {κ} : {B : Type κ} → Result (Unit {0}) → Result B → Result B
first >> second = first >>= λ _. second

-- The operator `?` where the steps change a state: an error keeps the state that it leaves behind.
abbrev pub and_then {ℓ κ ℓs} :
    {A : Type ℓ} {B : Type κ} {S : Type ℓs} → Result A × S → (A → S → Result B × S) → Result B × S
and_then (err e, s) next = (err e, s)
and_then (ok a, s) next = next a s

-- What a successful run of two steps has been through.
pub and_then-eq-ok {ℓ κ ℓs} :
    {A : Type ℓ} {B : Type κ} {S : Type ℓs} (r : Result A × S) (next : A → S → Result B × S) {b : B}
    → (and_then r next).0 ≡ ok b
    → (a : A) × (r.0 ≡ ok a) × (and_then r next ≡ next a r.1)
and_then-eq-ok (err e, s) next h = cc
and_then-eq-ok (ok a, s) next h = (a, refl, refl)

-- `opt.ok_or_else(|| e)`
abbrev pub ok_or {ℓ} : {A : Type ℓ} → Option A → ErrorResponseType → Result A
ok_or none e = err e
ok_or (some a) e = ok a

-- `res.map_err(|_| e)`
abbrev pub map_err {ℓ} : {A : Type ℓ} → Result A → ErrorResponseType → Result A
map_err (ok a) e = ok a
map_err (err e') e = err e

abbrev pub is_ok {ℓ} : {A : Type ℓ} → Result A → Bool
is_ok (ok a) = true
is_ok (err e) = false

pub Result-cases {ℓ} :
    {A : Type ℓ} (r : Result A) → ((a : A) × (r ≡ ok a)) ⊎ ((e : ErrorResponseType) × (r ≡ err e))
Result-cases (ok a) = inl (a, refl)
Result-cases (err e) = inr (e, refl)

-- A guard that would have returned an error did not hold.
pub guard_passed {ℓ κ} :
    {A : Type ℓ} {S : Type κ} (b : Bool) (e : ErrorResponseType) (s : S) (rest : Result A × S)
    {a : A}
    → (if b then (err e, s) else rest).0 ≡ ok a
    → b ≡ false
guard_passed true e s rest h = cc
guard_passed false e s rest h = refl

-- Past a guard that did not hold.
pub past_guard {ℓ κ} :
    {A : Type ℓ} {S : Type κ} (b : Bool) (e : ErrorResponseType) (s : S) (rest : Result A × S)
    {a : A}
    → (if b then (err e, s) else rest).0 ≡ ok a
    → (if b then (err e, s) else rest) ≡ rest
past_guard true e s rest h = cc
past_guard false e s rest h = refl

-- What a step has been through that succeeded.
pub ensure-eq-ok : (b : Bool) (e : ErrorResponseType) {x : Unit {0}} → ensure b e ≡ ok x → b ≡ true
ensure-eq-ok true e h = refl
ensure-eq-ok false e h = cc

pub ok_or-eq-ok {ℓ} :
    {A : Type ℓ} (o : Option A) (e : ErrorResponseType) {a : A} → ok_or o e ≡ ok a → o ≡ some a
ok_or-eq-ok none e h = cc
ok_or-eq-ok (some a) e h = cc (h)

pub ok-injective {ℓ} : {A : Type ℓ} {a b : A} → Result.ok a ≡ ok b → a ≡ b
ok-injective e = cc (e)

pub map_err-eq-ok {ℓ} :
    {A : Type ℓ} (r : Result A) (e : ErrorResponseType) {a : A} → map_err r e ≡ ok a → r ≡ ok a
map_err-eq-ok (ok a) e h = h
map_err-eq-ok (err e') e h = cc
