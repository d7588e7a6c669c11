-- ===== src/Users/Password/Laws.antt =====
-- What a password has to meet to be taken, and when a password lets a user in.

use rauthy.Base.{
  ℕ, zero, suc, ◌+◌, ◌≤◌, ◌<◌, ◌≡◌, ◌≢◌, ◌↔◌, ◌⊎◌, refl, sym, ap, ◌∙◌, Bool, true, false, not,
  Option, some, List, [], ◌∷◌, arith, All, unwrap_or, Str, ◌==◌, Bool-cases, Option-cases, inl, inr,
}
use rauthy.ErrorResponse.{Result, ok, >>=-eq-ok, ensure, bad_request}
use rauthy.Users.{User}
use rauthy.Users.Password.{
  PasswordPolicy, CharClass, Hasher, utf8_len, count_chars, no_counts, check_rules, check_recent,
  update_recent, apply_password_rules, validate_password,
}

-- What the policy demands of a password, as bounds on its length and its character counts.
pub record Meets (cc : CharClass) (rules : PasswordPolicy) (plain : Str) : Type 0 where
  pub long_enough : rules.length_min ≤ utf8_len plain
  pub short_enough : utf8_len plain ≤ rules.length_max
  pub lower : unwrap_or rules.include_lower_case 0 ≤ (count_chars cc no_counts plain).lower
  pub upper : unwrap_or rules.include_upper_case 0 ≤ (count_chars cc no_counts plain).upper
  pub digits : unwrap_or rules.include_digits 0 ≤ (count_chars cc no_counts plain).digit
  pub special : unwrap_or rules.include_special 0 ≤ (count_chars cc no_counts plain).special

check_rules-Meets :
    (cc : CharClass) (rules : PasswordPolicy) (plain : Str) (u : Unit {0})
    → check_rules cc rules plain ≡ ok u
    → Meets cc rules plain
unfolding check_rules
check_rules-Meets cc rules plain u h = ground arith

abbrev pub first_n : ℕ → List Str → List Str
first_n zero xs = []
first_n (suc n) [] = []
first_n (suc n) (x ∷ xs) = x ∷ first_n n xs

check_recent-cons :
    (is_match : Str → Result Bool) (req iteration : ℕ) (old : Str) (hashes kept : List Str)
    → check_recent is_match req iteration (old ∷ hashes) ≡ ok kept
    → (is_match old ≡ ok false)
      × (((iteration + 1 ≡ req) × (kept ≡ old ∷ []))
          ⊎ ((iteration + 1 ≢ req)
              × ((rest : List Str) × (check_recent is_match req (iteration + 1) hashes ≡ ok rest)
                  × (kept ≡ old ∷ rest))))
unfolding check_recent
check_recent-cons is_match req iteration old hashes kept h =
    let (matches, e, h') = >>=-eq-ok (is_match old) _ h in
    let (u, no_match, h'') = >>=-eq-ok (ensure (not matches) bad_request) _ h' in
    elim (Bool-cases (iteration + 1 == req)) [
      | inl stop ↦ (ground arith, inl (ground arith, ground arith))
      | inr on ↦
          let step = (rw on at h'') in
          let (rest, r, k) = >>=-eq-ok (check_recent is_match req (iteration + 1) hashes) _ step in
          (ground arith, inr (ground arith, (rest, r, ground arith)))
    ]

check_recent_sound :
    (is_match : Str → Result Bool) (n req iteration : ℕ) (hashes kept : List Str)
    → req ≡ iteration + suc n
    → check_recent is_match req iteration hashes ≡ ok kept
    → (kept ≡ first_n (suc n) hashes)
      × All (λ old. is_match old ≡ ok false) (first_n (suc n) hashes)
unfolding check_recent
check_recent_sound is_match n req iteration [] kept e h = (ground arith, tt)
check_recent_sound is_match zero req iteration (old ∷ hashes) kept e h =
    let (no_match, cases) = check_recent-cons is_match req iteration old hashes kept h in
    elim cases [ inl (stop, k) ↦ (k, (no_match, tt)) | inr (on, _) ↦ absurd (omega arith) ]
check_recent_sound is_match (suc n) req iteration (old ∷ hashes) kept e h =
    let (no_match, cases) = check_recent-cons is_match req iteration old hashes kept h in
    elim cases [
      | inl (stop, k) ↦ absurd (omega arith)
      | inr (on, (rest, r, k)) ↦
          let (same, all) =
            check_recent_sound is_match n req (iteration + 1) hashes rest (omega arith) r in
          (cc, (no_match, all))
    ]

check_recent_complete :
    (is_match : Str → Result Bool) (n req iteration : ℕ) (hashes : List Str)
    → req ≡ iteration + suc n
    → All (λ old. is_match old ≡ ok false) (first_n (suc n) hashes)
    → check_recent is_match req iteration hashes ≡ ok (first_n (suc n) hashes)
unfolding check_recent
check_recent_complete is_match n req iteration [] e a = refl
check_recent_complete is_match zero req iteration (old ∷ hashes) e (m, a) = ground arith
check_recent_complete is_match (suc n) req iteration (old ∷ hashes) e (m, a) =
    let ih = check_recent_complete is_match n req (iteration + 1) hashes (omega arith) a in
    ground arith

-- With `n + 2` recent passwords configured, the check lets a password pass exactly if it matches none
-- of the first `n + 1` stored hashes, and those are the ones that it keeps.
pub check_recent_iff :
    (is_match : Str → Result Bool) (n : ℕ) (hashes kept : List Str)
    → (check_recent is_match (n + 2) 1 hashes ≡ ok kept) ↔ (
        (kept ≡ first_n (suc n) hashes)
        × All (λ old. is_match old ≡ ok false) (first_n (suc n) hashes))
check_recent_iff is_match n hashes kept = (
  λ h. check_recent_sound is_match n (n + 2) 1 hashes kept (omega arith) h,
  λ (e, a). check_recent_complete is_match n (n + 2) 1 hashes (omega arith) a ∙ ap ok (sym e),
)

check_recent_past :
    (is_match : Str → Result Bool) (req iteration : ℕ) (hashes kept : List Str)
    → req ≤ iteration
    → check_recent is_match req iteration hashes ≡ ok kept
    → kept ≡ hashes
unfolding check_recent
check_recent_past is_match req iteration [] kept le h = ground arith
check_recent_past is_match req iteration (old ∷ hashes) kept le h =
    let (no_match, cases) = check_recent-cons is_match req iteration old hashes kept h in
    elim cases [
      | inl (stop, k) ↦ absurd (omega arith)
      | inr (on, (rest, r, k)) ↦
          let same = check_recent_past is_match req (iteration + 1) hashes rest (omega arith) r in
          cc
    ]

-- With one recent password configured the loop never stops early: every hash is kept, and the row
-- grows with each new password.
pub check_recent_one :
    (is_match : Str → Result Bool) (hashes kept : List Str)
    → check_recent is_match 1 1 hashes ≡ ok kept
    → kept ≡ hashes
check_recent_one is_match hashes kept h = check_recent_past is_match 1 1 hashes kept (omega arith) h

-- A new password that is taken meets the policy's bounds on its length and on each kind of character,
-- and its hash becomes the user's password.
pub apply_password_rules_sound :
    (cc : CharClass) (h : Hasher) (rules : PasswordPolicy) (no_expiry : Bool) (now : ℕ) (u : User)
    (plain : Str) (row : Option Str) (u' : User) (row' : Option Str)
    → apply_password_rules cc h rules no_expiry now u plain row ≡ ok (u', row')
    → Meets cc rules plain
      × ((hash : Str) × (h.hash_password plain ≡ ok hash) × (u'.password ≡ some hash))
unfolding apply_password_rules
apply_password_rules_sound c h rules no_expiry now u plain row u' row' e =
    let (t, checked, e') = >>=-eq-ok (check_rules c rules plain) _ e in
    let (hash, hashed, e'') = >>=-eq-ok (h.hash_password plain) _ e' in
    let (r, updated, done) =
      >>=-eq-ok (update_recent (h.is_match plain) rules.not_recently_used hash row) _ e'' in
    (check_rules-Meets c rules plain t checked, (hash, hashed, ground arith))

-- A login by password succeeds exactly if the user has a password that is not past its end and the
-- given one matches it.
pub validate_password_iff :
    (h : Hasher) (u : User) (now : ℕ) (plain : Str)
    → ((validate_password h u now plain).0 ≡ ok tt) ↔ (
        (hash : Str) × (u.password ≡ some hash)
        × (now ≤ unwrap_or u.password_expires now)
        × (h.is_match plain hash ≡ ok true))
unfolding validate_password
validate_password_iff h u now plain = elim (Option-cases u.password) [
  | inl no_hash ↦ (λ e. ground arith, λ t. ground (arith, t.1))
  | inr (hash, has) ↦
      (λ e. (hash, has, ground arith, ground arith), λ (hash', e, alive, m). ground arith)
]

-- The link to reset a password is sent exactly to an enabled user whose password has expired and who
-- has given it.
pub validate_password_sends :
    (h : Hasher) (u : User) (now : ℕ) (plain : Str)
    → ((validate_password h u now plain).1 ≡ true) ↔ (
        (hash : Str) × (u.password ≡ some hash)
        × (unwrap_or u.password_expires now < now)
        × (u.enabled ≡ true)
        × (h.is_match plain hash ≡ ok true))
unfolding validate_password
validate_password_sends h u now plain = elim (Option-cases u.password) [
  | inl no_hash ↦ (λ e. ground arith, λ t. ground (arith, t.1))
  | inr (hash, has) ↦ (
    λ e. (hash, has, ground arith, ground arith, ground arith),
    λ (hash', e, dead, on, m). ground arith,
  )
]
