-- ===== src/Dpop/Nonces.antt =====
-- What the nonces of DPoP proofs are worth.
use rauthy.Base.{
  ℕ, ◌+◌, ◌≤◌, ◌≡◌, refl, inl, inr, Option, some, arith, ltb, Str, codes, str_eq_iff, Option-cases,
  Bool-cases,
}
use rauthy.Base.Table.{Table, get, put, get-put}
use rauthy.ErrorResponse.{ok}
use rauthy.Dpop.{
  Config, DpopNonce, DpopProof, new_value, is_valid, get_latest, validate_nonce, accept_nonce,
}

-- The last test on a DPoP proof accepts any nonce, be it in the cache or not, and leaves the cache as
-- it is.
pub accept_nonce_any :
    (cfg : Config) (origin : Option Str) (proof : DpopProof) (random nonce : Str) (now : ℕ)
    (cache : Table DpopNonce)
    → proof.claims.nonce ≡ some nonce
    → accept_nonce cfg origin proof random now cache ≡ (ok (some proof), cache)
unfolding accept_nonce validate_nonce is_valid
accept_nonce_any cfg origin proof random nonce now cache given = ground arith

fresh_nonce :
    (cfg : Config) (random : Str) (now : ℕ) (cache : Table DpopNonce)
    → (nonce : DpopNonce) × (get (codes "latest") (new_value cfg random now cache).1 ≡ some nonce)
      × ((new_value cfg random now cache).0 ≡ nonce.value)
      × (now ≤ nonce.exp + 15)
unfolding new_value
fresh_nonce cfg random now cache =
    let nonce : DpopNonce = record { exp = now + cfg.nonce_exp; value = random } in
    (
      nonce,
      ground (
        arith,
        get-put (codes "latest") random nonce (put (codes "latest") nonce cache),
        get-put (codes "latest") (codes "latest") nonce cache,
        str_eq_iff (codes "latest") (codes "latest"),
      ),
      refl,
      ground arith,
    )

-- Of what `latest` stands for in the cache: the nonce that `get_latest` gives is in the cache after it,
-- and its lifetime ended at most 15 seconds ago.
pub get_latest_alive :
    (cfg : Config) (random : Str) (now : ℕ) (cache : Table DpopNonce)
    → (nonce : DpopNonce) × (get (codes "latest") (get_latest cfg random now cache).1 ≡ some nonce)
      × ((get_latest cfg random now cache).0 ≡ nonce.value)
      × (now ≤ nonce.exp + 15)
unfolding get_latest new_value
get_latest_alive cfg random now cache = elim (Option-cases (get (codes "latest") cache)) [
  | inl empty ↦ rw (empty, get_latest) (fresh_nonce cfg random now cache)
  | inr (nonce, here) ↦ elim (Bool-cases (ltb (nonce.exp + 15) now)) [
    | inl old ↦ rw (here, get_latest, old) (fresh_nonce cfg random now cache)
    | inr alive ↦ rw (here, get_latest, alive) (nonce, here, refl, ground arith)
  ]
]
