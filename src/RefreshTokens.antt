-- ===== src/RefreshTokens.antt =====
-- rauthy-models/src/entity/refresh_tokens.rs and `validate_refresh_token` in rauthy-service/src/auth.rs: the
-- table of refresh tokens, and how one is exchanged for new tokens. The check of the token as a JWT, with
-- its key and issuer, and building the new tokens are parameters.
pub mod Rotation
pub mod Tests
use rauthy.Base.{
  ℕ, ◌+◌, ◌-◌, Bool, true, false, ◌&&◌, Option, none, some, List, [], ◌∷◌, length, ltb, drop, Str,
  str_eq, if◌then◌else◌,
}
use rauthy.Base.Table.{Table, get, put, del}
use rauthy.ErrorResponse.{
  Result, ok, err, ◌>>=◌, ◌>>◌, ensure, ok_or, bad_request, forbidden, not_found,
}
use rauthy.Users.{User, check_enabled, check_expired}
use rauthy.Clients.{Client, ListenScheme, validate_origin}
use rauthy.Dpop
use rauthy.Dpop.{DpopNonce, DpopProof, opt_validated_from, jwk_fingerprint}

pub record RefreshToken : Type 0 where
  pub id : Str
  pub user_id : Str
  pub nbf : ℕ
  pub exp : ℕ
  pub scope : Option Str
  pub is_mfa : Bool

-- `RefreshToken::save`, the upsert of the SQLite build, and `RefreshToken::create`.
unfoldable pub save : RefreshToken → Table RefreshToken → Table RefreshToken
save rt tokens = put rt.id rt tokens

unfoldable pub create :
    Str → Str → ℕ → ℕ → Option Str → Bool → Table RefreshToken → RefreshToken × Table RefreshToken
unfolding save
create id user_id nbf exp scope is_mfa tokens =
    let rt : RefreshToken = record {
      id = id;
      user_id = user_id;
      nbf = nbf;
      exp = exp;
      scope = scope;
      is_mfa = is_mfa;
    } in
    (rt, save rt tokens)

unfoldable pub delete : RefreshToken → Table RefreshToken → Table RefreshToken
delete rt tokens = del rt.id tokens

unfoldable pub find : Str → Table RefreshToken → Result RefreshToken
find id tokens = ok_or (get id tokens) not_found

-- `UPDATE refresh_tokens SET exp = now WHERE exp > now`, of the rows that the test picks.
unfoldable pub expire_where : (RefreshToken → Bool) → ℕ → Table RefreshToken → Table RefreshToken
expire_where test now [] = []
expire_where test now ((k, rt) ∷ rows) =
    let rest = expire_where test now rows in
    if ltb now rt.exp && test rt then (k, record rt { exp = now }) ∷ rest else (k, rt) ∷ rest

unfoldable pub invalidate_all : ℕ → Table RefreshToken → Table RefreshToken
unfolding expire_where
invalidate_all now tokens = expire_where (λ _. true) now tokens

unfoldable pub invalidate_for_user : Str → ℕ → Table RefreshToken → Table RefreshToken
unfolding expire_where
invalidate_for_user user_id now tokens = expire_where (λ rt. str_eq rt.user_id user_id) now tokens

-- `RefreshToken::invalidate_all_for_user`, which deletes the rows.
unfoldable pub invalidate_all_for_user : Str → Table RefreshToken → Table RefreshToken
invalidate_all_for_user user_id [] = []
invalidate_all_for_user user_id ((k, rt) ∷ rows) =
    let rest = invalidate_all_for_user user_id rows in
    if str_eq rt.user_id user_id then rest else (k, rt) ∷ rest

-- The claims of a refresh token that the check of the JWT gives; `cnf` is the fingerprint `jkt`.
pub record RefreshClaims : Type 0 where
  pub is_refresh : Bool
  pub uid : Str
  pub azp : Str
  pub cnf : Option Str

pub record Config : Type 0 where
  pub proxy_mode : Bool
  pub listen_scheme : ListenScheme
  pub public_url : Str
  pub dpop : Dpop.Config
  pub refresh_grace_time : ℕ
  pub validate_jwt : Str → Result RefreshClaims
  pub from_user : User → Client → Option Str → Option Str → Result Str

pub record World : Type 0 where
  pub users : Table User
  pub clients : Table Client
  pub tokens : Table RefreshToken
  pub nonces : Table DpopNonce

-- The headers `Origin` and `DPoP` of the request.
pub record RefreshRequest : Type 0 where
  pub origin : Option Str
  pub dpop : Option Str

-- The checks of the token's claims and of the client.
unfoldable pub check_claims :
    Config
    → Option Client
    → Str
    → RefreshRequest
    → Table Client
    → Result (RefreshClaims × (Client × Option Str))
check_claims cfg client_opt token req clients = do
  claims ← cfg.validate_jwt token
  ensure claims.is_refresh bad_request
  client ← elim client_opt [ some c ↦ ok c | none ↦ ok_or (get claims.azp clients) not_found ]
  ensure (str_eq client.id claims.azp) bad_request
  origin ← validate_origin cfg.proxy_mode client req.origin cfg.listen_scheme cfg.public_url
  ok (claims, (client, origin))

-- A token that is bound to a key needs a proof of that key: its fingerprint, and the proof's nonce.
unfoldable pub check_binding :
    Config → Str → Result (Option DpopProof) → Result (Option Str × Option Str)
check_binding cfg jkt found = do
  proof ← found
  p ← ok_or proof forbidden
  fingerprint ← jwk_fingerprint cfg.dpop p
  ensure (str_eq fingerprint jkt) forbidden
  ok (some fingerprint, p.claims.nonce)

-- The user of the token, checked, and with the login noted.
unfoldable pub refreshing_user : Str → ℕ → Table User → Result User
refreshing_user uid now users = do
  user ← ok_or (get uid users) not_found
  check_enabled user
  check_expired user now
  ok (record user { last_login = some now })

-- The token expires after the grace time, unless it does so earlier anyway.
unfoldable pub shorten : ℕ → ℕ → RefreshToken → Table RefreshToken → Table RefreshToken
unfolding save
shorten grace now rt tokens =
    if ltb (now + grace + 1) rt.exp then save (record rt { exp = now + grace }) tokens else tokens

-- The part of `validate_refresh_token` on the row of the token.
unfoldable pub use_token : Config → ℕ → Str → Client → Option Str → Str → World → Result Str × World
unfolding find invalidate_all_for_user refreshing_user shorten
use_token cfg now uid client fingerprint id w = elim (find id w.tokens) [
  | err e ↦ (err e, w)
  | ok rt ↦ elim (ltb rt.exp now) [
    | true ↦ (err bad_request, record w { tokens = invalidate_all_for_user rt.user_id w.tokens })
    | false ↦ elim (refreshing_user uid now w.users) [
      | err e ↦ (err e, w)
      | ok user ↦ (
        cfg.from_user user client fingerprint rt.scope,
        record w {
          users = put uid user w.users;
          tokens = shorten cfg.refresh_grace_time now rt w.tokens;
        },
      )
    ]
  ]
]

-- The id of a token's row, the end of its text.
abbrev validation_str : Str → Str
validation_str token = drop (length token - 49) token

-- `validate_refresh_token`: the token set with the nonce of the proof.
unfoldable pub validate_refresh_token :
    Config
    → Option Client
    → Str
    → RefreshRequest
    → Str
    → ℕ
    → World
    → Result (Str × Option Str) × World
unfolding check_claims check_binding use_token
validate_refresh_token cfg client_opt token req random now w =
    elim (check_claims cfg client_opt token req w.clients) [
      | err e ↦ (err e, w)
      | ok (claims, (client, origin)) ↦ elim claims.cnf [
        | none ↦
            let (ts, w') = use_token cfg now claims.uid client none (validation_str token) w in
            (do t ← ts; ok (t, none), w')
        | some jkt ↦
            let (proof, nonces) = opt_validated_from cfg.dpop req.dpop origin random now w.nonces in
            let w0 : World = record w { nonces = nonces } in
            elim (check_binding cfg jkt proof) [
              | err e ↦ (err e, w0)
              | ok (fingerprint, value) ↦
                  let (ts, w') =
                    use_token cfg now claims.uid client fingerprint (validation_str token) w0 in
                  (do t ← ts; ok (t, value), w')
            ]
      ]
    ]
