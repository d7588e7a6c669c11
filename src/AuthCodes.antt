-- ===== src/AuthCodes.antt =====
-- rauthy-models/src/entity/auth_codes.rs and `grant_type_code` in rauthy-service/src/auth.rs: how a client
-- redeems an authorization code for tokens. Building a token set, base64, SHA256 and the lookup of a
-- client, which may fetch the document of an ephemeral one, are parameters.
pub mod Credentials
pub mod Redeem
pub mod Tests
use rauthy.Base.{
  ℕ, ◌+◌, Bool, true, false, not, Option, none, some, List, [], ◌∷◌, ltb, is_some, unwrap_or, Str,
  codes, str_eq, opt_str_eq, split_once, if◌then◌else◌,
}
use rauthy.Base.Table.{Table, get, put, del}
use rauthy.ErrorResponse.{
  Result, ok, err, ◌>>=◌, ◌>>◌, ensure, ok_or, map_err, bad_request, unauthorized, not_found,
  session_expired, internal,
}
use rauthy.Users.{User}
use rauthy.Sessions.{Session, auth, validate_user_expiry}
use rauthy.Sessions.Store
use rauthy.Clients
use rauthy.Clients.{Client, ListenScheme, validate_origin, validate_flow, is_dynamic}
use rauthy.Clients.Store.{ClientDyn}
use rauthy.Clients.Store.Dynamic.{update_used}
use rauthy.Dpop
use rauthy.Dpop.{DpopNonce, DpopProof, opt_validated_from, jwk_fingerprint}

pub record AuthCode : Type 0 where
  pub id : Str
  pub exp : ℕ
  pub client_id : Str
  pub user_id : Str
  pub session_id : Option Str
  pub challenge : Option Str
  pub challenge_method : Option Str
  pub nonce : Option Str
  pub scopes : List Str

unfoldable pub delete : AuthCode → Table AuthCode → Table AuthCode
delete code codes = del code.id codes

unfoldable pub find : Str → Table AuthCode → Option AuthCode
find id codes = get id codes

unfoldable pub save : AuthCode → Table AuthCode → Table AuthCode
save code codes = put code.id code codes

-- `AuthCode::new`; `id` is random.
unfoldable pub new :
    Str
    → ℕ
    → Str
    → Str
    → Option Str
    → Option Str
    → Option Str
    → Option Str
    → List Str
    → ℕ
    → AuthCode
new id now user_id client_id session_id challenge challenge_method nonce scopes lifetime_secs =
    record {
      id = id;
      exp = now + lifetime_secs;
      client_id = client_id;
      user_id = user_id;
      session_id = session_id;
      challenge = challenge;
      challenge_method = challenge_method;
      nonce = nonce;
      scopes = scopes;
    }

pub record Config : Type 0 where
  pub dpop : Dpop.Config
  pub proxy_mode : Bool
  pub listen_scheme : ListenScheme
  pub public_url : Str
  pub base64_decode : Str → Result Str
  pub decrypt : Str → Result Str
  -- `base64_url_encode` of the SHA256 digest.
  pub sha256_base64 : Str → Str
  -- `Client::find_maybe_ephemeral`
  pub find_client : Str → Result Client
  pub from_user : User → Client → Option Str → Option Str → List Str → Result Str

-- A `TokenRequest` with the headers that the grant reads.
pub record TokenRequest : Type 0 where
  pub code : Option Str
  pub client_id : Option Str
  pub client_secret : Option Str
  pub code_verifier : Option Str
  pub authorization : Option Str
  pub origin : Option Str
  pub dpop : Option Str

-- The database and the caches that the grant works on. Users are read from the table, past their cache.
pub record World : Type 0 where
  pub users : Table User
  pub sessions : Store.Store
  pub codes : Table AuthCode
  pub nonces : Table DpopNonce
  pub clients_dyn : Table ClientDyn

pub record TokenAnswer : Type 0 where
  pub token_set : Str
  pub dpop_nonce : Option Str
  pub allow_origin : Option Str

-- `try_get_client_id_secret` (rauthy-models/src/request.rs)
unfoldable pub try_get_client_id_secret : Config → TokenRequest → Result (Str × Option Str)
try_get_client_id_secret cfg req = elim req.authorization [
  | some header ↦ do
    let (_, b64) = unwrap_or (split_once b' ' header) (codes "", codes "")
    decoded ← cfg.base64_decode b64
    (client_id, client_secret) ← ok_or (split_once b':' decoded) bad_request
    ok (client_id, some client_secret)
  | none ↦ ok (unwrap_or req.client_id (codes ""), req.client_secret)
]

-- The check of the secret, of a confidential client only.
unfoldable pub check_secret : Config → Client → Option Str → Result (Unit {0})
check_secret cfg client client_secret = elim client.confidential [
  | true ↦ do
    secret ← ok_or client_secret bad_request
    Clients.validate_secret cfg.decrypt client secret
  | false ↦ ok tt
]

-- The client's checks: its id, the client, and the origin to allow.
unfoldable pub check_client : Config → TokenRequest → Result (Str × (Client × Option Str))
unfolding try_get_client_id_secret check_secret
check_client cfg req = do
  (client_id, client_secret) ← try_get_client_id_secret cfg req
  client ← map_err (cfg.find_client client_id) not_found
  origin ← validate_origin cfg.proxy_mode client req.origin cfg.listen_scheme cfg.public_url
  check_secret cfg client client_secret
  validate_flow client (codes "authorization_code")
  ok (client_id, (client, origin))

-- The check of the `code_verifier` (PKCE). Where the source unwraps a challenge method that is none stands
-- an internal error; a login stores a challenge with its method or neither.
unfoldable pub check_verifier : Config → AuthCode → Option Str → Result (Unit {0})
check_verifier cfg code code_verifier = elim code.challenge [
  | none ↦ ok tt
  | some challenge ↦ do
    verifier ← ok_or code_verifier bad_request
    method ← ok_or code.challenge_method internal
    if str_eq method (codes "plain")
        then ensure (str_eq challenge verifier) unauthorized
        else ensure (str_eq challenge (cfg.sha256_base64 verifier)) unauthorized
]

-- The checks of the code itself.
unfoldable pub check_code : Config → AuthCode → Str → Option Str → ℕ → Result (Unit {0})
unfolding check_verifier
check_code cfg code client_id code_verifier now = do
  ensure (str_eq code.client_id client_id) unauthorized
  ensure (not (ltb code.exp now)) session_expired
  check_verifier cfg code code_verifier

-- The code, its user, and the tokens for them.
unfoldable pub tokens_for :
    Config
    → Str
    → Str
    → Client
    → Option Str
    → Option Str
    → ℕ
    → World
    → Result (AuthCode × (User × Str))
unfolding find check_code
tokens_for cfg idx client_id client fingerprint code_verifier now w = do
  code ← ok_or (find idx w.codes) unauthorized
  check_code cfg code client_id code_verifier now
  user ← ok_or (get code.user_id w.users) not_found
  ts ← cfg.from_user user client fingerprint code.nonce code.scopes
  ok (code, (user, ts))

-- The session of the login, updated for the user. The source checks the user's expiry twice.
unfoldable pub updated_session : Session → ℕ → User → Result Session
updated_session s now user = do
  s' ← validate_user_expiry (record s { last_seen = now; state = auth }) now user
  s'' ← validate_user_expiry s' now user
  ok (record s'' { user_id = some user.id; roles = some user.roles; groups = user.groups })

-- The update of the session of a code: an error ends the grant, and where the user has expired the code
-- is deleted before.
unfoldable pub update_session : ℕ → AuthCode → User → World → Result (Unit {0}) × World
unfolding updated_session delete
update_session now code user w = elim code.session_id [
  | none ↦ (ok tt, w)
  | some sid ↦
      let (found, st) = Store.find sid w.sessions in
      let w' : World = record w { sessions = st } in
      elim found [
        | err e ↦ (err e, w')
        | ok s ↦ elim (updated_session s now user) [
          | err e ↦ (err e, record w' { codes = delete code w.codes })
          | ok s' ↦ (ok tt, record w' { sessions = Store.save s' st })
        ]
      ]
]

-- The end of the grant: the code is deleted, and a dynamic client has been used.
unfoldable pub finish : ℕ → AuthCode → Client → World → World
unfolding delete update_used
finish now code client w = record w {
  codes = delete code w.codes;
  clients_dyn =
      if is_dynamic client then update_used now client.id w.clients_dyn else w.clients_dyn;
}

-- What follows the checks of the client and of the DPoP proof.
unfoldable pub redeem :
    Config → Str → Str → Client → Option Str → Option Str → ℕ → World → Result Str × World
unfolding tokens_for update_session finish
redeem cfg idx client_id client fingerprint code_verifier now w =
    elim (tokens_for cfg idx client_id client fingerprint code_verifier now w) [
      | err e ↦ (err e, w)
      | ok (code, (user, ts)) ↦
          let (updated, w') = update_session now code user w in
          elim updated [ err e ↦ (err e, w') | ok _ ↦ (ok ts, finish now code client w') ]
    ]

-- The fingerprint of the proof's key, and its nonce.
unfoldable pub proof_parts : Config → Result (Option DpopProof) → Result (Option Str × Option Str)
proof_parts cfg found = do
  proof ← found
  elim proof [
    | none ↦ ok (none, none)
    | some p ↦ do fp ← jwk_fingerprint cfg.dpop p; ok (some fp, p.claims.nonce)
  ]

-- `grant_type_code`; `random` is the nonce that may be made.
unfoldable pub grant_type_code :
    Config → TokenRequest → Str → ℕ → World → Result TokenAnswer × World
unfolding check_client proof_parts redeem
grant_type_code cfg req random now w = elim req.code [
  | none ↦ (err bad_request, w)
  | some idx ↦ elim (check_client cfg req) [
    | err e ↦ (err e, w)
    | ok (client_id, (client, origin)) ↦
        let (proof, nonces) = opt_validated_from cfg.dpop req.dpop origin random now w.nonces in
        let w' : World = record w { nonces = nonces } in
        elim (proof_parts cfg proof) [
          | err e ↦ (err e, w')
          | ok (fingerprint, nonce) ↦
              let (ts, w'') =
                redeem cfg idx client_id client fingerprint req.code_verifier now w' in
              (
                elim ts [
                  | err e ↦ err e
                  | ok t ↦ ok (record { token_set = t; dpop_nonce = nonce; allow_origin = origin })
                ],
                w'',
              )
        ]
  ]
]
