-- ===== src/Authorize/Redeemed.antt =====
-- A code that a login has created, at the token endpoint.
use std.Path.{subst}
use rauthy.Base.{ℕ, ◌+◌, ◌⊎◌, codes, ◌≤◌, ◌≡◌, sym, ap, ◌∙◌, Option, some, Str}
use rauthy.Base.Table.{get}
use rauthy.ErrorResponse.{ok}
use rauthy.Users.{User}
use rauthy.Sessions.{Session}
use rauthy.Clients.{Client}
use rauthy.AuthCodes
use rauthy.AuthCodes.{AuthCode, TokenRequest, TokenAnswer, grant_type_code}
use rauthy.AuthCodes.Redeem.{IsRedeemable, grant_type_code-redeems}
use rauthy.Authorize.{granted, Config, LoginRequest, World, Fresh, AuthStep, authorize}
use rauthy.Authorize.Code.{IsCodeOf, lifetime_for}
use rauthy.AuthCodes.Credentials.{IsClient}
use rauthy.Authorize.Sound.{IsLogin, authorize_sound}

-- What a token request has shown of the login whose code it redeems: it comes from the client of the login,
-- in the lifetime of the code, and its verifier is the challenge of the login, or hashes to it.
pub record Redeems (tokens : AuthCodes.Config) (treq : TokenRequest) (later : ℕ) (cfg : Config)
    (req : LoginRequest) (now : ℕ) (u : User) (c : Client) : Type 0 where
  pub same_client : (found : Client × Option Str) × IsClient tokens treq c.id found.0 found.1
  pub alive : later ≤ now + lifetime_for cfg c u
  pub verifier :
      (challenge : Str)
      → req.code_challenge ≡ some challenge
      → (v : Str) × (treq.code_verifier ≡ some v)
        × (((req.code_challenge_method ≡ some (codes "plain")) × (challenge ≡ v))
            ⊎ (challenge ≡ tokens.sha256_base64 v))

some-injective {ℓ} : {A : Type ℓ} {a b : A} → Option.some a ≡ some b → a ≡ b
some-injective e = cc (e)

redeemed_login :
    (tokens : AuthCodes.Config) (treq : TokenRequest) (later : ℕ) (cfg : Config)
    (req : LoginRequest) (session : Session) (now : ℕ) (u : User) (c : Client) (w : AuthCodes.World)
    (id : Str) (code : AuthCode)
    → IsRedeemable tokens treq later w id code
    → IsCodeOf cfg req session u c id now code
    → Redeems tokens treq later cfg req now u c
redeemed_login tokens treq later cfg req session now u c w id code r made = record {
  same_client =
      subst (λ i. (found : Client × Option Str) × IsClient tokens treq i found.0 found.1)
        made.of_client r.client;
  alive = subst (λ n. later ≤ n) made.ends r.alive;
  verifier = λ challenge asked.
      let (v, given, fits) = r.verifier challenge (made.challenge ∙ asked) in
      (
        v,
        given,
        subst
            (λ (m : Option Str).
              ((m ≡ some (codes "plain")) × (challenge ≡ v)) ⊎ (challenge ≡ tokens.sha256_base64 v))
            made.challenge_method fits,
      );
}

-- Where the cache of codes is as a granted login has left it: a request with that login's code gets
-- tokens only if it names the client of the login and has the secret that is stored for it, if it is
-- confidential; if it comes no later than the client's lifetime of a code after the login, with the
-- time for a second factor on top if the user has one; and if its verifier is the challenge that the
-- login gave, or hashes to it, where it gave one.
pub authorize-redeemed :
    (cfg : Config) (req : LoginRequest) (session : Session) (fresh : Fresh) (now : ℕ) (w : World)
    (step : AuthStep) (tokens : AuthCodes.Config) (treq : TokenRequest) (random : Str) (later : ℕ)
    (w2 : AuthCodes.World) (answer : TokenAnswer)
    → (authorize cfg req session fresh now w).0 ≡ granted step
    → w2.codes ≡ (authorize cfg req session fresh now w).1.codes
    → treq.code ≡ some fresh.code_id
    → (grant_type_code tokens treq random later w2).0 ≡ ok answer
    → (l : IsLogin cfg req session fresh now w (authorize cfg req session fresh now w)) × Redeems
        tokens treq later cfg req now l.user' l.client
authorize-redeemed cfg req session fresh now w step tokens treq random later w2 answer h same asked
      done =
    let l = authorize_sound cfg req session fresh now w step h in
    let (idx, code, asked', r, _) =
      grant_type_code-redeems tokens treq random later w2 answer done in
    let same_idx : idx ≡ fresh.code_id = some-injective (sym asked' ∙ asked) in
    let same_code : code ≡ l.code =
      some-injective (
        sym r.cached ∙ ap (λ i. get i w2.codes) same_idx ∙ ap (get fresh.code_id) same ∙ l.saved) in
    let r' = subst (λ i. IsRedeemable tokens treq later w2 i code) same_idx r in
    (
      l,
      redeemed_login tokens treq later cfg req session now l.user' l.client w2 fresh.code_id l.code
          (subst (IsRedeemable tokens treq later w2 fresh.code_id) same_code r') l.made,
    )
