-- ===== src/Gateway/Sign.antt =====
-- internal/gateway/signer.go and signhttp.go: certificates for verified identities.
pub mod Issue
pub mod Server
use kubepark.Prelude.{
  ℕ, Bool, true, false, Option, none, some, [], ◌∷◌, if◌then◌else◌, Exec, Result, ok, err, pure,
  lift, ◌>>=◌,
}
use kubepark.Prelude.Int.{ℤ, pos, negsuc}
use kubepark.Prelude.Text.{Text, codes}
use kubepark.Api.Time.{Time, Duration, seconds}
use kubepark.Cluster.Ssh.{PrivateKey, Ssh}
use kubepark.SshCa.{sign_user_cert}

pub record Signer : Type 0 where
  pub ca : PrivateKey
  pub ttl : Duration

-- A lifetime that is not positive becomes eight hours.
abbrev pub default_ttl : Duration → Duration
default_ttl (pos ℕ.zero) = seconds 28800
default_ttl (pos (ℕ.suc n)) = pos (ℕ.suc n)
default_ttl (negsuc n) = seconds 28800

unfoldable pub new_signer : {W : Type 0} → Ssh W → Text → Duration → Result Signer
new_signer ssh pem ttl = elim (ssh.parse_private_key pem) [
  | ok ca ↦ ok (record { ca = ca; ttl = default_ttl ttl })
  | err e ↦ err e
]

pub data SignResponse : Type 0 where
  status : ℕ → SignResponse
  signed : (certificate principal : Text) → SignResponse

pub record SignRequest : Type 0 where
  pub is_post : Bool
  -- The body, if it decodes: the public key and the ID token.
  pub body : Option (Text × Text)

-- (*IDTokenVerifier).Verify, and the string claim of a verified token
pub record TokenVerifier : Type 0 where
  pub verify : Text → Result Text
  pub claim : Text → Option Text

abbrev nonempty : Option Text → Option Text
nonempty none = none
nonempty (some []) = none
nonempty (some (c ∷ cs)) = some (c ∷ cs)

unfoldable pub principal_from_claims : TokenVerifier → Text → Option Text
principal_from_claims verifier token = nonempty (verifier.claim token)

module _ {W : Type 0} (ssh : Ssh W) (now : W → Time × W) (signer : Signer) where
  abbrev clock : Exec W Time
  clock w = let (t, w') = now w in (ok t, w')

  unfoldable pub sign : Text → Text → Exec W Text
  unfolding ◌>>=◌ pure lift
  sign pub_authorized principal = do
    key ← lift (ssh.parse_authorized_key pub_authorized)
    t ← clock
    cert ← sign_user_cert ssh signer.ca key principal signer.ttl t
    pure (ssh.marshal_certificate cert)

  abbrev respond : Text → Result Text × W → SignResponse × W
  respond principal (ok cert, w) = (signed cert principal, w)
  respond principal (err _, w) = (status 500, w)

  abbrev for_principal : Text → Option Text → W → SignResponse × W
  for_principal key none w = (status 400, w)
  for_principal key (some principal) w = respond principal (sign key principal w)

  abbrev for_token : TokenVerifier → Text → Result Text → W → SignResponse × W
  for_token verifier key (err _) w = (status 401, w)
  for_token verifier key (ok token) w = for_principal key (principal_from_claims verifier token) w

  abbrev for_body : TokenVerifier → Option (Text × Text) → W → SignResponse × W
  for_body verifier none w = (status 400, w)
  for_body verifier (some (key, token)) w = for_token verifier key (verifier.verify token) w

  abbrev for_post : Option TokenVerifier → Option (Text × Text) → W → SignResponse × W
  for_post none body w = (status 503, w)
  for_post (some verifier) body w = for_body verifier body w

  unfoldable pub handle_sign : Option TokenVerifier → SignRequest → W → SignResponse × W
  handle_sign verifier req w = if req.is_post then for_post verifier req.body w else (status 405, w)
