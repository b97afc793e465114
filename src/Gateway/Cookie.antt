-- ===== src/Gateway/Cookie.antt =====
-- internal/gateway/cookieauth.go: the signed session cookie of the browser.
pub mod Signed
pub mod Start
use kubepark.Prelude.{
  ℕ, Bool, true, false, Option, none, some, List, [], ◌∷◌, ◌++◌, if◌then◌else◌, ltb, Result, ok,
  err,
}
use kubepark.Prelude.Text.{Text, codes, ◌==◌, cut}

pub record SessionClaims : Type 0 where
  pub principal : Text
  pub groups : List Text
  pub expiry : ℕ  -- seconds since 1970

-- encoding/json, base64.RawURLEncoding and crypto/hmac with crypto/sha256
pub record Codec : Type 0 where
  pub marshal : SessionClaims → Text
  pub unmarshal : Text → Option SessionClaims
  pub base64_encode : Text → Text
  pub base64_decode : Text → Option Text
  pub hmac : (key message : Text) → Text

module _ (codec : Codec) (hmac_key : Text) where
  abbrev pub signature_of : Text → Text
  signature_of b = codec.base64_encode (codec.hmac hmac_key b)

  unfoldable pub sign_cookie : SessionClaims → Text
  sign_cookie claims =
      let b = codec.base64_encode (codec.marshal claims) in b ++ (codes "." ++ signature_of b)

  abbrev read_payload : Option Text → Option SessionClaims
  read_payload none = none
  read_payload (some payload) = codec.unmarshal payload

  abbrev verify_parts : Option (Text × Text) → Option SessionClaims
  verify_parts none = none
  verify_parts (some (b, sig)) =
      if sig == signature_of b then read_payload (codec.base64_decode b) else none

  unfoldable pub verify_cookie : Text → Option SessionClaims
  verify_cookie value = verify_parts (cut (codes ".") value)

  abbrev if_unexpired : ℕ → Option SessionClaims → Option SessionClaims
  if_unexpired now none = none
  if_unexpired now (some claims) = if ltb claims.expiry now then none else some claims

  -- The cookie of a request, and the time in seconds.
  unfoldable pub identify : Option Text → ℕ → Option SessionClaims
  identify none now = none
  identify (some value) now = if_unexpired now (verify_cookie value)

-- The parts of a callback request and of what the provider answers, in the order in which the
-- handler looks at them.
pub record CallbackRequest : Type 0 where
  pub state_cookie : Option Text
  pub state_param : Text
  pub code : Text

pub record Provider : Type 0 where
  -- The ID token of the code; the inner option is the type assertion.
  pub exchange : Text → Result (Option Text)
  pub verify : Text → Result Text
  -- The principal claim and the groups of a verified token.
  pub identity : Text → Text × List Text

-- An error answers a status with its text.
pub data CallbackResponse : Type 0 where
  status : ℕ → Text → CallbackResponse
  logged_in : (cookie return_to : Text) → CallbackResponse

abbrev or_root : Text → Text
or_root [] = codes "/"
or_root (c ∷ cs) = c ∷ cs

abbrev around_bar : Text → Option (Text × Text) → Text × Text
around_bar all none = (all, [])
around_bar all (some (before, after)) = (before, after)

module _ (codec : Codec) (hmac_key : Text) (provider : Provider) (expiry : ℕ) where
  abbrev finish_login : Text → Text × List Text → CallbackResponse
  finish_login return_to ([], groups) = status 400 (codes "no principal claim")
  finish_login return_to (c ∷ cs, groups) =
      logged_in
        (sign_cookie codec hmac_key
          (record { principal = c ∷ cs; groups = groups; expiry = expiry }))
        (or_root return_to)

  abbrev with_token : Text → Result Text → CallbackResponse
  with_token return_to (err _) = status 401 (codes "invalid id_token")
  with_token return_to (ok token) = finish_login return_to (provider.identity token)

  abbrev with_exchange : Text → Result (Option Text) → CallbackResponse
  with_exchange return_to (err _) = status 502 (codes "token exchange failed")
  with_exchange return_to (ok none) = status 502 (codes "no id_token")
  with_exchange return_to (ok (some raw)) = with_token return_to (provider.verify raw)

  abbrev check_state : CallbackRequest → Text × Text → CallbackResponse
  check_state req (state, return_to) =
      if state == req.state_param
      then with_exchange return_to (provider.exchange req.code)
      else status 400 (codes "state mismatch")

  unfoldable pub callback : CallbackRequest → CallbackResponse
  callback req = elim req.state_cookie [
    | none ↦ status 400 (codes "missing state")
    | some raw ↦ check_state req (around_bar raw (cut (codes "|") raw))
  ]
