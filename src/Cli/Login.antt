-- ===== src/Cli/Login.antt =====
-- cmd/kubepark/login.go: a certificate for a login at the provider.
pub mod Exchanged
use kubepark.Prelude.{
  ℕ, Option, none, some, [], ◌∷◌, ◌++◌, eqb, if◌then◌else◌, Exec, Result, ok, err, raise, other,
  pure, lift, ◌>>=◌, ◌>>◌,
}
use kubepark.Prelude.Text.{Text, codes, ◌==◌}
use kubepark.Cluster.Os.{Os}
use kubepark.Cluster.Ssh.{Ssh}
use kubepark.Cli.Keys.{Paths, ensure_key_pair, cert_path}

pub record GatewayConfig : Type 0 where
  pub issuer : Text
  pub client_id : Text
  pub principal_claim : Text

-- The two parameters of a request to the callback.
pub record CallbackRequest : Type 0 where
  pub state : Text
  pub code : Text

-- What ends the wait for the callback.
pub data Event : Type 0 where
  cancelled timed_out : Event
  called_back : CallbackRequest → Event

-- net/http with encoding/json, go-oidc and oauth2.
pub record Web (W : Type 0) : Type 0 where
  -- GET, and the decoded body
  pub get_config : (url : Text) → Exec W GatewayConfig
  -- POST of the public key and the ID token, with the status and the body of the answer
  pub post_sign : (url public id_token : Text) → Exec W (ℕ × Text)
  -- the certificate and the principal of an answer's body
  pub decode_signed : Text → Result (Text × Text)
  pub discover : Text → Exec W Unit
  -- net.Listen at a free local port
  pub listen : Exec W Text
  -- 16 bytes of crypto/rand in base64.RawURLEncoding
  pub random_string : W → Text × W
  -- the first event of the select
  pub wait : W → Event × W
  -- the ID token of a code, if the answer has one
  pub exchange : (redirect_url client_id code : Text) → Exec W (Option Text)

module _ {W : Type 0} (web : Web W) where
  abbrev pub redirect_url : Text → Text
  redirect_url address = codes "http://" ++ (address ++ codes "/callback")

  abbrev token_of : Option Text → Exec W Text
  token_of none = raise (other (codes "no id_token returned"))
  token_of (some token) = pure token

  abbrev exchanged : (address client_id code : Text) → Exec W Text
  exchanged address client_id code = do
    token ← web.exchange (redirect_url address) client_id code
    token_of token

  -- What the handler of the callback sends to the channel.
  abbrev pub handle_callback : (address client_id state : Text) → CallbackRequest → Exec W Text
  handle_callback address client_id state req =
      if req.state == state
      then exchanged address client_id req.code
      else raise (other (codes "state mismatch"))

  abbrev pub after_event : (address client_id state : Text) → Event → Exec W Text
  after_event address client_id state cancelled = raise (other (codes "context done"))
  after_event address client_id state timed_out =
      raise (other (codes "timed out waiting for OIDC callback"))
  after_event address client_id state (called_back req) =
      handle_callback address client_id state req

  abbrev pub fresh_state : Exec W Text
  fresh_state w = let (state, w') = web.random_string w in (ok state, w')

  abbrev pub next_event : Exec W Event
  next_event w = let (event, w') = web.wait w in (ok event, w')

  abbrev pub in_flow : Text → Exec W Text
  in_flow client_id = do
    address ← web.listen
    state ← fresh_state
    event ← next_event
    after_event address client_id state event

  unfoldable pub oidc_auth_code_flow : Text → Exec W Text
  unfolding ◌>>=◌ raise pure ◌==◌
  oidc_auth_code_flow client_id = in_flow client_id

  abbrev pub by_status : ℕ × Text → Exec W (Text × Text)
  by_status (code, body) =
      if eqb code 200
      then lift (web.decode_signed body)
      else raise (other (codes "sign request failed"))

  -- The certificate and the principal.
  unfoldable pub request_cert : (gateway_url public id_token : Text) → Exec W (Text × Text)
  unfolding ◌>>=◌ raise lift
  request_cert gateway_url public id_token = do
    answer ← web.post_sign (gateway_url ++ codes "/v1/sign") public id_token
    by_status answer

  unfoldable pub fetch_gateway_config : Text → Exec W GatewayConfig
  fetch_gateway_config gateway_url = web.get_config (gateway_url ++ codes "/v1/config")

  module _ (os : Os W) (paths : Paths W) (ssh : Ssh W) where
    abbrev pub with_issuer : Text → GatewayConfig → Text → Exec W Unit
    with_issuer gateway_url cfg [] = raise (other (codes "gateway has no OIDC issuer configured"))
    with_issuer gateway_url cfg (c ∷ cs) = do
      provider ← web.discover (c ∷ cs)
      id_token ← oidc_auth_code_flow cfg.client_id
      keys ← ensure_key_pair os paths ssh
      public ← os.read_file keys.1
      answer ← request_cert gateway_url public id_token
      out ← cert_path os paths
      os.write_file out answer.0 0o644

    abbrev pub in_steps : Text → Exec W Unit
    in_steps gateway_url = do
      cfg ← fetch_gateway_config gateway_url
      with_issuer gateway_url cfg cfg.issuer

    unfoldable pub run_login : Text → Exec W Unit
    unfolding ◌>>=◌ raise oidc_auth_code_flow request_cert fetch_gateway_config ensure_key_pair
        cert_path
    run_login gateway_url = in_steps gateway_url

    abbrev for_url : Text → Exec W Unit
    for_url [] = raise (other (codes "--gateway-url is required"))
    for_url (c ∷ cs) = run_login (c ∷ cs)

    unfoldable pub login_command : Text → Exec W Unit
    unfolding run_login raise
    login_command gateway_url = for_url gateway_url
