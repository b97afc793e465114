-- ===== src/Gateway/Sign/Server.antt =====
-- internal/gateway/signhttp.go: NewSignServer, Handler and handleConfig.
use kubepark.Prelude.{Option, none, some, [], ◌∷◌, if◌then◌else◌, Exec, pure, ◌>>=◌}
use kubepark.Prelude.Text.{Text, codes, ◌==◌}
use kubepark.Gateway.Sign.{Signer, TokenVerifier}
use kubepark.Gateway.Cookie.Start.{Oidc, default_principal_claim}

pub record OidcConfig : Type 0 where
  pub issuer : Text
  pub client_id : Text
  pub principal_claim : Text
  pub base_domain : Text
  pub gateway_ssh_addr : Text

pub record SignServer : Type 0 where
  pub signer : Signer
  pub oidc_config : OidcConfig
  pub verifier : Option TokenVerifier

-- The JSON of an answer to a client; its fields are those of OidcConfig.
abbrev pub ConfigResponse : Type 0
ConfigResponse = OidcConfig

-- `verifier_for` is what the Verifier of an issuer's provider does for a client, with the claim that is
-- read from a verified token.
module _ {W : Type 0} (oidc : Oidc W)
    (verifier_for : (issuer client_id claim : Text) → TokenVerifier) where
  abbrev with_defaults : OidcConfig → OidcConfig
  with_defaults cfg = record cfg { principal_claim = default_principal_claim cfg.principal_claim }

  abbrev with_issuer : Signer → OidcConfig → Text → Exec W SignServer
  with_issuer signer cfg [] = pure (record { signer = signer; oidc_config = cfg; verifier = none })
  with_issuer signer cfg (c ∷ cs) = do
    provider ← oidc.discover (c ∷ cs)
    pure (record {
      signer = signer;
      oidc_config = cfg;
      verifier = some (verifier_for (c ∷ cs) cfg.client_id cfg.principal_claim);
    })

  unfoldable pub new_sign_server : Signer → OidcConfig → Exec W SignServer
  unfolding ◌>>=◌ pure
  new_sign_server signer cfg = with_issuer signer (with_defaults cfg) cfg.issuer

abbrev pub handle_config : SignServer → ConfigResponse
handle_config s = s.oidc_config

-- The two patterns of the mux.
pub data Endpoint : Type 0 where
  configures signs unknown : Endpoint

unfoldable pub endpoint_of : Text → Endpoint
unfolding ◌==◌
endpoint_of path =
    if path == codes "/v1/config"
    then configures
    else if path == codes "/v1/sign"
    then signs
    else unknown
