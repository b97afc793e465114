-- ===== src/Cmd/Gateway.antt =====
-- cmd/gateway.go: what the gateway serves, and its host key.
pub mod Plane
pub mod Key
pub mod Known
use kubepark.Prelude.{
  ℕ, Bool, true, ◌||◌, Option, none, some, [], ◌∷◌, ◌++◌, if◌then◌else◌, Exec, Result, ok, err,
  already_exists, pure, raise, lift, attempt, ◌>>=◌, if_found,
}
use kubepark.Prelude.Text.{Text, codes, ◌==◌}
use kubepark.Api.Time.{Time, Duration}
use kubepark.Api.Meta.{key_of, named}
use kubepark.Api.Core.{Secret}
use kubepark.Cluster.{Client}
use kubepark.Cluster.Ssh.{Ssh}
use kubepark.SshCa.{KeyPair, generate_key_pair}
use kubepark.Controller.HostKey.{entry}
use kubepark.Gateway.Sign.{SignRequest, SignResponse, TokenVerifier, new_signer, handle_sign}
use kubepark.Gateway.Sign.Server.{
  SignServer, ConfigResponse, new_sign_server, handle_config, configures, signs, unknown,
  endpoint_of,
}
use kubepark.Gateway.Cookie.{Codec, SessionClaims, identify}
use kubepark.Gateway.Cookie.Start.{
  CookieAuthenticator, Oidc, new_cookie_authenticator, oidc_callback_path,
}
use kubepark.Gateway.Proxy.{Identity, Authenticator, Response, serve_http}

pub record GatewayOptions : Type 0 where
  pub ssh_addr : Text
  pub http_addr : Text
  pub default_namespace : Text
  pub oidc_issuer : Text
  pub oidc_client_id : Text
  pub oidc_client_secret : Text
  pub principal_claim : Text
  pub base_domain : Text
  pub cert_ttl : Duration

-- The proxy of a base domain, with the authenticator of its OIDC ports.
pub record HttpProxy : Type 0 where
  pub base_domain : Text
  pub auth : Option CookieAuthenticator

pub record HttpHandler : Type 0 where
  pub sign : Option SignServer
  pub proxy : Option HttpProxy

module _ {W : Type 0} (ssh : Ssh W) (oidc : Oidc W)
    (verifier_for : (issuer client_id claim : Text) → TokenVerifier) (opts : GatewayOptions)
    (secret : Secret) where
  abbrev cookie_auth : Text → Exec W (Option CookieAuthenticator)
  cookie_auth [] = pure none
  cookie_auth (c ∷ cs) = do
    auth ←
        new_cookie_authenticator oidc opts.oidc_issuer opts.oidc_client_id opts.oidc_client_secret
          (codes "https://" ++ (c ∷ cs)) opts.principal_claim
          (entry (codes "cookie-hmac") secret.entries) opts.cert_ttl true
    pure (some auth)

  -- The sign server and the authenticator, which both want an issuer.
  abbrev with_issuer : Text → Exec W (Option SignServer × Option CookieAuthenticator)
  with_issuer [] = pure (none, none)
  with_issuer (c ∷ cs) = do
    signer ← lift (new_signer ssh (entry (codes "user-ca.key") secret.entries) opts.cert_ttl)
    server ← new_sign_server oidc verifier_for signer (record {
      issuer = opts.oidc_issuer;
      client_id = opts.oidc_client_id;
      principal_claim = opts.principal_claim;
      base_domain = opts.base_domain;
      gateway_ssh_addr = opts.ssh_addr;
    })
    auth ← cookie_auth opts.base_domain
    pure (some server, auth)

  abbrev proxy_of : Text → Option CookieAuthenticator → Option HttpProxy
  proxy_of [] auth = none
  proxy_of (c ∷ cs) auth = some (record { base_domain = c ∷ cs; auth = auth })

  abbrev handler_of : Option SignServer → Option HttpProxy → Option HttpHandler
  handler_of none none = none
  handler_of (some server) proxy = some (record { sign = some server; proxy = proxy })
  handler_of none (some proxy) = some (record { sign = none; proxy = some proxy })

  unfoldable pub build_http_handler : Exec W (Option HttpHandler)
  unfolding ◌>>=◌ pure lift new_signer new_sign_server new_cookie_authenticator entry
  build_http_handler = do
    made ← with_issuer opts.oidc_issuer
    pure (handler_of made.0 (proxy_of opts.base_domain made.1))

-- A request, with what the handlers read of it.
pub record HttpRequest : Type 0 where
  pub host : Text
  pub path : Text
  -- The session cookie.
  pub session : Option Text
  pub sign_request : SignRequest

pub data HttpResponse : Type 0 where
  config_response : ConfigResponse → HttpResponse
  sign_response : SignResponse → HttpResponse
  proxy_response : Response → HttpResponse
  not_found_page : HttpResponse

abbrev pub identity_of : Option SessionClaims → Option Identity
identity_of none = none
identity_of (some claims) = some (record { principal = claims.principal; groups = claims.groups })

module _ {W : Type 0} (ssh : Ssh W) (api : Client W) (codec : Codec) (parses : Text → ℕ → Bool)
    (now : W → Time × W) (unix_now : ℕ) where
  -- The authenticator of the proxy, for the cookie of this request.
  abbrev authenticator : Option CookieAuthenticator → Option Text → Authenticator
  authenticator none session = none
  authenticator (some auth) session =
      some (λ _. identity_of (identify codec auth.hmac_key session unix_now))

  abbrev by_proxy : HttpRequest → Option HttpProxy → W → HttpResponse × W
  by_proxy req none w = (not_found_page, w)
  by_proxy req (some proxy) w =
      let (answer, w') =
        serve_http parses api (authenticator proxy.auth req.session) proxy.base_domain
          (record { host = req.host; is_callback = req.path == oidc_callback_path }) w in
      (proxy_response answer, w')

  abbrev by_sign_server : HttpRequest → SignServer → W → HttpResponse × W
  by_sign_server req server w = elim (endpoint_of req.path) [
    | configures ↦ (config_response (handle_config server), w)
    | signs ↦
        let (answer, w') = handle_sign ssh now server.signer server.verifier req.sign_request w in
        (sign_response answer, w')
    | unknown ↦ (not_found_page, w)
  ]

  abbrev is_sign_path : Text → Bool
  is_sign_path path = path == codes "/v1/sign" || path == codes "/v1/config"

  abbrev by_path : HttpRequest → Option SignServer → Option HttpProxy → W → HttpResponse × W
  by_path req none proxy w = by_proxy req proxy w
  by_path req (some server) proxy w =
      if is_sign_path req.path then by_sign_server req server w else by_proxy req proxy w

  unfoldable pub serve : HttpHandler → HttpRequest → W → HttpResponse × W
  unfolding serve_http handle_sign endpoint_of identify ◌==◌
  serve handler req w = by_path req handler.sign handler.proxy w

abbrev pub host_key_name : Text
host_key_name = codes "kubepark-gateway-hostkey"

abbrev pub host_key_entry : Text
host_key_entry = codes "ssh_host_ed25519_key"

abbrev pub host_key_secret : Text → KeyPair → Secret
host_key_secret namespace key = record {
  meta = named namespace host_key_name [];
  entries =
      (host_key_entry, key.private_pem)
      ∷ (codes "ssh_host_ed25519_key.pub", key.public_authorized)
      ∷ [];
}

module _ {W : Type 0} (ssh : Ssh W) (api : Client W) where
  abbrev stored_key : Secret → Text
  stored_key secret = entry host_key_entry secret.entries

  -- The outcome of creating the secret: a lost race reads the winner's key.
  abbrev host_key_created : KeyPair → Secret → Result (Unit {0}) → Exec W Text
  host_key_created key secret (ok _) = pure key.private_pem
  host_key_created key secret (err already_exists) = do
    existing ← attempt (api.secrets.get (key_of secret.meta))
    elim existing [ ok winner ↦ pure (stored_key winner) | err _ ↦ raise already_exists ]
  host_key_created key secret (err e) = raise e

  abbrev create_host_key : Text → Exec W Text
  create_host_key namespace = do
    key ← generate_key_pair ssh (codes "kubepark-gateway")
    created ← attempt (api.secrets.create (host_key_secret namespace key))
    host_key_created key (host_key_secret namespace key) created

  unfoldable pub gateway_host_key : Text → Exec W Text
  unfolding ◌>>=◌ pure raise attempt if_found entry
  gateway_host_key namespace =
      if_found (api.secrets.get (record { namespace = namespace; name = host_key_name }))
        (λ secret. pure (stored_key secret)) (create_host_key namespace)
